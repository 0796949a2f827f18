-- ===== src/Worker/Rewrites.antt =====
-- What the loop of `rewriteNet0` of internal/worker/worker.go makes of the parts of a device.
use pve_manage.Prelude.{
  ◌≡◌, refl, sym, ◌∙◌, ap, Bool, true, false, ◌||◌, List, [], ◌∷◌, ◌++◌, map, any, any-append, All,
  All-append, arith, Bool-cases, inl, inr,
}
use mathlib.Core.List.{map-append, append-nil}
use mathlib.Core.Path.{ap₂, subst}
use pve_manage.Text.{Text, codes, has_prefix, split, join, split-join, lacks}
use pve_manage.Worker.Net0.{
  bridge_part, is_bridge, is_firewall, rewrite_part, unless_seen, rewrite_parts, rewrite_net0,
}

or_right : (a b : Bool) → b ≡ true → (a || b) ≡ true
or_right a b h = ground arith

or_true : (a : Bool) → (a || true) ≡ true
or_true a = ground arith

module _ (bridge : Text) where
  pub bridge_is : is_bridge (bridge_part bridge) ≡ true
  unfolding has_prefix
  bridge_is = refl

  -- What a part becomes is left as it is.
  rewritten_part : (p : Text) → rewrite_part bridge (rewrite_part bridge p) ≡ rewrite_part bridge p
  unfolding has_prefix
  rewritten_part p = elim (Bool-cases (is_firewall p)) [
    | inl e ↦ rw e refl
    | inr e ↦ elim (Bool-cases (is_bridge p)) [
      | inl f ↦ rw e (rw f refl)
      | inr f ↦ rw e (rw f (rw e (rw f refl)))
    ]
  ]

  firewall_part : rewrite_part bridge (codes "firewall=1") ≡ codes "firewall=1"
  unfolding has_prefix
  firewall_part = refl

  own_part : rewrite_part bridge (bridge_part bridge) ≡ bridge_part bridge
  unfolding has_prefix
  own_part = refl

  pub apart : (p : Text) → is_bridge p ≡ true → is_firewall p ≡ false
  unfolding has_prefix
  apart [] h = refl
  apart (c ∷ s) h = ground arith

  seen_bridge :
      (ps : List Text)
      → any is_bridge ps ≡ true
      → any is_bridge (map (rewrite_part bridge) ps) ≡ true
  seen_bridge [] h = h
  seen_bridge (p ∷ ps) h = elim (Bool-cases (is_bridge p)) [
    | inl e ↦ rw (apart p e) (rw e (rw bridge_is refl))
    | inr e ↦ let k = seen_bridge ps (rw e at h) in or_right _ _ k
  ]

  seen_firewall :
      (ps : List Text)
      → any is_firewall ps ≡ true
      → any is_firewall (map (rewrite_part bridge) ps) ≡ true
  unfolding has_prefix
  seen_firewall [] h = h
  seen_firewall (p ∷ ps) h = elim (Bool-cases (is_firewall p)) [
    | inl e ↦ rw e refl
    | inr e ↦ let k = seen_firewall ps (rw e at h) in or_right _ _ k
  ]

  pub has_bridge : (ps : List Text) → any is_bridge (rewrite_parts bridge ps) ≡ true
  unfolding rewrite_parts
  has_bridge ps =
      any-append is_bridge (map (rewrite_part bridge) ps) _
      ∙ (elim (Bool-cases (any is_bridge ps)) [
        | inl e ↦ rw (seen_bridge ps e) refl
        | inr e ↦ rw e (rw bridge_is (or_true _))
      ])

  pub has_firewall : (ps : List Text) → any is_firewall (rewrite_parts bridge ps) ≡ true
  unfolding rewrite_parts has_prefix
  has_firewall ps =
      any-append is_firewall (map (rewrite_part bridge) ps) _
      ∙ (elim (Bool-cases (any is_firewall ps)) [
        | inl e ↦ rw (seen_firewall ps e) refl
        | inr e ↦ rw e (
            ap (λ b. any is_firewall (map (rewrite_part bridge) ps) || b)
              (any-append is_firewall (unless_seen (any is_bridge ps) (bridge_part bridge))
                  (codes "firewall=1" ∷ [])
                ∙ or_true (any is_firewall (unless_seen (any is_bridge ps) (bridge_part bridge))))
            ∙ or_true _)
      ])

  map_unless :
      (b : Bool) (p : Text)
      → rewrite_part bridge p ≡ p
      → map (rewrite_part bridge) (unless_seen b p) ≡ unless_seen b p
  map_unless true p h = refl
  map_unless false p h = ap (λ x. x ∷ []) h

  map_twice :
      (ps : List Text)
      → map (rewrite_part bridge) (map (rewrite_part bridge) ps) ≡ map (rewrite_part bridge) ps
  map_twice [] = refl
  map_twice (p ∷ ps) = ap₂ (λ x xs. x ∷ xs) (rewritten_part p) (map_twice ps)

  pub map_rewrite :
      (ps : List Text)
      → map (rewrite_part bridge) (rewrite_parts bridge ps) ≡ rewrite_parts bridge ps
  unfolding rewrite_parts
  map_rewrite ps =
      map-append (rewrite_part bridge) (map (rewrite_part bridge) ps) _
      ∙ ap₂ (λ xs ys. xs ++ ys) (map_twice ps)
          (map-append (rewrite_part bridge) (unless_seen (any is_bridge ps) (bridge_part bridge)) _
            ∙ ap₂ (λ xs ys. xs ++ ys) (map_unless (any is_bridge ps) _ own_part)
                (map_unless (any is_firewall ps) _ firewall_part))

  pub rewrite_parts_twice :
      (ps : List Text) → rewrite_parts bridge (rewrite_parts bridge ps) ≡ rewrite_parts bridge ps
  unfolding rewrite_parts
  rewrite_parts_twice ps =
      go (rewrite_parts bridge ps) (has_bridge ps) (has_firewall ps) ∙ map_rewrite ps
    where
      go :
          (qs : List Text)
          → any is_bridge qs ≡ true
          → any is_firewall qs ≡ true
          → rewrite_parts bridge qs ≡ map (rewrite_part bridge) qs
      go qs h k = rw h (rw k (append-nil _))

  rewrite_parts-All-lacks :
      (ps : List Text)
      → lacks 44 bridge ≡ true
      → All (λ p. lacks 44 p ≡ true) ps
      → All (λ p. lacks 44 p ≡ true) (rewrite_parts bridge ps)
  unfolding rewrite_parts
  rewrite_parts-All-lacks ps h k = All-append Free (map (rewrite_part bridge) ps) _ (mapped ps k) (
      All-append Free (unless_seen (any is_bridge ps) (bridge_part bridge)) _
        (added (any is_bridge ps) (bridge_part bridge) h)
        (added (any is_firewall ps) (codes "firewall=1") refl))
    where
      Free : Text → Type 0
      Free p = lacks 44 p ≡ true

      added : (b : Bool) (p : Text) → Free p → All Free (unless_seen b p)
      added true p e = tt
      added false p e = (e, tt)

      one : (p : Text) → Free p → Free (rewrite_part bridge p)
      one p e = elim (Bool-cases (is_firewall p)) [
        | inl f ↦ rw f refl
        | inr f ↦ elim (Bool-cases (is_bridge p)) [ inl g ↦ rw f (rw g h) | inr g ↦ rw f (rw g e) ]
      ]

      mapped : (qs : List Text) → All Free qs → All Free (map (rewrite_part bridge) qs)
      mapped [] e = tt
      mapped (q ∷ qs) (e, es) = (one q e, mapped qs es)

  pub rewritten_split :
      (ps : List Text)
      → lacks 44 bridge ≡ true
      → All (λ p. lacks 44 p ≡ true) ps
      → split 44 (join 44 (rewrite_parts bridge ps)) ≡ rewrite_parts bridge ps
  rewritten_split ps h k =
      split-join 44 (rewrite_parts bridge ps)
        (λ e.
          let b = has_bridge ps in
          let c : any is_bridge [] ≡ true = subst (λ x. any is_bridge x ≡ true) e b in absurd (cc))
        (rewrite_parts-All-lacks ps h k)

  pub again :
      (s : Text)
      → split 44 s ≡ rewrite_parts bridge (split 44 s)
      → s ≡ join 44 (split 44 s)
      → rewrite_net0 s bridge ≡ s
  unfolding rewrite_net0
  again [] h k = refl
  again (c ∷ s) h k = ap (join 44) (sym h) ∙ sym k
