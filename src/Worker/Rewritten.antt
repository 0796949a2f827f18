-- ===== src/Worker/Rewritten.antt =====
-- What `rewriteNet0` of internal/worker/worker.go makes of a device.
use pve_manage.Prelude.{
  ◌≡◌, ◌≢◌, refl, sym, ◌∙◌, ap, Bool, true, false, not, ◌||◌, List, [], ◌∷◌, ◌++◌, map, any, filter,
  All, All-weaken, arith, Bool-cases, inl, inr,
}
use mathlib.Core.Path.{subst}
use pve_manage.Text.{
  Text, codes, has_prefix, split, join, split-All-lacks, lacks, text_eq, text_eq_refl,
}
use pve_manage.Worker.Net0.{
  bridge_part, is_bridge, is_firewall, rewrite_part, unless_seen, rewrite_parts, rewrite_net0,
}
use pve_manage.Worker.Rewrites.{
  map_rewrite, has_bridge, has_firewall, rewrite_parts_twice, rewritten_split, again, apart,
}

-- A part that says nothing of the bridge or the firewall.
abbrev pub is_other : Text → Bool
is_other p = not (has_prefix p (codes "bridge=") || has_prefix p (codes "firewall="))

-- The parts of a device after it was rewritten for `bridge`, from those before.
pub record IsRewritten (bridge : Text) (before after : List Text) : Type 0 where
  pub names_bridge : any (λ p. text_eq p (codes "bridge=" ++ bridge)) after ≡ true
  pub only_bridge :
      All (λ p. has_prefix p (codes "bridge=") ≡ true → p ≡ codes "bridge=" ++ bridge) after
  pub names_firewall : any (λ p. text_eq p (codes "firewall=1")) after ≡ true
  pub only_firewall :
      All (λ p. has_prefix p (codes "firewall=") ≡ true → p ≡ codes "firewall=1") after
  pub keeps_others : filter is_other after ≡ filter is_other before

or_right : (a b : Bool) → b ≡ true → (a || b) ≡ true
or_right a b h = ground arith

module _ (bridge : Text) where
  abbrev Fixed : Text → Type 0
  Fixed p = rewrite_part bridge p ≡ p

  fixed : (qs : List Text) → map (rewrite_part bridge) qs ≡ qs → All Fixed qs
  fixed [] e = tt
  fixed (q ∷ qs) e = (cc, fixed qs (cc))

  Fixed-bridge : (p : Text) → Fixed p → is_bridge p ≡ true → p ≡ codes "bridge=" ++ bridge
  Fixed-bridge p h e =
      let k = rw (apart bridge p e) at h in let m : bridge_part bridge ≡ p = rw e at k in sym m

  Fixed-firewall : (p : Text) → Fixed p → is_firewall p ≡ true → p ≡ codes "firewall=1"
  Fixed-firewall p h e = let m : codes "firewall=1" ≡ p = rw e at h in sym m

  -- A part that has the prefix is the one text that such a part can be.
  named :
      (test : Text → Bool) (word : Text) (qs : List Text)
      → ((p : Text) → Fixed p → test p ≡ true → p ≡ word)
      → All Fixed qs
      → any test qs ≡ true
      → any (λ p. text_eq p word) qs ≡ true
  named test word [] one h e = e
  named test word (q ∷ qs) one (h, hs) e = elim (Bool-cases (test q)) [
    | inl f ↦ rw (one q h f) (rw (text_eq_refl word) refl)
    | inr f ↦ let k = named test word qs one hs (rw f at e) in or_right (text_eq q word) _ k
  ]

  other_part :
      (p : Text) (xs ys : List Text)
      → filter is_other xs ≡ filter is_other ys
      → filter is_other (rewrite_part bridge p ∷ xs) ≡ filter is_other (p ∷ ys)
  unfolding has_prefix
  other_part p xs ys h = elim (Bool-cases (is_firewall p)) [
    | inl e ↦ elim (Bool-cases (is_bridge p)) [ inl f ↦ rw e (rw f h) | inr f ↦ rw e (rw f h) ]
    | inr e ↦ elim (Bool-cases (is_bridge p)) [
      | inl f ↦ rw e (rw f h)
      | inr f ↦ rw e (rw f (rw e (rw f (ap (λ zs. p ∷ zs) h))))
    ]
  ]

  others :
      (ps extra : List Text)
      → filter is_other extra ≡ []
      → filter is_other (map (rewrite_part bridge) ps ++ extra) ≡ filter is_other ps
  others [] extra h = h
  others (p ∷ ps) extra h = other_part p _ _ (others ps extra h)

  added_others :
      (a b : Bool)
      → filter is_other (unless_seen a (bridge_part bridge) ++ unless_seen b (codes "firewall=1"))
        ≡ []
  unfolding has_prefix
  added_others true true = refl
  added_others true false = refl
  added_others false true = refl
  added_others false false = refl

  rewrite_parts-IsRewritten : (ps : List Text) → IsRewritten bridge ps (rewrite_parts bridge ps)
  unfolding rewrite_parts
  rewrite_parts-IsRewritten ps =
      let all = fixed (rewrite_parts bridge ps) (map_rewrite bridge ps) in
      record {
        names_bridge =
            named is_bridge (codes "bridge=" ++ bridge) (rewrite_parts bridge ps) Fixed-bridge all
              (has_bridge bridge ps);
        only_bridge = All-weaken Fixed _ (rewrite_parts bridge ps) Fixed-bridge all;
        names_firewall =
            named is_firewall (codes "firewall=1") (rewrite_parts bridge ps) Fixed-firewall all
              (has_firewall bridge ps);
        only_firewall = All-weaken Fixed _ (rewrite_parts bridge ps) Fixed-firewall all;
        keeps_others = others ps _ (added_others (any is_bridge ps) (any is_firewall ps));
      }

  -- Where the device is not empty and the bridge has no comma, the rewritten device has the part
  -- `bridge=` with that bridge and the part `firewall=1`, no other part that begins with `bridge=` or
  -- `firewall=`, and the remaining parts as they were and in their order. Rewriting it again changes
  -- nothing.
  pub rewrite_net0_done :
      (raw : Text)
      → raw ≢ []
      → lacks 44 bridge ≡ true
      → IsRewritten bridge (split 44 raw) (split 44 (rewrite_net0 raw bridge))
        × (rewrite_net0 (rewrite_net0 raw bridge) bridge ≡ rewrite_net0 raw bridge)
  unfolding rewrite_net0
  rewrite_net0_done [] h k = absurd (h refl)
  rewrite_net0_done (c ∷ s) h k =
      let ps = split 44 (c ∷ s) in
      let parts = rewritten_split bridge ps k (split-All-lacks 44 (c ∷ s)) in
      (
        subst (IsRewritten bridge ps) (sym parts) (rewrite_parts-IsRewritten ps),
        again bridge (join 44 (rewrite_parts bridge ps))
            (parts ∙ sym (ap (rewrite_parts bridge) parts ∙ rewrite_parts_twice bridge ps))
            (ap (join 44) (sym parts)),
      )
