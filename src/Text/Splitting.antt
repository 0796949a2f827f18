-- ===== src/Text/Splitting.antt =====
-- `strings.HasPrefix`, `strings.TrimPrefix`, `strings.Split` at one rune, and `strings.Join`.
use pve_manage.Prelude.{
  Bool-cases, inl, inr, ℕ, ◌≡◌, ◌≢◌, refl, ap, Bool, true, false, not, ◌&&◌, List, [], ◌∷◌, ◌++◌,
  arith, ◌==◌, if◌then◌else◌, all, All,
}
use pve_manage.Text.Equality.{Text}

unfoldable pub has_prefix : Text → Text → Bool
has_prefix s [] = true
has_prefix [] (p ∷ ps) = false
has_prefix (c ∷ s) (p ∷ ps) = c == p && has_prefix s ps

unfoldable pub drop_prefix : Text → Text → Text
drop_prefix s [] = s
drop_prefix [] (p ∷ ps) = []
drop_prefix (c ∷ s) (p ∷ ps) = drop_prefix s ps

unfoldable pub trim_prefix : Text → Text → Text
unfolding has_prefix drop_prefix
trim_prefix s p = if has_prefix s p then drop_prefix s p else s

abbrev pub on_head : ℕ → List Text → List Text
on_head c [] = (c ∷ []) ∷ []
on_head c (part ∷ parts) = (c ∷ part) ∷ parts

unfoldable pub split : ℕ → Text → List Text
split sep [] = [] ∷ []
split sep (c ∷ s) = let rest = split sep s in if c == sep then [] ∷ rest else on_head c rest

unfoldable pub join : ℕ → List Text → Text
join sep [] = []
join sep (part ∷ []) = part
join sep (part ∷ q ∷ parts) = part ++ sep ∷ join sep (q ∷ parts)

pub split-ne-nil : (sep : ℕ) (s : Text) → split sep s ≢ []
unfolding split
split-ne-nil sep [] h = cc
split-ne-nil sep (c ∷ s) h = ground (arith, split-ne-nil sep s)

join-on_head :
    (sep c : ℕ) (parts : List Text) → parts ≢ [] → join sep (on_head c parts) ≡ c ∷ join sep parts
unfolding join
join-on_head sep c [] h = absurd (h refl)
join-on_head sep c (p ∷ []) h = refl
join-on_head sep c (p ∷ q ∷ r) h = refl

join-nil : (sep : ℕ) (parts : List Text) → parts ≢ [] → join sep ([] ∷ parts) ≡ sep ∷ join sep parts
unfolding join
join-nil sep [] h = absurd (h refl)
join-nil sep (p ∷ ps) h = refl

-- Joining the parts of a text gives it back.
pub join-split : (sep : ℕ) (s : Text) → join sep (split sep s) ≡ s
unfolding split
join-split sep [] = unfold join in refl
join-split sep (c ∷ s) = ground (
  arith,
  join-split sep s,
  split-ne-nil sep s,
  join-nil sep (split sep s),
  join-on_head sep c (split sep s),
)

-- The separator does not occur.
abbrev pub lacks : ℕ → Text → Bool
lacks sep s = all (λ c. not (c == sep)) s

split-append :
    (sep : ℕ) (p s : Text) → lacks sep p ≡ true → split sep (p ++ sep ∷ s) ≡ p ∷ split sep s
unfolding split
split-append sep [] s h = ground arith
split-append sep (c ∷ p) s h = ground (arith, split-append sep p s)

split-lacks : (sep : ℕ) (p : Text) → lacks sep p ≡ true → split sep p ≡ p ∷ []
unfolding split
split-lacks sep [] h = refl
split-lacks sep (c ∷ p) h = ground (arith, split-lacks sep p)

-- Splitting what was joined gives the parts back, if there is one and none holds the separator.
pub split-join :
    (sep : ℕ) (parts : List Text)
    → parts ≢ []
    → All (λ p. lacks sep p ≡ true) parts
    → split sep (join sep parts) ≡ parts
unfolding join
split-join sep [] h k = absurd (h refl)
split-join sep (p ∷ []) h (k, _) = split-lacks sep p k
split-join sep (p ∷ q ∷ r) h (k, ks) =
    rw (split-append sep p (join sep (q ∷ r)) k)
      (ap (λ l. p ∷ l) (split-join sep (q ∷ r) (λ e. cc) ks))

-- No part of a text holds the separator.
pub split-All-lacks : (sep : ℕ) (s : Text) → All (λ p. lacks sep p ≡ true) (split sep s)
unfolding split
split-All-lacks sep [] = (refl, tt)
split-All-lacks sep (c ∷ s) = elim (Bool-cases (c == sep)) [
  | inl e ↦ rw e (refl, split-All-lacks sep s)
  | inr e ↦ rw e (on_head-All (split sep s) (split-All-lacks sep s) e)
]
  where
    on_head-All :
        (parts : List Text)
        → All (λ p. lacks sep p ≡ true) parts
        → (c == sep) ≡ false
        → All (λ p. lacks sep p ≡ true) (on_head c parts)
    on_head-All [] h e = (rw e refl, tt)
    on_head-All (p ∷ ps) (h, hs) e = (rw e h, hs)
