-- ===== src/Config/Passed.antt =====
-- The guards and loops of `Validate` of internal/config/config.go, as they are passed.
use mathlib.Core.List.{Memᴰ}
use pve_manage.Prelude.{
  ◌≡◌, ◌↔◌, refl, sym, Bool, true, false, not, Option, none, some, List, [], ◌∷◌, arith, All,
  Bool-cases, inl, inr,
}
use pve_manage.Text.{Text, text_eq, text_eq_iff, contains_string}
use pve_manage.Config.Checks.{ConfigError, refuse, or_else, each}

-- Each check is passed where its condition is false and the rest is passed.
pub refuse_iff :
    (wrong : Bool) (e : ConfigError) (rest : Option ConfigError)
    → (refuse wrong e rest ≡ none) ↔ ((wrong ≡ false) × (rest ≡ none))
unfolding refuse
refuse_iff true e rest = (λ h. cc, λ (h, k). cc)
refuse_iff false e rest = (λ h. (refl, h), λ (h, k). k)

pub or_else_iff :
    (o rest : Option ConfigError) → (or_else o rest ≡ none) ↔ ((o ≡ none) × (rest ≡ none))
or_else_iff none rest = (λ h. (refl, h), λ (h, k). k)
or_else_iff (some e) rest = (λ h. cc, λ (h, k). cc)

pub each_iff :
    {A : Type 0} (f : A → Option ConfigError) (xs : List A) (rest : Option ConfigError)
    → (each f xs rest ≡ none) ↔ (All (λ x. f x ≡ none) xs × (rest ≡ none))
unfolding each
each_iff f [] rest = (λ h. (tt, h), λ (h, k). k)
each_iff f (x ∷ xs) rest = (
  λ h.
      let (p, q) = (or_else_iff (f x) (each f xs rest)).0 h in
      let (r, t) = (each_iff f xs rest).0 q in ((p, r), t),
  λ ((p, r), t). (or_else_iff (f x) (each f xs rest)).1 (p, (each_iff f xs rest).1 (r, t)),
)

pub one_of_iff : (xs : List Text) (s : Text) → (contains_string xs s ≡ true) ↔ Memᴰ s xs
unfolding contains_string
one_of_iff [] s = (λ h. absurd (cc), λ m. elim m [ ])
one_of_iff (x ∷ xs) s = (
  λ h. elim (Bool-cases (text_eq x s)) [
    | inl e ↦ Memᴰ.head (sym ((text_eq_iff x s).0 e))
    | inr e ↦ Memᴰ.tail ((one_of_iff xs s).0 (rw e at h))
  ],
  λ m. elim m [
    | Memᴰ.head e ↦ let k = (text_eq_iff x s).1 (sym e) in rw k refl
    | Memᴰ.tail n ↦ let k = (one_of_iff xs s).1 n in ground arith
  ],
)

pub false_of_not : (b : Bool) → not b ≡ false → b ≡ true
false_of_not b h = ground arith

pub not_of_true : (b : Bool) → b ≡ true → not b ≡ false
not_of_true b h = ground arith
