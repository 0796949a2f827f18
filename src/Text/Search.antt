-- ===== src/Text/Search.antt =====
-- `strings.Contains`, `strings.SplitN(s, sep, 2)` and `strconv.Atoi`.
use pve_manage.Prelude.{
  ℕ, ◌+◌, ◌*◌, ◌-◌, Bool, ◌&&◌, ◌||◌, Option, none, some, [], ◌∷◌, leb, ◌==◌, if◌then◌else◌,
}
use pve_manage.Prelude.Int.{ℤ, pos, sub_ℕ}
use pve_manage.Text.Equality.{Text}
use pve_manage.Text.Splitting.{has_prefix}

unfoldable pub contains : Text → Text → Bool
contains [] sub = has_prefix [] sub
contains (c ∷ s) sub = has_prefix (c ∷ s) sub || contains s sub

-- The part before the first `sep`, if there is one.
unfoldable pub before : ℕ → Text → Option Text
before sep [] = none
before sep (c ∷ s) =
    let rest = before sep s in
    if c == sep then some [] else (elim rest [ none ↦ none | some t ↦ some (c ∷ t) ])

unfoldable pub digits : ℕ → Text → Option ℕ
digits n [] = some n
digits n (c ∷ s) =
    let rest = digits (10 * n + (c - 48)) s in if leb 48 c && leb c 57 then rest else none

abbrev signed : (ℕ → ℤ) → Option ℕ → ℤ
signed f none = pos 0
signed f (some n) = f n

-- A number of at least one digit.
abbrev number : Text → Option ℕ
number [] = none
number (c ∷ s) = digits 0 (c ∷ s)

-- `i, _ := strconv.Atoi(s)`, where the number fits an `int`.
unfoldable pub atoi : Text → ℤ
atoi [] = pos 0
atoi (c ∷ s) =
    if c == 45
    then signed (λ n. sub_ℕ 0 n) (number s)
    else if c == 43
    then signed pos (number s)
    else signed pos (number (c ∷ s))
