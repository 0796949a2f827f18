-- ===== src/Text/Numbers.antt =====
-- `strconv.Itoa`: decimal numerals. A numeral is read back by `strconv.Atoi`.
use pve_manage.Prelude.{
  ℕ, zero, suc, ◌+◌, ◌*◌, ◌/◌, ◌%◌, ◌<◌, ◌≡◌, refl, ◌∙◌, Bool, true, some, [], ◌∷◌, arith, ltb, leb,
  ◌&&◌, if◌then◌else◌, All, Bool-cases, inl, inr, ltb→lt, ltb-false, ap,
}
use pve_manage.Prelude.Int.{ℤ, pos, negsuc}
use pve_manage.Text.Equality.{Text}
use pve_manage.Text.Search.{digits}

abbrev pub is_digit : ℕ → Bool
is_digit c = leb 48 c && leb c 57

-- The digits of `n` before those of `rest`; the fuel exceeds `n`.
pub decimal : ℕ → ℕ → Text → Text
decimal zero n rest = rest
decimal (suc fuel) n rest =
    let more = decimal fuel (n / 10) ((48 + n % 10) ∷ rest) in
    if ltb n 10 then (48 + n) ∷ rest else more

unfoldable pub numeral : ℕ → Text
unfolding decimal
numeral n = decimal (suc n) n []

unfoldable pub itoa : ℤ → Text
unfolding numeral
itoa (pos n) = numeral n
itoa (negsuc n) = 45 ∷ numeral (suc n)

digits-cons :
    (m k : ℕ) (rest : Text) → k < 10 → digits m ((48 + k) ∷ rest) ≡ digits (10 * m + k) rest
unfolding digits
digits-cons m k rest h = ground arith

digits-decimal :
    (fuel n : ℕ) (rest : Text) → n < fuel → digits 0 (decimal fuel n rest) ≡ digits n rest
unfolding decimal
digits-decimal zero n rest h = absurd (omega arith)
digits-decimal (suc fuel) n rest h = elim (Bool-cases (ltb n 10)) [
  | inl small ↦
      rw small (digits-cons 0 n rest (ltb→lt n 10 small) ∙ ap (λ x. digits x rest) (omega arith))
  | inr large ↦ rw large (
      digits-decimal fuel (n / 10) ((48 + n % 10) ∷ rest) (omega (arith, ltb-false n 10 large))
      ∙ digits-cons (n / 10) (n % 10) rest (omega arith)
      ∙ ap (λ x. digits x rest) (omega arith))
]

-- A numeral is read back, so numerals of different numbers differ.
pub digits-numeral : (n : ℕ) → digits 0 (numeral n) ≡ some n
unfolding numeral digits
digits-numeral n = digits-decimal (suc n) n [] (omega arith) ∙ refl

digit : (k : ℕ) → k < 10 → is_digit (48 + k) ≡ true
digit k h = ground arith

decimal-digits :
    (fuel n : ℕ) (rest : Text)
    → All (λ c. is_digit c ≡ true) rest
    → All (λ c. is_digit c ≡ true) (decimal fuel n rest)
unfolding decimal
decimal-digits zero n rest h = h
decimal-digits (suc fuel) n rest h = elim (Bool-cases (ltb n 10)) [
  | inl small ↦ rw small (digit n (ltb→lt n 10 small), h)
  | inr large ↦
      rw large
        (decimal-digits fuel (n / 10) ((48 + n % 10) ∷ rest) (digit (n % 10) (omega arith), h))
]

pub numeral-digits : (n : ℕ) → All (λ c. is_digit c ≡ true) (numeral n)
unfolding numeral
numeral-digits n = decimal-digits (suc n) n [] tt
