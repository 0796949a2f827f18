-- ===== src/Text/Spaces.antt =====
-- `strings.TrimSpace` and `strings.ToLower`.
use pve_manage.Prelude.{
  ℕ, ◌+◌, ◌-◌, ◌≡◌, ◌≢◌, refl, ap, Bool, false, ◌&&◌, ◌||◌, [], ◌∷◌, ◌++◌, map, arith, leb, ◌==◌,
  if◌then◌else◌, is_nil, length, ◌≤◌, inl, inr, Bool-cases,
}
use pve_manage.Text.Equality.{Text}

-- `unicode.IsSpace`.
unfoldable pub is_space : ℕ → Bool
is_space c =
    (leb 9 c && leb c 13)
    || c == 32
    || c == 0x85
    || c == 0xa0
    || c == 0x1680
    || (leb 0x2000 c && leb c 0x200a)
    || c == 0x2028
    || c == 0x2029
    || c == 0x202f
    || c == 0x205f
    || c == 0x3000

unfoldable pub trim_left : Text → Text
trim_left [] = []
trim_left (c ∷ s) = let rest = trim_left s in if is_space c then rest else c ∷ s

unfoldable pub trim_right : Text → Text
trim_right [] = []
trim_right (c ∷ s) = let rest = trim_right s in if is_space c && is_nil rest then [] else c ∷ rest

unfoldable pub trim_space : Text → Text
trim_space s = trim_right (trim_left s)

-- Two runes beyond ASCII have lower-case forms in ASCII: the Kelvin sign and the dotted capital I.
unfoldable pub to_upper : Text → Text
to_upper = map (λ c.
    if leb b'a' c && leb c b'z'
    then c - 32
    else if c == 0x17f
    then b'S'
    else if c == 0x131
    then b'I'
    else c)

unfoldable pub to_lower : Text → Text
to_lower = map (λ c.
    if leb b'A' c && leb c b'Z'
    then c + 32
    else if c == 0x212a
    then b'k'
    else if c == 0x130
    then b'i'
    else c)

-- Neither end is white space.
abbrev pub IsTrimmed : Text → Type 0
IsTrimmed s = (trim_left s ≡ s) × (trim_right s ≡ s)

trim_left_idem : (s : Text) → trim_left (trim_left s) ≡ trim_left s
unfolding trim_left
trim_left_idem [] = refl
trim_left_idem (c ∷ s) = elim (Bool-cases (is_space c)) [
  | inl e ↦ rw e (trim_left_idem s)
  | inr e ↦ rw e (rw e)
]

trim_right_idem : (s : Text) → trim_right (trim_right s) ≡ trim_right s
unfolding trim_right
trim_right_idem [] = refl
trim_right_idem (c ∷ s) = elim (Bool-cases (is_space c && is_nil (trim_right s))) [
  | inl e ↦ rw e
  | inr e ↦ rw e (rw (trim_right_idem s, e))
]

length-trim_left : (s : Text) → length (trim_left s) ≤ length s
unfolding trim_left
length-trim_left [] = omega arith
length-trim_left (c ∷ s) = ground (arith, length-trim_left s)

trim_left_head : (c : ℕ) (s : Text) → trim_left (c ∷ s) ≡ c ∷ s → is_space c ≡ false
unfolding trim_left
trim_left_head c s h = elim (Bool-cases (is_space c)) [
  | inr e ↦ e
  | inl e ↦
      let k : trim_left s ≡ c ∷ s = rw e at h in
      absurd (omega (arith, length-trim_left s, ap length k))
]

append-ne-nil : (s t : Text) → t ≢ [] → is_nil (s ++ t) ≡ false
append-ne-nil [] [] h = absurd (h refl)
append-ne-nil [] (c ∷ t) h = refl
append-ne-nil (c ∷ s) t h = refl

-- What starts with a rune that is not a space keeps that rune on the right.
trim_left-trim_right : (s : Text) → trim_left s ≡ s → trim_left (trim_right s) ≡ trim_right s
unfolding trim_left trim_right
trim_left-trim_right [] h = refl
trim_left-trim_right (c ∷ s) h = let e = trim_left_head c s h in rw e (rw e)

pub trim_space-IsTrimmed : (s : Text) → IsTrimmed (trim_space s)
unfolding trim_space
trim_space-IsTrimmed s =
    (trim_left-trim_right (trim_left s) (trim_left_idem s), trim_right_idem (trim_left s))

pub trim_space_of_IsTrimmed : (s : Text) → IsTrimmed s → trim_space s ≡ s
unfolding trim_space
trim_space_of_IsTrimmed s (l, r) = rw (l, r)

trim_right-append : (s t : Text) → t ≢ [] → trim_right t ≡ t → trim_right (s ++ t) ≡ s ++ t
unfolding trim_right
trim_right-append [] t n h = h
trim_right-append (c ∷ s) t n h = ground (arith, trim_right-append s t n h, append-ne-nil s t n)

trim_left-append : (s t : Text) → s ≢ [] → trim_left s ≡ s → trim_left (s ++ t) ≡ s ++ t
unfolding trim_left
trim_left-append [] t n h = absurd (n refl)
trim_left-append (c ∷ s) t n h = rw (trim_left_head c s h)

pub append-IsTrimmed :
    (s t : Text) → s ≢ [] → t ≢ [] → trim_left s ≡ s → trim_right t ≡ t → IsTrimmed (s ++ t)
append-IsTrimmed s t n m h k = (trim_left-append s t n h, trim_right-append s t m k)

pub trim_right_cons :
    (c : ℕ) (s : Text) → is_space c ≡ false → trim_right s ≡ s → trim_right (c ∷ s) ≡ c ∷ s
unfolding trim_right
trim_right_cons c s h k = rw (h, k)
