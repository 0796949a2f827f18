-- ===== src/Vmname/Grammar.antt =====
-- The grammar of the names that `ValidatePVE` of internal/vmname/vmname.go checks.
use pve_manage.Prelude.{
  ℕ, ◌≡◌, ◌≢◌, ◌↔◌, refl, sym, ap, true, false, ◌||◌, List, [], ◌∷◌, ◌++◌, arith, ◌==◌, is_nil, All,
  Bool-cases, and_left, and_right, ◌⊎◌, inl, inr,
}
use mathlib.Core.Path.{subst}
use pve_manage.Text.{Text, trim_space, split, join, join-split, split-join, split-ne-nil, lacks}
use pve_manage.Vmname.{
  ascii_alpha_numeric, valid, invalid, last_rune, label_runes, label_valid, labels_valid,
  validate_pve,
}

abbrev pub IsAlphaNumeric : ℕ → Type 0
IsAlphaNumeric c = ascii_alpha_numeric c ≡ true

-- A letter or digit, or a run of letters, digits and hyphens between two of them.
pub data IsLabel : Text → Type 0 where
  single : (c : ℕ) → IsAlphaNumeric c → IsLabel (c ∷ [])
  run :
      (c d : ℕ) (middle : Text)
      → IsAlphaNumeric c
      → All (λ x. IsAlphaNumeric x ⊎ (x ≡ b'-')) middle
      → IsAlphaNumeric d
      → IsLabel (c ∷ middle ++ d ∷ [])

-- A DNS name: one or more labels with dots between them.
abbrev pub IsDnsName : Text → Type 0
IsDnsName name =
    (labels : List Text) × (labels ≢ []) × All IsLabel labels × (name ≡ join b'.' labels)

rune_ok : (c : ℕ) → (ascii_alpha_numeric c || c == b'-') ≡ true → IsAlphaNumeric c ⊎ (c ≡ b'-')
rune_ok c h = ground arith

-- A text without its last rune.
front : ℕ → Text → Text
front c [] = []
front c (d ∷ s) = c ∷ front d s

front-last : (c : ℕ) (s : Text) → front c s ++ last_rune c s ∷ [] ≡ c ∷ s
unfolding front
front-last c [] = refl
front-last c (d ∷ s) = ap (λ t. c ∷ t) (front-last d s)

front_runes :
    (c : ℕ) (s : Text)
    → label_runes (c ∷ s) ≡ true
    → All (λ x. IsAlphaNumeric x ⊎ (x ≡ b'-')) (front c s)
unfolding front
front_runes c [] h = tt
front_runes c (d ∷ s) h = (
  rune_ok c (and_left _ _ h),
  front_runes d s (and_right (ascii_alpha_numeric c || c == b'-') _ h),
)

label_valid_sound : (label : Text) → label_valid label ≡ true → IsLabel label
unfolding label_valid
label_valid_sound [] h = cc
label_valid_sound (c ∷ []) h = single c (ground arith)
label_valid_sound (c ∷ d ∷ s) h =
    subst (λ t. IsLabel (c ∷ t)) (front-last d s)
      (run c (last_rune d s) (front d s) (ground arith) (front_runes d s (ground arith))
        (ground arith))

last_rune-append : (c d : ℕ) (s : Text) → last_rune c (s ++ d ∷ []) ≡ d
last_rune-append c d [] = refl
last_rune-append c d (e ∷ s) = last_rune-append e d s

label_runes-append :
    (d : ℕ) (s : Text)
    → IsAlphaNumeric d
    → All (λ x. IsAlphaNumeric x ⊎ (x ≡ b'-')) s
    → label_runes (s ++ d ∷ []) ≡ true
label_runes-append d [] h k = ground arith
label_runes-append d (c ∷ s) h (k, ks) = ground (arith, label_runes-append d s h ks)

label_valid_complete : {label : Text} → IsLabel label → label_valid label ≡ true
unfolding label_valid
label_valid_complete (single c h) = ground arith
label_valid_complete (run c d middle h k l) =
    ground (arith, last_rune-append c d middle, label_runes-append d middle l k)

label_runes-lacks : (s : Text) → label_runes s ≡ true → lacks b'.' s ≡ true
unfolding ascii_alpha_numeric
label_runes-lacks [] h = refl
label_runes-lacks (c ∷ s) h = ground (arith, label_runes-lacks s)

IsLabel-lacks : {label : Text} → IsLabel label → lacks b'.' label ≡ true
IsLabel-lacks {label} h = label_runes-lacks label (runes_of label (label_valid_complete h))
  where
    runes_of : (s : Text) → label_valid s ≡ true → label_runes s ≡ true
    runes_of [] e = refl
    runes_of (c ∷ s) e = unfold label_valid in ground arith

labels_valid_sound : (labels : List Text) → labels_valid labels ≡ valid → All IsLabel labels
unfolding labels_valid
labels_valid_sound [] h = tt
labels_valid_sound (l ∷ ls) h = elim (Bool-cases (label_valid l)) [
  | inl e ↦ (label_valid_sound l e, labels_valid_sound ls (rw e at h))
  | inr e ↦ absurd (invalid_ne (rw e at h))
]
  where
    invalid_ne : invalid ≢ valid
    invalid_ne e = cc

labels_valid_complete : (labels : List Text) → All IsLabel labels → labels_valid labels ≡ valid
unfolding labels_valid
labels_valid_complete [] h = refl
labels_valid_complete (l ∷ ls) (h, hs) = rw (label_valid_complete h) (labels_valid_complete ls hs)

IsLabel-lacks-All :
    (labels : List Text) → All IsLabel labels → All (λ p. lacks b'.' p ≡ true) labels
IsLabel-lacks-All [] h = tt
IsLabel-lacks-All (l ∷ ls) (h, hs) = (IsLabel-lacks h, IsLabel-lacks-All ls hs)

join-ne-nil :
    (labels : List Text) → labels ≢ [] → All IsLabel labels → is_nil (join b'.' labels) ≡ false
unfolding join
join-ne-nil [] n h = absurd (n refl)
join-ne-nil (l ∷ []) n (h, _) = IsLabel-ne-nil h
  where
    IsLabel-ne-nil : {s : Text} → IsLabel s → is_nil s ≡ false
    IsLabel-ne-nil (single c k) = refl
    IsLabel-ne-nil (run c d middle k m j) = refl
join-ne-nil (l ∷ m ∷ ls) n h = append_cons_ne_nil l (join b'.' (m ∷ ls))
  where
    append_cons_ne_nil : (s t : Text) → is_nil (s ++ b'.' ∷ t) ≡ false
    append_cons_ne_nil [] t = refl
    append_cons_ne_nil (c ∷ s) t = refl

validate_pve_sound : (name : Text) → validate_pve name ≡ valid → IsDnsName (trim_space name)
unfolding validate_pve
validate_pve_sound name h = (
  split b'.' (trim_space name),
  split-ne-nil b'.' (trim_space name),
  labels_valid_sound (split b'.' (trim_space name)) (ground arith),
  sym (join-split b'.' (trim_space name)),
)

validate_pve_complete : (name : Text) → IsDnsName (trim_space name) → validate_pve name ≡ valid
unfolding validate_pve
validate_pve_complete name (labels, n, h, e) = rw e (
    rw (join-ne-nil labels n h)
      (rw (split-join b'.' labels n (IsLabel-lacks-All labels h)) (labels_valid_complete labels h)))

-- A VM name passes the check exactly when, without its outer white space, it is a DNS name: labels
-- joined by dots, each of letters, digits and hyphens, starting and ending with a letter or digit.
pub validate_pve_iff : (name : Text) → (validate_pve name ≡ valid) ↔ IsDnsName (trim_space name)
validate_pve_iff name = (validate_pve_sound name, validate_pve_complete name)
