-- ===== src/Vmname.antt =====
-- internal/vmname/vmname.go, and `stripVMNamePrefix` of internal/api/vm_handlers.go.
pub mod Grammar
pub mod Prefix
use pve_manage.Prelude.{
  ℕ, Bool, true, false, not, ◌&&◌, ◌||◌, List, [], ◌∷◌, ◌++◌, leb, ◌==◌, if◌then◌else◌, is_nil,
}
use pve_manage.Text.{Text, trim_space, has_prefix, trim_prefix, split}

unfoldable pub ascii_alpha_numeric : ℕ → Bool
ascii_alpha_numeric c =
    leb c 127
    && ((leb b'a' c && leb c b'z') || (leb b'A' c && leb c b'Z') || (leb b'0' c && leb c b'9'))

-- `owner + "-"`
abbrev pub owner_prefix : Text → Text
owner_prefix owner = owner ++ b'-' ∷ []

pub prefix_trimmed : Text → Text → Text
prefix_trimmed owner name =
    if is_nil owner || is_nil name
    then name
    else if has_prefix name (owner_prefix owner)
    then name
    else owner_prefix owner ++ name

unfoldable pub prefixed : Text → Text → Text
unfolding prefix_trimmed
prefixed owner name = prefix_trimmed (trim_space owner) (trim_space name)

pub data NameError : Type 0 where
  valid required invalid : NameError

-- `label[len(label)-1]`, read where the label is not empty.
abbrev pub last_rune : ℕ → Text → ℕ
last_rune c [] = c
last_rune c (d ∷ s) = last_rune d s

-- `for _, char := range label`
abbrev pub label_runes : Text → Bool
label_runes [] = true
label_runes (c ∷ s) = (ascii_alpha_numeric c || c == b'-') && label_runes s

pub label_valid : Text → Bool
label_valid [] = false
label_valid (c ∷ s) =
    if not (ascii_alpha_numeric c) || not (ascii_alpha_numeric (last_rune c s))
    then false
    else label_runes (c ∷ s)

-- The loop over the labels.
pub labels_valid : List Text → NameError
unfolding label_valid
labels_valid [] = valid
labels_valid (label ∷ labels) =
    let rest = labels_valid labels in if label_valid label then rest else invalid

validate_trimmed : Text → NameError
unfolding labels_valid
validate_trimmed name = if is_nil name then required else labels_valid (split b'.' name)

unfoldable pub validate_pve : Text → NameError
unfolding validate_trimmed
validate_pve name = validate_trimmed (trim_space name)

unfoldable pub validate_managed : Text → Text → NameError
validate_managed owner name = validate_pve (prefixed owner name)

pub strip_trimmed : Text → Text → Text
strip_trimmed owner name =
    if is_nil owner || is_nil name
    then name
    else if has_prefix name (owner_prefix owner)
    then trim_prefix name (owner_prefix owner)
    else name

unfoldable pub strip_vm_name_prefix : Text → Text → Text
unfolding strip_trimmed
strip_vm_name_prefix owner name = strip_trimmed (trim_space owner) (trim_space name)
