-- ===== src/Vmname/Prefix.antt =====
-- The owner's prefix: `Prefixed` of internal/vmname/vmname.go and `stripVMNamePrefix` of the API.
use pve_manage.Prelude.{
  ℕ, ◌≡◌, ◌≢◌, refl, sym, ap, ◌∙◌, true, false, ◌||◌, [], ◌∷◌, ◌++◌, arith, is_nil, Bool-cases, inl,
  inr,
}
use mathlib.Core.List.{append_assoc}
use pve_manage.Text.{
  Text, trim_space, has_prefix, drop_prefix, trim_prefix, IsTrimmed, trim_space-IsTrimmed,
  trim_space_of_IsTrimmed, append-IsTrimmed, trim_right_cons, is_space,
}
use pve_manage.Vmname.{owner_prefix, prefix_trimmed, strip_trimmed, prefixed, strip_vm_name_prefix}

has_prefix-append : (p s : Text) → has_prefix (p ++ s) p ≡ true
unfolding has_prefix
has_prefix-append [] s = refl
has_prefix-append (c ∷ p) s = ground (arith, has_prefix-append p s)

drop_prefix-append : (p s : Text) → drop_prefix (p ++ s) p ≡ s
unfolding drop_prefix
drop_prefix-append [] s = refl
drop_prefix-append (c ∷ p) s = drop_prefix-append p s

is_nil_append : (s t : Text) (c : ℕ) → is_nil ((s ++ c ∷ []) ++ t) ≡ false
is_nil_append [] t c = refl
is_nil_append (d ∷ s) t c = refl

is_nil-false : (s : Text) → is_nil s ≡ false → s ≢ []
is_nil-false [] h e = cc
is_nil-false (c ∷ s) h e = cc

-- The prefix put before a trimmed name leaves nothing to trim.
prefix-IsTrimmed :
    (owner name : Text)
    → is_nil owner ≡ false
    → is_nil name ≡ false
    → IsTrimmed owner
    → IsTrimmed name
    → IsTrimmed (owner_prefix owner ++ name)
prefix-IsTrimmed owner name n m h k = rw (append_assoc owner (b'-' ∷ []) name) (
    append-IsTrimmed owner (b'-' ∷ name) (is_nil-false owner n) (λ e. cc) h.0
      (trim_right_cons b'-' name (unfold is_space in refl) k.1))

prefix_trimmed-IsTrimmed :
    (owner name : Text) → IsTrimmed owner → IsTrimmed name → IsTrimmed (prefix_trimmed owner name)
unfolding prefix_trimmed
prefix_trimmed-IsTrimmed owner name h k = elim (Bool-cases (is_nil owner || is_nil name)) [
  | inl e ↦ rw e k
  | inr e ↦ elim (Bool-cases (has_prefix name (owner_prefix owner))) [
    | inl f ↦ rw (e, f) k
    | inr f ↦ rw (e, f) (prefix-IsTrimmed owner name (ground arith) (ground arith) h k)
  ]
]

prefixed_lem :
    (owner name : Text) → prefixed owner name ≡ prefix_trimmed (trim_space owner) (trim_space name)
unfolding prefixed
prefixed_lem owner name = refl

module _ (owner name : Text) where
  prefix_trimmed_idem : prefix_trimmed owner (prefix_trimmed owner name) ≡ prefix_trimmed owner name
  unfolding prefix_trimmed
  prefix_trimmed_idem =
      ground (arith, has_prefix-append (owner_prefix owner) name, is_nil_append owner name b'-')

  strip_trimmed-prefix_trimmed :
      has_prefix name (owner_prefix owner) ≡ false
      → strip_trimmed owner (prefix_trimmed owner name) ≡ name
  unfolding prefix_trimmed strip_trimmed trim_prefix
  strip_trimmed-prefix_trimmed h = ground (
    arith,
    has_prefix-append (owner_prefix owner) name,
    drop_prefix-append (owner_prefix owner) name,
    is_nil_append owner name b'-',
  )

  prefixed-IsTrimmed : trim_space (prefixed owner name) ≡ prefixed owner name
  unfolding prefixed
  prefixed-IsTrimmed =
      trim_space_of_IsTrimmed (prefix_trimmed (trim_space owner) (trim_space name)) (
        prefix_trimmed-IsTrimmed (trim_space owner) (trim_space name) (trim_space-IsTrimmed owner)
          (trim_space-IsTrimmed name))

-- Prefixing a name with its owner twice is prefixing it once.
pub prefixed_idem : (owner name : Text) → prefixed owner (prefixed owner name) ≡ prefixed owner name
prefixed_idem owner name =
    prefixed_lem owner (prefixed owner name)
    ∙ ap (prefix_trimmed (trim_space owner)) (prefixed-IsTrimmed owner name)
    ∙ ap (prefix_trimmed (trim_space owner)) (prefixed_lem owner name)
    ∙ prefix_trimmed_idem (trim_space owner) (trim_space name)
    ∙ sym (prefixed_lem owner name)

-- Stripping the owner's prefix from a prefixed name gives back the name without its outer white
-- space, if that name did not bring the prefix itself.
pub strip-prefixed :
    (owner name : Text)
    → has_prefix (trim_space name) (owner_prefix (trim_space owner)) ≡ false
    → strip_vm_name_prefix owner (prefixed owner name) ≡ trim_space name
unfolding strip_vm_name_prefix
strip-prefixed owner name h =
    ap (strip_trimmed (trim_space owner)) (prefixed-IsTrimmed owner name ∙ prefixed_lem owner name)
    ∙ strip_trimmed-prefix_trimmed (trim_space owner) (trim_space name) h
