-- ===== src/Api/Addresses.antt =====
-- The addresses of the VMs of one bridge: `deriveIPv4` of internal/api/common.go gives different ids
-- different addresses.
use mathlib.Core.List.{append_assoc}
use pve_manage.Prelude.{
  ℕ, ◌+◌, ◌≡◌, refl, sym, ◌∙◌, ap, true, false, Option, none, some, [], ◌∷◌, ◌++◌, arith, All,
}
use pve_manage.Prelude.Int.{ℤ, pos, pos_part, neg_part, ◌-ℤ◌, int_laws}
use pve_manage.Text.{Text, digits, is_digit, numeral, digits-numeral, numeral-digits, itoa}
use pve_manage.Sql.{Except, ok, err}
use pve_manage.Config.{Cluster, BridgeConfig, bridge_by_key}
use pve_manage.Api.Ipv4.{
  Octets, add_ipv4, octets_text, with_length, derive_from, derive_on, derive_ipv4,
}
use pve_manage.Api.Ipv4Laws.{value, add_ipv4_iff}

-- Digits up to the first rune that is none are determined by the text.
cut_digits :
    (c : ℕ) (s t : Text) {s' t' : Text}
    → is_digit c ≡ false
    → All (λ d. is_digit d ≡ true) s
    → All (λ d. is_digit d ≡ true) t
    → s ++ c ∷ s' ≡ t ++ c ∷ t'
    → (s ≡ t) × (s' ≡ t')
cut_digits c [] [] e h k p = (refl, cc)
cut_digits c [] (y ∷ t) e h k p = let q : c ≡ y = cc in cc
cut_digits c (x ∷ s) [] e h k p = let q : x ≡ c = cc in cc
cut_digits c (x ∷ s) (y ∷ t) {s'} {t'} e (hx, h) (ky, k) p =
    let q : s ++ c ∷ s' ≡ t ++ c ∷ t' = cc in let (a, b) = cut_digits c s t e h k q in (cc, b)

numeral_injective : (m n : ℕ) → numeral m ≡ numeral n → m ≡ n
numeral_injective m n h =
    let q : some m ≡ some n = sym (digits-numeral m) ∙ ap (digits 0) h ∙ digits-numeral n in cc

cut_numeral :
    (c m n : ℕ) {s t : Text}
    → is_digit c ≡ false
    → numeral m ++ c ∷ s ≡ numeral n ++ c ∷ t
    → (m ≡ n) × (s ≡ t)
cut_numeral c m n e h =
    let (p, q) = cut_digits c (numeral m) (numeral n) e (numeral-digits m) (numeral-digits n) h in
    (numeral_injective m n p, q)

octets_text_slash :
    (o : Octets) (s : Text)
    → octets_text o ++ 47 ∷ s
      ≡ numeral o.first
        ++ 46 ∷ (numeral o.second ++ 46 ∷ (numeral o.third ++ 46 ∷ (numeral o.fourth ++ 47 ∷ s)))
unfolding octets_text
octets_text_slash o s = simp (append_assoc)

octets_text_injective :
    (o p : Octets) (s : Text)
    → octets_text o ++ 47 ∷ s ≡ octets_text p ++ 47 ∷ s
    → value o ≡ value p
octets_text_injective o p s h =
    let k = sym (octets_text_slash o s) ∙ h ∙ octets_text_slash p s in
    let (a, k1) = cut_numeral 46 o.first p.first refl k in
    let (b, k2) = cut_numeral 46 o.second p.second refl k1 in
    let (c, k3) = cut_numeral 46 o.third p.third refl k2 in
    let (d, k4) = cut_numeral 47 o.fourth p.fourth refl k3 in omega arith

-- The number of the address, from the sum.
address_number :
    (base out : Octets) (offset : ℤ)
    → add_ipv4 base offset ≡ ok out
    → value base + pos_part offset ≡ value out + neg_part offset
address_number base out offset h =
    let e = ((add_ipv4_iff base offset out).0 h).1 in omega (int_laws, ap pos_part e, ap neg_part e)

same_offset :
    (cidr : ℤ) (base : Octets) (x y : ℤ) (p q : Except Text Octets) {t : Text}
    → add_ipv4 base x ≡ p
    → add_ipv4 base y ≡ q
    → with_length cidr p ≡ ok t
    → with_length cidr q ≡ ok t
    → pos_part x + neg_part y ≡ pos_part y + neg_part x
same_offset cidr base x y (err e) q hp hq h k = cc
same_offset cidr base x y (ok o) (err e) hp hq h k = cc
same_offset cidr base x y (ok o) (ok p) hp hq h k =
    let e : octets_text o ++ 47 ∷ itoa cidr ≡ octets_text p ++ 47 ∷ itoa cidr = cc in
    omega (
      arith,
      octets_text_injective o p (itoa cidr) e,
      address_number base o x hp,
      address_number base p y hq,
    )

same_derived :
    (to_v4 : Text → Option Octets) (x y : ℤ) (o : Option BridgeConfig) {t : Text}
    → derive_on to_v4 x o ≡ ok t
    → derive_on to_v4 y o ≡ ok t
    → pos_part x + neg_part y ≡ pos_part y + neg_part x
same_derived to_v4 x y none h k = cc
same_derived to_v4 x y (some bridge) h k = from (to_v4 bridge.ipv4.start_ip) h k
  where
    from :
        (b : Option Octets) {t : Text}
        → derive_from bridge x b ≡ ok t
        → derive_from bridge y b ≡ ok t
        → pos_part x + neg_part y ≡ pos_part y + neg_part x
    from none h k = cc
    from (some base) h k = same_offset bridge.ipv4.cidr base x y _ _ refl refl h k

-- Two ids of VMs on one bridge of a cluster are given different addresses: where `deriveIPv4` yields
-- the same text for both, they are one id.
pub derive_ipv4_injective :
    (to_v4 : Text → Option Octets) (cluster : Cluster) (bridge_key : Text) (m n : ℕ)
    (address : Text)
    → derive_ipv4 to_v4 cluster bridge_key m ≡ ok address
    → derive_ipv4 to_v4 cluster bridge_key n ≡ ok address
    → m ≡ n
unfolding derive_ipv4
derive_ipv4_injective to_v4 cluster bridge_key m n address h k = omega (
  int_laws,
  same_derived to_v4 (pos m -ℤ cluster.start_vmid) (pos n -ℤ cluster.start_vmid)
      (bridge_by_key cluster bridge_key) h k,
)
