-- ===== src/Api/Ipv4.antt =====
-- The address of a VM: `netParseIPv4` and `addIPv4` of internal/api/helpers.go, and `deriveIPv4` of
-- internal/api/common.go. `net.ParseIP` followed by `To4` is the parameter `to_v4`.
use pve_manage.Prelude.{ℕ, ◌+◌, ◌-◌, ◌/◌, ◌%◌, Option, none, some, ◌∷◌, ◌++◌, if◌then◌else◌}
use pve_manage.Prelude.Int.{ℤ, pos, negsuc, ◌+ℤ◌, ◌-ℤ◌, eqb_ℤ}
use pve_manage.Text.{Text, codes, numeral, itoa}
use pve_manage.Sql.{Except, ok, err}
use pve_manage.Config.{Cluster, BridgeConfig, bridge_by_key}

-- The four bytes of an address, the first one the highest.
pub record Octets : Type 0 where
  pub first : ℕ
  pub second : ℕ
  pub third : ℕ
  pub fourth : ℕ

-- `carry & 0xff` and `carry >> 8` of a signed number.
abbrev pub low_byte : ℤ → ℕ
low_byte (pos n) = n % 256
low_byte (negsuc n) = 255 - n % 256

abbrev pub shift : ℤ → ℤ
shift (pos n) = pos (n / 256)
shift (negsuc n) = negsuc (n / 256)

-- One round of the loop: the new byte, and the new carry.
unfoldable pub add_octet : ℕ → ℤ → ℕ × ℤ
add_octet octet carry =
    let sum = octet + low_byte carry in (sum % 256, shift carry +ℤ pos (sum / 256))

abbrev pub without_carry : Octets → ℤ → Except Text Octets
without_carry out carry = if eqb_ℤ carry (pos 0) then ok out else err (codes "ipv4 offset overflow")

-- `addIPv4`
unfoldable pub add_ipv4 : Octets → ℤ → Except Text Octets
add_ipv4 base offset =
    let (fourth, carry4) = add_octet base.fourth offset in
    let (third, carry3) = add_octet base.third carry4 in
    let (second, carry2) = add_octet base.second carry3 in
    let (first, carry1) = add_octet base.first carry2 in
    without_carry (record { first = first; second = second; third = third; fourth = fourth }) carry1

-- `ip.String()`
unfoldable pub octets_text : Octets → Text
octets_text o =
    numeral o.first ++ 46 ∷ (numeral o.second ++ 46 ∷ (numeral o.third ++ 46 ∷ numeral o.fourth))

abbrev pub with_length : ℤ → Except Text Octets → Except Text Text
with_length cidr (err e) = err e
with_length cidr (ok o) = ok (octets_text o ++ 47 ∷ itoa cidr)

abbrev pub derive_from : BridgeConfig → ℤ → Option Octets → Except Text Text
derive_from bridge offset none = err (codes "bridge has invalid ipv4 start_ip")
derive_from bridge offset (some base) = with_length bridge.ipv4.cidr (add_ipv4 base offset)

abbrev pub derive_on : (Text → Option Octets) → ℤ → Option BridgeConfig → Except Text Text
derive_on to_v4 offset none = err (codes "unknown bridge")
derive_on to_v4 offset (some bridge) = derive_from bridge offset (to_v4 bridge.ipv4.start_ip)

-- `deriveIPv4`
unfoldable pub derive_ipv4 : (Text → Option Octets) → Cluster → Text → ℕ → Except Text Text
derive_ipv4 to_v4 cluster bridge_key vmid =
    derive_on to_v4 (pos vmid -ℤ cluster.start_vmid) (bridge_by_key cluster bridge_key)
