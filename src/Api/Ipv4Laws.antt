-- ===== src/Api/Ipv4Laws.antt =====
-- What `addIPv4` and `deriveIPv4` compute: a sum of 32-bit numbers, and addresses that differ.
use mathlib.Core.Path.{subst}
use mathlib.Core.Logic.{◌↔◌}
use pve_manage.Prelude.{ℕ, ◌+◌, ◌*◌, ◌<◌, ◌≡◌, ◌∙◌, ap, arith, Bool-cases, inl, inr}
use pve_manage.Prelude.Int.{ℤ, pos, negsuc, pos_part, neg_part, ◌+ℤ◌, int_laws, eq_of_parts, eqb_ℤ}
use pve_manage.Text.{Text}
use pve_manage.Sql.{Except, ok, err}
use pve_manage.Api.Ipv4.{Octets, add_octet, add_ipv4, without_carry}

abbrev pub value : Octets → ℕ
value o = 16_777_216 * o.first + 65_536 * o.second + 256 * o.third + o.fourth

pub record IsBytes (o : Octets) : Type 0 where
  pub first : o.first < 256
  pub second : o.second < 256
  pub third : o.third < 256
  pub fourth : o.fourth < 256

-- A byte and its carry hold the sum, in base 256.
add_octet_sum :
    (octet : ℕ) (carry : ℤ)
    → octet + pos_part carry + 256 * neg_part (add_octet octet carry).1
      ≡ (add_octet octet carry).0 + 256 * pos_part (add_octet octet carry).1 + neg_part carry
unfolding add_octet ◌+ℤ◌
add_octet_sum octet (pos n) = ground arith
add_octet_sum octet (negsuc n) = ground arith

add_octet_byte : (octet : ℕ) (carry : ℤ) → (add_octet octet carry).0 < 256
unfolding add_octet
add_octet_byte octet carry = omega arith

without_carry_ok :
    (o out : Octets) (carry : ℤ)
    → without_carry o carry ≡ ok out
    → (o ≡ out) × (pos_part carry ≡ neg_part carry)
without_carry_ok o out carry h = elim (Bool-cases (eqb_ℤ carry (pos 0))) [
  | inl e ↦ let k : ◌≡◌ {A = Except Text Octets} (ok o) (ok out) = rw e at h in (cc, ground arith)
  | inr e ↦ let k : ◌≡◌ {A = Except Text Octets} (err _) (ok out) = rw e at h in cc
]

no_carry : (o : Octets) (carry : ℤ) → pos_part carry ≡ neg_part carry → without_carry o carry ≡ ok o
no_carry o carry h = ground arith

Octets-eq :
    (o p : Octets)
    → o.first ≡ p.first
    → o.second ≡ p.second
    → o.third ≡ p.third
    → o.fourth ≡ p.fourth
    → o ≡ p
Octets-eq o p h k l m = ground arith

module _ (base : Octets) (offset : ℤ) where
  abbrev low : ℕ × ℤ
  low = add_octet base.fourth offset

  abbrev middle : ℕ × ℤ
  middle = add_octet base.third low.1

  abbrev high : ℕ × ℤ
  high = add_octet base.second middle.1

  abbrev top : ℕ × ℤ
  top = add_octet base.first high.1

  abbrev total : Octets
  total = record { first = top.0; second = high.0; third = middle.0; fourth = low.0 }

  total-IsBytes : IsBytes total
  total-IsBytes = record {
    first = add_octet_byte base.first high.1;
    second = add_octet_byte base.second middle.1;
    third = add_octet_byte base.third low.1;
    fourth = add_octet_byte base.fourth offset;
  }

  -- The whole sum, with the carry out of the highest byte.
  total_sum :
      value base + pos_part offset + 4_294_967_296 * neg_part top.1
      ≡ value total + 4_294_967_296 * pos_part top.1 + neg_part offset
  total_sum = omega (
    arith,
    add_octet_sum base.fourth offset,
    add_octet_sum base.third low.1,
    add_octet_sum base.second middle.1,
    add_octet_sum base.first high.1,
  )

  forth :
      (out : Octets)
      → without_carry total top.1 ≡ ok out
      → IsBytes out × (pos (value base) +ℤ offset ≡ pos (value out))
  forth out h =
      let (e, k) = without_carry_ok total out top.1 h in
      (
        subst IsBytes e total-IsBytes,
        eq_of_parts _ _ (omega (int_laws, eq_of_parts, total_sum, ap value e, k)),
      )

  same_bytes :
      (out : Octets)
      → IsBytes out
      → value base + pos_part offset ≡ value out + neg_part offset
      → (pos_part top.1 ≡ neg_part top.1)
        × (total.first ≡ out.first)
        × (total.second ≡ out.second)
        × (total.third ≡ out.third)
        × (total.fourth ≡ out.fourth)
  same_bytes out b h =
      let t = total-IsBytes in
      (
        omega (arith, total_sum),
        omega (arith, total_sum),
        omega (arith, total_sum),
        omega (arith, total_sum),
        omega (arith, total_sum),
      )

  back :
      (out : Octets)
      → IsBytes out × (pos (value base) +ℤ offset ≡ pos (value out))
      → without_carry total top.1 ≡ ok out
  back out (b, h) =
      let (k, k1, k2, k3, k4) =
        same_bytes out b (omega (int_laws, eq_of_parts, ap pos_part h, ap neg_part h)) in
      no_carry total top.1 k ∙ ap ok (Octets-eq total out k1 k2 k3 k4)

  -- `addIPv4` yields the address whose number is that of the base and the offset together, and
  -- yields none exactly where that is no 32-bit number.
  pub add_ipv4_iff :
      (out : Octets)
      → (add_ipv4 base offset ≡ ok out)
        ↔ (IsBytes out × (pos (value base) +ℤ offset ≡ pos (value out)))
  unfolding add_ipv4
  add_ipv4_iff out = (forth out, back out)
