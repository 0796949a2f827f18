-- ===== src/Examples/Firewall.antt =====
-- The theorems on the Proxmox client at a firewall that is held in memory.
use pve_manage.Prelude.{
  ℕ, zero, suc, ◌≡◌, ◌≢◌, refl, sym, ◌∙◌, ap, ◌↔◌, Bool, true, false, not, none, some, inl, inr,
  List, [], ◌∷◌, ◌++◌, if◌then◌else◌, filter, any, Bool-cases, map,
}
use pve_manage.Prelude.Int.{pos}
use mathlib.Core.List.{map-append}
use mathlib.Core.Path.{subst}
use text.Mathlib.Text.{◌==◌ as key_eq}
use pve_manage.Text.{Text, codes, itoa, text_eq, text_eq_iff, text_eq_refl, contains}
use pve_manage.Json.{Object, str, num, get}
use pve_manage.Sql.{Except, ok, err}
use pve_manage.Sql.Ensures.{ok_injective}
use pve_manage.Client.{Method, Values, Requests}
use pve_manage.Client.Firewall.{clear_firewall_rules, pos_of, is_already_exists_err}
use pve_manage.Client.Ipset.{Net, canonical_ipset_cidr, cidr_of, ensure_vm_ipset}
use pve_manage.Client.Steps.{Has, Has-append, Has-left, Has-right, Grown, IsIpset}
use pve_manage.Client.Cleared.{IsRules, upward, clear_firewall_rules_clears}
use pve_manage.Client.Ensured.{IsSets, ensure_vm_ipset_converges}

-- A list of rules, as the number of them; the last one can be deleted.
abbrev listed : ℕ → List Object
listed zero = []
listed (suc n) = listed n ++ (("pos", num (pos n)) ∷ []) ∷ []

abbrev delete_last : Text → ℕ → Except Text (List Object) × ℕ
delete_last path zero = (err (codes "no rule at this position"), zero)
delete_last path (suc n) =
    if text_eq path (codes "/rules" ++ 47 ∷ itoa (pos n))
    then (ok [], n)
    else (err (codes "no rule at this position"), suc n)

abbrev rule_requests : Requests ℕ
rule_requests cluster_key Method.get path params n = (ok (listed n), n)
rule_requests cluster_key Method.post path params n = (ok [], suc n)
rule_requests cluster_key Method.put path params n = (ok [], n)
rule_requests cluster_key Method.delete path params n = delete_last path n

listed-upward : (n : ℕ) → map pos_of (listed n) ≡ upward n
unfolding get
listed-upward zero = refl
listed-upward (suc n) =
    map-append pos_of (listed n) ((("pos", num (pos n)) ∷ []) ∷ [])
    ∙ ap (λ xs. xs ++ pos n ∷ []) (listed-upward n)

last_deleted : (n p : ℕ) → p ≡ suc n → (delete_last (codes "/rules" ++ 47 ∷ itoa (pos n)) p).1 ≡ n
last_deleted n p e =
    ap (λ m. (delete_last (codes "/rules" ++ 47 ∷ itoa (pos n)) m).1) e
    ∙ rw (text_eq_refl (codes "/rules" ++ 47 ∷ itoa (pos n))) refl

rules_IsRules : IsRules rule_requests (λ s. s) (codes "main") (codes "/rules") (λ n. n)
rules_IsRules = record {
  lists = λ p found h. ap (map pos_of) (sym (ok_injective h)) ∙ listed-upward p;
  lists_only = λ p. refl;
  deletes = λ p n found e h. last_deleted n p e;
}

clear_firewall_rules_clears_example :
    (clear_firewall_rules rule_requests (λ s. s) (codes "main") (codes "/rules") 3).1 ≡ 0
unfolding clear_firewall_rules pve_manage.Sql.◌>>=◌ pve_manage.Client.Firewall.delete_rules
    pve_manage.Sql.◌>>◌ text_eq itoa get
clear_firewall_rules_clears_example =
    clear_firewall_rules_clears rule_requests (λ s. s) (codes "main") (codes "/rules") (λ n. n)
      rules_IsRules 3 tt refl

-- Networks and addresses of IPv4 as far as the sample needs them.
abbrev sample_net : Net
sample_net = record {
  parse_network = λ s. if contains s (codes "/") then some s else none;
  parse_ip = λ s. if contains s (codes ".") then some (s, true) else none;
}

abbrev canonical : Text → Text
canonical = canonical_ipset_cidr sample_net

-- The IP set of a VM, as its entries. An entry is refused where one of its form is there.
abbrev set : Text
set = codes "/nodes/node1/qemu/107/firewall/ipset/ipfilter-net0"

abbrev listed_entries : List Text → List Object
listed_entries [] = []
listed_entries (raw ∷ raws) = (("cidr", str raw) ∷ []) ∷ listed_entries raws

abbrev is_taken : Text → List Text → Bool
is_taken c raws = any (λ raw. text_eq (canonical raw) c) raws

abbrev add_entry : Text → List Text → Except Text (List Object) × List Text
add_entry c raws =
    if is_taken c raws then (err (codes "entry already exists"), raws) else (ok [], raws ++ c ∷ [])

abbrev post_entry : Values → List Text → Except Text (List Object) × List Text
post_entry [] raws = (ok [], raws)
post_entry ((name, c) ∷ _) raws = if key_eq name "cidr" then add_entry c raws else (ok [], raws)

abbrev set_requests : Requests (List Text)
set_requests cluster_key Method.get path params raws =
    if text_eq path set then (ok (listed_entries raws), raws) else (ok [], raws)
set_requests cluster_key Method.post path params raws = post_entry params raws
set_requests cluster_key Method.put path params raws = (ok [], raws)
set_requests cluster_key Method.delete path params raws =
    (ok [], filter (λ raw. not (text_eq (set ++ 47 ∷ raw) path)) raws)

listed_cidrs : (raws : List Text) → map cidr_of (listed_entries raws) ≡ raws
unfolding get
listed_cidrs [] = refl
listed_cidrs (raw ∷ raws) = ap (λ xs. raw ∷ xs) (listed_cidrs raws)

abbrev IsGrown : Text → List Text → List Text → Type 0
IsGrown c p q = Grown set_requests (λ s. s) (codes "main") canonical set (λ p. p) c p q

appended-Grown : (c : Text) (p : List Text) → IsGrown c p (p ++ c ∷ [])
appended-Grown c p = record {
  keeps = λ e h. Has-left e p (c ∷ []) h;
  only = λ e h. elim (Has-append e p (c ∷ []) h) [
    | inl a ↦ inl a
    | inr (inl b) ↦ inr (sym (ap canonical b))
    | inr (inr b) ↦ absurd b
  ];
  covers = (c, Has-right c p (c ∷ []) (inl refl), refl);
}

added :
    (c : Text) (p : List Text) (found : List Object)
    → (add_entry c p).0 ≡ ok found
    → IsGrown c p (add_entry c p).1
added c p found h = elim (Bool-cases (is_taken c p)) [
  | inl e ↦
      let z : ◌≡◌ {A = Except Text (List Object)} (err (codes "entry already exists")) (ok found) =
        rw e at h in
      absurd (cc)
  | inr e ↦ rw e (appended-Grown c p)
]

taken :
    (c : Text) (p : List Text)
    → is_taken c p ≡ true
    → (raw : Text) × Has raw p × (canonical raw ≡ c)
taken c [] h = absurd (cc)
taken c (x ∷ xs) h = elim (Bool-cases (text_eq (canonical x) c)) [
  | inl e ↦ (x, inl refl, (text_eq_iff (canonical x) c).0 e)
  | inr e ↦ let (raw, m, k) = taken c xs (rw e at h) in (raw, inr m, k)
]

refused :
    (c : Text) (p : List Text) (e : Text)
    → (add_entry c p).0 ≡ err e
    → ((add_entry c p).1 ≡ p) × ((raw : Text) × Has raw p × (canonical raw ≡ c))
refused c p x h = elim (Bool-cases (is_taken c p)) [
  | inl e ↦ (rw e refl, taken c p e)
  | inr e ↦ let z : ◌≡◌ {A = Except Text (List Object)} (ok []) (err x) = rw e at h in absurd (cc)
]

set_IsIpset : IsIpset set_requests (λ s. s) (codes "main") canonical set (λ p. p)
unfolding text_eq
set_IsIpset = record {
  lists = λ p found h. ap (map cidr_of) (sym (ok_injective h)) ∙ listed_cidrs p;
  lists_only = λ p. refl;
  adds = λ p c found h. added c p found h;
  refuses = λ p c e h k. refused c p e h;
  deletes = λ p raw found h. refl;
}

set_IsSets :
    IsSets set_requests
      (λ s. s)
      (codes "main")
      sample_net
      (λ have. have)
      (codes "node1")
      107
      (codes "ipfilter-net0")
      (λ p. p)
unfolding text_eq itoa
set_IsSets = record { lists_sets = λ p. refl; makes = λ p. refl }

abbrev entries_before : List Text
entries_before = codes "10.0.0.5/32" ∷ codes "10.0.0.6" ∷ []

abbrev entries_wanted : List Text
entries_wanted = codes "+10.0.0.6" ∷ codes " 10.0.0.7/32" ∷ []

forms : (e : Text) → Has e entries_wanted → canonical (canonical e) ≡ canonical e
unfolding canonical_ipset_cidr pve_manage.Text.trim_space pve_manage.Text.trim_right
    pve_manage.Text.trim_left pve_manage.Text.is_space contains pve_manage.Text.has_prefix
forms e (inl k) = subst (λ x. canonical (canonical x) ≡ canonical x) k refl
forms e (inr (inl k)) = subst (λ x. canonical (canonical x) ≡ canonical x) k refl
forms e (inr (inr k)) = absurd k

apart : canonical (codes "10.0.0.5/32") ≢ canonical (codes "10.0.0.6")
unfolding text_eq canonical_ipset_cidr pve_manage.Text.trim_space pve_manage.Text.trim_right
    pve_manage.Text.trim_left pve_manage.Text.is_space contains pve_manage.Text.has_prefix
apart h =
    let k : false ≡ true =
      (text_eq_iff (canonical (codes "10.0.0.5/32")) (canonical (codes "10.0.0.6"))).1 h in
    absurd (cc)

distinct :
    (e f : Text) → Has e entries_before → Has f entries_before → canonical e ≡ canonical f → e ≡ f
distinct e f (inl a) (inl b) h = sym a ∙ b
distinct e f (inl a) (inr (inl b)) h = absurd (apart (ap canonical a ∙ h ∙ ap canonical (sym b)))
distinct e f (inr (inl a)) (inl b) h =
    absurd (apart (sym (ap canonical a ∙ h ∙ ap canonical (sym b))))
distinct e f (inr (inl a)) (inr (inl b)) h = sym a ∙ b
distinct e f (inr (inr a)) m h = absurd a
distinct e f m (inr (inr b)) h = absurd b

abbrev ensured : List Text
ensured =
    (ensure_vm_ipset set_requests (λ s. s) (codes "main") sample_net (λ have. have) (codes "node1")
      107 (codes "ipfilter-net0") entries_wanted entries_before).1

ensure_vm_ipset_converges_example :
    ((raw : Text) × Has raw ensured × (canonical raw ≡ codes "10.0.0.7/32"))
    ↔ ((e : Text) × Has e entries_wanted × (canonical e ≡ codes "10.0.0.7/32"))
unfolding itoa ensure_vm_ipset pve_manage.Sql.◌>>=◌ text_eq pve_manage.Sql.◌>>◌
    pve_manage.Client.Ipset.converge pve_manage.Client.Ipset.add_wanted
    pve_manage.Client.Ipset.want_of canonical_ipset_cidr pve_manage.Text.trim_space
    pve_manage.Text.trim_right pve_manage.Text.trim_left pve_manage.Text.is_space contains
    pve_manage.Text.has_prefix pve_manage.Text.contains_string pve_manage.Client.Ipset.have_of
    is_already_exists_err pve_manage.Client.Firewall.send_new
    pve_manage.Client.Ipset.delete_unwanted get pve_manage.Text.numeral pve_manage.Text.to_lower
ensure_vm_ipset_converges_example =
    ensure_vm_ipset_converges set_requests (λ s. s) (codes "main") sample_net (λ have. have)
      (codes "node1") 107 (codes "ipfilter-net0") (λ p. p) set_IsSets set_IsIpset
      (λ have x. (λ h. h, λ h. h)) entries_wanted entries_before tt forms distinct refl
      (codes "10.0.0.7/32") refl
