-- ===== src/Api/Rules.antt =====
-- The normalisation of a security group: `normalizeSecurityGroupRules`, `normalizeFirewallPolicies`
-- and `normalizeCIDR`. `net.ParseIP` and `net.ParseCIDR` are the parameters `parse_ip` and
-- `parse_cidr`; an address is known by its text and by the text of its IPv4 form, if it has one.
use pve_manage.Prelude.{
  Bool, true, false, not, ◌&&◌, ◌||◌, String, Option, none, some, List, [], ◌∷◌, ◌++◌,
  if◌then◌else◌, is_nil,
}
use pve_manage.Prelude.Int.{ℤ, pos, ltb_ℤ}
use pve_manage.Text.{Text, text_eq, codes, trim_space, to_lower, to_upper}
use pve_manage.Sql.{Except, ok, err}
use pve_manage.Tables.{SecurityRule}

-- A `net.IP`, or a `*net.IPNet` by its address: `String()`, and `To4()` with its `String()`.
pub record Address : Type 0 where
  pub text : Text
  pub v4 : Option Text

abbrev pub is_word : Text → List String → Bool
is_word s [] = false
is_word s (w ∷ ws) = text_eq s (codes w) || is_word s ws

-- `ip.To4().String()`; the text of the nil address is `<nil>`.
abbrev pub v4_text : Option Text → Text
v4_text none = codes "<nil>"
v4_text (some s) = s

abbrev pub has_v4 : Address → Bool
has_v4 a = (elim a.v4 [ none ↦ false | some s ↦ true ])

abbrev pub network_text : Text → Option Address → Except Text Text
network_text ethertype none = err (codes "invalid CIDR address")
network_text ethertype (some n) =
    if text_eq ethertype (codes "ipv4") && not (has_v4 n)
    then err (codes "cidr must be ipv4")
    else if text_eq ethertype (codes "ipv6") && has_v4 n
    then err (codes "cidr must be ipv6")
    else ok n.text

module _ (parse_ip parse_cidr : Text → Option Address) where
  abbrev pub address_text : Text → Text → Option Address → Except Text Text
  address_text input ethertype none = network_text ethertype (parse_cidr input)
  address_text input ethertype (some ip) =
      if text_eq ethertype (codes "ipv4")
      then ok (v4_text ip.v4 ++ codes "/32")
      else if text_eq ethertype (codes "ipv6")
      then ok (ip.text ++ codes "/128")
      else err (codes "unsupported ethertype")

  -- `normalizeCIDR`
  unfoldable pub normalize_cidr : Text → Text → Except Text Text
  normalize_cidr input ethertype = address_text input ethertype (parse_ip input)

  abbrev pub is_negative : Option ℤ → Bool
  is_negative none = false
  is_negative (some n) = ltb_ℤ n (pos 0)

  abbrev pub exceeds : Option ℤ → Option ℤ → Bool
  exceeds (some a) (some b) = ltb_ℤ b a
  exceeds _ _ = false

  abbrev pub is_set : Option ℤ → Bool
  is_set none = false
  is_set (some n) = true

  -- The switches and port checks of one rule, with the error they end in.
  unfoldable pub rule_error : SecurityRule → Option Text
  rule_error rule =
      if not (is_word rule.direction ("in" ∷ "out" ∷ []))
      then some (codes "invalid direction")
      else if not (is_word rule.action ("accept" ∷ "drop" ∷ []))
      then some (codes "invalid action")
      else if not (is_word rule.ethertype ("ipv4" ∷ "ipv6" ∷ []))
      then some (codes "invalid ethertype")
      else if not (is_word rule.protocol ("tcp" ∷ "udp" ∷ "icmp" ∷ []))
      then some (codes "invalid protocol")
      else none

  unfoldable pub port_error : SecurityRule → Option Text
  port_error rule =
      if text_eq rule.protocol (codes "icmp")
      then (if is_set rule.port_start || is_set rule.port_end
          then some (codes "icmp rules must not include ports")
          else none)
      else if is_negative rule.port_start
      then some (codes "port_start must be positive")
      else if is_negative rule.port_end
      then some (codes "port_end must be positive")
      else if exceeds rule.port_start rule.port_end
      then some (codes "port_start must not exceed port_end")
      else none

  -- `normalizeFirewallAction`
  unfoldable pub normalize_firewall_action : Text → Text
  normalize_firewall_action action = to_lower (trim_space action)

  abbrev pub with_cidr : SecurityRule → Text → Option Text → Except Text SecurityRule
  with_cidr rule cidr (some e) = err e
  with_cidr rule cidr none =
      ok (record rule { cidr = cidr; action = normalize_firewall_action rule.action })

  abbrev pub with_address : SecurityRule → Except Text Text → Except Text SecurityRule
  with_address rule (err e) = err e
  with_address rule (ok cidr) = with_cidr rule cidr (port_error rule)

  abbrev pub checked_rule : SecurityRule → Option Text → Except Text SecurityRule
  checked_rule rule (some e) = err e
  checked_rule rule none = with_address rule (normalize_cidr rule.cidr rule.ethertype)

  -- The body of the loop of `normalizeSecurityGroupRules`.
  unfoldable pub normalize_rule : SecurityRule → Except Text SecurityRule
  normalize_rule rule = checked_rule rule (rule_error rule)

  abbrev pub prepend :
      Except Text SecurityRule → Except Text (List SecurityRule) → Except Text (List SecurityRule)
  prepend (err e) rest = err e
  prepend (ok r) (err e) = err e
  prepend (ok r) (ok rs) = ok (r ∷ rs)

  -- `normalizeSecurityGroupRules`
  unfoldable pub normalize_security_group_rules :
      List SecurityRule → Except Text (List SecurityRule)
  normalize_security_group_rules [] = ok []
  normalize_security_group_rules (rule ∷ rules) =
      prepend (normalize_rule rule) (normalize_security_group_rules rules)

-- `normalizeFirewallPolicyInput`
unfoldable pub normalize_firewall_policy_input : Text → Text
normalize_firewall_policy_input value =
    let upper = to_upper (trim_space value) in if is_nil upper then codes "ACCEPT" else upper

abbrev pub is_policy : Text → Bool
is_policy p = is_word p ("ACCEPT" ∷ "DROP" ∷ [])

-- `normalizeFirewallPolicies`
unfoldable pub normalize_firewall_policies : Text → Text → Except Text (Text × Text)
normalize_firewall_policies policy_in policy_out =
    let i = normalize_firewall_policy_input policy_in in
    let o = normalize_firewall_policy_input policy_out in
    if not (is_policy i)
    then err (codes "invalid policy_in")
    else if not (is_policy o)
    then err (codes "invalid policy_out")
    else ok (i, o)
