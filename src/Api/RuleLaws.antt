-- ===== src/Api/RuleLaws.antt =====
-- The results of `normalizeSecurityGroupRules` of internal/api/security_handlers.go.
use pve_manage.Prelude.{
  ◌≡◌, refl, true, false, Option, none, some, List, [], ◌∷◌, arith, All, Bool-cases, inl, inr,
}
use mathlib.Core.Path.{subst}
use pve_manage.Prelude.Int.{ℤ, pos, ◌≤ℤ◌}
use pve_manage.Text.{
  Text, text_eq, text_eq_iff, codes, to_lower, trim_space, trim_left, trim_right, is_space,
}
use pve_manage.Sql.{Except, ok, err}
use pve_manage.Tables.{SecurityRule}
use pve_manage.Api.Rules.{
  Address, is_word, is_set, rule_error, port_error, normalize_cidr, normalize_rule, checked_rule,
  with_address, with_cidr, normalize_firewall_action, prepend, normalize_security_group_rules,
}

same : {E A : Type 0} {a b : A} → ◌≡◌ {A = Except E A} (ok a) (ok b) → a ≡ b
same h = cc

-- A rule with words that the firewall knows and ports in order, none for ICMP.
pub record IsRule (r : SecurityRule) : Type 0 where
  pub direction : is_word r.direction ("in" ∷ "out" ∷ []) ≡ true
  pub action : is_word r.action ("accept" ∷ "drop" ∷ []) ≡ true
  pub ethertype : is_word r.ethertype ("ipv4" ∷ "ipv6" ∷ []) ≡ true
  pub protocol : is_word r.protocol ("tcp" ∷ "udp" ∷ "icmp" ∷ []) ≡ true
  pub no_icmp_start : text_eq r.protocol (codes "icmp") ≡ true → r.port_start ≡ none
  pub no_icmp_end : text_eq r.protocol (codes "icmp") ≡ true → r.port_end ≡ none
  pub start_low : (n : ℤ) → r.port_start ≡ some n → pos 0 ≤ℤ n
  pub end_low : (n : ℤ) → r.port_end ≡ some n → pos 0 ≤ℤ n
  pub in_order : (m n : ℤ) → r.port_start ≡ some m → r.port_end ≡ some n → m ≤ℤ n

module _ (parse_ip parse_cidr : Text → Option Address) where
  words :
      (r : SecurityRule)
      → rule_error parse_ip parse_cidr r ≡ none
      → (is_word r.direction ("in" ∷ "out" ∷ []) ≡ true)
        × (is_word r.action ("accept" ∷ "drop" ∷ []) ≡ true)
        × (is_word r.ethertype ("ipv4" ∷ "ipv6" ∷ []) ≡ true)
        × (is_word r.protocol ("tcp" ∷ "udp" ∷ "icmp" ∷ []) ≡ true)
  unfolding rule_error
  words r h = (ground arith, ground arith, ground arith, ground arith)

  -- The word that is stored for an action is the word itself.
  normalized_word :
      (action : Text)
      → is_word action ("accept" ∷ "drop" ∷ []) ≡ true
      → is_word (normalize_firewall_action parse_ip parse_cidr action) ("accept" ∷ "drop" ∷ [])
        ≡ true
  unfolding normalize_firewall_action text_eq to_lower trim_space trim_right trim_left is_space
  normalized_word action h = elim (Bool-cases (text_eq action (codes "accept"))) [
    | inl e ↦ rw ((text_eq_iff action (codes "accept")).0 e) refl
    | inr e ↦ elim (Bool-cases (text_eq action (codes "drop"))) [
      | inl f ↦ rw ((text_eq_iff action (codes "drop")).0 f) refl
      | inr f ↦ let k = rw e at h in let m = rw f at k in absurd (cc)
    ]
  ]

  unset : (o : Option ℤ) → is_set parse_ip parse_cidr o ≡ false → o ≡ none
  unset none h = refl
  unset (some n) h = cc

  icmp_ports :
      (r : SecurityRule)
      → port_error parse_ip parse_cidr r ≡ none
      → text_eq r.protocol (codes "icmp") ≡ true
      → (is_set parse_ip parse_cidr r.port_start ≡ false)
        × (is_set parse_ip parse_cidr r.port_end ≡ false)
  unfolding port_error
  icmp_ports r h e = (ground arith, ground arith)

  -- What the checks say of the ports when the rule is not one for ICMP, or when they are set.
  low :
      (r : SecurityRule) (n : ℤ)
      → port_error parse_ip parse_cidr r ≡ none
      → r.port_start ≡ some n
      → pos 0 ≤ℤ n
  unfolding port_error
  low r n h e = ground arith

  high :
      (r : SecurityRule) (n : ℤ)
      → port_error parse_ip parse_cidr r ≡ none
      → r.port_end ≡ some n
      → pos 0 ≤ℤ n
  unfolding port_error
  high r n h e = ground arith

  ordered :
      (r : SecurityRule) (m n : ℤ)
      → port_error parse_ip parse_cidr r ≡ none
      → r.port_start ≡ some m
      → r.port_end ≡ some n
      → m ≤ℤ n
  unfolding port_error
  ordered r m n h e k = ground arith

  made-IsRule :
      (r : SecurityRule) (cidr : Text)
      → rule_error parse_ip parse_cidr r ≡ none
      → port_error parse_ip parse_cidr r ≡ none
      → IsRule (record r {
        cidr = cidr;
        action = normalize_firewall_action parse_ip parse_cidr r.action;
      })
  made-IsRule r cidr h k =
      let (d, a, e, p) = words r h in
      record {
        direction = d;
        action = normalized_word r.action a;
        ethertype = e;
        protocol = p;
        no_icmp_start = λ i. unset r.port_start (icmp_ports r k i).0;
        no_icmp_end = λ i. unset r.port_end (icmp_ports r k i).1;
        start_low = λ n. low r n k;
        end_low = λ n. high r n k;
        in_order = λ m n. ordered r m n k;
      }

  with_cidr-IsRule :
      (r : SecurityRule) (cidr : Text) (o : Option Text) (r' : SecurityRule)
      → rule_error parse_ip parse_cidr r ≡ none
      → port_error parse_ip parse_cidr r ≡ o
      → with_cidr parse_ip parse_cidr r cidr o ≡ ok r'
      → IsRule r'
  with_cidr-IsRule r cidr none r' h k e = subst IsRule (same e) (made-IsRule r cidr h k)
  with_cidr-IsRule r cidr (some x) r' h k e = cc

  with_address-IsRule :
      (r : SecurityRule) (a : Except Text Text) (r' : SecurityRule)
      → rule_error parse_ip parse_cidr r ≡ none
      → with_address parse_ip parse_cidr r a ≡ ok r'
      → IsRule r'
  with_address-IsRule r (ok cidr) r' h e =
      with_cidr-IsRule r cidr (port_error parse_ip parse_cidr r) r' h refl e
  with_address-IsRule r (err x) r' h e = cc

  checked-IsRule :
      (r : SecurityRule) (o : Option Text) (r' : SecurityRule)
      → rule_error parse_ip parse_cidr r ≡ o
      → checked_rule parse_ip parse_cidr r o ≡ ok r'
      → IsRule r'
  checked-IsRule r none r' h e =
      with_address-IsRule r (normalize_cidr parse_ip parse_cidr r.cidr r.ethertype) r' h e
  checked-IsRule r (some x) r' h e = cc

  normalize_rule-IsRule :
      (r r' : SecurityRule) → normalize_rule parse_ip parse_cidr r ≡ ok r' → IsRule r'
  unfolding normalize_rule
  normalize_rule-IsRule r r' e = checked-IsRule r (rule_error parse_ip parse_cidr r) r' refl e

  prepend-All :
      (r : Except Text SecurityRule) (rest : Except Text (List SecurityRule))
      (out : List SecurityRule)
      → ((x : SecurityRule) → r ≡ ok x → IsRule x)
      → ((xs : List SecurityRule) → rest ≡ ok xs → All IsRule xs)
      → prepend parse_ip parse_cidr r rest ≡ ok out
      → All IsRule out
  prepend-All (ok r) (ok rs) out h k e = subst (All IsRule) (same e) (h r refl, k rs refl)
  prepend-All (ok r) (err x) out h k e = cc
  prepend-All (err x) rest out h k e = cc

  -- Every rule that is stored has the direction in or out, the action accept or drop, the family ipv4
  -- or ipv6 and the protocol tcp, udp or icmp; its ports are not negative and are in order, and it has
  -- none where the protocol is icmp. Nothing is stated of its cidr.
  pub normalize_security_group_rules-IsRule :
      (rules out : List SecurityRule)
      → normalize_security_group_rules parse_ip parse_cidr rules ≡ ok out
      → All IsRule out
  unfolding normalize_security_group_rules
  normalize_security_group_rules-IsRule [] out e = subst (All IsRule) (same e) tt
  normalize_security_group_rules-IsRule (r ∷ rules) out e =
      prepend-All (normalize_rule parse_ip parse_cidr r)
        (normalize_security_group_rules parse_ip parse_cidr rules) out (normalize_rule-IsRule r)
        (normalize_security_group_rules-IsRule rules) e

  -- A rule for IPv4 whose address is one of IPv6 passes the normalisation of addresses, which makes
  -- of it the text `<nil>/32`.
  pub normalize_cidr_nil :
      (input : Text) (ip : Address)
      → parse_ip input ≡ some ip
      → ip.v4 ≡ none
      → normalize_cidr parse_ip parse_cidr input (codes "ipv4") ≡ ok (codes "<nil>/32")
  unfolding normalize_cidr text_eq
  normalize_cidr_nil input ip h e = rw h (rw e refl)
