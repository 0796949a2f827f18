-- ===== src/Client/Firewall.antt =====
-- Firewall rules: internal/pve/firewall.go, and `EnsureFirewall` of internal/pve/client.go.
-- `url.PathEscape` is the parameter `path_escape`; the IP set is in Client/Ipset.
use pve_manage.Prelude.{
  ℕ, String, Bool, true, false, ◌||◌, Option, none, some, List, [], ◌∷◌, ◌++◌, reverse,
  if◌then◌else◌, any, is_nil,
}
use pve_manage.Prelude.Int.{ℤ, pos, eqb_ℤ}
use pve_manage.Text.{Text, codes, text_eq, contains, itoa, to_lower, to_upper}
use pve_manage.Json.{Object, get, as_string, int_of}
use pve_manage.Sql.{Exec, Except, ok, err, pure, fail, ◌>>=◌, ◌>>◌}
use pve_manage.Tables.{SecurityRule}
use pve_manage.Client.{Method, Values, Requests}

-- `FirewallSpec`
pub record FirewallSpec : Type 0 where
  pub user_group_name : Text
  pub policy_in : Text
  pub policy_out : Text
  pub rules : List SecurityRule
  pub ip_filter : List Text
  pub groups : List Text

-- `pveAction`
unfoldable pub pve_action : Text → Text
pve_action action =
    if text_eq action (codes "accept")
    then codes "ACCEPT"
    else if text_eq action (codes "drop")
    then codes "DROP"
    else action

-- `pvePolicy`
unfoldable pub pve_policy : Text → Text
pve_policy policy =
    if is_nil policy || text_eq policy (codes "accept")
    then codes "ACCEPT"
    else if text_eq policy (codes "drop")
    then codes "DROP"
    else to_upper policy

-- `isAlreadyExistsErr`
unfoldable pub is_already_exists_err : Text → Bool
is_already_exists_err e =
    contains (to_lower e) (codes "already exists")
    || contains (to_lower e) (codes "already a pool member")

abbrev pub when : {A : Type 0} → Bool → List A → List A
when true xs = xs
when false xs = []

-- The parameter `dport` of a rule.
abbrev pub ports : Option ℤ → Option ℤ → Values
ports (some a) (some b) = ("dport", (if eqb_ℤ a b then itoa a else itoa a ++ 58 ∷ itoa b)) ∷ []
ports (some a) none = ("dport", itoa a) ∷ []
ports none _ = []

-- The parameters of a rule.
unfoldable pub rule_params : SecurityRule → Values
rule_params rule =
    ("type", rule.direction)
    ∷ ("action", pve_action rule.action)
    ∷ ("enable", codes "1")
    ∷ (when (if is_nil rule.protocol then false else true) (("proto", rule.protocol) ∷ [])
        ++ (when (if is_nil rule.cidr then false else true) (
              ((if text_eq rule.direction (codes "out") then "dest" else "source"), rule.cidr) ∷ [])
            ++ when (text_eq rule.protocol (codes "tcp") || text_eq rule.protocol (codes "udp"))
                (ports rule.port_start rule.port_end)))

-- The fields `group` and `pos` of what a GET yields.
abbrev pub group_of : Object → Text
group_of o = as_string (get "group" o)

abbrev pub pos_of : Object → ℤ
pos_of o = int_of (get "pos" o)

module _ {P : Type 0} (request : Requests P) (path_escape : Text → Text) (cluster_key : Text) where
  abbrev pub send : Method → Text → Values → Exec Text P (Unit {0})
  send method path params = request cluster_key method path params >>= λ _. pure tt

  -- The rules at the positions, from the last one on.
  unfoldable pub delete_rules : Text → List Object → Exec Text P (Unit {0})
  delete_rules path [] = pure tt
  delete_rules path (rule ∷ rules) =
      send Method.delete (path ++ 47 ∷ itoa (pos_of rule)) [] >> delete_rules path rules

  -- `clearFirewallRules`
  unfoldable pub clear_firewall_rules : Text → Exec Text P (Unit {0})
  clear_firewall_rules path = do
    rules ← request cluster_key Method.get path []
    delete_rules path (reverse rules)

  unfoldable pub add_rules : Text → List SecurityRule → Exec Text P (Unit {0})
  add_rules path [] = pure tt
  add_rules path (rule ∷ rules) = send Method.post path (rule_params rule) >> add_rules path rules

  -- `ensureSecurityGroup`
  unfoldable pub ensure_security_group : Text → List SecurityRule → Exec Text P (Unit {0})
  ensure_security_group name rules =
      if is_nil name then fail (codes "security group name is required") else do
        groups ← request cluster_key Method.get (codes "/cluster/firewall/groups") []
        (if any (λ o. text_eq (group_of o) name) groups
            then pure tt
            else send Method.post (codes "/cluster/firewall/groups") (("group", name) ∷ []))
        clear_firewall_rules (codes "/cluster/firewall/groups/" ++ path_escape name)
        add_rules (codes "/cluster/firewall/groups/" ++ path_escape name) rules

  -- `fmt.Sprintf("/nodes/%s/qemu/%d/firewall" + rest, …)`
  abbrev pub vm_path : Text → ℕ → String → Text
  vm_path node vmid rest =
      codes "/nodes/"
      ++ (path_escape node
          ++ (codes "/qemu/" ++ (itoa (pos vmid) ++ (codes "/firewall" ++ codes rest))))

  -- `applyVMFirewallRules`
  unfoldable pub apply_vm_firewall_rules : Text → ℕ → List SecurityRule → Exec Text P (Unit {0})
  apply_vm_firewall_rules node vmid rules = do
    clear_firewall_rules (vm_path node vmid "/rules")
    add_rules (vm_path node vmid "/rules") rules

  -- An error of a POST is passed over where it says that the entry exists.
  abbrev pub unless_exists : Except Text (List Object) × P → Except Text (Unit {0}) × P
  unless_exists (ok _, p) = (ok tt, p)
  unless_exists (err e, p) = if is_already_exists_err e then (ok tt, p) else (err e, p)

  unfoldable pub send_new : Text → Values → Exec Text P (Unit {0})
  send_new path params p = unless_exists (request cluster_key Method.post path params p)

  -- `ensureVMGroupRules`
  unfoldable pub add_groups : Text → List Text → Exec Text P (Unit {0})
  add_groups path [] = pure tt
  add_groups path (group ∷ groups) =
      if is_nil group
      then add_groups path groups
      else send_new path (("type", codes "group") ∷ ("action", group) ∷ ("enable", codes "1") ∷ [])
        >> add_groups path groups

  unfoldable pub ensure_vm_group_rules : Text → ℕ → List Text → Exec Text P (Unit {0})
  ensure_vm_group_rules node vmid groups = add_groups (vm_path node vmid "/rules") groups
