-- ===== src/Worker/Settings.antt =====
-- The settings of a VM: `applyVMConfigIfNeeded` and `syncFirewall` of internal/worker/worker.go.
use pve_manage.Prelude.{
  ℕ, ◌+◌, ◌*◌, ◌/◌, Bool, true, false, ◌&&◌, Option, none, some, List, [], ◌∷◌, ◌++◌, if◌then◌else◌,
  is_nil, find?, ◌==◌,
}
use pve_manage.Prelude.Int.{ℤ, pos, negsuc}
use pve_manage.Text.{Text, codes, text_eq, contains, trim_space, to_lower, to_upper, split, join}
use pve_manage.Json.{bool, put, or_empty}
use pve_manage.Sql.{Except, ok, err, Exec, exec, query, with_now, pure, fail, ◌>>=◌}
use pve_manage.Tables.{SecurityRule, SecurityGroup}
use pve_manage.Tasks.{Sql}
use pve_manage.Vmname.{NameError}
use pve_manage.Config.{Cluster}
use pve_manage.Api.Vms.{update_vm}
use pve_manage.Api.Groups.{is_group}
use pve_manage.Api.Keys.{without_returns, normalize_ssh_key_line, normalize_ssh_key_list}
use pve_manage.Api.CreateChecks.{is_one_of}
use pve_manage.Worker.{World}

-- What the worker calls of Go's packages and of golang.org/x/crypto/ssh: `parse_key` is
-- `ssh.ParseAuthorizedKey` with `ssh.MarshalAuthorizedKey`, `cidr_ip` and `ip_text` are the texts of
-- the addresses that `net.ParseCIDR` and `net.ParseIP` yield, and `disk_mib` is `diskMiB`, which reads
-- a decimal fraction by a regular expression.
pub record Libraries : Type 0 where
  pub disk_mib : Text → ℕ
  pub parse_key : Text → Except Text (Text × Text)
  pub query_escape : Text → Text
  pub query_unescape : Text → Option Text
  pub cidr_ip : Text → Option Text
  pub ip_text : Text → Option Text

-- `desiredMinMemoryMiB`: the float is exact, so it is three quarters rounded up.
unfoldable pub desired_min_memory_mib : ℤ → ℤ
desired_min_memory_mib (pos n) = pos ((n * 3 + 3) / 4)
desired_min_memory_mib (negsuc n) = pos 0

-- `n * 1024`
unfoldable pub times_1024 : ℤ → ℤ
times_1024 (pos n) = pos (n * 1024)
times_1024 (negsuc n) = negsuc (n * 1024 + 1023)

-- `normalizeBootOrder` of the worker; other orders give none.
unfoldable pub normalize_boot_order : Text → Text
normalize_boot_order value =
    let order = trim_space (to_lower value) in
    if is_one_of order ("" ∷ "order=scsi0;ide0" ∷ "scsi0;ide0" ∷ [])
    then codes "order=scsi0;ide0"
    else if is_one_of order ("order=ide0;scsi0" ∷ "ide0;scsi0" ∷ [])
    then codes "order=ide0;scsi0"
    else []

-- `strictPercentEscape`, which `encodePVESSHKeys` is.
abbrev pub without_plus : Text → Text
without_plus [] = []
without_plus (c ∷ s) =
    let rest = without_plus s in if c == 43 then codes "%20" ++ rest else c ∷ rest

unfoldable pub strict_percent_escape : Libraries → Text → Text
strict_percent_escape libraries value = without_plus (libraries.query_escape value)

abbrev pub is_error : Except Text Text → Bool
is_error (ok _) = false
is_error (err _) = true

abbrev pub or_self : Text → Option Text → Text
or_self line none = line
or_self line (some decoded) = decoded

abbrev pub joined : Except Text (List Text) → Except Text Text
joined (ok lines) = ok (join 10 lines)
joined (err e) = err e

module _ (libraries : Libraries) where
  -- A line that is no key is decoded where it holds a percent sign.
  abbrev pub decoded_line : Text → Text
  decoded_line line =
      if is_error (normalize_ssh_key_line libraries.parse_key line) && contains line (codes "%")
      then or_self line (libraries.query_unescape line)
      else line

  abbrev pub decoded_lines : List Text → List Text
  decoded_lines [] = []
  decoded_lines (raw ∷ lines) =
      let rest = decoded_lines lines in
      if is_nil (trim_space raw) then rest else decoded_line (trim_space raw) ∷ rest

  -- `canonicalSSHKeysConfigValue`
  unfoldable pub canonical_ssh_keys_config_value : Text → Except Text Text
  canonical_ssh_keys_config_value raw =
      let value = without_returns raw in
      if is_nil value
      then ok []
      else joined (normalize_ssh_key_list libraries.parse_key (decoded_lines (split 10 value)))

  -- `exactIPv4CIDR`
  abbrev pub with_mask : Text → Option Text → Text
  with_mask raw none = raw
  with_mask raw (some ip) = ip ++ codes "/32"

  abbrev pub first_part : List Text → Text
  first_part [] = []
  first_part (part ∷ parts) = part

  abbrev pub exact_of : Text → Option Text → Text
  exact_of raw none = with_mask raw (libraries.ip_text (first_part (split 47 raw)))
  exact_of raw (some ip) = ip ++ codes "/32"

  unfoldable pub exact_ipv4_cidr : Text → Text
  exact_ipv4_cidr raw = exact_of raw (libraries.cidr_ip raw)

-- `normalizeFirewallPolicy` and `normalizeFirewallAction` of the worker.
unfoldable pub normalize_firewall_policy : Text → Text
normalize_firewall_policy policy =
    let word = to_lower (trim_space policy) in
    if is_one_of word ("" ∷ "accept" ∷ [])
    then codes "ACCEPT"
    else if text_eq word (codes "drop")
    then codes "DROP"
    else to_upper (trim_space policy)

abbrev pub lower_action : Text → Text
lower_action action = to_lower (trim_space action)

-- `convertRules`
unfoldable pub convert_rules : List SecurityRule → List SecurityRule
convert_rules [] = []
convert_rules (rule ∷ rules) =
    record rule { action = lower_action rule.action } ∷ convert_rules rules

abbrev pub row_or_none : {A : Type 0} → Option A → Sql A
row_or_none none = fail (codes "sql: no rows in result set")
row_or_none (some a) = pure a

-- `markPasswordSynced`
unfoldable pub mark_password_synced : ℕ → Sql (Unit {0})
mark_password_synced id = do
  row ← query (λ db. find? (λ v. v.id == id) db.vms)
  vm ← row_or_none row
  with_now λ now. exec (
      update_vm id (λ v. record v {
        config = some (put "password_synced" (bool true) (or_empty vm.config));
        updated_at = now;
      }))

-- `loadSecurityGroupConfig`
unfoldable pub load_security_group_config : Text → Text → Sql SecurityGroup
load_security_group_config owner name = do
  row ← query (λ db. find? (is_group owner name) db.security_groups)
  g ← row_or_none row
  pure (record g {
    policy_in = normalize_firewall_policy g.policy_in;
    policy_out = normalize_firewall_policy g.policy_out;
  })

abbrev pub name_or_fail : {P : Type 0} → NameError → Exec Text (World P) (Unit {0})
name_or_fail NameError.valid = pure tt
name_or_fail NameError.required = fail (codes "name is required")
name_or_fail NameError.invalid = fail (codes "invalid name")

abbrev pub from_except : {P A : Type 0} → Except Text A → Exec Text (World P) A
from_except (ok a) = pure a
from_except (err e) = fail e

-- The name of the UESTC group of the cluster; none where the cluster is not configured.
abbrev pub uestc_of : Option Cluster → Text
uestc_of none = []
uestc_of (some cluster) = cluster.uestc
