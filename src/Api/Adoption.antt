-- ===== src/Api/Adoption.antt =====
-- The adoption of a VM that Proxmox VE has and the program does not manage: `handleAdminAdoptVM` of
-- internal/api/vm_handlers.go. `net.ParseCIDR` is the parameter `is_cidr`; `draw` is what the random
-- password is made of, and `parse_key` is `ssh.ParseAuthorizedKey`.
use pve_manage.Prelude.{
  ℕ, ◌+◌, Bool, not, ◌||◌, Option, none, some, List, [], ◌∷◌, ◌++◌, all, if◌then◌else◌, is_nil,
}
use pve_manage.Prelude.Int.{ℤ, pos, leb_ℤ, ltb_ℤ, ◌+ℤ◌}
use pve_manage.Text.{Text, codes, contains_string, trim_space}
use pve_manage.Json.{or_fallback}
use pve_manage.Sql.{Except, on_error, pure, ◌>>=◌, ◌>>◌, map_err}
use pve_manage.Tables.{Vm}
use pve_manage.Vmname.{validate_managed}
use pve_manage.Config.{
  App, Cluster, BridgeConfig, UserLimit, cluster_by_key, cpu_by_key, storage_by_key, bridge_by_key,
}
use pve_manage.Api.{Api, require, parsed, server_error}
use pve_manage.Api.Groups.{accepted}
use pve_manage.Api.Placement.{normalize_string_list}
use pve_manage.Api.Keys.{valid_username_like, normalize_ssh_key_list, load_ssh_keys_by_ids}
use pve_manage.Api.Allocation.{Usage, list_user_vm_usage}
use pve_manage.Api.CreateChecks.{well_named, normalize_boot_order, chosen_password, is_one_of}
use pve_manage.Api.CreateOptions.{effective_quota}
use pve_manage.Api.PatchFields.{load_user_row, require_group, key_failure}

-- `adoptVMRequest`; it has no `quota_exempt`.
pub record AdoptBody : Type 0 where
  pub owner_username : Text
  pub vmname : Text
  pub ip : Text
  pub password : Option Text
  pub cpu_key : Text
  pub cpu_cores : ℤ
  pub memory_gb : ℤ
  pub storage_key : Text
  pub disk_gb : ℤ
  pub bridge_key : Text
  pub boot_order : Text
  pub sshkeys : List Text
  pub ssh_key_ids : List ℤ
  pub shared_usernames : List Text
  pub security_group_owner : Text
  pub security_group_name : Text
  pub uestc_restricted : Option Bool
  pub power : Text

abbrev pub trimmed : AdoptBody → AdoptBody
trimmed req = record req {
  owner_username = trim_space req.owner_username;
  vmname = trim_space req.vmname;
}

-- What the checks yield: the variables that the handler computes before its transaction.
pub record Adopted : Type 0 where
  pub bridge : BridgeConfig
  pub power : Text
  pub boot_order : Text
  pub password : Text
  pub sshkeys : List Text
  pub shared_usernames : List Text
  pub security_group_owner : Text
  pub uestc_restricted : Bool

abbrev pub room_for : UserLimit → Usage → AdoptBody → Bool
room_for quota used req = not (
    ltb_ℤ quota.number (pos (used.count + 1))
    || ltb_ℤ quota.cpu (used.cpu +ℤ req.cpu_cores)
    || ltb_ℤ quota.memory (used.memory +ℤ req.memory_gb)
    || ltb_ℤ quota.storage (used.storage +ℤ req.disk_gb))

-- The fields that must be there, the owner and the sizes.
unfoldable pub check_adopted_fields : AdoptBody → Api (Unit {0})
check_adopted_fields req = do
  require
      (not (
        is_nil req.owner_username
        || is_nil req.vmname
        || is_nil req.ip
        || is_nil req.cpu_key
        || is_nil req.storage_key
        || is_nil req.bridge_key
        || is_nil req.security_group_name))
      400 "missing required fields"
  require (valid_username_like req.owner_username) 400 "invalid owner_username"
  well_named (validate_managed req.owner_username req.vmname)
  load_user_row req.owner_username
  require
      (not
        (leb_ℤ req.cpu_cores (pos 0) || leb_ℤ req.memory_gb (pos 0) || leb_ℤ req.disk_gb (pos 0)))
      400 "cpu_cores, memory_gb and disk_gb must be positive"
  require (not (ltb_ℤ req.disk_gb (pos 20))) 400 "disk_gb must be at least 20"

module _ (app : App) where
  -- The options of the cluster, and their limits.
  unfoldable pub check_adopted_options : Cluster → AdoptBody → Api BridgeConfig
  check_adopted_options cluster req = do
    cpu ← parsed (cpu_by_key cluster req.cpu_key) "unknown cpu_key"
    storage ← parsed (storage_by_key cluster req.storage_key) "unknown storage_key"
    bridge ← parsed (bridge_by_key cluster req.bridge_key) "unknown bridge_key"
    require
        (not (
          ltb_ℤ cpu.limit req.cpu_cores
          || ltb_ℤ cpu.memory_limit req.memory_gb
          || ltb_ℤ storage.limit req.disk_gb))
        400 "requested resources exceed selected cluster option limit"
    pure bridge

  unfoldable pub check_adopted_quota : AdoptBody → Api (Unit {0})
  unfolding list_user_vm_usage
  check_adopted_quota req = do
    owner ← load_user_row req.owner_username
    used ← on_error server_error (list_user_vm_usage req.owner_username)
    require (room_for (effective_quota app owner) used req) 400 "quota exceeded"

module _ (parse_key : Text → Except Text (Text × Text)) where
  unfoldable pub adopted_keys : AdoptBody → Api (List Text)
  adopted_keys req =
      if is_nil req.ssh_key_ids
      then accepted (
          map_err (λ e. codes "invalid ssh key: " ++ e)
            (normalize_ssh_key_list parse_key req.sshkeys))
      else on_error key_failure (load_ssh_keys_by_ids parse_key req.owner_username req.ssh_key_ids)

abbrev pub adopted_uestc : Cluster → Option Bool → Bool
adopted_uestc cluster (some b) = b
adopted_uestc cluster none = not (is_nil cluster.uestc)

module _ (app : App) (parse_key : Text → Except Text (Text × Text)) (is_cidr : Text → Bool)
    (draw : ℕ → Option ℕ) where
  -- All that the handler checks and computes before its transaction.
  unfoldable pub plan_adoption : Vm → AdoptBody → Api Adopted
  unfolding check_adopted_fields check_adopted_options check_adopted_quota adopted_keys
  plan_adoption vm req = do
    check_adopted_fields req
    cluster ← parsed (cluster_by_key app vm.cluster_key) "unknown cluster"
    bridge ← check_adopted_options app cluster req
    check_adopted_quota app req
    require (is_cidr req.ip) 400 "invalid cidr"
    let power = or_fallback req.power (codes "running")
    require (is_one_of power ("running" ∷ "stopped" ∷ "reboot" ∷ [])) 400 "invalid power"
    boot_order ← accepted (normalize_boot_order req.boot_order)
    keys ← adopted_keys parse_key req
    let shared = normalize_string_list req.shared_usernames
    require (all valid_username_like shared) 400 "invalid shared username"
    require (not (contains_string shared req.owner_username)) 400
        "owner cannot be in shared_usernames"
    let group_owner = or_fallback req.security_group_owner req.owner_username
    require (valid_username_like group_owner) 400 "invalid security_group_owner"
    require_group group_owner req.security_group_name
        "security group not found or not owned by owner"
    pure (record {
      bridge = bridge;
      power = power;
      boot_order = boot_order;
      password = chosen_password draw req.password;
      sshkeys = keys;
      shared_usernames = shared;
      security_group_owner = group_owner;
      uestc_restricted = adopted_uestc cluster req.uestc_restricted;
    })
