-- ===== src/Api/Adopt.antt =====
-- What the adoption of a VM writes: the rest of `handleAdminAdoptVM` of internal/api/vm_handlers.go.
use pve_manage.Prelude.{ℕ, suc, Bool, true, false, not, ◌&&◌, Option, none, some, [], ◌∷◌}
use pve_manage.Prelude.Int.{pos}
use pve_manage.Text.{Text, codes, text_eq}
use pve_manage.Json.{Object, Column, str, num, bool, strs}
use pve_manage.Sql.{Except, exec, in_tx, with_now, on_error, ◌>>=◌, ◌>>◌}
use pve_manage.Tables.{Vm, Kind, SyncState}
use pve_manage.Config.{App}
use pve_manage.Api.{Reply, Request, Api, require, parsed, server_error, load_vm_row}
use pve_manage.Api.Patch.{patched_reply}
use pve_manage.Api.Vms.{update_vm, pending_deletion}
use pve_manage.Api.Admin.{request_admin, queue_task, queue_task_if, is_running_now}
use pve_manage.Api.Adoption.{AdoptBody, Adopted, trimmed, plan_adoption}

-- The entries from `sshkeys` to `quota_exempt`, which both columns have.
abbrev pub shared_entries : AdoptBody → Adopted → Object
shared_entries req a =
    ("sshkeys", strs a.sshkeys)
    ∷ ("shared_usernames", strs a.shared_usernames)
    ∷ ("security_group_owner", str a.security_group_owner)
    ∷ ("security_group_name", str req.security_group_name)
    ∷ ("uestc_restricted", bool a.uestc_restricted)
    ∷ ("quota_exempt", bool false)
    ∷ ("boot_order", str a.boot_order)
    ∷ ("password_synced", bool false)
    ∷ []

-- `config_json`
abbrev pub adopted_config : AdoptBody → Adopted → Object
adopted_config req a =
    ("owner_username", str req.owner_username)
    ∷ ("vmname", str req.vmname)
    ∷ ("cpu_key", str req.cpu_key)
    ∷ ("cpu_cores", num req.cpu_cores)
    ∷ ("memory_gb", num req.memory_gb)
    ∷ ("storage_key", str req.storage_key)
    ∷ ("disk_gb", num req.disk_gb)
    ∷ ("bridge_key", str req.bridge_key)
    ∷ ("bridge_ipfilter", strs a.bridge.ipfilter)
    ∷ ("gateway", str a.bridge.ipv4.gateway)
    ∷ ("ip", str req.ip)
    ∷ ("power", str a.power)
    ∷ ("root_user", str (codes "root"))
    ∷ shared_entries req a

-- `prefer_status_json`
abbrev pub adopted_prefer : AdoptBody → Adopted → Object
adopted_prefer req a =
    ("intent", str (codes "present"))
    ∷ ("power", str a.power)
    ∷ ("generation", num (pos 1))
    ∷ ("vmname", str req.vmname)
    ∷ ("cpu_key", str req.cpu_key)
    ∷ ("cpu_cores", num req.cpu_cores)
    ∷ ("memory_gb", num req.memory_gb)
    ∷ ("storage_key", str req.storage_key)
    ∷ ("disk_gb", num req.disk_gb)
    ∷ ("bridge_key", str req.bridge_key)
    ∷ ("ip", str req.ip)
    ∷ ("gateway", str a.bridge.ipv4.gateway)
    ∷ shared_entries req a

-- `real_status_json`, which no statement of the program leaves without a JSON object.
abbrev pub kept_status : Column → Column
kept_status none = some (("intent", str (codes "unmanaged")) ∷ [])
kept_status (some status) = some status

abbrev pub adopt : Vm → AdoptBody → Adopted → ℕ → Vm → Vm
adopt vm req a now v = record v {
  owner_username = req.owner_username;
  vmname = req.vmname;
  ip = req.ip;
  password = a.password;
  sshkeys = a.sshkeys;
  shared_usernames = a.shared_usernames;
  security_group_name = req.security_group_name;
  uestc_restricted = a.uestc_restricted;
  quota_exempt = false;
  config = some (adopted_config req a);
  prefer_status = some (adopted_prefer req a);
  real_status = kept_status vm.real_status;
  managed = true;
  sync_state = SyncState.pending;
  sync_error = none;
  delete_requested_at = none;
  delete_execute_after = none;
  updated_at = now;
  version = suc v.version;
}

abbrev pub status_kept : Vm → Vm
status_kept vm = record vm { real_status = kept_status vm.real_status }

-- The body of the transaction.
unfoldable pub commit_adoption : Vm → AdoptBody → Adopted → ℕ → Api (Unit {0})
commit_adoption vm req a now = do
  on_error server_error (exec (update_vm vm.id (adopt vm req a now)))
  queue_task vm.id Kind.apply (("adopt", bool true) ∷ [])
  queue_task_if (is_running_now (status_kept vm) && text_eq a.power (codes "running")) vm.id
      Kind.reboot (("reason", str (codes "adopt")) ∷ [])

module _ (app : App) (parse_key : Text → Except Text (Text × Text)) (is_cidr : Text → Bool)
    (draw : ℕ → Option ℕ) where
  -- From the trimmed body to the reply.
  unfoldable pub adopt_as : Vm → AdoptBody → Api Reply
  unfolding plan_adoption commit_adoption load_vm_row
  adopt_as vm req = do
    a ← plan_adoption app parse_key is_cidr draw vm req
    with_now (λ now. in_tx server_error (commit_adoption vm req a now))
    row ← on_error server_error (load_vm_row vm.id)
    patched_reply row

  -- `handleAdminAdoptVM`
  unfoldable pub handle_admin_adopt_vm : Request AdoptBody → Api Reply
  unfolding request_admin adopt_as
  handle_admin_adopt_vm r = do
    (user, vm) ← request_admin r
    require (not vm.managed) 400 "vm is already managed"
    require (not (pending_deletion vm)) 400 "vm is pending deletion"
    req ← parsed r.body "invalid json"
    adopt_as vm (trimmed req)
