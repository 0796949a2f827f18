-- ===== src/Api/Admin.antt =====
-- The administrators' changes of one VM: `handleAdminPatchVM` and `handleAdminSetQuotaExempt` of
-- internal/api/template_handlers.go. `net.ParseCIDR` is the parameter `is_cidr`.
use pve_manage.Prelude.{
  ℕ, suc, Bool, true, false, not, ◌&&◌, Option, none, some, [], ◌∷◌, ◌==◌, if◌then◌else◌, filter,
  is_nil, length,
}
use pve_manage.Text.{Text, codes, text_eq}
use pve_manage.Json.{Object, str, bool, put, or_empty, or_fallback}
use pve_manage.Sql.{
  Except, ok, err, exec, query, in_tx, with_now, on_error, pure, fail, ◌>>=◌, ◌>>◌,
}
use pve_manage.Tables.{Db, Vm, User, Kind, SyncState, is_null}
use pve_manage.Tasks.{queue_vm_task_tx}
use pve_manage.Config.{App, Cluster, BridgeConfig, cluster_by_key, bridge_by_key}
use pve_manage.Api.{
  Reply, reply, Body, Request, Api, deny, require, parsed, found, server_error, load_vm_row,
}
use pve_manage.Api.Vms.{update_vm, next_generation, vm_payload, pending_deletion}
use pve_manage.Api.PatchBody.{vm_power_from_raw}
use pve_manage.Api.Patch.{patched_reply}

-- `requireAdmin`; every error of it is answered with 403.
unfoldable pub require_admin : Except Text User → Api User
require_admin (err e) = fail (reply 403 (Body.failure e))
require_admin (ok user) = if user.is_admin then pure user else deny 403 "admin privileges required"

-- The head of the three handlers: the administrator, the id and the row.
unfoldable pub request_admin : {B : Type 0} → Request B → Api (User × Vm)
unfolding require_admin load_vm_row
request_admin r = do
  user ← require_admin r.user
  id ← parsed r.id "invalid vm id"
  row ← on_error server_error (load_vm_row id)
  vm ← found row "vm not found"
  pure (user, vm)

-- `queueVMTaskTx` in a transaction of a handler.
abbrev pub queue_task : ℕ → Kind → Object → Api (Unit {0})
queue_task id kind rest = on_error server_error (queue_vm_task_tx id kind (vm_payload id rest))

abbrev pub queue_task_if : Bool → ℕ → Kind → Object → Api (Unit {0})
queue_task_if true id kind rest = queue_task id kind rest
queue_task_if false id kind rest = pure tt

-- `"running"`, as `vmPowerFromRaw` reads it, or `"unknown"` where that yields nothing.
abbrev pub is_running_now : Vm → Bool
is_running_now vm =
    text_eq (or_fallback (vm_power_from_raw vm.real_status) (codes "unknown")) (codes "running")

-- The bridge `custom`, or the first one that `range` visits.
abbrev pub first_bridge : Cluster → Option BridgeConfig → Option BridgeConfig
first_bridge cluster (some bridge) = some bridge
first_bridge cluster none = elim cluster.bridge [ [] ↦ none | b ∷ bs ↦ some b.1 ]

abbrev pub custom_bridge : Cluster → Option BridgeConfig
custom_bridge cluster = first_bridge cluster (bridge_by_key cluster (codes "custom"))

-- `WHERE cluster_key = $1 AND ip = $2 AND id != $3 AND deleted_at IS NULL`
abbrev pub takes_ip : Text → Text → ℕ → Vm → Bool
takes_ip cluster_key ip id v =
    text_eq v.cluster_key cluster_key && text_eq v.ip ip && not (v.id == id) && is_null v.deleted_at

unfoldable pub conflicts : Text → Text → ℕ → Db → ℕ
conflicts cluster_key ip id db = length (filter (takes_ip cluster_key ip id) db.vms)

abbrev pub with_ip : Text → Text → Object → Object
with_ip ip gateway m = put "gateway" (str gateway) (put "ip" (str ip) m)

-- The row with another address; the two columns are computed from the row that was read.
abbrev pub readdress : Vm → Text → Text → ℕ → Vm → Vm
readdress vm ip gateway now v = record v {
  ip = ip;
  config = some (with_ip ip gateway (or_empty vm.config));
  prefer_status = some (next_generation (with_ip ip gateway (or_empty vm.prefer_status)));
  sync_state = SyncState.pending;
  sync_error = none;
  updated_at = now;
  version = suc v.version;
}

abbrev pub ip_reason : Object
ip_reason = ("reason", str (codes "admin_ip")) ∷ []

-- The body of the transaction.
unfoldable pub commit_address : Vm → Text → Text → ℕ → Api (Unit {0})
commit_address vm ip gateway now = do
  on_error server_error (exec (update_vm vm.id (readdress vm ip gateway now)))
  queue_task vm.id Kind.apply ip_reason
  queue_task_if (is_running_now vm) vm.id Kind.reboot ip_reason

module _ (app : App) (is_cidr : Text → Bool) where
  -- From the address to the reply.
  unfoldable pub set_address : Vm → Text → Api Reply
  unfolding commit_address conflicts
  set_address vm ip = do
    require (not (is_nil ip)) 400 "ip is required"
    cluster ← parsed (cluster_by_key app vm.cluster_key) "unknown cluster"
    bridge ← parsed (custom_bridge cluster) "cluster has no bridge"
    require (is_cidr ip) 400 "invalid cidr"
    conflict ← on_error server_error (query (conflicts vm.cluster_key ip vm.id))
    require (conflict == 0) 400 "ip already used"
    with_now (λ now. in_tx server_error (commit_address vm ip bridge.ipv4.gateway now))
    pure (reply 200 Body.done)

  -- `handleAdminPatchVM`; the body is the field `ip`.
  unfoldable pub handle_admin_patch_vm : Request Text → Api Reply
  unfolding request_admin set_address
  handle_admin_patch_vm r = do
    (user, vm) ← request_admin r
    require vm.managed 400 "unmanaged vm ip cannot be modified"
    require (not (pending_deletion vm)) 400 "vm is pending deletion"
    ip ← parsed r.body "invalid json"
    set_address vm ip

abbrev pub same_bool : Bool → Bool → Bool
same_bool a b = if a then b else not b

abbrev pub with_exemption : Bool → Object → Object
with_exemption exempt m = put "quota_exempt" (bool exempt) m

abbrev pub reexempt : Vm → Bool → ℕ → Vm → Vm
reexempt vm exempt now v = record v {
  quota_exempt = exempt;
  config = some (with_exemption exempt (or_empty vm.config));
  prefer_status = some (next_generation (with_exemption exempt (or_empty vm.prefer_status)));
  sync_state = if v.managed then SyncState.pending else v.sync_state;
  sync_error = none;
  updated_at = now;
  version = suc v.version;
}

unfoldable pub commit_exemption : Vm → Bool → ℕ → Api (Unit {0})
commit_exemption vm exempt now = do
  on_error server_error (exec (update_vm vm.id (reexempt vm exempt now)))
  queue_task_if vm.managed vm.id Kind.apply (("quota_exempt", bool exempt) ∷ [])

unfoldable pub set_exemption : Vm → Bool → Api Reply
unfolding commit_exemption load_vm_row
set_exemption vm exempt = do
  with_now (λ now. in_tx server_error (commit_exemption vm exempt now))
  row ← on_error server_error (load_vm_row vm.id)
  patched_reply row

-- `handleAdminSetQuotaExempt`; the body is the field `quota_exempt`.
unfoldable pub handle_admin_set_quota_exempt : Request Bool → Api Reply
unfolding request_admin set_exemption
handle_admin_set_quota_exempt r = do
  (user, vm) ← request_admin r
  require (not (pending_deletion vm)) 400 "vm is pending deletion"
  exempt ← parsed r.body "invalid json"
  if same_bool vm.quota_exempt exempt then pure (reply 200 Body.done) else set_exemption vm exempt
