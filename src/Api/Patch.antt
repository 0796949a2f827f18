-- ===== src/Api/Patch.antt =====
-- The change of a VM: `handlePatchVM` of internal/api/vm_handlers.go, in the order of its steps.
use pve_manage.Prelude.{
  ℕ, suc, Bool, true, false, not, ◌&&◌, ◌||◌, Option, none, some, [], ◌∷◌, if◌then◌else◌, ◌==◌,
  length, filter,
}
use pve_manage.Prelude.Int.{ℤ, pos, ltb_ℤ, ◌+ℤ◌, ◌-ℤ◌}
use pve_manage.Text.{Text, codes, text_eq, trim_space, to_lower}
use pve_manage.Json.{Object, str, get, as_string, int_from_or_zero, or_empty}
use pve_manage.Sql.{Except, ok, statement, in_tx, on_error, with_now, pure, fail, ◌>>=◌, ◌>>◌}
use pve_manage.Tables.{Db, Vm, Kind, SyncState, User, update_where}
use pve_manage.Tasks.{queue_vm_task_tx}
use pve_manage.Vmname.{validate_managed}
use pve_manage.Config.{
  App, CpuClass, StorageClass, UserLimit, cluster_by_key, cpu_by_key, storage_by_key,
}
use pve_manage.Api.{
  Reply, reply, Body, Request, Api, require, parsed, server_error, load_vm_row, request_vm,
  vm_visible_to,
}
use pve_manage.Api.Allocation.{Usage, list_user_vm_usage}
use pve_manage.Api.CreateChecks.{well_named}
use pve_manage.Api.CreateOptions.{effective_quota}
use pve_manage.Api.Vms.{
  next_generation, vm_payload, queue_vm_power_task_tx, is_power_action, pending_deletion,
}
use pve_manage.Api.PatchBody.{
  PatchBody, has, has_owner_fields, patch_vm_has_non_power_changes, needs_quota, is_shared_only,
  Draft, draft_of, on_field, unless_shared, vm_power_from_raw,
}
use pve_manage.Api.PatchFields.{
  load_user_row, target_owner, patch_name, patch_owner, patch_password, check_immutable, patch_keys,
  patch_shared, patch_group, patch_uestc, patch_options,
}

-- The limits of the options that the configuration names; an option that is not there has none.
abbrev pub within_cores : ℤ → Option CpuClass → Bool
within_cores cores none = true
within_cores cores (some cpu) = not (ltb_ℤ cpu.limit cores)

abbrev pub within_memory : ℤ → Option CpuClass → Bool
within_memory memory none = true
within_memory memory (some cpu) = not (ltb_ℤ cpu.memory_limit memory)

abbrev pub within_storage : ℤ → Option StorageClass → Bool
within_storage disk none = true
within_storage disk (some storage) = not (ltb_ℤ storage.limit disk)

-- What the owner would use: without the old values of the VM where it is the owner's, with the new.
abbrev pub less_old : Object → ℤ × ℤ × ℤ × ℤ → ℤ × ℤ × ℤ × ℤ
less_old old (count, cpu, memory, storage) = (
  count -ℤ pos 1,
  cpu -ℤ int_from_or_zero old "cpu_cores",
  memory -ℤ int_from_or_zero old "memory_gb",
  storage -ℤ int_from_or_zero old "disk_gb",
)

abbrev pub plus_new : Object → ℤ × ℤ × ℤ × ℤ → ℤ × ℤ × ℤ × ℤ
plus_new cfg (count, cpu, memory, storage) = (
  count +ℤ pos 1,
  cpu +ℤ int_from_or_zero cfg "cpu_cores",
  memory +ℤ int_from_or_zero cfg "memory_gb",
  storage +ℤ int_from_or_zero cfg "disk_gb",
)

abbrev pub within_quota : UserLimit → ℤ × ℤ × ℤ × ℤ → Bool
within_quota quota (count, cpu, memory, storage) = not (
    ltb_ℤ quota.number count
    || ltb_ℤ quota.cpu cpu
    || ltb_ℤ quota.memory memory
    || ltb_ℤ quota.storage storage)

abbrev pub used_by : Usage → ℤ × ℤ × ℤ × ℤ
used_by used = (pos used.count, used.cpu, used.memory, used.storage)

abbrev pub patched_usage : Object → Text → Draft → Usage → ℤ × ℤ × ℤ × ℤ
patched_usage old owner d used = plus_new d.cfg (
    if not d.vm.quota_exempt && text_eq d.vm.owner_username owner
    then less_old old (used_by used)
    else used_by used)

module _ (app : App) where
  abbrev pub quota_user : User → Text → Api User
  quota_user user owner = if text_eq owner user.username then pure user else load_user_row owner

  unfoldable pub check_patched_quota : User → Object → Text → PatchBody → Draft → Api (Unit {0})
  check_patched_quota user old owner req d =
      if d.vm.quota_exempt || not (needs_quota req) then pure tt else do
        cluster ← parsed (cluster_by_key app d.vm.cluster_key) "unknown cluster"
        let cpu = cpu_by_key cluster (as_string (get "cpu_key" d.cfg))
        require (within_cores (int_from_or_zero d.cfg "cpu_cores") cpu) 400
            "cpu_cores exceed cluster option limit"
        require (within_memory (int_from_or_zero d.cfg "memory_gb") cpu) 400
            "memory_gb exceed cluster option limit"
        require
            (within_storage (int_from_or_zero d.cfg "disk_gb")
              (storage_by_key cluster (as_string (get "storage_key" d.cfg))))
            400 "disk_gb exceed cluster option limit"
        its_user ← quota_user user owner
        used ← on_error server_error (list_user_vm_usage owner)
        require (within_quota (effective_quota app its_user) (patched_usage old owner d used)) 400
            "quota exceeded"

  -- `uestc is forced for this user`
  abbrev pub breaks_uestc : User → PatchBody → Vm → Bool
  breaks_uestc user req vm =
      has req.uestc_restricted
      && not user.is_admin
      && text_eq user.username vm.owner_username
      && text_eq (effective_quota app user).uestc (codes "force")
      && not vm.uestc_restricted

  module _ (parse_key : Text → Except Text (Text × Text)) where
    -- The fields, one after the other.
    unfoldable pub edit : Bool → Object → Text → PatchBody → Draft → Api Draft
    edit shared old owner req d = do
      d ← on_field req.vmname patch_name d
      d ← on_field req.owner_username (λ _. patch_owner req owner) d
      d ← on_field req.password patch_password d
      check_immutable old req
      d ←
          patch_keys parse_key owner (unless_shared shared req.ssh_key_ids)
            (unless_shared shared req.sshkeys) d
      d ← on_field (unless_shared shared req.shared_usernames) patch_shared d
      d ← on_field (unless_shared shared req.security_group_name) (patch_group owner) d
      d ← on_field (unless_shared shared req.uestc_restricted) patch_uestc d
      patch_options app shared old req d

    abbrev pub named : Vm → Option Text → Text
    named vm none = vm.vmname
    named vm (some raw) = trim_space raw

    -- All that the handler checks and edits before its transaction, for a request without `power`.
    unfoldable pub draft_patch : User → Vm → PatchBody → Api Draft
    draft_patch user vm req = do
      owner ← target_owner user vm req.owner_username
      well_named (validate_managed owner (named vm req.vmname))
      d ← edit (is_shared_only user vm) (or_empty vm.config) owner req (draft_of vm)
      require d.changed 400 "no changes requested"
      require (not (breaks_uestc user req d.vm)) 400 "uestc is forced for this user"
      check_patched_quota user (or_empty vm.config) owner req d
      pure d

-- `UPDATE vms SET … WHERE id = $14`, with the number of its rows.
abbrev pub store_draft : ℕ → Draft → ℕ → Db → Except Text (ℕ × Db)
store_draft id d now db = ok (
  length (filter (λ v. v.id == id) db.vms),
  record db {
    vms =
        update_where (λ v. v.id == id)
          (λ v. record v {
            owner_username = d.vm.owner_username;
            vmname = d.vm.vmname;
            ip = d.vm.ip;
            password = d.vm.password;
            sshkeys = d.vm.sshkeys;
            shared_usernames = d.vm.shared_usernames;
            security_group_name = d.vm.security_group_name;
            uestc_restricted = d.vm.uestc_restricted;
            quota_exempt = d.vm.quota_exempt;
            config = some d.cfg;
            prefer_status = some (next_generation d.prefer);
            sync_state = SyncState.pending;
            sync_error = none;
            version = suc v.version;
            updated_at = now;
          })
          db.vms;
  },
)

-- The power that is pending is the current one here: a request with `power` has been answered.
abbrev pub reboots : Draft → Bool
reboots d = d.reboot_needed && text_eq (vm_power_from_raw d.vm.real_status) (codes "running")

abbrev pub queue_reboot : Bool → ℕ → Api (Unit {0})
queue_reboot false id = pure tt
queue_reboot true id =
    on_error server_error (
      queue_vm_task_tx id Kind.reboot
        (vm_payload id (("reason", str (codes "config_change")) ∷ [])))

-- The body of the transaction. The id is `vm.ID`, which no step assigns.
unfoldable pub commit_patch : ℕ → Draft → ℕ → Api (Unit {0})
commit_patch id d now = do
  affected ← on_error server_error (statement (store_draft id d now))
  require (not (affected == 0)) 404 "vm not found"
  on_error server_error (queue_vm_task_tx id Kind.apply (vm_payload id []))
  queue_reboot (reboots d) id

abbrev pub patched_reply : Option Vm → Api Reply
patched_reply none = fail (server_error (codes "sql: no rows in result set"))
patched_reply (some vm) = pure (reply 200 Body.done)

-- A request with `power`, which must have nothing else.
unfoldable pub patch_power : Vm → PatchBody → Text → Api Reply
patch_power vm req raw = do
  require (not (patch_vm_has_non_power_changes req)) 400
      "power changes must use the dedicated power actions"
  let action = trim_space (to_lower raw)
  require (is_power_action action) 400 "invalid power"
  in_tx server_error (on_error server_error (queue_vm_power_task_tx vm action))
  pure (reply 200 (Body.power action))

module _ (app : App) (parse_key : Text → Except Text (Text × Text)) where
  unfoldable pub patch_rest : User → Vm → PatchBody → Api Reply
  patch_rest user vm req = do
    d ← draft_patch app parse_key user vm req
    with_now (λ now. in_tx server_error (commit_patch vm.id d now))
    row ← on_error server_error (load_vm_row vm.id)
    patched_reply row

  abbrev pub by_power : User → Vm → PatchBody → Option Text → Api Reply
  by_power user vm req none = patch_rest user vm req
  by_power user vm req (some raw) = patch_power vm req raw

  -- `handlePatchVM`
  unfoldable pub handle_patch_vm : Request PatchBody → Api Reply
  handle_patch_vm r = do
    (user, vm) ← request_vm r
    require (vm_visible_to vm user) 403 "permission denied"
    require vm.managed 400 "unmanaged vm cannot be modified"
    require (not (pending_deletion vm)) 400 "vm is pending deletion"
    req ← parsed r.body "invalid json"
    require (not (is_shared_only user vm && has_owner_fields req)) 403
        "shared users can only change power"
    by_power user vm req req.power
