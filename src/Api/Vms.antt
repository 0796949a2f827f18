-- ===== src/Api/Vms.antt =====
-- The handlers of internal/api/vm_handlers.go that act on one VM: power, deletion, its undoing, and
-- the queue's pause, resumption and retry.
use pve_manage.Prelude.{
  ℕ, suc, ◌+◌, ◌*◌, Bool, true, false, not, ◌&&◌, ◌||◌, none, some, [], ◌∷◌, ◌==◌, if◌then◌else◌,
  find?,
}
use pve_manage.Prelude.Int.{pos, ◌+ℤ◌}
use pve_manage.Text.{Text, text_eq, codes, trim_space, to_lower}
use pve_manage.Json.{
  Object, num, str, bool, time, get, put, delete_key, or_empty, or_fallback, as_string,
  int_from_or_zero,
}
use pve_manage.Sql.{exec, query, in_tx, with_now, pure, on_error, ◌>>=◌, ◌>>◌}
use pve_manage.Tables.{
  Db, Vm, Kind, SyncState, is_null, coalesce, update_where, is_deleting, is_failed,
}
use pve_manage.Tasks.{Sql, queue_vm_task_tx, cancel_vm_tasks_tx, hour}
use pve_manage.Tasks.Maintenance.{cancel_deletions, requeue_failed}
use pve_manage.Api.{
  Reply, reply, Body, Request, Api, require, parsed, found, server_error, request_vm, logged_in,
  vm_visible_to, is_owner_or_admin,
}

abbrev pub update_vm : ℕ → (Vm → Vm) → Db → Db
update_vm id f db = record db { vms = update_where (λ v. v.id == id) f db.vms }

-- `prefer["generation"] = intFromOrZero(prefer, "generation") + 1`
abbrev pub next_generation : Object → Object
next_generation prefer =
    put "generation" (num (int_from_or_zero prefer "generation" +ℤ pos 1)) prefer

abbrev pub vm_payload : ℕ → Object → Object
vm_payload id rest = ("vm_id", num (pos id)) ∷ rest

-- `queueVMPowerTaskTx`
unfoldable pub queue_vm_power_task_tx : Vm → Text → Sql (Unit {0})
queue_vm_power_task_tx vm action =
    let prefer = next_generation (put "power" (str action) (or_empty vm.prefer_status)) in
    do
      with_now λ now. exec (
          update_vm vm.id (λ v. record v {
            prefer_status = some prefer;
            sync_state = SyncState.pending;
            sync_error = none;
            updated_at = now;
          }))
      queue_vm_task_tx vm.id Kind.power (vm_payload vm.id (("power", str action) ∷ []))

abbrev pub is_power_action : Text → Bool
is_power_action action =
    text_eq action (codes "running")
    || text_eq action (codes "stopped")
    || text_eq action (codes "reboot")

-- `vm.SyncState == "deleting" || vm.DeleteRequestedAt != nil`
abbrev pub pending_deletion : Vm → Bool
pending_deletion vm = is_deleting vm.sync_state || not (is_null vm.delete_requested_at)

-- `handlePowerVM`; the body is the field `power`.
unfoldable pub handle_power_vm : Request Text → Api Reply
handle_power_vm r = do
  (user, vm) ← request_vm r
  require (vm_visible_to vm user) 403 "permission denied"
  require vm.managed 400 "unmanaged vm cannot be modified"
  require (not (pending_deletion vm)) 400 "vm is pending deletion"
  power ← parsed r.body "invalid json"
  let action = trim_space (to_lower power)
  require (is_power_action action) 400 "invalid power"
  in_tx server_error (on_error server_error (queue_vm_power_task_tx vm action))
  pure (reply 200 (Body.power action))

-- What the deletion writes into `prefer_status_json`.
abbrev pub prefer_deleted : Text → ℕ → Object → Object
prefer_deleted previous exec_at prefer = next_generation (
    put "delete_execute_after" (time exec_at) (
      put "power_before_delete" (str previous)
        (put "power" (str (codes "stopped")) (put "intent" (str (codes "delete_pending")) prefer))))

-- `handleDeleteVM`
unfoldable pub handle_delete_vm : Request (Unit {0}) → Api Reply
handle_delete_vm r = do
  (user, vm) ← request_vm r
  require (is_owner_or_admin vm user) 403 "permission denied"
  require vm.managed 400 "unmanaged vm cannot be deleted"
  require (not (pending_deletion vm)) 400 "vm is already pending deletion"
  with_now λ now. do
    let exec_at = now + 24 * hour
    let prefer = or_empty vm.prefer_status
    let previous = or_fallback (as_string (get "power" prefer)) (codes "running")
    in_tx server_error do
      on_error server_error (
          exec (
            update_vm vm.id (λ v. record v {
              prefer_status = some (prefer_deleted previous exec_at prefer);
              sync_state = SyncState.deleting;
              sync_error = none;
              delete_requested_at = some now;
              delete_execute_after = some exec_at;
              updated_at = now;
              version = suc v.version;
            })))
      on_error server_error (cancel_vm_tasks_tx vm.id)
      on_error server_error (
          queue_vm_task_tx vm.id Kind.delete
            (vm_payload vm.id (("execute_after", time exec_at) ∷ [])))
    pure (reply 202 (Body.execute_after exec_at))

-- What the restoration writes into `prefer_status_json`.
abbrev pub prefer_restored : Object → Object
prefer_restored prefer =
    let power = or_fallback (as_string (get "power_before_delete" prefer)) (codes "running") in
    next_generation (
      delete_key "power_before_delete" (
        delete_key "delete_execute_after"
          (put "power" (str power) (put "intent" (str (codes "present")) prefer))))

-- `handleRestoreVM`
unfoldable pub handle_restore_vm : Request (Unit {0}) → Api Reply
handle_restore_vm r = do
  (user, vm) ← request_vm r
  require (is_owner_or_admin vm user) 403 "permission denied"
  require vm.managed 400 "unmanaged vm cannot be restored"
  require (pending_deletion vm) 400 "vm is not pending deletion"
  with_now λ now. do
    let prefer = or_empty vm.prefer_status
    in_tx server_error do
      on_error server_error (
          exec (
            update_vm vm.id (λ v. record v {
              prefer_status = some (prefer_restored prefer);
              sync_state = SyncState.pending;
              sync_error = none;
              delete_requested_at = none;
              delete_execute_after = none;
              updated_at = now;
              version = suc v.version;
            })))
      on_error server_error (exec (cancel_deletions vm.id now))
      on_error server_error
          (queue_vm_task_tx vm.id Kind.apply (vm_payload vm.id (("restore", bool true) ∷ [])))
    pure (reply 200 Body.done)

-- `handleDeleteNowVM`
unfoldable pub handle_delete_now_vm : Request (Unit {0}) → Api Reply
handle_delete_now_vm r = do
  (user, vm) ← request_vm r
  require (is_owner_or_admin vm user) 403 "permission denied"
  require vm.managed 400 "unmanaged vm cannot be deleted"
  require (pending_deletion vm) 400 "vm is not pending deletion"
  with_now λ now. do
    let prefer = or_empty vm.prefer_status
    let previous = or_fallback (as_string (get "power_before_delete" prefer)) (codes "running")
    in_tx server_error do
      on_error server_error (
          exec (
            update_vm vm.id (λ v. record v {
              prefer_status = some (prefer_deleted previous now prefer);
              sync_state = SyncState.deleting;
              sync_error = none;
              delete_requested_at = coalesce v.delete_requested_at now;
              delete_execute_after = some now;
              updated_at = now;
              version = suc v.version;
            })))
      on_error server_error (cancel_vm_tasks_tx vm.id)
      on_error server_error (
          queue_vm_task_tx vm.id Kind.delete
            (vm_payload vm.id (("execute_after", time now) ∷ ("immediate", bool true) ∷ [])))
    pure (reply 202 (Body.execute_after now))

abbrev pub set_paused : Bool → Vm → ℕ → Api Reply
set_paused paused vm now = do
  on_error server_error (
      exec (
        update_vm vm.id (λ v. record v {
          task_queue_paused = paused;
          updated_at = now;
          version = suc v.version;
        })))
  pure (reply 200 Body.done)

-- `handlePauseVMTasks`
unfoldable pub handle_pause_vm_tasks : Request (Unit {0}) → Api Reply
handle_pause_vm_tasks r = do
  (user, vm) ← request_vm r
  require (is_owner_or_admin vm user) 403 "permission denied"
  require vm.managed 400 "unmanaged vm cannot pause tasks"
  with_now (set_paused true vm)

-- `handleResumeVMTasks`
unfoldable pub handle_resume_vm_tasks : Request (Unit {0}) → Api Reply
handle_resume_vm_tasks r = do
  (user, vm) ← request_vm r
  require (is_owner_or_admin vm user) 403 "permission denied"
  require vm.managed 400 "unmanaged vm cannot resume tasks"
  with_now (set_paused false vm)

-- `handleRetryVMTask`; the body is the task's id in the path, read after the user and the VM's id.
unfoldable pub handle_retry_vm_task : Request ℕ → Api Reply
handle_retry_vm_task r = do
  logged_in r.user
  parsed r.id "invalid vm id"
  task_id ← parsed r.body "invalid task id"
  (user, vm) ← request_vm r
  require (is_owner_or_admin vm user) 403 "permission denied"
  require vm.managed 400 "unmanaged vm cannot retry tasks"
  row ←
      on_error server_error
        (query (λ db. find? (λ t. t.vm_id == vm.id && t.id == task_id) db.vm_tasks))
  task ← found row "task not found"
  require (is_failed task.status) 400 "only failed tasks can be retried"
  with_now λ now. do
    in_tx server_error do
      on_error server_error (exec (requeue_failed task_id vm.id now))
      on_error server_error (
          exec (
            update_vm vm.id (λ v. record v {
              sync_state =
                  if is_null v.delete_requested_at then SyncState.pending else SyncState.deleting;
              sync_error = none;
              updated_at = now;
              version = suc v.version;
            })))
    pure (reply 200 Body.done)
