-- ===== src/Tasks/Maintenance.antt =====
-- The queue of maintenance tasks, and the recovery of tasks that a stopped worker left running:
-- internal/worker/worker.go.
use pve_manage.Prelude.{
  ℕ, suc, ◌+◌, ◌*◌, Bool, false, ◌&&◌, ◌||◌, Option, none, some, List, [], ◌∷◌, ◌++◌, leb, ltb,
  ◌==◌, if◌then◌else◌, filter, take,
}
use pve_manage.Text.{Text, text_eq, codes}
use pve_manage.Sql.{exec, query, with_now, ◌>>=◌, ◌>>◌, pure}
use pve_manage.Tables.{
  Db, Task, MaintenanceTask, Status, coalesce, update_where, delete_where, is_pending, is_running,
  is_failed, is_final, is_delete,
}
use pve_manage.Tasks.{Sql, minute, hour, ago, update_tasks, finished_before}

abbrev pub inventory_scan : Text
inventory_scan = codes "inventory_scan"

abbrev pub requeue : ℕ → Task → Task
requeue now t = record t {
  status = Status.pending;
  error = none;
  started_at = none;
  finished_at = none;
  updated_at = now;
}

-- The statement of `handleRestoreVM` on the VM's deletions, and that of `handleRetryVMTask` on a task
-- that has failed, both of internal/api/vm_handlers.go.
abbrev pub cancel_deletions : ℕ → ℕ → Db → Db
cancel_deletions vm_id now =
    update_tasks
      (λ t. t.vm_id == vm_id && is_delete t.kind && (is_pending t.status || is_running t.status))
      (λ t. record t { status = Status.canceled; updated_at = now })

abbrev pub requeue_failed : ℕ → ℕ → ℕ → Db → Db
requeue_failed task_id vm_id now =
    update_tasks (λ t. t.id == task_id && t.vm_id == vm_id && is_failed t.status) (requeue now)

abbrev pub requeue_maintenance : ℕ → MaintenanceTask → MaintenanceTask
requeue_maintenance now t = record t {
  status = Status.pending;
  error = none;
  started_at = none;
  finished_at = none;
  updated_at = now;
}

abbrev pub update_maintenance :
    (MaintenanceTask → Bool) → (MaintenanceTask → MaintenanceTask) → Db → Db
update_maintenance p f db = record db { maintenance_tasks = update_where p f db.maintenance_tasks }

-- `recoverAbandonedRunningTasks`, at the start of the worker. (The counts are only logged.)
unfoldable pub recover_abandoned_running_tasks : Sql (Unit {0})
recover_abandoned_running_tasks = with_now λ now. do
  exec (update_maintenance (λ t. is_running t.status) (requeue_maintenance now))
  exec (update_tasks (λ t. is_running t.status) (requeue now))

abbrev pub abandoned_running_task_after : ℕ
abandoned_running_task_after = 30 * minute

-- `recoverStaleRunningTasks`, at the start of every round.
unfoldable pub recover_stale_running_tasks : Sql (Unit {0})
recover_stale_running_tasks = with_now λ now.
    let cutoff = ago now abandoned_running_task_after in
    do
      exec (
          update_maintenance (λ t. is_running t.status && leb t.updated_at cutoff)
            (requeue_maintenance now))
      exec (update_tasks (λ t. is_running t.status && leb t.updated_at cutoff) (requeue now))

-- `ORDER BY id DESC LIMIT 1` over the tasks of a kind.
abbrev pub newer : MaintenanceTask → Option MaintenanceTask → Option MaintenanceTask
newer t none = some t
newer t (some u) = if leb u.id t.id then some t else some u

unfoldable pub latest_of : Text → List MaintenanceTask → Option MaintenanceTask
latest_of kind [] = none
latest_of kind (t ∷ ts) =
    let rest = latest_of kind ts in if text_eq t.kind kind then newer t rest else rest

abbrev pub maintenance_task_interval : ℕ
maintenance_task_interval = 10 * minute

-- `finishedAt.Valid` and less than the interval ago.
abbrev pub finished_lately : ℕ → Option ℕ → Bool
finished_lately now none = false
finished_lately now (some t) = ltb now (t + maintenance_task_interval)

-- Whether the latest scan stands in the way of a new one.
unfoldable pub scan_not_due : ℕ → Option MaintenanceTask → Bool
scan_not_due now none = false
scan_not_due now (some t) =
    is_pending t.status || is_running t.status || finished_lately now t.finished_at

abbrev pub insert_maintenance : Text → ℕ → Db → Db
insert_maintenance kind now db = record db {
  maintenance_tasks =
      db.maintenance_tasks
      ++ record {
        id = db.next_maintenance_id;
        kind = kind;
        status = Status.pending;
        error = none;
        created_at = now;
        updated_at = now;
        started_at = none;
        finished_at = none;
      }
        ∷ [];
  next_maintenance_id = suc db.next_maintenance_id;
}

unfoldable pub ensure_maintenance_tasks : Sql (Unit {0})
ensure_maintenance_tasks = with_now λ now. do
  latest ← query (λ db. latest_of inventory_scan db.maintenance_tasks)
  if scan_not_due now latest then pure tt else exec (insert_maintenance inventory_scan now)

abbrev pub maintenance_task_retry_after : ℕ
maintenance_task_retry_after = 1 * minute

unfoldable pub insert_by_id : MaintenanceTask → List MaintenanceTask → List MaintenanceTask
insert_by_id t [] = t ∷ []
insert_by_id t (u ∷ us) = if leb t.id u.id then t ∷ u ∷ us else u ∷ insert_by_id t us

unfoldable pub sort_by_id : List MaintenanceTask → List MaintenanceTask
sort_by_id [] = []
sort_by_id (t ∷ ts) = insert_by_id t (sort_by_id ts)

unfoldable pub pending_maintenance_tasks : Sql (List MaintenanceTask)
pending_maintenance_tasks = with_now λ now. query λ db. take 10 (
    sort_by_id (
      filter
        (λ t.
          is_pending t.status
          || (is_failed t.status && leb t.updated_at (ago now maintenance_task_retry_after)))
        db.maintenance_tasks))

unfoldable pub mark_maintenance_task_running : ℕ → Sql (Unit {0})
mark_maintenance_task_running task_id = with_now λ now. exec (
    update_maintenance (λ t. t.id == task_id)
      (λ t. record t {
        status = Status.running;
        error = none;
        started_at = coalesce t.started_at now;
        finished_at = none;
        updated_at = now;
      }))

unfoldable pub mark_maintenance_task_done : ℕ → Sql (Unit {0})
mark_maintenance_task_done task_id = with_now λ now. exec (
    update_maintenance (λ t. t.id == task_id)
      (λ t. record t {
        status = Status.done;
        error = none;
        finished_at = coalesce t.finished_at now;
        updated_at = now;
      }))

unfoldable pub mark_maintenance_task_failed : ℕ → Text → Sql (Unit {0})
mark_maintenance_task_failed task_id message = with_now λ now. exec (
    update_maintenance (λ t. t.id == task_id)
      (λ t. record t {
        status = Status.failed;
        error = some message;
        updated_at = now;
        finished_at = coalesce t.finished_at now;
      }))

unfoldable pub purge_old_maintenance_tasks : Sql (Unit {0})
purge_old_maintenance_tasks = with_now λ now. exec λ db. record db {
  maintenance_tasks =
      delete_where (λ t. is_final t.status && finished_before (ago now (24 * hour)) t.finished_at)
        db.maintenance_tasks;
}
