-- ===== src/Tasks/Steps.antt =====
-- The statements on the queue as steps that the API and the worker take in any order.
use pve_manage.Prelude.{ℕ, ◌≡◌, refl, Bool, List, [], ◌∷◌, filter}
use pve_manage.Text.{Text}
use pve_manage.Json.{Object}
use pve_manage.Sql.{Session, exec, with_now}
use pve_manage.Sql.Keeps.{
  Keeps, Keeps-exec, Keeps-query, Keeps-with_now, Keeps-bind, Keeps-then, Keeps-pure,
}
use pve_manage.Tables.{Db, Vm, Task, MaintenanceTask, Kind, delete_where}
use pve_manage.Tasks.{
  Sql, queue_vm_task, update_tasks, cancel_vm_tasks_tx, cancel_outstanding_vm_tasks,
  cancel_superseded_tasks, mark_task_running, mark_task_done, mark_task_failed, purge_old_tasks,
}
use pve_manage.Tasks.Schedule.{queue_expired, ensure_expired_delete_tasks, needs_delete_task}
use pve_manage.Tasks.Maintenance.{
  update_maintenance, cancel_deletions, requeue_failed, recover_abandoned_running_tasks,
  recover_stale_running_tasks,
}
use pve_manage.Tasks.Sequence.{
  IsOrdered, update_tasks-IsOrdered, delete_where-IsOrdered, queue_vm_task-IsOrdered,
}

-- Each statement, or group of statements, of the program on `vm_tasks`. `restored` and `retried` are
-- those of `handleRestoreVM` and `handleRetryVMTask`.
pub data QueueStep : Type 0 where
  queue : ℕ → Kind → Object → QueueStep
  cancel cancel_outstanding restored : ℕ → QueueStep
  retried : ℕ → ℕ → QueueStep
  cancel_superseded : QueueStep
  run done : ℕ → QueueStep
  failed : ℕ → Text → QueueStep
  recover_all recover_stale purge expire : QueueStep

unfoldable pub perform : QueueStep → Sql (Unit {0})
perform (queue vm_id kind payload) = queue_vm_task vm_id kind payload
perform (cancel vm_id) = cancel_vm_tasks_tx vm_id
perform (cancel_outstanding vm_id) = cancel_outstanding_vm_tasks vm_id
perform (restored vm_id) = with_now λ now. exec (cancel_deletions vm_id now)
perform (retried task_id vm_id) = with_now λ now. exec (requeue_failed task_id vm_id now)
perform cancel_superseded = cancel_superseded_tasks
perform (run id) = mark_task_running id
perform (done id) = mark_task_done id
perform (failed id message) = mark_task_failed id message
perform recover_all = recover_abandoned_running_tasks
perform recover_stale = recover_stale_running_tasks
perform purge = purge_old_tasks
perform expire = ensure_expired_delete_tasks

-- Steps one after the other; a failed step is logged and the next one is taken. Between two steps
-- the clock may be set.
pub perform_all : List (ℕ × QueueStep) → Session Db → Session Db
perform_all [] s = s
perform_all ((now, step) ∷ steps) s = perform_all steps (perform step (record s { now = now })).1

-- An update whose assignment leaves the three key columns, by computation.
module _ (p : Db → Task → Bool) (f : Task → Task) where
  Keeps-update :
      ((t : Task) → (f t).id ≡ t.id)
      → ((t : Task) → (f t).vm_id ≡ t.vm_id)
      → ((t : Task) → (f t).seq ≡ t.seq)
      → Keeps IsOrdered (exec (λ db. update_tasks (p db) f db))
  Keeps-update i v q =
      Keeps-exec IsOrdered (λ db. update_tasks (p db) f db)
        λ d h.
          update_tasks-IsOrdered (p d) f (record { id_kept = i; vm_id_kept = v; seq_kept = q }) d h

module _ (p : MaintenanceTask → Bool) (f : MaintenanceTask → MaintenanceTask) where
  Keeps-maintenance : Keeps IsOrdered (exec (update_maintenance p f))
  Keeps-maintenance =
      Keeps-exec IsOrdered (update_maintenance p f)
        λ d h. record { apart = h.apart; ids_below = h.ids_below }

module _ (p : Db → Task → Bool) where
  Keeps-delete :
      Keeps IsOrdered (exec (λ db. record db { vm_tasks = delete_where (p db) db.vm_tasks }))
  Keeps-delete =
      Keeps-exec IsOrdered (λ db. record db { vm_tasks = delete_where (p db) db.vm_tasks })
        λ d h. delete_where-IsOrdered (p d) d h

queue_expired-IsOrdered : (vms : List Vm) → Keeps IsOrdered (queue_expired vms)
unfolding queue_expired
queue_expired-IsOrdered [] = Keeps-pure IsOrdered tt
queue_expired-IsOrdered (v ∷ vms) =
    Keeps-then IsOrdered _ _ (queue_vm_task-IsOrdered v.id Kind.delete _)
      (queue_expired-IsOrdered vms)

pub perform-IsOrdered : (step : QueueStep) → Keeps IsOrdered (perform step)
unfolding perform cancel_vm_tasks_tx cancel_outstanding_vm_tasks cancel_superseded_tasks
    mark_task_running mark_task_done mark_task_failed recover_abandoned_running_tasks
    recover_stale_running_tasks purge_old_tasks ensure_expired_delete_tasks
perform-IsOrdered (queue vm_id kind payload) = queue_vm_task-IsOrdered vm_id kind payload
perform-IsOrdered (cancel vm_id) =
    Keeps-with_now IsOrdered _ λ now. Keeps-update _ _ (λ t. refl) (λ t. refl) (λ t. refl)
perform-IsOrdered (cancel_outstanding vm_id) =
    Keeps-with_now IsOrdered _ λ now. Keeps-update _ _ (λ t. refl) (λ t. refl) (λ t. refl)
perform-IsOrdered (restored vm_id) =
    Keeps-with_now IsOrdered _ λ now. Keeps-update _ _ (λ t. refl) (λ t. refl) (λ t. refl)
perform-IsOrdered (retried task_id vm_id) =
    Keeps-with_now IsOrdered _ λ now. Keeps-update _ _ (λ t. refl) (λ t. refl) (λ t. refl)
perform-IsOrdered cancel_superseded =
    Keeps-with_now IsOrdered _ λ now. Keeps-update _ _ (λ t. refl) (λ t. refl) (λ t. refl)
perform-IsOrdered (run id) =
    Keeps-with_now IsOrdered _ λ now. Keeps-update _ _ (λ t. refl) (λ t. refl) (λ t. refl)
perform-IsOrdered (done id) =
    Keeps-with_now IsOrdered _ λ now. Keeps-update _ _ (λ t. refl) (λ t. refl) (λ t. refl)
perform-IsOrdered (failed id message) =
    Keeps-with_now IsOrdered _ λ now. Keeps-update _ _ (λ t. refl) (λ t. refl) (λ t. refl)
perform-IsOrdered recover_all = Keeps-with_now IsOrdered _ λ now.
    Keeps-then IsOrdered _ _ (Keeps-maintenance _ _)
      (Keeps-update _ _ (λ t. refl) (λ t. refl) (λ t. refl))
perform-IsOrdered recover_stale = Keeps-with_now IsOrdered _ λ now.
    Keeps-then IsOrdered _ _ (Keeps-maintenance _ _)
      (Keeps-update _ _ (λ t. refl) (λ t. refl) (λ t. refl))
perform-IsOrdered purge =
    Keeps-with_now IsOrdered _ λ now. Keeps-then IsOrdered _ _ (Keeps-delete _) (Keeps-delete _)
perform-IsOrdered expire = Keeps-with_now IsOrdered _ λ now.
    Keeps-bind IsOrdered _ _
      (Keeps-query IsOrdered (λ db. filter (needs_delete_task now db.vm_tasks) db.vms))
      queue_expired-IsOrdered

-- From tables whose task ids are distinct and below the next id, and whose sequence numbers are
-- distinct within each VM, any steps at any times, failing or not, lead to such tables.
pub perform_all-IsOrdered :
    (steps : List (ℕ × QueueStep)) (s : Session Db)
    → IsOrdered s.db
    → IsOrdered (perform_all steps s).db
unfolding perform_all
perform_all-IsOrdered [] s h = h
perform_all-IsOrdered ((now, step) ∷ steps) s h =
    perform_all-IsOrdered steps (perform step (record s { now = now })).1
      ((perform-IsOrdered step).at (record s { now = now }) h)
