-- ===== src/Worker/Ordered.antt =====
-- The order of the queue under the worker's single statements and calls: internal/worker/worker.go.
use pve_manage.Prelude.{ℕ, List, [], ◌∷◌}
use pve_manage.Text.{Text}
use pve_manage.Json.{Object}
use pve_manage.Sql.{Session, Exec, exec, with_now}
use pve_manage.Sql.Keeps.{
  Keeps, Keeps-exec, Keeps-with_now, Keeps-query, Keeps-bind, Keeps-pure, Keeps-if,
}
use pve_manage.Tables.{Db, Vm, MaintenanceTask}
use pve_manage.Tasks.{
  cancel_outstanding_vm_tasks, cancel_superseded_tasks, mark_task_running, mark_task_done,
  mark_task_failed, purge_old_tasks,
}
use pve_manage.Tasks.Schedule.{pending_tasks, ensure_expired_delete_tasks}
use pve_manage.Tasks.Maintenance.{
  recover_stale_running_tasks, ensure_maintenance_tasks, pending_maintenance_tasks,
  mark_maintenance_task_running, mark_maintenance_task_done, mark_maintenance_task_failed,
  purge_old_maintenance_tasks,
}
use pve_manage.Tasks.Sequence.{IsOrdered}
use pve_manage.Tasks.Steps.{
  perform, perform-IsOrdered, cancel_outstanding, cancel_superseded, run, done, failed,
  recover_stale, purge, expire,
}
use pve_manage.Api.Vms.{update_vm}
use pve_manage.Worker.{World, local, call, at_now}
use pve_manage.Worker.Marks.{mark_synced, mark_node, mark_delete_pending, mark_failed, mark_deleted}
use pve_manage.Worker.Maintains.{Maintains}

module _ {P : Type 0} where
  abbrev pub Ordered : World P → Type 0
  Ordered w = IsOrdered w.tables.db

  pub Ordered-call : {A : Type 0} (m : Exec Text P A) → Maintains Ordered (call m)
  unfolding call
  Ordered-call m = record { at = λ w h. h }

  pub Ordered-local :
      {A : Type 0} (m : Exec Text (Session Db) A) → Keeps IsOrdered m → Maintains Ordered (local m)
  unfolding local
  Ordered-local m h = record { at = λ w q. h.at w.tables q }

  pub Ordered-at_now :
      {A : Type 0} (f : ℕ → Exec Text (World P) A)
      → ((now : ℕ) → Maintains Ordered (f now))
      → Maintains Ordered (at_now f)
  unfolding at_now
  Ordered-at_now f h = record { at = λ w q. (h w.tables.now).at w q }

-- The rows of `vms` do not matter.
pub Keeps-update_vm :
    (id : ℕ) (f : ℕ → Vm → Vm) → Keeps IsOrdered (with_now λ now. exec (update_vm id (f now)))
Keeps-update_vm id f =
    Keeps-with_now IsOrdered _
      λ now. Keeps-exec IsOrdered _ λ db h. record { apart = h.apart; ids_below = h.ids_below }

pub Keeps-mark_synced : (id : ℕ) (real : ℕ → Object) → Keeps IsOrdered (mark_synced id real)
unfolding mark_synced
Keeps-mark_synced id real = Keeps-update_vm id _

pub Keeps-mark_delete_pending :
    (id : ℕ) (real : ℕ → Object) → Keeps IsOrdered (mark_delete_pending id real)
unfolding mark_delete_pending
Keeps-mark_delete_pending id real = Keeps-update_vm id _

pub Keeps-mark_failed : (id : ℕ) (e : Text) → Keeps IsOrdered (mark_failed id e)
unfolding mark_failed
Keeps-mark_failed id e = Keeps-update_vm id _

pub Keeps-mark_deleted : (id : ℕ) → Keeps IsOrdered (mark_deleted id)
unfolding mark_deleted
Keeps-mark_deleted id = Keeps-update_vm id _

pub Keeps-mark_node : (id : ℕ) (node : Text) → Keeps IsOrdered (mark_node id node)
unfolding mark_node
Keeps-mark_node id [] = Keeps-pure IsOrdered tt
Keeps-mark_node id (c ∷ node) = Keeps-update_vm id _

-- Neither do maintenance tasks.
Keeps-maintenance_table :
    (f : ℕ → Db → List MaintenanceTask)
    → Keeps IsOrdered (with_now λ now. exec λ db. record db { maintenance_tasks = f now db })
Keeps-maintenance_table f =
    Keeps-with_now IsOrdered _
      λ now. Keeps-exec IsOrdered _ λ db h. record { apart = h.apart; ids_below = h.ids_below }

pub Keeps-maintenance_running : (id : ℕ) → Keeps IsOrdered (mark_maintenance_task_running id)
unfolding mark_maintenance_task_running
Keeps-maintenance_running id = Keeps-maintenance_table _

pub Keeps-maintenance_done : (id : ℕ) → Keeps IsOrdered (mark_maintenance_task_done id)
unfolding mark_maintenance_task_done
Keeps-maintenance_done id = Keeps-maintenance_table _

pub Keeps-maintenance_failed :
    (id : ℕ) (e : Text) → Keeps IsOrdered (mark_maintenance_task_failed id e)
unfolding mark_maintenance_task_failed
Keeps-maintenance_failed id e = Keeps-maintenance_table _

pub Keeps-purge_maintenance : Keeps IsOrdered purge_old_maintenance_tasks
unfolding purge_old_maintenance_tasks
Keeps-purge_maintenance = Keeps-maintenance_table _

pub Keeps-pending_maintenance : Keeps IsOrdered pending_maintenance_tasks
unfolding pending_maintenance_tasks
Keeps-pending_maintenance = Keeps-with_now IsOrdered _ λ now. Keeps-query IsOrdered _

pub Keeps-pending_tasks : Keeps IsOrdered pending_tasks
unfolding pending_tasks
Keeps-pending_tasks = Keeps-with_now IsOrdered _ λ now. Keeps-query IsOrdered _

pub Keeps-ensure_maintenance : Keeps IsOrdered ensure_maintenance_tasks
unfolding ensure_maintenance_tasks
Keeps-ensure_maintenance = Keeps-with_now IsOrdered _ λ now.
    Keeps-bind IsOrdered _ _ (Keeps-query IsOrdered _) λ latest.
      Keeps-if IsOrdered _ _ _ (Keeps-pure IsOrdered tt)
        (Keeps-exec IsOrdered _ λ db h. record { apart = h.apart; ids_below = h.ids_below })

-- The statements on the queue.
pub Keeps-cancel_outstanding : (id : ℕ) → Keeps IsOrdered (cancel_outstanding_vm_tasks id)
unfolding perform
Keeps-cancel_outstanding id = perform-IsOrdered (cancel_outstanding id)

pub Keeps-cancel_superseded : Keeps IsOrdered cancel_superseded_tasks
unfolding perform
Keeps-cancel_superseded = perform-IsOrdered cancel_superseded

pub Keeps-running : (id : ℕ) → Keeps IsOrdered (mark_task_running id)
unfolding perform
Keeps-running id = perform-IsOrdered (run id)

pub Keeps-done : (id : ℕ) → Keeps IsOrdered (mark_task_done id)
unfolding perform
Keeps-done id = perform-IsOrdered (done id)

pub Keeps-failed : (id : ℕ) (e : Text) → Keeps IsOrdered (mark_task_failed id e)
unfolding perform
Keeps-failed id e = perform-IsOrdered (failed id e)

pub Keeps-recover_stale : Keeps IsOrdered recover_stale_running_tasks
unfolding perform
Keeps-recover_stale = perform-IsOrdered recover_stale

pub Keeps-purge : Keeps IsOrdered purge_old_tasks
unfolding perform
Keeps-purge = perform-IsOrdered purge

pub Keeps-expire : Keeps IsOrdered ensure_expired_delete_tasks
unfolding perform
Keeps-expire = perform-IsOrdered expire
