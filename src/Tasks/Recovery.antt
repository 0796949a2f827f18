-- ===== src/Tasks/Recovery.antt =====
-- The queue after `recoverAbandonedRunningTasks` of internal/worker/worker.go.
use pve_manage.Prelude.{◌≡◌, refl, false, All}
use pve_manage.Sql.{Session, ok}
use pve_manage.Sql.Ensures.{Ensures, Ensures-exec, Ensures-with_now, Ensures-then}
use pve_manage.Tables.{Db, is_running}
use pve_manage.Tables.Laws.{All-update_where_new}
use pve_manage.Tasks.Maintenance.{recover_abandoned_running_tasks, requeue, requeue_maintenance}

abbrev pub NoneRunning : Db → Type 0
NoneRunning db =
    All (λ t. is_running t.status ≡ false) db.vm_tasks
    × All (λ t. is_running t.status ≡ false) db.maintenance_tasks

Ensures-recovery : Ensures (λ _. Unit {0}) recover_abandoned_running_tasks (λ _. NoneRunning)
unfolding recover_abandoned_running_tasks
Ensures-recovery = Ensures-with_now _ λ now.
    Ensures-then {R = λ db. All (λ t. is_running t.status ≡ false) db.maintenance_tasks} _ _
      (Ensures-exec _ λ db _.
        All-update_where_new (λ t. is_running t.status ≡ false) (λ t. is_running t.status)
          (requeue_maintenance now) db.maintenance_tasks (λ t _. refl) (λ t e. e))
      (Ensures-exec _ λ db h. (
        All-update_where_new (λ t. is_running t.status ≡ false) (λ t. is_running t.status)
            (requeue now) db.vm_tasks (λ t _. refl) (λ t e. e),
        h,
      ))

-- When the recovery at the start of the worker succeeds, no task of a VM and no maintenance task is
-- left running.
pub recover_abandoned-NoneRunning :
    (s : Session Db) (done : Unit {0})
    → (recover_abandoned_running_tasks s).0 ≡ ok done
    → NoneRunning (recover_abandoned_running_tasks s).1.db
recover_abandoned-NoneRunning s done h = Ensures-recovery.at s done tt h
