-- ===== src/Worker/Pass.antt =====
-- The order of the queue during `syncOnce` of internal/worker/worker.go.
use pve_manage.Prelude.{none, some, List, [], ◌∷◌}
use pve_manage.Text.{Text, text_eq}
use pve_manage.Json.{Column}
use pve_manage.Sql.{Except, ok, err}
use pve_manage.Tables.{Vm, Task, MaintenanceTask, Kind, provision, apply, reboot, delete, other}
use pve_manage.Tasks.Schedule.{Row}
use pve_manage.Tasks.Sequence.{IsOrdered}
use pve_manage.Tasks.Maintenance.{inventory_scan}
use pve_manage.Config.{App}
use pve_manage.Worker.{World}
use pve_manage.Worker.Remote.{Pve}
use pve_manage.Worker.Settings.{Libraries}
use pve_manage.Worker.Loop.{
  decoded, sync_vm, dispatch, run_task, run_maintenance_task, maintenance_result,
  maintenance_started, run_maintenance_tasks, task_result, task_started, run_vm_task, run_vm_tasks,
  sync_once,
}
use pve_manage.Worker.Maintains.{
  Maintains, Maintains-pure, Maintains-fail, Maintains-bind, Maintains-then, Maintains-attempt,
  Maintains-if,
}
use pve_manage.Worker.Ordered.{
  Ordered, Ordered-local, Keeps-mark_failed, Keeps-maintenance_running, Keeps-maintenance_done,
  Keeps-maintenance_failed, Keeps-purge_maintenance, Keeps-pending_maintenance, Keeps-pending_tasks,
  Keeps-ensure_maintenance, Keeps-cancel_superseded, Keeps-running, Keeps-done, Keeps-failed,
  Keeps-recover_stale, Keeps-purge, Keeps-expire,
}
use pve_manage.Worker.Provisioned.{sync_present-Ordered}
use pve_manage.Worker.ScanKept.{scan_pve-Ordered}
use pve_manage.Worker.Kept.{run_power_task-Ordered, run_reboot_task-Ordered, sync_delete-Ordered}

module _ {P : Type 0} (app : App) (libraries : Libraries) (pve : Pve P) where
  decoded-Ordered : (e : Text) (c : Column) → Maintains Ordered (decoded app libraries pve e c)
  decoded-Ordered e none = Maintains-fail Ordered e
  decoded-Ordered e (some m) = Maintains-pure Ordered m

  sync_vm-Ordered : (vm : Vm) → Maintains Ordered (sync_vm app libraries pve vm)
  unfolding sync_vm
  sync_vm-Ordered vm = Maintains-bind Ordered _ _ (decoded-Ordered _ _) λ prefer.
      Maintains-if Ordered _ _ _ (sync_delete-Ordered pve vm prefer none)
        (sync_present-Ordered app libraries pve vm prefer)

  dispatch-Ordered :
      (t : Task) (vm : Vm) (kind : Kind) → Maintains Ordered (dispatch app libraries pve t vm kind)
  dispatch-Ordered t vm provision = sync_vm-Ordered vm
  dispatch-Ordered t vm apply = sync_vm-Ordered vm
  dispatch-Ordered t vm Kind.power =
      Maintains-bind Ordered _ _ (decoded-Ordered _ _) (λ payload. run_power_task-Ordered pve vm _)
  dispatch-Ordered t vm reboot = run_reboot_task-Ordered pve vm
  dispatch-Ordered t vm delete = Maintains-bind Ordered _ _ (decoded-Ordered _ _) λ payload.
      Maintains-bind Ordered _ _ (decoded-Ordered _ _)
        λ prefer. sync_delete-Ordered pve vm prefer (some payload)
  dispatch-Ordered t vm (other kind) = Maintains-fail Ordered _

  run_task-Ordered : (r : Row) → Maintains Ordered (run_task app libraries pve r)
  unfolding run_task
  run_task-Ordered (t, vm) =
      Maintains-then Ordered _ _ (dispatch-Ordered t vm t.kind) (Ordered-local _ (Keeps-done t.id))

  run_maintenance_task-Ordered :
      (t : MaintenanceTask) → Maintains Ordered (run_maintenance_task app libraries pve t)
  unfolding run_maintenance_task
  run_maintenance_task-Ordered t =
      Maintains-if Ordered (text_eq t.kind inventory_scan) _ _
        (scan_pve-Ordered app libraries.disk_mib pve) (Maintains-fail Ordered _)

  maintenance_result-Ordered :
      (t : MaintenanceTask) (r : Except Text (Unit {0}))
      → Maintains Ordered (maintenance_result app libraries pve t r)
  maintenance_result-Ordered t (ok _) =
      Maintains-then Ordered _ _
        (Maintains-attempt Ordered _ (Ordered-local _ (Keeps-maintenance_done t.id)))
        (Maintains-pure Ordered tt)
  maintenance_result-Ordered t (err e) =
      Maintains-then Ordered _ _
        (Maintains-attempt Ordered _ (Ordered-local _ (Keeps-maintenance_failed t.id e)))
        (Maintains-pure Ordered tt)

  maintenance_started-Ordered :
      (t : MaintenanceTask) (r : Except Text (Unit {0}))
      → Maintains Ordered (maintenance_started app libraries pve t r)
  maintenance_started-Ordered t (err e) = Maintains-pure Ordered tt
  maintenance_started-Ordered t (ok _) =
      Maintains-bind Ordered _ _ (Maintains-attempt Ordered _ (run_maintenance_task-Ordered t))
        (maintenance_result-Ordered t)

  run_maintenance_tasks-Ordered :
      (ts : List MaintenanceTask) → Maintains Ordered (run_maintenance_tasks app libraries pve ts)
  unfolding run_maintenance_tasks
  run_maintenance_tasks-Ordered [] = Maintains-pure Ordered tt
  run_maintenance_tasks-Ordered (t ∷ ts) =
      Maintains-then Ordered _ _
        (Maintains-bind Ordered _ _
          (Maintains-attempt Ordered _ (Ordered-local _ (Keeps-maintenance_running t.id)))
          (maintenance_started-Ordered t))
        (run_maintenance_tasks-Ordered ts)

  task_result-Ordered :
      (r : Row) (e : Except Text (Unit {0})) → Maintains Ordered (task_result app libraries pve r e)
  task_result-Ordered (t, vm) (ok _) = Maintains-pure Ordered tt
  task_result-Ordered (t, vm) (err e) =
      Maintains-then Ordered _ _
        (Maintains-attempt Ordered _ (Ordered-local _ (Keeps-failed t.id e)))
        (Maintains-if Ordered _ _ _
          (Maintains-then Ordered _ _
            (Maintains-attempt Ordered _ (Ordered-local _ (Keeps-mark_failed vm.id e)))
            (Maintains-pure Ordered tt))
          (Maintains-pure Ordered tt))

  task_started-Ordered :
      (r : Row) (e : Except Text (Unit {0}))
      → Maintains Ordered (task_started app libraries pve r e)
  task_started-Ordered r (err e) = Maintains-pure Ordered tt
  task_started-Ordered r (ok _) =
      Maintains-bind Ordered _ _ (Maintains-attempt Ordered _ (run_task-Ordered r))
        (task_result-Ordered r)

  run_vm_tasks-Ordered : (rows : List Row) → Maintains Ordered (run_vm_tasks app libraries pve rows)
  unfolding run_vm_tasks run_vm_task
  run_vm_tasks-Ordered [] = Maintains-pure Ordered tt
  run_vm_tasks-Ordered (r ∷ rows) =
      Maintains-then Ordered _ _
        (Maintains-bind Ordered _ _
          (Maintains-attempt Ordered _ (Ordered-local _ (Keeps-running r.0.id)))
          (task_started-Ordered r))
        (run_vm_tasks-Ordered rows)

  sync_once-Maintains : Maintains Ordered (sync_once app libraries pve)
  unfolding sync_once
  sync_once-Maintains =
      Maintains-then Ordered _ _ (Maintains-attempt Ordered _ (Ordered-local _ Keeps-recover_stale))
        (Maintains-then Ordered _ _ (Ordered-local _ Keeps-ensure_maintenance) (
          Maintains-bind Ordered _ _ (Ordered-local _ Keeps-pending_maintenance) λ ts.
            Maintains-then Ordered _ _ (run_maintenance_tasks-Ordered ts) (
              Maintains-then Ordered _ _ (Ordered-local _ Keeps-expire) (
                Maintains-then Ordered _ _ (Ordered-local _ Keeps-cancel_superseded) (
                  Maintains-bind Ordered _ _ (Ordered-local _ Keeps-pending_tasks) λ rows.
                    Maintains-then Ordered _ _ (run_vm_tasks-Ordered rows) (
                      Maintains-then Ordered _ _
                        (Maintains-attempt Ordered _ (Ordered-local _ Keeps-purge))
                        (Maintains-then Ordered _ _
                          (Maintains-attempt Ordered _ (Ordered-local _ Keeps-purge_maintenance))
                          (Maintains-pure Ordered tt))))))))

  -- From tables in which the ids of tasks are distinct and below the next id, and the sequence
  -- numbers are distinct within each VM, a pass of the worker leads to such tables, whatever
  -- statements and calls fail in it, the inventory scan included.
  pub sync_once-IsOrdered :
      (w : World P) → IsOrdered w.tables.db → IsOrdered (sync_once app libraries pve w).1.tables.db
  sync_once-IsOrdered w h = sync_once-Maintains.at w h
