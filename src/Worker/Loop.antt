-- ===== src/Worker/Loop.antt =====
-- One pass of the worker: `syncOnce`, `runTask`, `syncVM` and `runMaintenanceTask`.
use pve_manage.Prelude.{suc, Bool, ◌||◌, not, none, some, List, [], ◌∷◌, if◌then◌else◌, ltb}
use pve_manage.Text.{Text, text_eq, codes}
use pve_manage.Json.{Object, Column, get, as_string, string_from}
use pve_manage.Sql.{Except, ok, err, Exec, pure, fail, ◌>>=◌, ◌>>◌}
use pve_manage.Tables.{
  Vm, Task, MaintenanceTask, Kind, provision, apply, power, reboot, delete, other, is_null,
  is_deleting,
}
use pve_manage.Tasks.{
  cancel_superseded_tasks, mark_task_running, mark_task_done, mark_task_failed, purge_old_tasks,
}
use pve_manage.Tasks.Schedule.{
  Row, max_vm_task_auto_retries, pending_tasks, ensure_expired_delete_tasks,
}
use pve_manage.Tasks.Maintenance.{
  inventory_scan, recover_stale_running_tasks, ensure_maintenance_tasks, pending_maintenance_tasks,
  mark_maintenance_task_running, mark_maintenance_task_done, mark_maintenance_task_failed,
  purge_old_maintenance_tasks,
}
use pve_manage.Config.{App}
use pve_manage.Worker.Settings.{Libraries}
use pve_manage.Worker.{World, local, attempt}
use pve_manage.Worker.Remote.{Pve}
use pve_manage.Worker.Marks.{mark_failed}
use pve_manage.Worker.Power.{run_power_task, run_reboot_task}
use pve_manage.Worker.Deletion.{sync_delete}
use pve_manage.Worker.Provision.{sync_present}
use pve_manage.Worker.Scanning.{scan_pve}

module _ {P : Type 0} (app : App) (libraries : Libraries) (pve : Pve P) where
  abbrev pub decoded : Text → Column → Exec Text (World P) Object
  decoded e none = fail e
  decoded e (some m) = pure m

  abbrev pub wants_deletion : Vm → Object → Bool
  wants_deletion vm prefer =
      text_eq (as_string (get "intent" prefer)) (codes "delete_pending")
      || is_deleting vm.sync_state
      || not (is_null vm.delete_requested_at)

  -- `syncVM`
  unfoldable pub sync_vm : Vm → Exec Text (World P) (Unit {0})
  sync_vm vm = do
    prefer ← decoded (codes "invalid prefer_status_json") vm.prefer_status
    if wants_deletion vm prefer
        then sync_delete pve vm prefer none
        else sync_present app libraries pve vm prefer

  abbrev pub dispatch : Task → Vm → Kind → Exec Text (World P) (Unit {0})
  dispatch t vm provision = sync_vm vm
  dispatch t vm apply = sync_vm vm
  dispatch t vm power = decoded (codes "invalid power task payload") t.payload >>= λ payload.
      run_power_task pve vm (string_from payload "power" [])
  dispatch t vm reboot = run_reboot_task pve vm
  dispatch t vm delete = decoded (codes "invalid delete task payload") t.payload >>= λ payload.
      decoded (codes "invalid prefer_status_json") vm.prefer_status >>= λ prefer.
      sync_delete pve vm prefer (some payload)
  dispatch t vm (other kind) = fail (codes "unknown task kind")

  -- `runTask`
  unfoldable pub run_task : Row → Exec Text (World P) (Unit {0})
  run_task (t, vm) = do dispatch t vm t.kind; local (mark_task_done t.id)

  -- `runMaintenanceTask`
  unfoldable pub run_maintenance_task : MaintenanceTask → Exec Text (World P) (Unit {0})
  run_maintenance_task t =
      if text_eq t.kind inventory_scan
      then scan_pve app libraries.disk_mib pve
      else fail (codes "unknown maintenance task kind")

  abbrev pub maintenance_result :
      MaintenanceTask → Except Text (Unit {0}) → Exec Text (World P) (Unit {0})
  maintenance_result t (ok _) = attempt (local (mark_maintenance_task_done t.id)) >> pure tt
  maintenance_result t (err e) = attempt (local (mark_maintenance_task_failed t.id e)) >> pure tt

  abbrev pub maintenance_started :
      MaintenanceTask → Except Text (Unit {0}) → Exec Text (World P) (Unit {0})
  maintenance_started t (err e) = pure tt
  maintenance_started t (ok _) = attempt (run_maintenance_task t) >>= maintenance_result t

  unfoldable pub run_maintenance_tasks : List MaintenanceTask → Exec Text (World P) (Unit {0})
  run_maintenance_tasks [] = pure tt
  run_maintenance_tasks (t ∷ ts) =
      (attempt (local (mark_maintenance_task_running t.id)) >>= maintenance_started t)
      >> run_maintenance_tasks ts

  -- A failed task is recorded; the VM is marked once the automatic retries are used up.
  abbrev pub task_result : Row → Except Text (Unit {0}) → Exec Text (World P) (Unit {0})
  task_result (t, vm) (ok _) = pure tt
  task_result (t, vm) (err e) =
      attempt (local (mark_task_failed t.id e))
      >> (if ltb max_vm_task_auto_retries (suc t.attempt_count)
          then attempt (local (mark_failed vm.id e)) >> pure tt
          else pure tt)

  abbrev pub task_started : Row → Except Text (Unit {0}) → Exec Text (World P) (Unit {0})
  task_started r (err e) = pure tt
  task_started r (ok _) = attempt (run_task r) >>= task_result r

  unfoldable pub run_vm_task : Row → Exec Text (World P) (Unit {0})
  run_vm_task r = attempt (local (mark_task_running r.0.id)) >>= task_started r

  unfoldable pub run_vm_tasks : List Row → Exec Text (World P) (Unit {0})
  run_vm_tasks [] = pure tt
  run_vm_tasks (r ∷ rows) = run_vm_task r >> run_vm_tasks rows

  -- `syncOnce`
  unfoldable pub sync_once : Exec Text (World P) (Unit {0})
  sync_once = do
    attempt (local recover_stale_running_tasks)
    local ensure_maintenance_tasks
    maintenance ← local pending_maintenance_tasks
    run_maintenance_tasks maintenance
    local ensure_expired_delete_tasks
    local cancel_superseded_tasks
    rows ← local pending_tasks
    run_vm_tasks rows
    attempt (local purge_old_tasks)
    attempt (local purge_old_maintenance_tasks)
    pure tt
