-- ===== src/Worker/Kept.antt =====
-- The order of the queue during power changes and deletions: internal/worker/worker.go.
use pve_manage.Prelude.{ℕ, ◌||◌, Bool, true, false, Option, none, some, List, [], ◌∷◌}
use pve_manage.Text.{Text, text_eq, codes}
use pve_manage.Json.{Object}
use pve_manage.Sql.{Except, ok, err, Exec}
use pve_manage.Tables.{Vm}
use pve_manage.Worker.{call, attempt}
use pve_manage.Worker.Remote.{Pve, StorageItem}
use pve_manage.Worker.Power.{
  after_command, shut_down, restart, ensure_vm_stopped, start_stopped, restart_running, apply_power,
  known_node, power_on, reboot_on, run_power_task, run_reboot_task,
}
use pve_manage.Worker.Deletion.{
  remove_each_snapshot, remove_snapshots, remove_each_backup, remove_listed, remove_from_storages,
  remove_backups, cleanup_deletion_artifacts, hard_stop, stop_for_deletion, delete_for_good,
  wait_or_delete, delete_on, sync_delete, deadline_or_fail,
}
use pve_manage.Worker.Maintains.{
  Maintains, Maintains-pure, Maintains-fail, Maintains-bind, Maintains-then, Maintains-attempt,
  Maintains-if,
}
use pve_manage.Worker.Ordered.{
  Ordered, Ordered-call, Ordered-local, Ordered-at_now, Keeps-mark_synced,
  Keeps-mark_delete_pending, Keeps-mark_deleted, Keeps-cancel_outstanding,
}

module _ {P : Type 0} (pve : Pve P) (vm : Vm) where
  pub call_and_attempt : {A : Type 0} (m : Exec Text P A) → Maintains Ordered (attempt (call m))
  call_and_attempt m = Maintains-attempt Ordered _ (Ordered-call m)

  after_command-Ordered :
      (node wanted : Text) (hard : Exec Text P (Unit {0})) (r : Except Text (Unit {0}))
      → Maintains Ordered (after_command pve vm node wanted hard r)
  unfolding after_command
  after_command-Ordered node wanted hard (ok _) = Maintains-pure Ordered tt
  after_command-Ordered node wanted hard (err e) =
      Maintains-if Ordered _ _ _ (Maintains-fail Ordered e) (
        Maintains-bind Ordered _ _ (call_and_attempt _)
          λ status. Maintains-if Ordered _ _ _ (Maintains-pure Ordered tt) (Ordered-call hard))

  shut_down-Ordered : (node : Text) → Maintains Ordered (shut_down pve vm node)
  unfolding shut_down
  shut_down-Ordered node =
      Maintains-bind Ordered _ _ (call_and_attempt _) (after_command-Ordered node _ _)

  restart-Ordered : (node : Text) → Maintains Ordered (restart pve vm node)
  unfolding restart
  restart-Ordered node =
      Maintains-bind Ordered _ _ (call_and_attempt _) (after_command-Ordered node _ _)

  pub ensure_vm_stopped-Ordered : (node : Text) → Maintains Ordered (ensure_vm_stopped pve vm node)
  unfolding ensure_vm_stopped
  ensure_vm_stopped-Ordered node =
      Maintains-bind Ordered _ _ (Ordered-call _)
        λ status. Maintains-if Ordered _ _ _ (Maintains-pure Ordered tt) (shut_down-Ordered node)

  start_stopped-Ordered : (node : Text) → Maintains Ordered (start_stopped pve vm node)
  start_stopped-Ordered node =
      Maintains-bind Ordered _ _ (Ordered-call _)
        λ status. Maintains-if Ordered _ _ _ (Maintains-pure Ordered tt) (Ordered-call _)

  restart_running-Ordered : (node : Text) → Maintains Ordered (restart_running pve vm node)
  restart_running-Ordered node =
      Maintains-bind Ordered _ _ (Ordered-call _)
        λ status. Maintains-if Ordered _ _ _ (restart-Ordered node) (Maintains-pure Ordered tt)

  pub apply_power-Ordered :
      (node wanted : Text) → Maintains Ordered (apply_power pve vm node wanted)
  unfolding apply_power
  apply_power-Ordered node wanted =
      Maintains-if Ordered (text_eq wanted (codes "running")) _ _ (start_stopped-Ordered node) (
        Maintains-if Ordered (text_eq wanted (codes "stopped")) _ _ (ensure_vm_stopped-Ordered node)
          (Maintains-if Ordered (text_eq wanted (codes "reboot")) _ _ (restart_running-Ordered node)
            (Maintains-if Ordered (text_eq wanted [] || text_eq wanted (codes "unknown")) _ _
              (Maintains-pure Ordered tt) (Maintains-fail Ordered (codes "unknown power")))))

  known_node-Ordered : (node : Text) → Maintains Ordered (known_node pve vm node)
  known_node-Ordered [] =
      Maintains-bind Ordered _ _ (Ordered-call _) (λ found. Maintains-pure Ordered found.0)
  known_node-Ordered (c ∷ node) = Maintains-pure Ordered _

  power_on-Ordered : (power node : Text) → Maintains Ordered (power_on pve vm power node)
  power_on-Ordered power [] = Maintains-pure Ordered tt
  power_on-Ordered power (c ∷ node) =
      Maintains-then Ordered _ _ (apply_power-Ordered (c ∷ node) power) (
        Maintains-bind Ordered _ _ (Ordered-call _)
          λ status. Ordered-local _ (Keeps-mark_synced vm.id _))

  reboot_on-Ordered : (node : Text) → Maintains Ordered (reboot_on pve vm node)
  reboot_on-Ordered [] = Maintains-pure Ordered tt
  reboot_on-Ordered (c ∷ node) = apply_power-Ordered (c ∷ node) _

  pub run_power_task-Ordered : (power : Text) → Maintains Ordered (run_power_task pve vm power)
  unfolding run_power_task
  run_power_task-Ordered power =
      Maintains-bind Ordered _ _ (known_node-Ordered vm.node) (power_on-Ordered power)

  pub run_reboot_task-Ordered : Maintains Ordered (run_reboot_task pve vm)
  unfolding run_reboot_task
  run_reboot_task-Ordered =
      Maintains-bind Ordered _ _ (known_node-Ordered vm.node) reboot_on-Ordered

  remove_each_snapshot-Ordered :
      (node : Text) (names : List Text) → Maintains Ordered (remove_each_snapshot pve vm node names)
  unfolding remove_each_snapshot
  remove_each_snapshot-Ordered node [] = Maintains-pure Ordered tt
  remove_each_snapshot-Ordered node (name ∷ names) =
      Maintains-if Ordered _ _ _ (remove_each_snapshot-Ordered node names)
        (Maintains-then Ordered _ _ (Ordered-call _) (remove_each_snapshot-Ordered node names))

  remove_each_backup-Ordered :
      (node storage : Text) (items : List StorageItem)
      → Maintains Ordered (remove_each_backup pve vm node storage items)
  unfolding remove_each_backup
  remove_each_backup-Ordered node storage [] = Maintains-pure Ordered tt
  remove_each_backup-Ordered node storage (item ∷ items) =
      Maintains-if Ordered _ _ _ (remove_each_backup-Ordered node storage items) (
        Maintains-then Ordered _ _ (Ordered-call _) (remove_each_backup-Ordered node storage items))

  remove_listed-Ordered :
      (node storage : Text) (r : Except Text (List StorageItem))
      → Maintains Ordered (remove_listed pve vm node storage r)
  remove_listed-Ordered node storage (ok items) = remove_each_backup-Ordered node storage items
  remove_listed-Ordered node storage (err e) =
      Maintains-if Ordered _ _ _ (Maintains-pure Ordered tt) (Maintains-fail Ordered e)

  remove_from_storages-Ordered :
      (node : Text) (storages : List Text)
      → Maintains Ordered (remove_from_storages pve vm node storages)
  unfolding remove_from_storages
  remove_from_storages-Ordered node [] = Maintains-pure Ordered tt
  remove_from_storages-Ordered node (storage ∷ storages) =
      Maintains-then Ordered _ _
        (Maintains-bind Ordered _ _ (call_and_attempt _) (remove_listed-Ordered node storage))
        (remove_from_storages-Ordered node storages)

  cleanup-Ordered : (node : Text) → Maintains Ordered (cleanup_deletion_artifacts pve vm node)
  unfolding cleanup_deletion_artifacts remove_snapshots remove_backups
  cleanup-Ordered node =
      Maintains-then Ordered _ _
        (Maintains-bind Ordered _ _ (Ordered-call _) (remove_each_snapshot-Ordered node))
        (Maintains-bind Ordered _ _ (Ordered-call _) (remove_from_storages-Ordered node))

  hard_stop-Ordered :
      (node : Text) (r : Except Text (Unit {0})) → Maintains Ordered (hard_stop pve vm node r)
  hard_stop-Ordered node (ok _) = Maintains-pure Ordered tt
  hard_stop-Ordered node (err e) =
      Maintains-if Ordered _ _ _
        (Maintains-then Ordered _ _ (call_and_attempt _) (Maintains-pure Ordered tt))
        (Maintains-pure Ordered tt)

  delete_for_good-Ordered : (node : Text) → Maintains Ordered (delete_for_good pve vm node)
  unfolding delete_for_good
  delete_for_good-Ordered node = Maintains-then Ordered _ _ (cleanup-Ordered node) (
      Maintains-then Ordered _ _ (Ordered-call _) (
        Maintains-then Ordered _ _ (Ordered-local _ (Keeps-mark_deleted vm.id)) (
          Maintains-then Ordered _ _
            (Maintains-attempt Ordered _ (Ordered-local _ (Keeps-cancel_outstanding vm.id)))
            (Maintains-pure Ordered tt))))

  wait_or_delete-Ordered :
      (node : Text) (at now : ℕ) → Maintains Ordered (wait_or_delete pve vm node at now)
  wait_or_delete-Ordered node at now =
      Maintains-if Ordered _ _ _ (Ordered-local _ (Keeps-mark_delete_pending vm.id _))
        (delete_for_good-Ordered node)

  deadline-Ordered : (o : Option ℕ) → Maintains Ordered (deadline_or_fail pve vm o)
  deadline-Ordered none = Maintains-fail Ordered _
  deadline-Ordered (some t) = Maintains-pure Ordered t

  delete_on-Ordered :
      (prefer : Object) (payload : Option Object) (found : Text × Bool)
      → Maintains Ordered (delete_on pve vm prefer payload found)
  unfolding stop_for_deletion
  delete_on-Ordered prefer payload (node, false) = Ordered-local _ (Keeps-mark_deleted vm.id)
  delete_on-Ordered prefer payload (node, true) =
      Maintains-then Ordered _ _
        (Maintains-bind Ordered _ _ (call_and_attempt _) (hard_stop-Ordered node))
        (Maintains-bind Ordered _ _ (deadline-Ordered _)
          λ at. Ordered-at_now _ (wait_or_delete-Ordered node at))

  pub sync_delete-Ordered :
      (prefer : Object) (payload : Option Object)
      → Maintains Ordered (sync_delete pve vm prefer payload)
  unfolding sync_delete
  sync_delete-Ordered prefer payload =
      Maintains-bind Ordered _ _ (Ordered-call _) (delete_on-Ordered prefer payload)
