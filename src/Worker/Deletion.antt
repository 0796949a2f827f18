-- ===== src/Worker/Deletion.antt =====
-- Deletion: `syncDelete`, `deleteExecuteAfterForTask` and the removal of snapshots and backups.
use pve_manage.Prelude.{
  ℕ, Bool, true, false, ◌||◌, ◌&&◌, not, Option, none, some, List, [], ◌∷◌, if◌then◌else◌, is_nil,
  ltb, ◌==◌,
}
use pve_manage.Prelude.Int.{pos}
use pve_manage.Text.{Text, text_eq, codes, to_lower, contains}
use pve_manage.Json.{Object, Value, str, num, time, get, bool_from}
use pve_manage.Sql.{Except, ok, err, Exec, pure, fail, ◌>>=◌, ◌>>◌}
use pve_manage.Tables.{Vm}
use pve_manage.Tasks.{cancel_outstanding_vm_tasks}
use pve_manage.Worker.{World, local, call, attempt, at_now}
use pve_manage.Worker.Remote.{Pve, StorageItem}
use pve_manage.Worker.Marks.{mark_deleted, mark_delete_pending}
use pve_manage.Worker.Power.{is_power_timeout_error}

-- `parseTime` of `v.(string)`: `none` where that is no string or empty, `some none` where it is no
-- time.
abbrev pub time_text : Option Value → Option (Option ℕ)
time_text (some (time t)) = some (some t)
time_text (some (str (c ∷ s))) = some none
time_text _ = none

abbrev pub or_next : Option (Option ℕ) → Option (Option ℕ) → Option (Option ℕ)
or_next none next = next
or_next (some t) next = some t

abbrev pub parsed_time : Option (Option ℕ) → Option ℕ
parsed_time none = none
parsed_time (some t) = t

abbrev pub column_time : Option ℕ → Option (Option ℕ)
column_time none = none
column_time (some t) = some (some t)

abbrev pub task_deadline : Option Object → Option (Option ℕ)
task_deadline none = none
task_deadline (some payload) =
    if not (bool_from payload "immediate") && not (bool_from payload "expired")
    then time_text (get "execute_after" payload)
    else none

-- `deleteExecuteAfterForTask`, parsed.
unfoldable pub delete_execute_after_for_task : Vm → Object → Option Object → Option ℕ
delete_execute_after_for_task vm prefer payload = parsed_time (
    or_next (task_deadline payload) (
      or_next (column_time vm.delete_execute_after)
        (time_text (get "delete_execute_after" prefer))))

-- `isIgnorableBackupScanError`
unfoldable pub is_ignorable_backup_scan_error : Text → Bool
is_ignorable_backup_scan_error e =
    contains (to_lower e) (codes "unsupported")
    || contains (to_lower e) (codes "not configured")
    || contains (to_lower e) (codes "content type")
    || contains (to_lower e) (codes "not implemented")
    || contains (to_lower e) (codes "status 501")

-- A snapshot that is not deleted: the nameless one and the current state.
abbrev pub keeps_snapshot : Text → Bool
keeps_snapshot name = is_nil name || text_eq name (codes "current")

module _ {P : Type 0} (pve : Pve P) (vm : Vm) where
  -- The loop of `removeSnapshots`.
  unfoldable pub remove_each_snapshot : Text → List Text → Exec Text (World P) (Unit {0})
  remove_each_snapshot node [] = pure tt
  remove_each_snapshot node (name ∷ names) =
      let rest = remove_each_snapshot node names in
      if keeps_snapshot name
      then rest
      else call (pve.delete_vm_snapshot vm.cluster_key node vm.vmid name) >> rest

  unfoldable pub remove_snapshots : Text → Exec Text (World P) (Unit {0})
  remove_snapshots node = do
    names ← call (pve.list_vm_snapshots vm.cluster_key node vm.vmid)
    remove_each_snapshot node names

  abbrev pub keeps_item : StorageItem → Bool
  keeps_item item = not (item.vmid == vm.vmid) || is_nil item.vol_id

  unfoldable pub remove_each_backup :
      Text → Text → List StorageItem → Exec Text (World P) (Unit {0})
  remove_each_backup node storage [] = pure tt
  remove_each_backup node storage (item ∷ items) =
      let rest = remove_each_backup node storage items in
      if keeps_item item
      then rest
      else call (pve.delete_storage_content vm.cluster_key node storage item.vol_id) >> rest

  -- A storage whose content cannot be listed for a reason of its own is passed over.
  abbrev pub remove_listed :
      Text → Text → Except Text (List StorageItem) → Exec Text (World P) (Unit {0})
  remove_listed node storage (ok items) = remove_each_backup node storage items
  remove_listed node storage (err e) = if is_ignorable_backup_scan_error e then pure tt else fail e

  unfoldable pub remove_from_storages : Text → List Text → Exec Text (World P) (Unit {0})
  remove_from_storages node [] = pure tt
  remove_from_storages node (storage ∷ storages) =
      (attempt (call (pve.list_storage_content vm.cluster_key node storage vm.vmid))
        >>= remove_listed node storage)
      >> remove_from_storages node storages

  -- `removeBackups`
  unfoldable pub remove_backups : Text → Exec Text (World P) (Unit {0})
  remove_backups node = do
    storages ← call (pve.list_backup_storages vm.cluster_key node)
    remove_from_storages node storages

  -- `cleanupDeletionArtifacts`
  unfoldable pub cleanup_deletion_artifacts : Text → Exec Text (World P) (Unit {0})
  cleanup_deletion_artifacts node = remove_snapshots node >> remove_backups node

  -- After a failed shutdown: a hard stop where it timed out; the result does not matter.
  abbrev pub hard_stop : Text → Except Text (Unit {0}) → Exec Text (World P) (Unit {0})
  hard_stop node (ok _) = pure tt
  hard_stop node (err e) =
      if is_power_timeout_error e
      then attempt (call (pve.stop_vm vm.cluster_key node vm.vmid)) >> pure tt
      else pure tt

  unfoldable pub stop_for_deletion : Text → Exec Text (World P) (Unit {0})
  stop_for_deletion node = do
    result ← attempt (call (pve.shutdown_vm vm.cluster_key node vm.vmid))
    hard_stop node result

  unfoldable pub delete_for_good : Text → Exec Text (World P) (Unit {0})
  delete_for_good node = do
    cleanup_deletion_artifacts node
    call (pve.delete_vm vm.cluster_key node vm.vmid)
    local (mark_deleted vm.id)
    attempt (local (cancel_outstanding_vm_tasks vm.id))
    pure tt

  abbrev pub wait_or_delete : Text → ℕ → ℕ → Exec Text (World P) (Unit {0})
  wait_or_delete node delete_at now =
      if ltb now delete_at
      then local (
          mark_delete_pending vm.id λ now.
            ("intent", str (codes "delete_pending"))
            ∷ ("power", str (codes "stopped"))
            ∷ ("node", str node)
            ∷ ("vmid", num (pos vm.vmid))
            ∷ ("delete_execute_after", time delete_at)
            ∷ ("last_synced_at", time now)
            ∷ [])
      else delete_for_good node

  abbrev pub deadline_or_fail : Option ℕ → Exec Text (World P) ℕ
  deadline_or_fail none = fail (codes "invalid delete_execute_after")
  deadline_or_fail (some t) = pure t

  abbrev pub delete_on : Object → Option Object → Text × Bool → Exec Text (World P) (Unit {0})
  delete_on prefer payload (node, false) = local (mark_deleted vm.id)
  delete_on prefer payload (node, true) = do
    stop_for_deletion node
    delete_at ← deadline_or_fail (delete_execute_after_for_task vm prefer payload)
    at_now (wait_or_delete node delete_at)

  -- `syncDelete`
  unfoldable pub sync_delete : Object → Option Object → Exec Text (World P) (Unit {0})
  sync_delete prefer payload =
      call (pve.find_vm_node vm.cluster_key vm.vmid) >>= delete_on prefer payload
