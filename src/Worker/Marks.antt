-- ===== src/Worker/Marks.antt =====
-- The statements by which the worker records what became of a VM.
use pve_manage.Prelude.{ℕ, none, some, [], ◌∷◌}
use pve_manage.Text.{Text, codes}
use pve_manage.Json.{Object, str, time}
use pve_manage.Sql.{exec, with_now, pure}
use pve_manage.Tables.{SyncState}
use pve_manage.Tasks.{Sql}
use pve_manage.Api.Vms.{update_vm}

-- `markSynced`; the object may hold the time.
unfoldable pub mark_synced : ℕ → (ℕ → Object) → Sql (Unit {0})
mark_synced id real = with_now λ now. exec (
    update_vm id (λ v. record v {
      real_status = some (real now);
      sync_state = SyncState.synced;
      sync_error = none;
      updated_at = now;
    }))

-- `markNode`
unfoldable pub mark_node : ℕ → Text → Sql (Unit {0})
mark_node id [] = pure tt
mark_node id (c ∷ node) =
    with_now λ now. exec (update_vm id (λ v. record v { node = c ∷ node; updated_at = now }))

-- `markDeletePending`
unfoldable pub mark_delete_pending : ℕ → (ℕ → Object) → Sql (Unit {0})
mark_delete_pending id real = with_now λ now. exec (
    update_vm id (λ v. record v {
      real_status = some (real now);
      sync_state = SyncState.deleting;
      sync_error = none;
      updated_at = now;
    }))

-- `markFailed`
unfoldable pub mark_failed : ℕ → Text → Sql (Unit {0})
mark_failed id message = with_now λ now. exec (
    update_vm id (λ v. record v {
      sync_state = SyncState.failed;
      sync_error = some message;
      updated_at = now;
    }))

-- `markDeleted`
unfoldable pub mark_deleted : ℕ → Sql (Unit {0})
mark_deleted id = with_now λ now. exec (
    update_vm id (λ v. record v {
      deleted_at = some now;
      real_status = some (
          ("intent", str (codes "absent"))
          ∷ ("power", str (codes "deleted"))
          ∷ ("last_synced_at", time now)
          ∷ []);
      sync_state = SyncState.synced;
      sync_error = none;
      updated_at = now;
    }))
