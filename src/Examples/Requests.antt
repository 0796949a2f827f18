-- ===== src/Examples/Requests.antt =====
-- The theorems on the requests at sample requests.
use mathlib.Core.List.{Memᴰ}
use pve_manage.Prelude.{◌≡◌, ◌⊎◌, refl, some, []}
use pve_manage.Text.{Text, codes, text_eq}
use pve_manage.Sql.{exec, query, in_tx, with_now, on_error, ◌>>=◌, ◌>>◌, ok}
use pve_manage.Tasks.{queue_vm_task_tx, cancel_vm_tasks_tx}
use pve_manage.Api.{
  Request, reply, message, execute_after, require, parsed, found, logged_in, load_vm_row,
  request_vm, is_owner_or_admin,
}
use pve_manage.Api.Vms.{handle_delete_vm, handle_restore_vm}
use pve_manage.Api.Access.{delete, handle, handle_error_unchanged}
use pve_manage.Api.Authority.{IsAuthorized, handle_unauthorized_unchanged}
use pve_manage.Api.Deletion.{HasOneDeletion, handle_delete_vm-HasOneDeletion}
use pve_manage.Api.Restoration.{HasTask, handle_restore_vm-keeps_failed}
use pve_manage.Examples.{person, alice, doomed, failed_delete, tables, tables_of, session_of}

abbrev pub by : Text → Request (Unit {0})
by name = record { user = ok (person name []); id = some 7; body = some tt }

abbrev bob : Text
bob = codes "bob"

handle_unauthorized_unchanged_example :
    ((handle (delete (by bob)) (session_of tables)).1.db ≡ tables)
    ⊎ IsAuthorized (delete (by bob)) tables
handle_unauthorized_unchanged_example =
    handle_unauthorized_unchanged (delete (by bob)) (session_of tables)

-- Bob may not delete alice's VM.
handle_error_unchanged_example : (handle (delete (by bob)) (session_of tables)).1.db ≡ tables
unfolding handle handle_delete_vm request_vm load_vm_row logged_in parsed found require query
    on_error is_owner_or_admin text_eq ◌>>=◌ ◌>>◌
handle_error_unchanged_example =
    handle_error_unchanged (delete (by bob)) (session_of tables)
      (reply 403 (message "permission denied")) refl

handle_delete_vm-HasOneDeletion_example :
    HasOneDeletion 7 (handle_delete_vm (by alice) (session_of tables)).1.db
unfolding handle_delete_vm request_vm load_vm_row logged_in parsed found require query on_error
    is_owner_or_admin text_eq ◌>>=◌ ◌>>◌ in_tx exec with_now queue_vm_task_tx cancel_vm_tasks_tx
handle_delete_vm-HasOneDeletion_example =
    handle_delete_vm-HasOneDeletion (by alice) 7 refl (session_of tables)
      (reply 202 (execute_after 86400000000100)) refl

handle_restore_vm-keeps_failed_example :
    HasTask failed_delete
      (handle_restore_vm (by alice) (session_of (tables_of doomed failed_delete))).1.db
handle_restore_vm-keeps_failed_example =
    handle_restore_vm-keeps_failed (by alice) (session_of (tables_of doomed failed_delete))
      failed_delete refl (Memᴰ.tail (Memᴰ.head refl))
