-- ===== src/Api/Restoration.antt =====
-- The queue and the preferences of a VM after `handleRestoreVM` of internal/api/vm_handlers.go.
use mathlib.Core.List.{Memᴰ}
use mathlib.Core.Path.{subst}
use pve_manage.Prelude.{
  ℕ, ◌≡◌, refl, sym, ap, Bool, true, false, ◌&&◌, ◌||◌, some, String, [], ◌∷◌, arith, ◌==◌,
}
use pve_manage.Text.{Text, codes}
use pve_manage.Json.{Object, str, get, or_fallback, as_string}
use pve_manage.Json.Laws.{get-put, get-delete_key}
use pve_manage.Sql.{Session}
use pve_manage.Sql.Keeps.{
  Keeps, Keeps-pure, Keeps-fail, Keeps-exec, Keeps-query, Keeps-with_now, Keeps-bind, Keeps-then,
  Keeps-on_error, Keeps-in_tx,
}
use pve_manage.Sql.Atomic.{ReadOnly}
use pve_manage.Api.Access.{ReadOnly-request_vm}
use pve_manage.Tables.{Db, Task, Kind, is_delete, is_pending, is_running, is_failed}
use pve_manage.Tables.Laws.{mem-update_where, mem-append_left}
use pve_manage.Tasks.{queue_vm_task_tx}
use pve_manage.Api.{Request, Api, require}
use pve_manage.Api.Vms.{handle_restore_vm, prefer_deleted, prefer_restored}

Keeps-require :
    (P : Db → Type 0) (c : Bool) (code : ℕ) (text : String) → Keeps P (require c code text)
unfolding require
Keeps-require P true code text = Keeps-pure P tt
Keeps-require P false code text = Keeps-fail P _

reads-Keeps : {A : Type 0} (P : Db → Type 0) (m : Api A) → ReadOnly m → Keeps P m
reads-Keeps P m h = record { at = λ s p. subst P (sym (h.at s)) p }

module _ (t : Task) where
  abbrev pub HasTask : Db → Type 0
  HasTask db = Memᴰ t db.vm_tasks

  queue-HasTask :
      (vm_id : ℕ) (kind : Kind) (payload : Object)
      → Keeps HasTask (queue_vm_task_tx vm_id kind payload)
  unfolding queue_vm_task_tx
  queue-HasTask vm_id kind payload = Keeps-bind HasTask _ _ (Keeps-query HasTask _) λ last.
      Keeps-with_now HasTask _ λ now. Keeps-exec HasTask _ λ db m. mem-append_left t db.vm_tasks _ m

  Keeps-handle_restore :
      (r : Request (Unit {0})) → is_failed t.status ≡ true → Keeps HasTask (handle_restore_vm r)
  unfolding handle_restore_vm
  Keeps-handle_restore r e =
      Keeps-bind HasTask _ _ (reads-Keeps HasTask _ (ReadOnly-request_vm r)) λ a.
        Keeps-then HasTask _ _ (Keeps-require HasTask _ _ _) (
          Keeps-then HasTask _ _ (Keeps-require HasTask _ _ _) (
            Keeps-then HasTask _ _ (Keeps-require HasTask _ _ _) (
              Keeps-with_now HasTask _ λ now.
                Keeps-then HasTask _ _
                  (Keeps-in_tx HasTask _ _ (
                    Keeps-then HasTask _ _
                      (Keeps-on_error HasTask _ _ (Keeps-exec HasTask _ (λ db m. m)))
                      (Keeps-then HasTask _ _
                        (Keeps-on_error HasTask _ _ (
                          Keeps-exec HasTask _
                            λ db m. mem-update_where _ _ t db.vm_tasks (spared a.1.id e) m))
                        (Keeps-on_error HasTask _ _ (queue-HasTask _ _ _)))))
                  (Keeps-pure HasTask _))))
    where
      spared :
          (id : ℕ)
          → is_failed t.status ≡ true
          → (t.vm_id == id && is_delete t.kind && (is_pending t.status || is_running t.status))
            ≡ false
      spared id k = ground arith

-- A restoration, successful or not, leaves a failed task in the queue as it is, also a failed
-- deletion of the VM that is restored.
pub handle_restore_vm-keeps_failed :
    (r : Request (Unit {0})) (s : Session Db) (t : Task)
    → is_failed t.status ≡ true
    → HasTask t s.db
    → HasTask t (handle_restore_vm r s).1.db
handle_restore_vm-keeps_failed r s t e m = (Keeps-handle_restore t r e).at s m

fallback_twice :
    (s fallback : Text) → or_fallback (or_fallback s fallback) fallback ≡ or_fallback s fallback
fallback_twice [] [] = refl
fallback_twice [] (c ∷ f) = refl
fallback_twice (c ∷ s) f = refl

-- Deleting a VM and restoring it gives back the power state that was preferred, or `running` where
-- none was.
pub power-restore-delete :
    (prefer : Object) (exec_at : ℕ)
    → get "power" (
        prefer_restored (
          prefer_deleted
            (or_fallback (as_string (get "power" prefer)) (codes "running"))
            exec_at
            prefer))
      ≡ some (str (or_fallback (as_string (get "power" prefer)) (codes "running")))
power-restore-delete prefer exec_at =
    simp (get-put, get-delete_key)
      (ap (λ s. some (str s)) (fallback_twice (as_string (get "power" prefer)) (codes "running")))
