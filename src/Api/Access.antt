-- ===== src/Api/Access.antt =====
-- The requests on one VM together: the handlers of internal/api/vm_handlers.go, and how their parts
-- read and write the tables.
use pve_manage.Prelude.{ℕ, ◌≡◌, Bool, true, false, Option, none, some, String}
use pve_manage.Text.{Text}
use pve_manage.Sql.{Session, Except, ok, err, ◌>>◌}
use pve_manage.Sql.Atomic.{
  ReadOnly, Atomic, ReadOnly-pure, ReadOnly-fail, Atomic-in_tx, Atomic-with_now, ReadOnly-query,
  Atomic-exec, ReadOnly-on_error, Atomic-on_error, ReadOnly-bind, Atomic-bind, Atomic-skip,
  Atomic-then,
}
use pve_manage.Tables.{Db}
use pve_manage.Api.{
  User, Reply, Request, Api, require, parsed, found, logged_in, load_vm_row, request_vm,
}
use pve_manage.Api.Vms.{
  handle_power_vm, handle_delete_vm, handle_restore_vm, handle_delete_now_vm, handle_pause_vm_tasks,
  handle_resume_vm_tasks, handle_retry_vm_task,
}

-- The requests that act on one VM.
pub data VmRequest : Type 0 where
  power : Request Text → VmRequest
  delete restore delete_now pause resume : Request (Unit {0}) → VmRequest
  retry : Request ℕ → VmRequest

unfoldable pub handle : VmRequest → Api Reply
handle (power r) = handle_power_vm r
handle (delete r) = handle_delete_vm r
handle (restore r) = handle_restore_vm r
handle (delete_now r) = handle_delete_now_vm r
handle (pause r) = handle_pause_vm_tasks r
handle (resume r) = handle_resume_vm_tasks r
handle (retry r) = handle_retry_vm_task r

pub ReadOnly-require : (c : Bool) (code : ℕ) (text : String) → ReadOnly (require c code text)
unfolding require
ReadOnly-require true code text = ReadOnly-pure tt
ReadOnly-require false code text = ReadOnly-fail _

pub ReadOnly-parsed : {A : Type 0} (o : Option A) (text : String) → ReadOnly (parsed o text)
unfolding parsed
ReadOnly-parsed none text = ReadOnly-fail _
ReadOnly-parsed (some a) text = ReadOnly-pure a

pub ReadOnly-found : {A : Type 0} (o : Option A) (text : String) → ReadOnly (found o text)
unfolding found
ReadOnly-found none text = ReadOnly-fail _
ReadOnly-found (some a) text = ReadOnly-pure a

pub ReadOnly-logged_in : (u : Except Text User) → ReadOnly (logged_in u)
unfolding logged_in
ReadOnly-logged_in (ok u) = ReadOnly-pure u
ReadOnly-logged_in (err e) = ReadOnly-fail _

pub ReadOnly-request_vm : {B : Type 0} (r : Request B) → ReadOnly (request_vm r)
unfolding request_vm load_vm_row
ReadOnly-request_vm r = ReadOnly-bind _ _ (ReadOnly-logged_in r.user) λ user.
    ReadOnly-bind _ _ (ReadOnly-parsed r.id _) λ id.
      ReadOnly-bind _ _ (ReadOnly-on_error _ _ (ReadOnly-query _))
        λ row. ReadOnly-bind _ _ (ReadOnly-found row _) λ vm. ReadOnly-pure (user, vm)

Atomic-require :
    {A : Type 0} (c : Bool) (code : ℕ) (text : String) (m : Api A)
    → Atomic m
    → Atomic (require c code text >> m)
Atomic-require c code text m h = Atomic-skip _ m (ReadOnly-require c code text) h

handle-Atomic : (q : VmRequest) → Atomic (handle q)
unfolding handle handle_power_vm handle_delete_vm handle_restore_vm handle_delete_now_vm
    handle_pause_vm_tasks handle_resume_vm_tasks handle_retry_vm_task
handle-Atomic (power r) = Atomic-bind _ _ (ReadOnly-request_vm r) λ a. Atomic-require _ _ _ _ (
    Atomic-require _ _ _ _ (
      Atomic-require _ _ _ _ (
        Atomic-bind _ _ (ReadOnly-parsed r.body _)
          λ power. Atomic-require _ _ _ _ (Atomic-then _ _ (Atomic-in_tx _ _)))))
handle-Atomic (delete r) = Atomic-bind _ _ (ReadOnly-request_vm r) λ a. Atomic-require _ _ _ _ (
    Atomic-require _ _ _ _
      (Atomic-require _ _ _ _ (Atomic-with_now _ λ now. Atomic-then _ _ (Atomic-in_tx _ _))))
handle-Atomic (restore r) = Atomic-bind _ _ (ReadOnly-request_vm r) λ a. Atomic-require _ _ _ _ (
    Atomic-require _ _ _ _
      (Atomic-require _ _ _ _ (Atomic-with_now _ λ now. Atomic-then _ _ (Atomic-in_tx _ _))))
handle-Atomic (delete_now r) = Atomic-bind _ _ (ReadOnly-request_vm r) λ a. Atomic-require _ _ _ _ (
    Atomic-require _ _ _ _
      (Atomic-require _ _ _ _ (Atomic-with_now _ λ now. Atomic-then _ _ (Atomic-in_tx _ _))))
handle-Atomic (pause r) = Atomic-bind _ _ (ReadOnly-request_vm r) λ a. Atomic-require _ _ _ _ (
    Atomic-require _ _ _ _
      (Atomic-with_now _ λ now. Atomic-then _ _ (Atomic-on_error _ _ (Atomic-exec _))))
handle-Atomic (resume r) = Atomic-bind _ _ (ReadOnly-request_vm r) λ a. Atomic-require _ _ _ _ (
    Atomic-require _ _ _ _
      (Atomic-with_now _ λ now. Atomic-then _ _ (Atomic-on_error _ _ (Atomic-exec _))))
handle-Atomic (retry r) = Atomic-skip _ _ (ReadOnly-logged_in r.user) (
    Atomic-skip _ _ (ReadOnly-parsed r.id _) (
      Atomic-bind _ _ (ReadOnly-parsed r.body _) λ task_id.
        Atomic-bind _ _ (ReadOnly-request_vm r) λ a. Atomic-require _ _ _ _ (
          Atomic-require _ _ _ _ (
            Atomic-bind _ _ (ReadOnly-on_error _ _ (ReadOnly-query _)) λ row.
              Atomic-bind _ _ (ReadOnly-found row _) λ task.
                Atomic-require _ _ _ _
                  (Atomic-with_now _ λ now. Atomic-then _ _ (Atomic-in_tx _ _))))))

-- A request on a VM that ends with an error, whichever guard refused it or statement failed, has
-- changed no table.
pub handle_error_unchanged :
    (q : VmRequest) (s : Session Db) (e : Reply) → (handle q s).0 ≡ err e → (handle q s).1.db ≡ s.db
handle_error_unchanged q s e h = (handle-Atomic q).at s e h
