-- ===== src/Api/Deletion.antt =====
-- The queue of a VM after `handleDeleteVM` and `handleDeleteNowVM` of internal/api/vm_handlers.go.
use mathlib.Core.Path.{subst}
use pve_manage.Prelude.{
  ℕ, suc, ◌≡◌, refl, sym, ◌∙◌, ap, Bool, true, false, not, ◌&&◌, Option, none, some, String, List,
  [], ◌∷◌, ◌++◌, arith, find?, filter, ◌==◌, if◌then◌else◌, Bool-cases, inl, inr,
}
use pve_manage.Json.{Object}
use pve_manage.Sql.{Session, ok, exec, on_error, ◌>>◌, in_tx}
use pve_manage.Sql.Ensures.{
  Ensures, Ensures-exec, Ensures-query, Ensures-with_now, Ensures-bind, Ensures-then, Ensures-pure,
  Ensures-on_error, Ensures-in_tx, Ensures-const,
}
use pve_manage.Tables.{Db, Vm, Task, Kind, Status, is_over}
use pve_manage.Tables.Laws.{filter-update_where, filter-append}
use pve_manage.Tasks.{new_task, insert_task, queue_vm_task_tx, cancel_vm_tasks_tx, cancel_at}
use pve_manage.Api.{
  Reply, Request, Api, require, parsed, found, server_error, request_vm, load_vm_row,
}
use pve_manage.Api.Vms.{update_vm, handle_delete_vm, handle_delete_now_vm}

-- The tasks of a VM that are not over: pending, running or failed.
abbrev pub unfinished : ℕ → Db → List Task
unfinished vm_id db = filter (λ t. t.vm_id == vm_id && not (is_over t.status)) db.vm_tasks

-- The VM's queue holds one task, a deletion still to run.
pub record HasOneDeletion (vm_id : ℕ) (db : Db) : Type 0 where
  task : Task
  only : unfinished vm_id db ≡ task ∷ []
  deletes : task.kind ≡ Kind.delete
  waits : task.status ≡ Status.pending

abbrev IsEmptied : ℕ → Db → Type 0
IsEmptied vm_id db = unfinished vm_id db ≡ []

canceled_is_over :
    (vm_id now : ℕ) (t : Task)
    → (t.vm_id == vm_id && not (is_over t.status)) ≡ true
    → (t.vm_id == vm_id && not (is_over (cancel_at now t).status)) ≡ false
canceled_is_over vm_id now t h = ground arith

Ensures-cancel :
    {P : Db → Type 0} (vm_id : ℕ) → Ensures P (cancel_vm_tasks_tx vm_id) (λ _. IsEmptied vm_id)
unfolding cancel_vm_tasks_tx
Ensures-cancel vm_id = Ensures-with_now _ λ now. Ensures-exec _ λ db h.
    filter-update_where (λ t. t.vm_id == vm_id && not (is_over t.status)) (cancel_at now)
      db.vm_tasks (canceled_is_over vm_id now)

own : (n : ℕ) (xs : List Task) → (if n == n && true then xs else []) ≡ xs
own n xs = ground arith

insert-HasOneDeletion :
    (vm_id seq now : ℕ) (payload : Object) (db : Db)
    → IsEmptied vm_id db
    → HasOneDeletion vm_id (insert_task vm_id seq Kind.delete payload now db)
insert-HasOneDeletion vm_id seq now payload db h =
    let task = new_task db.next_task_id vm_id seq Kind.delete payload now in
    record {
      task = task;
      only =
          filter-append (λ t. t.vm_id == vm_id && not (is_over t.status)) db.vm_tasks (task ∷ [])
          ∙ ap (λ xs. xs ++ filter (λ t. t.vm_id == vm_id && not (is_over t.status)) (task ∷ [])) h
          ∙ own vm_id (task ∷ []);
      deletes = refl;
      waits = refl;
    }

Ensures-queue_delete :
    (vm_id : ℕ) (payload : Object)
    → Ensures
        (IsEmptied vm_id)
        (queue_vm_task_tx vm_id Kind.delete payload)
        (λ _. HasOneDeletion vm_id)
unfolding queue_vm_task_tx
Ensures-queue_delete vm_id payload = Ensures-bind _ _ (Ensures-query _ λ db h. h) λ last.
    Ensures-with_now _
      λ now. Ensures-exec _ λ db h. insert-HasOneDeletion vm_id (suc last) now payload db h

pub Ensures-require :
    (P : Db → Type 0) (c : Bool) (code : ℕ) (text : String)
    → Ensures P (require c code text) (λ _. P)
unfolding require
Ensures-require P true code text = Ensures-pure _ (λ d h. h)
Ensures-require P false code text = record { at = λ s a h e. cc }

module _ {B : Type 0} (r : Request B) (id : ℕ) (has_id : r.id ≡ some id) where
  abbrev IsRowOf : Option Vm → Type 0
  IsRowOf none = Unit
  IsRowOf (some v) = v.id ≡ id

  row-IsRowOf : (vms : List Vm) → IsRowOf (find? (λ v. v.id == id) vms)
  row-IsRowOf [] = tt
  row-IsRowOf (w ∷ vms) = elim (Bool-cases (w.id == id)) [
    | inl e ↦ rw e (ground arith)
    | inr e ↦ rw e (row-IsRowOf vms)
  ]

  Ensures-parsed_id : Ensures (λ _. Unit {0}) (parsed r.id "invalid vm id") (λ i _. i ≡ id)
  unfolding parsed
  Ensures-parsed_id = rw has_id (Ensures-pure id (λ d h. refl))

  Ensures-found :
      (row : Option Vm) → Ensures (λ _. IsRowOf row) (found row "vm not found") (λ v _. v.id ≡ id)
  unfolding found
  Ensures-found none = record { at = λ s a h e. cc }
  Ensures-found (some v) = Ensures-pure v (λ d h. h)

  Ensures-request_vm : Ensures (λ _. Unit {0}) (request_vm r) (λ a _. a.1.id ≡ id)
  unfolding request_vm load_vm_row
  Ensures-request_vm = Ensures-bind {R = λ _ _. Unit {0}} _ _ (Ensures-const _ (λ _ _. tt)) λ user.
      Ensures-bind _ _ Ensures-parsed_id λ i.
        Ensures-bind {R = λ row _. IsRowOf row} _ _
          (Ensures-on_error _ _ (
            Ensures-query _ λ db e.
              subst (λ j. IsRowOf (find? (λ v. v.id == j) db.vms)) (sym e) (row-IsRowOf db.vms)))
          λ row. Ensures-bind _ _ (Ensures-found row) λ vm. Ensures-pure (user, vm) (λ d h. h)

module _ (r : Request (Unit {0})) (id : ℕ) (has_id : r.id ≡ some id) where
  given :
      {m : Api (Unit {0})} {C : Type 0} {Q : Unit {0} → Db → Type 0}
      → (C → Ensures (λ _. Unit {0}) m Q)
      → Ensures (λ _. C) m Q
  given h = record { at = λ s a e k. (h e).at s a tt k }

  -- The statements of both deletions: the row, the cancellation, the new task.
  leaves_deletion :
      (vm : Vm) (f : Vm → Vm) (payload : Object)
      → vm.id ≡ id
      → Ensures
          (λ _. Unit {0})
          (in_tx server_error (
            on_error server_error (exec (update_vm vm.id f))
            >> (on_error server_error (cancel_vm_tasks_tx vm.id)
                >> on_error server_error (queue_vm_task_tx vm.id Kind.delete payload))))
          (λ _. HasOneDeletion id)
  leaves_deletion vm f payload e = Ensures-in_tx _ _ (
      Ensures-then {R = λ _. Unit {0}} _ _ (Ensures-const _ (λ _ _. tt)) (
        Ensures-then _ _ (Ensures-on_error _ _ (Ensures-cancel vm.id)) (
          subst
            (λ i.
              Ensures (IsEmptied vm.id)
                (on_error server_error (queue_vm_task_tx vm.id Kind.delete payload))
                (λ _. HasOneDeletion i))
            e (Ensures-on_error _ _ (Ensures-queue_delete vm.id payload)))))

  Ensures-handle_delete : Ensures (λ _. Unit {0}) (handle_delete_vm r) (λ _. HasOneDeletion id)
  unfolding handle_delete_vm
  Ensures-handle_delete = Ensures-bind _ _ (Ensures-request_vm r id has_id) λ a.
      Ensures-then _ _ (Ensures-require _ _ _ _) (
        Ensures-then _ _ (Ensures-require _ _ _ _) (
          Ensures-then _ _ (Ensures-require _ _ _ _) (
            Ensures-with_now _ λ now.
              Ensures-then _ _ (given (leaves_deletion a.1 _ _)) (Ensures-pure _ (λ d h. h)))))

  Ensures-handle_delete_now :
      Ensures (λ _. Unit {0}) (handle_delete_now_vm r) (λ _. HasOneDeletion id)
  unfolding handle_delete_now_vm
  Ensures-handle_delete_now = Ensures-bind _ _ (Ensures-request_vm r id has_id) λ a.
      Ensures-then _ _ (Ensures-require _ _ _ _) (
        Ensures-then _ _ (Ensures-require _ _ _ _) (
          Ensures-then _ _ (Ensures-require _ _ _ _) (
            Ensures-with_now _ λ now.
              Ensures-then _ _ (given (leaves_deletion a.1 _ _)) (Ensures-pure _ (λ d h. h)))))

  -- An accepted request to delete a VM leaves one task of the VM that is not over: a deletion,
  -- pending. An earlier task, failed ones included, is done or canceled.
  pub handle_delete_vm-HasOneDeletion :
      (s : Session Db) (answer : Reply)
      → (handle_delete_vm r s).0 ≡ ok answer
      → HasOneDeletion id (handle_delete_vm r s).1.db
  handle_delete_vm-HasOneDeletion s answer h = Ensures-handle_delete.at s answer tt h

  -- An accepted request to delete a VM now leaves one task of the VM that is not over: a deletion,
  -- pending. It replaces the deletion that waits, or has failed.
  pub handle_delete_now_vm-HasOneDeletion :
      (s : Session Db) (answer : Reply)
      → (handle_delete_now_vm r s).0 ≡ ok answer
      → HasOneDeletion id (handle_delete_now_vm r s).1.db
  handle_delete_now_vm-HasOneDeletion s answer h = Ensures-handle_delete_now.at s answer tt h
