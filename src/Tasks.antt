-- ===== src/Tasks.antt =====
-- The task queue of a VM: `queueVMTaskTx`, `queueVMTaskConn` and `cancelVMTasksTx` of
-- internal/api/common.go, and the queue statements of internal/worker/worker.go.
pub mod Schedule
pub mod Maintenance
pub mod Sequence
pub mod Steps
pub mod Rows
pub mod Join
pub mod Serial
pub mod Recovery
use pve_manage.Prelude.{
  ℕ, zero, suc, ◌+◌, ◌*◌, ◌-◌, ◌^◌, String, Bool, true, false, not, ◌&&◌, ◌||◌, Option, none, some,
  List, [], ◌∷◌, ◌++◌, leb, ltb, ◌==◌, if◌then◌else◌, any,
}
use pve_manage.Text.{Text}
use pve_manage.Json.{Column, Object, Value, num, bool}
use pve_manage.Prelude.Int.{pos}
use pve_manage.Sql.{Session, Exec, exec, query, in_tx, with_now, ◌>>=◌, ◌>>◌, pure}
use pve_manage.Tables.{
  Db, Vm, Task, Status, Kind, delete, is_null, coalesce, update_where, delete_where, is_pending,
  is_running, is_failed, is_over, is_final, is_delete, Status.pending, Status.running, Status.done,
  Status.failed, Status.canceled,
}

abbrev pub Sql : Type 0 → Type 0
Sql A = Exec Text (Session Db) A

-- `COALESCE(MAX(seq), 0)` over the tasks of a VM.
unfoldable pub max_seq : ℕ → List Task → ℕ
max_seq vm_id [] = 0
max_seq vm_id (t ∷ ts) =
    let rest = max_seq vm_id ts in
    if t.vm_id == vm_id then (if ltb rest t.seq then t.seq else rest) else rest

abbrev pub new_task : ℕ → ℕ → ℕ → Kind → Object → ℕ → Task
new_task id vm_id seq kind payload now = record {
  id = id;
  vm_id = vm_id;
  seq = seq;
  kind = kind;
  payload = some payload;
  status = Status.pending;
  error = none;
  attempt_count = 0;
  created_at = now;
  updated_at = now;
  started_at = none;
  finished_at = none;
}

abbrev pub insert_task : ℕ → ℕ → Kind → Object → ℕ → Db → Db
insert_task vm_id seq kind payload now db = record db {
  vm_tasks = db.vm_tasks ++ new_task db.next_task_id vm_id seq kind payload now ∷ [];
  next_task_id = suc db.next_task_id;
}

-- `queueVMTaskTx` and `queueVMTaskConn`: the caller has opened the transaction.
unfoldable pub queue_vm_task_tx : ℕ → Kind → Object → Sql (Unit {0})
queue_vm_task_tx vm_id kind payload = do
  last ← query (λ db. max_seq vm_id db.vm_tasks)
  with_now (λ now. exec (insert_task vm_id (suc last) kind payload now))

-- `queueVMTask` of the worker: the same in a transaction of its own.
unfoldable pub queue_vm_task : ℕ → Kind → Object → Sql (Unit {0})
unfolding queue_vm_task_tx
queue_vm_task vm_id kind payload = in_tx (λ e. e) (queue_vm_task_tx vm_id kind payload)

abbrev pub update_tasks : (Task → Bool) → (Task → Task) → Db → Db
update_tasks p f db = record db { vm_tasks = update_where p f db.vm_tasks }

abbrev pub cancel_at : ℕ → Task → Task
cancel_at now t = record t {
  status = Status.canceled;
  updated_at = now;
  finished_at = coalesce t.finished_at now;
}

-- `cancelVMTasksTx`
unfoldable pub cancel_vm_tasks_tx : ℕ → Sql (Unit {0})
cancel_vm_tasks_tx vm_id =
    with_now
      λ now. exec (update_tasks (λ t. t.vm_id == vm_id && not (is_over t.status)) (cancel_at now))

-- `cancelOutstandingVMTasks`
unfoldable pub cancel_outstanding_vm_tasks : ℕ → Sql (Unit {0})
cancel_outstanding_vm_tasks vm_id = with_now λ now. exec (
    update_tasks (λ t. t.vm_id == vm_id && not (is_over t.status))
      (λ t. record t { status = Status.canceled; updated_at = now }))

-- The VMs whose deletion is requested and not finished.
abbrev pub is_being_deleted : Vm → Bool
is_being_deleted v = is_null v.deleted_at && not (is_null v.delete_requested_at)

-- `cancelSupersededTasksForDeletingVMs`
unfoldable pub cancel_superseded_tasks : Sql (Unit {0})
cancel_superseded_tasks = with_now λ now. exec λ db.
    update_tasks
      (λ t.
        not (is_delete t.kind)
        && not (is_over t.status)
        && any (λ v. v.id == t.vm_id && is_being_deleted v) db.vms)
      (cancel_at now) db

unfoldable pub mark_task_running : ℕ → Sql (Unit {0})
mark_task_running task_id = with_now λ now. exec (
    update_tasks (λ t. t.id == task_id)
      (λ t. record t {
        status = Status.running;
        error = none;
        attempt_count = suc t.attempt_count;
        started_at = coalesce t.started_at now;
        finished_at = none;
        updated_at = now;
      }))

unfoldable pub mark_task_done : ℕ → Sql (Unit {0})
mark_task_done task_id = with_now λ now. exec (
    update_tasks (λ t. t.id == task_id)
      (λ t. record t {
        status = Status.done;
        error = none;
        finished_at = coalesce t.finished_at now;
        updated_at = now;
      }))

unfoldable pub mark_task_failed : ℕ → Text → Sql (Unit {0})
mark_task_failed task_id message = with_now λ now. exec (
    update_tasks (λ t. t.id == task_id)
      (λ t. record t {
        status = Status.failed;
        error = some message;
        updated_at = now;
        finished_at = coalesce t.finished_at now;
      }))

-- Durations in nanoseconds.
abbrev pub second : ℕ
second = 1_000_000_000

abbrev pub minute : ℕ
minute = 60 * second

abbrev pub hour : ℕ
hour = 60 * minute

-- A subtraction from the clock; the clock never stands before 1970.
abbrev pub ago : ℕ → ℕ → ℕ
ago now duration = now - duration

-- `column IS NOT NULL AND column < cutoff`
abbrev pub finished_before : ℕ → Option ℕ → Bool
finished_before cutoff none = false
finished_before cutoff (some t) = ltb t cutoff

-- `purgeOldTasks`: two statements, the second only after the first.
unfoldable pub purge_old_tasks : Sql (Unit {0})
purge_old_tasks = with_now λ now. do
  exec λ db. record db {
    vm_tasks =
        delete_where (λ t. is_final t.status && finished_before (ago now (24 * hour)) t.finished_at)
          db.vm_tasks;
  }
  exec λ db. record db {
    vm_tasks =
        delete_where
          (λ t.
            any (λ v. v.id == t.vm_id && finished_before (ago now (24 * hour)) v.deleted_at) db.vms)
          db.vm_tasks;
  }
