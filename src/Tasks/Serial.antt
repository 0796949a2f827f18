-- ===== src/Tasks/Serial.antt =====
-- The tasks that a round takes: `pendingTasks` of internal/worker/worker.go.
use pve_manage.Tasks.Join.{
  vm_of, Selected, All-joined_rows, All-Blocks, OneEach-joined_rows, mem-joined_rows,
}
use mathlib.Core.List.{Memᴰ}
use pve_manage.Prelude.{
  ℕ, ◌+◌, ◌*◌, ◌-◌, ◌^◌, ◌≤◌, ◌<◌, ◌≡◌, refl, true, false, Option, none, some, List, [], ◌∷◌, arith,
  All, All-weaken, length, ◌⊎◌,
}
use pve_manage.Tables.{Db, Vm, Task, is_over, is_null, Status.pending, Status.failed}
use pve_manage.Tasks.{minute}
use pve_manage.Tasks.Schedule.{
  earlier_unfinished, eligible, joined_rows, sort_rows, take_ready, select_tasks, vm_task_ready,
  vm_task_retry_delay, max_pending_vm_tasks,
}
use pve_manage.Tasks.Rows.{
  OneEach, OneEach-sort_rows, OneEach-take_ready, All-sort_rows, All-take_ready, mem-sort_rows,
  mem-take_ready,
}
use pve_manage.Tasks.Sequence.{IsOrdered}

-- A task that waits for its first run, or for a retry whose delay has passed: 1, 2, 4, 8 and 16
-- minutes after the first to the fifth failure.
abbrev pub IsWaiting : ℕ → Task → Type 0
IsWaiting now t =
    (t.status ≡ pending)
    ⊎ ((t.status ≡ failed)
        × (1 ≤ t.attempt_count)
        × (t.attempt_count ≤ 5)
        × (t.updated_at + minute * 2 ^ (t.attempt_count - 1) ≤ now))

-- A task that may run: its VM is managed, not deleted and not paused, and all earlier tasks of the
-- VM are done or canceled.
pub record IsRunnable (now : ℕ) (db : Db) (t : Task) (v : Vm) : Type 0 where
  pub its_vm : vm_of db t ≡ some v
  pub alive : v.deleted_at ≡ none
  pub managed : v.managed ≡ true
  pub not_paused : v.task_queue_paused ≡ false
  pub waiting : IsWaiting now t
  pub first : All (λ u. u.vm_id ≡ t.vm_id → u.seq < t.seq → is_over u.status ≡ true) db.vm_tasks

none_earlier :
    (ts : List Task) (t : Task)
    → earlier_unfinished ts t ≡ false
    → All (λ u. u.vm_id ≡ t.vm_id → u.seq < t.seq → is_over u.status ≡ true) ts
unfolding earlier_unfinished
none_earlier [] t h = tt
none_earlier (u ∷ ts) t h = (λ same lt. ground arith, none_earlier ts t (ground arith))

earlier_none :
    (ts : List Task) (t : Task)
    → All (λ u. u.vm_id ≡ t.vm_id → u.seq < t.seq → is_over u.status ≡ true) ts
    → earlier_unfinished ts t ≡ false
unfolding earlier_unfinished
earlier_none [] t h = refl
earlier_none (u ∷ ts) t (h, hs) = ground (arith, earlier_none ts t hs)

is_null-none : {A : Type 0} (o : Option A) → is_null o ≡ true → o ≡ none
is_null-none none h = refl
is_null-none (some a) h = cc

-- What the query and the loop test of a row, as the predicate says it.
row-IsRunnable :
    (now : ℕ) (db : Db) (t : Task) (v : Vm)
    → vm_of db t ≡ some v
    → eligible db.vm_tasks t v ≡ true
    → vm_task_ready t now ≡ true
    → IsRunnable now db t v
unfolding eligible vm_task_ready vm_task_retry_delay
row-IsRunnable now db t v e h r = record {
  its_vm = e;
  alive = is_null-none v.deleted_at (ground arith);
  managed = ground arith;
  not_paused = ground arith;
  waiting = ground arith;
  first = none_earlier db.vm_tasks t (ground arith);
}

IsRunnable-row :
    (now : ℕ) (db : Db) (t : Task) (v : Vm)
    → IsRunnable now db t v
    → (eligible db.vm_tasks t v ≡ true) × (vm_task_ready t now ≡ true)
unfolding eligible vm_task_ready vm_task_retry_delay
IsRunnable-row now db t v h = (ground (arith, earlier_none db.vm_tasks t h.first), ground arith)

All-trivial : (ts : List Task) → All (λ _. Unit {0}) ts
All-trivial [] = tt
All-trivial (t ∷ ts) = (tt, All-trivial ts)

-- Whatever a round takes may run: it waits for its first run or its retry delay has passed, its VM
-- is managed, neither deleted nor paused, and every earlier task of the VM is done or canceled.
pub select_tasks_sound :
    (now : ℕ) (db : Db) → All (λ r. IsRunnable now db r.0 r.1) (select_tasks now db)
unfolding select_tasks
select_tasks_sound now db =
    let rows = joined_rows db.vms db.vm_tasks db.vm_tasks in
    All-weaken (λ r. Selected db (λ _. Unit {0}) r × (vm_task_ready r.0 now ≡ true))
      (λ r. IsRunnable now db r.0 r.1) (take_ready now max_pending_vm_tasks (sort_rows rows))
      (λ r k. row-IsRunnable now db r.0 r.1 k.0.1 k.0.2 k.1)
      (All-take_ready (Selected db (λ _. Unit {0})) now max_pending_vm_tasks (sort_rows rows) (
        All-sort_rows (Selected db (λ _. Unit {0})) rows
          (All-joined_rows db (λ _. Unit {0}) db.vm_tasks (All-trivial db.vm_tasks))))

-- A round takes every task of the table that may run, unless it takes 20 tasks.
pub select_tasks_complete :
    (now : ℕ) (db : Db) (t : Task) (v : Vm)
    → Memᴰ t db.vm_tasks
    → IsRunnable now db t v
    → Memᴰ (t, v) (select_tasks now db) ⊎ (length (select_tasks now db) ≡ 20)
unfolding select_tasks
select_tasks_complete now db t v m h =
    let (e, r) = IsRunnable-row now db t v h in
    mem-take_ready now 20 (t, v) (sort_rows (joined_rows db.vms db.vm_tasks db.vm_tasks)) r
      (mem-sort_rows (t, v) (joined_rows db.vms db.vm_tasks db.vm_tasks)
        (mem-joined_rows db t v db.vm_tasks m h.its_vm e))

-- Where the sequence numbers of each VM are distinct, a round takes at most one task of each VM.
pub select_tasks-OneEach : (now : ℕ) (db : Db) → IsOrdered db → OneEach (select_tasks now db)
unfolding select_tasks
select_tasks-OneEach now db h =
    OneEach-take_ready now max_pending_vm_tasks
      (sort_rows (joined_rows db.vms db.vm_tasks db.vm_tasks))
      (OneEach-sort_rows (joined_rows db.vms db.vm_tasks db.vm_tasks)
        (OneEach-joined_rows db db.vm_tasks h.apart (All-Blocks db.vm_tasks)))
