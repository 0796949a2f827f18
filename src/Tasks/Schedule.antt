-- ===== src/Tasks/Schedule.antt =====
-- Which tasks the worker runs next: `pendingTasks`, `vmTaskReady`, `vmTaskRetryDelay` and
-- `ensureExpiredDeleteTasks` of internal/worker/worker.go.
use pve_manage.Prelude.{
  ℕ, zero, suc, ◌+◌, ◌*◌, ◌-◌, ◌^◌, Bool, true, false, not, ◌&&◌, ◌||◌, Option, none, some, List,
  [], ◌∷◌, leb, ltb, ◌==◌, if◌then◌else◌, any, find?, filter,
}
use pve_manage.Prelude.Int.{pos}
use pve_manage.Json.{Value, num}
use pve_manage.Sql.{query, with_now, ◌>>=◌, ◌>>◌, pure}
use pve_manage.Tables.{
  Db, Vm, Task, Kind, is_null, is_pending, is_failed, is_over, is_delete, is_running,
}
use pve_manage.Tasks.{Sql, minute, queue_vm_task}

abbrev pub max_vm_task_auto_retries : ℕ
max_vm_task_auto_retries = 5

abbrev pub max_pending_vm_tasks : ℕ
max_pending_vm_tasks = 20

-- `none` stands for the result `0, false`.
unfoldable pub vm_task_retry_delay : ℕ → Option ℕ
vm_task_retry_delay attempt_count =
    if ltb attempt_count 1 || ltb max_vm_task_auto_retries attempt_count
    then none
    else some (minute * 2 ^ (attempt_count - 1))

abbrev pub ready_after : Task → ℕ → Option ℕ → Bool
ready_after t now none = false
ready_after t now (some delay) = not (ltb now (t.updated_at + delay))

unfoldable pub vm_task_ready : Task → ℕ → Bool
vm_task_ready t now =
    if is_pending t.status then true else ready_after t now (vm_task_retry_delay t.attempt_count)

-- A row of the query's result: a task with its VM.
abbrev pub Row : Type 0
Row = Task × Vm

-- `NOT EXISTS (SELECT 1 FROM vm_tasks prev …)`
unfoldable pub earlier_unfinished : List Task → Task → Bool
earlier_unfinished tasks t =
    any (λ prev. prev.vm_id == t.vm_id && ltb prev.seq t.seq && not (is_over prev.status)) tasks

-- The `WHERE` clause of the query.
unfoldable pub eligible : List Task → Task → Vm → Bool
unfolding earlier_unfinished
eligible tasks t v =
    is_null v.deleted_at
    && v.managed
    && not v.task_queue_paused
    && (is_pending t.status
        || (is_failed t.status
            && leb 1 t.attempt_count
            && leb t.attempt_count max_vm_task_auto_retries))
    && not (earlier_unfinished tasks t)

abbrev pub row_of : List Task → Task → Option Vm → List Row → List Row
row_of tasks t none rows = rows
row_of tasks t (some v) rows = if eligible tasks t v then (t, v) ∷ rows else rows

-- `FROM vm_tasks vt JOIN vms v ON v.id = vt.vm_id WHERE …`, over all tasks `tasks`.
unfoldable pub joined_rows : List Vm → List Task → List Task → List Row
joined_rows vms tasks [] = []
joined_rows vms tasks (t ∷ ts) =
    row_of tasks t (find? (λ v. v.id == t.vm_id) vms) (joined_rows vms tasks ts)

-- `ORDER BY vt.vm_id, vt.seq, vt.id`
abbrev pub row_before : Row → Row → Bool
row_before (t, v) (u, w) =
    ltb t.vm_id u.vm_id
    || (t.vm_id == u.vm_id && (ltb t.seq u.seq || (t.seq == u.seq && leb t.id u.id)))

unfoldable pub insert_row : Row → List Row → List Row
insert_row r [] = r ∷ []
insert_row r (q ∷ rows) = if row_before r q then r ∷ q ∷ rows else q ∷ insert_row r rows

unfoldable pub sort_rows : List Row → List Row
sort_rows [] = []
sort_rows (r ∷ rows) = insert_row r (sort_rows rows)

-- The loop over the rows: what is not ready is passed over, and the loop ends at the limit.
-- `room` is the number of items that still fit.
unfoldable pub take_ready : ℕ → ℕ → List Row → List Row
take_ready now zero rows = []
take_ready now (suc room) [] = []
take_ready now (suc room) ((t, v) ∷ rows) =
    let kept = (t, v) ∷ take_ready now room rows in
    let passed = take_ready now (suc room) rows in if vm_task_ready t now then kept else passed

unfoldable pub select_tasks : ℕ → Db → List Row
select_tasks now db =
    take_ready now max_pending_vm_tasks (sort_rows (joined_rows db.vms db.vm_tasks db.vm_tasks))

unfoldable pub pending_tasks : Sql (List Row)
pending_tasks = with_now λ now. query (select_tasks now)

-- `status IN ('pending', 'running', 'failed')`
abbrev pub is_live : Task → Bool
is_live t = is_pending t.status || is_running t.status || is_failed t.status

-- `column IS NOT NULL AND column <= now`
abbrev pub is_due : ℕ → Option ℕ → Bool
is_due now none = false
is_due now (some t) = leb t now

unfoldable pub needs_delete_task : ℕ → List Task → Vm → Bool
needs_delete_task now tasks v =
    is_null v.deleted_at
    && v.managed
    && not v.task_queue_paused
    && not (is_null v.delete_requested_at)
    && is_due now v.delete_execute_after
    && not (any (λ t. t.vm_id == v.id && is_delete t.kind && is_live t) tasks)

-- The loop that queues a task for each VM; the first failure ends it.
unfoldable pub queue_expired : List Vm → Sql (Unit {0})
queue_expired [] = pure tt
queue_expired (v ∷ vms) = do
  queue_vm_task v.id Kind.delete (("vm_id", num (pos v.id)) ∷ ("expired", Value.bool true) ∷ [])
  queue_expired vms

unfoldable pub ensure_expired_delete_tasks : Sql (Unit {0})
ensure_expired_delete_tasks = with_now λ now. do
  expired ← query (λ db. filter (needs_delete_task now db.vm_tasks) db.vms)
  queue_expired expired
