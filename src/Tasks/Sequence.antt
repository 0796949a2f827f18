-- ===== src/Tasks/Sequence.antt =====
-- The order of a VM's tasks: the ids and sequence numbers that `queueVMTask` and `queueVMTaskTx` give.
use pve_manage.Prelude.{
  ℕ, suc, ◌≤◌, ◌<◌, ◌≡◌, ◌≢◌, Bool, not, List, [], ◌∷◌, ◌++◌, arith, All, All-append, All-filter,
  All-weaken, All-zip, Option, none, some, filter, if◌then◌else◌, Bool-cases, inl, inr,
}
use pve_manage.Text.{Text}
use pve_manage.Json.{Object}
use pve_manage.Sql.{
  Session, exec, query, next_fault, later_faults, after, outcome, tick, continue, with_now, ◌>>=◌,
}
use pve_manage.Sql.Keeps.{Keeps, Keeps-in_tx}
use pve_manage.Tables.{Db, Task, Kind, update_where, delete_where}
use pve_manage.Tables.Laws.{All-update_where}
use pve_manage.Tasks.{max_seq, new_task, insert_task, queue_vm_task_tx, queue_vm_task, update_tasks}

-- Two rows of `vm_tasks` that may stand in one table: other ids, and no sequence number twice
-- for one VM.
abbrev pub Apart : Task → Task → Type 0
Apart t u = (t.id ≢ u.id) × (t.vm_id ≡ u.vm_id → t.seq ≢ u.seq)

abbrev pub AllApart : List Task → Type 0
AllApart [] = Unit
AllApart (t ∷ ts) = All (Apart t) ts × AllApart ts

pub record IsOrdered (db : Db) : Type 0 where
  pub apart : AllApart db.vm_tasks
  pub ids_below : All (λ t. t.id < db.next_task_id) db.vm_tasks

-- An assignment that leaves the three key columns.
pub record KeepsKeys (f : Task → Task) : Type 0 where
  pub id_kept : (t : Task) → (f t).id ≡ t.id
  pub vm_id_kept : (t : Task) → (f t).vm_id ≡ t.vm_id
  pub seq_kept : (t : Task) → (f t).seq ≡ t.seq

module _ (p : Task → Bool) (f : Task → Task) (keys : KeepsKeys f) where
  chosen : Bool → Task → Task
  chosen b t = if b then f t else t

  chosen-Apart : (b c : Bool) (t u : Task) → Apart t u → Apart (chosen b t) (chosen c u)
  unfolding chosen
  chosen-Apart b c t u h = ground (
    arith,
    keys.id_kept t,
    keys.id_kept u,
    keys.vm_id_kept t,
    keys.vm_id_kept u,
    keys.seq_kept t,
    keys.seq_kept u,
  )

  Apart-update_where :
      (b : Bool) (t : Task) (ts : List Task)
      → All (Apart t) ts
      → All (Apart (chosen b t)) (update_where p f ts)
  unfolding update_where chosen
  Apart-update_where b t [] h = tt
  Apart-update_where b t (u ∷ ts) (h, hs) =
      (chosen-Apart b (p u) t u h, Apart-update_where b t ts hs)

  AllApart-update_where : (ts : List Task) → AllApart ts → AllApart (update_where p f ts)
  unfolding update_where chosen
  AllApart-update_where [] h = tt
  AllApart-update_where (t ∷ ts) (h, hs) =
      (Apart-update_where (p t) t ts h, AllApart-update_where ts hs)

  pub update_tasks-IsOrdered : (db : Db) → IsOrdered db → IsOrdered (update_tasks p f db)
  update_tasks-IsOrdered db h = record {
    apart = AllApart-update_where db.vm_tasks h.apart;
    ids_below =
        All-update_where (λ t. t.id < db.next_task_id) p f db.vm_tasks
          (λ t _ k. omega (arith, keys.id_kept t)) h.ids_below;
  }

module _ (p : Task → Bool) where
  All-delete_where : (P : Task → Type 0) (ts : List Task) → All P ts → All P (delete_where p ts)
  unfolding delete_where
  All-delete_where P ts h = All-filter P (λ t. not (p t)) ts h

  AllApart-filter : (q : Task → Bool) (ts : List Task) → AllApart ts → AllApart (filter q ts)
  AllApart-filter q [] h = tt
  AllApart-filter q (t ∷ ts) (h, hs) = elim (Bool-cases (q t)) [
    | inl e ↦ rw e (All-filter (Apart t) q ts h, AllApart-filter q ts hs)
    | inr e ↦ rw e (AllApart-filter q ts hs)
  ]

  pub delete_where-IsOrdered :
      (db : Db) → IsOrdered db → IsOrdered (record db { vm_tasks = delete_where p db.vm_tasks })
  unfolding delete_where
  delete_where-IsOrdered db h = record {
    apart = AllApart-filter (λ t. not (p t)) db.vm_tasks h.apart;
    ids_below = All-filter (λ t. t.id < db.next_task_id) (λ t. not (p t)) db.vm_tasks h.ids_below;
  }

max_seq_head :
    (vm_id : ℕ) (t : Task) (ts : List Task) → t.vm_id ≡ vm_id → t.seq ≤ max_seq vm_id (t ∷ ts)
unfolding max_seq
max_seq_head vm_id t ts h = ground arith

max_seq_tail : (vm_id : ℕ) (t : Task) (ts : List Task) → max_seq vm_id ts ≤ max_seq vm_id (t ∷ ts)
unfolding max_seq
max_seq_tail vm_id t ts = ground arith

-- No task of the VM has a higher number.
pub seq-le-max_seq :
    (vm_id : ℕ) (ts : List Task) → All (λ t. t.vm_id ≡ vm_id → t.seq ≤ max_seq vm_id ts) ts
seq-le-max_seq vm_id [] = tt
seq-le-max_seq vm_id (t ∷ ts) = (
  max_seq_head vm_id t ts,
  All-weaken (λ u. u.vm_id ≡ vm_id → u.seq ≤ max_seq vm_id ts)
      (λ u. u.vm_id ≡ vm_id → u.seq ≤ max_seq vm_id (t ∷ ts)) ts
      (λ u h e. omega (arith, h e, max_seq_tail vm_id t ts)) (seq-le-max_seq vm_id ts),
)

AllApart-append :
    (ts : List Task) (n : Task) → AllApart ts → All (λ t. Apart t n) ts → AllApart (ts ++ n ∷ [])
AllApart-append [] n h k = (tt, tt)
AllApart-append (t ∷ ts) n (h, hs) (k, ks) =
    (All-append (Apart t) ts (n ∷ []) h (k, tt), AllApart-append ts n hs ks)

module _ (vm_id : ℕ) (kind : Kind) (payload : Object) where
  insert_task-IsOrdered :
      (now : ℕ) (db : Db)
      → IsOrdered db
      → IsOrdered (insert_task vm_id (suc (max_seq vm_id db.vm_tasks)) kind payload now db)
  insert_task-IsOrdered now db h =
      let n = new_task db.next_task_id vm_id (suc (max_seq vm_id db.vm_tasks)) kind payload now in
      record {
        apart = AllApart-append db.vm_tasks n h.apart (
            All-weaken
              (λ t.
                (t.id < db.next_task_id) × (t.vm_id ≡ vm_id → t.seq ≤ max_seq vm_id db.vm_tasks))
              (λ t. Apart t n) db.vm_tasks
              (λ t k. ((λ e. omega arith), (λ same e. omega (arith, k.1 same))))
              (All-zip (λ t. t.id < db.next_task_id)
                (λ t. t.vm_id ≡ vm_id → t.seq ≤ max_seq vm_id db.vm_tasks) db.vm_tasks h.ids_below
                (seq-le-max_seq vm_id db.vm_tasks)));
        ids_below =
            All-append (λ t. t.id < suc db.next_task_id) db.vm_tasks (n ∷ [])
              (All-weaken (λ t. t.id < db.next_task_id) (λ t. t.id < suc db.next_task_id)
                db.vm_tasks (λ t k. omega arith) h.ids_below)
              (omega arith, tt);
      }

  queue_vm_task_tx_at :
      (s : Session Db) → IsOrdered s.db → IsOrdered (queue_vm_task_tx vm_id kind payload s).1.db
  unfolding queue_vm_task_tx query exec with_now ◌>>=◌
  queue_vm_task_tx_at s h = asked (next_fault s.faults)
    where
      inserted :
          (o : Option Text)
          → IsOrdered (
              after o
                (insert_task vm_id (suc (max_seq vm_id s.db.vm_tasks)) kind payload s.now)
                s.db)
      inserted none = insert_task-IsOrdered s.now s.db h
      inserted (some e) = h

      asked :
          (o : Option Text)
          → IsOrdered
              (continue
                (outcome o (max_seq vm_id s.db.vm_tasks), tick s)
                (λ last.
                  with_now (λ now. exec (insert_task vm_id (suc last) kind payload now)))).1.db
      asked none = inserted (next_fault (later_faults s.faults))
      asked (some e) = h

  -- Queueing a task keeps the ids distinct and the sequence numbers of each VM distinct.
  pub queue_vm_task_tx-IsOrdered : Keeps IsOrdered (queue_vm_task_tx vm_id kind payload)
  queue_vm_task_tx-IsOrdered = record { at = queue_vm_task_tx_at }

  pub queue_vm_task-IsOrdered : Keeps IsOrdered (queue_vm_task vm_id kind payload)
  unfolding queue_vm_task
  queue_vm_task-IsOrdered =
      Keeps-in_tx IsOrdered (λ e. e) (queue_vm_task_tx vm_id kind payload)
        queue_vm_task_tx-IsOrdered
