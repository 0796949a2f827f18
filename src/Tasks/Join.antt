-- ===== src/Tasks/Join.antt =====
-- The rows that the query of `pendingTasks` of internal/worker/worker.go yields.
use mathlib.Core.List.{Memᴰ}
use mathlib.Core.Path.{subst}
use pve_manage.Prelude.{
  ◌<◌, ◌≡◌, ◌≢◌, refl, sym, true, false, Option, none, some, List, [], ◌∷◌, arith, All, All-weaken,
  ltb→lt, ltb-false, All-zip, Bool-cases, inl, inr, ltb, ◌==◌, find?,
}
use pve_manage.Tables.{Db, Vm, Task, is_over}
use pve_manage.Tasks.Schedule.{Row, row_of, earlier_unfinished, eligible, joined_rows}
use pve_manage.Tasks.Rows.{OneEach}
use pve_manage.Tasks.Sequence.{Apart, AllApart}

abbrev pub vm_of : Db → Task → Option Vm
vm_of db t = find? (λ v. v.id == t.vm_id) db.vms

abbrev pub Selected : Db → (Task → Type 0) → Row → Type 0
Selected db P r = P r.0 × (vm_of db r.0 ≡ some r.1) × (eligible db.vm_tasks r.0 r.1 ≡ true)

module _ (db : Db) (P : Task → Type 0) where
  All-row_of :
      (t : Task) (o : Option Vm) (rows : List Row)
      → P t
      → vm_of db t ≡ o
      → All (Selected db P) rows
      → All (Selected db P) (row_of db.vm_tasks t o rows)
  All-row_of t none rows h e hs = hs
  All-row_of t (some v) rows h e hs = elim (Bool-cases (eligible db.vm_tasks t v)) [
    | inl k ↦ rw k ((h, e, k), hs)
    | inr k ↦ rw k hs
  ]

  -- All rows of the query pass its conditions.
  pub All-joined_rows :
      (ts : List Task) → All P ts → All (Selected db P) (joined_rows db.vms db.vm_tasks ts)
  unfolding joined_rows
  All-joined_rows [] h = tt
  All-joined_rows (t ∷ ts) (h, hs) =
      All-row_of t (vm_of db t) (joined_rows db.vms db.vm_tasks ts) h refl (All-joined_rows ts hs)

-- An unfinished task stands in the way of the later ones of its VM.
abbrev pub Blocks : List Task → Task → Type 0
Blocks tasks u =
    (t : Task)
    → u.vm_id ≡ t.vm_id
    → u.seq < t.seq
    → is_over u.status ≡ false
    → earlier_unfinished tasks t ≡ true

pub All-Blocks : (ts : List Task) → All (Blocks ts) ts
unfolding earlier_unfinished
All-Blocks [] = tt
All-Blocks (u ∷ ts) = (
  (λ t same lt live. ground arith),
  All-weaken (Blocks ts) (Blocks (u ∷ ts)) ts
      (λ x h t same lt live. ground (arith, h t same lt live)) (All-Blocks ts),
)

eligible_parts :
    (ts : List Task) (t : Task) (v : Vm)
    → eligible ts t v ≡ true
    → (is_over t.status ≡ false) × (earlier_unfinished ts t ≡ false)
unfolding eligible
eligible_parts ts t v h = (ground arith, ground arith)

-- Two eligible tasks with other sequence numbers belong to other VMs.
eligible-Apart :
    (ts : List Task) (t u : Task) (v w : Vm)
    → Apart t u
    → Blocks ts t
    → Blocks ts u
    → eligible ts t v ≡ true
    → eligible ts u w ≡ true
    → u.vm_id ≢ t.vm_id
eligible-Apart ts t u v w apart bt bu et eu same =
    let (live_t, free_t) = eligible_parts ts t v et in
    let (live_u, free_u) = eligible_parts ts u w eu in
    elim (Bool-cases (ltb t.seq u.seq)) [
      | inl lt ↦ cc (bt u (sym same) (ltb→lt _ _ lt) live_t, free_u)
      | inr ge ↦
          cc
            (bu t same (omega (arith, ltb-false t.seq u.seq ge, apart.1 (sym same))) live_u, free_t)
    ]

module _ (db : Db) where
  OneEach-row_of :
      (t : Task) (o : Option Vm) (rows : List Row)
      → Blocks db.vm_tasks t
      → All (Selected db (λ u. Apart t u × Blocks db.vm_tasks u)) rows
      → OneEach rows
      → OneEach (row_of db.vm_tasks t o rows)
  OneEach-row_of t none rows b h k = k
  OneEach-row_of t (some v) rows b h k = elim (Bool-cases (eligible db.vm_tasks t v)) [
    | inl e ↦ rw e (
      All-weaken (Selected db (λ u. Apart t u × Blocks db.vm_tasks u)) (λ q. q.0.vm_id ≢ t.vm_id)
          rows (λ q s. eligible-Apart db.vm_tasks t q.0 v q.1 s.0.0 b s.0.1 e s.2) h,
      k,
    )
    | inr e ↦ rw e k
  ]

  pub OneEach-joined_rows :
      (ts : List Task)
      → AllApart ts
      → All (Blocks db.vm_tasks) ts
      → OneEach (joined_rows db.vms db.vm_tasks ts)
  unfolding joined_rows
  OneEach-joined_rows [] h b = tt
  OneEach-joined_rows (t ∷ ts) (h, hs) (b, bs) =
      OneEach-row_of t (vm_of db t) (joined_rows db.vms db.vm_tasks ts) b
        (All-joined_rows db (λ u. Apart t u × Blocks db.vm_tasks u) ts
          (All-zip (Apart t) (Blocks db.vm_tasks) ts h bs))
        (OneEach-joined_rows ts hs bs)

  mem-row_of_new :
      (t : Task) (v : Vm) (o : Option Vm) (rows : List Row)
      → o ≡ some v
      → eligible db.vm_tasks t v ≡ true
      → Memᴰ (t, v) (row_of db.vm_tasks t o rows)
  mem-row_of_new t v o rows e h = rw e (rw h (Memᴰ.head refl))

  mem-row_of :
      (p : Row) (t : Task) (o : Option Vm) (rows : List Row)
      → Memᴰ p rows
      → Memᴰ p (row_of db.vm_tasks t o rows)
  mem-row_of p t none rows m = m
  mem-row_of p t (some v) rows m = elim (Bool-cases (eligible db.vm_tasks t v)) [
    | inl e ↦ rw e (Memᴰ.tail m)
    | inr e ↦ rw e m
  ]

  pub mem-joined_rows :
      (t : Task) (v : Vm) (ts : List Task)
      → Memᴰ t ts
      → vm_of db t ≡ some v
      → eligible db.vm_tasks t v ≡ true
      → Memᴰ (t, v) (joined_rows db.vms db.vm_tasks ts)
  unfolding joined_rows
  mem-joined_rows t v [] m f h = elim m [ ]
  mem-joined_rows t v (u ∷ ts) (Memᴰ.head e) f h =
      subst
        (λ x. Memᴰ (t, v) (row_of db.vm_tasks x (vm_of db x) (joined_rows db.vms db.vm_tasks ts))) e
        (mem-row_of_new t v (vm_of db t) (joined_rows db.vms db.vm_tasks ts) f h)
  mem-joined_rows t v (u ∷ ts) (Memᴰ.tail m) f h =
      mem-row_of (t, v) u (vm_of db u) (joined_rows db.vms db.vm_tasks ts)
        (mem-joined_rows t v ts m f h)
