-- ===== src/Tasks/Rows.antt =====
-- Lemmas on the rows of the queue's query: sorting keeps them, and taking the ready ones keeps order.
use mathlib.Core.List.{Memᴰ}
use mathlib.Core.Path.{subst}
use pve_manage.Prelude.{
  ℕ, zero, suc, ◌≡◌, ◌≢◌, refl, sym, ap, ◌∙◌, true, List, [], ◌∷◌, All, All-weaken, length,
  Bool-cases, inl, inr, ◌⊎◌,
}
use pve_manage.Tasks.Schedule.{Row, row_before, insert_row, sort_rows, take_ready, vm_task_ready}

-- Sorting and taking keep what holds of all rows.
module _ (P : Row → Type 0) where
  pub All-insert_row : (r : Row) (rows : List Row) → P r → All P rows → All P (insert_row r rows)
  unfolding insert_row
  All-insert_row r [] p h = (p, tt)
  All-insert_row r (q ∷ rows) p (h, hs) = elim (Bool-cases (row_before r q)) [
    | inl e ↦ rw e (p, (h, hs))
    | inr e ↦ rw e (h, All-insert_row r rows p hs)
  ]

  pub All-sort_rows : (rows : List Row) → All P rows → All P (sort_rows rows)
  unfolding sort_rows
  All-sort_rows [] h = h
  All-sort_rows (r ∷ rows) (h, hs) = All-insert_row r (sort_rows rows) h (All-sort_rows rows hs)

  pub All-take_ready :
      (now room : ℕ) (rows : List Row)
      → All P rows
      → All (λ r. P r × (vm_task_ready r.0 now ≡ true)) (take_ready now room rows)
  unfolding take_ready
  All-take_ready now zero rows h = tt
  All-take_ready now (suc room) [] h = tt
  All-take_ready now (suc room) (r ∷ rows) (h, hs) = elim (Bool-cases (vm_task_ready r.0 now)) [
    | inl e ↦ rw e ((h, e), All-take_ready now room rows hs)
    | inr e ↦ rw e (All-take_ready now (suc room) rows hs)
  ]

-- What is inserted or was there is there.
pub mem-insert_row_new : (r : Row) (rows : List Row) → Memᴰ r (insert_row r rows)
unfolding insert_row
mem-insert_row_new r [] = Memᴰ.head refl
mem-insert_row_new r (q ∷ rows) = elim (Bool-cases (row_before r q)) [
  | inl e ↦ rw e (Memᴰ.head refl)
  | inr e ↦ rw e (Memᴰ.tail (mem-insert_row_new r rows))
]

pub mem-insert_row : (p r : Row) (rows : List Row) → Memᴰ p rows → Memᴰ p (insert_row r rows)
unfolding insert_row
mem-insert_row p r [] m = elim m [ ]
mem-insert_row p r (q ∷ rows) m = elim (Bool-cases (row_before r q)) [
  | inl e ↦ rw e (Memᴰ.tail m)
  | inr e ↦ rw e (mem_rest p q rows m (mem-insert_row p r rows))
]
  where
    mem_rest :
        (p q : Row) (rows : List Row)
        → Memᴰ p (q ∷ rows)
        → (Memᴰ p rows → Memᴰ p (insert_row r rows))
        → Memᴰ p (q ∷ insert_row r rows)
    mem_rest p q rows (Memᴰ.head e) k = Memᴰ.head e
    mem_rest p q rows (Memᴰ.tail m) k = Memᴰ.tail (k m)

pub mem-sort_rows : (p : Row) (rows : List Row) → Memᴰ p rows → Memᴰ p (sort_rows rows)
unfolding sort_rows
mem-sort_rows p [] m = m
mem-sort_rows p (r ∷ rows) (Memᴰ.head e) =
    subst (λ x. Memᴰ x (insert_row r (sort_rows rows))) (sym e)
      (mem-insert_row_new r (sort_rows rows))
mem-sort_rows p (r ∷ rows) (Memᴰ.tail m) =
    mem-insert_row p r (sort_rows rows) (mem-sort_rows p rows m)

pub mem-take_ready :
    (now room : ℕ) (p : Row) (rows : List Row)
    → vm_task_ready p.0 now ≡ true
    → Memᴰ p rows
    → Memᴰ p (take_ready now room rows) ⊎ (length (take_ready now room rows) ≡ room)
unfolding take_ready
mem-take_ready now zero p rows h m = inr refl
mem-take_ready now (suc room) p [] h m = elim m [ ]
mem-take_ready now (suc room) p (r ∷ rows) h (Memᴰ.head e) =
    rw (ap (λ (x : Row). vm_task_ready x.0 now) (sym e) ∙ h) (inl (Memᴰ.head e))
mem-take_ready now (suc room) p (r ∷ rows) h (Memᴰ.tail m) =
    elim (Bool-cases (vm_task_ready r.0 now)) [
      | inl e ↦ rw e (one_more (mem-take_ready now room p rows h m))
      | inr e ↦ rw e (mem-take_ready now (suc room) p rows h m)
    ]
  where
    one_more :
        Memᴰ p (take_ready now room rows) ⊎ (length (take_ready now room rows) ≡ room)
        → Memᴰ p (r ∷ take_ready now room rows)
          ⊎ (suc (length (take_ready now room rows)) ≡ suc room)
    one_more (inl k) = inl (Memᴰ.tail k)
    one_more (inr k) = inr (ap suc k)

-- No two rows of one VM.
abbrev pub OneEach : List Row → Type 0
OneEach [] = Unit
OneEach (r ∷ rows) = All (λ q. q.0.vm_id ≢ r.0.vm_id) rows × OneEach rows

OneEach-insert_row :
    (r : Row) (rows : List Row)
    → All (λ q. q.0.vm_id ≢ r.0.vm_id) rows
    → OneEach rows
    → OneEach (insert_row r rows)
unfolding insert_row
OneEach-insert_row r [] h k = (tt, tt)
OneEach-insert_row r (q ∷ rows) (h, hs) (k, ks) = elim (Bool-cases (row_before r q)) [
  | inl e ↦ rw e ((h, hs), (k, ks))
  | inr e ↦ rw e (
    All-insert_row (λ x. x.0.vm_id ≢ q.0.vm_id) r rows (λ x. h (sym x)) k,
    OneEach-insert_row r rows hs ks,
  )
]

pub OneEach-sort_rows : (rows : List Row) → OneEach rows → OneEach (sort_rows rows)
unfolding sort_rows
OneEach-sort_rows [] h = h
OneEach-sort_rows (r ∷ rows) (h, hs) =
    OneEach-insert_row r (sort_rows rows) (All-sort_rows (λ q. q.0.vm_id ≢ r.0.vm_id) rows h)
      (OneEach-sort_rows rows hs)

pub OneEach-take_ready :
    (now room : ℕ) (rows : List Row) → OneEach rows → OneEach (take_ready now room rows)
unfolding take_ready
OneEach-take_ready now zero rows h = tt
OneEach-take_ready now (suc room) [] h = tt
OneEach-take_ready now (suc room) (r ∷ rows) (h, hs) = elim (Bool-cases (vm_task_ready r.0 now)) [
  | inl e ↦ rw e (
    All-weaken (λ q. (q.0.vm_id ≢ r.0.vm_id) × (vm_task_ready q.0 now ≡ true))
        (λ q. q.0.vm_id ≢ r.0.vm_id) (take_ready now room rows) (λ q k. k.0)
        (All-take_ready (λ q. q.0.vm_id ≢ r.0.vm_id) now room rows h),
    OneEach-take_ready now room rows hs,
  )
  | inr e ↦ rw e (OneEach-take_ready now (suc room) rows hs)
]
