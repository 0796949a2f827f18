-- ===== src/Worker/Swept.antt =====
-- What becomes of the VMs that Proxmox VE no longer has: `markMissingUnmanagedVMsDeleted` of
-- internal/worker/worker.go.
use mathlib.Core.List.{Memᴰ}
use mathlib.Core.Path.{subst}
use pve_manage.Prelude.{
  ℕ, ◌≡◌, refl, sym, ◌∙◌, ap, Bool, true, false, none, List, [], ◌∷◌, any, filter, Bool-cases, inl,
  inr, arith, ◌==◌, ==_refl, All, All-weaken, if◌then◌else◌,
}
use pve_manage.Text.{Text, text_eq_iff}
use pve_manage.Sql.{Session, ok}
use pve_manage.Sql.Ensures.{
  Ensures, Ensures-pure, Ensures-bind, Ensures-then, Ensures-query, Ensures-exec, given,
}
use pve_manage.Tables.{Db, Vm, update_where}
use pve_manage.Worker.Scan.{
  is_unseen, mark_each_deleted, mark_missing_unmanaged_vms_deleted, mark_deleted_row,
  is_scanned_row,
}

-- The tables after a scan of the cluster `key` has seen the ids `seen`: each VM there that is neither
-- managed nor deleted has been seen, and the managed VMs are as before.
pub record IsSwept (key : Text) (seen : List ℕ) (before after : Db) : Type 0 where
  pub all_seen :
      All
        (λ v. v.cluster_key ≡ key → v.managed ≡ false → v.deleted_at ≡ none → Memᴰ v.vmid seen)
        after.vms
  pub managed : filter (λ v. v.managed) after.vms ≡ filter (λ v. v.managed) before.vms

seen_of : (vmid : ℕ) (seen : List ℕ) → any (λ n. n == vmid) seen ≡ true → Memᴰ vmid seen
seen_of vmid [] h = absurd (cc)
seen_of vmid (n ∷ ns) h = elim (Bool-cases (n == vmid)) [
  | inl e ↦ Memᴰ.head (grind arith)
  | inr e ↦ Memᴰ.tail (seen_of vmid ns (rw e at h))
]

module _ (key : Text) (seen : List ℕ) (now : ℕ) where
  -- Each VM that the scan has not seen is still to be marked.
  abbrev Pending : List Vm → Vm → Type 0
  Pending ms v = is_unseen key seen v ≡ true → any (λ m. v.id == m.id) ms ≡ true

  abbrev marked : List Vm → List Vm → List Vm
  marked [] vs = vs
  marked (m ∷ ms) vs = marked ms (update_where (is_scanned_row m.id) (mark_deleted_row m now) vs)

  later-Pending :
      (m : Vm) (ms : List Vm) (v : Vm)
      → is_scanned_row m.id v ≡ false
      → Pending (m ∷ ms) v
      → Pending ms v
  later-Pending m ms v e h k = let x = h k in ground arith

  step-Pending :
      (m : Vm) (ms vs : List Vm)
      → All (Pending (m ∷ ms)) vs
      → All (Pending ms) (update_where (is_scanned_row m.id) (mark_deleted_row m now) vs)
  unfolding update_where
  step-Pending m ms [] h = tt
  step-Pending m ms (v ∷ vs) (h, hs) = elim (Bool-cases (is_scanned_row m.id v)) [
    | inl e ↦ rw e ((λ k. absurd (marked_seen k)), step-Pending m ms vs hs)
    | inr e ↦ rw e (later-Pending m ms v e h, step-Pending m ms vs hs)
  ]
    where
      marked_seen : is_unseen key seen (mark_deleted_row m now v) ≡ true → ⊥
      marked_seen k = ground arith

  marked-Pending : (ms vs : List Vm) → All (Pending ms) vs → All (Pending []) (marked ms vs)
  marked-Pending [] vs h = h
  marked-Pending (m ∷ ms) vs h = marked-Pending ms _ (step-Pending m ms vs h)

  more-Pending : (m : Vm) (ms : List Vm) (v : Vm) → Pending ms v → Pending (m ∷ ms) v
  more-Pending m ms v h k = let x = h k in ground arith

  first-Pending : (vs : List Vm) → All (Pending (filter (is_unseen key seen) vs)) vs
  first-Pending [] = tt
  first-Pending (v ∷ vs) = chosen (is_unseen key seen v) v vs _ refl (first-Pending vs)
    where
      chosen :
          (b : Bool) (v : Vm) (vs ms : List Vm)
          → is_unseen key seen v ≡ b
          → All (Pending ms) vs
          → All (Pending (if b then v ∷ ms else ms)) (v ∷ vs)
      chosen true v vs ms e h =
          (λ k. rw (==_refl v.id) refl, All-weaken _ _ vs (more-Pending v ms) h)
      chosen false v vs ms e h = (λ k. absurd (cc), h)

  step_managed :
      (m : Vm) (vs : List Vm)
      → filter (λ v. v.managed) (update_where (is_scanned_row m.id) (mark_deleted_row m now) vs)
        ≡ filter (λ v. v.managed) vs
  unfolding update_where
  step_managed m [] = refl
  step_managed m (v ∷ vs) = elim (Bool-cases (is_scanned_row m.id v)) [
    | inl e ↦ let k : v.managed ≡ false = ground arith in rw e (rw k (step_managed m vs))
    | inr e ↦ rw e (ap (λ ws. if v.managed then v ∷ ws else ws) (step_managed m vs))
  ]

  marked_managed :
      (ms vs : List Vm) → filter (λ v. v.managed) (marked ms vs) ≡ filter (λ v. v.managed) vs
  marked_managed [] vs = refl
  marked_managed (m ∷ ms) vs = marked_managed ms _ ∙ step_managed m vs

  Ensures-mark_each :
      (ms vs : List Vm)
      → Ensures (λ d. d.vms ≡ vs) (mark_each_deleted now ms) (λ _ d. d.vms ≡ marked ms vs)
  unfolding mark_each_deleted
  Ensures-mark_each [] vs = Ensures-pure tt (λ d h. h)
  Ensures-mark_each (m ∷ ms) vs =
      Ensures-then _ _
        (Ensures-exec _ λ d h. ap (update_where (is_scanned_row m.id) (mark_deleted_row m now)) h)
        (Ensures-mark_each ms (update_where (is_scanned_row m.id) (mark_deleted_row m now) vs))

  Ensures-mark_missing :
      (vs : List Vm)
      → Ensures
          (λ d. d.vms ≡ vs)
          (mark_missing_unmanaged_vms_deleted key seen now)
          (λ _ d. d.vms ≡ marked (filter (is_unseen key seen) vs) vs)
  unfolding mark_missing_unmanaged_vms_deleted
  Ensures-mark_missing vs =
      Ensures-bind {R = λ ms d. (ms ≡ filter (is_unseen key seen) vs) × (d.vms ≡ vs)} _ _
        (Ensures-query _ (λ d h. (ap (filter (is_unseen key seen)) h, h)))
        λ ms. given λ e.
          subst
            (λ x. Ensures (λ d. d.vms ≡ vs) (mark_each_deleted now ms) (λ _ d. d.vms ≡ marked x vs))
            e (Ensures-mark_each ms vs)

  swept_row :
      (v : Vm)
      → Pending [] v
      → v.cluster_key ≡ key
      → v.managed ≡ false
      → v.deleted_at ≡ none
      → Memᴰ v.vmid seen
  swept_row v h own free alive = elim (Bool-cases (any (λ n. n == v.vmid) seen)) [
    | inl e ↦ seen_of v.vmid seen e
    | inr e ↦ absurd (unseen e)
  ]
    where
      unseen : any (λ n. n == v.vmid) seen ≡ false → ⊥
      unseen e =
          let same = (text_eq_iff v.cluster_key key).1 own in
          let k : false ≡ true = h (rw same (rw alive (rw free (rw e refl)))) in absurd (cc)

  -- Where the marking of the missing VMs succeeds, each VM of the cluster that is neither managed nor
  -- deleted afterwards is one that the scan has seen, and the managed VMs are as they were.
  pub mark_missing_unmanaged_vms_deleted-IsSwept :
      (s : Session Db) (done : Unit {0})
      → (mark_missing_unmanaged_vms_deleted key seen now s).0 ≡ ok done
      → IsSwept key seen s.db (mark_missing_unmanaged_vms_deleted key seen now s).1.db
  mark_missing_unmanaged_vms_deleted-IsSwept s done h =
      let vs = s.db.vms in
      let run = (Ensures-mark_missing vs).at s done refl h in
      record {
        all_seen = subst (All _) (sym run) (
            All-weaken _ _ (marked (filter (is_unseen key seen) vs) vs) swept_row
              (marked-Pending (filter (is_unseen key seen) vs) vs (first-Pending vs)));
        managed =
            ap (filter (λ v. v.managed)) run ∙ marked_managed (filter (is_unseen key seen) vs) vs;
      }
