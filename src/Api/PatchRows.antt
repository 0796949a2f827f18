-- ===== src/Api/PatchRows.antt =====
-- The rows that `handlePatchVM` of internal/api/vm_handlers.go writes.
use mathlib.Core.Path.{subst}
use mathlib.Core.List.{append-nil, append_assoc}
use pve_manage.Prelude.{
  ℕ, suc, ◌≡◌, ◌≢◌, refl, sym, ◌∙◌, ap, Bool, true, false, not, inl, inr, Option, none, some, List,
  [], ◌∷◌, ◌++◌, All, All-append, filter, find?, Bool-cases, ◌==◌, arith,
}
use pve_manage.Text.{Text}
use pve_manage.Json.{Object}
use pve_manage.Sql.{Except, ok, with_now, exec, statement, on_error, ◌>>◌}
use pve_manage.Sql.Ensures.{
  Ensures, Ensures-pure, Ensures-bind, Ensures-then, Ensures-on_error, Ensures-query, Ensures-exec,
  Ensures-statement, Ensures-with_now,
}
use pve_manage.Tables.{Db, Vm, Task, User, Kind, update_where, SecurityGroup, SshKey}
use pve_manage.Tasks.{new_task, insert_task, queue_vm_task_tx}
use pve_manage.Api.{Api, Reply, Request, require, parsed, request_vm, server_error, load_vm_row}
use pve_manage.Api.Settles.{AllOrNothing, Reread}
use pve_manage.Api.Access.{ReadOnly-require}
use pve_manage.Api.Successful.{Ensures-reads}
use pve_manage.Api.Vms.{update_vm, queue_vm_power_task_tx}
use pve_manage.Api.PatchBody.{Draft}
use pve_manage.Api.Patch.{store_draft, queue_reboot, reboots, commit_patch}

-- The tables before and after a change of the VM `id`: the rows of the other VMs are the same, tasks
-- of this VM are added, and no other task, group, key or user is changed.
pub record IsPatched (id : ℕ) (before after : Db) : Type 0 where
  pub added : List Task
  pub others : filter (λ v. not (v.id == id)) after.vms ≡ filter (λ v. not (v.id == id)) before.vms
  pub tasks : after.vm_tasks ≡ before.vm_tasks ++ added
  pub for_vm : All (λ t. t.vm_id ≡ id) added
  pub groups : after.security_groups ≡ before.security_groups
  pub keys : after.ssh_keys ≡ before.ssh_keys
  pub users : after.users ≡ before.users

-- A change after which the worker has something to do.
abbrev pub IsQueued : ℕ → Db → Db → Type 0
IsQueued id before after = (h : IsPatched id before after) × (h.added ≢ [])

-- What a request to change the VM `id` may do to the tables.
abbrev pub Meets : ℕ → Db → Except Reply Reply → Db → Type 0
Meets id before result after = AllOrNothing (Reread id) (IsQueued id before) before result after

-- An update of the rows that a filter leaves out, if they are left out afterwards.
filter-other :
    {A : Type 0} (p : A → Bool) (f : A → A) (xs : List A)
    → ((x : A) → p (f x) ≡ p x)
    → filter (λ x. not (p x)) (update_where p f xs) ≡ filter (λ x. not (p x)) xs
unfolding update_where
filter-other p f [] h = refl
filter-other p f (x ∷ xs) h = elim (Bool-cases (p x)) [
  | inl e ↦ rw e (rw (h x) (rw e (filter-other p f xs h)))
  | inr e ↦ rw e (rw e (ap (λ ys. x ∷ ys) (filter-other p f xs h)))
]

pub found_id :
    (id : ℕ) (vms : List Vm) (vm : Vm) → find? (λ v. v.id == id) vms ≡ some vm → vm.id ≡ id
found_id id [] vm h = absurd (cc)
found_id id (x ∷ xs) vm h = elim (Bool-cases (x.id == id)) [
  | inl e ↦
      let k : ◌≡◌ {A = Option Vm} (some x) (some vm) = rw e at h in
      let same : x ≡ vm = cc in let n : x.id ≡ id = ground arith in ap (λ v. v.id) (sym same) ∙ n
  | inr e ↦ found_id id xs vm (rw e at h)
]

module _ (id : ℕ) (before : Db) where
  pub unchanged : (d : Db) → d ≡ before → IsPatched id before d
  unchanged d e = subst (IsPatched id before) (sym e) (record {
    added = [];
    others = refl;
    tasks = sym (append-nil before.vm_tasks);
    for_vm = tt;
    groups = refl;
    keys = refl;
    users = refl;
  })

  pub row-IsPatched :
      (f : Vm → Vm) (d : Db)
      → ((v : Vm) → (f v).id ≡ v.id)
      → IsPatched id before d
      → IsPatched id before (update_vm id f d)
  row-IsPatched f d h k = record {
    added = k.added;
    others = filter-other (λ v. v.id == id) f d.vms (λ v. ap (λ n. n == id) (h v)) ∙ k.others;
    tasks = k.tasks;
    for_vm = k.for_vm;
    groups = k.groups;
    keys = k.keys;
    users = k.users;
  }

  abbrev Patched : Db → Type 0
  Patched d = IsPatched id before d

  abbrev pub Queued : Db → Type 0
  Queued d = IsQueued id before d

  some_added : {A : Type 0} (xs : List A) (x : A) → xs ++ x ∷ [] ≢ []
  some_added [] x e = absurd (cc)
  some_added (y ∷ xs) x e = absurd (cc)

  pub task-IsQueued :
      (seq : ℕ) (kind : Kind) (payload : Object) (now : ℕ) (d : Db)
      → IsPatched id before d
      → Queued (insert_task id seq kind payload now d)
  task-IsQueued seq kind payload now d k =
      let task = new_task d.next_task_id id seq kind payload now in
      (
        record {
          added = k.added ++ task ∷ [];
          others = k.others;
          tasks =
              ap (λ ts. ts ++ task ∷ []) k.tasks ∙ append_assoc before.vm_tasks k.added (task ∷ []);
          for_vm = All-append (λ t. t.vm_id ≡ id) k.added (task ∷ []) k.for_vm (refl, tt);
          groups = k.groups;
          keys = k.keys;
          users = k.users;
        },
        some_added k.added task,
      )

  Ensures-queue :
      (kind : Kind) (payload : Object)
      → Ensures Patched (on_error server_error (queue_vm_task_tx id kind payload)) (λ _. Queued)
  unfolding queue_vm_task_tx
  Ensures-queue kind payload = Ensures-on_error _ _ (
      Ensures-bind {R = λ _. Patched} _ _ (Ensures-query _ (λ d h. h)) λ last.
        Ensures-with_now _ λ now. Ensures-exec _ (task-IsQueued (suc last) kind payload now))

  -- The transaction of a change.
  Ensures-stored :
      (d : Draft) (now : ℕ)
      → Ensures
          (λ x. x ≡ before)
          (on_error server_error (statement (store_draft id d now)))
          (λ _. Patched)
  Ensures-stored d now = Ensures-on_error _ _ (
      Ensures-statement _ λ x n x' e h.
        let start = row-IsPatched _ x (λ v. refl) (unchanged x e) in
        subst Patched (ap (λ r. r.1) (same_ok h)) start)
    where
      same_ok : {a b : ℕ × Db} → ◌≡◌ {A = Except Text (ℕ × Db)} (ok a) (ok b) → a ≡ b
      same_ok h = cc

  Ensures-reboot : (b : Bool) → Ensures Queued (queue_reboot b id) (λ _. Queued)
  Ensures-reboot false = Ensures-pure tt (λ d h. h)
  Ensures-reboot true = record { at = λ s a h e. (Ensures-queue _ _).at s a h.0 e }

  pub Ensures-commit :
      (d : Draft) (now : ℕ) → Ensures (λ x. x ≡ before) (commit_patch id d now) (λ _. Queued)
  unfolding commit_patch
  Ensures-commit d now = Ensures-bind _ _ (Ensures-stored d now) λ affected.
      Ensures-then {R = Patched} _ _ (Ensures-reads Patched _ (ReadOnly-require _ _ _))
        (Ensures-then {R = Queued} _ _ (Ensures-queue _ _) (Ensures-reboot (reboots d)))

  pub Ensures-power :
      (vm : Vm) (action : Text)
      → vm.id ≡ id
      → Ensures
          (λ x. x ≡ before)
          (on_error server_error (queue_vm_power_task_tx vm action))
          (λ _. Queued)
  unfolding queue_vm_power_task_tx queue_vm_task_tx
  Ensures-power vm action e =
      subst (λ n. Ensures (λ x. x ≡ before) (on_error server_error (body n)) (λ _. Queued)) (sym e)
        (Ensures-on_error _ _ (
          Ensures-then {R = Patched} _ _
            (Ensures-with_now _
              λ now. Ensures-exec _ λ x h. row-IsPatched _ x (λ v. refl) (unchanged x h))
            (Ensures-bind {R = λ _. Patched} _ _ (Ensures-query _ (λ d h. h)) λ last.
              Ensures-with_now _
                λ now. Ensures-exec _ (task-IsQueued (suc last) Kind.power _ now))))
    where
      body : ℕ → pve_manage.Tasks.Sql (Unit {0})
      body n =
          let prefer = pve_manage.Api.Vms.next_generation (
            pve_manage.Json.put "power" (pve_manage.Json.str action)
              (pve_manage.Json.or_empty vm.prefer_status)) in
          (with_now λ now. exec (
            update_vm n (λ v. record v {
              prefer_status = some prefer;
              sync_state = pve_manage.Tables.SyncState.pending;
              sync_error = none;
              updated_at = now;
            })))
          >> queue_vm_task_tx n Kind.power
              (pve_manage.Api.Vms.vm_payload n (("power", pve_manage.Json.str action) ∷ []))
