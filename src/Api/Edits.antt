-- ===== src/Api/Edits.antt =====
-- One statement on the row of a VM, and the tasks that are queued with it: the transactions of the
-- administrators' handlers in internal/api/vm_handlers.go and internal/api/template_handlers.go.
use pve_manage.Prelude.{
  ℕ, suc, ◌≡◌, ◌≢◌, refl, sym, ◌∙◌, ap, Bool, true, false, Option, some, List, [], ◌∷◌, find?,
  filter, Bool-cases, inl, inr, ◌==◌, if◌then◌else◌,
}
use pve_manage.Text.{Text}
use pve_manage.Json.{Object}
use pve_manage.Sql.{Except, ok, err, exec, on_error, pure}
use pve_manage.Sql.Atomic.{
  ReadOnly, ReadOnly-bind, ReadOnly-query, ReadOnly-on_error, ReadOnly-pure, ReadOnly-fail,
}
use pve_manage.Sql.Ensures.{
  Ensures, Ensures-bind, Ensures-query, Ensures-exec, Ensures-on_error, Ensures-pure,
  Ensures-with_now,
}
use pve_manage.Tables.{Db, Vm, User, Kind, update_where}
use pve_manage.Tasks.{queue_vm_task_tx}
use pve_manage.Api.{Api, Reply, Request, deny, require, server_error}
use pve_manage.Api.Access.{ReadOnly-parsed, ReadOnly-found}
use pve_manage.Api.Authority.{
  Needs, Needs-bind, Needs-parsed, Needs-found, Needs-query, Needs-pure, Needs-fail,
}
use pve_manage.Api.Vms.{update_vm}
use pve_manage.Api.Admin.{require_admin, request_admin, queue_task, queue_task_if}
use pve_manage.Api.PatchRows.{IsPatched, unchanged, row-IsPatched, task-IsQueued}

-- The request is an administrator's.
pub record IsAdmin (u : Except Text User) : Type 0 where
  pub user : User
  pub its_user : u ≡ ok user
  pub admin : user.is_admin ≡ true

-- The administrator and the row that the head of a handler finds.
abbrev pub IsRequestedVm : {B : Type 0} → Db → Request B → User × Vm → Type 0
IsRequestedVm before r (user, vm) =
    IsAdmin r.user × (id : ℕ) × (r.id ≡ some id) × (find? (λ v. v.id == id) before.vms ≡ some vm)

ReadOnly-require_admin : (u : Except Text User) → ReadOnly (require_admin u)
unfolding require_admin
ReadOnly-require_admin (err e) = ReadOnly-fail _
ReadOnly-require_admin (ok user) = go user.is_admin
  where
    go : (b : Bool) → ReadOnly (if b then pure user else deny 403 "admin privileges required")
    go true = ReadOnly-pure _
    go false = ReadOnly-fail _

Needs-require_admin :
    (before : Db) (u : Except Text User) → Needs before (require_admin u) (λ user. IsAdmin u)
unfolding require_admin
Needs-require_admin before (err e) = Needs-fail before _
Needs-require_admin before (ok user) = go user.is_admin refl
  where
    go :
        (b : Bool)
        → b ≡ user.is_admin
        → Needs before
            (if b then pure user else deny 403 "admin privileges required")
            (λ _. IsAdmin (ok user))
    go true e = Needs-pure before user (record { user = user; its_user = refl; admin = sym e })
    go false e = Needs-fail before _

pub ReadOnly-request_admin : {B : Type 0} (r : Request B) → ReadOnly (request_admin r)
unfolding request_admin pve_manage.Api.load_vm_row
ReadOnly-request_admin r = ReadOnly-bind _ _ (ReadOnly-require_admin r.user) λ user.
    ReadOnly-bind _ _ (ReadOnly-parsed r.id _) λ id.
      ReadOnly-bind _ _ (ReadOnly-on_error _ _ (ReadOnly-query _))
        λ row. ReadOnly-bind _ _ (ReadOnly-found row _) λ vm. ReadOnly-pure _

pub Needs-request_admin :
    {B : Type 0} (before : Db) (r : Request B)
    → Needs before (request_admin r) (IsRequestedVm before r)
unfolding request_admin pve_manage.Api.load_vm_row
Needs-request_admin before r =
    Needs-bind before _ _ (ReadOnly-require_admin r.user) (Needs-require_admin before r.user)
      λ user admin.
        Needs-bind before _ _ (ReadOnly-parsed r.id _) (Needs-parsed before r.id _) λ id its_id.
          Needs-bind before _ _ (ReadOnly-on_error _ _ (ReadOnly-query _)) (Needs-query before _)
            λ row its_row.
              Needs-bind before _ _ (ReadOnly-found row _) (Needs-found before row _)
                λ vm is_vm. Needs-pure before _ (admin, id, its_id, sym its_row ∙ is_vm)

-- The row `id` is edited by `f`, and tasks of it may have been added.
pub record IsEdited (id : ℕ) (f : Vm → Vm) (before after : Db) : Type 0 where
  pub patched : IsPatched id before after
  pub vms : after.vms ≡ update_where (λ v. v.id == id) f before.vms

abbrev pub IsCommitted : ℕ → (Vm → Vm) → Db → Db → Type 0
IsCommitted id f before after = (h : IsEdited id f before after) × (h.patched.added ≢ [])

module _ (id : ℕ) (f : Vm → Vm) (keeps_id : (v : Vm) → (f v).id ≡ v.id) (before : Db) where
  pub Ensures-edit :
      Ensures
        (λ d. d ≡ before)
        (on_error server_error (exec (update_vm id f)))
        (λ _. IsEdited id f before)
  Ensures-edit = Ensures-on_error _ _ (
      Ensures-exec _ λ d same. record {
        patched = row-IsPatched id before f d keeps_id (unchanged id before d same);
        vms = ap (λ x. update_where (λ v. v.id == id) f x.vms) same;
      })

  pub Ensures-queue_task :
      (kind : Kind) (rest : Object)
      → Ensures (IsEdited id f before) (queue_task id kind rest) (λ _. IsCommitted id f before)
  unfolding queue_vm_task_tx
  Ensures-queue_task kind rest = Ensures-on_error _ _ (
      Ensures-bind {R = λ _. IsEdited id f before} _ _ (Ensures-query _ (λ d h. h)) λ last.
        Ensures-with_now _ λ now. Ensures-exec _ λ d h.
          let queued = task-IsQueued id before (suc last) kind _ now d h.patched in
          (record { patched = queued.0; vms = h.vms }, queued.1))

  pub Ensures-queue_task_if :
      (b : Bool) (kind : Kind) (rest : Object)
      → Ensures
          (IsCommitted id f before)
          (queue_task_if b id kind rest)
          (λ _. IsCommitted id f before)
  unfolding queue_vm_task_tx
  Ensures-queue_task_if false kind rest = Ensures-pure tt (λ d h. h)
  Ensures-queue_task_if true kind rest = Ensures-on_error _ _ (
      Ensures-bind {R = λ _. IsCommitted id f before} _ _ (Ensures-query _ (λ d h. h)) λ last.
        Ensures-with_now _ λ now. Ensures-exec _ λ d h.
          let queued = task-IsQueued id before (suc last) kind _ now d h.0.patched in
          (record { patched = queued.0; vms = h.0.vms }, queued.1))

-- The edited row is found under its id.
pub find-update_where :
    (id : ℕ) (f : Vm → Vm) (vms : List Vm) (vm : Vm)
    → ((v : Vm) → (f v).id ≡ v.id)
    → find? (λ v. v.id == id) vms ≡ some vm
    → find? (λ v. v.id == id) (update_where (λ v. v.id == id) f vms) ≡ some (f vm)
unfolding update_where
find-update_where id f [] vm keeps_id h = cc
find-update_where id f (x ∷ xs) vm keeps_id h = elim (Bool-cases (x.id == id)) [
  | inl e ↦
      let same : x ≡ vm = some_injective (rw e at h) in
      rw e (rw (ap (λ n. n == id) (keeps_id x) ∙ e) (ap (λ v. some (f v)) same))
  | inr e ↦ rw e (rw e (find-update_where id f xs vm keeps_id (rw e at h)))
]
  where
    some_injective : {a b : Vm} → ◌≡◌ {A = Option Vm} (some a) (some b) → a ≡ b
    some_injective k = cc

-- Rows that an update edits are no rows of a filter that leaves them out before and afterwards.
pub filter-update_apart :
    (p q : Vm → Bool) (f : Vm → Vm) (vms : List Vm)
    → ((v : Vm) → p v ≡ true → q v ≡ false)
    → ((v : Vm) → p v ≡ true → q (f v) ≡ false)
    → filter q (update_where p f vms) ≡ filter q vms
unfolding update_where
filter-update_apart p q f [] h k = refl
filter-update_apart p q f (x ∷ xs) h k = elim (Bool-cases (p x)) [
  | inl e ↦ rw e (rw (h x e) (rw (k x e) (filter-update_apart p q f xs h k)))
  | inr e ↦ rw e (elim (Bool-cases (q x)) [
    | inl m ↦ rw m (ap (λ ys. x ∷ ys) (filter-update_apart p q f xs h k))
    | inr m ↦ rw m (filter-update_apart p q f xs h k)
  ])
]
