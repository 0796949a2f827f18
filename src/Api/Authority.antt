-- ===== src/Api/Authority.antt =====
-- The guards of the handlers on one VM: internal/api/vm_handlers.go.
use pve_manage.Prelude.{
  ℕ, ◌≡◌, refl, sym, ◌∙◌, ap, Bool, true, false, Option, none, some, String, find?, ◌==◌, ◌⊎◌, inl,
  inr,
}
use pve_manage.Text.{Text}
use mathlib.Core.Path.{subst}
use pve_manage.Sql.{
  Session, Except, ok, err, pure, fail, on_error, map_err, outcome, next_fault, query, continue,
  ◌>>=◌, ◌>>◌,
}
use pve_manage.Sql.Atomic.{ReadOnly, ReadOnly-pure, ReadOnly-query, ReadOnly-on_error}
use pve_manage.Tables.{Db, Vm}
use pve_manage.Api.{
  User, Reply, Request, Api, require, parsed, found, logged_in, server_error, load_vm_row,
  request_vm, vm_visible_to, is_owner_or_admin,
}
use pve_manage.Api.Access.{
  VmRequest, power, delete, restore, delete_now, pause, resume, retry, handle, ReadOnly-parsed,
  ReadOnly-found, ReadOnly-logged_in, ReadOnly-request_vm, handle_error_unchanged,
}
use pve_manage.Api.Vms.{
  handle_power_vm, handle_delete_vm, handle_restore_vm, handle_delete_now_vm, handle_pause_vm_tasks,
  handle_resume_vm_tasks, handle_retry_vm_task,
}

-- What the result of a successful run says, started on the tables `d`.
pub record Needs (d : Db) {A : Type 0} (m : Api A) (Q : A → Type 0) : Type 0 where
  pub at : (s : Session Db) (a : A) → s.db ≡ d → (m s).0 ≡ ok a → Q a

ok_injective : {E A : Type 0} {a b : A} → ◌≡◌ {A = Except E A} (ok a) (ok b) → a ≡ b
ok_injective h = cc

module _ (d : Db) where
  Needs-bind_at :
      {A B : Type 0} (r : Except Reply A × Session Db) (f : A → Api B) (R : A → Type 0)
      (Q : B → Type 0) (b : B)
      → ((a : A) → R a → Needs d (f a) Q)
      → ((a : A) → r.0 ≡ ok a → R a)
      → r.1.db ≡ d
      → (continue r f).0 ≡ ok b
      → Q b
  Needs-bind_at (ok a, s) f R Q b step h e k = (step a (h a refl)).at s b e k
  Needs-bind_at (err x, s) f R Q b step h e k = cc

  pub Needs-bind :
      {A B : Type 0} {R : A → Type 0} {Q : B → Type 0} (m : Api A) (f : A → Api B)
      → ReadOnly m
      → Needs d m R
      → ((a : A) → R a → Needs d (f a) Q)
      → Needs d (m >>= f) Q
  unfolding ◌>>=◌
  Needs-bind {R = R} {Q} m f reads h step = record {
    at = λ s b e k. Needs-bind_at (m s) f R Q b step (λ a. h.at s a e) (reads.at s ∙ e) k;
  }

  pub Needs-pure : {A : Type 0} {Q : A → Type 0} (a : A) → Q a → Needs d (pure a) Q
  Needs-pure {Q = Q} a q = record { at = λ s b e k. subst Q (ok_injective k) q }

  pub Needs-fail : {A : Type 0} {Q : A → Type 0} (e : Reply) → Needs d (fail {A = A} e) Q
  Needs-fail e = record { at = λ s b h k. cc }

  pub Needs-const : {A : Type 0} {C : Type 0} (m : Api A) → C → Needs d m (λ _. C)
  Needs-const m c = record { at = λ s b e k. c }

  -- A guard that a successful run has passed.
  pub Needs-require :
      {A : Type 0} {Q : A → Type 0} (c : Bool) (code : ℕ) (text : String) (m : Api A)
      → (c ≡ true → Needs d m Q)
      → Needs d (require c code text >> m) Q
  unfolding require ◌>>◌ ◌>>=◌
  Needs-require true code text m h =
      Needs-bind (pure tt) (λ _. m) (ReadOnly-pure tt) (Needs-const (pure tt) tt) (λ _ _. h refl)
  Needs-require false code text m h = record { at = λ s b e k. cc }

  Needs-logged_in : (u : Except Text User) → Needs d (logged_in u) (λ user. u ≡ ok user)
  unfolding logged_in
  Needs-logged_in (ok user) = Needs-pure user refl
  Needs-logged_in (err e) = Needs-fail _

  pub Needs-parsed :
      {A : Type 0} (o : Option A) (text : String) → Needs d (parsed o text) (λ a. o ≡ some a)
  unfolding parsed
  Needs-parsed none text = Needs-fail _
  Needs-parsed (some a) text = Needs-pure a refl

  pub Needs-found :
      {A : Type 0} (o : Option A) (text : String) → Needs d (found o text) (λ a. o ≡ some a)
  unfolding found
  Needs-found none text = Needs-fail _
  Needs-found (some a) text = Needs-pure a refl

  asked :
      {A : Type 0} (g : Text → Reply) (o : Option Text) (b a : A)
      → map_err g (outcome o b) ≡ ok a
      → a ≡ b
  asked g none b a h = sym (ok_injective h)
  asked g (some x) b a h = cc

  -- Whatever the reply on an error is.
  pub Needs-asked :
      {A : Type 0} (g : Text → Reply) (f : Db → A) → Needs d (on_error g (query f)) (λ a. a ≡ f d)
  unfolding on_error query
  Needs-asked g f = record { at = λ s a e k. asked g (next_fault s.faults) (f s.db) a k ∙ ap f e }

  pub Needs-query :
      {A : Type 0} (f : Db → A) → Needs d (on_error server_error (query f)) (λ a. a ≡ f d)
  Needs-query f = Needs-asked server_error f

  -- The user and the row that a handler works with.
  abbrev pub IsRequested : {B : Type 0} → Request B → User × Vm → Type 0
  IsRequested r a =
      (r.user ≡ ok a.0) × ((id : ℕ) × (r.id ≡ some id) × (find? (λ v. v.id == id) d.vms ≡ some a.1))

  pub Needs-request_vm : {B : Type 0} (r : Request B) → Needs d (request_vm r) (IsRequested r)
  unfolding request_vm load_vm_row
  Needs-request_vm r =
      Needs-bind _ _ (ReadOnly-logged_in r.user) (Needs-logged_in r.user) λ user hu.
        Needs-bind _ _ (ReadOnly-parsed r.id _) (Needs-parsed r.id _) λ id hi.
          Needs-bind _ _ (ReadOnly-on_error _ _ (ReadOnly-query _)) (Needs-query _) λ row hr.
            Needs-bind _ _ (ReadOnly-found row _) (Needs-found row _)
              λ vm hv. Needs-pure (user, vm) (hu, (id, hi, sym hr ∙ hv))

-- What a request says, whichever it is.
abbrev pub user_of : VmRequest → Except Text User
user_of (power r) = r.user
user_of (delete r) = r.user
user_of (restore r) = r.user
user_of (delete_now r) = r.user
user_of (pause r) = r.user
user_of (resume r) = r.user
user_of (retry r) = r.user

abbrev id_of : VmRequest → Option ℕ
id_of (power r) = r.id
id_of (delete r) = r.id
id_of (restore r) = r.id
id_of (delete_now r) = r.id
id_of (pause r) = r.id
id_of (resume r) = r.id
id_of (retry r) = r.id

-- Power is for whoever sees the VM; the rest is for its owner and for administrators.
abbrev is_allowed : VmRequest → Vm → User → Bool
is_allowed (power r) vm user = vm_visible_to vm user
is_allowed q vm user = is_owner_or_admin vm user

-- The request names a managed VM of the tables and comes from a user who may make it.
pub record IsAuthorized (q : VmRequest) (d : Db) : Type 0 where
  pub user : User
  vm : Vm
  id : ℕ
  pub logged_in_as : user_of q ≡ ok user
  has_id : id_of q ≡ some id
  has_row : find? (λ v. v.id == id) d.vms ≡ some vm
  allowed : is_allowed q vm user ≡ true
  managed : vm.managed ≡ true

module _ (d : Db) where
  -- The common head of the handlers: the row, the permission, and that the VM is managed.
  authorized :
      {B A : Type 0} (q : VmRequest) (r : Request B) (may : Vm → User → Bool) (c : String)
      (rest : User × Vm → Api A)
      → user_of q ≡ r.user
      → id_of q ≡ r.id
      → ((vm : Vm) (user : User) → may vm user ≡ true → is_allowed q vm user ≡ true)
      → Needs d
          (request_vm r >>= λ a.
            require (may a.1 a.0) 403 "permission denied" >> (require a.1.managed 400 c >> rest a))
          (λ _. IsAuthorized q d)
  authorized q r may c rest hu hi allowed =
      Needs-bind d _ _ (ReadOnly-request_vm r) (Needs-request_vm d r) λ a h.
        Needs-require d _ _ _ _ λ p. Needs-require d _ _ _ _ λ m. Needs-const d _ (record {
          user = a.0;
          vm = a.1;
          id = h.1.0;
          logged_in_as = hu ∙ h.0;
          has_id = hi ∙ h.1.1;
          has_row = h.1.2;
          allowed = allowed a.1 a.0 p;
          managed = m;
        })

handle-Needs : (d : Db) (q : VmRequest) → Needs d (handle q) (λ _. IsAuthorized q d)
unfolding handle handle_power_vm handle_delete_vm handle_restore_vm handle_delete_now_vm
    handle_pause_vm_tasks handle_resume_vm_tasks handle_retry_vm_task ◌>>◌
handle-Needs d (power r) = authorized d (power r) r vm_visible_to _ _ refl refl (λ _ _ p. p)
handle-Needs d (delete r) = authorized d (delete r) r is_owner_or_admin _ _ refl refl (λ _ _ p. p)
handle-Needs d (restore r) = authorized d (restore r) r is_owner_or_admin _ _ refl refl (λ _ _ p. p)
handle-Needs d (delete_now r) =
    authorized d (delete_now r) r is_owner_or_admin _ _ refl refl (λ _ _ p. p)
handle-Needs d (pause r) = authorized d (pause r) r is_owner_or_admin _ _ refl refl (λ _ _ p. p)
handle-Needs d (resume r) = authorized d (resume r) r is_owner_or_admin _ _ refl refl (λ _ _ p. p)
handle-Needs d (retry r) =
    Needs-bind d {R = λ _. Unit {0}} _ _ (ReadOnly-logged_in r.user) (Needs-const d _ tt) λ _ _.
      Needs-bind d {R = λ _. Unit {0}} _ _ (ReadOnly-parsed r.id _) (Needs-const d _ tt) λ _ _.
        Needs-bind d {R = λ _. Unit {0}} _ _ (ReadOnly-parsed r.body _) (Needs-const d _ tt)
          λ _ _. authorized d (retry r) r is_owner_or_admin _ _ refl refl (λ _ _ p. p)

either :
    (q : VmRequest) (s : Session Db) (x : Except Reply Reply)
    → (handle q s).0 ≡ x
    → ((handle q s).1.db ≡ s.db) ⊎ IsAuthorized q s.db
either q s (ok b) e = inr ((handle-Needs s.db q).at s b refl e)
either q s (err r) e = inl (handle_error_unchanged q s r e)

-- Whatever fails, a request on a VM changes no table unless it names a managed VM and comes from a
-- user who may make it: one who sees the VM for a power action, and the owner or an administrator
-- for a deletion, a restoration, and the pause, resumption and retry of its tasks.
pub handle_unauthorized_unchanged :
    (q : VmRequest) (s : Session Db) → ((handle q s).1.db ≡ s.db) ⊎ IsAuthorized q s.db
handle_unauthorized_unchanged q s = either q s (handle q s).0 refl
