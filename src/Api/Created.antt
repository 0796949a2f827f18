-- ===== src/Api/Created.antt =====
-- What `handleCreateVM` of internal/api/vm_handlers.go does to the tables.
use pve_manage.Prelude.{ℕ, ◌≡◌, refl, ◌⊎◌, Option, none, some}
use pve_manage.Text.{Text}
use pve_manage.Sql.{Session, Except, ok, err, on_error, ◌>>=◌}
use pve_manage.Sql.Atomic.{
  ReadOnly, ReadOnly-pure, ReadOnly-fail, ReadOnly-query, ReadOnly-bind, ReadOnly-on_error, Atomic,
}
use pve_manage.Sql.Ensures.{Ensures, Ensures-bind, Ensures-weaken, Ensures-in_tx, given}
use pve_manage.Api.Successful.{Ensures-reads}
use pve_manage.Tables.{Db, Vm}
use pve_manage.Config.{App}
use pve_manage.Api.{User, Api, Reply, server_error, load_vm_row}
use pve_manage.Api.Ipv4.{Octets}
use pve_manage.Api.Allocation.{user_vm_usage}
use pve_manage.Api.Placement.{Floats}
use pve_manage.Api.Create.{plan_and_allocate, reread, handle_create_vm}
use pve_manage.Api.CreateOptions.{effective_quota}
use pve_manage.Api.CreateChecks.{CreateRequest}
use pve_manage.Api.PlanFacts.{Ensures-plan_vm}
use pve_manage.Api.UsageLaws.{IsWithin}
use pve_manage.Api.RowFacts.{IsCreated, Outcome, Ensures-allocate}

-- The error that the reading of the new row answers on the tables `after` the transaction.
abbrev pub IsLate : Db → Reply → Db → Type 0
IsLate before e after =
    (t : Session Db) × (t.db ≡ after)
    × (((on_error server_error (load_vm_row before.next_vm_id) >>= reread) t).0 ≡ err e)

-- What a request to create a VM may do to the tables: all of the creation, or, where the reply is an
-- error, nothing, but for the error of reading the new row.
abbrev pub Meets :
    App → (Text → Option Octets) → CreateRequest → User → Db → Except Reply Reply → Db → Type 0
Meets app to_v4 r user before (ok answer) after = IsCreated app to_v4 r.body user before after
Meets app to_v4 r user before (err e) after =
    (after ≡ before) ⊎ (IsLate before e after × IsCreated app to_v4 r.body user before after)

module _ (app : App) (to_v4 : Text → Option Octets) (r : CreateRequest) (user : User)
    (before : Db) where
  abbrev answer : ℕ → Api Reply
  answer id = on_error server_error (load_vm_row id) >>= reread

module _ {F : Type 0} (float : Floats F) (to_v4 : Text → Option Octets)
    (parse_key : Text → Except Text (Text × Text)) (app : App) (draw : ℕ → Option ℕ)
    (r : CreateRequest) (user : User) (its_user : r.user ≡ ok user) where
  abbrev creation : Api ℕ
  creation = plan_and_allocate float to_v4 parse_key app draw r

  Ensures-creation :
      (d0 : Db) → Ensures (λ d. d ≡ d0) creation (Outcome app float to_v4 r.body user d0)
  unfolding plan_and_allocate
  Ensures-creation d0 =
      Ensures-bind _ _ (Ensures-plan_vm app d0 float to_v4 parse_key draw r user its_user) λ p.
        given λ plan. Ensures-in_tx _ _ (Ensures-allocate app float to_v4 r.body user d0 p plan)

  ReadOnly-reread : (row : Option Vm) → ReadOnly (reread row)
  ReadOnly-reread none = ReadOnly-fail _
  ReadOnly-reread (some vm) = ReadOnly-pure _

  ReadOnly-rest : (id : ℕ) → ReadOnly (on_error server_error (load_vm_row id) >>= reread)
  unfolding load_vm_row
  ReadOnly-rest id = ReadOnly-bind _ _ (ReadOnly-on_error _ _ (ReadOnly-query _)) ReadOnly-reread

  -- After an accepted request to create a VM what the user has, the new VM included, is within the
  -- user's quota: the number of VMs, the cores, the memory and the storage.
  pub handle_create_vm-quota :
      (s : Session Db) (answer : Reply)
      → (handle_create_vm float to_v4 parse_key app draw r s).0 ≡ ok answer
      → IsWithin
          (effective_quota app user)
          (user_vm_usage user.username (handle_create_vm float to_v4 parse_key app draw r s).1.db)
  unfolding handle_create_vm
  handle_create_vm-quota s answer h =
      (Ensures-bind _ _ (Ensures-creation s.db)
          λ id. Ensures-weaken (Ensures-reads _ _ (ReadOnly-rest id)) (λ a d x. x.1)).at
        s answer refl h
