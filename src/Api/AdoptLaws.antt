-- ===== src/Api/AdoptLaws.antt =====
-- What the adoption of a VM does to the tables: `handleAdminAdoptVM` of internal/api/vm_handlers.go.
use pve_manage.Prelude.{
  ℕ, ◌≡◌, refl, sym, ◌∙◌, Bool, true, false, not, Option, some, ◌==◌, find?, arith,
}
use mathlib.Core.Path.{subst}
use pve_manage.Text.{Text}
use pve_manage.Sql.{Session, Except}
use pve_manage.Sql.Atomic.{Atomic-in_tx, Atomic-with_now}
use pve_manage.Sql.Ensures.{Ensures, Ensures-then, Ensures-weaken, Ensures-with_now, Ensures-in_tx}
use pve_manage.Tables.{Db, Vm, update_where}
use pve_manage.Config.{App}
use pve_manage.Api.{Request}
use pve_manage.Api.Adoption.{AdoptBody, Adopted, trimmed}
use pve_manage.Api.Adopt.{adopt, commit_adoption, adopt_as, handle_admin_adopt_vm}
use pve_manage.Api.AdminLaws.{some_injective, Settles-request_admin}
use pve_manage.Api.Edits.{IsAdmin, Ensures-edit, Ensures-queue_task, Ensures-queue_task_if}
use pve_manage.Api.PatchRows.{IsQueued}
use pve_manage.Api.Patched.{ReadOnly-reread}
use pve_manage.Api.Settles.{
  AllOrNothing, Reread, Settles, Settles-reads, Settles-commits, Settles-require, Settles-parsed,
}
use pve_manage.Api.AdoptionFacts.{HasRoom, ReadOnly-plan_adoption, Needs-plan_adoption}

-- An administrator has given the VM to a user whose quota had room for it: the row is a managed one of
-- that user's with the address of the request, and tasks of the VM are queued.
pub record IsAdopted {B : Type 0} (app : App) (r : Request B) (id : ℕ) (req : AdoptBody)
    (before after : Db) : Type 0 where
  pub admin : IsAdmin r.user
  pub queued : IsQueued id before after
  pub found : Vm
  pub found_row : find? (λ v. v.id == id) before.vms ≡ some found
  pub unmanaged : found.managed ≡ false
  pub adopted : Adopted
  pub now : ℕ
  pub vms : after.vms ≡ update_where (λ v. v.id == id) (adopt found req adopted now) before.vms
  pub has_room : HasRoom app req before

module _ {B : Type 0} (app : App) (r : Request B) (before : Db) (vm : Vm) (admin : IsAdmin r.user)
    (row : find? (λ v. v.id == vm.id) before.vms ≡ some vm) (unmanaged : vm.managed ≡ false)
    (req : AdoptBody) where
  Ensures-commit_adoption :
      (a : Adopted) (now : ℕ)
      → HasRoom app req before
      → Ensures
          (λ d. d ≡ before)
          (commit_adoption vm req a now)
          (λ _. IsAdopted app r vm.id req before)
  unfolding commit_adoption
  Ensures-commit_adoption a now room =
      let f = adopt vm req a now in
      Ensures-weaken
        (Ensures-then _ _ (Ensures-edit vm.id f (λ v. refl) before) (
          Ensures-then _ _ (Ensures-queue_task vm.id f (λ v. refl) before _ _)
            (Ensures-queue_task_if vm.id f (λ v. refl) before _ _ _)))
        λ _ d h. record {
          admin = admin;
          queued = (h.0.patched, h.1);
          found = vm;
          found_row = row;
          unmanaged = unmanaged;
          adopted = a;
          now = now;
          vms = h.0.vms;
          has_room = room;
        }

  adopt_as-Settles :
      (parse_key : Text → Except Text (Text × Text)) (is_cidr : Text → Bool) (draw : ℕ → Option ℕ)
      → Settles before
          (Reread vm.id)
          (IsAdopted app r vm.id req before)
          (adopt_as app parse_key is_cidr draw vm req)
  unfolding adopt_as
  adopt_as-Settles parse_key is_cidr draw =
      let Q = IsAdopted app r vm.id req before in
      Settles-reads before (Reread vm.id) Q _ _ _
        (ReadOnly-plan_adoption app parse_key is_cidr draw vm req)
        (Needs-plan_adoption app parse_key is_cidr draw before vm req)
        λ a room.
          Settles-commits before (Reread vm.id) Q _ _ (Atomic-with_now _ (λ now. Atomic-in_tx _ _))
            (Ensures-with_now _ λ now. Ensures-in_tx _ _ (Ensures-commit_adoption a now room))
            (ReadOnly-reread vm.id) (λ t x h. (t, refl, h))

false_of_not : (b : Bool) → not b ≡ true → b ≡ false
false_of_not b h = ground arith

pub handle_admin_adopt_vm-IsAdopted :
    (app : App) (parse_key : Text → Except Text (Text × Text)) (is_cidr : Text → Bool)
    (draw : ℕ → Option ℕ) (r : Request AdoptBody) (id : ℕ) (body : AdoptBody) (s : Session Db)
    → r.id ≡ some id
    → r.body ≡ some body
    → AllOrNothing
        (Reread id)
        (IsAdopted app r id (trimmed body) s.db)
        s.db
        (handle_admin_adopt_vm app parse_key is_cidr draw r s).0
        (handle_admin_adopt_vm app parse_key is_cidr draw r s).1.db
unfolding handle_admin_adopt_vm
handle_admin_adopt_vm-IsAdopted app parse_key is_cidr draw r id body s its_id its_body =
    (Settles-request_admin r id s.db Reread (λ n. IsAdopted app r n (trimmed body) s.db) _ its_id
        λ user vm admin row.
          let Q = IsAdopted app r vm.id (trimmed body) s.db in
          Settles-require s.db (Reread vm.id) Q _ _ _ _ λ unmanaged.
            Settles-require s.db (Reread vm.id) Q _ _ _ _ λ pending.
              Settles-parsed s.db (Reread vm.id) Q _ _ _ λ b is_body.
                subst
                  (λ x.
                    Settles s.db (Reread vm.id) Q
                      (adopt_as app parse_key is_cidr draw vm (trimmed x)))
                  (some_injective (sym its_body ∙ is_body))
                  (adopt_as-Settles app r s.db vm admin row (false_of_not vm.managed unmanaged)
                    (trimmed body) parse_key is_cidr draw)).at
      s refl
