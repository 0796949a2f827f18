-- ===== src/Api/ExemptLaws.antt =====
-- What an exemption from the quota does to the tables: `handleAdminSetQuotaExempt` of
-- internal/api/template_handlers.go.
use pve_manage.Prelude.{
  ℕ, ◌≡◌, ◌≢◌, refl, sym, ◌∙◌, ap, ◌⊎◌, inl, inr, Bool, true, false, some, [], ◌∷◌, ◌==◌, find?,
  arith, if◌then◌else◌,
}
use mathlib.Core.Path.{subst}
use pve_manage.Sql.{Session, pure}
use pve_manage.Sql.Atomic.{Atomic-in_tx, Atomic-with_now}
use pve_manage.Sql.Ensures.{
  Ensures, Ensures-then, Ensures-weaken, Ensures-with_now, Ensures-in_tx, Ensures-pure,
}
use pve_manage.Tables.{Db, Vm}
use pve_manage.Json.{bool}
use pve_manage.Tables.{apply}
use pve_manage.Api.{reply, Body, Request}
use pve_manage.Api.Admin.{
  same_bool, reexempt, queue_task_if, commit_exemption, set_exemption,
  handle_admin_set_quota_exempt,
}
use pve_manage.Api.AdminLaws.{some_injective, Settles-request_admin}
use pve_manage.Api.Edits.{IsAdmin, IsEdited, Ensures-edit, Ensures-queue_task, find-update_where}
use pve_manage.Api.PatchRows.{IsPatched, unchanged}
use pve_manage.Api.Patched.{ReadOnly-reread}
use pve_manage.Api.Settles.{
  AllOrNothing, Reread, Settles, Settles-commits, Settles-require, Settles-parsed, Settles-pure,
}

-- The exemption is as the administrator has said; where the row is another one and the program
-- manages the VM, a task of the VM is queued.
pub record IsExempted {B : Type 0} (r : Request B) (id : ℕ) (exempt : Bool) (before after : Db)
    : Type 0 where
  pub admin : IsAdmin r.user
  pub patched : IsPatched id before after
  pub vm : Vm
  pub row : find? (λ v. v.id == id) after.vms ≡ some vm
  pub exemption : vm.quota_exempt ≡ exempt
  pub told : (after ≡ before) ⊎ ((vm.managed ≡ false) ⊎ (patched.added ≢ []))

same_bool→eq : (a b : Bool) → same_bool a b ≡ true → a ≡ b
same_bool→eq a b h = ground arith

module _ {B : Type 0} (r : Request B) (before : Db) (vm : Vm) (admin : IsAdmin r.user)
    (row : find? (λ v. v.id == vm.id) before.vms ≡ some vm) (exempt : Bool) where
  abbrev Q : Db → Type 0
  Q d = IsExempted r vm.id exempt before d

  exempted :
      (now : ℕ) (d : Db) (h : IsEdited vm.id (reexempt vm exempt now) before d)
      → (vm.managed ≡ false) ⊎ (h.patched.added ≢ [])
      → Q d
  exempted now d h told =
      let f = reexempt vm exempt now in
      record {
        admin = admin;
        patched = h.patched;
        vm = f vm;
        row =
            ap (find? (λ v. v.id == vm.id)) h.vms
            ∙ find-update_where vm.id f before.vms vm (λ v. refl) row;
        exemption = refl;
        told = inr told;
      }

  Ensures-told :
      (managed : Bool) (now : ℕ)
      → managed ≡ vm.managed
      → Ensures
          (IsEdited vm.id (reexempt vm exempt now) before)
          (queue_task_if managed vm.id apply (("quota_exempt", bool exempt) ∷ []))
          (λ _. Q)
  Ensures-told true now e =
      Ensures-weaken (Ensures-queue_task vm.id (reexempt vm exempt now) (λ v. refl) before _ _)
        λ _ d h. exempted now d h.0 (inr h.1)
  Ensures-told false now e = Ensures-pure tt (λ d h. exempted now d h (inl (sym e)))

  set_exemption-Settles : Settles before (Reread vm.id) Q (set_exemption vm exempt)
  unfolding set_exemption commit_exemption
  set_exemption-Settles =
      Settles-commits before (Reread vm.id) Q _ _ (Atomic-with_now _ (λ now. Atomic-in_tx _ _))
        (Ensures-with_now _ λ now. Ensures-in_tx _ _ (
          Ensures-then _ _ (Ensures-edit vm.id (reexempt vm exempt now) (λ v. refl) before)
            (Ensures-told vm.managed now refl)))
        (ReadOnly-reread vm.id) (λ t x h. (t, refl, h))

  unless_same :
      (same : Bool)
      → same ≡ same_bool vm.quota_exempt exempt
      → Settles before
          (Reread vm.id)
          Q
          (if same then pure (reply 200 Body.done) else set_exemption vm exempt)
  unless_same false e = set_exemption-Settles
  unless_same true e = Settles-pure before (Reread vm.id) Q _ (record {
    admin = admin;
    patched = unchanged vm.id before before refl;
    vm = vm;
    row = row;
    exemption = same_bool→eq vm.quota_exempt exempt (sym e);
    told = inl refl;
  })

-- An administrator's exemption of a VM from its owner's quota is all or nothing. Accepted, the caller
-- is an administrator, the VM is exempt just if the request says so, and the other VMs, the tasks
-- there were, the groups, keys and users are as they were; where the tables have changed and the
-- program manages the VM, a task of the VM is queued. Refused, it has changed nothing, unless the answer is
-- the error of the reading of the row after the transaction, and then it has done the same.
pub handle_admin_set_quota_exempt-IsExempted :
    (r : Request Bool) (id : ℕ) (exempt : Bool) (s : Session Db)
    → r.id ≡ some id
    → r.body ≡ some exempt
    → AllOrNothing
        (Reread id)
        (IsExempted r id exempt s.db)
        s.db
        (handle_admin_set_quota_exempt r s).0
        (handle_admin_set_quota_exempt r s).1.db
unfolding handle_admin_set_quota_exempt
handle_admin_set_quota_exempt-IsExempted r id exempt s its_id its_body =
    (Settles-request_admin r id s.db Reread (λ n. IsExempted r n exempt s.db) _ its_id
        λ user vm admin row.
          let P = IsExempted r vm.id exempt s.db in
          Settles-require s.db (Reread vm.id) P _ _ _ _ λ pending.
            Settles-parsed s.db (Reread vm.id) P _ _ _ λ body is_body.
              subst
                (λ b. Settles s.db (Reread vm.id) P (
                  if same_bool vm.quota_exempt b
                  then pure (reply 200 Body.done)
                  else set_exemption vm b))
                (some_injective (sym its_body ∙ is_body))
                (unless_same r s.db vm admin row exempt (same_bool vm.quota_exempt exempt) refl)).at
      s refl
