-- ===== src/Api/AdminLaws.antt =====
-- What the administrators' changes of one VM do to the tables: `handleAdminPatchVM` and
-- `handleAdminSetQuotaExempt` of internal/api/template_handlers.go.
use mathlib.Core.Path.{subst}
use pve_manage.Prelude.{
  ℕ, ◌≡◌, refl, sym, ◌∙◌, ap, Bool, true, false, Option, some, List, [], ◌∷◌, ◌==◌, filter, find?,
  length, arith,
}
use pve_manage.Text.{Text}
use pve_manage.Sql.{Session, ◌>>=◌}
use pve_manage.Sql.Atomic.{
  ReadOnly-pure, ReadOnly-query, ReadOnly-on_error, Atomic-in_tx, Atomic-with_now,
}
use pve_manage.Sql.Ensures.{Ensures, Ensures-then, Ensures-weaken, Ensures-with_now, Ensures-in_tx}
use pve_manage.Tables.{Db, Vm, User}
use pve_manage.Config.{App}
use pve_manage.Api.{Api, Reply, Request}
use pve_manage.Api.Authority.{Needs-query}
use pve_manage.Api.Admin.{
  request_admin, takes_ip, conflicts, readdress, commit_address, set_address, handle_admin_patch_vm,
}
use pve_manage.Api.Edits.{
  IsRequestedVm, IsAdmin, ReadOnly-request_admin, Needs-request_admin, Ensures-edit,
  Ensures-queue_task, Ensures-queue_task_if, find-update_where, filter-update_apart,
}
use pve_manage.Api.PatchRows.{IsQueued, found_id}
use pve_manage.Api.Settles.{
  AllOrNothing, Never, never_late, Settles, Settles-reads, Settles-commits, Settles-require,
  Settles-parsed,
}

-- An administrator has given the VM an address that no other VM of its cluster has, and tasks of the
-- VM are queued for it.
pub record IsReaddressed {B : Type 0} (r : Request B) (id : ℕ) (ip : Text) (before after : Db)
    : Type 0 where
  pub admin : IsAdmin r.user
  pub queued : IsQueued id before after
  pub vm : Vm
  pub row : find? (λ v. v.id == id) after.vms ≡ some vm
  pub address : vm.ip ≡ ip
  pub alone : filter (takes_ip vm.cluster_key ip id) after.vms ≡ []

none_of : {A : Type 0} (xs : List A) → (length xs == 0) ≡ true → xs ≡ []
none_of [] h = refl
none_of (x ∷ xs) h = ground arith

own_row :
    (cluster_key ip : Text) (id : ℕ) (v : Vm)
    → (v.id == id) ≡ true
    → takes_ip cluster_key ip id v ≡ false
own_row cluster_key ip id v h = ground arith

module _ {B : Type 0} (r : Request B) (before : Db) (vm : Vm) (admin : IsAdmin r.user)
    (row : find? (λ v. v.id == vm.id) before.vms ≡ some vm) where
  Ensures-commit_address :
      (ip gateway : Text) (now : ℕ)
      → (conflicts vm.cluster_key ip vm.id before == 0) ≡ true
      → Ensures
          (λ d. d ≡ before)
          (commit_address vm ip gateway now)
          (λ _. IsReaddressed r vm.id ip before)
  unfolding commit_address conflicts
  Ensures-commit_address ip gateway now free =
      let f = readdress vm ip gateway now in
      let takes = takes_ip vm.cluster_key ip vm.id in
      Ensures-weaken
        (Ensures-then _ _ (Ensures-edit vm.id f (λ v. refl) before) (
          Ensures-then _ _ (Ensures-queue_task vm.id f (λ v. refl) before _ _)
            (Ensures-queue_task_if vm.id f (λ v. refl) before _ _ _)))
        λ _ d h. record {
          admin = admin;
          queued = (h.0.patched, h.1);
          vm = f vm;
          row =
              ap (find? (λ v. v.id == vm.id)) h.0.vms
              ∙ find-update_where vm.id f before.vms vm (λ v. refl) row;
          address = refl;
          alone =
              ap (filter takes) h.0.vms
              ∙ filter-update_apart (λ v. v.id == vm.id) takes f before.vms
                  (own_row vm.cluster_key ip vm.id) (λ v. own_row vm.cluster_key ip vm.id (f v))
              ∙ none_of (filter takes before.vms) free;
        }

  set_address-Settles :
      (app : App) (is_cidr : Text → Bool) (ip : Text)
      → Settles before Never (IsReaddressed r vm.id ip before) (set_address app is_cidr vm ip)
  unfolding set_address
  set_address-Settles app is_cidr ip =
      let Q = IsReaddressed r vm.id ip before in
      Settles-require before Never Q _ _ _ _ λ given_ip.
        Settles-parsed before Never Q _ _ _ λ cluster known.
          Settles-parsed before Never Q _ _ _ λ bridge its_bridge.
            Settles-require before Never Q _ _ _ _ λ cidr.
              Settles-reads before Never Q _ _ _ (ReadOnly-on_error _ _ (ReadOnly-query _))
                (Needs-query before _)
                λ n count. Settles-require before Never Q _ _ _ _ λ free.
                  Settles-commits before Never Q _ _ (Atomic-with_now _ (λ now. Atomic-in_tx _ _))
                    (Ensures-with_now _ λ now. Ensures-in_tx _ _ (
                      Ensures-commit_address ip bridge.ipv4.gateway now
                        (ap (λ k. k == 0) (sym count) ∙ free)))
                    (ReadOnly-pure _) (λ s x h. never_late _ x h)

pub some_injective : {A : Type 0} {a b : A} → ◌≡◌ {A = Option A} (some a) (some b) → a ≡ b
some_injective h = cc

-- The head of the handlers, and what follows for the VM that it finds.
pub Settles-request_admin :
    {B : Type 0} (r : Request B) (id : ℕ) (before : Db) (Late : ℕ → Reply → Db → Type 0)
    (Q : ℕ → Db → Type 0) (f : User × Vm → Api Reply)
    → r.id ≡ some id
    → ((user : User) (vm : Vm)
        → IsAdmin r.user
        → find? (λ v. v.id == vm.id) before.vms ≡ some vm
        → Settles before (Late vm.id) (Q vm.id) (f (user, vm)))
    → Settles before (Late id) (Q id) (request_admin r >>= f)
Settles-request_admin r id before Late Q f its_id step =
    Settles-reads before (Late id) (Q id) (IsRequestedVm before r) _ _ (ReadOnly-request_admin r)
      (Needs-request_admin before r)
      λ (user, vm) (admin, n, is_n, row).
        let same : vm.id ≡ id = found_id n before.vms vm row ∙ some_injective (sym is_n ∙ its_id) in
        let own : n ≡ vm.id = sym (found_id n before.vms vm row) in
        subst (λ k. Settles before (Late k) (Q k) (f (user, vm))) same
          (step user vm admin (subst (λ k. find? (λ v. v.id == k) before.vms ≡ some vm) own row))

-- An administrator's change of an address is all or nothing. Accepted, the caller is an
-- administrator, the VM has the address, no other VM of its cluster that is not deleted has it, and
-- tasks of the VM, one at least, are queued, with the other VMs, tasks, groups, keys and users as they
-- were. Refused, it has changed nothing.
pub handle_admin_patch_vm-IsReaddressed :
    (app : App) (is_cidr : Text → Bool) (r : Request Text) (id : ℕ) (ip : Text) (s : Session Db)
    → r.id ≡ some id
    → r.body ≡ some ip
    → AllOrNothing Never
        (IsReaddressed r id ip s.db)
        s.db
        (handle_admin_patch_vm app is_cidr r s).0
        (handle_admin_patch_vm app is_cidr r s).1.db
unfolding handle_admin_patch_vm
handle_admin_patch_vm-IsReaddressed app is_cidr r id ip s its_id its_ip =
    (Settles-request_admin r id s.db (λ _. Never) (λ n. IsReaddressed r n ip s.db) _ its_id
        λ user vm admin row.
          let Q = IsReaddressed r vm.id ip s.db in
          Settles-require s.db Never Q _ _ _ _ λ managed.
            Settles-require s.db Never Q _ _ _ _ λ pending.
              Settles-parsed s.db Never Q _ _ _ λ body its_body.
                subst (λ a. Settles s.db Never Q (set_address app is_cidr vm a))
                  (some_injective (sym its_ip ∙ its_body))
                  (set_address-Settles r s.db vm admin row app is_cidr ip)).at
      s refl
