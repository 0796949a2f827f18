-- ===== src/Api/UsageLaws.antt =====
-- The usage of a user with a VM more: `listUserVMUsage` of internal/api/common.go.
use pve_manage.Prelude.{ℕ, suc, ◌≡◌, refl, sym, ◌∙◌, ap, true, List, [], ◌∷◌, ◌++◌, arith, filter}
use pve_manage.Prelude.Int.{pos, ◌+ℤ◌, ◌≤ℤ◌}
use pve_manage.Text.{Text, text_eq_refl}
use pve_manage.Json.{get}
use pve_manage.Tables.{Db, Vm}
use pve_manage.Tables.Laws.{filter-append}
use pve_manage.Config.{App, UserLimit}
use pve_manage.Api.Allocation.{Usage, usage_of, add_usage, no_usage, user_vm_usage, is_counted}
use pve_manage.Api.Create.{Plan, new_vm}
use pve_manage.Api.CreateOptions.{fits_quota}
use pve_manage.Api.CreateChecks.{CreateBody}

-- A usage that a quota allows.
pub record IsWithin (quota : UserLimit) (u : Usage) : Type 0 where
  pub number : pos u.count ≤ℤ quota.number
  pub cpu : u.cpu ≤ℤ quota.cpu
  pub memory : u.memory ≤ℤ quota.memory
  pub storage : u.storage ≤ℤ quota.storage

usage-append :
    (u : Usage) (xs : List Vm) (v : Vm)
    → usage_of u (xs ++ v ∷ []) ≡ add_usage v.config (usage_of u xs)
unfolding usage_of
usage-append u [] v = refl
usage-append u (x ∷ xs) v = usage-append (add_usage x.config u) xs v

module _ (p : Plan) (id vmid now : ℕ) (ip node : Text) where
  abbrev pub its_vm : Vm
  its_vm = new_vm p id vmid ip node now

  pub its_usage :
      (u : Usage)
      → add_usage its_vm.config u ≡ record {
        count = suc u.count;
        cpu = u.cpu +ℤ p.req.cpu_cores;
        memory = u.memory +ℤ p.req.memory_gb;
        storage = u.storage +ℤ p.req.disk_gb;
      }
  unfolding get
  its_usage u = refl

  counted : filter (is_counted p.user.username) (its_vm ∷ []) ≡ its_vm ∷ []
  counted = rw (text_eq_refl p.user.username) refl

  -- The usage of the owner with the new VM.
  pub usage-new_vm :
      (vms : List Vm) (db db' : Db)
      → db.vms ≡ vms
      → db'.vms ≡ vms ++ its_vm ∷ []
      → user_vm_usage p.user.username db'
        ≡ add_usage its_vm.config (user_vm_usage p.user.username db)
  unfolding user_vm_usage
  usage-new_vm vms db db' e h =
      ap (λ x. usage_of no_usage (filter (is_counted p.user.username) x)) h
      ∙ ap (usage_of no_usage) (
          filter-append (is_counted p.user.username) vms (its_vm ∷ [])
          ∙ ap (λ x. filter (is_counted p.user.username) vms ++ x) counted)
      ∙ usage-append no_usage (filter (is_counted p.user.username) vms) its_vm
      ∙ ap
          (λ x. add_usage its_vm.config (usage_of no_usage (filter (is_counted p.user.username) x)))
          (sym e)

pub room-IsWithin :
    (app : App) (quota : UserLimit) (used : Usage) (req : CreateBody)
    → fits_quota app quota used req ≡ true
    → IsWithin quota (record {
      count = suc used.count;
      cpu = used.cpu +ℤ req.cpu_cores;
      memory = used.memory +ℤ req.memory_gb;
      storage = used.storage +ℤ req.disk_gb;
    })
room-IsWithin app quota used req h = ground arith
