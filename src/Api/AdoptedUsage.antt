-- ===== src/Api/AdoptedUsage.antt =====
-- The quota after an adoption: `handleAdminAdoptVM` of internal/api/vm_handlers.go and
-- `listUserVMUsage` of internal/api/common.go.
use pve_manage.Prelude.{
  ℕ, suc, ◌≤◌, ◌≡◌, refl, sym, ◌∙◌, ap, Bool, true, false, Option, none, some, List, [], ◌∷◌, ◌==◌,
  find?, filter, length, inl, inr, Bool-cases, arith,
}
use mathlib.Core.Path.{subst}
use pve_manage.Prelude.Int.{ℤ, ◌+ℤ◌, int_laws}
use pve_manage.Text.{Text, text_eq, text_eq_refl}
use pve_manage.Json.{Column, get, int_from_or_zero}
use pve_manage.Sql.{Session, Except, ok, err}
use pve_manage.Tables.{Db, Vm, User, update_where}
use pve_manage.Config.{App, UserLimit}
use pve_manage.Api.{Reply, Request}
use pve_manage.Api.Allocation.{Usage, usage_of, add_usage, no_usage, user_vm_usage, is_counted}
use pve_manage.Api.UsageLaws.{IsWithin}
use pve_manage.Api.CreateOptions.{effective_quota}
use pve_manage.Api.Adoption.{AdoptBody, Adopted, trimmed, room_for}
use pve_manage.Api.Adopt.{adopt, handle_admin_adopt_vm}
use pve_manage.Api.AdminLaws.{some_injective}
use pve_manage.Api.AdoptLaws.{IsAdopted, handle_admin_adopt_vm-IsAdopted}
use pve_manage.Api.Settles.{AllOrNothing, Reread}

+ℤ_swap : (a b c : ℤ) → a +ℤ b +ℤ c ≡ a +ℤ c +ℤ b
+ℤ_swap a b c = grind int_laws

add_usage_swap :
    (c d : Column) (u : Usage) → add_usage c (add_usage d u) ≡ add_usage d (add_usage c u)
add_usage_swap none d u = refl
add_usage_swap (some c) none u = refl
add_usage_swap (some c) (some d) u = rw (
  +ℤ_swap u.cpu (int_from_or_zero d "cpu_cores") (int_from_or_zero c "cpu_cores"),
  +ℤ_swap u.memory (int_from_or_zero d "memory_gb") (int_from_or_zero c "memory_gb"),
  +ℤ_swap u.storage (int_from_or_zero d "disk_gb") (int_from_or_zero c "disk_gb"),
)

usage_of-add_usage :
    (c : Column) (u : Usage) (vms : List Vm)
    → usage_of (add_usage c u) vms ≡ add_usage c (usage_of u vms)
unfolding usage_of
usage_of-add_usage c u [] = refl
usage_of-add_usage c u (v ∷ vms) =
    ap (λ x. usage_of x vms) (add_usage_swap v.config c u)
    ∙ usage_of-add_usage c (add_usage v.config u) vms

module _ (id : ℕ) (f : Vm → Vm) (name : Text) where
  abbrev has_id : Vm → Bool
  has_id v = v.id == id

  update_none : (vms : List Vm) → filter has_id vms ≡ [] → update_where has_id f vms ≡ vms
  unfolding update_where
  update_none [] h = refl
  update_none (x ∷ xs) h = elim (Bool-cases (has_id x)) [
    | inl e ↦ absurd (cc (rw e at h))
    | inr e ↦ rw e (ap (λ ys. x ∷ ys) (update_none xs (rw e at h)))
  ]

  none_left : (x : Vm) (xs : List Vm) → length (x ∷ filter has_id xs) ≤ 1 → filter has_id xs ≡ []
  none_left x xs h = empty (filter has_id xs) (omega (arith, h))
    where
      empty : (ys : List Vm) → length ys ≤ 0 → ys ≡ []
      empty [] k = refl
      empty (y ∷ ys) k = absurd (omega (arith, k))

  edited_head :
      (u : Usage) (x : Vm) (xs : List Vm)
      → filter has_id xs ≡ []
      → has_id x ≡ true
      → is_counted name x ≡ false
      → is_counted name (f x) ≡ true
      → usage_of u (filter (is_counted name) (update_where has_id f (x ∷ xs)))
        ≡ add_usage (f x).config (usage_of u (filter (is_counted name) (x ∷ xs)))
  unfolding usage_of update_where
  edited_head u x xs only e before after =
      rw (e, update_none xs only, after, before)
        (usage_of-add_usage (f x).config u (filter (is_counted name) xs))

  -- A row that counts only after the update adds to the usage.
  usage-update_where :
      (u : Usage) (vms : List Vm) (vm : Vm)
      → length (filter has_id vms) ≤ 1
      → find? has_id vms ≡ some vm
      → is_counted name vm ≡ false
      → is_counted name (f vm) ≡ true
      → usage_of u (filter (is_counted name) (update_where has_id f vms))
        ≡ add_usage (f vm).config (usage_of u (filter (is_counted name) vms))
  unfolding usage_of update_where
  usage-update_where u [] vm one h before after = cc
  usage-update_where u (x ∷ xs) vm one h before after = elim (Bool-cases (has_id x)) [
    | inl e ↦
        subst
          (λ v.
            usage_of u (filter (is_counted name) (update_where has_id f (x ∷ xs)))
            ≡ add_usage (f v).config (usage_of u (filter (is_counted name) (x ∷ xs))))
          (same e)
          (edited_head u x xs (none_left x xs (rw e at one)) e
            (subst (λ v. is_counted name v ≡ false) (sym (same e)) before)
            (subst (λ v. is_counted name (f v) ≡ true) (sym (same e)) after))
    | inr e ↦ rw e (elim (Bool-cases (is_counted name x)) [
      | inl m ↦
          rw m
            (usage-update_where (add_usage x.config u) xs vm (rw e at one) (rw e at h) before after)
      | inr m ↦ rw m (usage-update_where u xs vm (rw e at one) (rw e at h) before after)
    ])
  ]
    where
      same : has_id x ≡ true → x ≡ vm
      same e = some_injective (rw e at h)

room_for-IsWithin :
    (quota : UserLimit) (used : Usage) (req : AdoptBody)
    → room_for quota used req ≡ true
    → IsWithin quota (record {
      count = suc used.count;
      cpu = used.cpu +ℤ req.cpu_cores;
      memory = used.memory +ℤ req.memory_gb;
      storage = used.storage +ℤ req.disk_gb;
    })
room_for-IsWithin quota used req h = ground arith

module _ (vm : Vm) (req : AdoptBody) (a : Adopted) (now : ℕ) where
  adopted_usage :
      (u : Usage)
      → add_usage (adopt vm req a now vm).config u ≡ record {
        count = suc u.count;
        cpu = u.cpu +ℤ req.cpu_cores;
        memory = u.memory +ℤ req.memory_gb;
        storage = u.storage +ℤ req.disk_gb;
      }
  unfolding get
  adopted_usage u = refl

  not_counted : vm.managed ≡ false → is_counted req.owner_username vm ≡ false
  not_counted h = ground arith

  then_counted : vm.deleted_at ≡ none → is_counted req.owner_username (adopt vm req a now vm) ≡ true
  then_counted h = rw (text_eq_refl req.owner_username, h)

-- The owner, whose usage is within the quota.
pub record IsWithinOwn (app : App) (name : Text) (before after : Db) : Type 0 where
  pub owner : User
  pub row : find? (λ u. text_eq u.username name) before.users ≡ some owner
  pub within : IsWithin (effective_quota app owner) (user_vm_usage name after)

accepted_as :
    (Late : Reply → Db → Type 0) (Q : Db → Type 0) (before after : Db) (answer : Reply)
    (result : Except Reply Reply)
    → result ≡ ok answer
    → AllOrNothing Late Q before result after
    → Q after
accepted_as Late Q before after answer (ok other) e h = h
accepted_as Late Q before after answer (err x) e h = cc

module _ {B : Type 0} (app : App) (r : Request B) (id : ℕ) (req : AdoptBody) (before after : Db)
    (vm : Vm) where
  within_own :
      IsAdopted app r id req before after
      → find? (λ v. v.id == id) before.vms ≡ some vm
      → vm.deleted_at ≡ none
      → length (filter (λ v. v.id == id) before.vms) ≤ 1
      → IsWithinOwn app req.owner_username before after
  unfolding user_vm_usage
  within_own g row alive one =
      let name = req.owner_username in
      let same : g.found ≡ vm = some_injective (sym g.found_row ∙ row) in
      let f = adopt g.found req g.adopted g.now in
      record {
        owner = g.has_room.owner;
        row = g.has_room.row;
        within =
            subst (IsWithin (effective_quota app g.has_room.owner))
              (sym (adopted_usage g.found req g.adopted g.now (user_vm_usage name before))
                ∙ sym (
                    usage-update_where id f name no_usage before.vms g.found one g.found_row
                      (not_counted g.found req g.adopted g.now g.unmanaged)
                      (then_counted g.found req g.adopted g.now
                        (ap (λ v. v.deleted_at) same ∙ alive)))
                ∙ ap (λ vms. usage_of no_usage (filter (is_counted name) vms)) (sym g.vms))
              (room_for-IsWithin (effective_quota app g.has_room.owner) (user_vm_usage name before)
                req g.has_room.room);
      }

-- After an accepted adoption of a VM that is not deleted, where no two VMs have its id, what the owner
-- has, that VM included, is within the owner's quota: the number of VMs, the cores, the memory and the
-- storage.
pub handle_admin_adopt_vm-quota :
    (app : App) (parse_key : Text → Except Text (Text × Text)) (is_cidr : Text → Bool)
    (draw : ℕ → Option ℕ) (r : Request AdoptBody) (id : ℕ) (body : AdoptBody) (s : Session Db)
    (vm : Vm) (answer : Reply)
    → r.id ≡ some id
    → r.body ≡ some body
    → find? (λ v. v.id == id) s.db.vms ≡ some vm
    → vm.deleted_at ≡ none
    → length (filter (λ v. v.id == id) s.db.vms) ≤ 1
    → (handle_admin_adopt_vm app parse_key is_cidr draw r s).0 ≡ ok answer
    → IsWithinOwn app
        (trimmed body).owner_username
        s.db
        (handle_admin_adopt_vm app parse_key is_cidr draw r s).1.db
handle_admin_adopt_vm-quota app parse_key is_cidr draw r id body s vm answer its_id its_body row
      alive one h =
    within_own app r id (trimmed body) s.db _ vm
      (accepted_as (Reread id) (IsAdopted app r id (trimmed body) s.db) s.db _ answer _ h
        (handle_admin_adopt_vm-IsAdopted app parse_key is_cidr draw r id body s its_id its_body))
      row alive one
