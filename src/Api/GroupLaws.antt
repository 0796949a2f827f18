-- ===== src/Api/GroupLaws.antt =====
-- The tables after the handlers on security groups: internal/api/security_handlers.go.
use mathlib.Core.Path.{subst}
use pve_manage.Prelude.{
  ℕ, ◌≡◌, refl, sym, ◌∙◌, ap, Bool, true, false, not, Option, List, [], ◌∷◌, arith, if◌then◌else◌,
  All, filter, length, ltb,
}
use pve_manage.Text.{Text}
use pve_manage.Sql.{Session, ok}
use pve_manage.Sql.Ensures.{
  Ensures, Ensures-exec, Ensures-query, Ensures-statement, Ensures-with_now, Ensures-bind,
  Ensures-then, Ensures-pure, Ensures-on_error, Ensures-in_tx, given,
}
use pve_manage.Tables.{Db, Task, SecurityGroup, SyncState, delete_where}
use pve_manage.Tables.Laws.{All-update_where_new}
use pve_manage.Config.{App}
use pve_manage.Api.{User, Reply}
use pve_manage.Api.Access.{ReadOnly-parsed}
use pve_manage.Api.Deletion.{Ensures-require}
use pve_manage.Api.Successful.{
  same, Ensures-reads, ReadOnly-accepted, Ensures-passed, Ensures-logged_in, for_user,
}
use pve_manage.Api.Rules.{Address}
use pve_manage.Api.Groups.{
  GroupRequest, is_group, uses_group, follows_group, delete_groups, update_groups, mark_followers,
  handle_patch_security_group, handle_delete_security_group,
}

cond_length :
    {A : Type 0} (b : Bool) (x : A) (xs : List A)
    → length (if b then x ∷ xs else xs) ≡ 0
    → (b ≡ false) × (length xs ≡ 0)
cond_length true x xs h = cc
cond_length false x xs h = (refl, h)

none_counted :
    {A : Type 0} (p : A → Bool) (xs : List A) → length (filter p xs) ≡ 0 → All (λ x. p x ≡ false) xs
none_counted p [] h = tt
none_counted p (x ∷ xs) h =
    let (e, k) = cond_length (p x) x (filter p xs) h in (e, none_counted p xs k)

All-unless :
    {A : Type 0} (P : A → Type 0) (b : Bool) (x : A) (xs : List A)
    → (b ≡ false → P x)
    → All P xs
    → All P (if not b then x ∷ xs else xs)
All-unless P true x xs h k = k
All-unless P false x xs h k = (h refl, k)

delete_where-All :
    {A : Type 0} (p : A → Bool) (xs : List A) → All (λ x. p x ≡ false) (delete_where p xs)
unfolding delete_where
delete_where-All p [] = tt
delete_where-All p (x ∷ xs) =
    All-unless (λ x. p x ≡ false) (p x) x (delete_where p xs) (λ e. e) (delete_where-All p xs)

-- No VM that is not deleted uses the group, and the group is not there.
pub record IsGone (owner name : Text) (db : Db) : Type 0 where
  pub unused : All (λ v. uses_group owner name v ≡ false) db.vms
  pub absent : All (λ g. is_group owner name g ≡ false) db.security_groups

abbrev IsUnused : Text → Text → Db → Type 0
IsUnused owner name db = All (λ v. uses_group owner name v ≡ false) db.vms

not_positive : (n : ℕ) → not (ltb 0 n) ≡ true → n ≡ 0
not_positive n h = ground arith

deleted-IsGone :
    (owner name : Text) (d : Db) (n : ℕ) (d' : Db)
    → IsUnused owner name d
    → delete_groups owner name d ≡ ok (n, d')
    → IsGone owner name d'
deleted-IsGone owner name d n d' h e =
    subst (IsGone owner name) (ap (λ x. x.1) (same e))
      (record { unused = h; absent = delete_where-All (is_group owner name) d.security_groups })

module _ (r : GroupRequest) (user : User) (its_user : r.user ≡ ok user) where
  Ensures-delete :
      Ensures (λ _. Unit {0}) (handle_delete_security_group r) (λ _. IsGone user.username r.name)
  unfolding handle_delete_security_group
  Ensures-delete = Ensures-bind _ _ (Ensures-logged_in (λ _. Unit {0}) r.user user its_user) λ u.
      given λ e.
        for_user (λ x. IsGone x.username r.name) e
          (Ensures-bind
            {R = λ count db. count ≡ length (filter (uses_group u.username r.name) db.vms)} _ _
            (Ensures-on_error _ _ (Ensures-query _ λ db _. refl))
            λ count.
              Ensures-then {R = IsUnused u.username r.name} _ _
                (Ensures-passed _ _ _ λ d k p.
                  none_counted (uses_group u.username r.name) d.vms (sym k ∙ not_positive count p))
                (Ensures-bind {R = λ _. IsGone u.username r.name} _ _
                  (Ensures-on_error _ _ (Ensures-statement _ (deleted-IsGone u.username r.name)))
                  λ affected.
                    Ensures-then _ _ (Ensures-require _ _ _ _) (Ensures-pure _ (λ d h. h))))

  -- After an accepted deletion of a security group the owner has no group of that name, and no VM
  -- of the owner's that is not deleted uses one.
  pub handle_delete_security_group-IsGone :
      (s : Session Db) (answer : Reply)
      → (handle_delete_security_group r s).0 ≡ ok answer
      → IsGone user.username r.name (handle_delete_security_group r s).1.db
  handle_delete_security_group-IsGone s answer h = Ensures-delete.at s answer tt h

module _ (owner name : Text) (ts : List Task) where
  -- The VMs that the group is for wait for a synchronisation; the queue is `ts`.
  pub record IsMarked (db : Db) : Type 0 where
    pub marked :
        All (λ v. follows_group owner name v ≡ true → v.sync_state ≡ SyncState.pending) db.vms
    pub queue : db.vm_tasks ≡ ts

  mark-IsMarked :
      (now : ℕ) (db : Db) → db.vm_tasks ≡ ts → IsMarked (mark_followers owner name now db)
  mark-IsMarked now db h = record {
    marked = All-update_where_new _ _ _ db.vms (λ v _ _. refl) (λ v e k. impossible e k);
    queue = h;
  }
    where
      impossible : {C : Type 0} {b : Bool} → b ≡ false → b ≡ true → C
      impossible e k = cc

patched-queue :
    (owner name : Text) (f : SecurityGroup → SecurityGroup) (ts : List Task) (d : Db) (n : ℕ)
    (d' : Db)
    → d.vm_tasks ≡ ts
    → update_groups owner name f d ≡ ok (n, d')
    → d'.vm_tasks ≡ ts
patched-queue owner name f ts d n d' h e = sym (ap (λ x. x.1.vm_tasks) (same e)) ∙ h

module _ (app : App) (parse_ip parse_cidr : Text → Option Address) (r : GroupRequest) (user : User)
    (its_user : r.user ≡ ok user) where
  Ensures-patch :
      (ts : List Task)
      → Ensures
          (λ db. db.vm_tasks ≡ ts)
          (handle_patch_security_group app parse_ip parse_cidr r)
          (λ _. IsMarked user.username r.name ts)
  unfolding handle_patch_security_group
  Ensures-patch ts =
      Ensures-bind _ _ (Ensures-logged_in (λ db. db.vm_tasks ≡ ts) r.user user its_user) λ u.
        given λ e.
          for_user (λ x. IsMarked x.username r.name ts) e
            (Ensures-bind _ _ (Ensures-reads _ _ (ReadOnly-parsed r.body _)) λ req.
              Ensures-then _ _ (Ensures-require _ _ _ _) (
                Ensures-bind _ _ (Ensures-reads _ _ (ReadOnly-accepted _)) λ rules.
                  Ensures-bind _ _ (Ensures-reads _ _ (ReadOnly-accepted _)) λ policies.
                    Ensures-then _ _
                      (Ensures-with_now _ λ now. Ensures-in_tx _ _ (
                        Ensures-bind {R = λ _ db. db.vm_tasks ≡ ts} _ _
                          (Ensures-on_error _ _
                            (Ensures-statement _ (patched-queue u.username r.name _ ts)))
                          λ affected. Ensures-then _ _ (Ensures-require _ _ _ _) (
                            Ensures-on_error _ _
                              (Ensures-exec _ (mark-IsMarked u.username r.name ts now)))))
                      (Ensures-pure _ (λ d h. h))))

  -- An accepted change of a security group marks every managed VM of the owner's that uses the group,
  -- is not deleted and is not being deleted as waiting for a synchronisation, and leaves the queue of
  -- tasks as it is: it queues no task for these VMs.
  pub handle_patch_security_group-IsMarked :
      (s : Session Db) (answer : Reply)
      → (handle_patch_security_group app parse_ip parse_cidr r s).0 ≡ ok answer
      → IsMarked user.username r.name s.db.vm_tasks
          (handle_patch_security_group app parse_ip parse_cidr r s).1.db
  handle_patch_security_group-IsMarked s answer h = (Ensures-patch s.db.vm_tasks).at s answer refl h
