-- ===== src/Api/Quota.antt =====
-- The quota of security groups: `handleCreateSecurityGroup` of internal/api/security_handlers.go.
use mathlib.Core.Path.{subst}
use pve_manage.Prelude.{
  ℕ, ◌+◌, ◌≡◌, refl, ◌∙◌, ap, Bool, true, false, not, Option, List, [], ◌∷◌, ◌++◌, arith,
  if◌then◌else◌, filter, length,
}
use pve_manage.Prelude.Int.{pos, ◌≤ℤ◌, ltb_ℤ}
use pve_manage.Text.{Text, text_eq, text_eq_refl}
use pve_manage.Sql.{Session, Except, ok, err}
use pve_manage.Sql.Ensures.{
  Ensures, Ensures-query, Ensures-statement, Ensures-with_now, Ensures-bind, Ensures-then,
  Ensures-pure, Ensures-on_error, given,
}
use pve_manage.Tables.{Db, SecurityGroup}
use pve_manage.Tables.Laws.{filter-append}
use pve_manage.Config.{App}
use pve_manage.Api.{User, Reply}
use pve_manage.Api.Access.{ReadOnly-parsed}
use pve_manage.Api.Deletion.{Ensures-require}
use pve_manage.Api.Successful.{
  same, Ensures-reads, ReadOnly-accepted, Ensures-passed, Ensures-logged_in, for_user,
}
use pve_manage.Api.Rules.{Address}
use pve_manage.Api.Groups.{
  GroupRequest, group_quota, count_user_security_groups, insert_group, handle_create_security_group,
}

module _ (app : App) (user : User) where
  abbrev HasRoom : Db → Type 0
  HasRoom db = pos (count_user_security_groups user.username db + 1) ≤ℤ group_quota app user

  has_room :
      (count : ℕ) (d : Db)
      → count ≡ count_user_security_groups user.username d
      → not (ltb_ℤ (group_quota app user) (pos (count + 1))) ≡ true
      → HasRoom d
  has_room count d e h = ground arith

length-append_one : {A : Type 0} (xs : List A) (x : A) → length (xs ++ x ∷ []) ≡ length xs + 1
length-append_one [] x = refl
length-append_one (y ∷ xs) x = ground (arith, length-append_one xs x)

count-insert :
    (g : SecurityGroup) (d : Db)
    → count_user_security_groups g.owner_username
        (record d { security_groups = d.security_groups ++ g ∷ [] })
      ≡ count_user_security_groups g.owner_username d + 1
unfolding count_user_security_groups
count-insert g d =
    ap length
      (filter-append (λ h. text_eq h.owner_username g.owner_username) d.security_groups (g ∷ []))
    ∙ rw (text_eq_refl g.owner_username) (
        length-append_one
          (filter (λ h. text_eq h.owner_username g.owner_username) d.security_groups) g)

added :
    (b : Bool) (e : Text) (d d' : Db) (done : Unit {0})
    → ◌≡◌ {A = Except Text (Unit {0} × Db)} (if b then err e else ok (tt, d)) (ok (done, d'))
    → d ≡ d'
added true e d d' done h = cc
added false e d d' done h = ap (λ x. x.1) (same h)

module _ (app : App) (user : User) where
  inserted :
      (g : SecurityGroup) (d d' : Db) (done : Unit {0})
      → g.owner_username ≡ user.username
      → HasRoom app user d
      → insert_group g d ≡ ok (done, d')
      → pos (count_user_security_groups user.username d') ≤ℤ group_quota app user
  inserted g d d' done e h k =
      subst (λ x. pos (count_user_security_groups user.username x) ≤ℤ group_quota app user)
        (added _ _ (record d { security_groups = d.security_groups ++ g ∷ [] }) d' done k)
        (rw (grown g d e) h)
    where
      grown :
          (g : SecurityGroup) (d : Db)
          → g.owner_username ≡ user.username
          → count_user_security_groups user.username
              (record d { security_groups = d.security_groups ++ g ∷ [] })
            ≡ count_user_security_groups user.username d + 1
      grown g d e =
          subst
            (λ o.
              count_user_security_groups o
                (record d { security_groups = d.security_groups ++ g ∷ [] })
              ≡ count_user_security_groups o d + 1)
            e (count-insert g d)

module _ (app : App) (parse_ip parse_cidr : Text → Option Address) (r : GroupRequest) (user : User)
    (its_user : r.user ≡ ok user) where
  Ensures-create :
      Ensures
        (λ _. Unit {0})
        (handle_create_security_group app parse_ip parse_cidr r)
        (λ _ db. pos (count_user_security_groups user.username db) ≤ℤ group_quota app user)
  unfolding handle_create_security_group
  Ensures-create = Ensures-bind _ _ (Ensures-logged_in (λ _. Unit {0}) r.user user its_user) λ u.
      given λ e.
        for_user (λ x db. pos (count_user_security_groups x.username db) ≤ℤ group_quota app x) e
          (Ensures-bind _ _ (Ensures-reads _ _ (ReadOnly-parsed r.body _)) λ req.
            Ensures-then _ _ (Ensures-require _ _ _ _) (
              Ensures-then _ _ (Ensures-require _ _ _ _) (
                Ensures-bind {R = λ count db. count ≡ count_user_security_groups u.username db} _ _
                  (Ensures-on_error _ _ (Ensures-query _ λ db _. refl))
                  λ count.
                    Ensures-then {R = HasRoom app u} _ _
                      (Ensures-passed _ _ _ λ d k p. has_room app u count d k p)
                      (Ensures-bind _ _ (Ensures-reads _ _ (ReadOnly-accepted _)) λ rules.
                        Ensures-bind _ _ (Ensures-reads _ _ (ReadOnly-accepted _)) λ policies.
                          Ensures-then _ _
                            (Ensures-with_now _ λ now. Ensures-on_error _ _ (
                              Ensures-statement _ (λ d b d' k q. inserted app u _ d d' b refl k q)))
                            (Ensures-pure _ (λ d h. h))))))

  -- After an accepted creation of a security group the owner has no more groups than their quota.
  pub handle_create_security_group-quota :
      (s : Session Db) (answer : Reply)
      → (handle_create_security_group app parse_ip parse_cidr r s).0 ≡ ok answer
      → pos (
          count_user_security_groups user.username
            (handle_create_security_group app parse_ip parse_cidr r s).1.db)
        ≤ℤ group_quota app user
  handle_create_security_group-quota s answer h = Ensures-create.at s answer tt h
