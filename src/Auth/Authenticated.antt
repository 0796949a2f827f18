-- ===== src/Auth/Authenticated.antt =====
-- Who may change a VM, from the cookie on: `CurrentUser` of internal/auth/auth.go before the handlers
-- of internal/api/vm_handlers.go.
use pve_manage.Prelude.{
  ◌≡◌, refl, sym, ap, ◌∙◌, ◌⊎◌, inl, inr, Bool, true, ◌&&◌, Option, none, some, List, [], ◌∷◌,
  find?, Bool-cases, and_left,
}
use mathlib.Core.Path.{subst}
use pve_manage.Text.{Text, text_eq_iff, codes}
use pve_manage.Sql.{
  Session, Except, ok, continue, outcome, next_fault, tick, query, with_now, ◌>>=◌,
}
use pve_manage.Sql.Ensures.{ok_injective}
use pve_manage.Tables.{Db, User}
use pve_manage.Config.{lookup}
use pve_manage.Api.Access.{
  VmRequest, power, delete, restore, delete_now, pause, resume, retry, handle,
}
use pve_manage.Api.AdminLaws.{some_injective}
use pve_manage.Api.Authority.{IsAuthorized, user_of, handle_unauthorized_unchanged}
use pve_manage.Auth.Cookies.{verify_signed_cookie}
use pve_manage.Auth.Handlers.{Manager, HttpRequest, some_or, non_empty, has_name, current_user}
use pve_manage.Auth.Genuine.{IsSigned, verify_signed_cookie-IsSigned}
use pve_manage.Auth.Granted.{non_empty_same}

-- The request has a session's cookie, signed with the secret and not expired, of an active user of
-- the tables.
pub record IsSession (m : Manager) (r : HttpRequest) (s : Session Db) (user : User) : Type 0 where
  pub cookie : Text
  pub sent : lookup m.cfg.oidc.cookie_name r.cookies ≡ some cookie
  pub signed : IsSigned m.codec s.now cookie m.secret user.username
  pub row : find? (λ u. has_name user.username u && u.is_active) s.db.users ≡ some user

find_true : {A : Type 0} (p : A → Bool) (xs : List A) (a : A) → find? p xs ≡ some a → p a ≡ true
find_true p [] a h = cc
find_true p (x ∷ xs) a h = elim (Bool-cases (p x)) [
  | inl e ↦ subst (λ y. p y ≡ true) (some_injective (rw e at h)) e
  | inr e ↦ find_true p xs a (rw e at h)
]

module _ (m : Manager) (r : HttpRequest) (s : Session Db) (user : User) where
  abbrev its_row : Text → Db → Option User
  its_row username d = find? (λ u. has_name username u && u.is_active) d.users

  of_row :
      (cookie username : Text) (fault : Option Text) (row : Option User)
      → lookup m.cfg.oidc.cookie_name r.cookies ≡ some cookie
      → verify_signed_cookie m.codec s.now cookie m.secret ≡ some username
      → its_row username s.db ≡ row
      → (continue (outcome fault row, tick s) (some_or (codes "sql: no rows in result set"))).0
        ≡ ok user
      → IsSession m r s user
  unfolding some_or
  of_row cookie username (some x) row sent verified e h = cc
  of_row cookie username none none sent verified e h = cc
  of_row cookie username none (some u) sent verified e h =
      let same : u ≡ user = ok_injective h in
      let row : its_row username s.db ≡ some user = e ∙ ap some same in
      let name : user.username ≡ username =
        (text_eq_iff user.username username).0 (and_left _ _ (find_true _ s.db.users user row)) in
      record {
        cookie = cookie;
        sent = sent;
        signed =
            verify_signed_cookie-IsSigned m.codec s.now cookie m.secret user.username
              (verified ∙ ap some (sym name));
        row = subst (λ n. its_row n s.db ≡ some user) (sym name) row;
      }

  of_verified :
      (cookie : Text) (o : Option Text)
      → lookup m.cfg.oidc.cookie_name r.cookies ≡ some cookie
      → non_empty (verify_signed_cookie m.codec s.now cookie m.secret) ≡ o
      → (continue
          (some_or (codes "invalid session") o s)
          λ username. query (its_row username) >>= some_or (codes "sql: no rows in result set")).0
        ≡ ok user
      → IsSession m r s user
  unfolding some_or query ◌>>=◌
  of_verified cookie none sent e h = cc
  of_verified cookie (some username) sent e h =
      of_row cookie username (next_fault s.faults) (its_row username s.db) sent
        (non_empty_same _ username e) refl h

  of_cookie :
      (o : Option Text)
      → lookup m.cfg.oidc.cookie_name r.cookies ≡ o
      → (continue (some_or (codes "missing session") o s) λ cookie.
          (with_now λ now.
            some_or
              (codes "invalid session")
              (non_empty (verify_signed_cookie m.codec now cookie m.secret)))
          >>= λ username.
              query (its_row username) >>= some_or (codes "sql: no rows in result set")).0
        ≡ ok user
      → IsSession m r s user
  unfolding some_or with_now ◌>>=◌
  of_cookie none e h = cc
  of_cookie (some cookie) e h =
      of_verified cookie (non_empty (verify_signed_cookie m.codec s.now cookie m.secret)) e refl h

  pub current_user-IsSession : (current_user m r s).0 ≡ ok user → IsSession m r s user
  unfolding current_user ◌>>=◌
  current_user-IsSession h = of_cookie (lookup m.cfg.oidc.cookie_name r.cookies) refl h

-- The request on a VM, as the user of the session makes it.
abbrev pub as_user : Except Text User → VmRequest → VmRequest
as_user u (power r) = power (record r { user = u })
as_user u (delete r) = delete (record r { user = u })
as_user u (restore r) = restore (record r { user = u })
as_user u (delete_now r) = delete_now (record r { user = u })
as_user u (pause r) = pause (record r { user = u })
as_user u (resume r) = resume (record r { user = u })
as_user u (retry r) = retry (record r { user = u })

user_of-as_user : (u : Except Text User) (q : VmRequest) → user_of (as_user u q) ≡ u
user_of-as_user u (power r) = refl
user_of-as_user u (delete r) = refl
user_of-as_user u (restore r) = refl
user_of-as_user u (delete_now r) = refl
user_of-as_user u (pause r) = refl
user_of-as_user u (resume r) = refl
user_of-as_user u (retry r) = refl

-- The request comes with a session of a user who may make it.
pub record IsAuthenticated (m : Manager) (r : HttpRequest) (s : Session Db) (q : VmRequest) (d : Db)
    : Type 0 where
  pub authorized : IsAuthorized q d
  pub session : IsSession m r s authorized.user

-- Whatever fails, a request on a VM whose user is the one that `CurrentUser` has found changes no
-- table, unless it comes with a cookie that is signed with the secret, has not expired, and names an
-- active user of the tables, and this user may make the request: one who sees the VM for a power
-- action, and the owner or an administrator for the other requests, on a managed VM.
pub handle-IsAuthenticated :
    (m : Manager) (r : HttpRequest) (s t : Session Db) (q : VmRequest)
    → ((handle (as_user (current_user m r s).0 q) t).1.db ≡ t.db)
      ⊎ IsAuthenticated m r s (as_user (current_user m r s).0 q) t.db
handle-IsAuthenticated m r s t q =
    elim (handle_unauthorized_unchanged (as_user (current_user m r s).0 q) t) [
      | inl same ↦ inl same
      | inr a ↦ inr (record {
        authorized = a;
        session =
            current_user-IsSession m r s a.user
              (sym (user_of-as_user (current_user m r s).0 q) ∙ a.logged_in_as);
      })
    ]
