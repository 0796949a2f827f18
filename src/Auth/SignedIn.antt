-- ===== src/Auth/SignedIn.antt =====
-- The session that `HandleCallback` of internal/auth/auth.go opens, as `CurrentUser` reads it.
use pve_manage.Prelude.{
  ℕ, ◌≡◌, refl, Bool, true, false, ◌&&◌, some, List, [], ◌∷◌, ◌++◌, arith, any, find?, All,
  Bool-cases, inl, inr,
}
use pve_manage.Prelude.Int.{◌+ℤ◌, ltb_ℤ}
use pve_manage.Text.{Text, text_eq_refl, text_eq_iff}
use mathlib.Core.Path.{subst}
use pve_manage.Sql.Ensures.{ok_injective}
use pve_manage.Sql.{Session, Except, ok, err, with_now, query, ◌>>=◌}
use pve_manage.Tables.{Db, User, update_where}
use pve_manage.Config.{lookup}
use pve_manage.Auth.Cookies.{IsCodec, Cookie, unix, set_signed_cookie, verify_signed_cookie}
use pve_manage.Auth.Claims.{Claims, user_is_admin, validate_username}
use pve_manage.Auth.Handlers.{
  Manager, HttpRequest, HttpResponse, http_error, redirect, some_or, non_empty, session_cookie,
  has_name, signed_in, new_user, upserted, handle_callback, current_user,
}
use pve_manage.Auth.Genuine.{verify_signed_cookie-set_signed_cookie}
use pve_manage.Auth.Granted.{
  IsProvided, IsGranted, GrantedOrRefused, handle_callback-GrantedOrRefused,
}

-- The row says what the claims say.
pub record IsOf (claims : Claims) (is_admin : Bool) (u : User) : Type 0 where
  pub username : u.username ≡ claims.username
  pub email : u.email ≡ claims.email
  pub name : u.name ≡ claims.name
  pub groups : u.groups ≡ claims.groups
  pub admin : u.is_admin ≡ is_admin

abbrev IsActive : User → Type 0
IsActive u = u.is_active ≡ true

abbrev active : Text → User → Bool
active username u = has_name username u && u.is_active

module _ (claims : Claims) (admin : Bool) (now : ℕ) where
  abbrev Finds : List User → Type 0
  Finds users = (u : User) × (find? (active claims.username) users ≡ some u) × IsOf claims admin u

  Finds-signed_in :
      (users : List User)
      → All IsActive users
      → any (has_name claims.username) users ≡ true
      → Finds (update_where (has_name claims.username) (signed_in claims admin now) users)
  unfolding update_where
  Finds-signed_in [] h k = cc
  Finds-signed_in (u ∷ users) (h, hs) k = elim (Bool-cases (has_name claims.username u)) [
    | inl e ↦ (
      signed_in claims admin now u,
      rw e (rw e (rw h)),
      record {
        username = (text_eq_iff u.username claims.username).0 e;
        email = refl;
        name = refl;
        groups = refl;
        admin = refl;
      },
    )
    | inr e ↦
        let (v, found, is_of) = Finds-signed_in users hs (rw e at k) in
        (v, rw e (rw e found), is_of)
  ]

  Finds-new_user :
      (id : ℕ) (users : List User)
      → any (has_name claims.username) users ≡ false
      → Finds (users ++ new_user claims admin now id ∷ [])
  Finds-new_user id [] h = (
    new_user claims admin now id,
    rw (text_eq_refl claims.username),
    record { username = refl; email = refl; name = refl; groups = refl; admin = refl },
  )
  Finds-new_user id (u ∷ users) h =
      let (v, found, is_of) = Finds-new_user id users (ground arith) in
      let other : has_name claims.username u ≡ false = ground arith in (v, rw other found, is_of)

  Finds-upserted : (d : Db) → All IsActive d.users → Finds (upserted claims admin now d).users
  unfolding upserted
  Finds-upserted d h = elim (Bool-cases (any (has_name claims.username) d.users)) [
    | inl e ↦ rw e (Finds-signed_in d.users h e)
    | inr e ↦ rw e (Finds-new_user d.next_user_id d.users e)
  ]

non_empty_valid : (s : Text) → validate_username s ≡ true → non_empty (some s) ≡ some s
unfolding validate_username
non_empty_valid [] h = cc
non_empty_valid (c ∷ s) h = refl

-- The cookies of a response, as the browser sends them back.
abbrev sent_back : List Cookie → List (Text × Text)
sent_back [] = []
sent_back (c ∷ cookies) = (c.name, c.value) ∷ sent_back cookies

unfoldable pub cookies_of : HttpResponse → List (Text × Text)
cookies_of (http_error code message) = []
cookies_of (redirect url cookies) = sent_back cookies

-- The user as whom the browser is signed in.
pub record IsSignedIn (m : Manager) (r q : HttpRequest) (t : Session Db) : Type 0 where
  pub claims : Claims
  pub user : User
  pub current : (current_user m q t).0 ≡ ok user
  pub provided : IsProvided m r claims
  pub is_of : IsOf claims (user_is_admin m.cfg claims.groups) user

module _ (m : Manager) (r : HttpRequest) (s : Session Db) (later : ℕ) where
  abbrev afterwards : Db → Session Db
  afterwards d = record { db = d; faults = []; now = later }

  current_user_runs :
      (username value : Text) (rest : List (Text × Text)) (params : List (Text × Text)) (d : Db)
      (u : User)
      → non_empty (verify_signed_cookie m.codec later value m.secret) ≡ some username
      → find? (active username) d.users ≡ some u
      → (current_user m
          (record { cookies = (m.cfg.oidc.cookie_name, value) ∷ rest; params = params })
          (afterwards d)).0
        ≡ ok u
  unfolding current_user some_or with_now query lookup ◌>>=◌
  current_user_runs username value rest params d u h k =
      rw (text_eq_refl m.cfg.oidc.cookie_name) (rw h (rw k))

  verified_later :
      (username : Text)
      → IsCodec m.codec
      → ltb_ℤ (unix s.now +ℤ m.cfg.oidc.max_age_seconds) (unix later) ≡ false
      → validate_username username ≡ true
      → non_empty
          (verify_signed_cookie m.codec later (session_cookie m s.now username).value m.secret)
        ≡ some username
  verified_later username codec fresh valid =
      rw
        (
          verify_signed_cookie-set_signed_cookie m.codec s.now later _ username m.secret _ _ _
              codec,
          fresh,
        )
        (non_empty_valid username valid)

  IsSignedIn-grant :
      (response : HttpResponse) (params : List (Text × Text)) (d : Db)
      → IsCodec m.codec
      → All IsActive s.db.users
      → ltb_ℤ (unix s.now +ℤ m.cfg.oidc.max_age_seconds) (unix later) ≡ false
      → IsGranted m r s.now s.db response d
      → IsSignedIn m r (record { cookies = cookies_of response; params = params }) (afterwards d)
  unfolding cookies_of set_signed_cookie
  IsSignedIn-grant response params d codec all_active fresh g =
      let claims = g.claims in
      let admin = user_is_admin m.cfg claims.groups in
      let (u, found, is_of) = Finds-upserted claims admin s.now s.db all_active in
      record {
        claims = claims;
        user = u;
        current =
            rw (g.cookies, g.row)
              (current_user_runs claims.username _ _ params _ u
                (verified_later claims.username codec fresh g.valid) found);
        provided = g.provided;
        is_of = is_of;
      }

IsGranted-ok :
    (m : Manager) (r : HttpRequest) (now : ℕ) (before after : Db) (response : HttpResponse)
    (result : Except HttpResponse HttpResponse)
    → result ≡ ok response
    → GrantedOrRefused m r now before result after
    → IsGranted m r now before response after
IsGranted-ok m r now before after response (ok other) e h =
    subst (λ x. IsGranted m r now before x after) (ok_injective e) h
IsGranted-ok m r now before after response (err refusal) e h = cc

-- Where no account is deactivated, a callback that succeeds signs the browser in: until the session
-- expires, a request with the cookies of its response, to tables as the callback left them and with
-- no failure of the database, is one of an active user, whose name, e-mail address and groups are
-- those of the ID token that the provider gave for the callback's code, and who is an administrator
-- just if one of these groups is configured as one of administrators.
pub handle_callback-IsSignedIn :
    (m : Manager) (r : HttpRequest) (s : Session Db) (later : ℕ) (response : HttpResponse)
    (params : List (Text × Text))
    → IsCodec m.codec
    → All IsActive s.db.users
    → ltb_ℤ (unix s.now +ℤ m.cfg.oidc.max_age_seconds) (unix later) ≡ false
    → (handle_callback m r s).0 ≡ ok response
    → IsSignedIn m r
        (record { cookies = cookies_of response; params = params })
        (record { db = (handle_callback m r s).1.db; faults = []; now = later })
handle_callback-IsSignedIn m r s later response params codec all_active fresh h =
    IsSignedIn-grant m r s later response params _ codec all_active fresh
      (IsGranted-ok m r s.now s.db _ response _ h (handle_callback-GrantedOrRefused m r s))
