-- ===== src/Auth/Handlers.antt =====
-- The handlers of internal/auth/auth.go, `upsertUser` and `CurrentUser`. `handle_login` takes the
-- random state as an argument.
use pve_manage.Prelude.{
  ℕ, suc, String, Bool, true, false, not, ◌&&◌, Option, none, some, List, [], ◌∷◌, ◌++◌, any, find?,
  if◌then◌else◌, is_nil,
}
use pve_manage.Prelude.Int.{pos, negsuc}
use pve_manage.Text.{Text, text_eq, codes}
use pve_manage.Sql.{
  Session, Except, ok, err, Exec, statement, query, pure, fail, with_now, on_error, ◌>>=◌, ◌>>◌,
}
use pve_manage.Tables.{Db, User, update_where}
use pve_manage.Config.{App, lookup}
use pve_manage.Auth.Cookies.{
  Codec, Cookie, cookie_same_site, set_signed_cookie, verify_signed_cookie,
}
use pve_manage.Auth.Claims.{Claims, RawClaims, claims_from_token, user_is_admin, validate_username}

-- `oauth2.Config` and `oidc.IDTokenVerifier`: the URL to sign in at, the exchange of a code for the
-- token's `id_token`, its verification, which yields the payload, and the claims in that.
pub record Provider : Type 0 where
  pub auth_code_url : Text → Text
  pub exchange : Text → Except Text (Option Text)
  pub verify : Text → Except Text Text
  pub claims : Text → Except Text RawClaims

pub record Manager : Type 0 where
  pub cfg : App
  pub provider : Provider
  pub secret : Text
  pub codec : Codec

-- The cookies and the query of an HTTP request.
pub record HttpRequest : Type 0 where
  pub cookies : List (Text × Text)
  pub params : List (Text × Text)

-- `http.Error`, and `http.Redirect` with the cookies set before it.
pub data HttpResponse : Type 0 where
  http_error : ℕ → Text → HttpResponse
  redirect : Text → List Cookie → HttpResponse

abbrev refusal_of : Text → HttpResponse
refusal_of text = http_error 400 text

module _ {E S : Type 0} where
  unfoldable pub some_or : {A : Type 0} → E → Option A → Exec E S A
  some_or e none = fail e
  some_or e (some a) = pure a

  unfoldable pub ok_or : {F A : Type 0} → (F → E) → Except F A → Exec E S A
  ok_or f (err x) = fail (f x)
  ok_or f (ok a) = pure a

  unfoldable pub guard : E → Bool → Exec E S (Unit {0})
  guard e true = pure tt
  guard e false = fail e

abbrev pub non_empty : Option Text → Option Text
non_empty none = none
non_empty (some []) = none
non_empty (some (c ∷ s)) = some (c ∷ s)

abbrev or_blank : Option Text → Text
or_blank none = []
or_blank (some s) = s

-- `r.URL.Query().Get(name)`
abbrev pub param : HttpRequest → String → Text
param r name = or_blank (lookup (codes name) r.params)

module _ (m : Manager) where
  abbrev pub state_cookie_name : Text
  state_cookie_name = m.cfg.oidc.cookie_name ++ codes "_state"

  abbrev pub session_cookie : ℕ → Text → Cookie
  session_cookie now username =
      set_signed_cookie m.codec now m.cfg.oidc.cookie_name username m.secret
        m.cfg.oidc.max_age_seconds m.cfg.oidc.cookie_secure
        (cookie_same_site m.cfg.oidc.cookie_same_site)

  -- A cookie that makes the browser forget the one of this name.
  abbrev pub removed : Text → Cookie
  removed name = record {
    name = name;
    value = [];
    path = codes "/";
    http_only = true;
    secure = m.cfg.oidc.cookie_secure;
    same_site = cookie_same_site m.cfg.oidc.cookie_same_site;
    expires = none;
    max_age = negsuc 0;
  }

  -- `HandleLogin`
  unfoldable pub handle_login : ℕ → Text → HttpResponse
  unfolding set_signed_cookie cookie_same_site
  handle_login now state = redirect (m.provider.auth_code_url state) (
      set_signed_cookie m.codec now state_cookie_name state m.secret (pos 600) true
        (cookie_same_site m.cfg.oidc.cookie_same_site)
      ∷ [])

  -- `HandleLogout`
  unfoldable pub handle_logout : HttpResponse
  unfolding cookie_same_site
  handle_logout = redirect (codes "/") (removed m.cfg.oidc.cookie_name ∷ [])

abbrev pub has_name : Text → User → Bool
has_name username u = text_eq u.username username

abbrev pub signed_in : Claims → Bool → ℕ → User → User
signed_in claims is_admin now u = record u {
  email = claims.email;
  name = claims.name;
  groups = claims.groups;
  is_admin = is_admin;
  updated_at = now;
  last_login_at = some now;
}

abbrev pub new_user : Claims → Bool → ℕ → ℕ → User
new_user claims is_admin now id = record {
  id = id;
  username = claims.username;
  email = claims.email;
  name = claims.name;
  groups = claims.groups;
  is_active = true;
  is_admin = is_admin;
  created_at = now;
  updated_at = now;
  last_login_at = some now;
}

-- `INSERT … ON CONFLICT(username) DO UPDATE`, which takes the next id in both cases.
unfoldable pub upserted : Claims → Bool → ℕ → Db → Db
unfolding update_where
upserted claims is_admin now d = record d {
  users =
      if any (has_name claims.username) d.users
      then update_where (has_name claims.username) (signed_in claims is_admin now) d.users
      else d.users ++ new_user claims is_admin now d.next_user_id ∷ [];
  next_user_id = suc d.next_user_id;
}

abbrev user_id_of : Text → Db → ℕ
user_id_of username d = elim (find? (has_name username) d.users) [ none ↦ 0 | some u ↦ u.id ]

-- `upsertUser`
unfoldable pub upsert_user : Claims → Bool → ℕ → Exec Text (Session Db) ℕ
unfolding upserted
upsert_user claims is_admin now =
    statement λ d. let d' = upserted claims is_admin now d in ok (user_id_of claims.username d', d')

module _ (m : Manager) (now : ℕ) where
  -- The user's row and the cookies.
  unfoldable pub grant : Claims → Exec HttpResponse (Session Db) HttpResponse
  unfolding upsert_user user_is_admin set_signed_cookie cookie_same_site
  grant claims = do
    on_error (λ e. http_error 500 (codes "upsert user failed: " ++ e))
        (upsert_user claims (user_is_admin m.cfg claims.groups) now)
    pure (
        redirect (codes "/")
          (session_cookie m now claims.username ∷ removed m (state_cookie_name m) ∷ []))

  -- From the code to the claims.
  unfoldable pub exchange_code : Text → Exec HttpResponse (Session Db) HttpResponse
  unfolding some_or ok_or guard grant claims_from_token validate_username
  exchange_code code = do
    token ←
        ok_or (λ e. refusal_of (codes "token exchange failed: " ++ e)) (m.provider.exchange code)
    raw ← some_or (refusal_of (codes "missing id_token")) (non_empty token)
    id_token ←
        ok_or (λ e. refusal_of (codes "id token verify failed: " ++ e)) (m.provider.verify raw)
    raw_claims ← ok_or refusal_of (m.provider.claims id_token)
    claims ← ok_or refusal_of (claims_from_token m.cfg raw_claims)
    guard (refusal_of (codes "invalid username format")) (validate_username claims.username)
    grant claims

module _ (m : Manager) (r : HttpRequest) where
  unfoldable pub handle_callback_at : ℕ → Exec HttpResponse (Session Db) HttpResponse
  unfolding some_or guard exchange_code verify_signed_cookie
  handle_callback_at now = do
    cookie ←
        some_or (refusal_of (codes "missing oauth state")) (lookup (state_cookie_name m) r.cookies)
    state ←
        some_or (refusal_of (codes "invalid oauth state"))
          (non_empty (verify_signed_cookie m.codec now cookie m.secret))
    guard (refusal_of (codes "state mismatch")) (text_eq (param r "state") state)
    guard (refusal_of (codes "missing code")) (not (is_nil (param r "code")))
    exchange_code m now (param r "code")

  -- `HandleCallback`
  unfoldable pub handle_callback : Exec HttpResponse (Session Db) HttpResponse
  unfolding handle_callback_at with_now
  handle_callback = with_now handle_callback_at

  -- `CurrentUser`
  unfoldable pub current_user : Exec Text (Session Db) User
  unfolding some_or verify_signed_cookie with_now query
  current_user = do
    cookie ← some_or (codes "missing session") (lookup m.cfg.oidc.cookie_name r.cookies)
    username ← with_now λ now.
        some_or (codes "invalid session")
          (non_empty (verify_signed_cookie m.codec now cookie m.secret))
    row ← query (λ d. find? (λ u. has_name username u && u.is_active) d.users)
    some_or (codes "sql: no rows in result set") row
