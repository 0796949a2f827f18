-- ===== src/Auth/Granted.antt =====
-- What a request to the callback of internal/auth/auth.go has come with when it is granted, and
-- what it has written then.
use pve_manage.Prelude.{ℕ, ◌≡◌, refl, sym, ap, ◌∙◌, Bool, true, Option, none, some, [], ◌∷◌}
use pve_manage.Text.{Text, text_eq, text_eq_iff, codes}
use pve_manage.Sql.{Session, Except, ok, err, with_now}
use pve_manage.Sql.Atomic.{
  Atomic, Atomic-bind, Atomic-skip, Atomic-then, Atomic-on_error, Atomic-statement,
}
use pve_manage.Sql.Ensures.{
  Ensures, Ensures-then, Ensures-pure, Ensures-on_error, Ensures-statement, ok_injective,
}
use pve_manage.Tables.{Db}
use pve_manage.Config.{lookup}
use pve_manage.Auth.Cookies.{verify_signed_cookie}
use pve_manage.Auth.Claims.{Claims, RawClaims, claims_from_token, user_is_admin, validate_username}
use pve_manage.Auth.Handlers.{
  Manager, HttpRequest, HttpResponse, redirect, non_empty, param, state_cookie_name, session_cookie,
  removed, upserted, upsert_user, grant, exchange_code, handle_callback_at, handle_callback,
}
use pve_manage.Auth.Checks.{
  ReadOnly-some_or, ReadOnly-ok_or, ReadOnly-guard, Ensures-some_or, Ensures-ok_or, Ensures-guard,
}
use pve_manage.Auth.Genuine.{IsSigned, verify_signed_cookie-IsSigned}

-- The request's cookie holds, signed, the state that its query has.
pub record IsOwnState (m : Manager) (r : HttpRequest) (now : ℕ) : Type 0 where
  pub cookie : Text
  pub sent : lookup (state_cookie_name m) r.cookies ≡ some cookie
  pub signed : IsSigned m.codec now cookie m.secret (param r "state")

-- The claims come from an ID token that the provider gave for the request's code and verified.
pub record IsProvided (m : Manager) (r : HttpRequest) (claims : Claims) : Type 0 where
  pub raw : Text
  pub id_token : Text
  pub raw_claims : RawClaims
  pub exchanged : m.provider.exchange (param r "code") ≡ ok (some raw)
  pub verified : m.provider.verify raw ≡ ok id_token
  pub read : m.provider.claims id_token ≡ ok raw_claims
  pub named : claims_from_token m.cfg raw_claims ≡ ok claims

pub record IsGranted (m : Manager) (r : HttpRequest) (now : ℕ) (before : Db)
    (response : HttpResponse) (after : Db) : Type 0 where
  pub claims : Claims
  pub own_state : IsOwnState m r now
  pub provided : IsProvided m r claims
  pub valid : validate_username claims.username ≡ true
  pub row : after ≡ upserted claims (user_is_admin m.cfg claims.groups) now before
  pub cookies :
      response
      ≡ redirect
          (codes "/")
          (session_cookie m now claims.username ∷ removed m (state_cookie_name m) ∷ [])

-- A request is granted, or it has written nothing.
abbrev pub GrantedOrRefused :
    Manager → HttpRequest → ℕ → Db → Except HttpResponse HttpResponse → Db → Type 0
GrantedOrRefused m r now before (ok response) after = IsGranted m r now before response after
GrantedOrRefused m r now before (err refusal) after = after ≡ before

pub non_empty_same : (o : Option Text) (s : Text) → non_empty o ≡ some s → o ≡ some s
non_empty_same none s h = cc
non_empty_same (some []) s h = cc
non_empty_same (some (c ∷ t)) s h = h

ok_some :
    (o : Option Text) (s : Text) (e : Except Text (Option Text))
    → e ≡ ok o
    → o ≡ some s
    → e ≡ ok (some s)
ok_some o s e h k = rw (h, k)

Ensures-upsert_user :
    (claims : Claims) (admin : Bool) (now : ℕ) (before : Db)
    → Ensures
        (λ d. d ≡ before)
        (upsert_user claims admin now)
        (λ _ d. d ≡ upserted claims admin now before)
unfolding upsert_user
Ensures-upsert_user claims admin now before =
    Ensures-statement _
      λ d id d' same h. sym (ap (λ p. p.1) (ok_injective h)) ∙ ap (upserted claims admin now) same

module _ (m : Manager) (r : HttpRequest) (now : ℕ) where
  own_state :
      (cookie : Text) (accepted : Option Text) (state : Text)
      → lookup (state_cookie_name m) r.cookies ≡ some cookie
      → verify_signed_cookie m.codec now cookie m.secret ≡ accepted
      → non_empty accepted ≡ some state
      → text_eq (param r "state") state ≡ true
      → IsOwnState m r now
  own_state cookie accepted state sent verified h matches = record {
    cookie = cookie;
    sent = sent;
    signed = verify_signed_cookie-IsSigned m.codec now cookie m.secret (param r "state") (
        verified
        ∙ non_empty_same accepted state h
        ∙ ap some (sym ((text_eq_iff (param r "state") state).0 matches)));
  }

  granted :
      (before : Db) (claims : Claims)
      → IsOwnState m r now
      → IsProvided m r claims
      → validate_username claims.username ≡ true
      → Ensures (λ d. d ≡ before) (grant m now claims) (IsGranted m r now before)
  unfolding grant
  granted before claims state provided valid =
      Ensures-then _ _ (Ensures-on_error _ _ (Ensures-upsert_user claims _ now before)) (
        Ensures-pure _ λ d row. record {
          claims = claims;
          own_state = state;
          provided = provided;
          valid = valid;
          row = row;
          cookies = refl;
        })

  Ensures-exchange_code :
      (before : Db)
      → IsOwnState m r now
      → Ensures (λ d. d ≡ before) (exchange_code m now (param r "code")) (IsGranted m r now before)
  unfolding exchange_code
  Ensures-exchange_code before state = Ensures-ok_or _ _ _ λ token exchanged.
      Ensures-some_or _ _ _ λ raw held. Ensures-ok_or _ _ _ λ id_token verified.
        Ensures-ok_or _ _ _ λ raw_claims read. Ensures-ok_or _ _ _ λ claims named.
          Ensures-guard _ _ _ λ valid.
            granted before claims state
              (record {
                raw = raw;
                id_token = id_token;
                raw_claims = raw_claims;
                exchanged = ok_some token raw _ exchanged (non_empty_same token raw held);
                verified = verified;
                read = read;
                named = named;
              })
              valid

  Ensures-handle_callback_at :
      (before : Db)
      → Ensures (λ d. d ≡ before) (handle_callback_at m r now) (IsGranted m r now before)
  unfolding handle_callback_at
  Ensures-handle_callback_at before = Ensures-some_or _ _ _ λ cookie sent.
      Ensures-some_or _ _ _ λ state accepted. Ensures-guard _ _ _ λ matches.
        Ensures-guard _ _ _
          λ code. Ensures-exchange_code before (own_state cookie _ state sent refl accepted matches)

  Atomic-exchange_code : (code : Text) → Atomic (exchange_code m now code)
  unfolding exchange_code grant upsert_user
  Atomic-exchange_code code = Atomic-bind _ _ (ReadOnly-ok_or _ _) λ token.
      Atomic-bind _ _ (ReadOnly-some_or _ _) λ raw. Atomic-bind _ _ (ReadOnly-ok_or _ _) λ id_token.
        Atomic-bind _ _ (ReadOnly-ok_or _ _) λ raw_claims.
          Atomic-bind _ _ (ReadOnly-ok_or _ _) λ claims.
            Atomic-skip _ _ (ReadOnly-guard _ _)
              (Atomic-then _ _ (Atomic-on_error _ _ (Atomic-statement _)))

  Atomic-handle_callback_at : Atomic (handle_callback_at m r now)
  unfolding handle_callback_at
  Atomic-handle_callback_at = Atomic-bind _ _ (ReadOnly-some_or _ _) λ cookie.
      Atomic-bind _ _ (ReadOnly-some_or _ _) λ state.
        Atomic-skip _ _ (ReadOnly-guard _ _)
          (Atomic-skip _ _ (ReadOnly-guard _ _) (Atomic-exchange_code _))

either :
    (m : Manager) (r : HttpRequest) (now : ℕ) (s : Session Db)
    (result : Except HttpResponse HttpResponse) (after : Db)
    → ((response : HttpResponse) → result ≡ ok response → IsGranted m r now s.db response after)
    → ((refusal : HttpResponse) → result ≡ err refusal → after ≡ s.db)
    → GrantedOrRefused m r now s.db result after
either m r now s (ok response) after h k = h response refl
either m r now s (err refusal) after h k = k refusal refl

module _ (m : Manager) (r : HttpRequest) (s : Session Db) where
  -- A callback that succeeds has come with the browser's own state, signed and not expired, and its
  -- code has given an ID token that the provider verified and that names a user by a valid user
  -- name; it has written that user's row, an administrator's just if one of the token's groups is
  -- configured so, and answers with the session's cookie and the removal of the state's. One that
  -- fails has written nothing.
  pub handle_callback-GrantedOrRefused :
      GrantedOrRefused m r s.now s.db (handle_callback m r s).0 (handle_callback m r s).1.db
  unfolding handle_callback with_now
  handle_callback-GrantedOrRefused =
      let run = handle_callback_at m r s.now s in
      either m r s.now s run.0 run.1.db
        (λ response. (Ensures-handle_callback_at m r s.now s.db).at s response refl)
        ((Atomic-handle_callback_at m r s.now).at s)
