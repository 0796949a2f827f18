-- ===== src/Auth/Completed.antt =====
-- A sign-in from `HandleLogin` to the end of `HandleCallback`: internal/auth/auth.go.
use pve_manage.Prelude.{ℕ, ◌≡◌, ◌≢◌, refl, true, false, not, some, [], ◌∷◌, is_nil}
use pve_manage.Prelude.Int.{pos, ◌+ℤ◌, ltb_ℤ}
use pve_manage.Text.{Text, text_eq, text_eq_refl, codes}
use pve_manage.Sql.{Session, ok, on_error, statement, with_now, ◌>>=◌, ◌>>◌}
use pve_manage.Tables.{Db}
use pve_manage.Config.{lookup}
use pve_manage.Auth.Cookies.{
  IsCodec, unix, cookie_same_site, set_signed_cookie, verify_signed_cookie,
}
use pve_manage.Auth.Claims.{Claims, validate_username}
use pve_manage.Auth.Handlers.{
  Manager, HttpRequest, redirect, some_or, ok_or, guard, non_empty, state_cookie_name,
  session_cookie, removed, grant, exchange_code, upsert_user, handle_login, handle_callback_at,
  handle_callback,
}
use pve_manage.Auth.Genuine.{verify_signed_cookie-set_signed_cookie}
use pve_manage.Auth.Granted.{IsProvided}
use pve_manage.Auth.SignedIn.{cookies_of}

non_empty-some : (s : Text) → s ≢ [] → non_empty (some s) ≡ some s
non_empty-some [] h = absurd (h refl)
non_empty-some (c ∷ s) h = refl

not_nil : (s : Text) → s ≢ [] → not (is_nil s) ≡ true
not_nil [] h = absurd (h refl)
not_nil (c ∷ s) h = refl

-- The browser's request after it has signed in at the provider: the cookies of the answer to
-- `HandleLogin`, and the state and the code in the query.
abbrev pub returning : Manager → ℕ → Text → Text → HttpRequest
returning m begun state code = record {
  cookies = cookies_of (handle_login m begun state);
  params = (codes "state", state) ∷ (codes "code", code) ∷ [];
}

module _ (m : Manager) (begun : ℕ) (state code : Text) (claims : Claims) (d : Db) (now : ℕ) where
  abbrev session : Session Db
  session = record { db = d; faults = []; now = now }

  exchange_code_runs :
      (p : IsProvided m (returning m begun state code) claims)
      → p.raw ≢ []
      → validate_username claims.username ≡ true
      → (exchange_code m now code session).0
        ≡ ok (
            redirect
              (codes "/")
              (session_cookie m now claims.username ∷ removed m (state_cookie_name m) ∷ []))
  unfolding exchange_code grant upsert_user ok_or some_or guard on_error statement ◌>>=◌ ◌>>◌ lookup
      text_eq
  exchange_code_runs p filled valid =
      rw p.exchanged
        (rw (non_empty-some p.raw filled) (rw p.verified (rw p.read (rw p.named (rw valid)))))

  state_cookie_verified :
      IsCodec m.codec
      → state ≢ []
      → ltb_ℤ (unix begun +ℤ pos 600) (unix now) ≡ false
      → non_empty (
          verify_signed_cookie m.codec now
            (set_signed_cookie m.codec begun
              (state_cookie_name m)
              state
              m.secret
              (pos 600)
              true
              (cookie_same_site m.cfg.oidc.cookie_same_site)).value
            m.secret)
        ≡ some state
  state_cookie_verified codec given fresh =
      rw
        (
          verify_signed_cookie-set_signed_cookie m.codec begun now (state_cookie_name m) state
              m.secret (pos 600) true _ codec,
          fresh,
        )
        (non_empty-some state given)

  -- A sign-in that the browser begins at `HandleLogin` ends: where the codec decodes what it has
  -- encoded, the browser returns within ten minutes with its cookie, the state it was sent away with
  -- and a code, the provider gives an ID token for the code, verifies it and reads claims with a valid
  -- user name in it, and no statement fails, `HandleCallback` answers with the session's cookie, for
  -- the user of the claims, and sends the browser to the start page.
  pub handle_login-handle_callback :
      IsCodec m.codec
      → state ≢ []
      → code ≢ []
      → (p : IsProvided m (returning m begun state code) claims) → p.raw ≢ []
      → validate_username claims.username ≡ true
      → ltb_ℤ (unix begun +ℤ pos 600) (unix now) ≡ false
      → (handle_callback m (returning m begun state code) session).0
        ≡ ok (
            redirect
              (codes "/")
              (session_cookie m now claims.username ∷ removed m (state_cookie_name m) ∷ []))
  unfolding handle_callback handle_callback_at handle_login cookies_of with_now some_or guard ◌>>=◌
      ◌>>◌ lookup text_eq
  handle_login-handle_callback codec given coded p filled valid fresh =
      rw (text_eq_refl (state_cookie_name m)) (
        rw (state_cookie_verified codec given fresh)
          (rw (text_eq_refl state) (rw (not_nil code coded) (exchange_code_runs p filled valid))))
