-- ===== src/Examples/SignIn.antt =====
-- The theorems on sign-in at a sample manager, whose codec shifts what it encodes.
use pve_manage.Prelude.{
  ◌+◌, ◌-◌, ◌≡◌, ◌⊎◌, refl, true, Option, none, some, [], ◌∷◌, ◌++◌, map, arith, ◌==◌,
  if◌then◌else◌,
}
use pve_manage.Prelude.Int.{ℤ, pos, negsuc, ◌+ℤ◌}
use pve_manage.Text.{Text, codes, text_eq, split, lacks, to_lower}
use pve_manage.Sql.{ok, with_now, statement, on_error, ◌>>=◌, ◌>>◌}
use pve_manage.Tables.{Db, update_where}
use pve_manage.Config.{lookup}
use pve_manage.Api.Access.{delete, handle}
use pve_manage.Auth.Cookies.{
  Codec, IsCodec, UserSession, lax, set_signed_cookie, verify_signed_cookie, cookie_value,
  sign_payload, cookie_same_site,
}
use pve_manage.Auth.Claims.{
  Claims, RawClaims, text, array, claim_string, claim_string_any, claim_string_slice,
  claims_from_token, user_is_admin, validate_username, username_tail,
}
use pve_manage.Auth.Handlers.{
  Manager, HttpRequest, HttpResponse, redirect, session_cookie, removed, state_cookie_name, some_or,
  ok_or, guard, upserted, upsert_user, grant, exchange_code, handle_callback_at, handle_callback,
  current_user,
}
use pve_manage.Auth.Genuine.{verify_signed_cookie-set_signed_cookie}
use pve_manage.Auth.Authenticated.{as_user, IsAuthenticated, handle-IsAuthenticated}
use pve_manage.Auth.Completed.{returning, handle_login-handle_callback}
use pve_manage.Auth.Granted.{IsProvided, GrantedOrRefused, handle_callback-GrantedOrRefused}
use pve_manage.Auth.SignedIn.{IsSignedIn, cookies_of, handle_callback-IsSignedIn}
use pve_manage.Examples.{person, alice, tables, session_of}
use pve_manage.Examples.Requests.{by}
use pve_manage.Examples.Names.{app}

abbrev coded : Text → Text
coded = map (λ c. c + 47)

abbrev uncoded : Text → Text
uncoded = map (λ c. c - 47)

uncoded-coded : (s : Text) → uncoded (coded s) ≡ s
uncoded-coded [] = refl
uncoded-coded (c ∷ s) = ground (arith, uncoded-coded s)

lacks-coded : (s : Text) → lacks b'.' (coded s) ≡ true
lacks-coded [] = refl
lacks-coded (c ∷ s) = ground (arith, lacks-coded s)

abbrev written : ℤ → Text → Text
written (pos n) username = 0 ∷ n ∷ username
written (negsuc n) username = 1 ∷ n ∷ username

abbrev read : Text → Option UserSession
read (sign ∷ n ∷ username) =
    some (record { username = username; expires = if sign == 0 then pos n else negsuc n })
read _ = none

abbrev codec : Codec
codec = record {
  hmac_sha256 = λ secret payload. secret ++ payload;
  encode_to_string = coded;
  decode_string = λ s. some (uncoded s);
  marshal = λ session. written session.expires session.username;
  unmarshal = read;
}

read-written :
    (expires : ℤ) (username : Text)
    → read (written expires username) ≡ some (record { username = username; expires = expires })
read-written (pos n) username = refl
read-written (negsuc n) username = refl

codec-IsCodec : IsCodec codec
codec-IsCodec = record {
  decoded = λ raw. rw (uncoded-coded raw);
  dotless = lacks-coded;
  unmarshaled = λ session. read-written session.expires session.username;
}

-- A minute after it was signed for an hour.
verify_signed_cookie-set_signed_cookie_example :
    verify_signed_cookie codec 60000000000
      (set_signed_cookie codec 0 (codes "s") alice (codes "key") (pos 3600) true lax).value
      (codes "key")
    ≡ some alice
unfolding ◌+ℤ◌
verify_signed_cookie-set_signed_cookie_example =
    verify_signed_cookie-set_signed_cookie codec 0 60000000000 (codes "s") alice (codes "key")
      (pos 3600) true lax codec-IsCodec

abbrev its_claims : RawClaims
its_claims =
    (codes "sub", text alice) ∷ (codes "groups", array (some (codes "root") ∷ none ∷ [])) ∷ []

abbrev manager : Manager
manager = record {
  cfg = app;
  provider = record {
    auth_code_url = λ state. codes "https://id/?state=" ++ state;
    exchange = λ code. ok (some (codes "jwt"));
    verify = λ raw. ok raw;
    claims = λ payload. ok its_claims;
  };
  secret = codes "key";
  codec = codec;
}

abbrev state_cookie : Text
state_cookie =
    (set_signed_cookie codec 0 (state_cookie_name manager) (codes "xyz") (codes "key") (pos 600)
      true lax).value

abbrev callback : HttpRequest
callback = record {
  cookies = (state_cookie_name manager, state_cookie) ∷ [];
  params = (codes "state", codes "xyz") ∷ (codes "code", codes "c") ∷ [];
}

abbrev response : HttpResponse
response =
    redirect (codes "/")
      (session_cookie manager 100 alice ∷ removed manager (state_cookie_name manager) ∷ [])

handle_callback-GrantedOrRefused_example :
    GrantedOrRefused manager callback 100 tables
      (handle_callback manager callback (session_of tables)).0
      (handle_callback manager callback (session_of tables)).1.db
handle_callback-GrantedOrRefused_example =
    handle_callback-GrantedOrRefused manager callback (session_of tables)

handle_callback-IsSignedIn_example :
    IsSignedIn manager callback
      (record { cookies = cookies_of response; params = [] })
      (record {
        db = (handle_callback manager callback (session_of tables)).1.db;
        faults = [];
        now = 200;
      })
unfolding handle_callback handle_callback_at with_now some_or ok_or guard exchange_code grant
    upsert_user upserted statement on_error ◌>>=◌ ◌>>◌ verify_signed_cookie set_signed_cookie
    cookie_value sign_payload cookie_same_site claims_from_token claim_string claim_string_any
    claim_string_slice user_is_admin validate_username username_tail lookup text_eq split to_lower
    ◌+ℤ◌ update_where
handle_callback-IsSignedIn_example =
    handle_callback-IsSignedIn manager callback (session_of tables) 200 response [] codec-IsCodec tt
      refl refl

abbrev claims : Claims
claims = record { username = alice; email = []; name = []; groups = codes "root" ∷ [] }

abbrev away : Text
away = codes "xyz"

provided : IsProvided manager (returning manager 0 away (codes "c")) claims
unfolding lookup text_eq claims_from_token claim_string claim_string_any claim_string_slice
provided = record {
  raw = codes "jwt";
  id_token = codes "jwt";
  raw_claims = its_claims;
  exchanged = refl;
  verified = refl;
  read = refl;
  named = refl;
}

-- The browser is back after a minute.
handle_login-handle_callback_example :
    (handle_callback manager
      (returning manager 0 away (codes "c"))
      (record { db = tables; faults = []; now = 60000000000 })).0
    ≡ ok (
        redirect (codes "/") (
          session_cookie manager 60000000000 alice
          ∷ removed manager (state_cookie_name manager)
          ∷ []))
unfolding validate_username username_tail ◌+ℤ◌ provided
handle_login-handle_callback_example =
    handle_login-handle_callback manager 0 away (codes "c") claims tables 60000000000 codec-IsCodec
      (λ e. cc) (λ e. cc) provided (λ e. cc) refl refl

-- A browser in which alice is signed in.
abbrev browser : HttpRequest
browser = record { cookies = (codes "s", (session_cookie manager 0 alice).value) ∷ []; params = [] }

abbrev peopled : Db
peopled = record tables { users = person alice [] ∷ [] }

handle-IsAuthenticated_example :
    ((handle
        (as_user (current_user manager browser (session_of peopled)).0 (delete (by alice)))
        (session_of peopled)).1.db
      ≡ peopled)
    ⊎ IsAuthenticated manager browser
        (session_of peopled)
        (as_user (current_user manager browser (session_of peopled)).0 (delete (by alice)))
        peopled
handle-IsAuthenticated_example =
    handle-IsAuthenticated manager browser (session_of peopled) (session_of peopled)
      (delete (by alice))
