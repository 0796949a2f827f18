-- ===== src/Auth/Cookies.antt =====
-- The signed cookies: `setSignedCookie`, `verifySignedCookie` and `signPayload` of
-- internal/auth/auth.go. Bytes are a list of numbers; times to live are whole seconds.
use pve_manage.Prelude.{
  ℕ, ◌/◌, ◌≡◌, Bool, true, Option, none, some, List, [], ◌∷◌, ◌++◌, if◌then◌else◌,
}
use pve_manage.Prelude.Int.{ℤ, pos, ◌+ℤ◌, ltb_ℤ}
use pve_manage.Text.{Text, text_eq, split, lacks, to_lower, codes}

-- `Session`
pub record UserSession : Type 0 where
  pub username : Text
  pub expires : ℤ

-- HMAC-SHA256 under a secret, base64 for URLs without padding, and the JSON of a session.
pub record Codec : Type 0 where
  pub hmac_sha256 : Text → Text → Text
  pub encode_to_string : Text → Text
  pub decode_string : Text → Option Text
  pub marshal : UserSession → Text
  pub unmarshal : Text → Option UserSession

-- What the documentation of encoding/base64 and encoding/json says of them: what was encoded is
-- decoded, and the alphabet of base64 has no dot.
pub record IsCodec (c : Codec) : Type 0 where
  pub decoded : (raw : Text) → c.decode_string (c.encode_to_string raw) ≡ some raw
  pub dotless : (raw : Text) → lacks b'.' (c.encode_to_string raw) ≡ true
  pub unmarshaled : (session : UserSession) → c.unmarshal (c.marshal session) ≡ some session

pub data SameSite : Type 0 where
  strict none_mode lax : SameSite

pub record Cookie : Type 0 where
  pub name : Text
  pub value : Text
  pub path : Text
  pub http_only : Bool
  pub secure : Bool
  pub same_site : SameSite
  pub expires : Option ℤ
  pub max_age : ℤ

-- `cookieSameSite`
unfoldable pub cookie_same_site : Text → SameSite
cookie_same_site setting =
    let mode = to_lower setting in
    if text_eq mode (codes "strict")
    then strict
    else if text_eq mode (codes "none")
    then none_mode
    else lax

-- `time.Now().Unix()`
abbrev pub unix : ℕ → ℤ
unix now = pos (now / 1000000000)

module _ (c : Codec) where
  -- `signPayload`
  unfoldable pub sign_payload : Text → Text → Text
  sign_payload payload secret = c.hmac_sha256 secret payload

  unfoldable pub cookie_value : UserSession → Text → Text
  unfolding sign_payload
  cookie_value payload secret =
      let raw = c.marshal payload in
      c.encode_to_string raw ++ b'.' ∷ c.encode_to_string (sign_payload raw secret)

  unfoldable pub set_signed_cookie : ℕ → Text → Text → Text → ℤ → Bool → SameSite → Cookie
  unfolding cookie_value
  set_signed_cookie now name value secret ttl secure same_site =
      let expires = unix now +ℤ ttl in
      record {
        name = name;
        value = cookie_value (record { username = value; expires = expires }) secret;
        path = codes "/";
        http_only = true;
        secure = secure;
        same_site = same_site;
        expires = some expires;
        max_age = ttl;
      }

  abbrev pub unexpired : ℕ → Option UserSession → Option Text
  unexpired now none = none
  unexpired now (some session) =
      if ltb_ℤ session.expires (unix now) then none else some session.username

  abbrev pub authentic : ℕ → Text → Option Text → Option Text → Option Text
  authentic now secret (some raw) (some sig) =
      if text_eq sig (sign_payload raw secret) then unexpired now (c.unmarshal raw) else none
  authentic now secret _ _ = none

  abbrev pub both_parts : ℕ → Text → List Text → Option Text
  both_parts now secret (payload ∷ sig ∷ []) =
      authentic now secret (c.decode_string payload) (c.decode_string sig)
  both_parts now secret _ = none

  -- `verifySignedCookie`; `none` is the result `("", false)`.
  unfoldable pub verify_signed_cookie : ℕ → Text → Text → Option Text
  unfolding sign_payload
  verify_signed_cookie now value secret = both_parts now secret (split b'.' value)
