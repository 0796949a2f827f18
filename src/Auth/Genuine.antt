-- ===== src/Auth/Genuine.antt =====
-- Which cookies `verifySignedCookie` of internal/auth/auth.go accepts.
use pve_manage.Prelude.{
  ℕ, ◌≡◌, refl, sym, ◌∙◌, Bool, Option, none, some, List, [], ◌∷◌, ◌++◌, ap, arith, if◌then◌else◌,
  Bool-cases, inl, inr,
}
use pve_manage.Prelude.Int.{ℤ, ◌+ℤ◌, ◌≤ℤ◌, ltb_ℤ}
use pve_manage.Text.{Text, text_eq, text_eq_refl, text_eq_iff, split, join, split-join, join-split}
use pve_manage.Auth.Cookies.{
  Codec, IsCodec, UserSession, SameSite, unix, sign_payload, cookie_value, set_signed_cookie,
  unexpired, authentic, both_parts, verify_signed_cookie,
}

-- A value of two parts: the payload, which has not expired, and its signature under the secret.
pub record IsSigned (c : Codec) (now : ℕ) (value secret username : Text) : Type 0 where
  pub payload : Text
  pub signature : Text
  pub raw : Text
  pub session : UserSession
  pub parts : value ≡ payload ++ b'.' ∷ signature
  pub payload_raw : c.decode_string payload ≡ some raw
  pub signature_raw : c.decode_string signature ≡ some (c.hmac_sha256 secret raw)
  pub content : c.unmarshal raw ≡ some session
  pub owner : session.username ≡ username
  pub lives : unix now ≤ℤ session.expires

module _ (c : Codec) where
  -- Where the codec decodes what it has encoded, and base64 has no dot, a cookie that was signed is
  -- accepted with its value until it expires, and is refused after that, under the same secret.
  pub verify_signed_cookie-set_signed_cookie :
      (now later : ℕ) (name value secret : Text) (ttl : ℤ) (secure : Bool) (same_site : SameSite)
      → IsCodec c
      → verify_signed_cookie c later
          (set_signed_cookie c now name value secret ttl secure same_site).value
          secret
        ≡ (if ltb_ℤ (unix now +ℤ ttl) (unix later) then none else some value)
  unfolding verify_signed_cookie set_signed_cookie cookie_value join
  verify_signed_cookie-set_signed_cookie now later name value secret ttl secure same_site h =
      let session : UserSession = record { username = value; expires = unix now +ℤ ttl } in
      let raw = c.marshal session in
      let sig = sign_payload c raw secret in
      ap (both_parts c later secret) (
        split-join b'.' (c.encode_to_string raw ∷ c.encode_to_string sig ∷ []) (λ e. cc)
          (h.dotless raw, (h.dotless sig, tt)))
      ∙ rw (h.decoded raw, h.decoded sig, text_eq_refl sig, h.unmarshaled session)

  module _ (now : ℕ) (secret : Text) {username : Text} where
    unexpired_session :
        (o : Option UserSession)
        → unexpired c now o ≡ some username
        → (session : UserSession) × (o ≡ some session)
          × (session.username ≡ username)
          × (unix now ≤ℤ session.expires)
    unexpired_session none h = cc
    unexpired_session (some session) h = (session, refl, ground arith, ground arith)

    IsSigned-authentic :
        (payload signature : Text) (o p : Option Text)
        → c.decode_string payload ≡ o
        → c.decode_string signature ≡ p
        → authentic c now secret o p ≡ some username
        → IsSigned c now (payload ++ b'.' ∷ signature) secret username
    IsSigned-authentic payload signature none p e f h = cc
    IsSigned-authentic payload signature (some raw) none e f h = cc
    IsSigned-authentic payload signature (some raw) (some sig) e f h =
        elim (Bool-cases (text_eq sig (sign_payload c raw secret))) [
          | inl same ↦
              let found = unexpired_session (c.unmarshal raw) (rw same at h) in
              record {
                payload = payload;
                signature = signature;
                raw = raw;
                session = found.0;
                parts = refl;
                payload_raw = e;
                signature_raw =
                    f
                    ∙ ap some (
                        unfold sign_payload in
                        (text_eq_iff sig (sign_payload c raw secret)).0 same);
                content = found.1;
                owner = found.2;
                lives = found.3;
              }
          | inr differs ↦ cc (rw differs at h)
        ]

    IsSigned-parts :
        (value : Text) (parts : List Text)
        → join b'.' parts ≡ value
        → both_parts c now secret parts ≡ some username
        → IsSigned c now value secret username
    unfolding join
    IsSigned-parts value [] e h = cc
    IsSigned-parts value (p ∷ []) e h = cc
    IsSigned-parts value (p ∷ q ∷ []) e h =
        rw (sym e) (IsSigned-authentic p q (c.decode_string p) (c.decode_string q) refl refl h)
    IsSigned-parts value (p ∷ q ∷ r ∷ s) e h = cc

  -- Only what is signed, and has not expired, is accepted.
  pub verify_signed_cookie-IsSigned :
      (now : ℕ) (value secret username : Text)
      → verify_signed_cookie c now value secret ≡ some username
      → IsSigned c now value secret username
  unfolding verify_signed_cookie
  verify_signed_cookie-IsSigned now value secret username h =
      IsSigned-parts now secret value (split b'.' value) (join-split b'.' value) h
