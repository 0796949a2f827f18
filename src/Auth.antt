-- ===== src/Auth.antt =====
-- Sign-in and sessions: internal/auth/auth.go. What the package takes from outside this repository
-- is in `Provider` (the OIDC provider and golang.org/x/oauth2) and in `Codec` (crypto/hmac,
-- encoding/base64 and encoding/json).
pub mod Cookies
pub mod Claims
pub mod Handlers
pub mod Checks
pub mod Genuine
pub mod Granted
pub mod SignedIn
pub mod Completed
pub mod Authenticated
