-- ===== src/Auth/Claims.antt =====
-- The claims of an ID token: `claimsFromToken` and its helpers in internal/auth/auth.go, and
-- `ValidateUsername` of internal/config/config.go.
use pve_manage.Prelude.{
  ℕ, suc, Bool, false, ◌&&◌, ◌||◌, Option, none, some, List, [], ◌∷◌, leb, ◌==◌, any, if◌then◌else◌,
  is_nil,
}
use pve_manage.Text.{Text, codes, contains_string}
use pve_manage.Json.{or_fallback}
use pve_manage.Sql.{Except, ok, err}
use pve_manage.Config.{App, lookup}

-- A value in the claims. An item of an array that is no string is `none`.
pub data Claim : Type 0 where
  text : Text → Claim
  array : List (Option Text) → Claim
  other : Claim

pub record Claims : Type 0 where
  pub username : Text
  pub email : Text
  pub name : Text
  pub groups : List Text

abbrev pub RawClaims : Type 0
RawClaims = List (Text × Claim)

abbrev claim_text : Option Claim → Text
claim_text (some (text s)) = s
claim_text _ = []

unfoldable pub claim_string : RawClaims → Text → Text
unfolding lookup
claim_string raw key = if is_nil key then [] else claim_text (lookup key raw)

-- The key that was found, the second result of the source, is not used.
unfoldable pub claim_string_any : RawClaims → List Text → Text
unfolding claim_string
claim_string_any raw [] = []
claim_string_any raw (key ∷ keys) = or_fallback (claim_string raw key) (claim_string_any raw keys)

abbrev strings : List (Option Text) → List Text
strings [] = []
strings (none ∷ items) = strings items
strings (some s ∷ items) = s ∷ strings items

abbrev claim_strings : Option Claim → List Text
claim_strings (some (array items)) = strings items
claim_strings _ = []

unfoldable pub claim_string_slice : RawClaims → Text → List Text
unfolding lookup
claim_string_slice raw key = if is_nil key then [] else claim_strings (lookup key raw)

abbrev named_claims : Claims → Except Text Claims
named_claims claims =
    if is_nil claims.username then err (codes "username claim missing") else ok claims

-- The keys that the message of the source lists are left out.
unfoldable pub claims_from_token : App → RawClaims → Except Text Claims
unfolding claim_string_any claim_string_slice
claims_from_token cfg raw = named_claims (record {
  username =
      claim_string_any raw
        (cfg.oidc.username_claim ∷ codes "preferred_username" ∷ codes "username" ∷ []);
  email = claim_string raw cfg.oidc.email_claim;
  name = claim_string raw cfg.oidc.name_claim;
  groups = claim_string_slice raw cfg.oidc.groups_claim;
})

-- `userIsAdmin`
unfoldable pub user_is_admin : App → List Text → Bool
user_is_admin cfg groups = any (λ g. contains_string cfg.admin_group g) groups

abbrev is_name_end : ℕ → Bool
is_name_end c = (leb b'a' c && leb c b'z') || (leb b'0' c && leb c b'9')

-- The middle and the end of `^[a-z0-9][a-z0-9-]{1,30}[a-z0-9]$`, after `n` characters of the middle.
unfoldable pub username_tail : ℕ → Text → Bool
username_tail n [] = false
username_tail n (c ∷ []) = is_name_end c && leb 1 n && leb n 30
username_tail n (c ∷ d ∷ s) = (is_name_end c || c == b'-') && username_tail (suc n) (d ∷ s)

unfoldable pub validate_username : Text → Bool
unfolding username_tail
validate_username [] = false
validate_username (c ∷ s) = is_name_end c && username_tail 0 s
