-- ===== src/Config/Checks.antt =====
-- `Validate` of internal/config/config.go.
use pve_manage.Prelude.{
  Bool, true, false, not, ◌||◌, Option, none, some, List, [], ◌∷◌, if◌then◌else◌, is_nil,
}
use pve_manage.Prelude.Int.{ℤ, pos, ltb_ℤ}
use pve_manage.Text.{Text, text_eq, codes, contains_string, to_lower}
use pve_manage.Config.{App, Cluster, BridgeConfig, UserLimit, ClusterToken, Oidc, lookup}

-- The reasons of `Validate`, with the keys that its messages name.
pub data ConfigError : Type 0 where
  no_cluster no_limit : ConfigError
  no_name bad_limit bad_start_vmid no_cpu no_storage no_bridge : Text → ConfigError
  not_static bad_start_ip bad_cidr bad_gateway no_ipv6_kind : Text → Text → ConfigError
  negative_limit bad_uestc : Text → ConfigError
  oidc_required claims_required cookie_name_required bad_max_age bad_same_site : ConfigError
  missing_token empty_token : Text → ConfigError

-- `if wrong { return error }`
unfoldable pub refuse : Bool → ConfigError → Option ConfigError → Option ConfigError
refuse wrong e rest = if wrong then some e else rest

abbrev pub or_else : Option ConfigError → Option ConfigError → Option ConfigError
or_else none rest = rest
or_else (some e) rest = some e

-- The body of a `range` that may return, and what comes after the loop.
unfoldable pub each :
    {A : Type 0} → (A → Option ConfigError) → List A → Option ConfigError → Option ConfigError
each f [] rest = rest
each f (x ∷ xs) rest = or_else (f x) (each f xs rest)

abbrev pub is_none : {A : Type 0} → Option A → Bool
is_none none = true
is_none (some a) = false

abbrev pub positive : ℤ → Bool
positive n = ltb_ℤ (pos 0) n

module _ (is_ip : Text → Bool) where
  unfoldable pub check_bridge : Text → Text × BridgeConfig → Option ConfigError
  check_bridge cluster_key (key, bridge) =
      refuse (not (text_eq bridge.ipv4.kind (codes "static"))) (not_static cluster_key key) (
        refuse (not (is_ip bridge.ipv4.start_ip)) (bad_start_ip cluster_key key) (
          refuse (ltb_ℤ bridge.ipv4.cidr (pos 0) || ltb_ℤ (pos 32) bridge.ipv4.cidr)
            (bad_cidr cluster_key key)
            (refuse (not (is_ip bridge.ipv4.gateway)) (bad_gateway cluster_key key)
              (refuse (is_nil bridge.ipv6_kind) (no_ipv6_kind cluster_key key) none))))

  unfoldable pub check_cluster : Text × Cluster → Option ConfigError
  check_cluster (key, cluster) = refuse (is_nil cluster.name) (no_name key) (
      refuse (not (positive cluster.limit)) (bad_limit key) (
        refuse (not (positive cluster.start_vmid)) (bad_start_vmid key) (
          refuse (is_nil cluster.cpu) (no_cpu key) (
            refuse (is_nil cluster.storage) (no_storage key) (
              refuse (is_nil cluster.bridge) (no_bridge key)
                (each (check_bridge key) cluster.bridge none))))))

  unfoldable pub check_limit : Text × UserLimit → Option ConfigError
  check_limit (key, limit) =
      refuse
        (ltb_ℤ limit.number (pos 0)
          || ltb_ℤ limit.cpu (pos 0)
          || ltb_ℤ limit.memory (pos 0)
          || ltb_ℤ limit.storage (pos 0)
          || ltb_ℤ limit.security_group (pos 0))
        (negative_limit key)
        (refuse (not (contains_string (codes "choose" ∷ codes "force" ∷ []) limit.uestc))
          (bad_uestc key) none)

  unfoldable pub check_oidc : Oidc → Option ConfigError → Option ConfigError
  check_oidc o rest =
      refuse (is_nil o.issuer || is_nil o.client_id || is_nil o.redirect_url) oidc_required (
        refuse (is_nil o.username_claim || is_nil o.groups_claim) claims_required (
          refuse (is_nil o.cookie_name) cookie_name_required (
            refuse (not (positive o.max_age_seconds)) bad_max_age (
              refuse
                (not (
                  contains_string (codes "lax" ∷ codes "strict" ∷ codes "none" ∷ [])
                    (to_lower o.cookie_same_site)))
                bad_same_site rest))))

  abbrev pub is_missing : App → Text → Bool
  is_missing a key = is_none (lookup key a.tokens)

  unfoldable pub check_has_token : App → Text × Cluster → Option ConfigError
  check_has_token a (key, cluster) = refuse (is_missing a key) (missing_token key) none

  unfoldable pub check_token : Text × ClusterToken → Option ConfigError
  check_token (key, token) = refuse (is_nil token.site || is_nil token.token) (empty_token key) none

  -- `Validate`; `none` is its `nil`.
  unfoldable pub validate : App → Option ConfigError
  validate a = refuse (is_nil a.cluster) no_cluster (
      refuse (is_nil a.limit) no_limit (
        each check_cluster a.cluster (
          each check_limit a.limit (
            check_oidc a.oidc
              (each (check_has_token a) a.cluster (each check_token a.tokens none))))))
