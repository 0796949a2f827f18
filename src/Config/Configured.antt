-- ===== src/Config/Configured.antt =====
-- What a configuration of internal/config/config.go is to have, as its fields say.
use mathlib.Core.List.{Memᴰ}
use pve_manage.Prelude.{◌≡◌, Bool, true, false, some, [], ◌∷◌, is_nil, All}
use pve_manage.Prelude.Int.{pos, ◌≤ℤ◌, ◌<ℤ◌}
use pve_manage.Text.{Text, codes, to_lower}
use pve_manage.Config.{App, Cluster, BridgeConfig, UserLimit, ClusterToken, Oidc, lookup}

-- What the configuration of a bridge, a cluster, a limit, the sign-in and a token is to be.
pub record IsBridge (is_ip : Text → Bool) (b : BridgeConfig) : Type 0 where
  pub static : b.ipv4.kind ≡ codes "static"
  pub start_ip : is_ip b.ipv4.start_ip ≡ true
  pub gateway : is_ip b.ipv4.gateway ≡ true
  pub cidr_low : pos 0 ≤ℤ b.ipv4.cidr
  pub cidr_high : b.ipv4.cidr ≤ℤ pos 32
  pub ipv6 : is_nil b.ipv6_kind ≡ false

pub record IsCluster (is_ip : Text → Bool) (c : Cluster) : Type 0 where
  pub named : is_nil c.name ≡ false
  pub limit : pos 0 <ℤ c.limit
  pub start_vmid : pos 0 <ℤ c.start_vmid
  pub has_cpu : is_nil c.cpu ≡ false
  pub has_storage : is_nil c.storage ≡ false
  pub has_bridge : is_nil c.bridge ≡ false
  pub bridges : All (λ b. IsBridge is_ip b.1) c.bridge

pub record IsLimit (l : UserLimit) : Type 0 where
  pub number : pos 0 ≤ℤ l.number
  pub cpu : pos 0 ≤ℤ l.cpu
  pub memory : pos 0 ≤ℤ l.memory
  pub storage : pos 0 ≤ℤ l.storage
  pub security_group : pos 0 ≤ℤ l.security_group
  pub uestc : Memᴰ l.uestc (codes "choose" ∷ codes "force" ∷ [])

pub record IsOidc (o : Oidc) : Type 0 where
  pub issuer : is_nil o.issuer ≡ false
  pub client_id : is_nil o.client_id ≡ false
  pub redirect_url : is_nil o.redirect_url ≡ false
  pub username_claim : is_nil o.username_claim ≡ false
  pub groups_claim : is_nil o.groups_claim ≡ false
  pub cookie_name : is_nil o.cookie_name ≡ false
  pub max_age : pos 0 <ℤ o.max_age_seconds
  pub same_site :
      Memᴰ (to_lower o.cookie_same_site) (codes "lax" ∷ codes "strict" ∷ codes "none" ∷ [])

pub record IsToken (t : ClusterToken) : Type 0 where
  pub site : is_nil t.site ≡ false
  pub token : is_nil t.token ≡ false

abbrev pub HasToken : App → Text → Type 0
HasToken a key = (t : ClusterToken) × (lookup key a.tokens ≡ some t)

pub record IsConfigured (is_ip : Text → Bool) (a : App) : Type 0 where
  pub has_cluster : is_nil a.cluster ≡ false
  pub has_limit : is_nil a.limit ≡ false
  pub clusters : All (λ c. IsCluster is_ip c.1) a.cluster
  pub limits : All (λ l. IsLimit l.1) a.limit
  pub oidc : IsOidc a.oidc
  pub has_tokens : All (λ c. HasToken a c.0) a.cluster
  pub tokens : All (λ t. IsToken t.1) a.tokens
