-- ===== src/Config.antt =====
-- The configuration: internal/config/config.go. A YAML map is the list of its entries in the order
-- in which `range` visits them; `net.ParseIP` is the parameter `is_ip` of the check.
pub mod Checks
pub mod Checked
pub mod Passed
pub mod Configured
pub mod Limits
use pve_manage.Prelude.{
  ℕ, Bool, true, false, not, ◌&&◌, ◌||◌, Option, none, some, List, [], ◌∷◌, if◌then◌else◌, any,
  is_nil,
}
use pve_manage.Prelude.Int.{ℤ, pos, ltb_ℤ, leb_ℤ}
use pve_manage.Text.{Text, text_eq, codes, contains_string, to_lower}

pub record CpuClass : Type 0 where
  pub name : Text
  pub limit : ℤ
  pub memory_limit : ℤ
  pub node : List Text

pub record StorageClass : Type 0 where
  pub name : Text
  pub limit : ℤ

pub record Ipv4Config : Type 0 where
  pub kind : Text
  pub start_ip : Text
  pub cidr : ℤ
  pub gateway : Text

pub record BridgeConfig : Type 0 where
  pub ipv4 : Ipv4Config
  pub ipv6_kind : Text
  pub ipfilter : List Text

pub record Cluster : Type 0 where
  pub name : Text
  pub limit : ℤ
  pub start_vmid : ℤ
  pub cpu : List (Text × CpuClass)
  pub storage : List (Text × StorageClass)
  pub uestc : Text
  pub bridge : List (Text × BridgeConfig)
  pub tpm : Text

pub record UserLimit : Type 0 where
  pub number : ℤ
  pub cpu : ℤ
  pub memory : ℤ
  pub storage : ℤ
  pub security_group : ℤ
  pub uestc : Text

pub record Oidc : Type 0 where
  pub issuer : Text
  pub client_id : Text
  pub redirect_url : Text
  pub username_claim : Text
  pub email_claim : Text
  pub name_claim : Text
  pub groups_claim : Text
  pub cookie_name : Text
  pub cookie_secure : Bool
  pub cookie_same_site : Text
  pub max_age_seconds : ℤ

pub record ClusterToken : Type 0 where
  pub site : Text
  pub token : Text

pub record App : Type 0 where
  pub cluster : List (Text × Cluster)
  pub admin_group : List Text
  pub limit : List (Text × UserLimit)
  pub oidc : Oidc
  pub tokens : List (Text × ClusterToken)

-- `v, ok := m[k]`
unfoldable pub lookup : {A : Type 0} → Text → List (Text × A) → Option A
lookup k [] = none
lookup k ((j, a) ∷ m) = if text_eq j k then some a else lookup k m

-- `ClusterByKey`, `CPUByKey`, `StorageByKey` and `BridgeByKey`.
unfoldable pub cluster_by_key : App → Text → Option Cluster
cluster_by_key a key = lookup key a.cluster

unfoldable pub cpu_by_key : Cluster → Text → Option CpuClass
cpu_by_key c key = lookup key c.cpu

unfoldable pub storage_by_key : Cluster → Text → Option StorageClass
storage_by_key c key = lookup key c.storage

unfoldable pub bridge_by_key : Cluster → Text → Option BridgeConfig
bridge_by_key c key = lookup key c.bridge

-- `IsAdmin`
unfoldable pub is_admin : App → List Text → Bool
is_admin a groups = any (λ g. contains_string a.admin_group g) groups

abbrev pub no_limit : UserLimit
no_limit = record {
  number = pos 0;
  cpu = pos 0;
  memory = pos 0;
  storage = pos 0;
  security_group = pos 0;
  uestc = [];
}

abbrev pub larger : ℤ → ℤ → ℤ
larger new old = if ltb_ℤ old new then new else old

-- What a further group's limit makes of the limit so far.
unfoldable pub raise : UserLimit → UserLimit → UserLimit
raise out limit = record {
  number = larger limit.number out.number;
  cpu = larger limit.cpu out.cpu;
  memory = larger limit.memory out.memory;
  storage = larger limit.storage out.storage;
  security_group = larger limit.security_group out.security_group;
  uestc = if text_eq limit.uestc (codes "choose") then codes "choose" else out.uestc;
}

-- `out` and `seen` as one: `none` until the first known group.
abbrev pub merge : Option UserLimit → Option UserLimit → Option UserLimit
merge out none = out
merge none (some limit) = some limit
merge (some out) (some limit) = some (raise out limit)

unfoldable pub merge_groups : App → Option UserLimit → List Text → Option UserLimit
merge_groups a out [] = out
merge_groups a out (g ∷ groups) = merge_groups a (merge out (lookup g a.limit)) groups

abbrev pub or_no_limit : Option UserLimit → UserLimit
or_no_limit none = no_limit
or_no_limit (some limit) = limit

-- `EffectiveUserLimit`
unfoldable pub effective_user_limit : App → List Text → UserLimit
effective_user_limit a groups = or_no_limit (merge_groups a none groups)
