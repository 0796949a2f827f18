-- ===== src/Examples/Names.antt =====
-- The theorems on names and on the configuration at sample values.
use mathlib.Core.List.{Memᴰ}
use mathlib.Core.Path.{subst}
use pve_manage.Prelude.{◌≡◌, ◌↔◌, refl, Bool, true, false, Option, none, some, List, [], ◌∷◌, arith}
use pve_manage.Prelude.Int.{pos}
use pve_manage.Text.{Text, codes, text_eq, trim_space}
use pve_manage.Vmname.{valid, validate_pve}
use pve_manage.Vmname.Grammar.{IsDnsName, validate_pve_iff}
use pve_manage.Config.{App, Cluster, UserLimit, BridgeConfig, lookup, effective_user_limit}
use pve_manage.Config.Limits.{◌≤ₗ◌, effective_user_limit-bound, effective_user_limit-least}
use pve_manage.Config.Checks.{validate}
use pve_manage.Config.Configured.{IsConfigured}
use pve_manage.Config.Checked.{validate-IsConfigured}

validate_pve_iff_example :
    (validate_pve (codes "alice-web.lab") ≡ valid) ↔ IsDnsName (trim_space (codes "alice-web.lab"))
validate_pve_iff_example = validate_pve_iff (codes "alice-web.lab")

abbrev students : UserLimit
students = record {
  number = pos 2;
  cpu = pos 8;
  memory = pos 16;
  storage = pos 100;
  security_group = pos 3;
  uestc = codes "force";
}

abbrev staff : UserLimit
staff = record students { number = pos 5; cpu = pos 4; uestc = codes "choose" }

abbrev bridge : BridgeConfig
bridge = record {
  ipv4 = record {
    kind = codes "static";
    start_ip = codes "10.0.0.2";
    cidr = pos 24;
    gateway = codes "10.0.0.1";
  };
  ipv6_kind = codes "auto";
  ipfilter = [];
}

abbrev pub cluster : Cluster
cluster = record {
  name = codes "Main";
  limit = pos 10;
  start_vmid = pos 100;
  cpu =
      (
        codes "fast",
        record { name = codes "Fast"; limit = pos 8; memory_limit = pos 64; node = [] },
      )
      ∷ [];
  storage = (codes "ssd", record { name = codes "SSD"; limit = pos 500 }) ∷ [];
  uestc = [];
  bridge = (codes "vmbr0", bridge) ∷ [];
  tpm = [];
}

abbrev pub app : App
app = record {
  cluster = (codes "main", cluster) ∷ [];
  admin_group = codes "root" ∷ [];
  limit = (codes "students", students) ∷ (codes "staff", staff) ∷ [];
  oidc = record {
    issuer = codes "https://id";
    client_id = codes "pve";
    redirect_url = codes "https://pve/cb";
    username_claim = codes "sub";
    email_claim = codes "email";
    name_claim = codes "name";
    groups_claim = codes "groups";
    cookie_name = codes "s";
    cookie_secure = true;
    cookie_same_site = codes "Lax";
    max_age_seconds = pos 3600;
  };
  tokens = (codes "main", record { site = codes "https://pve"; token = codes "t" }) ∷ [];
}

abbrev groups : List Text
groups = codes "students" ∷ codes "staff" ∷ []

effective_user_limit-bound_example : students ≤ₗ effective_user_limit app groups
unfolding lookup text_eq
effective_user_limit-bound_example =
    effective_user_limit-bound app groups (codes "students") students (Memᴰ.head refl) refl

abbrev roof : UserLimit
roof = record {
  number = pos 9;
  cpu = pos 9;
  memory = pos 99;
  storage = pos 999;
  security_group = pos 9;
  uestc = [];
}

same : {A : Type 0} {a b : A} → ◌≡◌ {A = Option A} (some a) (some b) → a ≡ b
same h = cc

staff_below : (l : UserLimit) → some staff ≡ some l → l ≤ₗ roof
staff_below l h =
    subst (λ m. m ≤ₗ roof) (same h)
      (record {
        number = omega arith;
        cpu = omega arith;
        memory = omega arith;
        storage = omega arith;
        security_group = omega arith;
      })

below_roof :
    (g : Text) (l : UserLimit)
    → Memᴰ g (codes "staff" ∷ [])
    → lookup g app.limit ≡ some l
    → l ≤ₗ roof
unfolding lookup text_eq
below_roof g l (Memᴰ.head e) h = staff_below l (subst (λ j. lookup j app.limit ≡ some l) e h)
below_roof g l (Memᴰ.tail m) h = elim m [ ]

effective_user_limit-least_example : effective_user_limit app (codes "staff" ∷ []) ≤ₗ roof
effective_user_limit-least_example =
    effective_user_limit-least app (codes "staff" ∷ []) roof below_roof (record {
      number = omega arith;
      cpu = omega arith;
      memory = omega arith;
      storage = omega arith;
      security_group = omega arith;
    })

-- A reading of addresses that takes any text but the empty one.
abbrev is_ip : Text → Bool
is_ip [] = false
is_ip (c ∷ s) = true

validate-IsConfigured_example : (validate is_ip app ≡ none) ↔ IsConfigured is_ip app
validate-IsConfigured_example = validate-IsConfigured is_ip app
