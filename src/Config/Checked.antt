-- ===== src/Config/Checked.antt =====
-- The configurations that `Validate` of internal/config/config.go accepts.
use pve_manage.Prelude.{◌≡◌, ◌↔◌, refl, Bool, false, Option, none, some, [], ◌∷◌, arith, All-weaken}
use pve_manage.Text.{Text, codes, text_eq_iff, to_lower}
use pve_manage.Config.{App, Cluster, BridgeConfig, UserLimit, ClusterToken, Oidc, lookup}
use pve_manage.Config.Checks.{
  ConfigError, is_none, check_bridge, check_cluster, check_limit, check_oidc, check_has_token,
  check_token, validate,
}
use pve_manage.Config.Passed.{refuse_iff, each_iff, one_of_iff, false_of_not, not_of_true}
use pve_manage.Config.Configured.{
  IsBridge, IsCluster, IsLimit, IsOidc, IsToken, HasToken, IsConfigured,
}

module _ (is_ip : Text → Bool) where
  IsBridge-iff :
      (key : Text) (b : Text × BridgeConfig)
      → (check_bridge is_ip key b ≡ none) ↔ IsBridge is_ip b.1
  unfolding check_bridge
  IsBridge-iff key (k, b) = (
    λ h.
        let (p0, h1) = (refuse_iff _ _ _).0 h in
        let (p, h2) = (refuse_iff _ _ _).0 h1 in
        let (q, h3) = (refuse_iff _ _ _).0 h2 in
        let (r, h4) = (refuse_iff _ _ _).0 h3 in
        let (t, _) = (refuse_iff _ _ _).0 h4 in
        record {
          static = (text_eq_iff b.ipv4.kind (codes "static")).0 (ground arith);
          start_ip = ground arith;
          gateway = ground arith;
          cidr_low = ground arith;
          cidr_high = ground arith;
          ipv6 = t;
        },
    λ g.
        let kind = (text_eq_iff b.ipv4.kind (codes "static")).1 g.static in
        let start_ip = g.start_ip in
        let gateway = g.gateway in
        let low = g.cidr_low in
        let high = g.cidr_high in
        (refuse_iff _ _ _).1 (
          ground arith,
          (refuse_iff _ _ _).1 (
            ground arith,
            (refuse_iff _ _ _).1 (
              ground arith,
              (refuse_iff _ _ _).1 (ground arith, (refuse_iff _ _ _).1 (g.ipv6, refl)),
            ),
          ),
        ),
  )

  IsCluster-iff : (c : Text × Cluster) → (check_cluster is_ip c ≡ none) ↔ IsCluster is_ip c.1
  unfolding check_cluster
  IsCluster-iff (k, c) = (
    λ h.
        let (n, h1) = (refuse_iff _ _ _).0 h in
        let (p, h2) = (refuse_iff _ _ _).0 h1 in
        let (q, h3) = (refuse_iff _ _ _).0 h2 in
        let (r, h4) = (refuse_iff _ _ _).0 h3 in
        let (t, h5) = (refuse_iff _ _ _).0 h4 in
        let (u, h6) = (refuse_iff _ _ _).0 h5 in
        let (v, _) = (each_iff (check_bridge is_ip k) c.bridge none).0 h6 in
        record {
          named = n;
          limit = ground arith;
          start_vmid = ground arith;
          has_cpu = r;
          has_storage = t;
          has_bridge = u;
          bridges = All-weaken _ _ c.bridge (λ b. (IsBridge-iff k b).0) v;
        },
    λ g.
        let limit = g.limit in
        let start = g.start_vmid in
        let bridges = All-weaken _ _ c.bridge (λ b. (IsBridge-iff k b).1) g.bridges in
        (refuse_iff _ _ _).1 (
          g.named,
          (refuse_iff _ _ _).1 (
            ground arith,
            (refuse_iff _ _ _).1 (
              ground arith,
              (refuse_iff _ _ _).1 (
                g.has_cpu,
                (refuse_iff _ _ _).1 (
                  g.has_storage,
                  (refuse_iff _ _ _).1 (
                    g.has_bridge,
                    (each_iff (check_bridge is_ip k) c.bridge none).1 (bridges, refl),
                  ),
                ),
              ),
            ),
          ),
        ),
  )

  IsLimit-iff : (l : Text × UserLimit) → (check_limit is_ip l ≡ none) ↔ IsLimit l.1
  unfolding check_limit
  IsLimit-iff (k, l) =
      let choices = one_of_iff (codes "choose" ∷ codes "force" ∷ []) l.uestc in
      (
        λ h.
            let (p, h1) = (refuse_iff _ _ _).0 h in
            let (q, _) = (refuse_iff _ _ _).0 h1 in
            record {
              number = ground arith;
              cpu = ground arith;
              memory = ground arith;
              storage = ground arith;
              security_group = ground arith;
              uestc = choices.0 (false_of_not _ q);
            },
        λ g.
            let number = g.number in
            let cpu = g.cpu in
            let memory = g.memory in
            let storage = g.storage in
            let groups = g.security_group in
            (refuse_iff _ _ _).1
              (ground arith, (refuse_iff _ _ _).1 (not_of_true _ (choices.1 g.uestc), refl)),
      )

  IsOidc-iff :
      (o : Oidc) (rest : Option ConfigError)
      → (check_oidc is_ip o rest ≡ none) ↔ (IsOidc o × (rest ≡ none))
  unfolding check_oidc
  IsOidc-iff o rest =
      let sites =
        one_of_iff (codes "lax" ∷ codes "strict" ∷ codes "none" ∷ [])
          (to_lower o.cookie_same_site) in
      (
        λ h.
            let (p, h1) = (refuse_iff _ _ _).0 h in
            let (q, h2) = (refuse_iff _ _ _).0 h1 in
            let (r, h3) = (refuse_iff _ _ _).0 h2 in
            let (t, h4) = (refuse_iff _ _ _).0 h3 in
            let (u, h5) = (refuse_iff _ _ _).0 h4 in
            (
              record {
                issuer = ground arith;
                client_id = ground arith;
                redirect_url = ground arith;
                username_claim = ground arith;
                groups_claim = ground arith;
                cookie_name = r;
                max_age = ground arith;
                same_site = sites.0 (false_of_not _ u);
              },
              h5,
            ),
        λ (g, k).
            let issuer = g.issuer in
            let client = g.client_id in
            let url = g.redirect_url in
            let name = g.username_claim in
            let groups = g.groups_claim in
            let age = g.max_age in
            (refuse_iff _ _ _).1 (
              ground arith,
              (refuse_iff _ _ _).1 (
                ground arith,
                (refuse_iff _ _ _).1 (
                  g.cookie_name,
                  (refuse_iff _ _ _).1
                      (ground arith, (refuse_iff _ _ _).1 (not_of_true _ (sites.1 g.same_site), k)),
                ),
              ),
            ),
      )

  is_none_iff :
      (o : Option ClusterToken) → (is_none o ≡ false) ↔ ((t : ClusterToken) × (o ≡ some t))
  is_none_iff none = (λ h. cc, λ (t, h). cc)
  is_none_iff (some t) = (λ h. (t, refl), λ k. refl)

  HasToken-iff :
      (a : App) (c : Text × Cluster) → (check_has_token is_ip a c ≡ none) ↔ HasToken a c.0
  unfolding check_has_token
  HasToken-iff a (k, c) = (
    λ h. (is_none_iff (lookup k a.tokens)).0 ((refuse_iff _ _ _).0 h).0,
    λ g. (refuse_iff _ _ _).1 ((is_none_iff (lookup k a.tokens)).1 g, refl),
  )

  IsToken-iff : (t : Text × ClusterToken) → (check_token is_ip t ≡ none) ↔ IsToken t.1
  unfolding check_token
  IsToken-iff (k, t) = (
    λ h.
        let (p, _) = (refuse_iff _ _ _).0 h in record { site = ground arith; token = ground arith },
    λ g. let site = g.site in let token = g.token in (refuse_iff _ _ _).1 (ground arith, refl),
  )

  -- The check accepts a configuration if and only if it has a cluster and a limit; every cluster a
  -- name, a positive limit and first id, a CPU class, a storage class and a bridge, each bridge the
  -- kind static, addresses, a prefix length from 0 to 32 and a kind of IPv6; no limit is negative and
  -- each has choose or force; the sign-in has an issuer, a client, a redirect address, the claims of
  -- the user's name and groups, a cookie name, a positive age and one of the three same-site modes; every cluster has a token, and every token a site and a text.
  pub validate-IsConfigured : (a : App) → (validate is_ip a ≡ none) ↔ IsConfigured is_ip a
  unfolding validate
  validate-IsConfigured a = (
    λ h.
        let (n, h1) = (refuse_iff _ _ _).0 h in
        let (m, h2) = (refuse_iff _ _ _).0 h1 in
        let (cs, h3) = (each_iff (check_cluster is_ip) a.cluster _).0 h2 in
        let (ls, h4) = (each_iff (check_limit is_ip) a.limit _).0 h3 in
        let (o, h5) = (IsOidc-iff a.oidc _).0 h4 in
        let (has, h6) = (each_iff (check_has_token is_ip a) a.cluster _).0 h5 in
        let (ts, _) = (each_iff (check_token is_ip) a.tokens none).0 h6 in
        record {
          has_cluster = n;
          has_limit = m;
          clusters = All-weaken _ _ a.cluster (λ c. (IsCluster-iff c).0) cs;
          limits = All-weaken _ _ a.limit (λ l. (IsLimit-iff l).0) ls;
          oidc = o;
          has_tokens = All-weaken _ _ a.cluster (λ c. (HasToken-iff a c).0) has;
          tokens = All-weaken _ _ a.tokens (λ t. (IsToken-iff t).0) ts;
        },
    λ g.
        let cs = All-weaken _ _ a.cluster (λ c. (IsCluster-iff c).1) g.clusters in
        let ls = All-weaken _ _ a.limit (λ l. (IsLimit-iff l).1) g.limits in
        let has = All-weaken _ _ a.cluster (λ c. (HasToken-iff a c).1) g.has_tokens in
        let ts = All-weaken _ _ a.tokens (λ t. (IsToken-iff t).1) g.tokens in
        (refuse_iff _ _ _).1 (
          g.has_cluster,
          (refuse_iff _ _ _).1 (
            g.has_limit,
            (each_iff (check_cluster is_ip) a.cluster _).1 (
              cs,
              (each_iff (check_limit is_ip) a.limit _).1 (
                ls,
                (IsOidc-iff a.oidc _).1 (
                  g.oidc,
                  (each_iff (check_has_token is_ip a) a.cluster _).1
                      (has, (each_iff (check_token is_ip) a.tokens none).1 (ts, refl)),
                ),
              ),
            ),
          ),
        ),
  )
