-- ===== src/Api/CreateOptions.antt =====
-- What `handleCreateVM` of internal/api/vm_handlers.go looks up for a request: the options in the
-- configuration, the template, the security group, and the room in the quota.
use pve_manage.Prelude.{◌+◌, Bool, true, not, ◌&&◌, ◌||◌, Option, none, some, find?}
use pve_manage.Prelude.Int.{ℤ, pos, leb_ℤ, ltb_ℤ, eqb_ℤ, ◌+ℤ◌}
use pve_manage.Text.{Text, codes, text_eq}
use pve_manage.Sql.{query, on_error, pure, ◌>>=◌, ◌>>◌}
use pve_manage.Tables.{Template}
use pve_manage.Config.{
  App, Cluster, BridgeConfig, UserLimit, cluster_by_key, cpu_by_key, storage_by_key, bridge_by_key,
  effective_user_limit,
}
use pve_manage.Api.{User, reply, Body, Api, require, parsed, server_error}
use pve_manage.Api.Groups.{is_group}
use pve_manage.Api.Allocation.{Usage, list_user_vm_usage}
use pve_manage.Api.CreateChecks.{CreateBody}

-- What the request selects in the configuration.
pub record Options : Type 0 where
  pub cluster : Cluster
  pub bridge : BridgeConfig
  pub template : Template

abbrev pub is_template : Text → ℤ → Template → Bool
is_template cluster_key vmid t =
    text_eq t.cluster_key cluster_key && eqb_ℤ (pos t.template_vmid) vmid

module _ (app : App) where
  -- The options that the request names, and its limits.
  unfoldable pub check_options : User → CreateBody → Api Options
  check_options user req = do
    cluster ← parsed (cluster_by_key app req.cluster_key) "unknown cluster"
    cpu ← parsed (cpu_by_key cluster req.cpu_key) "unknown cpu_key"
    storage ← parsed (storage_by_key cluster req.storage_key) "unknown storage_key"
    bridge ← parsed (bridge_by_key cluster req.bridge_key) "unknown bridge_key"
    require
        (not (
          ltb_ℤ cpu.limit req.cpu_cores
          || ltb_ℤ cpu.memory_limit req.memory_gb
          || ltb_ℤ storage.limit req.disk_gb))
        400 "requested resources exceed selected cluster option limit"
    row ←
        on_error (λ _. reply 400 (Body.message "template not found"))
          (query (λ db. find? (is_template req.cluster_key req.template_vmid) db.templates))
    template ← parsed row "template not found"
    group ←
        on_error (λ _. reply 400 (Body.message "security group not found or not owned by user"))
          (query (λ db. find? (is_group user.username req.security_group_name) db.security_groups))
    parsed group "security group not found or not owned by user"
    pure (record { cluster = cluster; bridge = bridge; template = template })

  abbrev pub is_configured : UserLimit → Bool
  is_configured quota = not (
      leb_ℤ quota.number (pos 0)
      || leb_ℤ quota.cpu (pos 0)
      || leb_ℤ quota.memory (pos 0)
      || leb_ℤ quota.storage (pos 0)
      || leb_ℤ quota.security_group (pos 0))

  abbrev pub fits_quota : UserLimit → Usage → CreateBody → Bool
  fits_quota quota used req = not (
      ltb_ℤ quota.number (pos (used.count + 1))
      || ltb_ℤ quota.cpu (used.cpu +ℤ req.cpu_cores)
      || ltb_ℤ quota.memory (used.memory +ℤ req.memory_gb)
      || ltb_ℤ quota.storage (used.storage +ℤ req.disk_gb))

  -- `effectiveQuota(current)`
  abbrev pub effective_quota : User → UserLimit
  effective_quota user = effective_user_limit app user.groups

  unfoldable pub check_quota : User → CreateBody → Api (Unit {0})
  check_quota user req = do
    require (is_configured (effective_quota user)) 403 "user quota is not configured"
    used ← on_error server_error (list_user_vm_usage user.username)
    require (fits_quota (effective_quota user) used req) 400 "quota exceeded"

  abbrev pub or_true : Option Bool → Bool
  or_true none = true
  or_true (some b) = b

  -- `chooseUESTC`
  abbrev pub chosen_uestc : User → CreateBody → Bool
  chosen_uestc user req =
      text_eq (effective_quota user).uestc (codes "force") || or_true req.uestc_restricted
