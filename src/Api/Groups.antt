-- ===== src/Api/Groups.antt =====
-- Security groups: the handlers of internal/api/security_handlers.go that change them.
use pve_manage.Prelude.{
  ℕ, suc, ◌+◌, Bool, false, not, ◌&&◌, ◌||◌, Option, none, List, [], ◌∷◌, ◌++◌, if◌then◌else◌,
  is_nil, all, any, filter, leb, ltb, ◌==◌, length,
}
use pve_manage.Prelude.Int.{ℤ, pos, leb_ℤ, ltb_ℤ}
use pve_manage.Text.{Text, text_eq, codes}
use pve_manage.Sql.{
  Except, ok, err, exec, statement, query, in_tx, with_now, pure, fail, on_error, ◌>>=◌, ◌>>◌,
}
use pve_manage.Tables.{
  Db, Vm, SecurityGroup, SecurityRule, SyncState, is_null, update_where, delete_where, is_deleting,
}
use pve_manage.Config.{App, effective_user_limit}
use pve_manage.Api.{User, Reply, reply, Body, Api, require, parsed, logged_in, server_error}
use pve_manage.Api.Rules.{Address, normalize_security_group_rules, normalize_firewall_policies}

-- `securityGroupRequest`
pub record GroupBody : Type 0 where
  pub name : Text
  pub policy_in : Text
  pub policy_out : Text
  pub rules : List SecurityRule

-- What the session, the path and the body give a handler.
pub record GroupRequest : Type 0 where
  pub user : Except Text User
  pub name : Text
  pub body : Option GroupBody

abbrev pub is_lower_alnum : ℕ → Bool
is_lower_alnum c = (leb 97 c && leb c 122) || (leb 48 c && leb c 57)

abbrev pub last_is_alnum : Text → Bool
last_is_alnum [] = false
last_is_alnum (c ∷ []) = is_lower_alnum c
last_is_alnum (c ∷ d ∷ s) = last_is_alnum (d ∷ s)

abbrev pub starts_alnum : Text → Bool
starts_alnum [] = false
starts_alnum (c ∷ s) = is_lower_alnum c

-- `validSecurityGroupName`: 1 to 33 lower-case letters, digits and inner hyphens.
unfoldable pub valid_security_group_name : Text → Bool
valid_security_group_name name =
    starts_alnum name
    && last_is_alnum name
    && leb (length name) 33
    && all (λ c. is_lower_alnum c || c == 45) name

-- `WHERE owner_username = … AND name = …`
abbrev pub is_group : Text → Text → SecurityGroup → Bool
is_group owner name g = text_eq g.owner_username owner && text_eq g.name name

-- `countUserSecurityGroups`
unfoldable pub count_user_security_groups : Text → Db → ℕ
count_user_security_groups owner db =
    length (filter (λ g. text_eq g.owner_username owner) db.security_groups)

-- `UNIQUE(owner_username, name)` refuses a second row.
abbrev pub insert_group : SecurityGroup → Db → Except Text (Unit {0} × Db)
insert_group g db =
    if any (is_group g.owner_username g.name) db.security_groups
    then err (codes "duplicate key value violates unique constraint")
    else ok (tt, record db { security_groups = db.security_groups ++ g ∷ [] })

abbrev pub bad_request : Text → Reply
bad_request e = reply 400 (Body.failure e)

-- `if err != nil { s.jsonError(w, http.StatusBadRequest, err.Error()); return }`
unfoldable pub accepted : {A : Type 0} → Except Text A → Api A
accepted (ok a) = pure a
accepted (err e) = fail (bad_request e)

-- The VMs that a change of a group is for.
abbrev pub follows_group : Text → Text → Vm → Bool
follows_group owner name v =
    text_eq v.owner_username owner
    && text_eq v.security_group_name name
    && is_null v.deleted_at
    && v.managed
    && not (is_deleting v.sync_state)

abbrev pub update_groups : Text → Text → (SecurityGroup → SecurityGroup) → Db → Except Text (ℕ × Db)
update_groups owner name f db = ok (
  length (filter (is_group owner name) db.security_groups),
  record db { security_groups = update_where (is_group owner name) f db.security_groups },
)

abbrev pub mark_followers : Text → Text → ℕ → Db → Db
mark_followers owner name now db = record db {
  vms =
      update_where (follows_group owner name)
        (λ v. record v {
          sync_state = SyncState.pending;
          sync_error = none;
          updated_at = now;
          version = suc v.version;
        })
        db.vms;
}

-- `effectiveQuota(current).SecurityGroup`
abbrev pub group_quota : App → User → ℤ
group_quota app user = (effective_user_limit app user.groups).security_group

module _ (app : App) (parse_ip parse_cidr : Text → Option Address) where
  -- `handleCreateSecurityGroup`
  unfoldable pub handle_create_security_group : GroupRequest → Api Reply
  handle_create_security_group r = do
    user ← logged_in r.user
    req ← parsed r.body "invalid json"
    require (valid_security_group_name req.name) 400 "invalid security group name"
    require (not (leb_ℤ (group_quota app user) (pos 0))) 403 "security group quota not configured"
    count ← on_error server_error (query (count_user_security_groups user.username))
    require (not (ltb_ℤ (group_quota app user) (pos (count + 1)))) 400
        "security group quota exceeded"
    rules ← accepted (normalize_security_group_rules parse_ip parse_cidr req.rules)
    policies ← accepted (normalize_firewall_policies req.policy_in req.policy_out)
    with_now λ now. on_error bad_request (
        statement (
          insert_group (record {
            owner_username = user.username;
            name = req.name;
            rules = rules;
            policy_in = policies.0;
            policy_out = policies.1;
            updated_at = now;
          })))
    pure (reply 201 Body.done)

  -- `handlePatchSecurityGroup`
  unfoldable pub handle_patch_security_group : GroupRequest → Api Reply
  handle_patch_security_group r = do
    user ← logged_in r.user
    req ← parsed r.body "invalid json"
    require (is_nil req.name || text_eq req.name r.name) 400
        "renaming security group is not supported"
    rules ← accepted (normalize_security_group_rules parse_ip parse_cidr req.rules)
    policies ← accepted (normalize_firewall_policies req.policy_in req.policy_out)
    with_now λ now. in_tx server_error do
      affected ← on_error server_error (
          statement (
            update_groups user.username r.name (λ g. record g {
              rules = rules;
              policy_in = policies.0;
              policy_out = policies.1;
              updated_at = now;
            })))
      require (not (affected == 0)) 404 "security group not found"
      on_error server_error (exec (mark_followers user.username r.name now))
    pure (reply 200 Body.done)

-- A VM that is not deleted and uses the group.
abbrev pub uses_group : Text → Text → Vm → Bool
uses_group owner name v =
    text_eq v.owner_username owner && text_eq v.security_group_name name && is_null v.deleted_at

abbrev pub delete_groups : Text → Text → Db → Except Text (ℕ × Db)
delete_groups owner name db = ok (
  length (filter (is_group owner name) db.security_groups),
  record db { security_groups = delete_where (is_group owner name) db.security_groups },
)

-- `handleDeleteSecurityGroup`
unfoldable pub handle_delete_security_group : GroupRequest → Api Reply
handle_delete_security_group r = do
  user ← logged_in r.user
  count ←
      on_error server_error (query (λ db. length (filter (uses_group user.username r.name) db.vms)))
  require (not (ltb 0 count)) 400 "security group is still in use"
  affected ← on_error server_error (statement (delete_groups user.username r.name))
  require (not (affected == 0)) 404 "security group not found"
  pure (reply 200 Body.done)
