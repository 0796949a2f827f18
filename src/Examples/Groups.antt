-- ===== src/Examples/Groups.antt =====
-- The theorems on security groups at sample requests.
use pve_manage.Prelude.{refl, Option, none, some, [], ◌∷◌, All, if◌then◌else◌}
use pve_manage.Prelude.Int.{pos, ◌≤ℤ◌}
use pve_manage.Text.{
  Text, codes, text_eq, to_lower, to_upper, trim_space, trim_left, trim_right, is_space,
}
use pve_manage.Sql.{exec, statement, query, in_tx, with_now, on_error, ◌>>=◌, ◌>>◌, ok}
use pve_manage.Tables.{Db, SecurityGroup, SecurityRule, update_where}
use pve_manage.Config.{effective_user_limit, merge_groups, raise, lookup}
use pve_manage.Api.{User, reply, done, require, parsed, logged_in}
use pve_manage.Api.Rules.{
  Address, normalize_cidr, rule_error, port_error, normalize_rule, normalize_firewall_action,
  normalize_security_group_rules, normalize_firewall_policy_input, normalize_firewall_policies,
}
use pve_manage.Api.RuleLaws.{IsRule, normalize_security_group_rules-IsRule}
use pve_manage.Api.Groups.{
  GroupRequest, valid_security_group_name, count_user_security_groups, accepted, group_quota,
  handle_create_security_group, handle_patch_security_group, handle_delete_security_group,
}
use pve_manage.Api.GroupLaws.{
  IsGone, IsMarked, handle_delete_security_group-IsGone, handle_patch_security_group-IsMarked,
}
use pve_manage.Api.Quota.{handle_create_security_group-quota}
use pve_manage.Examples.{person, alice, web, tables, session_of}
use pve_manage.Examples.Names.{app}

-- Readings of addresses that know one of each family.
abbrev parse_ip : Text → Option Address
parse_ip s =
    if text_eq s (codes "::1")
    then some (record { text = codes "::1"; v4 = none })
    else if text_eq s (codes "10.0.0.1")
    then some (record { text = codes "10.0.0.1"; v4 = some (codes "10.0.0.1") })
    else none

abbrev parse_cidr : Text → Option Address
parse_cidr s = none

abbrev ssh : SecurityRule
ssh = record {
  direction = codes "in";
  action = codes "accept";
  ethertype = codes "ipv4";
  protocol = codes "tcp";
  cidr = codes "10.0.0.1";
  port_start = some (pos 22);
  port_end = some (pos 22);
}

abbrev stored_ssh : SecurityRule
stored_ssh = record ssh { cidr = codes "10.0.0.1/32" }

abbrev pub student : User
student = person alice (codes "students" ∷ [])

abbrev request : GroupRequest
request = record {
  user = ok student;
  name = codes "lab";
  body =
      some (record {
        name = codes "lab";
        policy_in = codes "drop";
        policy_out = [];
        rules = ssh ∷ [];
      });
}

abbrev pub lab : SecurityGroup
lab = record {
  owner_username = alice;
  name = codes "lab";
  rules = [];
  policy_in = codes "ACCEPT";
  policy_out = codes "ACCEPT";
  updated_at = 0;
}

-- Alice's VM follows the group.
abbrev pub grouped : Db
grouped = record tables {
  vms = record web { security_group_name = codes "lab" } ∷ [];
  security_groups = lab ∷ [];
}

abbrev unused : Db
unused = record tables { security_groups = lab ∷ [] }

normalize_security_group_rules-IsRule_example : All IsRule (stored_ssh ∷ [])
unfolding normalize_security_group_rules normalize_rule rule_error text_eq normalize_cidr port_error
    normalize_firewall_action to_lower trim_space trim_right trim_left is_space
normalize_security_group_rules-IsRule_example =
    normalize_security_group_rules-IsRule parse_ip parse_cidr (ssh ∷ []) (stored_ssh ∷ []) refl

handle_delete_security_group-IsGone_example :
    IsGone alice (codes "lab") (handle_delete_security_group request (session_of unused)).1.db
unfolding handle_delete_security_group ◌>>=◌ logged_in on_error query ◌>>◌ require text_eq statement
handle_delete_security_group-IsGone_example =
    handle_delete_security_group-IsGone request student refl (session_of unused) (reply 200 done)
      refl

handle_patch_security_group-IsMarked_example :
    IsMarked alice
      (codes "lab")
      grouped.vm_tasks
      (handle_patch_security_group app parse_ip parse_cidr request (session_of grouped)).1.db
unfolding handle_patch_security_group ◌>>=◌ logged_in parsed ◌>>◌ require text_eq accepted on_error
    statement with_now normalize_security_group_rules normalize_rule rule_error normalize_cidr
    port_error normalize_firewall_policies normalize_firewall_policy_input to_upper trim_space
    trim_right trim_left is_space normalize_firewall_action to_lower exec in_tx update_where
handle_patch_security_group-IsMarked_example =
    handle_patch_security_group-IsMarked app parse_ip parse_cidr request student refl
      (session_of grouped) (reply 200 done) refl

handle_create_security_group-quota_example :
    pos (
      count_user_security_groups alice
        (handle_create_security_group app parse_ip parse_cidr request (session_of tables)).1.db)
    ≤ℤ group_quota app student
unfolding handle_create_security_group ◌>>=◌ logged_in parsed ◌>>◌ require text_eq accepted on_error
    statement with_now normalize_security_group_rules normalize_rule rule_error normalize_cidr
    port_error normalize_firewall_policies normalize_firewall_policy_input to_upper trim_space
    trim_right trim_left is_space normalize_firewall_action to_lower valid_security_group_name
    effective_user_limit merge_groups lookup query count_user_security_groups raise
handle_create_security_group-quota_example =
    handle_create_security_group-quota app parse_ip parse_cidr request student refl
      (session_of tables) (reply 201 done) refl
