-- ===== src/Examples/Patches.antt =====
-- The theorem on the change of a VM at a sample request: alice sets a password.
use pve_manage.Prelude.{◌≡◌, refl, false, none, some, []}
use pve_manage.Text.{Text, codes}
use pve_manage.Sql.{Except, ok}
use pve_manage.Api.{Request, reply, done}
use pve_manage.Api.PatchBody.{PatchBody}
use pve_manage.Api.Patch.{handle_patch_vm}
use pve_manage.Examples.{person, alice, tables, session_of}
use pve_manage.Examples.Names.{app}

abbrev pub parse_key : Text → Except Text (Text × Text)
parse_key s = ok (s, [])

abbrev new_password : Request PatchBody
new_password = record {
  user = ok (person alice []);
  id = some 7;
  body = some (record {
    owner_username = none;
    vmname = none;
    password = some (codes " secret ");
    cpu_key = none;
    cpu_cores = none;
    memory_gb = none;
    storage_key = none;
    disk_gb = none;
    bridge_key = none;
    boot_order = none;
    template_vmid = none;
    sshkeys = none;
    ssh_key_ids = none;
    shared_usernames = none;
    security_group_name = none;
    uestc_restricted = none;
    quota_exempt = none;
    power = none;
  });
}

-- The request is accepted.
password_is_set :
    (handle_patch_vm app parse_key new_password (session_of tables)).0 ≡ ok (reply 200 done)
unfolding handle_patch_vm pve_manage.Sql.◌>>=◌ pve_manage.Api.request_vm pve_manage.Api.logged_in
    pve_manage.Api.parsed pve_manage.Sql.on_error pve_manage.Api.load_vm_row pve_manage.Sql.query
    pve_manage.Api.found pve_manage.Sql.◌>>◌ pve_manage.Api.require pve_manage.Api.vm_visible_to
    pve_manage.Text.text_eq pve_manage.Api.Patch.patch_rest pve_manage.Api.Patch.draft_patch
    pve_manage.Api.PatchFields.target_owner pve_manage.Vmname.validate_managed
    pve_manage.Api.Allocation.list_user_vm_usage pve_manage.Api.Allocation.usage_of
    pve_manage.Api.Allocation.user_vm_usage pve_manage.Api.CreateChecks.normalize_boot_order
    pve_manage.Api.Groups.accepted pve_manage.Api.Groups.valid_security_group_name
    pve_manage.Api.Keys.annotate_ssh_key_line pve_manage.Api.Keys.distinct_lines
    pve_manage.Api.Keys.load_keys pve_manage.Api.Keys.load_ssh_key_row
    pve_manage.Api.Keys.load_ssh_keys_by_ids pve_manage.Api.Keys.normalize_ssh_key_line
    pve_manage.Api.Keys.normalize_ssh_key_list pve_manage.Api.Keys.valid_username_like
    pve_manage.Api.Patch.check_patched_quota pve_manage.Api.Patch.commit_patch
    pve_manage.Api.Patch.edit pve_manage.Api.Patch.patch_power
    pve_manage.Api.PatchBody.has_owner_fields pve_manage.Api.PatchBody.on_field
    pve_manage.Api.PatchBody.patch_vm_has_non_power_changes
    pve_manage.Api.PatchBody.vm_power_from_raw pve_manage.Api.PatchFields.check_immutable
    pve_manage.Api.PatchFields.patch_keys pve_manage.Api.PatchFields.patch_options
    pve_manage.Api.PatchFields.patch_resources pve_manage.Api.Placement.distinct_trimmed
    pve_manage.Api.Placement.normalize_string_list pve_manage.Api.Vms.queue_vm_power_task_tx
    pve_manage.Config.bridge_by_key pve_manage.Config.cluster_by_key pve_manage.Config.cpu_by_key
    pve_manage.Config.effective_user_limit pve_manage.Config.lookup pve_manage.Config.merge_groups
    pve_manage.Config.raise pve_manage.Config.storage_by_key pve_manage.Json.get pve_manage.Json.put
    pve_manage.Prelude.Int.◌+ℤ◌ pve_manage.Prelude.Int.◌-ℤ◌ pve_manage.Sql.exec pve_manage.Sql.in_tx
    pve_manage.Sql.statement pve_manage.Sql.with_now pve_manage.Tables.update_where
    pve_manage.Tasks.max_seq pve_manage.Tasks.queue_vm_task_tx pve_manage.Text.contains_string
    pve_manage.Text.insert_text pve_manage.Text.sort_strings pve_manage.Text.text_ltb
    pve_manage.Text.is_space pve_manage.Text.to_lower pve_manage.Text.trim_left
    pve_manage.Text.trim_right pve_manage.Text.trim_space pve_manage.Text.has_prefix
    pve_manage.Text.split pve_manage.Vmname.prefixed pve_manage.Vmname.validate_pve
    pve_manage.Vmname.ascii_alpha_numeric
password_is_set = refl
