-- ===== src/Examples/Admin.antt =====
-- The theorems on the administrators' requests at sample requests.
use pve_manage.Prelude.{ℕ, ◌≡◌, refl, Bool, true, false, Option, none, some, [], ◌∷◌, arith}
use pve_manage.Prelude.Int.{pos}
use pve_manage.Text.{Text, codes}
use pve_manage.Sql.{Except, ok}
use pve_manage.Tables.{Db, Vm, User, SecurityGroup}
use pve_manage.Config.{App}
use pve_manage.Api.{Request, reply, done}
use pve_manage.Api.Settles.{AllOrNothing, Never, Reread}
use pve_manage.Api.Admin.{handle_admin_patch_vm, handle_admin_set_quota_exempt}
use pve_manage.Api.AdminLaws.{IsReaddressed, handle_admin_patch_vm-IsReaddressed}
use pve_manage.Api.ExemptLaws.{IsExempted, handle_admin_set_quota_exempt-IsExempted}
use pve_manage.Api.Adoption.{AdoptBody, trimmed}
use pve_manage.Api.Adopt.{handle_admin_adopt_vm}
use pve_manage.Api.AdoptedUsage.{IsWithinOwn, handle_admin_adopt_vm-quota}
use pve_manage.Examples.{person, web, tables, session_of}
use pve_manage.Examples.Names.{app}
use pve_manage.Examples.Groups.{lab, student}
use pve_manage.Examples.Patches.{parse_key}

abbrev root : User
root = record (person (codes "root") []) { is_admin = true }

abbrev by_root : {B : Type 0} → B → Request B
by_root body = record { user = ok root; id = some 7; body = some body }

abbrev is_cidr : Text → Bool
is_cidr s = true

abbrev address : Text
address = codes "10.0.0.9/24"

handle_admin_patch_vm-IsReaddressed_example :
    AllOrNothing Never
      (IsReaddressed (by_root address) 7 address tables)
      tables
      (handle_admin_patch_vm app is_cidr (by_root address) (session_of tables)).0
      (handle_admin_patch_vm app is_cidr (by_root address) (session_of tables)).1.db
handle_admin_patch_vm-IsReaddressed_example =
    handle_admin_patch_vm-IsReaddressed app is_cidr (by_root address) 7 address (session_of tables)
      refl refl

handle_admin_set_quota_exempt-IsExempted_example :
    AllOrNothing
      (Reread 7)
      (IsExempted (by_root true) 7 true tables)
      tables
      (handle_admin_set_quota_exempt (by_root true) (session_of tables)).0
      (handle_admin_set_quota_exempt (by_root true) (session_of tables)).1.db
handle_admin_set_quota_exempt-IsExempted_example =
    handle_admin_set_quota_exempt-IsExempted (by_root true) 7 true (session_of tables) refl refl

-- The VM is not managed, and alice has a group.
abbrev strange : Db
strange = record tables {
  vms = record web { managed = false } ∷ [];
  users = student ∷ [];
  security_groups = lab ∷ [];
}

abbrev adoption : AdoptBody
adoption = record {
  owner_username = codes " alice";
  vmname = codes "alice-web";
  ip = address;
  password = none;
  cpu_key = codes "fast";
  cpu_cores = pos 2;
  memory_gb = pos 4;
  storage_key = codes "ssd";
  disk_gb = pos 20;
  bridge_key = codes "vmbr0";
  boot_order = [];
  sshkeys = [];
  ssh_key_ids = [];
  shared_usernames = [];
  security_group_owner = [];
  security_group_name = codes "lab";
  uestc_restricted = none;
  power = [];
}

abbrev draw : ℕ → Option ℕ
draw n = some 0

handle_admin_adopt_vm-quota_example :
    IsWithinOwn app
      (trimmed adoption).owner_username
      strange
      (handle_admin_adopt_vm app parse_key is_cidr draw
        (by_root adoption)
        (session_of strange)).1.db
unfolding handle_admin_adopt_vm pve_manage.Sql.◌>>=◌ pve_manage.Api.parsed pve_manage.Sql.on_error
    pve_manage.Sql.query pve_manage.Api.found pve_manage.Sql.◌>>◌ pve_manage.Api.require
    pve_manage.Text.trim_space pve_manage.Text.trim_right pve_manage.Text.trim_left
    pve_manage.Text.is_space pve_manage.Api.Keys.valid_username_like
    pve_manage.Vmname.validate_managed pve_manage.Vmname.validate_pve pve_manage.Vmname.prefixed
    pve_manage.Text.has_prefix pve_manage.Api.Admin.request_admin pve_manage.Api.Admin.require_admin
    pve_manage.Api.Adopt.adopt_as pve_manage.Api.Adopt.commit_adoption
    pve_manage.Api.Adoption.adopted_keys pve_manage.Api.Adoption.check_adopted_fields
    pve_manage.Api.Adoption.check_adopted_options pve_manage.Api.Adoption.check_adopted_quota
    pve_manage.Api.Adoption.plan_adoption pve_manage.Api.Allocation.list_user_vm_usage
    pve_manage.Api.Allocation.usage_of pve_manage.Api.Allocation.user_vm_usage
    pve_manage.Api.CreateChecks.normalize_boot_order pve_manage.Api.CreateChecks.password_from
    pve_manage.Api.CreateChecks.random_password pve_manage.Api.Groups.accepted
    pve_manage.Api.Keys.annotate_ssh_key_line pve_manage.Api.Keys.distinct_lines
    pve_manage.Api.Keys.load_keys pve_manage.Api.Keys.load_ssh_key_row
    pve_manage.Api.Keys.load_ssh_keys_by_ids pve_manage.Api.Keys.normalize_ssh_key_line
    pve_manage.Api.Keys.normalize_ssh_key_list pve_manage.Api.PatchBody.vm_power_from_raw
    pve_manage.Api.Placement.distinct_trimmed pve_manage.Api.Placement.normalize_string_list
    pve_manage.Api.load_vm_row pve_manage.Config.bridge_by_key pve_manage.Config.cluster_by_key
    pve_manage.Config.cpu_by_key pve_manage.Config.effective_user_limit pve_manage.Config.lookup
    pve_manage.Config.merge_groups pve_manage.Config.raise pve_manage.Config.storage_by_key
    pve_manage.Json.get pve_manage.Prelude.Int.◌+ℤ◌ pve_manage.Sql.exec pve_manage.Sql.in_tx
    pve_manage.Sql.with_now pve_manage.Tables.update_where pve_manage.Tasks.max_seq
    pve_manage.Tasks.queue_vm_task_tx pve_manage.Text.contains_string pve_manage.Text.text_eq
    pve_manage.Text.insert_text pve_manage.Text.sort_strings pve_manage.Text.text_ltb
    pve_manage.Text.to_lower pve_manage.Text.split pve_manage.Vmname.ascii_alpha_numeric
handle_admin_adopt_vm-quota_example =
    handle_admin_adopt_vm-quota app parse_key is_cidr draw (by_root adoption) 7 adoption
      (session_of strange) (record web { managed = false }) (reply 200 done) refl refl refl refl
      (omega arith) refl
