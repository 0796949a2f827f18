-- ===== src/Api/PatchFields.antt =====
-- What `handlePatchVM` of internal/api/vm_handlers.go does with each field of a request.
use pve_manage.Prelude.{
  String, Bool, true, false, not, ◌&&◌, Option, none, some, List, [], ◌∷◌, if◌then◌else◌, is_nil,
  all, find?,
}
use pve_manage.Prelude.Int.{ℤ, ltb_ℤ, eqb_ℤ}
use pve_manage.Text.{Text, codes, text_eq, contains_string, trim_space}
use pve_manage.Json.{Object, bool, num, str, strs, put, string_from_map, int_from_or_zero}
use pve_manage.Sql.{Except, query, on_error, pure, ◌>>=◌, ◌>>◌}
use pve_manage.Tables.{Db, Vm, User}
use pve_manage.Config.{App, Cluster, cluster_by_key, cpu_by_key, storage_by_key, bridge_by_key}
use pve_manage.Api.{Api, Body, Reply, reply, require, parsed}
use pve_manage.Api.Groups.{is_group, valid_security_group_name, accepted, bad_request}
use pve_manage.Api.Placement.{normalize_string_list}
use pve_manage.Api.Keys.{
  KeyError, no_rows, failed, valid_username_like, normalize_ssh_key_list, load_ssh_keys_by_ids,
}
use pve_manage.Api.CreateChecks.{normalize_boot_order}
use pve_manage.Api.CreateOptions.{is_template}
use pve_manage.Api.PatchBody.{PatchBody, Draft, put_both, change, reboot, on_field, has_resources}

-- A row that is required, whatever the error.
abbrev pub required_row : {A : Type 0} → (Db → Option A) → String → Api A
required_row find text = do
  row ← on_error (λ _. reply 400 (Body.message text)) (query find)
  parsed row text

-- `loadUserRow`
abbrev pub load_user_row : Text → Api User
load_user_row username =
    required_row (λ db. find? (λ u. text_eq u.username username) db.users) "owner user not found"

-- `loadSecurityGroupRow`
abbrev pub require_group : Text → Text → String → Api (Unit {0})
require_group owner name text =
    required_row (λ db. find? (is_group owner name) db.security_groups) text >> pure tt

-- The owner that the VM is to have.
unfoldable pub target_owner : User → Vm → Option Text → Api Text
target_owner user vm none = pure vm.owner_username
target_owner user vm (some raw) = do
  require user.is_admin 403 "permission denied"
  let owner = trim_space raw
  require (not (is_nil owner) && valid_username_like owner) 400 "invalid owner_username"
  load_user_row owner
  pure owner

abbrev pub patch_name : Text → Draft → Api Draft
patch_name raw d = do
  let name = trim_space raw
  require (not (is_nil name)) 400 "vmname is required"
  pure (
      change (record d {
        vm = record d.vm { vmname = name };
        prefer = put "vmname" (str name) d.prefer;
      }))

abbrev pub without_name : Option Text → Draft → Draft
without_name (some _) d = d
without_name none d = record d { prefer = put "vmname" (str d.vm.vmname) d.prefer }

abbrev pub keeps_group : Option Text → Text → Draft → Api (Unit {0})
keeps_group (some _) owner d = pure tt
keeps_group none owner d =
    require_group owner d.vm.security_group_name "current security group not found for new owner"

abbrev pub patch_owner : PatchBody → Text → Draft → Api Draft
patch_owner req owner d = do
  keeps_group req.security_group_name owner d
  pure (
      change (
        put_both "owner_username" (str owner)
          (without_name req.vmname (record d { vm = record d.vm { owner_username = owner } }))))

abbrev pub patch_password : Text → Draft → Api Draft
patch_password raw d = do
  let password = trim_space raw
  require (not (is_nil password)) 400 "password is required"
  pure (
      change (
        reboot (record d {
          vm = record d.vm { password = password };
          cfg = put "password_synced" (bool false) d.cfg;
        })))

-- A field that is fixed at the creation.
abbrev pub same_text : Text → Option Text → Bool
same_text old none = true
same_text old (some raw) = text_eq (trim_space raw) old

abbrev pub same_int : ℤ → Option ℤ → Bool
same_int old none = true
same_int old (some n) = eqb_ℤ n old

unfoldable pub check_immutable : Object → PatchBody → Api (Unit {0})
check_immutable old req = do
  require (same_text (string_from_map old "cpu_key") req.cpu_key) 400
      "cpu_key is immutable after creation"
  require (same_text (string_from_map old "bridge_key") req.bridge_key) 400
      "bridge_key is immutable after creation"
  require (same_int (int_from_or_zero old "template_vmid") req.template_vmid) 400
      "template_vmid is immutable after creation"

abbrev pub with_keys : List Text → Draft → Draft
with_keys keys d =
    change (put_both "sshkeys" (strs keys) (record d { vm = record d.vm { sshkeys = keys } }))

-- The message of the error of `loadSSHKeysByIDs`.
abbrev pub key_failure : KeyError → Reply
key_failure no_rows = bad_request (codes "sql: no rows in result set")
key_failure (failed e) = bad_request e

abbrev pub patch_shared : List Text → Draft → Api Draft
patch_shared raw d = do
  let shared = normalize_string_list raw
  require (all valid_username_like shared) 400 "invalid shared username"
  require (not (contains_string shared d.vm.owner_username)) 400
      "owner cannot be in shared_usernames"
  pure (
      change (
        put_both "shared_usernames" (strs shared)
          (record d { vm = record d.vm { shared_usernames = shared } })))

abbrev pub patch_group : Text → Text → Draft → Api Draft
patch_group owner name d = do
  require (valid_security_group_name name) 400 "invalid security_group_name"
  require_group owner name "security group not found or not owned by owner"
  pure (
      change (
        put_both "security_group_name" (str name)
          (record d { vm = record d.vm { security_group_name = name } })))

abbrev pub patch_uestc : Bool → Draft → Api Draft
patch_uestc restricted d = pure (
    change (
      put_both "uestc_restricted" (bool restricted)
        (record d { vm = record d.vm { uestc_restricted = restricted } })))

module _ (parse_key : Text → Except Text (Text × Text)) where
  -- The ids come first; the keys of the request are read where there are none.
  unfoldable pub patch_keys : Text → Option (List ℤ) → Option (List Text) → Draft → Api Draft
  patch_keys owner (some []) keys d = pure (with_keys [] d)
  patch_keys owner (some (id ∷ ids)) keys d = do
    loaded ← on_error key_failure (load_ssh_keys_by_ids parse_key owner (id ∷ ids))
    pure (with_keys loaded d)
  patch_keys owner none none d = pure d
  patch_keys owner none (some keys) d = do
    normalized ← accepted (normalize_ssh_key_list parse_key keys)
    pure (with_keys normalized d)

-- The fields that need the configuration of the cluster.
module _ (cluster : Cluster) where
  abbrev pub patch_cpu_key : Text → Draft → Api Draft
  patch_cpu_key key d = do
    parsed (cpu_by_key cluster key) "unknown cpu_key"
    pure (reboot (put_both "cpu_key" (str key) d))

  abbrev pub patch_storage_key : Text → Draft → Api Draft
  patch_storage_key key d = do
    parsed (storage_by_key cluster key) "unknown storage_key"
    pure (put_both "storage_key" (str key) d)

  abbrev pub patch_bridge_key : Text → Draft → Api Draft
  patch_bridge_key key d = do
    bridge ← parsed (bridge_by_key cluster key) "unknown bridge_key"
    pure (reboot (put_both "gateway" (str bridge.ipv4.gateway) (put_both "bridge_key" (str key) d)))

  abbrev pub patch_boot_order : Text → Draft → Api Draft
  patch_boot_order raw d = do
    order ← accepted (normalize_boot_order raw)
    pure (reboot (put_both "boot_order" (str order) d))

  abbrev pub patch_template : ℤ → Draft → Api Draft
  patch_template vmid d = do
    required_row (λ db. find? (is_template d.vm.cluster_key vmid) db.templates) "template not found"
    pure (reboot (put_both "template_vmid" (num vmid) d))

  abbrev pub patch_number : String → ℤ → Draft → Api Draft
  patch_number key n d = pure (reboot (put_both key (num n) d))

  abbrev pub patch_disk : ℤ → ℤ → Draft → Api Draft
  patch_disk old_disk n d = do
    require (not (ltb_ℤ n old_disk)) 400 "disk_gb can only increase"
    patch_number "disk_gb" n d

  unfoldable pub patch_resources : Object → PatchBody → Draft → Api Draft
  patch_resources old req d = do
    d ← on_field req.cpu_key patch_cpu_key d
    d ← on_field req.storage_key patch_storage_key d
    d ← on_field req.bridge_key patch_bridge_key d
    d ← on_field req.boot_order patch_boot_order d
    d ← on_field req.template_vmid patch_template d
    d ← on_field req.cpu_cores (patch_number "cpu_cores") d
    d ← on_field req.memory_gb (patch_number "memory_gb") d
    d ← on_field req.disk_gb (patch_disk (int_from_or_zero old "disk_gb")) d
    pure (change d)

-- The boot order alone is no change: the condition on the fields does not have it.
unfoldable pub patch_options : App → Bool → Object → PatchBody → Draft → Api Draft
patch_options app shared_only old req d = if not (has_resources req) then pure d else do
  require (not shared_only) 403 "shared users can only change power"
  cluster ← parsed (cluster_by_key app d.vm.cluster_key) "unknown cluster"
  patch_resources cluster old req d
