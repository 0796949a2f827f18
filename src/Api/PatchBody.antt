-- ===== src/Api/PatchBody.antt =====
-- The request of `handlePatchVM` of internal/api/vm_handlers.go, and the VM as it is edited.
use pve_manage.Prelude.{Bool, true, false, not, ◌&&◌, ◌||◌, Option, none, some, List}
use pve_manage.Prelude.Int.{ℤ}
use pve_manage.Prelude.{String}
use pve_manage.Text.{Text, codes, text_eq}
use pve_manage.Json.{Object, Value, put, get, or_empty, as_string, or_fallback}
use pve_manage.Sql.{pure}
use pve_manage.Tables.{Vm, is_null}
use pve_manage.Api.{User, Api}

-- `patchVMRequest`
pub record PatchBody : Type 0 where
  pub owner_username : Option Text
  pub vmname : Option Text
  pub password : Option Text
  pub cpu_key : Option Text
  pub cpu_cores : Option ℤ
  pub memory_gb : Option ℤ
  pub storage_key : Option Text
  pub disk_gb : Option ℤ
  pub bridge_key : Option Text
  pub boot_order : Option Text
  pub template_vmid : Option ℤ
  pub sshkeys : Option (List Text)
  pub ssh_key_ids : Option (List ℤ)
  pub shared_usernames : Option (List Text)
  pub security_group_name : Option Text
  pub uestc_restricted : Option Bool
  pub quota_exempt : Option Bool
  pub power : Option Text

abbrev pub has : {A : Type 0} → Option A → Bool
has field = not (is_null field)

-- The fields that a user with whom the VM is shared may not send.
unfoldable pub has_owner_fields : PatchBody → Bool
has_owner_fields req =
    has req.vmname
    || has req.password
    || has req.cpu_key
    || has req.cpu_cores
    || has req.memory_gb
    || has req.storage_key
    || has req.disk_gb
    || has req.bridge_key
    || has req.boot_order
    || has req.template_vmid
    || has req.sshkeys
    || has req.ssh_key_ids
    || has req.shared_usernames
    || has req.security_group_name
    || has req.uestc_restricted

-- `patchVMHasNonPowerChanges`
unfoldable pub patch_vm_has_non_power_changes : PatchBody → Bool
patch_vm_has_non_power_changes req =
    has req.owner_username
    || has req.vmname
    || has req.password
    || has req.cpu_key
    || has req.cpu_cores
    || has req.memory_gb
    || has req.storage_key
    || has req.disk_gb
    || has req.bridge_key
    || has req.boot_order
    || has req.template_vmid
    || has req.sshkeys
    || has req.ssh_key_ids
    || has req.shared_usernames
    || has req.security_group_name
    || has req.uestc_restricted
    || has req.quota_exempt

-- The fields that need the configuration of the cluster.
abbrev pub has_resources : PatchBody → Bool
has_resources req =
    has req.cpu_key
    || has req.storage_key
    || has req.bridge_key
    || has req.template_vmid
    || has req.cpu_cores
    || has req.memory_gb
    || has req.disk_gb

-- The fields for which the quota is checked.
abbrev pub needs_quota : PatchBody → Bool
needs_quota req =
    has req.cpu_cores
    || has req.memory_gb
    || has req.disk_gb
    || has req.storage_key
    || has req.owner_username

-- `sharedOnly`
abbrev pub is_shared_only : User → Vm → Bool
is_shared_only user vm = not (text_eq user.username vm.owner_username) && not user.is_admin

-- The variables of the handler that change: `vm`, `cfg`, `prefer`, `changed` and `rebootNeeded`.
pub record Draft : Type 0 where
  pub vm : Vm
  pub cfg : Object
  pub prefer : Object
  pub changed : Bool
  pub reboot_needed : Bool

abbrev pub draft_of : Vm → Draft
draft_of vm = record {
  vm = vm;
  cfg = or_empty vm.config;
  prefer = or_empty vm.prefer_status;
  changed = false;
  reboot_needed = false;
}

-- `cfg[key] = value; prefer[key] = value`
abbrev pub put_both : String → Value → Draft → Draft
put_both key value d = record d { cfg = put key value d.cfg; prefer = put key value d.prefer }

abbrev pub change : Draft → Draft
change d = record d { changed = true }

abbrev pub reboot : Draft → Draft
reboot d = record d { reboot_needed = true }

-- `if field != nil { … }`
unfoldable pub on_field : {A : Type 0} → Option A → (A → Draft → Api Draft) → Draft → Api Draft
on_field none step d = pure d
on_field (some a) step d = step a d

-- `field != nil && !sharedOnly`
abbrev pub unless_shared : {A : Type 0} → Bool → Option A → Option A
unless_shared true field = none
unless_shared false field = field

-- `vmPowerFromRaw`
abbrev pub power_of : Object → Text
power_of status =
    or_fallback (as_string (get "power" status))
      (or_fallback (as_string (get "status" status)) (codes "unknown"))

unfoldable pub vm_power_from_raw : Option Object → Text
vm_power_from_raw none = codes "unknown"
vm_power_from_raw (some status) = power_of status
