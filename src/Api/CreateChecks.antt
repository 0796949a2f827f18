-- ===== src/Api/CreateChecks.antt =====
-- What `handleCreateVM` of internal/api/vm_handlers.go checks in the fields of a request. What it
-- draws at random is the parameter `draw`: the number that `rand.Int` yields for a rune of the
-- password, if it yields one.
use pve_manage.Prelude.{
  ℕ, zero, suc, ◌%◌, String, Bool, false, not, ◌||◌, Option, none, some, List, [], ◌∷◌,
  if◌then◌else◌, all, is_nil,
}
use pve_manage.Prelude.Int.{ℤ, pos, leb_ℤ, ltb_ℤ}
use pve_manage.Text.{Text, codes, text_eq, contains_string, trim_space, to_lower}
use pve_manage.Sql.{Except, ok, err, on_error, pure, ◌>>=◌, ◌>>◌}
use pve_manage.Vmname.{NameError, validate_managed}
use pve_manage.Api.{User, Reply, reply, Body, Api, deny, require}
use pve_manage.Api.Groups.{valid_security_group_name, accepted, bad_request}
use pve_manage.Api.Placement.{normalize_string_list}
use pve_manage.Api.Keys.{
  KeyError, no_rows, failed, valid_username_like, normalize_ssh_key_list, load_ssh_keys_by_ids,
}

-- `createVMRequest`
pub record CreateBody : Type 0 where
  pub cluster_key : Text
  pub vmname : Text
  pub password : Option Text
  pub cpu_key : Text
  pub cpu_cores : ℤ
  pub memory_gb : ℤ
  pub storage_key : Text
  pub disk_gb : ℤ
  pub bridge_key : Text
  pub boot_order : Text
  pub template_vmid : ℤ
  pub sshkeys : List Text
  pub ssh_key_ids : List ℤ
  pub shared_usernames : List Text
  pub security_group_name : Text
  pub uestc_restricted : Option Bool
  pub power : Text

pub record CreateRequest : Type 0 where
  pub user : Except Text User
  pub body : Option CreateBody

-- `normalizeBootOrder`
abbrev pub is_one_of : Text → List String → Bool
is_one_of s [] = false
is_one_of s (w ∷ ws) = text_eq s (codes w) || is_one_of s ws

unfoldable pub normalize_boot_order : Text → Except Text Text
normalize_boot_order value =
    let order = trim_space (to_lower value) in
    if is_one_of order ("" ∷ "order=scsi0;ide0" ∷ "scsi0;ide0" ∷ [])
    then ok (codes "order=scsi0;ide0")
    else if is_one_of order ("order=ide0;scsi0" ∷ "ide0;scsi0" ∷ [])
    then ok (codes "order=ide0;scsi0")
    else err (codes "boot_order must be order=scsi0;ide0 or order=ide0;scsi0")

-- `randomPassword`
abbrev pub alphabet : Text
alphabet = codes "abcdefghijklmnopqrstuvwxyzABCDEFGHIJKLMNOPQRSTUVWXYZ0123456789"

abbrev pub rune_at : Text → ℕ → ℕ
rune_at [] i = 0
rune_at (c ∷ s) zero = c
rune_at (c ∷ s) (suc i) = rune_at s i

abbrev pub drawn : ℕ → Option ℕ → ℕ
drawn i none = rune_at alphabet (i % 62)
drawn i (some v) = rune_at alphabet v

unfoldable pub password_from : (ℕ → Option ℕ) → ℕ → ℕ → Text
password_from draw i zero = []
password_from draw i (suc n) = drawn i (draw i) ∷ password_from draw (suc i) n

unfoldable pub random_password : (ℕ → Option ℕ) → ℕ → Text
random_password draw zero = password_from draw 0 16
random_password draw (suc n) = password_from draw 0 (suc n)

-- The password is the trimmed one of the request, or a random one where that is blank.
abbrev pub chosen_password : (ℕ → Option ℕ) → Option Text → Text
chosen_password draw none = random_password draw 20
chosen_password draw (some s) =
    if is_nil (trim_space s) then random_password draw 20 else trim_space s

-- A request that has passed the checks of its fields, with what they normalise.
pub record Checked : Type 0 where
  pub vmname : Text
  pub power : Text
  pub boot_order : Text
  pub sshkeys : List Text
  pub shared_usernames : List Text

abbrev pub well_named : NameError → Api (Unit {0})
well_named NameError.valid = pure tt
well_named NameError.required = deny 400 "name is required"
well_named NameError.invalid = deny 400 "invalid name"

abbrev pub key_error : KeyError → Reply
key_error no_rows = reply 400 (Body.message "ssh key not found")
key_error (failed e) = bad_request e

module _ (parse_key : Text → Except Text (Text × Text)) where
  abbrev pub chosen_keys : User → CreateBody → Api (List Text)
  chosen_keys user req =
      if is_nil req.ssh_key_ids
      then accepted (normalize_ssh_key_list parse_key req.sshkeys)
      else on_error key_error (load_ssh_keys_by_ids parse_key user.username req.ssh_key_ids)

  -- The checks of the fields.
  unfoldable pub check_body : User → CreateBody → Api Checked
  check_body user req = do
    let name = trim_space req.vmname
    require
        (not (
          is_nil req.cluster_key
          || is_nil name
          || is_nil req.cpu_key
          || is_nil req.storage_key
          || is_nil req.bridge_key
          || is_nil req.security_group_name))
        400 "missing required fields"
    well_named (validate_managed user.username name)
    require
        (not
          (leb_ℤ req.cpu_cores (pos 0) || leb_ℤ req.memory_gb (pos 0) || leb_ℤ req.disk_gb (pos 0)))
        400 "cpu_cores, memory_gb and disk_gb must be positive"
    require (not (ltb_ℤ req.disk_gb (pos 20))) 400 "disk_gb must be at least 20"
    require (valid_security_group_name req.security_group_name) 400 "invalid security_group_name"
    let power = if is_nil req.power then codes "running" else req.power
    require (is_one_of power ("running" ∷ "stopped" ∷ [])) 400 "power must be running or stopped"
    boot_order ← accepted (normalize_boot_order req.boot_order)
    sshkeys ← chosen_keys user req
    let shared = normalize_string_list req.shared_usernames
    require (all valid_username_like shared) 400 "invalid shared username"
    require (not (contains_string shared user.username)) 400 "owner cannot be in shared_usernames"
    pure (record {
      vmname = name;
      power = power;
      boot_order = boot_order;
      sshkeys = sshkeys;
      shared_usernames = shared;
    })
