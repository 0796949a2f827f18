-- ===== src/Tables.antt =====
-- The tables of internal/db/migrate.go with the columns that the modelled code reads or writes, and
-- the statements' `WHERE`, `UPDATE`, `DELETE` and `ORDER BY`. A time column is the instant of its
-- RFC 3339 text, in nanoseconds.
pub mod Laws
use pve_manage.Prelude.{
  ℕ, suc, ◌+◌, Bool, true, false, not, ◌&&◌, Option, none, some, List, [], ◌∷◌, map, ltb, leb, ◌==◌,
  if◌then◌else◌, filter,
}
use pve_manage.Prelude.Int.{ℤ}
use pve_manage.Text.{Text}
use pve_manage.Json.{Column}

pub data Status : Type 0 where
  pending running done failed canceled : Status

pub data SyncState : Type 0 where
  pending synced failed deleting unmanaged : SyncState

pub data Kind : Type 0 where
  provision apply power reboot delete : Kind
  other : Text → Kind

-- A row of `vm_tasks`.
pub record Task : Type 0 where
  pub id : ℕ
  pub vm_id : ℕ
  pub seq : ℕ
  pub kind : Kind
  pub payload : Column
  pub status : Status
  pub error : Option Text
  pub attempt_count : ℕ
  pub created_at : ℕ
  pub updated_at : ℕ
  pub started_at : Option ℕ
  pub finished_at : Option ℕ

-- A row of `maintenance_tasks`; `scan` is the kind `inventory_scan`.
pub record MaintenanceTask : Type 0 where
  pub id : ℕ
  pub kind : Text
  pub status : Status
  pub error : Option Text
  pub created_at : ℕ
  pub updated_at : ℕ
  pub started_at : Option ℕ
  pub finished_at : Option ℕ

-- `securityGroupRule` of internal/api/security_handlers.go.
pub record SecurityRule : Type 0 where
  pub direction : Text
  pub action : Text
  pub ethertype : Text
  pub protocol : Text
  pub cidr : Text
  pub port_start : Option ℤ
  pub port_end : Option ℤ

-- A row of `vms`.
pub record Vm : Type 0 where
  pub id : ℕ
  pub owner_username : Text
  pub cluster_key : Text
  pub vmid : ℕ
  pub vmname : Text
  pub ip : Text
  pub node : Text
  pub target_node : Option Text
  pub password : Text
  pub sshkeys : List Text
  pub shared_usernames : List Text
  pub security_group_name : Text
  pub uestc_restricted : Bool
  pub quota_exempt : Bool
  pub managed : Bool
  pub task_queue_paused : Bool
  pub config : Column
  pub prefer_status : Column
  pub real_status : Column
  pub sync_state : SyncState
  pub sync_error : Option Text
  pub version : ℕ
  pub updated_at : ℕ
  pub deleted_at : Option ℕ
  pub delete_requested_at : Option ℕ
  pub delete_execute_after : Option ℕ

-- A row of `security_groups`; `rules` is the text of `rules_json`, read as the rules.
pub record SecurityGroup : Type 0 where
  pub owner_username : Text
  pub name : Text
  pub rules : List SecurityRule
  pub policy_in : Text
  pub policy_out : Text
  pub updated_at : ℕ

-- A row of `templates`.
pub record Template : Type 0 where
  pub cluster_key : Text
  pub template_vmid : ℕ
  pub name : Text
  pub real_status : Column

-- A row of `ssh_keys`.
pub record SshKey : Type 0 where
  pub id : ℕ
  pub owner_username : Text
  pub name : Text
  pub public_key : Text

-- A row of `users`. `groups` is `parseJSONStrings` of `GroupsJSON`.
pub record User : Type 0 where
  pub id : ℕ
  pub username : Text
  pub email : Text
  pub name : Text
  pub groups : List Text
  pub is_active : Bool
  pub is_admin : Bool
  pub created_at : ℕ
  pub updated_at : ℕ
  pub last_login_at : Option ℕ

pub record Db : Type 0 where
  pub users : List User
  pub next_user_id : ℕ
  pub vms : List Vm
  pub next_vm_id : ℕ
  pub templates : List Template
  pub ssh_keys : List SshKey
  pub next_ssh_key_id : ℕ
  pub security_groups : List SecurityGroup
  pub vm_tasks : List Task
  pub next_task_id : ℕ
  pub maintenance_tasks : List MaintenanceTask
  pub next_maintenance_id : ℕ

abbrev pub is_null : {A : Type 0} → Option A → Bool
is_null none = true
is_null (some a) = false

-- `COALESCE(column, value)`
abbrev pub coalesce : {A : Type 0} → Option A → A → Option A
coalesce none a = some a
coalesce (some b) a = some b

module _ {A : Type 0} where
  -- `UPDATE … SET … WHERE`
  unfoldable pub update_where : (A → Bool) → (A → A) → List A → List A
  update_where p f [] = []
  update_where p f (x ∷ xs) = (if p x then f x else x) ∷ update_where p f xs

  -- `DELETE FROM … WHERE`
  unfoldable pub delete_where : (A → Bool) → List A → List A
  delete_where p xs = filter (λ x. not (p x)) xs

abbrev pub is_pending : Status → Bool
is_pending pending = true
is_pending _ = false

abbrev pub is_running : Status → Bool
is_running running = true
is_running _ = false

abbrev pub is_failed : Status → Bool
is_failed failed = true
is_failed _ = false

-- `status IN ('done', 'canceled')`
abbrev pub is_over : Status → Bool
is_over done = true
is_over canceled = true
is_over _ = false

-- `status IN ('done', 'failed', 'canceled')`
abbrev pub is_final : Status → Bool
is_final done = true
is_final failed = true
is_final canceled = true
is_final _ = false

abbrev pub is_delete : Kind → Bool
is_delete delete = true
is_delete _ = false

abbrev pub is_deleting : SyncState → Bool
is_deleting deleting = true
is_deleting _ = false
