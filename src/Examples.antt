-- ===== src/Examples.antt =====
-- Sample data, and the theorems at concrete inputs.
pub mod Queue
pub mod Requests
pub mod Patches
pub mod Names
pub mod Remote
pub mod Pass
pub mod Groups
pub mod SignIn
pub mod Admin
pub mod Creation
pub mod Firewall
pub mod Migrations
pub mod Provisioning
use pve_manage.Prelude.{ℕ, Bool, true, false, Option, none, some, List, [], ◌∷◌}
use pve_manage.Text.{Text, codes}
use pve_manage.Json.{str, num}
use pve_manage.Sql.{Session}
use pve_manage.Tables.{
  Db, User, Vm, Task, Kind, Status, SyncState, provision, apply, delete, synced, deleting,
}

abbrev pub alice : Text
alice = codes "alice"

-- An active user who has never signed in.
abbrev pub person : Text → List Text → User
person name groups = record {
  id = 1;
  username = name;
  email = [];
  name = name;
  groups = groups;
  is_active = true;
  is_admin = false;
  created_at = 0;
  updated_at = 0;
  last_login_at = none;
}

-- A VM of alice's that runs.
abbrev pub web : Vm
web = record {
  id = 7;
  owner_username = alice;
  cluster_key = codes "main";
  vmid = 107;
  vmname = codes "web";
  ip = codes "10.0.0.7";
  node = codes "node1";
  target_node = none;
  password = [];
  sshkeys = [];
  shared_usernames = [];
  security_group_name = [];
  uestc_restricted = false;
  quota_exempt = false;
  managed = true;
  task_queue_paused = false;
  config = some [];
  prefer_status = some (("power", str (codes "running")) ∷ []);
  real_status = none;
  sync_state = synced;
  sync_error = none;
  version = 1;
  updated_at = 0;
  deleted_at = none;
  delete_requested_at = none;
  delete_execute_after = none;
}

abbrev pub done_provision : Task
done_provision = record {
  id = 1;
  vm_id = 7;
  seq = 1;
  kind = provision;
  payload = some [];
  status = Status.done;
  error = none;
  attempt_count = 1;
  created_at = 0;
  updated_at = 0;
  started_at = none;
  finished_at = some 5;
}

abbrev pub waiting_apply : Task
waiting_apply = record done_provision {
  id = 2;
  seq = 2;
  kind = apply;
  status = Status.pending;
  attempt_count = 0;
}

-- A deletion that failed, of a VM whose deletion is requested.
abbrev pub failed_delete : Task
failed_delete = record done_provision {
  id = 2;
  seq = 2;
  kind = delete;
  status = Status.failed;
  attempt_count = 1;
}

abbrev pub tables_of : Vm → Task → Db
tables_of v t = record {
  users = [];
  vms = v ∷ [];
  next_user_id = 2;
  next_vm_id = 8;
  templates = [];
  ssh_keys = [];
  next_ssh_key_id = 1;
  security_groups = [];
  vm_tasks = done_provision ∷ t ∷ [];
  next_task_id = 3;
  maintenance_tasks = [];
  next_maintenance_id = 1;
}

abbrev pub session_of : Db → Session Db
session_of db = record { db = db; faults = []; now = 100 }

abbrev pub tables : Db
tables = tables_of web waiting_apply

abbrev pub doomed : Vm
doomed = record web {
  sync_state = deleting;
  delete_requested_at = some 10;
  delete_execute_after = some 90;
}
