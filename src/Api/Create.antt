-- ===== src/Api/Create.antt =====
-- The creation of a VM: `handleCreateVM` of internal/api/vm_handlers.go, in the order of its steps.
-- What it draws at random is the parameter `draw`: the number that `rand.Int` yields for a rune of
-- the password, if it yields one.
use pve_manage.Prelude.{
  ℕ, suc, Bool, true, false, ◌&&◌, Option, none, some, [], ◌∷◌, ◌++◌, if◌then◌else◌, any, ◌==◌,
}
use pve_manage.Prelude.Int.{pos}
use pve_manage.Text.{Text, codes}
use pve_manage.Json.{Object, null, bool, num, str, strs}
use pve_manage.Sql.{Except, ok, err, statement, in_tx, on_error, with_now, pure, fail, ◌>>=◌, ◌>>◌}
use pve_manage.Tables.{Db, Vm, Kind, SyncState}
use pve_manage.Tasks.{queue_vm_task_tx}
use pve_manage.Config.{App}
use pve_manage.Api.{User, Reply, reply, Body, Api, parsed, logged_in, server_error, load_vm_row}
use pve_manage.Api.Groups.{accepted, bad_request}
use pve_manage.Api.Ipv4.{Octets, derive_ipv4}
use pve_manage.Api.Allocation.{next_cluster_vmid, lives_in}
use pve_manage.Api.Placement.{Floats, choose_placement_node}
use pve_manage.Api.CreateChecks.{CreateBody, CreateRequest, chosen_password, Checked, check_body}
use pve_manage.Api.CreateOptions.{Options, check_options, check_quota, chosen_uestc}

-- A request with all that is chosen for it.
pub record Plan : Type 0 where
  pub user : User
  pub req : CreateBody
  pub checked : Checked
  pub options : Options
  pub uestc : Bool
  pub password : Text

-- `config_json`
abbrev pub new_config : Plan → Text → Text → Object
new_config p ip node =
    ("cluster_key", str p.req.cluster_key)
    ∷ ("cpu_key", str p.req.cpu_key)
    ∷ ("cpu_cores", num p.req.cpu_cores)
    ∷ ("memory_gb", num p.req.memory_gb)
    ∷ ("storage_key", str p.req.storage_key)
    ∷ ("disk_gb", num p.req.disk_gb)
    ∷ ("bridge_key", str p.req.bridge_key)
    ∷ ("bridge_ipfilter", strs p.options.bridge.ipfilter)
    ∷ ("template_vmid", num p.req.template_vmid)
    ∷ ("template_name", str p.options.template.name)
    ∷ ("target_node", str node)
    ∷ ("gateway", str p.options.bridge.ipv4.gateway)
    ∷ ("ip", str ip)
    ∷ ("sshkeys", strs p.checked.sshkeys)
    ∷ ("shared_usernames", strs p.checked.shared_usernames)
    ∷ ("security_group_name", str p.req.security_group_name)
    ∷ ("uestc_restricted", bool p.uestc)
    ∷ ("boot_order", str p.checked.boot_order)
    ∷ ("power", str p.checked.power)
    ∷ ("root_user", str (codes "root"))
    ∷ ("full_clone_storage", str p.req.storage_key)
    ∷ []

-- `prefer_status_json`
abbrev pub new_prefer : Plan → Text → Text → Object
new_prefer p ip node =
    ("intent", str (codes "present"))
    ∷ ("power", str p.checked.power)
    ∷ ("generation", num (pos 1))
    ∷ ("vmname", str p.checked.vmname)
    ∷ ("template_vmid", num p.req.template_vmid)
    ∷ ("target_node", str node)
    ∷ ("cpu_key", str p.req.cpu_key)
    ∷ ("cpu_cores", num p.req.cpu_cores)
    ∷ ("memory_gb", num p.req.memory_gb)
    ∷ ("storage_key", str p.req.storage_key)
    ∷ ("disk_gb", num p.req.disk_gb)
    ∷ ("bridge_key", str p.req.bridge_key)
    ∷ ("ip", str ip)
    ∷ ("gateway", str p.options.bridge.ipv4.gateway)
    ∷ ("sshkeys", strs p.checked.sshkeys)
    ∷ ("shared_usernames", strs p.checked.shared_usernames)
    ∷ ("security_group_name", str p.req.security_group_name)
    ∷ ("uestc_restricted", bool p.uestc)
    ∷ ("boot_order", str p.checked.boot_order)
    ∷ ("password_synced", bool false)
    ∷ []

-- `real_status_json`
abbrev pub new_real : ℕ → Text → Text → Object
new_real vmid ip node =
    ("intent", str (codes "present"))
    ∷ ("power", str (codes "unknown"))
    ∷ ("vmid", num (pos vmid))
    ∷ ("target_node", str node)
    ∷ ("ip", str ip)
    ∷ ("last_synced_at", null)
    ∷ []

abbrev pub new_vm : Plan → ℕ → ℕ → Text → Text → ℕ → Vm
new_vm p id vmid ip node now = record {
  id = id;
  owner_username = p.user.username;
  cluster_key = p.req.cluster_key;
  vmid = vmid;
  vmname = p.checked.vmname;
  ip = ip;
  node = [];
  target_node = some node;
  password = p.password;
  sshkeys = p.checked.sshkeys;
  shared_usernames = p.checked.shared_usernames;
  security_group_name = p.req.security_group_name;
  uestc_restricted = p.uestc;
  quota_exempt = false;
  managed = true;
  task_queue_paused = false;
  config = some (new_config p ip node);
  prefer_status = some (new_prefer p ip node);
  real_status = some (new_real vmid ip node);
  sync_state = SyncState.pending;
  sync_error = none;
  version = 1;
  updated_at = now;
  deleted_at = none;
  delete_requested_at = none;
  delete_execute_after = none;
}

-- `INSERT INTO vms … RETURNING id`. The index on `(cluster_key, vmid)` of the VMs that are not
-- deleted refuses a second one.
abbrev pub insert_vm : (ℕ → Vm) → Db → Except Text (ℕ × Db)
insert_vm f db =
    let vm = f db.next_vm_id in
    if any (λ v. lives_in vm.cluster_key v && v.vmid == vm.vmid) db.vms
    then err (codes "duplicate key value violates unique constraint")
    else ok (db.next_vm_id, record db { vms = db.vms ++ vm ∷ []; next_vm_id = suc db.next_vm_id })

-- The reply, which holds the row just read.
abbrev pub reread : Option Vm → Api Reply
reread none = fail (server_error (codes "sql: no rows in result set"))
reread (some vm) = pure (reply 201 Body.done)

-- The rows of the VM and of its first task.
unfoldable pub insert_rows : Plan → ℕ → Text → Text → ℕ → Api ℕ
insert_rows p vmid ip node now = do
  id ← on_error server_error (statement (insert_vm (λ id. new_vm p id vmid ip node now)))
  on_error server_error (queue_vm_task_tx id Kind.provision (("vm_id", num (pos id)) ∷ []))
  pure id

module _ {F : Type 0} (float : Floats F) (to_v4 : Text → Option Octets) where
  -- The transaction.
  unfoldable pub allocate : Plan → Api ℕ
  allocate p = do
    vmid ←
        on_error bad_request
          (next_cluster_vmid p.req.cluster_key p.options.cluster.start_vmid p.options.cluster.limit)
    ip ← accepted (derive_ipv4 to_v4 p.options.cluster p.req.bridge_key vmid)
    node ← on_error bad_request (
        choose_placement_node float p.req.cluster_key p.options.cluster p.req.cpu_key
          p.req.cpu_cores p.req.memory_gb p.options.template.real_status)
    with_now (insert_rows p vmid ip node)

module _ {F : Type 0} (float : Floats F) (to_v4 : Text → Option Octets)
    (parse_key : Text → Except Text (Text × Text)) (app : App) (draw : ℕ → Option ℕ) where
  -- The checks, before the transaction.
  unfoldable pub plan_vm : CreateRequest → Api Plan
  plan_vm r = do
    user ← logged_in r.user
    req ← parsed r.body "invalid json"
    checked ← check_body parse_key user req
    options ← check_options app user req
    check_quota app user req
    pure (record {
      user = user;
      req = req;
      checked = checked;
      options = options;
      uestc = chosen_uestc app user req;
      password = chosen_password draw req.password;
    })

  -- The handler up to the end of its transaction.
  unfoldable pub plan_and_allocate : CreateRequest → Api ℕ
  plan_and_allocate r = do plan ← plan_vm r; in_tx server_error (allocate float to_v4 plan)

  -- `handleCreateVM`
  unfoldable pub handle_create_vm : CreateRequest → Api Reply
  handle_create_vm r = do
    id ← plan_and_allocate r
    row ← on_error server_error (load_vm_row id)
    reread row
