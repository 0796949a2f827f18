-- ===== src/Worker/Scan.antt =====
-- The inventory scan: `scanPVE` of internal/worker/worker.go with its four parts. The samples of the
-- metrics are floating-point numbers that only the frontend reads: the table `node_metrics`, the
-- column `metrics_json` and the computation of samples are left out, the calls and statements are not.
use pve_manage.Prelude.{
  ℕ, Bool, false, not, ◌&&◌, Option, none, some, List, [], ◌∷◌, ◌++◌, if◌then◌else◌, is_nil, any,
  filter, ◌==◌,
}
use pve_manage.Prelude.Int.{pos}
use pve_manage.Text.{Text, codes, numeral, join}
use pve_manage.Json.{Object, str, num, time, put, or_empty, string_from}
use pve_manage.Sql.{Except, ok, err, Exec, exec, query, statement, pure, fail, ◌>>=◌, ◌>>◌}
use pve_manage.Tables.{Vm, Template, SyncState, is_null, update_where}
use pve_manage.Tasks.{Sql}
use pve_manage.Api.Vms.{update_vm}
use pve_manage.Api.Allocation.{lives_in}
use pve_manage.Api.Create.{insert_vm}
use pve_manage.Api.CreateOptions.{is_template}
use pve_manage.Worker.Remote.{Template as Scanned, Resource}

-- `if name == "" { name = fmt.Sprintf("<prefix>-%d", vmid) }`
abbrev pub or_numbered : Text → Text → ℕ → Text
or_numbered prefix name vmid = if is_nil name then prefix ++ numeral vmid else name

-- The row of a template. Its `config`, a nested object that no modelled code reads, is left out, and
-- so are the columns `os_type` and `last_seen_at`.
abbrev pub template_row : Text → ℕ → Scanned → Template
template_row cluster_key now t = record {
  cluster_key = cluster_key;
  template_vmid = t.vmid;
  name = or_numbered (codes "template-") t.name t.vmid;
  real_status = some (
      ("node", str t.node) ∷ ("template_vmid", num (pos t.vmid)) ∷ ("last_seen_at", time now) ∷ []);
}

-- `upsertTemplate`; the cluster and the template's id are unique, and stand for the row's id.
unfoldable pub upsert_template : Template → Sql (Unit {0})
upsert_template row = do
  known ← query (λ db. any (is_template row.cluster_key (pos row.template_vmid)) db.templates)
  exec (λ db. record db {
    templates =
        if known
        then update_where (is_template row.cluster_key (pos row.template_vmid)) (λ _. row)
            db.templates
        else db.templates ++ row ∷ [];
  })

-- The columns of a VM that the scan has found.
abbrev pub found_vm : Text → Resource → Object → Text → Object → ℕ → ℕ → Vm
found_vm cluster_key resource cfg name real now id = record {
  id = id;
  owner_username = codes "__pve_unmanaged__";
  cluster_key = cluster_key;
  vmid = resource.vmid;
  vmname = name;
  ip = string_from cfg "ip" [];
  node = resource.node;
  target_node = some resource.node;
  password = [];
  sshkeys = [];
  shared_usernames = [];
  security_group_name = [];
  uestc_restricted = false;
  quota_exempt = false;
  managed = false;
  task_queue_paused = false;
  config = some cfg;
  prefer_status = some (("intent", str (codes "unmanaged")) ∷ []);
  real_status = some real;
  sync_state = SyncState.unmanaged;
  sync_error = none;
  version = 1;
  updated_at = now;
  deleted_at = none;
  delete_requested_at = none;
  delete_execute_after = none;
}

abbrev pub real_of : Resource → Text → ℕ → Object
real_of resource name now =
    ("intent", str (codes "unmanaged"))
    ∷ ("power", str resource.status)
    ∷ ("node", str resource.node)
    ∷ ("vmid", num (pos resource.vmid))
    ∷ ("name", str name)
    ∷ ("last_seen_at", time now)
    ∷ ("source", str (codes "pve-scan"))
    ∷ ("pve_resource_id", str resource.id)
    ∷ []

-- The UPDATE or INSERT of `upsertUnmanagedVM`; a managed VM is left as it is.
unfoldable pub store_unmanaged : Text → Resource → Object → Text → ℕ → Option Vm → Sql (Unit {0})
store_unmanaged cluster_key resource cfg name now none =
    statement (insert_vm (found_vm cluster_key resource cfg name (real_of resource name now) now))
    >>= λ _. pure tt
store_unmanaged cluster_key resource cfg name now (some vm) =
    if vm.managed
    then pure tt
    else exec (
        update_vm vm.id (λ v. record v {
          vmname = name;
          ip = string_from cfg "ip" [];
          node = resource.node;
          target_node = some resource.node;
          config = some cfg;
          real_status = some (real_of resource name now);
          sync_state = SyncState.unmanaged;
          sync_error = none;
          updated_at = now;
        }))

-- The VMs that `markMissingUnmanagedVMsDeleted` deletes.
abbrev pub is_unseen : Text → List ℕ → Vm → Bool
is_unseen cluster_key seen v =
    lives_in cluster_key v && not v.managed && not (any (λ vmid. vmid == v.vmid) seen)

abbrev pub missing_real : ℕ → Object → Object
missing_real now real = put "last_synced_at" (time now) (
    put "last_seen_missing_at" (time now)
      (put "power" (str (codes "deleted")) (put "intent" (str (codes "unmanaged_deleted")) real)))

-- The `WHERE` and the `SET` of its UPDATE.
abbrev pub is_scanned_row : ℕ → Vm → Bool
is_scanned_row id v = v.id == id && not v.managed && is_null v.deleted_at

abbrev pub mark_deleted_row : Vm → ℕ → Vm → Vm
mark_deleted_row vm now v = record v {
  deleted_at = some now;
  real_status = some (missing_real now (or_empty vm.real_status));
  sync_state = SyncState.synced;
  sync_error = none;
  updated_at = now;
}

unfoldable pub mark_each_deleted : ℕ → List Vm → Sql (Unit {0})
mark_each_deleted now [] = pure tt
mark_each_deleted now (vm ∷ vms) =
    exec (λ db. record db {
      vms = update_where (is_scanned_row vm.id) (mark_deleted_row vm now) db.vms;
    })
    >> mark_each_deleted now vms

-- `markMissingUnmanagedVMsDeleted`
unfoldable pub mark_missing_unmanaged_vms_deleted : Text → List ℕ → ℕ → Sql (Unit {0})
mark_missing_unmanaged_vms_deleted cluster_key seen now =
    query (λ db. filter (is_unseen cluster_key seen) db.vms) >>= mark_each_deleted now

-- The errors of several steps: `errors.Join`.
abbrev pub prefixed_error : Text → Except Text (Unit {0}) → List Text
prefixed_error label (ok _) = []
prefixed_error label (err e) = (label ++ e) ∷ []

abbrev pub join_errors : {S : Type 0} → List Text → Exec Text S (Unit {0})
join_errors [] = pure tt
join_errors (e ∷ es) = fail (join 10 (e ∷ es))
