-- ===== src/Worker/Scanning.antt =====
-- The four parts of the inventory scan and `scanPVE`, of internal/worker/worker.go.
use pve_manage.Prelude.{
  ℕ, Bool, not, ◌&&◌, ◌||◌, List, [], ◌∷◌, ◌++◌, if◌then◌else◌, is_nil, filter, find?, ltb, ◌==◌,
}
use pve_manage.Text.{Text, codes, text_eq, text_ltb, numeral}
use pve_manage.Json.{Object, str}
use pve_manage.Sql.{Except, ok, err, Exec, exec, query, pure, ◌>>=◌, ◌>>◌}
use pve_manage.Tables.{Vm, is_null}
use pve_manage.Config.{App, Cluster, CpuClass}
use pve_manage.Api.Vms.{update_vm}
use pve_manage.Api.Allocation.{lives_in}
use pve_manage.Api.Placement.{normalize_string_list}
use pve_manage.Worker.{World, local, call, at_now, attempt}
use pve_manage.Worker.Remote.{Pve, Resource, Template}
use pve_manage.Worker.Snapshot.{unmanaged_config_snapshot}
use pve_manage.Worker.Scan.{
  or_numbered, template_row, upsert_template, store_unmanaged, mark_missing_unmanaged_vms_deleted,
  prefixed_error, join_errors,
}

-- `flattenCPUNodeLists`
unfoldable pub flatten_cpu_node_lists : List (Text × CpuClass) → List Text
flatten_cpu_node_lists [] = []
flatten_cpu_node_lists ((key, cpu) ∷ cpus) = cpu.node ++ flatten_cpu_node_lists cpus

-- `clusterNodes`; `uniqueStrings` does what `normalizeStringList` of the API does.
unfoldable pub cluster_nodes : Cluster → List Text
cluster_nodes cluster = normalize_string_list (flatten_cpu_node_lists cluster.cpu)

-- `ORDER BY cluster_key, vmid`
abbrev pub comes_before : Vm → Vm → Bool
comes_before a b =
    text_ltb a.cluster_key b.cluster_key
    || (text_eq a.cluster_key b.cluster_key && ltb a.vmid b.vmid)

unfoldable pub insert_by_vmid : Vm → List Vm → List Vm
insert_by_vmid v [] = v ∷ []
insert_by_vmid v (w ∷ ws) =
    let rest = insert_by_vmid v ws in if comes_before v w then v ∷ w ∷ ws else w ∷ rest

unfoldable pub sort_by_vmid : List Vm → List Vm
sort_by_vmid [] = []
sort_by_vmid (v ∷ vs) = insert_by_vmid v (sort_by_vmid vs)

module _ {P : Type 0} (app : App) (disk_mib : Text → ℕ) (pve : Pve P) where
  unfoldable pub upsert_templates : Text → ℕ → List Template → Exec Text (World P) (Unit {0})
  upsert_templates key now [] = pure tt
  upsert_templates key now (t ∷ ts) =
      local (upsert_template (template_row key now t)) >> upsert_templates key now ts

  -- `syncTemplates`
  unfoldable pub sync_templates : ℕ → List (Text × Cluster) → Exec Text (World P) (Unit {0})
  sync_templates now [] = pure tt
  sync_templates now ((key, cluster) ∷ clusters) =
      (call (pve.list_templates key) >>= upsert_templates key now) >> sync_templates now clusters

  -- The INSERT of `recordNodeMetric`, into a table that is not modelled.
  unfoldable pub record_node_metric : Exec Text (World P) (Unit {0})
  record_node_metric = local (exec (λ db. db))

  abbrev pub node_label : Text → Text → Text
  node_label key node = codes "cluster " ++ (key ++ (codes " node " ++ (node ++ codes ": ")))

  unfoldable pub sync_nodes : Text → List Text → Exec Text (World P) (List Text)
  sync_nodes key [] = pure []
  sync_nodes key (node ∷ nodes) = do
    result ← attempt (call (pve.get_node_status key node) >> record_node_metric)
    later ← sync_nodes key nodes
    pure (prefixed_error (node_label key node) result ++ later)

  unfoldable pub sync_cluster_nodes : List (Text × Cluster) → Exec Text (World P) (List Text)
  sync_cluster_nodes [] = pure []
  sync_cluster_nodes ((key, cluster) ∷ clusters) = do
    here ← sync_nodes key (cluster_nodes cluster)
    later ← sync_cluster_nodes clusters
    pure (here ++ later)

  -- `syncNodeMetrics`
  unfoldable pub sync_node_metrics : Exec Text (World P) (Unit {0})
  sync_node_metrics = sync_cluster_nodes app.cluster >>= join_errors

  abbrev pub scanned_base : Resource → Text → Object
  scanned_base resource name =
      ("source", str (codes "pve-scan")) ∷ ("node", str resource.node) ∷ ("name", str name) ∷ []

  -- The snapshot has none of the keys of the base.
  abbrev pub scanned_config : Resource → Text → Except Text Object → Object
  scanned_config resource name (ok raw) =
      scanned_base resource name ++ unmanaged_config_snapshot disk_mib raw
  scanned_config resource name (err e) = scanned_base resource name

  -- `upsertUnmanagedVM`
  unfoldable pub upsert_unmanaged_vm : Text → ℕ → Resource → Exec Text (World P) (Unit {0})
  upsert_unmanaged_vm key now resource = do
    row ← local (query (λ db. find? (λ v. lives_in key v && v.vmid == resource.vmid) db.vms))
    raw ← attempt (call (pve.get_vm_config key resource.node resource.vmid))
    let name = or_numbered (codes "pve-") resource.name resource.vmid
    local (store_unmanaged key resource (scanned_config resource name raw) name now row)

  unfoldable pub upsert_unmanaged_vms : Text → ℕ → List Resource → Exec Text (World P) (List ℕ)
  upsert_unmanaged_vms key now [] = pure []
  upsert_unmanaged_vms key now (resource ∷ resources) =
      if not (text_eq resource.kind (codes "qemu")) || not (ltb 0 resource.vmid)
      then upsert_unmanaged_vms key now resources
      else upsert_unmanaged_vm key now resource
        >> (upsert_unmanaged_vms key now resources >>= λ seen. pure (resource.vmid ∷ seen))

  -- `syncUnmanagedVMs`
  unfoldable pub sync_unmanaged_vms : ℕ → List (Text × Cluster) → Exec Text (World P) (Unit {0})
  sync_unmanaged_vms now [] = pure tt
  sync_unmanaged_vms now ((key, cluster) ∷ clusters) =
      ((call (pve.list_vm_resources key) >>= upsert_unmanaged_vms key now) >>= λ seen.
      local (mark_missing_unmanaged_vms_deleted key seen now))
      >> sync_unmanaged_vms now clusters

  abbrev pub vm_label : Vm → Text
  vm_label vm =
      codes "cluster "
      ++ (vm.cluster_key
          ++ (codes " node " ++ (vm.node ++ (codes " vmid " ++ (numeral vm.vmid ++ codes ": ")))))

  -- `replaceVMMetrics`, without the samples.
  unfoldable pub replace_vm_metrics : ℕ → Vm → Exec Text (World P) (Unit {0})
  replace_vm_metrics now vm = local (exec (update_vm vm.id (λ v. record v { updated_at = now })))

  unfoldable pub sync_each_vm_metrics : ℕ → List Vm → Exec Text (World P) (List Text)
  sync_each_vm_metrics now [] = pure []
  sync_each_vm_metrics now (vm ∷ vms) = do
    result ←
        attempt (call (pve.vm_rrd_data vm.cluster_key vm.node vm.vmid) >> replace_vm_metrics now vm)
    later ← sync_each_vm_metrics now vms
    pure (prefixed_error (vm_label vm) result ++ later)

  -- `syncVMMetrics`
  unfoldable pub sync_vm_metrics : ℕ → Exec Text (World P) (Unit {0})
  sync_vm_metrics now = do
    vms ← local (
        query
          (λ db. sort_by_vmid (filter (λ v. is_null v.deleted_at && not (is_nil v.node)) db.vms)))
    (sync_each_vm_metrics now vms >>= join_errors)

  -- `scanPVE`
  unfoldable pub scan_pve : Exec Text (World P) (Unit {0})
  scan_pve = at_now λ now. do
    templates ← attempt (sync_templates now app.cluster)
    nodes ← attempt sync_node_metrics
    existing ← attempt (sync_unmanaged_vms now app.cluster)
    metrics ← attempt (sync_vm_metrics now)
    join_errors (
        prefixed_error (codes "templates: ") templates
        ++ (prefixed_error (codes "node metrics: ") nodes
            ++ (prefixed_error (codes "existing vms: ") existing
                ++ prefixed_error (codes "vm metrics: ") metrics)))
