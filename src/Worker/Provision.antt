-- ===== src/Worker/Provision.antt =====
-- Provisioning: `syncPresent`, `createVM`, `configureVM` and `rollbackProvision`.
use pve_manage.Prelude.{
  Bool, true, false, ◌||◌, ◌&&◌, not, Option, none, some, [], ◌∷◌, ◌++◌, if◌then◌else◌, is_nil,
  find?,
}
use pve_manage.Prelude.Int.{pos, leb_ℤ, eqb_ℤ}
use pve_manage.Text.{Text, text_eq, codes, trim_space}
use pve_manage.Json.{Object, str, num, time, get, as_string, string_from, int_from}
use pve_manage.Sql.{Except, ok, err, Exec, pure, fail, ◌>>=◌, ◌>>◌}
use pve_manage.Tables.{Vm}
use pve_manage.Vmname.{prefixed, validate_pve}
use pve_manage.Config.{App, Cluster, BridgeConfig, cluster_by_key, bridge_by_key}
use pve_manage.Worker.Settings.{Libraries, name_or_fail}
use pve_manage.Worker.Apply.{apply_vm_config_if_needed, sync_firewall}
use pve_manage.Worker.{World, local, call, attempt, undo_on_error}
use pve_manage.Worker.Remote.{Pve, Template}
use pve_manage.Worker.Marks.{mark_synced, mark_node}
use pve_manage.Worker.Power.{apply_power}
use pve_manage.Worker.Disks.{move_disk_if_needed, move_tpm_if_needed, resize_disk}

-- `userPoolID`
abbrev pub user_pool_id : Text → Text
user_pool_id username = codes "user_" ++ username ++ codes "_pool"

abbrev pub first_named : Text → Text → Text
first_named [] next = next
first_named (c ∷ s) next = c ∷ s

abbrev pub column_text : Option Text → Text
column_text none = []
column_text (some s) = s

module _ {P : Type 0} (app : App) (libraries : Libraries) (pve : Pve P) (vm : Vm) where
  -- `ensureOwnerPoolMembership`
  unfoldable pub ensure_owner_pool_membership : Exec Text (World P) (Unit {0})
  ensure_owner_pool_membership = do
    call (pve.ensure_pool vm.cluster_key (user_pool_id vm.owner_username))
    call (pve.set_pool_vms vm.cluster_key (user_pool_id vm.owner_username) vm.vmid)

  -- `rollbackProvision`
  unfoldable pub rollback_provision : Text → Exec Text (World P) (Unit {0})
  rollback_provision [] = pure tt
  rollback_provision (c ∷ node) = call (pve.delete_vm vm.cluster_key (c ∷ node) vm.vmid)

  abbrev pub known_template : Option Template → Exec Text (World P) Template
  known_template none = fail (codes "template not found in template-pool")
  known_template (some t) = pure t

  -- The first of the places that name a node; 4 of them.
  abbrev pub target_of : Object → Template → Text
  target_of prefer template = first_named (trim_space (column_text vm.target_node)) (
      first_named (trim_space (string_from prefer "target_node" []))
        (first_named (trim_space vm.node) template.node))

  abbrev pub settled : Text → Text × Bool → Text
  settled current (node, true) = node
  settled current (node, false) = current

  abbrev pub after_migration : Text → Except Text (Unit {0}) → Exec Text (World P) (Unit {0})
  after_migration node (ok _) = pure tt
  after_migration node (err e) = do
    attempt (call (pve.delete_vm vm.cluster_key node vm.vmid))
    fail e

  -- The migration to the node wanted; the clone is removed where that fails.
  abbrev pub migrated : Template → Text → Text → Exec Text (World P) Text
  migrated template target storage =
      if is_nil target || text_eq target template.node then pure template.node else do
        result ← attempt (call (pve.migrate_vm vm.cluster_key template.node vm.vmid target storage))
        after_migration template.node result
        pure target

  -- `createVM`
  unfoldable pub create_vm : Object → Exec Text (World P) Text
  create_vm prefer =
      if leb_ℤ (int_from prefer "template_vmid") (pos 0)
      then fail (codes "template_vmid is required")
      else do
        templates ← call (pve.list_templates vm.cluster_key)
        template ←
            known_template
              (find? (λ t. eqb_ℤ (pos t.vmid) (int_from prefer "template_vmid")) templates)
        let target = target_of prefer template
        let storage = string_from prefer "storage_key" []
        let name = prefixed vm.owner_username vm.vmname
        if is_nil storage then fail (codes "storage_key is required") else do
          name_or_fail (validate_pve name)
          call (pve.ensure_pool vm.cluster_key (user_pool_id vm.owner_username))
          call (
              pve.clone_full vm.cluster_key template.node template.vmid vm.vmid name storage
                (user_pool_id vm.owner_username))
          current ← migrated template target storage
          found ← call (pve.find_vm_node vm.cluster_key vm.vmid)
          pure (settled current found)

  abbrev pub known_bridge : Option BridgeConfig → Exec Text (World P) BridgeConfig
  known_bridge none = fail (codes "unknown bridge")
  known_bridge (some b) = pure b

  -- `configureVM`
  unfoldable pub configure_vm : Object → Cluster → Text → Exec Text (World P) (Unit {0})
  configure_vm prefer cluster node = do
    let bridge_key = string_from prefer "bridge_key" (codes "custom")
    bridge ← known_bridge (bridge_by_key cluster bridge_key)
    cfg ← call (pve.get_vm_config vm.cluster_key node vm.vmid)
    apply_vm_config_if_needed app libraries pve vm prefer bridge_key bridge cfg node
    move_disk_if_needed pve libraries.disk_mib vm prefer cfg node
    move_tpm_if_needed pve libraries.disk_mib vm cluster cfg node
    resize_disk pve libraries.disk_mib vm prefer cfg node
    sync_firewall app libraries pve vm prefer bridge node

  abbrev pub status_text : Except Text Object → Text
  status_text (ok status) = as_string (get "status" status)
  status_text (err e) = []

  -- The power state that is recorded.
  unfoldable pub reported_power : Object → Except Text Object → Text
  reported_power prefer status =
      if text_eq (string_from prefer "power" (codes "running")) (codes "reboot")
      then codes "running"
      else first_named (status_text status) (string_from prefer "power" (codes "unknown"))

  -- The node of the row is brought up to date where it differs.
  unfoldable pub note_node : Text → Exec Text (World P) (Unit {0})
  note_node node =
      if not (is_nil node) && not (text_eq vm.node node)
      then local (mark_node vm.id node)
      else pure tt

  -- `syncPresent` from the point where the VM exists.
  unfoldable pub settle : Object → Cluster → Text → Exec Text (World P) (Unit {0})
  settle prefer cluster node = do
    note_node node
    ensure_owner_pool_membership
    configure_vm prefer cluster node
    apply_power pve vm node (string_from prefer "power" (codes "running"))
    status ← attempt (call (pve.vm_status vm.cluster_key node vm.vmid))
    local (
        mark_synced vm.id λ now.
          ("intent", str (codes "present"))
          ∷ ("power", str (reported_power prefer status))
          ∷ ("vmid", num (pos vm.vmid))
          ∷ ("node", str node)
          ∷ ("ip", str vm.ip)
          ∷ ("last_synced_at", time now)
          ∷ [])

  abbrev pub known_cluster : Option Cluster → Exec Text (World P) Cluster
  known_cluster none = fail (codes "unknown cluster")
  known_cluster (some c) = pure c

  -- A VM that had to be created is removed again where a later step fails.
  abbrev pub present_on : Object → Cluster → Text × Bool → Exec Text (World P) (Unit {0})
  present_on prefer cluster (node, true) = settle prefer cluster node
  present_on prefer cluster (node, false) = create_vm prefer >>= λ node.
      undo_on_error (rollback_provision node) (settle prefer cluster node)

  -- `syncPresent`
  unfoldable pub sync_present : Object → Exec Text (World P) (Unit {0})
  sync_present prefer = do
    cluster ← known_cluster (cluster_by_key app vm.cluster_key)
    found ← call (pve.find_vm_node vm.cluster_key vm.vmid)
    present_on prefer cluster found
