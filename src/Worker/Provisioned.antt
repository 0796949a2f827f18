-- ===== src/Worker/Provisioned.antt =====
-- The order of the queue during `syncPresent` of internal/worker/worker.go.
use pve_manage.Prelude.{ℕ, Bool, true, false, Option, none, some, [], ◌∷◌, ltb, is_nil, ◌==◌}
use pve_manage.Text.{Text}
use pve_manage.Json.{Object, int_from}
use pve_manage.Prelude.Int.{pos, leb_ℤ}
use pve_manage.Sql.{Except, ok, err}
use pve_manage.Tables.{Vm}
use pve_manage.Config.{App, Cluster, BridgeConfig}
use pve_manage.Worker.Settings.{Libraries}
use pve_manage.Worker.Remote.{Pve, Template}
use pve_manage.Worker.Disks.{
  desired_storage, move_to, move_disk_if_needed, move_tpm_if_needed, resize_to, resize_disk,
}
use pve_manage.Worker.Provision.{
  ensure_owner_pool_membership, rollback_provision, known_template, after_migration, migrated,
  create_vm, known_bridge, configure_vm, note_node, settle, known_cluster, present_on, sync_present,
}
use pve_manage.Worker.Maintains.{
  Maintains, Maintains-pure, Maintains-fail, Maintains-bind, Maintains-then, Maintains-if,
  Maintains-undo_on_error,
}
use pve_manage.Worker.Ordered.{
  Ordered, Ordered-call, Ordered-local, Keeps-mark_synced, Keeps-mark_node,
}
use pve_manage.Worker.Kept.{call_and_attempt, apply_power-Ordered, ensure_vm_stopped-Ordered}
use pve_manage.Worker.Applied.{apply-Ordered, firewall-Ordered, name_or_fail-Ordered}

module _ {P : Type 0} (pve : Pve P) (disk_mib : Text → ℕ) (vm : Vm) where
  move_to-Ordered :
      (node : Text) (disk : Text × Text) (desired : Text)
      → Maintains Ordered (move_to pve disk_mib vm node disk desired)
  move_to-Ordered node (key, raw) desired =
      Maintains-if Ordered _ _ _ (Maintains-fail Ordered _)
        (Maintains-if Ordered _ _ _ (Maintains-pure Ordered tt) (Ordered-call _))

  move_disk-Ordered :
      (prefer cfg : Object) (node : Text)
      → Maintains Ordered (move_disk_if_needed pve disk_mib vm prefer cfg node)
  unfolding move_disk_if_needed
  move_disk-Ordered prefer cfg node =
      Maintains-if Ordered (is_nil (desired_storage pve disk_mib vm prefer)) _ _
        (Maintains-pure Ordered tt) (move_to-Ordered node _ _)

  move_tpm-Ordered :
      (cluster : Cluster) (cfg : Object) (node : Text)
      → Maintains Ordered (move_tpm_if_needed pve disk_mib vm cluster cfg node)
  unfolding move_tpm_if_needed
  move_tpm-Ordered cluster cfg node =
      Maintains-if Ordered _ _ _ (Maintains-pure Ordered tt)
        (Maintains-then Ordered _ _ (ensure_vm_stopped-Ordered pve vm node) (Ordered-call _))

  resize_to-Ordered :
      (node : Text) (target : ℕ) (disk : Text × Text)
      → Maintains Ordered (resize_to pve disk_mib vm node target disk)
  resize_to-Ordered node target (key, raw) =
      Maintains-if Ordered (is_nil key) _ _ (Maintains-fail Ordered _) (
        Maintains-if Ordered (disk_mib raw == 0) _ _ (Maintains-fail Ordered _) (
          Maintains-if Ordered (ltb target (disk_mib raw)) _ _ (Maintains-fail Ordered _)
            (Ordered-call _)))

  resize_disk-Ordered :
      (prefer cfg : Object) (node : Text)
      → Maintains Ordered (resize_disk pve disk_mib vm prefer cfg node)
  unfolding resize_disk
  resize_disk-Ordered prefer cfg node =
      Maintains-if Ordered (leb_ℤ (int_from prefer "disk_gb") (pos 0)) _ _
        (Maintains-fail Ordered _) (resize_to-Ordered node _ _)

module _ {P : Type 0} (app : App) (libraries : Libraries) (pve : Pve P) (vm : Vm) where
  pool-Ordered : Maintains Ordered (ensure_owner_pool_membership app libraries pve vm)
  unfolding ensure_owner_pool_membership
  pool-Ordered = Maintains-then Ordered _ _ (Ordered-call _) (Ordered-call _)

  rollback-Ordered :
      (node : Text) → Maintains Ordered (rollback_provision app libraries pve vm node)
  unfolding rollback_provision
  rollback-Ordered [] = Maintains-pure Ordered tt
  rollback-Ordered (c ∷ node) = Ordered-call _

  template-Ordered :
      (o : Option Template) → Maintains Ordered (known_template app libraries pve vm o)
  template-Ordered none = Maintains-fail Ordered _
  template-Ordered (some t) = Maintains-pure Ordered t

  after_migration-Ordered :
      (node : Text) (r : Except Text (Unit {0}))
      → Maintains Ordered (after_migration app libraries pve vm node r)
  after_migration-Ordered node (ok _) = Maintains-pure Ordered tt
  after_migration-Ordered node (err e) =
      Maintains-then Ordered _ _ (call_and_attempt pve vm _) (Maintains-fail Ordered e)

  migrated-Ordered :
      (t : Template) (target storage : Text)
      → Maintains Ordered (migrated app libraries pve vm t target storage)
  migrated-Ordered t target storage = Maintains-if Ordered _ _ _ (Maintains-pure Ordered _) (
      Maintains-bind Ordered _ _ (call_and_attempt pve vm _) λ r.
        Maintains-then Ordered _ _ (after_migration-Ordered t.node r)
          (Maintains-pure Ordered target))

  create_vm-Ordered : (prefer : Object) → Maintains Ordered (create_vm app libraries pve vm prefer)
  unfolding create_vm
  create_vm-Ordered prefer = Maintains-if Ordered _ _ _ (Maintains-fail Ordered _) (
      Maintains-bind Ordered _ _ (Ordered-call _) λ templates.
        Maintains-bind Ordered _ _ (template-Ordered _) λ t.
          Maintains-if Ordered _ _ _ (Maintains-fail Ordered _) (
            Maintains-then Ordered _ _ (name_or_fail-Ordered _) (
              Maintains-then Ordered _ _ (Ordered-call _) (
                Maintains-then Ordered _ _ (Ordered-call _) (
                  Maintains-bind Ordered _ _ (migrated-Ordered t _ _) λ current.
                    Maintains-bind Ordered _ _ (Ordered-call _)
                      λ found. Maintains-pure Ordered _)))))

  bridge-Ordered :
      (o : Option BridgeConfig) → Maintains Ordered (known_bridge app libraries pve vm o)
  bridge-Ordered none = Maintains-fail Ordered _
  bridge-Ordered (some b) = Maintains-pure Ordered b

  configure-Ordered :
      (prefer : Object) (cluster : Cluster) (node : Text)
      → Maintains Ordered (configure_vm app libraries pve vm prefer cluster node)
  unfolding configure_vm
  configure-Ordered prefer cluster node = Maintains-bind Ordered _ _ (bridge-Ordered _) λ bridge.
      Maintains-bind Ordered _ _ (Ordered-call _) λ cfg.
        Maintains-then Ordered _ _ (apply-Ordered app libraries pve vm prefer _ bridge cfg node) (
          Maintains-then Ordered _ _ (move_disk-Ordered pve libraries.disk_mib vm prefer cfg node) (
            Maintains-then Ordered _ _ (move_tpm-Ordered pve libraries.disk_mib vm cluster cfg node)
              (Maintains-then Ordered _ _
                (resize_disk-Ordered pve libraries.disk_mib vm prefer cfg node)
                (firewall-Ordered app libraries pve vm prefer bridge node))))

  note-Ordered : (node : Text) → Maintains Ordered (note_node app libraries pve vm node)
  unfolding note_node
  note-Ordered node =
      Maintains-if Ordered _ _ _ (Ordered-local _ (Keeps-mark_node vm.id node))
        (Maintains-pure Ordered tt)

  settle-Ordered :
      (prefer : Object) (cluster : Cluster) (node : Text)
      → Maintains Ordered (settle app libraries pve vm prefer cluster node)
  unfolding settle
  settle-Ordered prefer cluster node = Maintains-then Ordered _ _ (note-Ordered node) (
      Maintains-then Ordered _ _ pool-Ordered (
        Maintains-then Ordered _ _ (configure-Ordered prefer cluster node) (
          Maintains-then Ordered _ _ (apply_power-Ordered pve vm node _) (
            Maintains-bind Ordered _ _ (call_and_attempt pve vm _)
              λ status. Ordered-local _ (Keeps-mark_synced vm.id _)))))

  cluster-Ordered : (o : Option Cluster) → Maintains Ordered (known_cluster app libraries pve vm o)
  cluster-Ordered none = Maintains-fail Ordered _
  cluster-Ordered (some c) = Maintains-pure Ordered c

  present_on-Ordered :
      (prefer : Object) (cluster : Cluster) (found : Text × Bool)
      → Maintains Ordered (present_on app libraries pve vm prefer cluster found)
  present_on-Ordered prefer cluster (node, true) = settle-Ordered prefer cluster node
  present_on-Ordered prefer cluster (node, false) =
      Maintains-bind Ordered _ _ (create_vm-Ordered prefer) λ node.
        Maintains-undo_on_error Ordered _ _ (rollback-Ordered node)
          (settle-Ordered prefer cluster node)

  pub sync_present-Ordered :
      (prefer : Object) → Maintains Ordered (sync_present app libraries pve vm prefer)
  unfolding sync_present
  sync_present-Ordered prefer =
      Maintains-bind Ordered _ _ (cluster-Ordered _)
        λ cluster. Maintains-bind Ordered _ _ (Ordered-call _) (present_on-Ordered prefer cluster)
