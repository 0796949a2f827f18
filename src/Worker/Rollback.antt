-- ===== src/Worker/Rollback.antt =====
-- A provisioning that fails half-way: `syncPresent` and `rollbackProvision` of
-- internal/worker/worker.go.
use pve_manage.Prelude.{ℕ, ◌≡◌, ◌∙◌, ap, false, some, ◌∷◌}
use pve_manage.Text.{Text}
use pve_manage.Json.{Object}
use pve_manage.Sql.{ok, err, Exec, continue, ◌>>=◌}
use pve_manage.Tables.{Vm}
use pve_manage.Config.{App, Cluster, cluster_by_key}
use pve_manage.Worker.Settings.{Libraries}
use pve_manage.Worker.{World, call, undo_if, undo_on_error}
use pve_manage.Worker.Remote.{Pve}
use pve_manage.Worker.Provision.{create_vm, known_cluster, rollback_provision, settle, sync_present}

module _ {P : Type 0} where
  bind_at :
      {A B : Type 0} (m : Exec Text (World P) A) (f : A → Exec Text (World P) B) (w : World P)
      (a : A) (w' : World P)
      → m w ≡ (ok a, w')
      → (m >>= f) w ≡ f a w'
  unfolding ◌>>=◌
  bind_at m f w a w' h = ap (λ r. continue r f) h

  undo_at :
      {A : Type 0} (undo : Exec Text (World P) (Unit {0})) (m : Exec Text (World P) A)
      (w w' : World P) (e : Text)
      → m w ≡ (err e, w')
      → undo_on_error undo m w ≡ (err e, (undo w').1)
  unfolding undo_on_error
  undo_at undo m w w' e h = ap (undo_if undo) h

module _ {P : Type 0} (app : App) (libraries : Libraries) (pve : Pve P) (vm : Vm) (prefer : Object)
    (cluster : Cluster) where
  known :
      cluster_by_key app vm.cluster_key ≡ some cluster
      → (w : World P)
      → known_cluster app libraries pve vm (cluster_by_key app vm.cluster_key) w ≡ (ok cluster, w)
  known h w = ap (λ o. known_cluster app libraries pve vm o w) h

  -- Where a VM did not exist and has been created, and a later step fails, the worker asks for the
  -- deletion of that VM as its last act and reports the error of that step.
  pub sync_present_rolled_back :
      (old : Text) (c : ℕ) (node : Text) (w w0 w1 w2 : World P) (e : Text)
      → cluster_by_key app vm.cluster_key ≡ some cluster
      → call (pve.find_vm_node vm.cluster_key vm.vmid) w ≡ (ok (old, false), w0)
      → create_vm app libraries pve vm prefer w0 ≡ (ok (c ∷ node), w1)
      → settle app libraries pve vm prefer cluster (c ∷ node) w1 ≡ (err e, w2)
      → sync_present app libraries pve vm prefer w
        ≡ (err e, (call (pve.delete_vm vm.cluster_key (c ∷ node) vm.vmid) w2).1)
  unfolding sync_present rollback_provision
  sync_present_rolled_back old c node w w0 w1 w2 e configured missing created failed =
      bind_at _ _ w cluster w (known configured w)
      ∙ bind_at _ _ w (old, false) w0 missing
      ∙ bind_at _ _ w0 (c ∷ node) w1 created
      ∙ undo_at _ _ w1 w2 e failed
