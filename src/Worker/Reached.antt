-- ===== src/Worker/Reached.antt =====
-- `applyPower` of internal/worker/worker.go at the wanted power state.
use pve_manage.Prelude.{◌≡◌, refl, true, [], if◌then◌else◌}
use pve_manage.Text.{Text, text_eq, codes}
use pve_manage.Json.{Object, string_from}
use pve_manage.Sql.{Except, ok, err, Exec, continue, pure, ◌>>=◌}
use pve_manage.Tables.{Vm}
use pve_manage.Worker.{World, call}
use pve_manage.Worker.Remote.{Pve}
use pve_manage.Worker.Power.{apply_power, ensure_vm_stopped, shut_down}

-- The states that a VM stays in.
pub data IsSteady : Text → Type 0 where
  running : IsSteady (codes "running")
  stopped : IsSteady (codes "stopped")

same : {E A : Type 0} {a b : A} → ◌≡◌ {A = Except E A} (ok a) (ok b) → a ≡ b
same h = cc

module _ {P : Type 0} (pve : Pve P) (vm : Vm) (node : Text) where
  reached :
      (s : Text) (r : Except Text Object × World P) (status : Object)
      (act : Exec Text (World P) (Unit {0}))
      → r.0 ≡ ok status
      → text_eq (string_from status "status" []) s ≡ true
      → continue r (λ o. if text_eq (string_from o "status" []) s then pure tt else act)
        ≡ (ok tt, r.1)
  reached s (ok o, w) status act h e = rw (same h) (rw e refl)
  reached s (err x, w) status act h e = cc

  -- A VM that is asked to run and runs, or to be stopped and is, gets no command: applying the power
  -- state succeeds and asks for the VM's state only.
  pub apply_power_reached :
      (s : Text) (w : World P) (status : Object)
      → IsSteady s
      → (call (pve.vm_status vm.cluster_key node vm.vmid) w).0 ≡ ok status
      → text_eq (string_from status "status" []) s ≡ true
      → apply_power pve vm node s w
        ≡ (ok tt, (call (pve.vm_status vm.cluster_key node vm.vmid) w).1)
  unfolding apply_power ensure_vm_stopped text_eq ◌>>=◌
  apply_power_reached s w status IsSteady.running h e =
      reached (codes "running") (call (pve.vm_status vm.cluster_key node vm.vmid) w) status
        (call (pve.start_vm vm.cluster_key node vm.vmid)) h e
  apply_power_reached s w status IsSteady.stopped h e =
      reached (codes "stopped") (call (pve.vm_status vm.cluster_key node vm.vmid) w) status
        (shut_down pve vm node) h e
