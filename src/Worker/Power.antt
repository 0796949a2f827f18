-- ===== src/Worker/Power.antt =====
-- Power: `applyPower`, `ensureVMStopped`, `runPowerTask` and `runRebootTask`.
use pve_manage.Prelude.{Bool, false, ◌||◌, not, [], ◌∷◌, if◌then◌else◌}
use pve_manage.Prelude.Int.{pos}
use pve_manage.Text.{Text, text_eq, codes, to_lower, contains}
use pve_manage.Json.{Object, str, num, time, string_from}
use pve_manage.Sql.{Except, ok, err, Exec, pure, fail, ◌>>=◌, ◌>>◌}
use pve_manage.Tables.{Vm}
use pve_manage.Worker.{World, local, call, attempt}
use pve_manage.Worker.Remote.{Pve}
use pve_manage.Worker.Marks.{mark_synced}

-- `isPowerTimeoutError`
unfoldable pub is_power_timeout_error : Text → Bool
is_power_timeout_error e =
    contains (to_lower e) (codes "got timeout")
    || contains (to_lower e) (codes "timed out")
    || contains (to_lower e) (codes "timeout")

-- `stringFromMap(status, "status", "") == s`, false after an error.
abbrev pub status_is : Text → Except Text Object → Bool
status_is s (ok status) = text_eq (string_from status "status" []) s
status_is s (err e) = false

module _ {P : Type 0} (pve : Pve P) (vm : Vm) where
  -- What follows a shutdown, or a reboot, that returned an error: another error than a timeout is
  -- final; after a timeout the state decides whether the hard command is still needed.
  unfoldable pub after_command :
      Text → Text → Exec Text P (Unit {0}) → Except Text (Unit {0}) → Exec Text (World P) (Unit {0})
  after_command node wanted hard (ok _) = pure tt
  after_command node wanted hard (err e) =
      if not (is_power_timeout_error e)
      then fail e
      else attempt (call (pve.vm_status vm.cluster_key node vm.vmid)) >>= λ status.
          if status_is wanted status then pure tt else call hard

  unfoldable pub shut_down : Text → Exec Text (World P) (Unit {0})
  shut_down node = do
    result ← attempt (call (pve.shutdown_vm vm.cluster_key node vm.vmid))
    after_command node (codes "stopped") (pve.stop_vm vm.cluster_key node vm.vmid) result

  unfoldable pub restart : Text → Exec Text (World P) (Unit {0})
  restart node = do
    result ← attempt (call (pve.reboot_vm vm.cluster_key node vm.vmid))
    after_command node (codes "running") (pve.reset_vm vm.cluster_key node vm.vmid) result

  -- `ensureVMStopped`, and the case `stopped` of `applyPower`.
  unfoldable pub ensure_vm_stopped : Text → Exec Text (World P) (Unit {0})
  ensure_vm_stopped node = do
    status ← call (pve.vm_status vm.cluster_key node vm.vmid)
    if status_is (codes "stopped") (ok status) then pure tt else shut_down node

  abbrev pub start_stopped : Text → Exec Text (World P) (Unit {0})
  start_stopped node = do
    status ← call (pve.vm_status vm.cluster_key node vm.vmid)
    if status_is (codes "running") (ok status)
        then pure tt
        else call (pve.start_vm vm.cluster_key node vm.vmid)

  abbrev pub restart_running : Text → Exec Text (World P) (Unit {0})
  restart_running node = do
    status ← call (pve.vm_status vm.cluster_key node vm.vmid)
    if status_is (codes "running") (ok status) then restart node else pure tt

  -- `applyPower`
  unfoldable pub apply_power : Text → Text → Exec Text (World P) (Unit {0})
  apply_power node power =
      if text_eq power (codes "running")
      then start_stopped node
      else if text_eq power (codes "stopped")
      then ensure_vm_stopped node
      else if text_eq power (codes "reboot")
      then restart_running node
      else if text_eq power [] || text_eq power (codes "unknown")
      then pure tt
      else fail (codes "unknown power")

  -- The node of the row, or else the one that has the VM; empty where none has it.
  abbrev pub known_node : Text → Exec Text (World P) Text
  known_node [] = call (pve.find_vm_node vm.cluster_key vm.vmid) >>= λ found. pure found.0
  known_node (c ∷ node) = pure (c ∷ node)

  abbrev pub power_on : Text → Text → Exec Text (World P) (Unit {0})
  power_on power [] = pure tt
  power_on power (c ∷ node) = do
    apply_power (c ∷ node) power
    status ← call (pve.vm_status vm.cluster_key (c ∷ node) vm.vmid)
    local (
        mark_synced vm.id λ now.
          ("intent", str (codes "present"))
          ∷ ("power", str (string_from status "status" power))
          ∷ ("vmid", num (pos vm.vmid))
          ∷ ("node", str (c ∷ node))
          ∷ ("last_synced_at", time now)
          ∷ [])

  abbrev pub reboot_on : Text → Exec Text (World P) (Unit {0})
  reboot_on [] = pure tt
  reboot_on (c ∷ node) = apply_power (c ∷ node) (codes "reboot")

  -- `runPowerTask`
  unfoldable pub run_power_task : Text → Exec Text (World P) (Unit {0})
  run_power_task power = known_node vm.node >>= power_on power

  -- `runRebootTask`
  unfoldable pub run_reboot_task : Exec Text (World P) (Unit {0})
  run_reboot_task = known_node vm.node >>= reboot_on
