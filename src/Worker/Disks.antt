-- ===== src/Worker/Disks.antt =====
-- Disks: `moveDiskIfNeeded`, `moveTPMIfNeeded` and `resizeDisk`.
use pve_manage.Prelude.{
  ℕ, ◌*◌, ◌-◌, Bool, ◌||◌, String, Option, none, some, List, [], ◌∷◌, if◌then◌else◌, is_nil, ltb,
  ◌==◌,
}
use pve_manage.Prelude.Int.{pos, pos_part, leb_ℤ}
use pve_manage.Text.{Text, text_eq, codes, trim_space, contains, before}
use pve_manage.Json.{Object, or_empty, get, as_string, string_from, int_from}
use pve_manage.Sql.{Exec, pure, fail, ◌>>◌}
use pve_manage.Tables.{Vm}
use pve_manage.Config.{Cluster}
use pve_manage.Worker.{World, call}
use pve_manage.Worker.Remote.{Pve}
use pve_manage.Worker.Power.{ensure_vm_stopped}

-- `primaryDiskConfig`: the second loop of the source repeats the first, which has found nothing.
unfoldable pub first_disk : Object → List String → Text × Text
first_disk cfg [] = ([], [])
first_disk cfg (key ∷ keys) =
    let rest = first_disk cfg keys in
    let value = as_string (get key cfg) in
    if is_nil value || contains value (codes "media=cdrom") then rest else (codes key, value)

unfoldable pub primary_disk_config : Object → Text × Text
primary_disk_config cfg = first_disk cfg ("scsi0" ∷ "virtio0" ∷ "sata0" ∷ "ide0" ∷ [])

abbrev or_empty_text : Option Text → Text
or_empty_text none = []
or_empty_text (some s) = s

-- `storageKeyFromDisk`; 58 is the colon.
unfoldable pub storage_key_from_disk : Text → Text
storage_key_from_disk raw = trim_space (or_empty_text (before 58 (trim_space raw)))

-- Nothing to move: no storage is known, or the disk is there.
abbrev pub is_in_place : Text → Text → Bool
is_in_place current desired = is_nil current || text_eq current desired

module _ {P : Type 0} (pve : Pve P) (disk_mib : Text → ℕ) (vm : Vm) where
  abbrev pub desired_storage : Object → Text
  desired_storage prefer =
      let preferred = trim_space (string_from prefer "storage_key" []) in
      if is_nil preferred
      then trim_space (string_from (or_empty vm.config) "storage_key" [])
      else preferred

  abbrev pub move_to : Text → Text × Text → Text → Exec Text (World P) (Unit {0})
  move_to node (key, raw) desired =
      if is_nil key || is_nil raw
      then fail (codes "cannot determine primary disk")
      else if is_in_place (storage_key_from_disk raw) desired
      then pure tt
      else call (pve.move_disk vm.cluster_key node vm.vmid key desired)

  -- `moveDiskIfNeeded`
  unfoldable pub move_disk_if_needed : Object → Object → Text → Exec Text (World P) (Unit {0})
  move_disk_if_needed prefer cfg node =
      if is_nil (desired_storage prefer)
      then pure tt
      else move_to node (primary_disk_config cfg) (desired_storage prefer)

  -- `moveTPMIfNeeded`
  unfoldable pub move_tpm_if_needed : Cluster → Object → Text → Exec Text (World P) (Unit {0})
  move_tpm_if_needed cluster cfg node =
      let desired = trim_space cluster.tpm in
      let raw = string_from cfg "tpmstate0" [] in
      if is_nil desired || is_nil raw || is_in_place (storage_key_from_disk raw) desired
      then pure tt
      else ensure_vm_stopped pve vm node
        >> call (pve.move_disk vm.cluster_key node vm.vmid (codes "tpmstate0") desired)

  abbrev pub resize_to : Text → ℕ → Text × Text → Exec Text (World P) (Unit {0})
  resize_to node target (key, raw) =
      if is_nil key
      then fail (codes "cannot determine primary disk")
      else if disk_mib raw == 0
      then fail (codes "cannot determine current size")
      else if ltb target (disk_mib raw)
      then fail (codes "disk resize cannot shrink")
      else call (pve.resize_disk vm.cluster_key node vm.vmid key (target - disk_mib raw))

  -- `resizeDisk`
  unfoldable pub resize_disk : Object → Object → Text → Exec Text (World P) (Unit {0})
  resize_disk prefer cfg node =
      if leb_ℤ (int_from prefer "disk_gb") (pos 0)
      then fail (codes "disk_gb is required")
      else resize_to node (pos_part (int_from prefer "disk_gb") * 1024) (primary_disk_config cfg)
