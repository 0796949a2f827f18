-- ===== src/Worker/Effects.antt =====
-- What `resizeDisk` and `removeSnapshots` of internal/worker/worker.go ask of Proxmox VE.
use pve_manage.Prelude.{
  ℕ, ◌+◌, ◌*◌, ◌-◌, ◌≡◌, refl, ap, false, List, [], ◌∷◌, arith, ltb, is_nil, ◌==◌, Bool-cases, ◌⊎◌,
  inl, inr,
}
use pve_manage.Prelude.Int.{pos, pos_part, leb_ℤ}
use pve_manage.Text.{Text, codes}
use pve_manage.Json.{Object, int_from}
use pve_manage.Sql.{Except, err, Exec}
use pve_manage.Tables.{Vm}
use pve_manage.Worker.{World, call}
use pve_manage.Worker.Remote.{Pve}
use pve_manage.Worker.Disks.{primary_disk_config, resize_disk, resize_to}
use pve_manage.Worker.Deletion.{keeps_snapshot, remove_each_snapshot, remove_snapshots}
use pve_manage.Worker.Deadline.{Spares}
use pve_manage.Worker.Maintains.{Maintains, Maintains-pure, Maintains-bind, Maintains-then}

module _ {P : Type 0} (pve : Pve P) (disk_mib : Text → ℕ) (vm : Vm) (prefer cfg : Object)
    (node : Text) where
  -- The VM's primary disk, and the growth that takes it to the preferred size.
  pub record Grows (run : Except Text (Unit {0}) × World P) (w : World P) : Type 0 where
    key : Text
    raw : Text
    growth : ℕ
    disk : primary_disk_config cfg ≡ (key, raw)
    reaches : pos (disk_mib raw + growth) ≡ pos (pos_part (int_from prefer "disk_gb") * 1024)
    calls : run ≡ call (pve.resize_disk vm.cluster_key node vm.vmid key growth) w

  resize_to-Grows :
      (w : World P) (disk : Text × Text)
      → primary_disk_config cfg ≡ disk
      → ((e : Text) × (resize_to pve disk_mib vm node
              (pos_part (int_from prefer "disk_gb") * 1024)
              disk
              w
            ≡ (err e, w)))
        ⊎ Grows
            (resize_to pve disk_mib vm node (pos_part (int_from prefer "disk_gb") * 1024) disk w)
            w
  resize_to-Grows w (key, raw) h =
      let target = pos_part (int_from prefer "disk_gb") * 1024 in
      elim (Bool-cases (is_nil key)) [
        | inl e ↦ rw e (inl (codes "cannot determine primary disk", refl))
        | inr e ↦ rw e (elim (Bool-cases (disk_mib raw == 0)) [
          | inl f ↦ rw f (inl (codes "cannot determine current size", refl))
          | inr f ↦ rw f (elim (Bool-cases (ltb target (disk_mib raw))) [
            | inl g ↦ rw g (inl (codes "disk resize cannot shrink", refl))
            | inr g ↦ rw g (
                inr (record {
                  key = key;
                  raw = raw;
                  growth = target - disk_mib raw;
                  disk = h;
                  reaches = ap pos (ground arith);
                  calls = refl;
                }))
          ])
        ])
      ]

  -- Resizing a disk never shrinks it: either the step fails and has asked for nothing, or it asks
  -- once for the growth that takes the primary disk from its size to the preferred one.
  pub resize_disk-Grows :
      (w : World P)
      → ((e : Text) × (resize_disk pve disk_mib vm prefer cfg node w ≡ (err e, w)))
        ⊎ Grows (resize_disk pve disk_mib vm prefer cfg node w) w
  unfolding resize_disk
  resize_disk-Grows w = elim (Bool-cases (leb_ℤ (int_from prefer "disk_gb") (pos 0))) [
    | inl e ↦ rw e (inl (codes "disk_gb is required", refl))
    | inr e ↦ rw e (resize_to-Grows w (primary_disk_config cfg) refl)
  ]

module _ {P : Type 0} (I : P → Type 0) (pve : Pve P) (vm : Vm) (node : Text)
    (listing : Spares I (pve.list_vm_snapshots vm.cluster_key node vm.vmid))
    (deleting : (name : Text)
      → keeps_snapshot name ≡ false
      → Spares I (pve.delete_vm_snapshot vm.cluster_key node vm.vmid name)) where
  abbrev Remote : World P → Type 0
  Remote w = I w.remote

  call-Maintains : {A : Type 0} (m : Exec Text P A) → Spares I m → Maintains Remote (call m)
  unfolding call
  call-Maintains m h = record { at = λ w q. h.at w.remote q }

  remove_each-Maintains :
      (names : List Text) → Maintains Remote (remove_each_snapshot pve vm node names)
  unfolding remove_each_snapshot
  remove_each-Maintains [] = Maintains-pure Remote tt
  remove_each-Maintains (name ∷ names) = elim (Bool-cases (keeps_snapshot name)) [
    | inl e ↦ rw e (remove_each-Maintains names)
    | inr e ↦ rw e (
        Maintains-then Remote _ _ (call-Maintains _ (deleting name e))
          (remove_each-Maintains names))
  ]

  -- Removing the snapshots of a VM keeps what listing them and deleting one that has a name other
  -- than `current` keep: neither the nameless one nor `current` is deleted.
  pub remove_snapshots-spares_current :
      (w : World P) → I w.remote → I (remove_snapshots pve vm node w).1.remote
  unfolding remove_snapshots
  remove_snapshots-spares_current w h =
      let run = Maintains-bind Remote _ _ (call-Maintains _ listing) remove_each-Maintains in
      run.at w h
