-- ===== src/Examples/Remote.antt =====
-- The worker's theorems against a Proxmox VE that notes the commands it is given.
use pve_manage.Prelude.{
  ℕ, ◌≡◌, ◌⊎◌, refl, Bool, true, false, ◌||◌, Option, some, List, [], ◌∷◌, arith,
}
use pve_manage.Text.{Text, codes, text_eq}
use pve_manage.Json.{Object, Value, get, str, num, time}
use pve_manage.Prelude.Int.{pos}
use pve_manage.Sql.{Exec, ok, err}
use pve_manage.Worker.{World}
use pve_manage.Worker.Remote.{Pve, Resource}
use pve_manage.Worker.Deletion.{sync_delete, delete_execute_after_for_task}
use pve_manage.Worker.Deadline.{Spares, sync_delete-before_deadline}
use pve_manage.Worker.Disks.{resize_disk}
use pve_manage.Worker.Effects.{Grows, resize_disk-Grows}
use pve_manage.Examples.{web, doomed, tables, session_of}

-- The names of the commands that change something, the last one first.
abbrev pub Log : Type 0
Log = List Text

abbrev pub noted : Text → Exec Text Log (Unit {0})
noted name log = (ok tt, name ∷ log)

abbrev pub answered : {A : Type 0} → A → Exec Text Log A
answered a log = (ok a, log)

abbrev pub status : Object
status = ("status", str (codes "running")) ∷ []

-- A VM that the program does not know.
abbrev resource : Resource
resource = record {
  id = codes "qemu/300";
  node = codes "node1";
  kind = codes "qemu";
  status = codes "running";
  name = [];
  vmid = 300;
}

abbrev pub pve : Pve Log
pve = record {
  find_vm_node = λ cluster vmid. answered (codes "node1", true);
  vm_status = λ cluster node vmid. answered status;
  start_vm = λ cluster node vmid. noted (codes "start");
  shutdown_vm = λ cluster node vmid. noted (codes "shutdown");
  stop_vm = λ cluster node vmid. noted (codes "stop");
  reboot_vm = λ cluster node vmid. noted (codes "reboot");
  reset_vm = λ cluster node vmid. noted (codes "reset");
  delete_vm = λ cluster node vmid. noted (codes "delete");
  list_templates = λ cluster. answered [];
  ensure_pool = λ cluster pool. noted (codes "pool");
  set_pool_vms = λ cluster pool vmid. noted (codes "member");
  clone_full = λ cluster node template vmid name storage pool. noted (codes "clone");
  migrate_vm = λ cluster node vmid target storage. noted (codes "migrate");
  get_vm_config = λ cluster node vmid. answered [];
  move_disk = λ cluster node vmid key storage. noted (codes "move");
  resize_disk = λ cluster node vmid key growth. noted (codes "resize");
  list_vm_snapshots = λ cluster node vmid. answered (codes "current" ∷ codes "daily" ∷ []);
  delete_vm_snapshot = λ cluster node vmid name. noted name;
  list_backup_storages = λ cluster node. answered [];
  list_storage_content = λ cluster node storage vmid. answered [];
  delete_storage_content = λ cluster node storage volume. noted (codes "remove");
  set_vm_config = λ cluster node vmid params. noted (codes "set");
  list_vm_resources = λ cluster. answered (resource ∷ []);
  get_node_status = λ cluster node. answered tt;
  vm_rrd_data = λ cluster node vmid. answered tt;
  ensure_firewall = λ cluster node vmid spec. noted (codes "firewall");
}

abbrev pub world : World Log
world = record { tables = session_of tables; remote = [] }

-- No VM has been deleted.
abbrev NotDeleted : Log → Type 0
NotDeleted [] = Unit
NotDeleted (name ∷ log) = (text_eq name (codes "delete") ≡ false) × NotDeleted log

or_false_right : (a b : Bool) → (a || b) ≡ false → b ≡ false
or_false_right a b h = ground arith

noted-Spares :
    (name : Text) → text_eq name (codes "delete") ≡ false → Spares NotDeleted (noted name)
noted-Spares name e = record { at = λ log h. (e, h) }

abbrev due_later : Option Object
due_later = some (("execute_after", time 200) ∷ [])

later_deadline : delete_execute_after_for_task doomed [] due_later ≡ some 200
unfolding delete_execute_after_for_task get pve_manage.Json.truthy
later_deadline = refl

shutdown-Spares :
    (node : Text) → Spares NotDeleted (pve.shutdown_vm doomed.cluster_key node doomed.vmid)
unfolding text_eq
shutdown-Spares node = noted-Spares (codes "shutdown") refl

stop-Spares : (node : Text) → Spares NotDeleted (pve.stop_vm doomed.cluster_key node doomed.vmid)
unfolding text_eq
stop-Spares node = noted-Spares (codes "stop") refl

find-Spares : Spares NotDeleted (pve.find_vm_node doomed.cluster_key doomed.vmid)
find-Spares = record { at = λ log h. h }

sync_delete-before_deadline_example :
    NotDeleted (sync_delete pve doomed [] due_later world).1.remote
sync_delete-before_deadline_example =
    sync_delete-before_deadline NotDeleted pve doomed [] due_later 100 200 find-Spares
      shutdown-Spares stop-Spares later_deadline (omega arith) world refl tt

abbrev preferred : Object
preferred = ("disk_gb", num (pos 20)) ∷ []

abbrev disk : Object
disk = ("scsi0", str (codes "ssd:vm-107,size=10G")) ∷ []

-- A reading of sizes that knows one disk.
abbrev disk_mib : Text → ℕ
disk_mib raw = 10240

resize_disk-Grows_example :
    ((e : Text) × (resize_disk pve disk_mib web preferred disk (codes "node1") world
        ≡ (err e, world)))
    ⊎ Grows pve disk_mib web preferred disk
        (codes "node1")
        (resize_disk pve disk_mib web preferred disk (codes "node1") world)
        world
resize_disk-Grows_example = resize_disk-Grows pve disk_mib web preferred disk (codes "node1") world
