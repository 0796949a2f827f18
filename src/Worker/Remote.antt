-- ===== src/Worker/Remote.antt =====
-- The operations of `*pve.Client` (internal/pve/client.go) that the worker calls, over a state of
-- Proxmox VE that the program does not see.
use pve_manage.Prelude.{ℕ, Bool, List}
use pve_manage.Text.{Text}
use pve_manage.Json.{Object}
use pve_manage.Sql.{Exec}
use pve_manage.Client.{Values}
use pve_manage.Client.Firewall.{FirewallSpec}

-- `pve.Template`, without its configuration and the type of its system.
pub record Template : Type 0 where
  pub vmid : ℕ
  pub node : Text
  pub name : Text

-- `pve.Resource`; an id that is not positive is 0.
pub record Resource : Type 0 where
  pub id : Text
  pub node : Text
  pub kind : Text
  pub status : Text
  pub name : Text
  pub vmid : ℕ

-- An item of a storage's content: `pve.StorageContent`.
pub record StorageItem : Type 0 where
  pub vmid : ℕ
  pub vol_id : Text

-- The samples that `get_node_status` and `vm_rrd_data` yield are left out. The arguments of an
-- operation on one VM are the cluster's key, the node and the VM's id.
pub record Pve (P : Type 0) : Type 0 where
  pub find_vm_node : Text → ℕ → Exec Text P (Text × Bool)
  pub vm_status : Text → Text → ℕ → Exec Text P Object
  pub start_vm : Text → Text → ℕ → Exec Text P (Unit {0})
  pub shutdown_vm : Text → Text → ℕ → Exec Text P (Unit {0})
  pub stop_vm : Text → Text → ℕ → Exec Text P (Unit {0})
  pub reboot_vm : Text → Text → ℕ → Exec Text P (Unit {0})
  pub reset_vm : Text → Text → ℕ → Exec Text P (Unit {0})
  pub delete_vm : Text → Text → ℕ → Exec Text P (Unit {0})
  pub list_templates : Text → Exec Text P (List Template)
  pub ensure_pool : Text → Text → Exec Text P (Unit {0})
  pub set_pool_vms : Text → Text → ℕ → Exec Text P (Unit {0})
  pub clone_full : Text → Text → ℕ → ℕ → Text → Text → Text → Exec Text P (Unit {0})
  pub migrate_vm : Text → Text → ℕ → Text → Text → Exec Text P (Unit {0})
  pub get_vm_config : Text → Text → ℕ → Exec Text P Object
  pub move_disk : Text → Text → ℕ → Text → Text → Exec Text P (Unit {0})
  pub resize_disk : Text → Text → ℕ → Text → ℕ → Exec Text P (Unit {0})
  pub list_vm_snapshots : Text → Text → ℕ → Exec Text P (List Text)
  pub delete_vm_snapshot : Text → Text → ℕ → Text → Exec Text P (Unit {0})
  pub list_backup_storages : Text → Text → Exec Text P (List Text)
  pub list_storage_content : Text → Text → Text → ℕ → Exec Text P (List StorageItem)
  pub delete_storage_content : Text → Text → Text → Text → Exec Text P (Unit {0})
  pub set_vm_config : Text → Text → ℕ → Values → Exec Text P (Unit {0})
  pub list_vm_resources : Text → Exec Text P (List Resource)
  pub get_node_status : Text → Text → Exec Text P (Unit {0})
  pub vm_rrd_data : Text → Text → ℕ → Exec Text P (Unit {0})
  pub ensure_firewall : Text → Text → ℕ → FirewallSpec → Exec Text P (Unit {0})
