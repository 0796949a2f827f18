-- ===== src/Api/Allocation.antt =====
-- What a new VM is given: an id in its cluster, room in the quota of its owner, and a node. The
-- functions are those of internal/api/common.go. A floating-point number is known by the operations
-- of `Floats`.
use pve_manage.Prelude.{
  ℕ, zero, suc, Bool, not, ◌&&◌, Option, none, some, List, [], ◌∷◌, map, ◌==◌, if◌then◌else◌, any,
  filter,
}
use pve_manage.Prelude.Int.{ℤ, pos, pos_part, ◌+ℤ◌}
use pve_manage.Text.{Text, codes, text_eq}
use pve_manage.Json.{Column, int_from_or_zero}
use pve_manage.Sql.{query, pure, fail, ◌>>=◌}
use pve_manage.Tables.{Db, Vm, is_null}
use pve_manage.Tasks.{Sql}

-- `WHERE cluster_key = … AND deleted_at IS NULL`
abbrev pub lives_in : Text → Vm → Bool
lives_in cluster_key v = text_eq v.cluster_key cluster_key && is_null v.deleted_at

abbrev pub used_vmids : Text → Db → List ℕ
used_vmids cluster_key db = map (λ v. v.vmid) (filter (lives_in cluster_key) db.vms)

-- The loop over `limit` ids from `vmid` on.
unfoldable pub free_from : ℕ → ℕ → List ℕ → Option ℕ
free_from zero vmid used = none
free_from (suc limit) vmid used =
    let rest = free_from limit (suc vmid) used in
    if any (λ u. u == vmid) used then rest else some vmid

abbrev pub available : Option ℕ → Sql ℕ
available none = fail (codes "no vmid available in cluster")
available (some vmid) = pure vmid

-- `nextClusterVMID`. `Validate` has refused a first id or a limit that is not positive.
unfoldable pub next_cluster_vmid : Text → ℤ → ℤ → Sql ℕ
next_cluster_vmid cluster_key start_vmid limit = do
  used ← query (used_vmids cluster_key)
  available (free_from (pos_part limit) (pos_part start_vmid) used)

-- The results of `listUserVMUsage`.
pub record Usage : Type 0 where
  pub count : ℕ
  pub cpu : ℤ
  pub memory : ℤ
  pub storage : ℤ

abbrev pub no_usage : Usage
no_usage = record { count = 0; cpu = pos 0; memory = pos 0; storage = pos 0 }

-- The VMs that count against the quota of their owner.
abbrev pub is_counted : Text → Vm → Bool
is_counted username v =
    text_eq v.owner_username username && is_null v.deleted_at && v.managed && not v.quota_exempt

-- The body of the loop; a configuration that is no JSON object is skipped.
abbrev pub add_usage : Column → Usage → Usage
add_usage none u = u
add_usage (some cfg) u = record {
  count = suc u.count;
  cpu = u.cpu +ℤ int_from_or_zero cfg "cpu_cores";
  memory = u.memory +ℤ int_from_or_zero cfg "memory_gb";
  storage = u.storage +ℤ int_from_or_zero cfg "disk_gb";
}

unfoldable pub usage_of : Usage → List Vm → Usage
usage_of u [] = u
usage_of u (v ∷ vms) = usage_of (add_usage v.config u) vms

unfoldable pub user_vm_usage : Text → Db → Usage
unfolding usage_of
user_vm_usage username db = usage_of no_usage (filter (is_counted username) db.vms)

-- `listUserVMUsage`
unfoldable pub list_user_vm_usage : Text → Sql Usage
list_user_vm_usage username = query (user_vm_usage username)
