-- ===== src/Examples/Creation.antt =====
-- The theorems on the creation of a VM at a sample request.
use pve_manage.Prelude.{
  ℕ, ◌≡◌, refl, ◌↔◌, Option, none, some, [], ◌∷◌, if◌then◌else◌, ◌+◌, ◌-◌, ◌*◌, ◌/◌, ltb,
}
use pve_manage.Prelude.Int.{pos, negsuc, ◌+ℤ◌, ◌-ℤ◌}
use pve_manage.Text.{Text, codes, text_eq}
use pve_manage.Json.{str}
use pve_manage.Sql.{Except, ok, err}
use pve_manage.Tables.{Db, Template}
use pve_manage.Config.{Cluster, CpuClass}
use pve_manage.Api.{User, reply, done}
use pve_manage.Api.Ipv4.{Octets, add_ipv4, add_octet, derive_ipv4}
use pve_manage.Api.Ipv4Laws.{IsBytes, value, add_ipv4_iff}
use pve_manage.Api.Addresses.{derive_ipv4_injective}
use pve_manage.Api.Allocation.{free_from, user_vm_usage}
use pve_manage.Api.AllocationLaws.{IsLeastFree, AllUsed, free_from_iff}
use pve_manage.Api.Placement.{
  Floats, choose_placement_node, normalize_string_list, template_node_from_real_status,
}
use pve_manage.Api.PlacementLaws.{IsPlaced, choose_placement_node-IsPlaced}
use pve_manage.Api.CreateChecks.{CreateBody, CreateRequest}
use pve_manage.Api.CreateOptions.{effective_quota}
use pve_manage.Api.Create.{handle_create_vm}
use pve_manage.Api.UsageLaws.{IsWithin}
use pve_manage.Api.Created.{handle_create_vm-quota}
use pve_manage.Examples.{alice, session_of}
use pve_manage.Examples.Names.{app, cluster}
use pve_manage.Examples.Groups.{student, grouped}

abbrev base : Octets
base = record { first = 10; second = 0; third = 0; fourth = 250 }

abbrev carried : Octets
carried = record { first = 10; second = 0; third = 1; fourth = 4 }

add_ipv4_iff_example :
    (add_ipv4 base (pos 10) ≡ ok carried)
    ↔ (IsBytes carried × (pos (value base) +ℤ pos 10 ≡ pos (value carried)))
add_ipv4_iff_example = add_ipv4_iff base (pos 10) carried

-- A reading of addresses that knows one.
abbrev to_v4 : Text → Option Octets
to_v4 s = if text_eq s (codes "10.0.0.2") then some base else none

free_from_iff_example :
    ((vmid : ℕ)
      → (free_from 3 100 (100 ∷ 102 ∷ []) ≡ some vmid) ↔ IsLeastFree 3 100 (100 ∷ 102 ∷ []) vmid)
    × ((free_from 3 100 (100 ∷ 102 ∷ []) ≡ none) ↔ AllUsed 3 100 (100 ∷ 102 ∷ []))
free_from_iff_example = free_from_iff 3 100 (100 ∷ 102 ∷ [])

-- Whole numbers in place of `float64`.
abbrev float : Floats ℕ
float = record {
  of_int = λ n. elim n [ pos k ↦ k | negsuc k ↦ 0 ];
  add = λ a b. a + b;
  sub = λ a b. a - b;
  mul = λ a b. a * b;
  div = λ a b. (100 * a) / b;
  lt = ltb;
  cpu_weight = 35;
  mem_weight = 65;
  epsilon = 0;
}

abbrev debian : Template
debian = record {
  cluster_key = codes "main";
  template_vmid = 9000;
  name = codes "debian";
  real_status = some (("node", str (codes "node1")) ∷ []);
}

abbrev stocked : Db
stocked = record grouped { templates = debian ∷ [] }

abbrev creation : CreateRequest
creation = record {
  user = ok student;
  body = some (record {
    cluster_key = codes "main";
    vmname = codes "db";
    password = none;
    cpu_key = codes "fast";
    cpu_cores = pos 1;
    memory_gb = pos 1;
    storage_key = codes "ssd";
    disk_gb = pos 20;
    bridge_key = codes "vmbr0";
    boot_order = [];
    template_vmid = pos 9000;
    sshkeys = [];
    ssh_key_ids = [];
    shared_usernames = [];
    security_group_name = codes "lab";
    uestc_restricted = none;
    power = [];
  });
}

abbrev parse_key : Text → Except Text (Text × Text)
parse_key s = ok (s, [])

abbrev draw : ℕ → Option ℕ
draw i = some i

abbrev spread : CpuClass
spread = record {
  name = codes "Fast";
  limit = pos 8;
  memory_limit = pos 64;
  node = codes "node2" ∷ codes "node1" ∷ [];
}

abbrev wide : Cluster
wide = record cluster { cpu = (codes "fast", spread) ∷ [] }

derive_ipv4_injective_example : ◌≡◌ {A = ℕ} 105 105
unfolding derive_ipv4 pve_manage.Config.bridge_by_key pve_manage.Config.lookup text_eq add_ipv4
    add_octet ◌+ℤ◌ ◌-ℤ◌ pve_manage.Api.Ipv4.octets_text pve_manage.Text.numeral pve_manage.Text.itoa
derive_ipv4_injective_example =
    derive_ipv4_injective to_v4 cluster (codes "vmbr0") 105 105 (codes "10.0.0.255/24") refl refl

choose_placement_node-IsPlaced_example :
    IsPlaced
      (template_node_from_real_status debian.real_status)
      (normalize_string_list spread.node)
      (codes "node1")
unfolding pve_manage.Config.cpu_by_key pve_manage.Config.lookup text_eq choose_placement_node
    normalize_string_list pve_manage.Text.sort_strings pve_manage.Api.Placement.distinct_trimmed
    pve_manage.Text.trim_space pve_manage.Text.trim_right pve_manage.Text.trim_left
    pve_manage.Text.is_space pve_manage.Text.contains_string pve_manage.Text.insert_text
    pve_manage.Text.text_ltb pve_manage.Sql.◌>>=◌ pve_manage.Api.Placement.lowest_from
    pve_manage.Api.Placement.node_static_allocation pve_manage.Api.Placement.allocation_of
    pve_manage.Api.Placement.better_static_allocation_node
    pve_manage.Api.Placement.projected_cpu_ratio pve_manage.Api.Placement.projected_mem_ratio
    pve_manage.Api.Placement.resource_ratio pve_manage.Api.Placement.static_allocation_score
    template_node_from_real_status pve_manage.Json.get ◌+ℤ◌ pve_manage.Sql.query
choose_placement_node-IsPlaced_example =
    choose_placement_node-IsPlaced float (codes "main") wide (codes "fast") spread (pos 1) (pos 1)
      debian.real_status (session_of stocked) (codes "node1") refl refl

handle_create_vm-quota_example : IsWithin (effective_quota app student) (
    user_vm_usage alice
      (handle_create_vm float to_v4 parse_key app draw creation (session_of stocked)).1.db)
unfolding handle_create_vm pve_manage.Sql.◌>>=◌ pve_manage.Api.Create.plan_and_allocate
    pve_manage.Api.Create.plan_vm pve_manage.Api.logged_in pve_manage.Api.parsed
    pve_manage.Api.CreateChecks.check_body pve_manage.Sql.◌>>◌ pve_manage.Api.require
    pve_manage.Text.trim_space pve_manage.Text.trim_right pve_manage.Text.trim_left
    pve_manage.Text.is_space pve_manage.Vmname.validate_managed pve_manage.Vmname.validate_pve
    pve_manage.Vmname.prefixed pve_manage.Text.has_prefix pve_manage.Text.split
    pve_manage.Vmname.ascii_alpha_numeric pve_manage.Api.Groups.valid_security_group_name text_eq
    pve_manage.Api.Groups.accepted pve_manage.Api.CreateChecks.normalize_boot_order
    pve_manage.Text.to_lower pve_manage.Api.Keys.normalize_ssh_key_list
    pve_manage.Api.Keys.distinct_lines normalize_string_list pve_manage.Text.sort_strings
    pve_manage.Api.Placement.distinct_trimmed pve_manage.Text.contains_string
    pve_manage.Api.CreateOptions.check_options pve_manage.Config.cluster_by_key
    pve_manage.Config.lookup pve_manage.Config.cpu_by_key free_from
    pve_manage.Api.Allocation.list_user_vm_usage pve_manage.Api.Allocation.next_cluster_vmid
    pve_manage.Api.Allocation.usage_of user_vm_usage pve_manage.Api.Create.allocate
    pve_manage.Api.Create.insert_rows pve_manage.Api.CreateChecks.password_from
    pve_manage.Api.CreateChecks.random_password pve_manage.Api.CreateOptions.check_quota add_ipv4
    add_octet derive_ipv4 pve_manage.Api.Ipv4.octets_text pve_manage.Api.Keys.annotate_ssh_key_line
    pve_manage.Api.Keys.load_keys pve_manage.Api.Keys.load_ssh_key_row
    pve_manage.Api.Keys.load_ssh_keys_by_ids pve_manage.Api.Keys.normalize_ssh_key_line
    pve_manage.Api.Keys.valid_username_like pve_manage.Api.Placement.allocation_of
    pve_manage.Api.Placement.better_static_allocation_node choose_placement_node
    pve_manage.Api.Placement.lowest_from pve_manage.Api.Placement.node_static_allocation
    pve_manage.Api.Placement.projected_cpu_ratio pve_manage.Api.Placement.projected_mem_ratio
    pve_manage.Api.Placement.resource_ratio pve_manage.Api.Placement.static_allocation_score
    template_node_from_real_status pve_manage.Api.load_vm_row pve_manage.Config.bridge_by_key
    pve_manage.Config.effective_user_limit pve_manage.Config.merge_groups pve_manage.Config.raise
    pve_manage.Config.storage_by_key pve_manage.Json.get ◌+ℤ◌ ◌-ℤ◌ pve_manage.Sql.on_error
    pve_manage.Sql.exec pve_manage.Sql.in_tx pve_manage.Sql.query pve_manage.Sql.statement
    pve_manage.Sql.with_now pve_manage.Tasks.max_seq pve_manage.Tasks.queue_vm_task_tx
    pve_manage.Text.itoa pve_manage.Text.numeral pve_manage.Text.insert_text
    pve_manage.Text.text_ltb
handle_create_vm-quota_example =
    handle_create_vm-quota float to_v4 parse_key app draw creation student refl (session_of stocked)
      (reply 201 done) refl
