-- ===== src/Api/Placement.antt =====
-- The node of a new VM: `choosePlacementNode` of internal/api/common.go, with what it calls. A
-- floating-point number is known by the operations of `Floats`.
use pve_manage.Prelude.{
  Bool, true, false, not, ◌&&◌, ◌||◌, Option, none, some, List, [], ◌∷◌, if◌then◌else◌, filter,
  is_nil,
}
use pve_manage.Prelude.Int.{ℤ, pos, leb_ℤ, ◌+ℤ◌}
use pve_manage.Text.{Text, codes, text_eq, text_ltb, contains_string, trim_space, sort_strings}
use pve_manage.Json.{Column, or_empty, string_from_map, int_from_or_zero}
use pve_manage.Sql.{query, pure, fail, ◌>>=◌}
use pve_manage.Tables.{Vm, is_null}
use pve_manage.Tasks.{Sql}
use pve_manage.Config.{Cluster, CpuClass, cpu_by_key}

-- `float64` with its operations, and the constants of the score.
pub record Floats (F : Type 0) : Type 0 where
  pub of_int : ℤ → F
  pub add : F → F → F
  pub sub : F → F → F
  pub mul : F → F → F
  pub div : F → F → F
  pub lt : F → F → Bool
  pub cpu_weight : F
  pub mem_weight : F
  pub epsilon : F

-- `nodePlacementCandidate`
pub record Candidate : Type 0 where
  pub node : Text
  pub allocated_cpu : ℤ
  pub allocated_mem : ℤ
  pub requested_cpu : ℤ
  pub requested_mem : ℤ
  pub cpu_limit : ℤ
  pub memory_limit : ℤ

-- The managed VMs that run on a node, or wait to be created there.
abbrev pub is_placed_on : Text → Text → Vm → Bool
is_placed_on cluster_key node v =
    text_eq v.cluster_key cluster_key
    && is_null v.deleted_at
    && v.managed
    && (text_eq v.node node
        || (is_nil v.node && (elim v.target_node [ none ↦ false | some t ↦ text_eq t node ])))

unfoldable pub allocation_of : ℤ × ℤ → List Vm → ℤ × ℤ
allocation_of total [] = total
allocation_of (cpu, memory) (v ∷ vms) =
    allocation_of
      (
        cpu +ℤ int_from_or_zero (or_empty v.config) "cpu_cores",
        memory +ℤ int_from_or_zero (or_empty v.config) "memory_gb",
      )
      vms

-- `nodeStaticAllocation`
unfoldable pub node_static_allocation : Text → Text → Sql (ℤ × ℤ)
node_static_allocation cluster_key node =
    query λ db. allocation_of (pos 0, pos 0) (filter (is_placed_on cluster_key node) db.vms)

-- `normalizeStringList`: trimmed, without empty and repeated ones, sorted.
unfoldable pub distinct_trimmed : List Text → List Text → List Text
distinct_trimmed seen [] = []
distinct_trimmed seen (value ∷ values) =
    let v = trim_space value in
    let rest = distinct_trimmed seen values in
    let more = v ∷ distinct_trimmed (v ∷ seen) values in
    if is_nil v || contains_string seen v then rest else more

unfoldable pub normalize_string_list : List Text → List Text
normalize_string_list values = sort_strings (distinct_trimmed [] values)

-- `templateNodeFromRealStatus`
unfoldable pub template_node_from_real_status : Column → Text
template_node_from_real_status none = []
template_node_from_real_status (some real) = trim_space (string_from_map real "node")

abbrev pub or_first : Text → List Text → Option Candidate → Text
or_first template_node nodes (some best) = best.node
or_first template_node [] none = template_node
or_first template_node (node ∷ nodes) none =
    if contains_string (node ∷ nodes) template_node then template_node else node

abbrev pub or_else : Option Bool → Bool → Bool
or_else none b = b
or_else (some a) b = a

module _ {F : Type 0} (float : Floats F) where
  -- `resourceRatio`
  unfoldable pub resource_ratio : ℤ → ℤ → F
  resource_ratio value limit =
      if leb_ℤ value (pos 0) || leb_ℤ limit (pos 0)
      then float.of_int (pos 0)
      else float.div (float.of_int value) (float.of_int limit)

  -- `projectedCPURatio` and `projectedMemRatio`.
  unfoldable pub projected_cpu_ratio : Candidate → F
  projected_cpu_ratio c = resource_ratio (c.allocated_cpu +ℤ c.requested_cpu) c.cpu_limit

  unfoldable pub projected_mem_ratio : Candidate → F
  projected_mem_ratio c = resource_ratio (c.allocated_mem +ℤ c.requested_mem) c.memory_limit

  -- `staticAllocationScore`
  unfoldable pub static_allocation_score : Candidate → F
  static_allocation_score c =
      float.add (float.mul (projected_cpu_ratio c) float.cpu_weight)
        (float.mul (projected_mem_ratio c) float.mem_weight)

  -- Two values compared up to `1e-9`: `none` where neither is clearly less.
  abbrev pub clearly_less : F → F → Option Bool
  clearly_less a b =
      if float.lt a (float.sub b float.epsilon)
      then some true
      else if float.lt (float.add b float.epsilon) a
      then some false
      else none

  -- `betterStaticAllocationNode`
  unfoldable pub better_static_allocation_node : Candidate → Candidate → Text → Bool
  better_static_allocation_node current best preferred_tie =
      or_else (clearly_less (static_allocation_score current) (static_allocation_score best)) (
        or_else (clearly_less (projected_mem_ratio current) (projected_mem_ratio best)) (
          or_else (clearly_less (projected_cpu_ratio current) (projected_cpu_ratio best)) (
            if text_eq current.node preferred_tie && not (text_eq best.node preferred_tie)
            then true
            else if not (text_eq current.node preferred_tie) && text_eq best.node preferred_tie
            then false
            else text_ltb current.node best.node)))

  abbrev pub better_of : Text → Candidate → Option Candidate → Candidate
  better_of preferred_tie current none = current
  better_of preferred_tie current (some best) =
      if better_static_allocation_node current best preferred_tie then current else best

  -- The loop over the nodes, with the best candidate so far.
  unfoldable pub lowest_from :
      Text → CpuClass → ℤ → ℤ → Text → Option Candidate → List Text → Sql (Option Candidate)
  lowest_from cluster_key cpu cores memory preferred_tie best [] = pure best
  lowest_from cluster_key cpu cores memory preferred_tie best (node ∷ nodes) =
      node_static_allocation cluster_key node >>= λ allocated.
      lowest_from cluster_key cpu cores memory preferred_tie
        (some (
          better_of preferred_tie
            (record {
              node = node;
              allocated_cpu = allocated.0;
              allocated_mem = allocated.1;
              requested_cpu = cores;
              requested_mem = memory;
              cpu_limit = cpu.limit;
              memory_limit = cpu.memory_limit;
            })
            best))
        nodes

  abbrev pub place_on : Text → CpuClass → ℤ → ℤ → Text → List Text → Sql Text
  place_on cluster_key cpu cores memory template_node [] = pure template_node
  place_on cluster_key cpu cores memory template_node (node ∷ nodes) = do
    best ← lowest_from cluster_key cpu cores memory template_node none (node ∷ nodes)
    pure (or_first template_node (node ∷ nodes) best)

  abbrev pub place : Text → Option CpuClass → ℤ → ℤ → Text → Sql Text
  place cluster_key none cores memory template_node = fail (codes "unknown cpu_key")
  place cluster_key (some cpu) cores memory template_node =
      place_on cluster_key cpu cores memory template_node (normalize_string_list cpu.node)

  -- `choosePlacementNode` with `lowestStaticAllocationNode`.
  unfoldable pub choose_placement_node : Text → Cluster → Text → ℤ → ℤ → Column → Sql Text
  choose_placement_node cluster_key cluster cpu_key cores memory template_real =
      place cluster_key (cpu_by_key cluster cpu_key) cores memory
        (template_node_from_real_status template_real)
