-- ===== src/Api/PlacementLaws.antt =====
-- The node of a new VM: `choosePlacementNode` of internal/api/common.go.
use mathlib.Core.Path.{subst}
use pve_manage.Prelude.{
  ◌≡◌, refl, sym, Bool, true, false, Option, none, some, List, [], ◌∷◌, arith, if◌then◌else◌,
  All-weaken, Bool-cases, inl, inr, All,
}
use pve_manage.Prelude.Int.{ℤ}
use pve_manage.Text.{Text, text_eq_refl, contains_string}
use pve_manage.Json.{Column}
use pve_manage.Sql.{Session, ok}
use pve_manage.Sql.Ensures.{Ensures, Ensures-bind, Ensures-pure, Ensures-const, ok_injective}
use pve_manage.Tables.{Db}
use pve_manage.Config.{Cluster, CpuClass, cpu_by_key}
use pve_manage.Api.Placement.{
  Floats, Candidate, better_of, better_static_allocation_node, lowest_from, or_first, place_on,
  choose_placement_node, normalize_string_list, template_node_from_real_status,
}

contains-head : (n : Text) (nodes : List Text) → contains_string (n ∷ nodes) n ≡ true
unfolding contains_string
contains-head n nodes = rw (text_eq_refl n) refl

contains-tail :
    (m n : Text) (nodes : List Text)
    → contains_string nodes n ≡ true
    → contains_string (m ∷ nodes) n ≡ true
unfolding contains_string
contains-tail m n nodes h = ground arith

contains_all : (nodes : List Text) → All (λ n. contains_string nodes n ≡ true) nodes
contains_all [] = tt
contains_all (n ∷ nodes) = (
  contains-head n nodes,
  All-weaken _ _ nodes (λ m. contains-tail n m nodes) (contains_all nodes),
)

contains-choice :
    (b : Bool) (t n : Text) (nodes : List Text)
    → contains_string nodes n ≡ true
    → b ≡ contains_string nodes t
    → contains_string nodes (if b then t else n) ≡ true
contains-choice true t n nodes h e = sym e
contains-choice false t n nodes h e = h

-- The node is one of the list, or the template's where the list is empty.
abbrev pub IsPlaced : Text → List Text → Text → Type 0
IsPlaced tie [] node = node ≡ tie
IsPlaced tie (n ∷ nodes) node = contains_string (n ∷ nodes) node ≡ true

module _ {F : Type 0} (float : Floats F) (cluster_key tie : Text) (cpu : CpuClass)
    (cores memory : ℤ) where
  -- The node of the best candidate is one of the nodes.
  abbrev IsAmong : List Text → Option Candidate → Type 0
  IsAmong nodes none = Unit
  IsAmong nodes (some c) = contains_string nodes c.node ≡ true

  better-IsAmong :
      (nodes : List Text) (c : Candidate) (best : Option Candidate)
      → contains_string nodes c.node ≡ true
      → IsAmong nodes best
      → contains_string nodes (better_of float tie c best).node ≡ true
  better-IsAmong nodes c none h k = h
  better-IsAmong nodes c (some best) h k =
      elim (Bool-cases (better_static_allocation_node float c best tie)) [
        | inl e ↦ rw e h
        | inr e ↦ rw e k
      ]

  Ensures-lowest_from :
      (nodes more : List Text) (best : Option Candidate)
      → All (λ n. contains_string nodes n ≡ true) more
      → IsAmong nodes best
      → Ensures
          (λ _. Unit {0})
          (lowest_from float cluster_key cpu cores memory tie best more)
          (λ c _. IsAmong nodes c)
  unfolding lowest_from
  Ensures-lowest_from nodes [] best h k = Ensures-pure best (λ _ _. k)
  Ensures-lowest_from nodes (node ∷ more) best (h, hs) k =
      Ensures-bind {R = λ _ _. Unit {0}} _ _ (Ensures-const _ (λ _ _. tt))
        λ allocated. Ensures-lowest_from nodes more _ hs (better-IsAmong nodes _ best h k)

  or_first-IsAmong :
      (n : Text) (nodes : List Text) (best : Option Candidate)
      → IsAmong (n ∷ nodes) best
      → contains_string (n ∷ nodes) (or_first tie (n ∷ nodes) best) ≡ true
  or_first-IsAmong n nodes (some c) h = h
  or_first-IsAmong n nodes none h =
      contains-choice (contains_string (n ∷ nodes) tie) tie n (n ∷ nodes) (contains-head n nodes)
        refl

  Ensures-place :
      (nodes : List Text)
      → Ensures
          (λ _. Unit {0})
          (place_on float cluster_key cpu cores memory tie nodes)
          (λ node _. IsPlaced tie nodes node)
  Ensures-place [] = Ensures-pure tie (λ _ _. refl)
  Ensures-place (n ∷ nodes) =
      Ensures-bind {R = λ best _. IsAmong (n ∷ nodes) best} _ _
        (Ensures-lowest_from (n ∷ nodes) (n ∷ nodes) none (contains_all (n ∷ nodes)) tt)
        λ best. record {
          at = λ s a h e.
              subst (IsPlaced tie (n ∷ nodes)) (ok_injective e) (or_first-IsAmong n nodes best h);
        }

module _ {F : Type 0} (float : Floats F) (cluster_key : Text) (cluster : Cluster) (cpu_key : Text)
    (cpu : CpuClass) (cores memory : ℤ) (template_real : Column) where
  -- `choosePlacementNode` places a VM on one of the nodes of its CPU class, whatever the scores are,
  -- or on the node of the template where the class names none.
  pub choose_placement_node-IsPlaced :
      (s : Session Db) (node : Text)
      → cpu_by_key cluster cpu_key ≡ some cpu
      → (choose_placement_node float cluster_key cluster cpu_key cores memory template_real s).0
        ≡ ok node
      → IsPlaced
          (template_node_from_real_status template_real)
          (normalize_string_list cpu.node)
          node
  unfolding choose_placement_node
  choose_placement_node-IsPlaced s node e h =
      (Ensures-place float cluster_key (template_node_from_real_status template_real) cpu cores
          memory (normalize_string_list cpu.node)).at
        s node tt (rw e at h)
