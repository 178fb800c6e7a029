-- ===== src/Pebble/Strategy.antt =====
-- pebble/src/strategy.rs and `get_eviction_candidates` of pebble/src/dag/eviction.rs: which
-- checkpoints leave fast memory.
pub mod Orders
pub mod Candidates
use abmac_lib.Prelude.{
  ℕ, zero, suc, ◌+◌, ◌-◌, ◌*◌, ◌^◌, Bool, true, false, ◌||◌, List, [], ◌∷◌, Option, none, some,
  length, take, max, if◌then◌else◌,
}
use abmac_lib.Prelude.Sorting.{SortKey, sort_by_key, isqrt}
use abmac_lib.Hash.{Key}
use abmac_lib.Hash.Maps.{get, contains_key}
use abmac_lib.Pebble.Dag.{DagNode, ComputationDag}

pub data DagPriorityMode : Type 0 where
  least_recently_used lowest_computation_cost fewest_dependents hybrid : DagPriorityMode

pub record TreeStrategy : Type 0 where
  pub postorder_priority : Bool
  pub leaf_first : Bool

pub record DagStrategy : Type 0 where
  pub priority_mode : DagPriorityMode

pub data Strategy : Type 0 where
  tree : TreeStrategy → Strategy
  dag_strategy : DagStrategy → Strategy

-- `usize::MAX` and `u64::MAX`
abbrev pub max_value : ℕ
max_value = 2 ^ 64 - 1

-- `unwrap_or(usize::MAX)`
abbrev pub or_max : Option ℕ → ℕ
or_max none = max_value
or_max (some n) = n

unfoldable pub get_eviction_count : ℕ → ℕ → ℕ
unfolding isqrt
get_eviction_count red_count total_count = red_count - isqrt total_count

-- The fields of `DAGStats` that a strategy reads.
pub record DagStats : Type 0 where
  pub total_nodes : ℕ
  pub leaf_nodes : ℕ

unfoldable pub recommended_hot_capacity : Strategy → DagStats → ℕ
unfolding isqrt
recommended_hot_capacity (tree _) stats = max (isqrt stats.leaf_nodes * 2) 16
recommended_hot_capacity (dag_strategy _) stats = max (isqrt stats.total_nodes) 32

module _ {ℓ} {K : Type ℓ} where
  -- The key of `get_eviction_candidates`; a pair, filled up by a component that is always equal.
  abbrev pub access_key : Option (DagNode K) → SortKey
  access_key none = (max_value, max_value, 0)
  access_key (some n) = (n.access_frequency, n.creation_time, 0)

  abbrev pub leaf_key : Option (DagNode K) → SortKey
  leaf_key none = (max_value, 0, 0)
  leaf_key (some n) = (length n.dependents, n.access_frequency, n.creation_time)

  abbrev pub postorder_key : ℕ → Option (DagNode K) → SortKey
  postorder_key cp none = (cp, max_value, max_value)
  postorder_key cp (some n) = (cp, n.access_frequency, n.computation_cost)

  abbrev pub mode_key : DagPriorityMode → DagNode K → ℕ × ℕ
  mode_key least_recently_used n = (n.access_frequency, n.computation_cost)
  mode_key fewest_dependents n = (length n.dependents, n.access_frequency)
  mode_key lowest_computation_cost n = (n.computation_cost, n.access_frequency)
  mode_key hybrid n = (length n.dependents, n.computation_cost)

  abbrev pub priority_key : DagPriorityMode → ℕ → Option (DagNode K) → SortKey
  priority_key mode cp none = (cp, max_value, max_value)
  priority_key mode cp (some n) = let (a, b) = mode_key mode n in (cp, a, b)

module _ {ℓ} {K : Type ℓ} ⦃key : Key K⦄ where
  abbrev pub tree_order : TreeStrategy → ComputationDag K → List K → List K
  tree_order s dag ids =
      if s.leaf_first
      then sort_by_key (λ id. leaf_key (get id dag.nodes)) ids
      else if s.postorder_priority
      then sort_by_key (λ id. postorder_key (or_max (get id dag.critical_paths)) (get id dag.nodes))
          ids
      else ids

  abbrev pub dag_order : DagStrategy → ComputationDag K → List K → List K
  dag_order s dag ids =
      sort_by_key
        (λ id. priority_key s.priority_mode (or_max (get id dag.critical_paths)) (get id dag.nodes))
        ids

  -- The candidates, in the order of the strategy.
  abbrev pub ordered : Strategy → ComputationDag K → List K → List K
  ordered (tree s) = tree_order s
  ordered (dag_strategy s) = dag_order s

module _ {ℓ κ} {K : Type ℓ} {V : Type κ} ⦃key : Key K⦄ where
  -- `dependents.iter().any(|dep| active_nodes.contains_key(dep))`
  unfoldable pub any_active : List K → List (K × V) → Bool
  any_active [] active = false
  any_active (d ∷ ds) active = contains_key d active || any_active ds active

  -- Whether the loop over `active_nodes.keys()` pushes a node.
  abbrev pub is_candidate : Option (DagNode K) → List (K × V) → Bool
  is_candidate none active = false
  is_candidate (some node) active = if any_active node.dependents active then false else true

  -- The loop itself, over entries `es` of the active ones.
  unfoldable pub free_nodes : List (K × V) → List (K × V) → List (K × DagNode K) → List K
  free_nodes [] active nodes = []
  free_nodes (e ∷ es) active nodes =
      let rest = free_nodes es active nodes in
      if is_candidate (get e.0 nodes) active then e.0 ∷ rest else rest

  unfoldable pub get_eviction_candidates : List (K × V) → ComputationDag K → List K
  unfolding free_nodes
  get_eviction_candidates active dag =
      sort_by_key (λ id. access_key (get id dag.nodes)) (free_nodes active active dag.nodes)

  unfoldable pub select_eviction_candidates :
      Strategy → List (K × V) → ComputationDag K → ℕ → List K
  unfolding get_eviction_candidates
  select_eviction_candidates s active dag target =
      take target (ordered s dag (get_eviction_candidates active dag))
