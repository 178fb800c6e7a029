-- ===== src/Pebble/Dag.antt =====
-- pebble/src/dag/mod.rs and critical_paths.rs: `ComputationDAG`, the graph of the checkpoints and what
-- each was computed from, with the errors of pebble/src/errors/dag.rs, which name a node.
pub mod Paths
pub mod Edges
pub mod Adding
pub mod Graph
pub mod Members
mod Tests
use mathlib.Core.Bool.{not}
use abmac_lib.Prelude.{
  ℕ, zero, suc, ◌+◌, ◌-◌, ◌^◌, ◌≡◌, Bool, true, false, ◌&&◌, ◌||◌, List, [], ◌∷◌, ◌++◌, Option,
  none, some, length, ltb, if◌then◌else◌, min, max, saturating_add, Result, ok, err,
}
use abmac_lib.Prelude.Results.{◌>>=◌}
use abmac_lib.Hash.{Key}
use abmac_lib.Hash.Sets.{contains, insert, remove}
use abmac_lib.Hash.Maps.{get, contains_key, put, delete, update}

pub record DagNode {ℓ} (K : Type ℓ) : Type ℓ where
  pub dependencies : List K
  pub dependents : List K
  pub computation_cost : ℕ
  pub access_frequency : ℕ
  pub creation_time : ℕ
  pub rebuild_depth : ℕ

pub record ComputationDag {ℓ} (K : Type ℓ) : Type ℓ where
  pub nodes : List (K × DagNode K)
  pub roots : List K
  pub leaves : List K
  pub time_counter : ℕ
  pub critical_paths : List (K × ℕ)

pub data DagError {ℓ} (K : Type ℓ) : Type ℓ where
  missing_dependency : K → DagError K
  self_dependency : K → DagError K
  node_exists : K → DagError K
  cycle_detected : K → DagError K

-- `.max().map(|d| d.saturating_add(1)).unwrap_or(0)`, where `top` is the largest number.
abbrev pub above_all : ℕ → List ℕ → ℕ
above_all top [] = 0
above_all top (d ∷ ds) = max (min (d + 1) top) (above_all top ds)

module _ {ℓ} {K : Type ℓ} where
  unfoldable pub new_dag : ComputationDag K
  new_dag = record { nodes = []; roots = []; leaves = []; time_counter = 0; critical_paths = [] }

module _ {ℓ} {K : Type ℓ} ⦃key : Key K⦄ where
  -- `filter_map` of the values that are there.
  unfoldable pub present {κ} : {V : Type κ} → List K → List (K × V) → List V
  present [] m = []
  present (k ∷ ks) m = let rest = present ks m in elim (get k m) [ none ↦ rest | some v ↦ v ∷ rest ]

  unfoldable pub rebuild_depths : List (DagNode K) → List ℕ
  rebuild_depths [] = []
  rebuild_depths (n ∷ ns) = n.rebuild_depth ∷ rebuild_depths ns

  -- `filter(|d| seen.insert(*d))`
  unfoldable pub dedup : List K → List K → List K
  dedup seen [] = []
  dedup seen (d ∷ ds) =
      let rest = dedup seen ds in
      let fresh = dedup (d ∷ seen) ds in if contains d seen then rest else d ∷ fresh

  -- `for &dep in dependencies`, up to the first that is missing.
  unfoldable pub first_missing : List K → List (K × DagNode K) → Option K
  first_missing [] nodes = none
  first_missing (d ∷ ds) nodes =
      let rest = first_missing ds nodes in if contains_key d nodes then rest else some d

  -- `dep_node.dependents.push(id)` for each dependency.
  unfoldable pub push_dependents : K → List K → List (K × DagNode K) → List (K × DagNode K)
  push_dependents id [] nodes = nodes
  push_dependents id (d ∷ ds) nodes =
      push_dependents id ds
        (update d (λ n. record n { dependents = n.dependents ++ id ∷ [] }) nodes)

  unfoldable pub remove_all : List K → List K → List K
  remove_all [] s = s
  remove_all (d ∷ ds) s = remove_all ds (remove d s)

  -- `if !visited.contains(&dep) { queue.push_back(dep) }` for each dependency.
  unfoldable pub unvisited : List K → List K → List K
  unvisited [] visited = []
  unvisited (d ∷ ds) visited =
      let rest = unvisited ds visited in if contains d visited then rest else d ∷ rest

  -- `entry(node_id).or_insert(0)`
  abbrev pub current_path : K → List (K × ℕ) → ℕ
  current_path id paths = elim (get id paths) [ none ↦ 0 | some d ↦ d ]

  abbrev pub or_insert : K → List (K × ℕ) → List (K × ℕ)
  or_insert id paths = if contains_key id paths then paths else put id 0 paths

  -- A node that is visited for the first time: the queue, and the paths.
  unfoldable pub explore :
      K → List K → List K → List (K × ℕ) → Option (DagNode K) → List K × List (K × ℕ)
  explore id queue visited paths none = (queue, paths)
  explore id queue visited paths (some node) =
      let new_depth = above_all (2 ^ 64 - 1) (present node.dependents paths) in
      if ltb (current_path id paths) new_depth
      then (queue ++ unvisited node.dependencies visited, put id new_depth paths)
      else (queue, or_insert id paths)

  -- `while let Some(node_id) = queue.pop_front()` of `propagate_critical_paths`, with as many rounds
  -- as `fuel`. `none` is a loop that goes on.
  unfoldable pub propagate :
      ℕ → List K → List K → List (K × DagNode K) → List (K × ℕ) → Option (List (K × ℕ))
  unfolding explore
  propagate fuel [] visited nodes paths = some paths
  propagate zero (id ∷ queue) visited nodes paths = none
  propagate (suc fuel) (id ∷ queue) visited nodes paths =
      let (queue', paths') = explore id queue (insert id visited) paths (get id nodes) in
      let skipped = propagate fuel queue visited nodes paths in
      let explored = propagate fuel queue' (insert id visited) nodes paths' in
      if contains id visited then skipped else explored

  -- The dependencies that are still to be looked at: a bound on what is pushed to the queue.
  unfoldable pub unexplored : List (K × DagNode K) → List K → ℕ
  unexplored [] visited = 0
  unexplored (e ∷ nodes) visited =
      let rest = unexplored nodes visited in
      if contains e.0 visited then rest else length e.1.dependencies + rest

  unfoldable pub propagate_critical_paths :
      List K → List (K × DagNode K) → List (K × ℕ) → Option (List (K × ℕ))
  unfolding propagate unexplored
  propagate_critical_paths starting_nodes nodes paths =
      propagate (length starting_nodes + unexplored nodes []) starting_nodes [] nodes paths

  -- The graph with the node, before its critical paths are brought up to date.
  unfoldable pub with_node : K → List K → ComputationDag K → ComputationDag K
  with_node id dependencies dag =
      let deduped = dedup [] dependencies in
      record {
        nodes =
            put id
              (record {
                dependencies = deduped;
                dependents = [];
                computation_cost = length deduped;
                access_frequency = 1;
                creation_time = dag.time_counter;
                rebuild_depth =
                    above_all (2 ^ 32 - 1) (rebuild_depths (present dependencies dag.nodes));
              })
              (push_dependents id deduped dag.nodes);
        roots = if ltb 0 (length deduped) then dag.roots else insert id dag.roots;
        leaves = insert id (remove_all deduped dag.leaves);
        time_counter = saturating_add dag.time_counter 1;
        critical_paths = put id 0 dag.critical_paths;
      }

  -- `if !dependencies.is_empty() { self.propagate_critical_paths(dependencies); }`
  unfoldable pub with_paths : List K → ComputationDag K → Option (ComputationDag K)
  unfolding propagate_critical_paths
  with_paths [] dag = some dag
  with_paths (d ∷ ds) dag = do
    paths ← propagate_critical_paths (d ∷ ds) dag.nodes dag.critical_paths
    some (record dag { critical_paths = paths })

  -- The rest of `add_node_impl`, after the search for a dependency that is missing.
  abbrev pub after_checks :
      K
      → List K
      → ComputationDag K
      → Option K
      → Option (Result (DagError K) (Unit {0}) × ComputationDag K)
  after_checks id dependencies dag (some dep) = some (err (missing_dependency dep), dag)
  after_checks id dependencies dag none = do
    dag' ← with_paths dependencies (with_node id dependencies dag)
    some (ok tt, dag')

  -- `add_node` with `validate`, `add_node_unchecked` without it.
  unfoldable pub add_node_impl :
      K
      → List K
      → Bool
      → ComputationDag K
      → Option (Result (DagError K) (Unit {0}) × ComputationDag K)
  add_node_impl id dependencies validate dag =
      if contains id dependencies
      then some (err (self_dependency id), dag)
      else if contains_key id dag.nodes
      then some (err (node_exists id), dag)
      else after_checks id dependencies dag
          (if validate then first_missing dependencies dag.nodes else none)

  unfoldable pub mark_accessed : K → ComputationDag K → ComputationDag K
  mark_accessed id dag = record dag {
    nodes =
        update id (λ n. record n { access_frequency = saturating_add n.access_frequency 1 })
          dag.nodes;
  }

  -- `retain(|d| *d != id)` is `remove` on a list.
  -- The parents of a removed node lose it, and may become leaves.
  abbrev pub unlink_parent :
      K → K → Option (DagNode K) → List (K × DagNode K) × List K → List (K × DagNode K) × List K
  unlink_parent id dep none p = p
  unlink_parent id dep (some parent) (nodes, leaves) =
      let dependents' = remove id parent.dependents in
      (
        update dep (λ n. record n { dependents = dependents' }) nodes,
        if ltb 0 (length dependents') then leaves else insert dep leaves,
      )

  unfoldable pub unlink_parents :
      K → List K → List (K × DagNode K) × List K → List (K × DagNode K) × List K
  unlink_parents id [] p = p
  unlink_parents id (dep ∷ deps) p = unlink_parents id deps (unlink_parent id dep (get dep p.0) p)

  -- Its children lose it, and may become roots.
  abbrev pub unlink_child :
      K → K → Option (DagNode K) → List (K × DagNode K) × List K → List (K × DagNode K) × List K
  unlink_child id child none p = p
  unlink_child id child (some n) (nodes, roots) =
      let dependencies' = remove id n.dependencies in
      (
        update child (λ n'. record n' { dependencies = dependencies' }) nodes,
        if ltb 0 (length dependencies') then roots else insert child roots,
      )

  unfoldable pub unlink_children :
      K → List K → List (K × DagNode K) × List K → List (K × DagNode K) × List K
  unlink_children id [] p = p
  unlink_children id (child ∷ children) p =
      unlink_children id children (unlink_child id child (get child p.0) p)

  abbrev pub unlink : K → DagNode K → ComputationDag K → ComputationDag K
  unlink id node dag =
      let (nodes₁, leaves') =
        unlink_parents id node.dependencies (delete id dag.nodes, dag.leaves) in
      let (nodes₂, roots') = unlink_children id node.dependents (nodes₁, dag.roots) in
      record dag {
        nodes = nodes₂;
        roots = remove id roots';
        leaves = remove id leaves';
        critical_paths = delete id dag.critical_paths;
      }

  abbrev pub unlink_found : K → Option (DagNode K) → ComputationDag K → Bool × ComputationDag K
  unlink_found id none dag = (false, dag)
  unlink_found id (some node) dag = (true, unlink id node dag)

  unfoldable pub remove_node : K → ComputationDag K → Bool × ComputationDag K
  unfolding unlink_parents unlink_children
  remove_node id dag = unlink_found id (get id dag.nodes) dag
