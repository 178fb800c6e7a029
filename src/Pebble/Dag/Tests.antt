-- ===== src/Pebble/Dag/Tests.antt =====
-- Runs of pebble/src/dag.
use abmac_lib.Prelude.{
  ℕ, ◌≡◌, refl, true, false, List, [], ◌∷◌, Option, some, ok, err, ◌⊎◌, if◌then◌else◌,
}
use abmac_lib.Prelude.Results.{◌>>=◌}
use abmac_lib.Hash.{nat_key}
use abmac_lib.Hash.Sets.{contains, insert, remove}
use abmac_lib.Hash.Maps.{get, contains_key, put, delete, update}
use abmac_lib.Pebble.Dag.{
  ComputationDag, DagError, new_dag, present, rebuild_depths, dedup, first_missing, push_dependents,
  remove_all, unvisited, explore, propagate, unexplored, propagate_critical_paths, with_node,
  with_paths, add_node_impl, unlink_parents, unlink_children, remove_node,
}
use abmac_lib.Pebble.Dag.Edges.{dependencies_of}
use abmac_lib.Pebble.Dag.Adding.{IsGraph}
use abmac_lib.Pebble.Dag.Graph.{with_node-IsGraph, new_dag-IsGraph, add_node_lem}
use abmac_lib.Pebble.Dag.Paths.{propagate_critical_paths_total}

abbrev add : ℕ → List ℕ → ComputationDag ℕ → Option (ComputationDag ℕ)
add id dependencies dag = do (_, dag') ← add_node_impl id dependencies true dag; some dag'

-- 2 was computed from 1, and 3 from 1 and 2.
abbrev triangle : Option (ComputationDag ℕ)
triangle = do a ← add 1 [] new_dag; b ← add 2 (1 ∷ []) a; add 3 (1 ∷ 2 ∷ []) b

-- The longest path from 1 leads over 2 to 3, but the path kept for 1 is that of the direct step: 1
-- is visited before 2 has got its new length, and not again.
add_node_impl-triangle : (do dag ← triangle; get 1 dag.critical_paths) ≡ some 1
unfolding new_dag present rebuild_depths dedup first_missing push_dependents remove_all unvisited
    explore propagate unexplored propagate_critical_paths with_node with_paths add_node_impl
    contains insert remove get contains_key put delete update nat_key
add_node_impl-triangle = refl

-- A graph of two nodes, the second computed from the first.
abbrev pair : ComputationDag ℕ
pair = with_node 2 (1 ∷ []) (with_node 1 [] new_dag)

pair-IsGraph : IsGraph pair
unfolding new_dag contains get contains_key first_missing put nat_key with_node push_dependents
    dedup delete update
pair-IsGraph =
    with_node-IsGraph 2 (1 ∷ []) (with_node 1 [] new_dag)
      (with_node-IsGraph 1 [] new_dag new_dag-IsGraph refl refl refl) refl refl refl

add_node_lem_example :
    (dag' : ComputationDag ℕ) × IsGraph dag'
    × (((add_node_impl 3 (1 ∷ 2 ∷ []) true pair ≡ some (ok tt, dag'))
          × (contains_key 3 pair.nodes ≡ false)
          × (contains_key 3 dag'.nodes ≡ true)
          × ((a b : ℕ)
              → contains b (dependencies_of (get a dag'.nodes)) ≡ (
                  if nat_key.same a 3
                  then contains b (1 ∷ 2 ∷ [])
                  else contains b (dependencies_of (get a pair.nodes)))))
        ⊎ ((e : DagError ℕ) × (add_node_impl 3 (1 ∷ 2 ∷ []) true pair ≡ some (err e, dag'))
            × (dag' ≡ pair)))
add_node_lem_example = add_node_lem 3 (1 ∷ 2 ∷ []) pair pair-IsGraph

propagate_critical_paths_total_example :
    (paths : List (ℕ × ℕ)) × (propagate_critical_paths (1 ∷ 2 ∷ []) pair.nodes pair.critical_paths
      ≡ some paths)
propagate_critical_paths_total_example =
    propagate_critical_paths_total (1 ∷ 2 ∷ []) pair.nodes pair.critical_paths

-- The middle of a chain is removed: its child becomes a root and its parent a leaf.
abbrev chain_after : Option (List ℕ × List ℕ)
chain_after = do
  a ← add 1 [] new_dag
  b ← add 2 (1 ∷ []) a
  c ← add 3 (2 ∷ []) b
  some ((remove_node 2 c).1.roots, (remove_node 2 c).1.leaves)

remove_node-chain : chain_after ≡ some (3 ∷ 1 ∷ [], 1 ∷ 3 ∷ [])
unfolding new_dag present rebuild_depths dedup first_missing push_dependents remove_all unvisited
    explore propagate unexplored propagate_critical_paths with_node with_paths add_node_impl
    contains insert remove get contains_key put delete update nat_key unlink_parents unlink_children
    remove_node
remove_node-chain = refl
