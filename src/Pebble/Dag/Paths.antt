-- ===== src/Pebble/Dag/Paths.antt =====
-- pebble/src/dag/critical_paths.rs: the walk towards the roots ends, since each node is explored once
-- and pushes its dependencies once.
use abmac_lib.Prelude.{
  ℕ, zero, suc, ◌+◌, ◌-◌, ◌^◌, ◌≤◌, ◌≡◌, refl, sym, ap, ◌∙◌, subst, ◌⊎◌, inl, inr, Bool, true,
  false, List, [], ◌∷◌, Option, none, some, length, ltb, if◌then◌else◌, arith, Bool-cases,
  Option-cases, some-inj, none≢some, length-append, ok, err,
}
use abmac_lib.Hash.{Key}
use abmac_lib.Hash.Sets.{contains, insert, contains-insert, same-cases, same_flip}
use abmac_lib.Hash.Maps.{get, contains_key}
use abmac_lib.Pebble.Dag.{
  DagNode, ComputationDag, DagError, missing_dependency, self_dependency, node_exists, present,
  above_all, current_path, unvisited, explore, propagate, unexplored, propagate_critical_paths,
  with_node, with_paths, first_missing, after_checks, add_node_impl,
}

module _ {ℓ} {K : Type ℓ} ⦃key : Key K⦄ where
  length-unvisited_le : (ds visited : List K) → length (unvisited ds visited) ≤ length ds
  unfolding unvisited
  length-unvisited_le [] visited = omega arith
  length-unvisited_le (d ∷ ds) visited = ground (arith, length-unvisited_le ds visited)

  contains-insert_le : (j k : K) (s : List K) → contains j s ≡ true → contains j (insert k s) ≡ true
  contains-insert_le j k s h = elim (Bool-cases (key.same j k)) [
    | inl p ↦ contains-insert j k s ∙ rw p refl
    | inr p ↦ contains-insert j k s ∙ rw p h
  ]

  unexplored_mono :
      (id : K) (nodes : List (K × DagNode K)) (visited : List K)
      → unexplored nodes (insert id visited) ≤ unexplored nodes visited
  unfolding unexplored
  unexplored_mono id [] visited = omega arith
  unexplored_mono id (e ∷ nodes) visited = elim (Bool-cases (contains e.0 visited)) [
    | inl p ↦ rw (p, contains-insert_le e.0 id visited p) (unexplored_mono id nodes visited)
    | inr p ↦ rw p (ground (arith, unexplored_mono id nodes visited))
  ]

  -- A node that is explored for the first time has its dependencies counted no more.
  unexplored-insert :
      (id : K) (node : DagNode K) (nodes : List (K × DagNode K)) (visited : List K)
      → contains id visited ≡ false
      → get id nodes ≡ some node
      → length node.dependencies + unexplored nodes (insert id visited) ≤ unexplored nodes visited
  unfolding unexplored get
  unexplored-insert id node [] visited new found = absurd (none≢some found)
  unexplored-insert id node (e ∷ nodes) visited new found = elim (same-cases id e.0) [
    | inl (p, same) ↦
        rw
          (
            subst (λ k. contains k visited ≡ false) p new,
            contains-insert e.0 id visited,
            (key.same_iff e.0 id).1 (sym p),
            ap (λ n. n.dependencies) (sym (some-inj (rw same at found))),
          )
          (omega (arith, unexplored_mono id nodes visited))
    | inr other ↦
        rw (contains-insert e.0 id visited, same_flip id e.0 other)
          (ground (arith, unexplored-insert id node nodes visited new (rw other at found)))
  ]

  explore_le :
      (id : K) (queue : List K) (nodes : List (K × DagNode K)) (visited : List K)
      (paths : List (K × ℕ)) (o : Option (DagNode K))
      → contains id visited ≡ false
      → get id nodes ≡ o
      → length (explore id queue (insert id visited) paths o).0
          + unexplored nodes (insert id visited)
        ≤ length queue + unexplored nodes visited
  unfolding explore
  explore_le id queue nodes visited paths none new found =
      omega (arith, unexplored_mono id nodes visited)
  explore_le id queue nodes visited paths (some node) new found =
      elim (Bool-cases
        (ltb (current_path id paths) (above_all (2 ^ 64 - 1) (present node.dependents paths)))) [
          | inr p ↦ rw p (omega (arith, unexplored_mono id nodes visited))
          | inl p ↦
              rw (p, length-append)
                (omega (
                  arith,
                  length-unvisited_le node.dependencies (insert id visited),
                  unexplored-insert id node nodes visited new found,
                ))
        ]

  propagate_total :
      (fuel : ℕ) (queue visited : List K) (nodes : List (K × DagNode K)) (paths : List (K × ℕ))
      → length queue + unexplored nodes visited ≤ fuel
      → (paths' : List (K × ℕ)) × (propagate fuel queue visited nodes paths ≡ some paths')
  unfolding propagate
  propagate_total zero [] visited nodes paths h = (paths, refl)
  propagate_total (suc fuel) [] visited nodes paths h = (paths, refl)
  propagate_total zero (id ∷ queue) visited nodes paths h = absurd (omega arith)
  propagate_total (suc fuel) (id ∷ queue) visited nodes paths h =
      elim (Bool-cases (contains id visited)) [
        | inl p ↦ rw p (propagate_total fuel queue visited nodes paths (omega arith))
        | inr p ↦ rw p (
            propagate_total fuel (explore id queue (insert id visited) paths (get id nodes)).0
              (insert id visited) nodes
              (explore id queue (insert id visited) paths (get id nodes)).1
              (omega (arith, explore_le id queue nodes visited paths (get id nodes) p refl)))
      ]

  -- The walk of `propagate_critical_paths` from any nodes over any graph ends within the rounds it
  -- is given.
  pub propagate_critical_paths_total :
      (starting_nodes : List K) (nodes : List (K × DagNode K)) (paths : List (K × ℕ))
      → (paths' : List (K × ℕ)) × (propagate_critical_paths starting_nodes nodes paths
          ≡ some paths')
  unfolding propagate_critical_paths
  propagate_critical_paths_total starting_nodes nodes paths =
      propagate_total (length starting_nodes + unexplored nodes []) starting_nodes [] nodes paths
        (omega arith)

  with_paths_total :
      (ds : List K) (dag : ComputationDag K)
      → (paths : List (K × ℕ)) × (with_paths ds dag ≡ some (record dag { critical_paths = paths }))
  unfolding with_paths
  with_paths_total [] dag = (dag.critical_paths, refl)
  with_paths_total (d ∷ ds) dag =
      let (paths, runs) = propagate_critical_paths_total (d ∷ ds) dag.nodes dag.critical_paths in
      (paths, rw runs refl)

  -- Either the node is new and its dependencies are there, and the node is added; or there is an error
  -- and no change. The walk that follows ends.
  pub add_node_impl_lem :
      (id : K) (dependencies : List K) (validate : Bool) (dag : ComputationDag K)
      → ((contains id dependencies ≡ false)
          × (contains_key id dag.nodes ≡ false)
          × ((if validate then first_missing dependencies dag.nodes else none) ≡ none)
          × (paths : List (K × ℕ)) × (add_node_impl id dependencies validate dag
              ≡ some (ok tt, record (with_node id dependencies dag) { critical_paths = paths })))
        ⊎ ((e : DagError K) × (add_node_impl id dependencies validate dag ≡ some (err e, dag)))
  unfolding add_node_impl
  add_node_impl_lem id dependencies validate dag = elim (Bool-cases (contains id dependencies)) [
    | inl p ↦ inr (self_dependency id, rw p refl)
    | inr p ↦ elim (Bool-cases (contains_key id dag.nodes)) [
      | inl q ↦ inr (node_exists id, rw (p, q) refl)
      | inr q ↦
          elim (Option-cases (if validate then first_missing dependencies dag.nodes else none)) [
            | inr (dep, m) ↦
                inr (missing_dependency dep, rw (p, q) (ap (after_checks id dependencies dag) m))
            | inl m ↦
                let (paths, runs) = with_paths_total dependencies (with_node id dependencies dag) in
                inl (
                  p,
                  q,
                  m,
                  paths,
                  rw (p, q) (ap (after_checks id dependencies dag) m ∙ rw runs refl),
                )
          ]
    ]
  ]
