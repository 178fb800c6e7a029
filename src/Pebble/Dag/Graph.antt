-- ===== src/Pebble/Dag/Graph.antt =====
-- pebble/src/dag/mod.rs: `add_node` takes a graph to a graph, with the new node and its edges.
use abmac_lib.Prelude.{
  suc, ◌≡◌, refl, sym, ap, ◌∙◌, subst, ◌⊎◌, inl, inr, true, false, List, [], ◌∷◌, none, some,
  length, ltb, if◌then◌else◌, Bool-cases, lt→ltb, arith, ok, err,
}
use abmac_lib.Hash.{Key}
use abmac_lib.Hash.Sets.{contains, insert, contains-insert, same-cases, true≢false}
use abmac_lib.Hash.Maps.{get, contains_key, get-put, contains_key-put_self, contains_key-get}
use abmac_lib.Pebble.Dag.{
  ComputationDag, DagError, dedup, first_missing, push_dependents, remove_all, with_node,
  add_node_impl, new_dag,
}
use abmac_lib.Pebble.Dag.Edges.{
  is_nil, dependencies_of, is_root, dedup_sub, first_missing-none, contains-remove_all,
  contains-dedup,
}
use abmac_lib.Pebble.Dag.Paths.{add_node_impl_lem}
use abmac_lib.Pebble.Dag.Adding.{
  IsGraph, added-dependencies, pushed-root, pushed-leaf, added-converse,
}

module _ {ℓ} {K : Type ℓ} ⦃key : Key K⦄ where
  new_roots :
      (id a : K) (ds roots : List K)
      → contains id roots ≡ false
      → contains a (if ltb 0 (length ds) then roots else insert id roots)
        ≡ (if key.same a id then is_nil ds else contains a roots)
  new_roots id a [] roots h = contains-insert a id roots
  new_roots id a (d ∷ ds) roots h =
      rw (lt→ltb 0 (suc (length ds)) (omega arith)) (elim (same-cases a id) [
        | inl (e, p) ↦ rw p (subst (λ k. contains k roots ≡ false) (sym e) h)
        | inr p ↦ rw p refl
      ])

  -- The node is there afterwards, and so are its edges.
  pub with_node-IsGraph :
      (id : K) (dependencies : List K) (dag : ComputationDag K)
      → IsGraph dag
      → contains id dependencies ≡ false
      → contains_key id dag.nodes ≡ false
      → first_missing dependencies dag.nodes ≡ none
      → IsGraph (with_node id dependencies dag)
  unfolding with_node
  with_node-IsGraph id dependencies dag h apart new none_missing = record {
    converse = added-converse id ds dag.nodes there _ refl refl unlisted absent h.converse;
    roots = λ a.
        new_roots id a ds dag.roots (h.roots id ∙ ap is_root absent)
        ∙ elim (Bool-cases (key.same a id)) [
          | inl p ↦ rw (get-put a id _ (push_dependents id ds dag.nodes), p) refl
          | inr p ↦
              rw (get-put a id _ (push_dependents id ds dag.nodes), p)
                (h.roots a ∙ sym (pushed-root id ds dag.nodes there a))
        ];
    leaves = λ a.
        contains-insert a id (remove_all ds dag.leaves) ∙ elim (Bool-cases (key.same a id)) [
          | inl p ↦ rw (get-put a id _ (push_dependents id ds dag.nodes), p) refl
          | inr p ↦
              rw (get-put a id _ (push_dependents id ds dag.nodes), p)
                (contains-remove_all a ds dag.leaves
                  ∙ ap (λ x. if contains a ds then false else x) (h.leaves a)
                  ∙ sym (pushed-leaf id ds dag.nodes there a))
        ];
  }
    where
      ds : List K
      ds = dedup [] dependencies

      there : (j : K) → contains j ds ≡ true → contains_key j dag.nodes ≡ true
      there j c =
          first_missing-none j dependencies dag.nodes none_missing (dedup_sub j [] dependencies c)

      unlisted : contains id ds ≡ false
      unlisted = elim (Bool-cases (contains id ds)) [
        | inl p ↦ absurd (true≢false (sym (dedup_sub id [] dependencies p) ∙ apart))
        | inr p ↦ p
      ]

      absent : get id dag.nodes ≡ none
      absent = elim (contains_key-get id dag.nodes) [
        | inl (_, _, c) ↦ absurd (true≢false (sym c ∙ new))
        | inr (e, _) ↦ e
      ]

  with_node-there :
      (id : K) (dependencies : List K) (dag : ComputationDag K)
      → contains_key id (with_node id dependencies dag).nodes ≡ true
  unfolding with_node
  with_node-there id dependencies dag =
      contains_key-put_self id _ (push_dependents id (dedup [] dependencies) dag.nodes)

  with_node-dependencies :
      (id : K) (dependencies : List K) (dag : ComputationDag K)
      → first_missing dependencies dag.nodes ≡ none
      → (a b : K)
      → contains b (dependencies_of (get a (with_node id dependencies dag).nodes)) ≡ (
          if key.same a id
          then contains b dependencies
          else contains b (dependencies_of (get a dag.nodes)))
  unfolding with_node contains
  with_node-dependencies id dependencies dag none_missing a b =
      added-dependencies id (dedup [] dependencies) dag.nodes
        (λ j c.
          first_missing-none j dependencies dag.nodes none_missing (dedup_sub j [] dependencies c))
        _ refl refl b a
      ∙ ap (λ x. if key.same a id then x else contains b (dependencies_of (get a dag.nodes)))
          (contains-dedup b [] dependencies refl)

  -- A validated `add_node` on a graph ends and leaves a graph, in which dependencies and
  -- dependents are converse to each other and the roots and leaves are exact. Either the node is
  -- new and is there afterwards with exactly its dependencies, and no other node has others than
  -- before; or there is an error and no change.
  pub add_node_lem :
      (id : K) (dependencies : List K) (dag : ComputationDag K)
      → IsGraph dag
      → (dag' : ComputationDag K) × IsGraph dag'
        × (((add_node_impl id dependencies true dag ≡ some (ok tt, dag'))
              × (contains_key id dag.nodes ≡ false)
              × (contains_key id dag'.nodes ≡ true)
              × ((a b : K)
                  → contains b (dependencies_of (get a dag'.nodes)) ≡ (
                      if key.same a id
                      then contains b dependencies
                      else contains b (dependencies_of (get a dag.nodes)))))
            ⊎ ((e : DagError K) × (add_node_impl id dependencies true dag ≡ some (err e, dag'))
                × (dag' ≡ dag)))
  add_node_lem id dependencies dag h = elim (add_node_impl_lem id dependencies true dag) [
    | inr (e, runs) ↦ (dag, h, inr (e, runs, refl))
    | inl (apart, new, none_missing, paths, runs) ↦
        let g = with_node-IsGraph id dependencies dag h apart new none_missing in
        (
          record (with_node id dependencies dag) { critical_paths = paths },
          record { converse = g.converse; roots = g.roots; leaves = g.leaves },
          inl (
            runs,
            new,
            with_node-there id dependencies dag,
            with_node-dependencies id dependencies dag none_missing,
          ),
        )
  ]

  pub new_dag-IsGraph : IsGraph (new_dag {K = K})
  unfolding new_dag get contains
  new_dag-IsGraph = record { converse = λ a b. refl; roots = λ a. refl; leaves = λ a. refl }
