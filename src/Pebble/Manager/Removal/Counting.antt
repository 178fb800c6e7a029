-- ===== src/Pebble/Manager/Removal/Counting.antt =====
-- pebble/src/dag/mod.rs: how many dependents are left when nodes are removed.
use abmac_lib.Prelude.{
  ℕ, ◌+◌, ◌≤◌, ◌≡◌, refl, sym, ◌∙◌, inl, inr, List, [], ◌∷◌, Option, none, some, length, arith,
  Bool-cases, some-inj, none≢some,
}
use abmac_lib.Hash.{Key}
use abmac_lib.Hash.Sets.{remove, length-remove_le, same-cases}
use abmac_lib.Hash.Maps.{get, update, delete, delete-IsUnique, IsUnique}
use abmac_lib.Hash.Keys.{contains_key-update, get-none}
use abmac_lib.Pebble.Dag.{
  DagNode, ComputationDag, unlink_parent, unlink_parents, unlink_child, unlink_children,
  unlink_found,
}
use abmac_lib.Pebble.Manager.Removal.{node_dependents, is_orphan, count_dependents, push_orphans}

module _ {ℓ} {K : Type ℓ} ⦃key : Key K⦄ where
  -- A change of a node that does not add dependents, in a map without that key or with it once.
  count_dependents-update :
      (k : K) (f : DagNode K → DagNode K) (nodes : List (K × DagNode K))
      → IsUnique nodes
      → ((n : DagNode K) → get k nodes ≡ some n → length (f n).dependents ≤ length n.dependents)
      → count_dependents (update k f nodes) ≤ count_dependents nodes
  unfolding count_dependents update get
  count_dependents-update k f [] unique fewer = omega arith
  count_dependents-update k f (e ∷ nodes) (once, unique) fewer = elim (same-cases k e.0) [
    | inr q ↦
        rw q (
          omega (arith, count_dependents-update k f nodes unique (λ n there. fewer n (rw q there))))
    | inl (p, q) ↦ rw q (
        omega (
          arith,
          fewer e.1 (rw q refl),
          count_dependents-update k f nodes unique
              (λ n there. absurd (none≢some (sym (get-none k nodes (rw p once)) ∙ there))),
        ))
  ]

  update-IsUnique :
      (k : K) (f : DagNode K → DagNode K) (nodes : List (K × DagNode K))
      → IsUnique nodes
      → IsUnique (update k f nodes)
  unfolding update
  update-IsUnique k f [] unique = tt
  update-IsUnique k f (e ∷ nodes) (once, unique) = elim (Bool-cases (key.same k e.0)) [
    | inl q ↦ rw q (contains_key-update e.0 k f nodes ∙ once, update-IsUnique k f nodes unique)
    | inr q ↦ rw q (contains_key-update e.0 k f nodes ∙ once, update-IsUnique k f nodes unique)
  ]

  -- Distinct keys, and no more dependents than `old`.
  abbrev Fewer : ℕ → List (K × DagNode K) → Type 0
  Fewer old nodes = IsUnique nodes × (count_dependents nodes ≤ old)

  unlink_parent-Fewer :
      (id d : K) (o : Option (DagNode K)) (p : List (K × DagNode K) × List K) (old : ℕ)
      → get d p.0 ≡ o
      → Fewer old p.0
      → Fewer old (unlink_parent id d o p).0
  unlink_parent-Fewer id d none p old there h = h
  unlink_parent-Fewer id d (some n) (nodes, leaves) old there (unique, few) = (
    update-IsUnique d _ nodes unique,
    omega (
      arith,
      few,
      count_dependents-update d (λ x. record x { dependents = remove id n.dependents }) nodes unique
          (λ x found. rw (some-inj (sym found ∙ there)) (length-remove_le id n.dependents)),
    ),
  )

  unlink_parents-Fewer :
      (id : K) (ds : List K) (p : List (K × DagNode K) × List K) (old : ℕ)
      → Fewer old p.0
      → Fewer old (unlink_parents id ds p).0
  unfolding unlink_parents
  unlink_parents-Fewer id [] p old h = h
  unlink_parents-Fewer id (d ∷ ds) p old h =
      unlink_parents-Fewer id ds (unlink_parent id d (get d p.0) p) old
        (unlink_parent-Fewer id d (get d p.0) p old refl h)

  unlink_child-Fewer :
      (id d : K) (o : Option (DagNode K)) (p : List (K × DagNode K) × List K) (old : ℕ)
      → Fewer old p.0
      → Fewer old (unlink_child id d o p).0
  unlink_child-Fewer id d none p old h = h
  unlink_child-Fewer id d (some n) (nodes, roots) old (unique, few) = (
    update-IsUnique d _ nodes unique,
    omega (
      arith,
      few,
      count_dependents-update d (λ x. record x { dependencies = remove id n.dependencies }) nodes
          unique (λ x found. omega arith),
    ),
  )

  unlink_children-Fewer :
      (id : K) (ds : List K) (p : List (K × DagNode K) × List K) (old : ℕ)
      → Fewer old p.0
      → Fewer old (unlink_children id ds p).0
  unfolding unlink_children
  unlink_children-Fewer id [] p old h = h
  unlink_children-Fewer id (d ∷ ds) p old h =
      unlink_children-Fewer id ds (unlink_child id d (get d p.0) p) old
        (unlink_child-Fewer id d (get d p.0) p old h)

  count_dependents-delete :
      (k : K) (nodes : List (K × DagNode K))
      → count_dependents (delete k nodes) + length (node_dependents (get k nodes))
        ≤ count_dependents nodes
  unfolding count_dependents delete get
  count_dependents-delete k [] = omega arith
  count_dependents-delete k (e ∷ nodes) = elim (Bool-cases (key.same k e.0)) [
    | inl q ↦ rw q (omega (arith, count_dependents-delete k nodes))
    | inr q ↦ rw q (omega (arith, count_dependents-delete k nodes))
  ]

  -- The node that is removed takes its dependents with it.
  pub unlink_found-Fewer :
      (id : K) (o : Option (DagNode K)) (dag : ComputationDag K)
      → get id dag.nodes ≡ o
      → IsUnique dag.nodes
      → IsUnique (unlink_found id o dag).1.nodes
        × (count_dependents (unlink_found id o dag).1.nodes + length (node_dependents o)
            ≤ count_dependents dag.nodes)
  unlink_found-Fewer id none dag there unique = (unique, omega arith)
  unlink_found-Fewer id (some n) dag there unique =
      let left = rw there at (count_dependents-delete id dag.nodes) in
      let (unique', few) =
        unlink_children-Fewer id n.dependents _ (count_dependents (delete id dag.nodes)) (
          unlink_parents-Fewer id n.dependencies (delete id dag.nodes, dag.leaves)
            (count_dependents (delete id dag.nodes))
            (delete-IsUnique id dag.nodes unique, omega arith)) in
      (unique', omega (arith, few, left))

  pub length-push_orphans :
      (cs : List K) (nodes : List (K × DagNode K)) (worklist : List K)
      → length (push_orphans cs nodes worklist) ≤ length cs + length worklist
  unfolding push_orphans
  length-push_orphans [] nodes worklist = omega arith
  length-push_orphans (c ∷ cs) nodes worklist = elim (Bool-cases (is_orphan (get c nodes))) [
    | inl q ↦ rw q (omega (arith, length-push_orphans cs nodes (c ∷ worklist)))
    | inr q ↦ rw q (omega (arith, length-push_orphans cs nodes worklist))
  ]
