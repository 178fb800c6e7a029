-- ===== src/Pebble/Dag/Members.antt =====
-- pebble/src/dag/mod.rs: the nodes that there were are there after `add_node`,
-- `mark_accessed` and, but for the one removed, `remove_node`.
use abmac_lib.Prelude.{◌≡◌, refl, ◌∙◌, true, false, List, [], ◌∷◌, none, some, Option}
use abmac_lib.Hash.{Key}
use abmac_lib.Hash.Maps.{get, contains_key, delete, contains_key-put_self}
use abmac_lib.Hash.Keys.{contains_key-update, contains_key-delete_ne, contains_key-put_le}
use abmac_lib.Pebble.Dag.{
  DagNode, ComputationDag, dedup, push_dependents, with_node, mark_accessed, unlink_parent,
  unlink_parents, unlink_child, unlink_children, unlink_found, remove_node,
}

module _ {ℓ} {K : Type ℓ} ⦃key : Key K⦄ where
  contains_key-push_dependents :
      (j id : K) (ds : List K) (nodes : List (K × DagNode K))
      → contains_key j (push_dependents id ds nodes) ≡ contains_key j nodes
  unfolding push_dependents
  contains_key-push_dependents j id [] nodes = refl
  contains_key-push_dependents j id (d ∷ ds) nodes =
      contains_key-push_dependents j id ds _ ∙ contains_key-update j d _ nodes

  pub with_node-old :
      (j id : K) (dependencies : List K) (dag : ComputationDag K)
      → contains_key j dag.nodes ≡ true
      → contains_key j (with_node id dependencies dag).nodes ≡ true
  unfolding with_node
  with_node-old j id dependencies dag h =
      contains_key-put_le j id _ (push_dependents id (dedup [] dependencies) dag.nodes)
        (contains_key-push_dependents j id (dedup [] dependencies) dag.nodes ∙ h)

  pub with_node-new :
      (id : K) (dependencies : List K) (dag : ComputationDag K)
      → contains_key id (with_node id dependencies dag).nodes ≡ true
  unfolding with_node
  with_node-new id dependencies dag =
      contains_key-put_self id _ (push_dependents id (dedup [] dependencies) dag.nodes)

  pub mark_accessed-nodes :
      (j id : K) (dag : ComputationDag K)
      → contains_key j (mark_accessed id dag).nodes ≡ contains_key j dag.nodes
  unfolding mark_accessed
  mark_accessed-nodes j id dag = contains_key-update j id _ dag.nodes

  contains_key-unlink_parent :
      (j id d : K) (o : Option (DagNode K)) (p : List (K × DagNode K) × List K)
      → contains_key j (unlink_parent id d o p).0 ≡ contains_key j p.0
  contains_key-unlink_parent j id d none p = refl
  contains_key-unlink_parent j id d (some n) (nodes, leaves) = contains_key-update j d _ nodes

  contains_key-unlink_parents :
      (j id : K) (ds : List K) (p : List (K × DagNode K) × List K)
      → contains_key j (unlink_parents id ds p).0 ≡ contains_key j p.0
  unfolding unlink_parents
  contains_key-unlink_parents j id [] p = refl
  contains_key-unlink_parents j id (d ∷ ds) p =
      contains_key-unlink_parents j id ds (unlink_parent id d (get d p.0) p)
      ∙ contains_key-unlink_parent j id d (get d p.0) p

  contains_key-unlink_child :
      (j id d : K) (o : Option (DagNode K)) (p : List (K × DagNode K) × List K)
      → contains_key j (unlink_child id d o p).0 ≡ contains_key j p.0
  contains_key-unlink_child j id d none p = refl
  contains_key-unlink_child j id d (some n) (nodes, roots) = contains_key-update j d _ nodes

  contains_key-unlink_children :
      (j id : K) (ds : List K) (p : List (K × DagNode K) × List K)
      → contains_key j (unlink_children id ds p).0 ≡ contains_key j p.0
  unfolding unlink_children
  contains_key-unlink_children j id [] p = refl
  contains_key-unlink_children j id (d ∷ ds) p =
      contains_key-unlink_children j id ds (unlink_child id d (get d p.0) p)
      ∙ contains_key-unlink_child j id d (get d p.0) p

  unlink_found-nodes :
      (j id : K) (o : Option (DagNode K)) (dag : ComputationDag K)
      → key.same j id ≡ false
      → contains_key j (unlink_found id o dag).1.nodes ≡ contains_key j dag.nodes
  unlink_found-nodes j id none dag apart = refl
  unlink_found-nodes j id (some n) dag apart =
      contains_key-unlink_children j id n.dependents _
      ∙ contains_key-unlink_parents j id n.dependencies (delete id dag.nodes, dag.leaves)
      ∙ contains_key-delete_ne j id dag.nodes apart

  pub remove_node-nodes :
      (j id : K) (dag : ComputationDag K)
      → key.same j id ≡ false
      → contains_key j (remove_node id dag).1.nodes ≡ contains_key j dag.nodes
  unfolding remove_node
  remove_node-nodes j id dag apart = unlink_found-nodes j id (get id dag.nodes) dag apart
