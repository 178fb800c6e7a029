-- ===== src/Pebble/Manager/Removal/Compacting.antt =====
-- pebble/src/manager/pebble_manager.rs: the cascade of `compact` ends.
use abmac_lib.Prelude.{
  ℕ, zero, suc, ◌+◌, ◌≤◌, ◌≡◌, refl, sym, ap, ◌∙◌, subst, inl, inr, List, [], ◌∷◌, Option, none,
  some, length, arith, Bool-cases,
}
use abmac_lib.Hash.{Key}
use abmac_lib.Hash.Sets.{contains}
use abmac_lib.Hash.Maps.{get, contains_key, IsUnique}
use abmac_lib.Ring.Holds.{IsCapacity}
use abmac_lib.Pebble.Manifest.Ready.{IsReady, record_tombstone-IsReady}
use abmac_lib.Pebble.Dag.{ComputationDag, remove_node}
use abmac_lib.Pebble.Manager.{PebbleManager, Parts}
use abmac_lib.Pebble.Manager.Removal.{
  node_dependents, count_dependents, push_orphans, orphaned_roots, purge_each, take_below, take_out,
  forget, purge_copy, cascade, compact,
}
use abmac_lib.Pebble.Manager.Removal.Counting.{unlink_found-Fewer, length-push_orphans}

module _ {ℓ} {K T N W C S E : Type ℓ} ⦃key : Key K⦄ (parts : Parts K T W C S E) where
  abbrev Writable : PebbleManager K T N W C S → Type ℓ
  Writable m = IsReady parts.spout parts.default parts.max_deps parts.log_capacity m.manifest

  -- The tiers alone change.
  abbrev Beside : PebbleManager K T N W C S → PebbleManager K T N W C S → Type ℓ
  Beside m m' = (m'.dag ≡ m.dag) × (m'.manifest ≡ m.manifest)

  take_below-Beside :
      (id : K) (o : Option T) (warm' : W) (m : PebbleManager K T N W C S)
      → Beside m (take_below parts id (o, warm') m).1
  take_below-Beside id (some x) warm' m = (refl, refl)
  take_below-Beside id none warm' m = elim (Bool-cases (contains id m.blue_pebbles)) [
    | inl q ↦ rw q (refl, refl)
    | inr q ↦ rw q (refl, refl)
  ]

  take_out-Beside : (id : K) (m : PebbleManager K T N W C S) → Beside m (take_out parts id m).1
  unfolding take_out
  take_out-Beside id m = elim (Bool-cases (contains_key id m.red_pebbles)) [
    | inl q ↦ rw q (refl, refl)
    | inr q ↦
        rw q
          (take_below-Beside id (parts.warm.remove id m.warm).0 (parts.warm.remove id m.warm).1 m)
  ]

  module _ (capacity : IsCapacity parts.log_capacity) where
    purge_copy_lem :
        (id : K) (purged : ℕ) (m : PebbleManager K T N W C S)
        → Writable m
        → (n : ℕ) × (m' : PebbleManager K T N W C S) × (purge_copy parts id purged m ≡ some (n, m'))
          × Writable m'
          × (m'.dag ≡ m.dag)
    purge_copy_lem id purged m ready = elim (Bool-cases (parts.cold.contains id m.cold)) [
      | inr q ↦ (purged, m, rw q refl, ready, refl)
      | inl q ↦
          let (manifest', runs, ready') =
            record_tombstone-IsReady parts.spout parts.default parts.max_deps parts.log_capacity
              capacity m.manifest id ready in
          (
            purged + 1,
            record m { manifest = manifest'; cold = (parts.cold.remove id m.cold).1 },
            rw (q, runs) refl,
            ready',
            refl,
          )
    ]

    cascade_lem :
        (fuel : ℕ) (worklist : List K) (purged : ℕ) (m : PebbleManager K T N W C S)
        → Writable m
        → IsUnique m.dag.nodes
        → length worklist + count_dependents m.dag.nodes ≤ fuel
        → (n : ℕ) × (m' : PebbleManager K T N W C S) × (cascade parts fuel worklist purged m
            ≡ some (n, m'))
          × Writable m'
    unfolding cascade forget remove_node
    cascade_lem fuel [] purged m ready unique enough = (purged, m, refl, ready)
    cascade_lem zero (id ∷ worklist) purged m ready unique enough = absurd (omega arith)
    cascade_lem (suc fuel) (id ∷ worklist) purged m ready unique enough =
        let (same_dag, same_manifest) = take_out-Beside id m in
        let (n, m', runs, ready', graph) =
          purge_copy_lem id purged (forget parts id (take_out parts id m).1)
            (rw same_manifest ready) in
        let (unique', fewer) = unlink_found-Fewer id (get id m.dag.nodes) m.dag refl unique in
        let after = graph ∙ ap (λ d. (remove_node id d).1) same_dag in
        let worklist' = push_orphans (node_dependents (get id m.dag.nodes)) m'.dag.nodes worklist in
        let (k, m'', ends, ready'') =
          cascade_lem fuel worklist' n m' ready'
            (subst (λ (d : ComputationDag K). IsUnique d.nodes) (sym after) unique')
            (omega (
              arith,
              enough,
              fewer,
              ap (λ (d : ComputationDag K). count_dependents d.nodes) after,
              length-push_orphans (node_dependents (get id m.dag.nodes)) m'.dag.nodes worklist,
            )) in
        (k, m'', rw runs ends, ready'')

    -- `compact` of a manager whose manifest can be written, and whose graph has each node once,
    -- ends within the rounds it is given, and the manifest can be written afterwards.
    pub compact_total :
        (m : PebbleManager K T N W C S)
        → Writable m
        → IsUnique m.dag.nodes
        → (n : ℕ) × (m' : PebbleManager K T N W C S) × (compact parts m ≡ some (n, m'))
          × Writable m'
    unfolding compact
    compact_total m ready unique =
        cascade_lem _ (orphaned_roots m.dag.roots m.dag.nodes) (length m.tombstoned)
          (record m { cold = purge_each parts.cold m.tombstoned m.cold; tombstoned = [] }) ready
          unique (omega arith)
