-- ===== src/Pebble/Manager/Removal.antt =====
-- pebble/src/manager/pebble_manager.rs: `remove`, and `compact`, which purges what was removed from
-- cold storage, and the checkpoints that lost all they were computed from.
pub mod Taken
pub mod Removing
pub mod Counting
pub mod Compacting
use abmac_lib.Prelude.{
  ℕ, zero, suc, ◌+◌, Bool, true, false, ◌&&◌, List, [], ◌∷◌, Option, none, some, length, ltb,
  if◌then◌else◌,
}
use abmac_lib.Prelude.Results.{◌>>=◌}
use abmac_lib.Hash.{Key}
use abmac_lib.Hash.Sets.{contains, insert}
use abmac_lib.Hash.Sets
use abmac_lib.Hash.Maps.{get, contains_key, delete, map_some}
use abmac_lib.Pebble.Manifest.{record_tombstone}
use abmac_lib.Pebble.Branch.{remove_checkpoint}
use abmac_lib.Pebble.Dag.{DagNode, remove_node}
use abmac_lib.Pebble.Tiers.{ColdTier}
use abmac_lib.Pebble.Manager.{PebbleManager, Parts}

-- `n.dependents().to_vec()`
abbrev pub node_dependents {ℓ} : {K : Type ℓ} → Option (DagNode K) → List K
node_dependents none = []
node_dependents (some n) = n.dependents

-- A node that was added with dependencies, of which none is left.
abbrev pub is_orphan {ℓ} : {K : Type ℓ} → Option (DagNode K) → Bool
is_orphan none = false
is_orphan (some n) =
    (if ltb 0 (length n.dependencies) then false else true) && ltb 0 n.computation_cost

abbrev pub is_costly {ℓ} : {K : Type ℓ} → Option (DagNode K) → Bool
is_costly none = false
is_costly (some n) = ltb 0 n.computation_cost

-- Where a checkpoint was.
pub data Tier : Type 0 where
  hot warm_tier cold_tier nowhere : Tier

module _ {ℓ} {K T C E : Type ℓ} (cold : ColdTier K T C E) where
  unfoldable pub purge_each : List K → C → C
  purge_each [] c = c
  purge_each (id ∷ ids) c = purge_each ids (cold.remove id c).1

module _ {ℓ} {K : Type ℓ} where
  -- The lengths of all lists of dependents.
  unfoldable pub count_dependents : List (K × DagNode K) → ℕ
  count_dependents [] = 0
  count_dependents (e ∷ nodes) = length e.1.dependents + count_dependents nodes

module _ {ℓ} {K : Type ℓ} ⦃key : Key K⦄ where
  -- `worklist.push(child_id)` for each child that has become an orphan.
  unfoldable pub push_orphans : List K → List (K × DagNode K) → List K → List K
  push_orphans [] nodes worklist = worklist
  push_orphans (c ∷ cs) nodes worklist =
      push_orphans cs nodes (if is_orphan (get c nodes) then c ∷ worklist else worklist)

  unfoldable pub orphaned_roots : List K → List (K × DagNode K) → List K
  orphaned_roots [] nodes = []
  orphaned_roots (r ∷ rs) nodes =
      let rest = orphaned_roots rs nodes in if is_costly (get r nodes) then r ∷ rest else rest

module _ {ℓ} {K T N W C S E : Type ℓ} ⦃key : Key K⦄ (parts : Parts K T W C S E) where
  abbrev pub take_below :
      K → Option T × W → PebbleManager K T N W C S → Tier × PebbleManager K T N W C S
  take_below id (some _, warm') m = (warm_tier, record m { warm = warm' })
  take_below id (none, warm') m =
      if contains id m.blue_pebbles
      then (cold_tier, record m { warm = warm'; blue_pebbles = Sets.remove id m.blue_pebbles })
      else (nowhere, record m { warm = warm' })

  -- `was_in_hot`, `was_in_warm` and `was_in_cold`, with the removal from that tier.
  unfoldable pub take_out : K → PebbleManager K T N W C S → Tier × PebbleManager K T N W C S
  take_out id m =
      if contains_key id m.red_pebbles
      then (hot, record m { red_pebbles = delete id m.red_pebbles })
      else take_below id (parts.warm.remove id m.warm) m

  unfoldable pub forget : K → PebbleManager K T N W C S → PebbleManager K T N W C S
  forget id m = record m {
    dirty = Sets.remove id m.dirty;
    dag = (remove_node id m.dag).1;
    branches = map_some (remove_checkpoint id) m.branches;
  }

  abbrev pub after_take :
      K → Tier × PebbleManager K T N W C S → Option (Bool × PebbleManager K T N W C S)
  after_take id (hot, m) = some (true, forget id m)
  after_take id (warm_tier, m) = some (true, forget id m)
  after_take id (nowhere, m) = some (false, m)
  after_take id (cold_tier, m) = do
    manifest' ←
        record_tombstone parts.spout parts.default parts.max_deps parts.log_capacity id m.manifest
    some (true, record (forget id m) { manifest = manifest'; tombstoned = insert id m.tombstoned })

  unfoldable pub remove : K → PebbleManager K T N W C S → Option (Bool × PebbleManager K T N W C S)
  unfolding take_out forget
  remove id m = after_take id (take_out id m)

  -- Any copy in cold storage is purged too, with a tombstone.
  abbrev pub purge_copy : K → ℕ → PebbleManager K T N W C S → Option (ℕ × PebbleManager K T N W C S)
  purge_copy id purged m =
      if parts.cold.contains id m.cold
      then (do
        manifest' ←
            record_tombstone parts.spout parts.default parts.max_deps parts.log_capacity id
              m.manifest
        some
            (purged + 1, record m { manifest = manifest'; cold = (parts.cold.remove id m.cold).1 }))
      else some (purged, m)

  -- `while let Some(id) = worklist.pop()`, with as many rounds as `fuel`; the top of the worklist is
  -- the head of its list.
  unfoldable pub cascade :
      ℕ → List K → ℕ → PebbleManager K T N W C S → Option (ℕ × PebbleManager K T N W C S)
  unfolding push_orphans take_out forget
  cascade fuel [] purged m = some (purged, m)
  cascade zero (id ∷ worklist) purged m = none
  cascade (suc fuel) (id ∷ worklist) purged m = do
    (purged', m') ← purge_copy id purged (forget id (take_out id m).1)
    cascade fuel (push_orphans (node_dependents (get id m.dag.nodes)) m'.dag.nodes worklist) purged'
        m'

  unfoldable pub compact : PebbleManager K T N W C S → Option (ℕ × PebbleManager K T N W C S)
  unfolding cascade purge_each orphaned_roots count_dependents
  compact m =
      let worklist = orphaned_roots m.dag.roots m.dag.nodes in
      cascade (length worklist + count_dependents m.dag.nodes) worklist (length m.tombstoned)
        (record m { cold = purge_each parts.cold m.tombstoned m.cold; tombstoned = [] })
