-- ===== src/Pebble/Manager/Access.antt =====
-- pebble/src/manager/pebble_manager.rs and safety.rs: checkpoints are added to fast memory, and
-- brought back to it. A `CheckpointRef` is its identifier, and a deferred constructor its value.
pub mod Managed
pub mod Adding
pub mod Promotion
pub mod Arrival
pub mod Loading
pub mod Resizing
use mathlib.Core.Bool.{not}
use abmac_lib.Prelude.{
  ℕ, zero, suc, ◌+◌, ◌-◌, ◌≡◌, Bool, true, false, ◌||◌, List, [], ◌∷◌, Option, none, some, length,
  max, ltb, ◌==◌, if◌then◌else◌, saturating_add, Result, ok, err,
}
use abmac_lib.Prelude.Sorting.{isqrt}
use abmac_lib.Hash.{Key, nat_key}
use abmac_lib.Hash.Sets.{contains, insert, remove}
use abmac_lib.Hash.Maps.{get, contains_key, put, update}
use abmac_lib.Pebble.Branch.{BranchInfo, BranchTracker, assign}
use abmac_lib.Pebble.Dag.{ComputationDag, DagError, add_node_impl, mark_accessed}
use abmac_lib.Pebble.Strategy.{get_eviction_count, select_eviction_candidates}
use abmac_lib.Pebble.Manager.{
  PebbleManager, PebbleManagerError, dag_error, never_added, deserialization, flush_failed,
  internal_inconsistency, Parts, Action, go_on, ◌>>=◌, ◌>>◌, return, modify,
}
use abmac_lib.Pebble.Manager.Eviction.{evict_each, evict_red_pebbles, ensure_room}

-- `Result` with the error of the graph turned into one of the manager.
abbrev pub from_dag {ℓ} :
    {K T N W C S E : Type ℓ}
    → PebbleManager K T N W C S
    → Option (Result (DagError K) (Unit {0}) × ComputationDag K)
    → Option (Result (PebbleManagerError K E) (Unit {0}) × PebbleManager K T N W C S)
from_dag m none = none
from_dag m (some (ok _, dag')) = some (ok tt, record m { dag = dag' })
from_dag m (some (err e, dag')) = some (err (dag_error e), record m { dag = dag' })

-- `tracker.assign(state_id, active)`, and the head of the active branch.
abbrev pub track {ℓ} :
    {N K : Type ℓ} ⦃key : Key K⦄ → K → Option (BranchTracker N K) → Option (BranchTracker N K)
track id none = none
track id (some t) =
    let t' = assign id t.active t in
    some (record t' { branches = update t.active (λ b. record b { head = some id }) t'.branches })

module _ {ℓ} {K T N W C S E : Type ℓ} ⦃key : Key K⦄ (parts : Parts K T W C S E) where
  -- `len`
  abbrev pub total : PebbleManager K T N W C S → ℕ
  total m = length m.red_pebbles + length m.blue_pebbles + parts.warm.len m.warm

  unfoldable pub auto_grow : PebbleManager K T N W C S → PebbleManager K T N W C S
  unfolding isqrt
  auto_grow m =
      let new_optimal = max (isqrt (total m)) 1 in
      if m.auto_resize
      then (if ltb m.hot_capacity new_optimal then record m { hot_capacity = new_optimal } else m)
      else m

  unfoldable pub register_hot : K → T → PebbleManager K T N W C S → PebbleManager K T N W C S
  unfolding auto_grow
  register_hot id checkpoint m = auto_grow (record m {
    red_pebbles = put id checkpoint m.red_pebbles;
    dirty = insert id m.dirty;
    checkpoints_added = saturating_add m.checkpoints_added 1;
    branches = track id m.branches;
  })

  unfoldable pub add_to_dag :
      K → List K → Action (PebbleManager K T N W C S) (PebbleManagerError K E) (Unit {0})
  add_to_dag id dependencies m = from_dag m (add_node_impl id dependencies true m.dag)

  unfoldable pub add :
      T → List K → Action (PebbleManager K T N W C S) (PebbleManagerError K E) (Unit {0})
  unfolding add_to_dag ensure_room register_hot
  add checkpoint dependencies = do
    add_to_dag (parts.checkpoint_id checkpoint) dependencies
    ensure_room parts
    modify (register_hot (parts.checkpoint_id checkpoint) checkpoint)

  -- `CapacityGuard::store`
  unfoldable pub guard_store :
      T → List K → Action (PebbleManager K T N W C S) (PebbleManagerError K E) K
  unfolding add_to_dag register_hot
  guard_store checkpoint dependencies = do
    add_to_dag (parts.checkpoint_id checkpoint) dependencies
    modify (register_hot (parts.checkpoint_id checkpoint) checkpoint)
    return (parts.checkpoint_id checkpoint)

  -- `insert`, which is `ensure_capacity` and then the steps of its guard.
  unfoldable pub insert_with :
      List K → T → Action (PebbleManager K T N W C S) (PebbleManagerError K E) K
  unfolding ensure_room guard_store
  insert_with dependencies checkpoint = do ensure_room parts; guard_store checkpoint dependencies

  -- `contains`, of which `locate` makes a token.
  unfoldable pub contains_checkpoint : K → PebbleManager K T N W C S → Bool
  contains_checkpoint id m =
      contains_key id m.red_pebbles || contains id m.blue_pebbles || parts.warm.contains id m.warm

  abbrev pub found_hot : Option T → Action (PebbleManager K T N W C S) (PebbleManagerError K E) T
  found_hot none m = some (err internal_inconsistency, m)
  found_hot (some checkpoint) m = some (ok checkpoint, m)

  abbrev pub expect_hot : K → Action (PebbleManager K T N W C S) (PebbleManagerError K E) T
  expect_hot id m = found_hot (get id m.red_pebbles) m

  -- The promotion of a checkpoint that was taken out of the warm tier.
  unfoldable pub promote_warm :
      K → T → Action (PebbleManager K T N W C S) (PebbleManagerError K E) T
  promote_warm id checkpoint = do
    ensure_room parts
    modify (λ m. record m {
      red_pebbles = put id checkpoint m.red_pebbles;
      dag = mark_accessed id m.dag;
      warm_hits = saturating_add m.warm_hits 1;
    })
    expect_hot id

  -- The promotion of a checkpoint that was loaded from storage.
  unfoldable pub promote_cold :
      K → Result E T → Action (PebbleManager K T N W C S) (PebbleManagerError K E) T
  promote_cold id (err e) = λ m. some (err (deserialization id e), m)
  promote_cold id (ok checkpoint) = do
    ensure_room parts
    modify (λ m. record m {
      red_pebbles = put id checkpoint m.red_pebbles;
      blue_pebbles = remove id m.blue_pebbles;
      io_reads = saturating_add m.io_reads 1;
      cold_loads = saturating_add m.cold_loads 1;
      dag = mark_accessed id m.dag;
    })
    expect_hot id

  abbrev pub after_flush :
      K → Result E (Unit {0}) × C → Action (PebbleManager K T N W C S) (PebbleManagerError K E) T
  after_flush id (err e, cold') m = some (err (flush_failed e), record m { cold = cold' })
  after_flush id (ok _, cold') m =
      promote_cold id (parts.cold.load id cold') (record m { cold = cold' })

  unfoldable pub load_cold : K → Action (PebbleManager K T N W C S) (PebbleManagerError K E) T
  unfolding promote_cold
  load_cold id m =
      if contains id m.blue_pebbles
      then after_flush id (parts.cold.flush m.cold) m
      else some (err (never_added id), m)

  abbrev pub load_below :
      K → Option T × W → Action (PebbleManager K T N W C S) (PebbleManagerError K E) T
  load_below id (none, warm') m = load_cold id (record m { warm = warm' })
  load_below id (some checkpoint, warm') m = promote_warm id checkpoint (record m { warm = warm' })

  unfoldable pub load : K → Action (PebbleManager K T N W C S) (PebbleManagerError K E) T
  unfolding load_cold promote_warm
  load id m =
      if contains_key id m.red_pebbles
      then expect_hot id (record m { dag = mark_accessed id m.dag })
      else load_below id (parts.warm.remove id m.warm) m

  -- `while self.red_pebbles.len() > self.hot_capacity`, with as many rounds as `fuel`.
  unfoldable pub shrink : ℕ → Action (PebbleManager K T N W C S) (PebbleManagerError K E) (Unit {0})
  shrink zero m = if ltb m.hot_capacity (length m.red_pebbles) then none else some (ok tt, m)
  shrink (suc fuel) m =
      let rest = λ (m' : PebbleManager K T N W C S). shrink fuel m' in
      if ltb m.hot_capacity (length m.red_pebbles)
      then go_on (λ _. rest) (evict_red_pebbles parts m)
      else some (ok tt, m)

  -- Each round evicts a checkpoint, so as many rounds as there are in fast memory are enough.
  unfoldable pub resize_hot :
      ℕ → Action (PebbleManager K T N W C S) (PebbleManagerError K E) (Unit {0})
  unfolding shrink
  resize_hot new_capacity m =
      shrink (length m.red_pebbles) (record m { hot_capacity = max new_capacity 1 })

  unfoldable pub resize_optimal :
      Action (PebbleManager K T N W C S) (PebbleManagerError K E) (Unit {0})
  unfolding resize_hot isqrt
  resize_optimal m = resize_hot (max (isqrt (total m)) 1) m

  unfoldable pub compress : Action (PebbleManager K T N W C S) (PebbleManagerError K E) ℕ
  unfolding evict_each get_eviction_count select_eviction_candidates
  compress m =
      let count = get_eviction_count (length m.red_pebbles) (total m) in
      if count == 0
      then some (ok 0, m)
      else evict_each parts (select_eviction_candidates m.strategy m.red_pebbles m.dag count) 0 m
