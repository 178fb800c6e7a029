-- ===== src/Pebble/Manager/Persistence.antt =====
-- pebble/src/manager/pebble_manager.rs: `flush`, which writes the warm tier and what is dirty in fast
-- memory to cold storage. `close` and `drop` flush.
pub mod Order
pub mod Stored
pub mod Durable
pub mod Flushing
pub mod Succeeding
use abmac_lib.Prelude.{ℕ, ◌≡◌, List, [], ◌∷◌, Option, none, some, Result, ok, err}
use abmac_lib.Prelude.Results
use abmac_lib.Prelude.Sorting.{SortKey, sort_by_key}
use abmac_lib.Hash.{Key}
use abmac_lib.Hash.Sets.{insert, remove}
use abmac_lib.Hash.Maps.{get}
use abmac_lib.Pebble.Manifest.{flush_manifest}
use abmac_lib.Pebble.Dag.{DagNode, ComputationDag}
use abmac_lib.Pebble.Tiers.{WarmTier}
use abmac_lib.Pebble.Manager.{
  PebbleManager, PebbleManagerError, flush_failed, Parts, Action, go_on, ◌>>=◌, ◌>>◌,
}
use abmac_lib.Pebble.Manager.Eviction.{persist_to_cold}

-- `map_or(0, |n| n.creation_time())`, as a key.
abbrev pub created {ℓ} : {K : Type ℓ} → Option (DagNode K) → SortKey
created none = (0, 0, 0)
created (some n) = (n.creation_time, 0, 0)

module _ {ℓ} {K T W : Type ℓ} (warm : WarmTier K T W) where
  unfoldable pub insert_each : List (K × T) → W → W
  insert_each [] w = w
  insert_each (e ∷ es) w = insert_each es (warm.insert e.0 e.1 w).1

module _ {ℓ} {K T N W C S E : Type ℓ} ⦃key : Key K⦄ (parts : Parts K T W C S E) where
  -- `for i in 0..pending.len()`; what is left goes back into the warm tier on an error.
  abbrev pub after_persist :
      K × T
      → List (K × T)
      → Action (PebbleManager K T N W C S) (PebbleManagerError K E) (Unit {0})
      → Option (Result (PebbleManagerError K E) (Unit {0}) × PebbleManager K T N W C S)
      → Option (Result (PebbleManagerError K E) (Unit {0}) × PebbleManager K T N W C S)
  after_persist e es rest none = none
  after_persist e es rest (some (ok _, m)) =
      rest (record m { blue_pebbles = insert e.0 m.blue_pebbles; dirty = remove e.0 m.dirty })
  after_persist e es rest (some (err x, m)) =
      some (err x, record m { warm = insert_each parts.warm (e ∷ es) m.warm })

  unfoldable pub persist_each :
      List (K × T) → Action (PebbleManager K T N W C S) (PebbleManagerError K E) (Unit {0})
  unfolding insert_each
  persist_each [] m = some (ok tt, m)
  persist_each (e ∷ es) m =
      let rest = λ (m' : PebbleManager K T N W C S). persist_each es m' in
      after_persist e es rest (persist_to_cold parts e.0 e.1 m)

  -- `let Some(checkpoint) = self.red_pebbles.get(&id)`, before the `rest` of the loop; the steps are
  -- those of `persist_to_cold`.
  abbrev pub persist_hot :
      K
      → Option T
      → Action (PebbleManager K T N W C S) (PebbleManagerError K E) (Unit {0})
      → Action (PebbleManager K T N W C S) (PebbleManagerError K E) (Unit {0})
  persist_hot id none rest m = rest m
  persist_hot id (some checkpoint) rest m =
      go_on (λ _. rest) (persist_to_cold parts id checkpoint m)

  -- `for id in dirty_ids`
  unfoldable pub persist_dirty :
      List K → Action (PebbleManager K T N W C S) (PebbleManagerError K E) (Unit {0})
  persist_dirty [] m = some (ok tt, m)
  persist_dirty (id ∷ ids) m =
      let rest = λ (m' : PebbleManager K T N W C S). persist_dirty ids m' in
      persist_hot id (get id m.red_pebbles) rest m

  -- The warm tier is drained, and persisted in the order of creation.
  unfoldable pub flush_warm : Action (PebbleManager K T N W C S) (PebbleManagerError K E) (Unit {0})
  unfolding persist_each sort_by_key
  flush_warm m =
      let (pending, warm') = parts.warm.drain m.warm in
      persist_each (sort_by_key (λ e. created (get e.0 m.dag.nodes)) pending)
        (record m { warm = warm' })

  unfoldable pub flush_dirty :
      Action (PebbleManager K T N W C S) (PebbleManagerError K E) (Unit {0})
  unfolding persist_dirty sort_by_key
  flush_dirty m =
      persist_dirty (sort_by_key (λ id. created (get id m.dag.nodes)) m.dirty)
        (record m { dirty = [] })

  abbrev pub flush_rest :
      Result E (Unit {0}) × C
      → Action (PebbleManager K T N W C S) (PebbleManagerError K E) (Unit {0})
  flush_rest (err e, cold') m = some (err (flush_failed e), record m { cold = cold' })
  flush_rest (ok _, cold') m =
      Results.◌>>=◌
        (flush_manifest parts.spout parts.default parts.max_deps parts.log_capacity m.manifest)
        (λ manifest'. some (ok tt, record m { cold = cold'; manifest = manifest' }))

  unfoldable pub flush_manager :
      Action (PebbleManager K T N W C S) (PebbleManagerError K E) (Unit {0})
  unfolding flush_warm flush_dirty
  flush_manager = do flush_warm; flush_dirty; λ m. flush_rest (parts.cold.flush m.cold) m
