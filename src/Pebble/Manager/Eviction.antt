-- ===== src/Pebble/Manager/Eviction.antt =====
-- pebble/src/manager/eviction.rs, and `persist_to_cold` of pebble_manager.rs: checkpoints leave fast
-- memory for the warm tier, and what overflows there is stored.
pub mod Found
pub mod Moves
pub mod Single
pub mod Cooling
pub mod Several
pub mod Lossy
use abmac_lib.Prelude.{
  ℕ, ◌+◌, ◌/◌, ◌≡◌, Bool, true, false, ◌&&◌, List, [], ◌∷◌, Option, none, some, length, max, ltb,
  leb, ◌==◌, if◌then◌else◌, saturating_add, Result, ok, err,
}
use abmac_lib.Prelude.Results
use abmac_lib.Hash.{Key}
use abmac_lib.Hash.Sets.{insert, remove}
use abmac_lib.Hash.Maps.{get, delete, put}
use abmac_lib.Pebble.Manifest.{StorageError, Manifest, record_eviction, record_tombstone}
use abmac_lib.Pebble.Dag.{DagNode, ComputationDag}
use abmac_lib.Pebble.Strategy.{select_eviction_candidates}
use abmac_lib.Pebble.Manager.{
  PebbleManager, PebbleManagerError, storage, serialization, internal_inconsistency, Parts, Action,
  go_on, ◌>>=◌, ◌>>◌, return,
}

-- `EVICTION_BATCH_DIVISOR`
abbrev pub eviction_batch_divisor : ℕ
eviction_batch_divisor = 4

abbrev pub eviction_count : ℕ → ℕ
eviction_count hot_capacity = max 1 (hot_capacity / eviction_batch_divisor)

-- `map(|n| n.dependencies()).unwrap_or(&[])`
abbrev pub node_dependencies {ℓ} : {K : Type ℓ} → Option (DagNode K) → List K
node_dependencies none = []
node_dependencies (some n) = n.dependencies

-- What was taken back from the warm tier returns to fast memory.
abbrev pub put_back {ℓ} : {K T : Type ℓ} ⦃key : Key K⦄ → K → Option T → List (K × T) → List (K × T)
put_back id none red = red
put_back id (some checkpoint) red = put id checkpoint red

module _ {ℓ} {K T N W C S E : Type ℓ} ⦃key : Key K⦄ (parts : Parts K T W C S E) where
  -- The outcome of `cold.store`; a failure is followed by a compensating tombstone.
  abbrev pub after_store :
      K
      → Result E (Unit {0}) × C
      → Action (PebbleManager K T N W C S) (PebbleManagerError K E) (Unit {0})
  after_store id (ok _, cold') m =
      some (ok tt, record m { cold = cold'; io_writes = saturating_add m.io_writes 1 })
  after_store id (err e, cold') m =
      Results.◌>>=◌
        (record_tombstone parts.spout parts.default parts.max_deps parts.log_capacity id m.manifest)
        (λ manifest'.
          some (err (serialization id e), record m { cold = cold'; manifest = manifest' }))

  -- The outcome of `manifest.record`.
  abbrev pub after_record :
      K
      → T
      → List K
      → Result StorageError (Unit {0}) × Manifest K S
      → Action (PebbleManager K T N W C S) (PebbleManagerError K E) (Unit {0})
  after_record id checkpoint deps (err e, manifest') m =
      some (err (storage e), record m { manifest = manifest' })
  after_record id checkpoint deps (ok _, manifest') m =
      after_store id (parts.cold.store id checkpoint deps m.cold)
        (record m { manifest = manifest' })

  unfoldable pub persist_to_cold :
      K → T → Action (PebbleManager K T N W C S) (PebbleManagerError K E) (Unit {0})
  persist_to_cold id checkpoint m =
      let deps = node_dependencies (get id m.dag.nodes) in
      Results.◌>>=◌
        (record_eviction parts.spout parts.default parts.max_deps parts.log_capacity id deps
          m.manifest)
        (λ recorded. after_record id checkpoint deps recorded m)

  -- The end of `evict_single` when an item overflowed: on a failure all is put back.
  abbrev pub settle :
      K
      → K
      → T
      → Result (PebbleManagerError K E) (Unit {0}) × PebbleManager K T N W C S
      → Result (PebbleManagerError K E) (Unit {0}) × PebbleManager K T N W C S
  settle id o overflow (ok _, m) =
      (ok tt, record m { blue_pebbles = insert o m.blue_pebbles; dirty = remove o m.dirty })
  settle id o overflow (err e, m) =
      let (recovered, warm₁) = parts.warm.remove id m.warm in
      let (_, warm₂) = parts.warm.insert o overflow warm₁ in
      (err e, record m { warm = warm₂; red_pebbles = put_back id recovered m.red_pebbles })

  abbrev pub spill :
      K → Option (K × T) → Action (PebbleManager K T N W C S) (PebbleManagerError K E) (Unit {0})
  spill id none m = some (ok tt, m)
  spill id (some (o, overflow)) m =
      Results.◌>>=◌ (persist_to_cold o overflow m)
        (λ persisted. some (settle id o overflow persisted))

  unfoldable pub evict_single :
      K → T → Action (PebbleManager K T N W C S) (PebbleManagerError K E) (Unit {0})
  evict_single id checkpoint m =
      let (overflow, warm') = parts.warm.insert id checkpoint m.warm in
      spill id overflow (record m { warm = warm' })

  -- `if let Some(checkpoint) = self.red_pebbles.remove(&state_id)`, before the `rest` of the loop.
  abbrev pub evict_next :
      K
      → Option T
      → (ℕ → Action (PebbleManager K T N W C S) (PebbleManagerError K E) ℕ)
      → ℕ
      → Action (PebbleManager K T N W C S) (PebbleManagerError K E) ℕ
  evict_next id none rest evicted m = rest evicted m
  evict_next id (some checkpoint) rest evicted m =
      go_on (λ _. rest (evicted + 1))
        (evict_single id checkpoint (record m { red_pebbles = delete id m.red_pebbles }))

  -- `for state_id in candidates`, with the number of those evicted so far.
  unfoldable pub evict_each :
      List K → ℕ → Action (PebbleManager K T N W C S) (PebbleManagerError K E) ℕ
  evict_each [] evicted m = some (ok evicted, m)
  evict_each (id ∷ ids) evicted m =
      let rest = λ (count : ℕ) (m' : PebbleManager K T N W C S). evict_each ids count m' in
      evict_next id (get id m.red_pebbles) rest evicted m

  abbrev pub check_evicted : ℕ → Action (PebbleManager K T N W C S) (PebbleManagerError K E) ℕ
  check_evicted evicted m =
      if evicted == 0 && ltb 0 (length m.red_pebbles)
      then some (err internal_inconsistency, m)
      else some (ok evicted, m)

  unfoldable pub evict_red_pebbles : Action (PebbleManager K T N W C S) (PebbleManagerError K E) ℕ
  unfolding evict_each
  evict_red_pebbles m =
      let candidates =
        select_eviction_candidates m.strategy m.red_pebbles m.dag (eviction_count m.hot_capacity) in
      (evict_each candidates 0 >>= check_evicted) m

  -- `if self.red_pebbles.len() >= self.hot_capacity { self.evict_red_pebbles()?; }`
  unfoldable pub ensure_room :
      Action (PebbleManager K T N W C S) (PebbleManagerError K E) (Unit {0})
  ensure_room m =
      if leb m.hot_capacity (length m.red_pebbles)
      then go_on (λ _. return tt) (evict_red_pebbles m)
      else some (ok tt, m)
