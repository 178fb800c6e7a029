-- ===== src/Pebble/Manager/Eviction/Lossy.antt =====
-- pebble/src/manager/eviction.rs over `NoWarm`: what was taken out of fast memory cannot be taken
-- back from a warm tier that keeps nothing.
use abmac_lib.Prelude.{◌≡◌, refl, List, some, Result, ok, err}
use abmac_lib.Prelude.Results
use abmac_lib.Hash.{Key}
use abmac_lib.Hash.Maps.{get}
use abmac_lib.Pebble.Manifest.{StorageError, Manifest}
use abmac_lib.Pebble.Manifest.Ready.{IsReady, record_tombstone-IsReady, record_eviction-IsReady}
use abmac_lib.Ring.Holds.{IsCapacity}
use abmac_lib.Pebble.Tiers.Warming.{no_warm}
use abmac_lib.Pebble.Manager.{PebbleManager, PebbleManagerError, storage, serialization, Parts}
use abmac_lib.Pebble.Manager.Eviction.{
  node_dependencies, after_record, settle, persist_to_cold, evict_single,
}
use abmac_lib.Pebble.Manager.Eviction.Found.{IsAbsent}

-- The same parts over `NoWarm`.
abbrev pub over_none {ℓ} :
    {K T C S E : Type ℓ} ⦃key : Key K⦄ → Parts K T (Unit {ℓ}) C S E → Parts K T (Unit {ℓ}) C S E
over_none parts = record parts { warm = no_warm }

module _ {ℓ} {K T N C S E : Type ℓ} ⦃key : Key K⦄ (parts : Parts K T (Unit {ℓ}) C S E)
    (capacity : IsCapacity parts.log_capacity) where
  -- If cold storage refuses a checkpoint that leaves fast memory, `evict_single` over `NoWarm`
  -- fails and the checkpoint is in no tier.
  pub evict_single-no_warm :
      (id : K) (item : T) (m : PebbleManager K T N (Unit {ℓ}) C S) (e : E) (cold' : C)
      → IsReady parts.spout parts.default parts.max_deps parts.log_capacity m.manifest
      → IsAbsent (over_none parts) id m
      → ((deps : List K) → parts.cold.store id item deps m.cold ≡ (err e, cold'))
      → (e' : PebbleManagerError K E) × (m' : PebbleManager K T N (Unit {ℓ}) C S) × (evict_single
            (over_none parts)
            id
            item
            m
          ≡ some (err e', m'))
        × IsAbsent (over_none parts) id m'
  unfolding evict_single persist_to_cold no_warm
  evict_single-no_warm id item m e cold' ready absent refuses =
      let deps = node_dependencies (get id m.dag.nodes) in
      let (r, manifest', runs, ready') =
        record_eviction-IsReady parts.spout parts.default parts.max_deps parts.log_capacity capacity
          m.manifest id deps ready in
      rw runs (go r manifest' ready')
    where
      go :
          (r : Result StorageError (Unit {0})) (manifest' : Manifest K S)
          → IsReady parts.spout parts.default parts.max_deps parts.log_capacity manifest'
          → (e' : PebbleManagerError K E) × (m' : PebbleManager K T N (Unit {ℓ}) C S)
            × (Results.◌>>=◌
                  (after_record
                    (over_none parts)
                    id
                    item
                    (node_dependencies (get id m.dag.nodes))
                    (r, manifest')
                    m)
                  (λ persisted. some (settle (over_none parts) id id item persisted))
                ≡ some (err e', m'))
            × IsAbsent (over_none parts) id m'
      go (err x) manifest' ready' = (storage x, record m { manifest = manifest' }, refl, absent)
      go (ok _) manifest' ready' =
          let (manifest'', runs, _) =
            record_tombstone-IsReady parts.spout parts.default parts.max_deps parts.log_capacity
              capacity manifest' id ready' in
          (
            serialization id e,
            record m { cold = cold'; manifest = manifest'' },
            rw (refuses (node_dependencies (get id m.dag.nodes)), runs) refl,
            absent,
          )
