-- ===== src/Pebble/Manager/Eviction/Found.antt =====
-- pebble/src/manager/pebble_manager.rs: where a checkpoint is, and what holds of the tiers between
-- any two calls; and the write of a checkpoint to cold storage.
use abmac_lib.Prelude.{
  ℕ, ◌≡◌, refl, ◌⊎◌, inl, inr, true, false, List, Option, none, some, if◌then◌else◌, Result, ok,
  err, saturating_add,
}
use abmac_lib.Hash.{Key}
use abmac_lib.Hash.Sets.{contains}
use abmac_lib.Hash.Maps.{get}
use abmac_lib.Ring.Holds.{IsCapacity}
use abmac_lib.Pebble.Manifest.{Manifest, StorageError}
use abmac_lib.Pebble.Manifest.Ready.{IsReady, record_tombstone-IsReady, record_eviction-IsReady}
use abmac_lib.Pebble.Tiers.{IsWarm, IsCold, Stored, added}
use abmac_lib.Pebble.Manager.{PebbleManager, PebbleManagerError, storage, serialization, Parts}
use abmac_lib.Pebble.Manager.Eviction.{
  node_dependencies, after_store, after_record, persist_to_cold,
}

abbrev pub first_of {ℓ} : {A : Type ℓ} → Option A → Option A → Option A
first_of (some a) b = some a
first_of none b = b

-- What the tiers and the ring of the manifest do as they promise.
pub record IsLawful {ℓ} {K T W C S E : Type ℓ} ⦃key : Key K⦄ (parts : Parts K T W C S E)
    (Valid : W → Type 0) (stored : K → C → Option T) : Type ℓ where
  pub warm_laws : IsWarm parts.warm Valid
  pub cold_laws : IsCold parts.cold stored
  pub capacity : IsCapacity parts.log_capacity

abbrev pub in_storage {ℓ} :
    {K T C : Type ℓ} ⦃key : Key K⦄ → (K → C → Option T) → K → List K → C → Option T
in_storage stored j blue c = if contains j blue then stored j c else none

module _ {ℓ} {K T N W C S E : Type ℓ} ⦃key : Key K⦄ (parts : Parts K T W C S E) where
  -- The identifier is in no tier.
  abbrev pub IsAbsent : K → PebbleManager K T N W C S → Type ℓ
  IsAbsent id m =
      (get id m.red_pebbles ≡ none)
      × (parts.warm.get id m.warm ≡ none)
      × (contains id m.blue_pebbles ≡ false)

module _ {ℓ} {K T N W C S E : Type ℓ} ⦃key : Key K⦄ (parts : Parts K T W C S E)
    (stored : K → C → Option T) where
  -- A checkpoint that is not dirty is stored.
  abbrev pub IsSafe : K → T → PebbleManager K T N W C S → Type ℓ
  IsSafe id item m = contains id m.dirty ≡ false → stored id m.cold ≡ some item

  -- The checkpoint of an identifier, in whichever tier it is.
  abbrev pub found : K → PebbleManager K T N W C S → Option T
  found j m =
      first_of (get j m.red_pebbles)
        (first_of (parts.warm.get j m.warm) (in_storage stored j m.blue_pebbles m.cold))

module _ {ℓ} {K T N W C S E : Type ℓ} ⦃key : Key K⦄ (parts : Parts K T W C S E) (Valid : W → Type 0)
    (stored : K → C → Option T) where
  -- What is in storage is stored, no checkpoint is in two tiers, and one that is not dirty is stored.
  pub record IsSound (m : PebbleManager K T N W C S) : Type ℓ where
    pub ready : IsReady parts.spout parts.default parts.max_deps parts.log_capacity m.manifest
    pub valid : Valid m.warm
    pub backed : (j : K) → contains j m.blue_pebbles ≡ true → (x : T) × (stored j m.cold ≡ some x)
    pub hot_apart :
        (j : K) (x : T)
        → get j m.red_pebbles ≡ some x
        → (parts.warm.get j m.warm ≡ none) × (contains j m.blue_pebbles ≡ false)
    pub warm_apart :
        (j : K) (x : T) → parts.warm.get j m.warm ≡ some x → contains j m.blue_pebbles ≡ false
    pub clean :
        (j : K) (x : T)
        → first_of (get j m.red_pebbles) (parts.warm.get j m.warm) ≡ some x
        → contains j m.dirty ≡ false
        → stored j m.cold ≡ some x

  -- The manager is sound, every checkpoint is there as before, and `item` beside them; what is in
  -- storage stays there, what is on its way elsewhere is as safe as before, and the graph and the
  -- configuration are the same.
  pub record Keeps (id : K) (item : T) (m m' : PebbleManager K T N W C S) : Type ℓ where
    pub sound : IsSound m'
    pub all : (j : K) → found parts stored j m' ≡ added id item j (found parts stored j m)
    pub storage : (j : K) → contains j m.blue_pebbles ≡ true → contains j m'.blue_pebbles ≡ true
    pub aside :
        (j : K) (z : T)
        → key.same j id ≡ false
        → found parts stored j m ≡ none
        → IsSafe parts stored j z m
        → IsSafe parts stored j z m'
    pub graph : m'.dag ≡ m.dag
    pub capacity : m'.hot_capacity ≡ m.hot_capacity
    pub strategy : m'.strategy ≡ m.strategy

  -- A write to cold storage changes that and the manifest; on an error nothing is stored.
  abbrev pub Persisted :
      K
      → T
      → PebbleManager K T N W C S
      → Result (PebbleManagerError K E) (Unit {0}) × PebbleManager K T N W C S
      → Type ℓ
  Persisted id item m out =
      (cold' : C) × (manifest' : Manifest K S) × (writes : ℕ) × IsReady parts.spout parts.default
        parts.max_deps parts.log_capacity manifest'
      × (((out ≡ (ok tt, record m { cold = cold'; manifest = manifest'; io_writes = writes }))
            × ((j : K) → stored j cold' ≡ added id item j (stored j m.cold)))
          ⊎ ((e : PebbleManagerError K E) × (out
                ≡ (err e, record m { cold = cold'; manifest = manifest'; io_writes = writes }))
              × ((j : K) → stored j cold' ≡ stored j m.cold)))

  module _ (lawful : IsLawful parts Valid stored) where
    after_store_lem :
        (id : K) (item : T) (m : PebbleManager K T N W C S) (out : Result E (Unit {0}) × C)
        → IsReady parts.spout parts.default parts.max_deps parts.log_capacity m.manifest
        → Stored parts.cold stored id item m.cold out
        → (r : Result (PebbleManagerError K E) (Unit {0}) × PebbleManager K T N W C S)
          × (after_store parts id out m ≡ some r)
          × Persisted id item m r
    after_store_lem id item m (ok _, cold') ready effect =
        (_, refl, (cold', m.manifest, saturating_add m.io_writes 1, ready, inl (refl, effect)))
    after_store_lem id item m (err e, cold') ready effect =
        let (manifest', runs, ready') =
          record_tombstone-IsReady parts.spout parts.default parts.max_deps parts.log_capacity
            lawful.capacity m.manifest id ready in
        (
          (err (serialization id e), record m { cold = cold'; manifest = manifest' }),
          rw runs refl,
          (cold', manifest', m.io_writes, ready', inr (serialization id e, refl, effect)),
        )

    pub persist_to_cold_lem :
        (id : K) (item : T) (m : PebbleManager K T N W C S)
        → IsReady parts.spout parts.default parts.max_deps parts.log_capacity m.manifest
        → (r : Result (PebbleManagerError K E) (Unit {0}) × PebbleManager K T N W C S)
          × (persist_to_cold parts id item m ≡ some r)
          × Persisted id item m r
    unfolding persist_to_cold
    persist_to_cold_lem id item m ready =
        let deps = node_dependencies (get id m.dag.nodes) in
        let (r, manifest', runs, ready') =
          record_eviction-IsReady parts.spout parts.default parts.max_deps parts.log_capacity
            lawful.capacity m.manifest id deps ready in
        rw runs (go r manifest' ready')
      where
        go :
            (r : Result StorageError (Unit {0})) (manifest' : Manifest K S)
            → IsReady parts.spout parts.default parts.max_deps parts.log_capacity manifest'
            → (out : Result (PebbleManagerError K E) (Unit {0}) × PebbleManager K T N W C S)
              × (after_record parts id item
                    (node_dependencies (get id m.dag.nodes))
                    (r, manifest')
                    m
                  ≡ some out)
              × Persisted id item m out
        go (err e) manifest' ready' =
            (_, refl, (m.cold, manifest', m.io_writes, ready', inr (storage e, refl, λ j. refl)))
        go (ok _) manifest' ready' =
            after_store_lem id item (record m { manifest = manifest' }) _ ready'
              (lawful.cold_laws.store_lem id item (node_dependencies (get id m.dag.nodes)) m.cold)
