-- ===== src/Pebble/Manager/Persistence/Succeeding.antt =====
-- pebble/src/manager/pebble_manager.rs: `flush` over cold storage that does not fail.
use abmac_lib.Prelude.{
  ◌≤◌, ◌≡◌, refl, sym, ◌∙◌, subst, inl, inr, List, [], ◌∷◌, Option, some, length, Result, ok, err,
  Option-cases, some-inj,
}
use abmac_lib.Prelude.Sorting.{sort_by_key}
use abmac_lib.Hash.{Key}
use abmac_lib.Hash.Sets.{insert, remove}
use abmac_lib.Hash.Maps.{get}
use abmac_lib.Ring.Holds.{IsCapacity}
use abmac_lib.Pebble.Manifest.Ready.{IsReady, record_eviction-succeeds, flush_manifest-IsReady}
use abmac_lib.Pebble.Tiers.{ColdTier}
use abmac_lib.Pebble.Manager.{PebbleManager, PebbleManagerError, Parts}
use abmac_lib.Pebble.Manager.Eviction.{node_dependencies, after_store, persist_to_cold}
use abmac_lib.Pebble.Manager.Eviction.Found.{IsLawful}
use abmac_lib.Pebble.Manager.Access.Managed.{IsManaged}
use abmac_lib.Pebble.Manager.Persistence.{
  created, persist_each, persist_dirty, flush_warm, flush_dirty, flush_rest, flush_manager,
}
use abmac_lib.Pebble.Manager.Persistence.Stored.{OnSuccess}
use abmac_lib.Pebble.Manager.Persistence.Flushing.{Flushed, flush_manager_lem}

-- A cold tier that takes whatever it is given.
pub record IsReliable {ℓ} {K T C E : Type ℓ} (cold : ColdTier K T C E) : Type ℓ where
  pub stores : (id : K) (item : T) (deps : List K) (c : C) → (cold.store id item deps c).0 ≡ ok tt
  pub flushes : (c : C) → (cold.flush c).0 ≡ ok tt

module _ {ℓ} {K T N W C S E : Type ℓ} ⦃key : Key K⦄ (parts : Parts K T W C S E) where
  -- No node has more dependencies than an entry of the manifest has room for.
  abbrev pub IsNarrow : PebbleManager K T N W C S → Type ℓ
  IsNarrow m = (id : K) → length (node_dependencies (get id m.dag.nodes)) ≤ parts.max_deps

  abbrev IsGoing : PebbleManager K T N W C S → Type ℓ
  IsGoing m =
      IsReady parts.spout parts.default parts.max_deps parts.log_capacity m.manifest × IsNarrow m

  abbrev Succeeds :
      Option (Result (PebbleManagerError K E) (Unit {0}) × PebbleManager K T N W C S) → Type ℓ
  Succeeds out = (m' : PebbleManager K T N W C S) × (out ≡ some (ok tt, m')) × IsGoing m'

  after_store-Succeeds :
      (id : K) (m : PebbleManager K T N W C S) (out : Result E (Unit {0}) × C)
      → out.0 ≡ ok tt
      → IsGoing m
      → Succeeds (after_store parts id out m)
  after_store-Succeeds id m (ok _, cold') h going = (_, refl, going)
  after_store-Succeeds id m (err e, cold') h going = cc h

  module _ (capacity : IsCapacity parts.log_capacity) (reliable : IsReliable parts.cold) where
    persist_to_cold-Succeeds :
        (id : K) (item : T) (m : PebbleManager K T N W C S)
        → IsGoing m
        → Succeeds (persist_to_cold parts id item m)
    unfolding persist_to_cold
    persist_to_cold-Succeeds id item m (ready, narrow) =
        let deps = node_dependencies (get id m.dag.nodes) in
        let (manifest', runs, ready') =
          record_eviction-succeeds parts.spout parts.default parts.max_deps parts.log_capacity
            capacity m.manifest id deps ready (narrow id) in
        rw runs (
          after_store-Succeeds id (record m { manifest = manifest' })
            (parts.cold.store id item deps m.cold) (reliable.stores id item deps m.cold)
            (ready', narrow))

    persist_each-Succeeds :
        (es : List (K × T)) (m : PebbleManager K T N W C S)
        → IsGoing m
        → Succeeds (persist_each parts es m)
    unfolding persist_each
    persist_each-Succeeds [] m going = (m, refl, going)
    persist_each-Succeeds (e ∷ es) m going =
        let (m', runs, going') = persist_to_cold-Succeeds e.0 e.1 m going in
        rw runs (
          persist_each-Succeeds es
            (record m' { blue_pebbles = insert e.0 m'.blue_pebbles; dirty = remove e.0 m'.dirty })
            going')

    persist_dirty-Succeeds :
        (ids : List K) (m : PebbleManager K T N W C S)
        → IsGoing m
        → Succeeds (persist_dirty parts ids m)
    unfolding persist_dirty
    persist_dirty-Succeeds [] m going = (m, refl, going)
    persist_dirty-Succeeds (id ∷ ids) m going = elim (Option-cases (get id m.red_pebbles)) [
      | inl cool ↦ rw cool (persist_dirty-Succeeds ids m going)
      | inr (x, there) ↦
          let (m', runs, going') = persist_to_cold-Succeeds id x m going in
          rw (there, runs) (persist_dirty-Succeeds ids m' going')
    ]

    flush_rest-Succeeds :
        (m : PebbleManager K T N W C S) (out : Result E (Unit {0}) × C)
        → out.0 ≡ ok tt
        → IsGoing m
        → Succeeds (flush_rest parts out m)
    flush_rest-Succeeds m (err e, cold') h going = cc h
    flush_rest-Succeeds m (ok _, cold') h (ready, narrow) =
        let (manifest', runs, ready') =
          flush_manifest-IsReady parts.spout parts.default parts.max_deps parts.log_capacity
            capacity m.manifest ready in
        (record m { cold = cold'; manifest = manifest' }, rw runs refl, (ready', narrow))

    flush_manager-Succeeds :
        (m : PebbleManager K T N W C S) → IsGoing m → Succeeds (flush_manager parts m)
    unfolding flush_manager flush_warm flush_dirty
    flush_manager-Succeeds m going =
        let (pending, warm') = parts.warm.drain m.warm in
        let (m₁, warm_runs, going₁) =
          persist_each-Succeeds (sort_by_key (λ e. created (get e.0 m.dag.nodes)) pending)
            (record m { warm = warm' }) going in
        let (m₂, dirty_runs, going₂) =
          persist_dirty-Succeeds (sort_by_key (λ id. created (get id m₁.dag.nodes)) m₁.dirty)
            (record m₁ { dirty = [] }) going₁ in
        rw (warm_runs, dirty_runs)
          (flush_rest-Succeeds m₂ (parts.cold.flush m₂.cold) (reliable.flushes m₂.cold) going₂)

module _ {ℓ} {K T N W C S E : Type ℓ} ⦃key : Key K⦄ (parts : Parts K T W C S E) (Valid : W → Type 0)
    (stored : K → C → Option T) (lawful : IsLawful parts Valid stored) where
  -- Over cold storage that takes whatever it is given, and a graph in which no node has more
  -- dependencies than an entry of the manifest has room for, `flush` of a manager that satisfies
  -- the invariant succeeds; the invariant holds, every checkpoint is there as before, and each of
  -- them can be loaded from cold storage.
  pub flush_manager_succeeds :
      (m : PebbleManager K T N W C S)
      → IsManaged parts Valid stored m
      → IsReliable parts.cold
      → IsNarrow parts m
      → (m' : PebbleManager K T N W C S) × (flush_manager parts m ≡ some (ok tt, m'))
        × Flushed parts Valid stored lawful m m'
  flush_manager_succeeds m h reliable narrow =
      let (m', ends, _) =
        flush_manager-Succeeds parts lawful.capacity reliable m (h.sound.ready, narrow) in
      let (r, runs, flushed) = flush_manager_lem parts Valid stored lawful m h in
      (
        m',
        ends,
        subst (OnSuccess parts Valid stored lawful (Flushed parts Valid stored lawful m))
            (some-inj (sym runs ∙ ends)) flushed,
      )
