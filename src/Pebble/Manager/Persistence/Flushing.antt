-- ===== src/Pebble/Manager/Persistence/Flushing.antt =====
-- pebble/src/manager/pebble_manager.rs: after a `flush` that succeeds every checkpoint can be loaded
-- from cold storage.
use abmac_lib.Prelude.{
  ◌≡◌, refl, sym, ap, ◌∙◌, subst, false, List, [], Option, none, some, Result, ok, err, Bool-cases,
  Option-cases, inl, inr,
}
use abmac_lib.Prelude.Sorting.{sort_by_key}
use abmac_lib.Hash.{Key}
use abmac_lib.Hash.Sets.{contains}
use abmac_lib.Hash.Maps.{get, contains_key}
use abmac_lib.Pebble.Manifest.Ready.{flush_manifest-IsReady}
use abmac_lib.Pebble.Strategy.Orders.{contains-sort_by_key}
use abmac_lib.Pebble.Tiers.{ColdTier}
use abmac_lib.Pebble.Manager.{PebbleManager, PebbleManagerError, flush_failed, Parts, go_on, ◌>>◌}
use abmac_lib.Pebble.Manager.Eviction.Found.{found, IsLawful}
use abmac_lib.Pebble.Manager.Access.Managed.{IsManaged}
use abmac_lib.Pebble.Manager.Access.Promotion.{recold-IsSound, recold_found}
use abmac_lib.Pebble.Manager.Persistence.{
  created, flush_warm, flush_dirty, flush_rest, flush_manager,
}
use abmac_lib.Pebble.Manager.Persistence.Stored.{Stowed, OnSuccess, OnSuccess-map, flush_warm_lem}
use abmac_lib.Pebble.Manager.Persistence.Durable.{Remaining, Cleaned, persist_dirty_lem}

-- What is there can be loaded.
abbrev pub IsLoadable {ℓ} : {K T C E : Type ℓ} → ColdTier K T C E → K → Option T → C → Type ℓ
IsLoadable cold j none c = Unit
IsLoadable cold j (some x) c = cold.load j c ≡ ok x

module _ {ℓ} {K T N W C S E : Type ℓ} ⦃key : Key K⦄ (parts : Parts K T W C S E) (Valid : W → Type 0)
    (stored : K → C → Option T) (lawful : IsLawful parts Valid stored) where
  abbrev pub Flushed : PebbleManager K T N W C S → PebbleManager K T N W C S → Type ℓ
  Flushed m m' =
      IsManaged parts Valid stored m'
      × ((j : K) → found parts stored j m' ≡ found parts stored j m)
      × ((j : K) → IsLoadable parts.cold j (found parts stored j m) m'.cold)

  abbrev pub Ends :
      (PebbleManager K T N W C S → Type ℓ)
      → Option (Result (PebbleManagerError K E) (Unit {0}) × PebbleManager K T N W C S)
      → Type ℓ
  Ends P out =
      (r : Result (PebbleManagerError K E) (Unit {0}) × PebbleManager K T N W C S) × (out ≡ some r)
      × OnSuccess parts Valid stored lawful P r

  -- Two steps that end.
  chained :
      (P Q : PebbleManager K T N W C S → Type ℓ)
      (f : PebbleManager K T N W C S
        → Option (Result (PebbleManagerError K E) (Unit {0}) × PebbleManager K T N W C S))
      (out : Option (Result (PebbleManagerError K E) (Unit {0}) × PebbleManager K T N W C S))
      → Ends P out
      → ((m : PebbleManager K T N W C S) → P m → Ends Q (f m))
      → Ends Q (go_on (λ _. f) out)
  chained P Q f out (r, runs, h) next = rw runs (go r h)
    where
      go :
          (r : Result (PebbleManagerError K E) (Unit {0}) × PebbleManager K T N W C S)
          → OnSuccess parts Valid stored lawful P r
          → Ends Q (go_on (λ _. f) (some r))
      go (ok _, m) h = next m h
      go (err e, m) h = ((err e, m), refl, tt)

  module _ (m : PebbleManager K T N W C S) (h : IsManaged parts Valid stored m) where
    -- All of fast memory is stored, beside what is in storage.
    pub record AllStored (m' : PebbleManager K T N W C S) : Type ℓ where
      pub managed : IsManaged parts Valid stored m'
      pub all : (j : K) → found parts stored j m' ≡ found parts stored j m
      pub held : (j : K) (x : T) → found parts stored j m' ≡ some x → stored j m'.cold ≡ some x

    dirty_stored :
        (m₁ : PebbleManager K T N W C S)
        → Stowed parts Valid stored lawful m m₁
        → Ends AllStored (flush_dirty parts m₁)
    unfolding flush_dirty
    dirty_stored m₁ s =
        let ids = sort_by_key (λ id. created (get id m₁.dag.nodes)) m₁.dirty in
        let (r, runs, c) =
          persist_dirty_lem parts Valid stored lawful ids (record m₁ { dirty = [] })
            (start ids
              (λ j. contains-sort_by_key (λ id. created (get id m₁.dag.nodes)) j m₁.dirty)) in
        (
          r,
          runs,
          OnSuccess-map parts Valid stored lawful
              (Cleaned parts Valid stored lawful (record m₁ { dirty = [] })) AllStored finish r c,
        )
      where
        start :
            (ids : List K)
            → ((j : K) → contains j ids ≡ contains j m₁.dirty)
            → Remaining parts Valid stored lawful ids (record m₁ { dirty = [] })
        start ids same = record {
          sound = record {
            ready = s.sound.ready;
            valid = s.sound.valid;
            backed = s.sound.backed;
            hot_apart = s.sound.hot_apart;
            warm_apart = s.sound.warm_apart;
            clean = λ j x there washed. s.sound.clean j x there (sym (same j) ∙ washed);
          };
          empty = s.empty;
        }

        finish :
            (m₂ : PebbleManager K T N W C S)
            → Cleaned parts Valid stored lawful (record m₁ { dirty = [] }) m₂
            → AllStored m₂
        finish m₂ c = record {
          managed = record {
            sound = record {
              ready = c.remaining.sound.ready;
              valid = c.remaining.sound.valid;
              backed = c.remaining.sound.backed;
              hot_apart = c.remaining.sound.hot_apart;
              warm_apart = c.remaining.sound.warm_apart;
              clean = λ j x there _. c.remaining.sound.clean j x there (unfold contains in refl);
            };
            unique = rw (c.red, s.red) h.unique;
            pos = rw (c.capacity, s.capacity) h.pos;
            fits = rw (c.red, s.red, c.capacity, s.capacity) h.fits;
            known = λ j unknown.
                c.all j
                ∙ s.all j
                ∙ h.known j
                    (subst (λ d. contains_key j d.nodes ≡ false) (c.graph ∙ s.graph) unknown);
          };
          all = λ j. c.all j ∙ s.all j;
          held = λ j x there. elim (Option-cases (get j m₂.red_pebbles)) [
            | inr (z, hot) ↦
                c.remaining.sound.clean j x (rw hot (rw hot at there)) (unfold contains in refl)
            | inl cool ↦ elim (Bool-cases (contains j m₂.blue_pebbles)) [
              | inl blue ↦ rw (cool, c.remaining.empty j, blue) at there
              | inr other ↦ cc (rw (cool, c.remaining.empty j, other) at there)
            ]
          ];
        }

    module _ (m₂ : PebbleManager K T N W C S) (a : AllStored m₂) (cold' : C)
        (runs : parts.cold.flush m₂.cold ≡ (ok tt, cold')) where
      same_stored : (j : K) → stored j cold' ≡ stored j m₂.cold
      same_stored j =
          subst (λ o. stored j o.1 ≡ stored j m₂.cold) runs (lawful.cold_laws.flush_lem j m₂.cold)

      loadable : (j : K) → IsLoadable parts.cold j (found parts stored j m) cold'
      loadable j = elim (Option-cases (found parts stored j m)) [
        | inl missing ↦ subst (λ o. IsLoadable parts.cold j o cold') (sym missing) tt
        | inr (x, there) ↦
            subst (λ o. IsLoadable parts.cold j o cold') (sym there)
              (subst (λ o. parts.cold.load j o.1 ≡ ok x) runs
                (lawful.cold_laws.load_lem j x m₂.cold (ap (λ o. o.0) runs)
                  (a.held j x (a.all j ∙ there))))
      ]

      committed : Ends (Flushed m) (flush_rest parts (ok tt, cold') m₂)
      committed =
          let (manifest', flushes, ready) =
            flush_manifest-IsReady parts.spout parts.default parts.max_deps parts.log_capacity
              lawful.capacity m₂.manifest a.managed.sound.ready in
          let same = recold_found parts Valid stored m₂ a.managed.sound cold' same_stored in
          let s = recold-IsSound parts Valid stored m₂ a.managed.sound cold' same_stored in
          rw flushes (
            (ok tt, record m₂ { cold = cold'; manifest = manifest' }),
            refl,
            (
              record {
                sound = record {
                  ready = ready;
                  valid = s.valid;
                  backed = s.backed;
                  hot_apart = s.hot_apart;
                  warm_apart = s.warm_apart;
                  clean = s.clean;
                };
                unique = a.managed.unique;
                pos = a.managed.pos;
                fits = a.managed.fits;
                known = λ j unknown. same j ∙ a.managed.known j unknown;
              },
              λ j. same j ∙ a.all j,
              loadable,
            ),
          )

    rest-Flushed :
        (m₂ : PebbleManager K T N W C S)
        → AllStored m₂
        → Ends (Flushed m) (flush_rest parts (parts.cold.flush m₂.cold) m₂)
    rest-Flushed m₂ a = go (parts.cold.flush m₂.cold).0 (parts.cold.flush m₂.cold).1 refl
      where
        go :
            (r : Result E (Unit {0})) (cold' : C)
            → parts.cold.flush m₂.cold ≡ (r, cold')
            → Ends (Flushed m) (flush_rest parts (r, cold') m₂)
        go (err e) cold' runs = ((err (flush_failed e), record m₂ { cold = cold' }), refl, tt)
        go (ok _) cold' runs = committed m₂ a cold' runs

    -- `flush` of a manager that satisfies the invariant ends; if it succeeds, the invariant holds,
    -- every checkpoint is there as before, and each of them can be loaded from cold storage.
    pub flush_manager_lem : Ends (Flushed m) (flush_manager parts m)
    unfolding flush_manager
    flush_manager_lem =
        chained (Stowed parts Valid stored lawful m) (Flushed m)
          (flush_dirty parts >> λ m₂. flush_rest parts (parts.cold.flush m₂.cold) m₂)
          (flush_warm parts m) (flush_warm_lem parts Valid stored lawful m h.sound)
          (λ m₁ s.
            chained AllStored (Flushed m) (λ m₂. flush_rest parts (parts.cold.flush m₂.cold) m₂)
              (flush_dirty parts m₁) (dirty_stored m₁ s) rest-Flushed)
