-- ===== src/Pebble/Manager/Access/Loading.antt =====
-- pebble/src/manager/pebble_manager.rs: `load` finds a checkpoint in whichever tier it is in. The
-- warm tier can take an insertion back.
use abmac_lib.Prelude.{
  ◌≡◌, refl, sym, ap, ◌∙◌, subst, inl, inr, true, false, Option, none, some, Result, ok, err,
  Bool-cases,
}
use abmac_lib.Hash.{Key}
use abmac_lib.Hash.Sets.{contains, same-cases, same_self}
use abmac_lib.Hash.Maps.{get, contains_key, contains_key-get}
use abmac_lib.Pebble.Dag.{mark_accessed}
use abmac_lib.Pebble.Dag.Members.{mark_accessed-nodes}
use abmac_lib.Pebble.Tiers.{IsBuffer, taken}
use abmac_lib.Pebble.Manager.{PebbleManager, PebbleManagerError, never_added, flush_failed, Parts}
use abmac_lib.Pebble.Manager.Eviction.Found.{found, IsLawful, IsSound}
use abmac_lib.Pebble.Manager.Access.{promote_warm, after_flush, load_cold, load_below, load}
use abmac_lib.Pebble.Manager.Access.Managed.{IsManaged, frame}
use abmac_lib.Pebble.Manager.Access.Promotion.{recold-IsSound, recold_found, rewarm-IsSound}
use abmac_lib.Pebble.Manager.Access.Arrival.{Loaded, from_warm, from_storage}

module _ {ℓ} {K T N W C S E : Type ℓ} ⦃key : Key K⦄ (parts : Parts K T W C S E) (Valid : W → Type 0)
    (stored : K → C → Option T) (lawful : IsLawful parts Valid stored)
    (buffer : IsBuffer parts.warm Valid) (id : K) (m : PebbleManager K T N W C S)
    (h : IsManaged parts Valid stored m) where
  abbrev Ends : Option (Result (PebbleManagerError K E) T × PebbleManager K T N W C S) → Type ℓ
  Ends out =
      (r : Result (PebbleManagerError K E) T × PebbleManager K T N W C S) × (out ≡ some r)
      × Loaded parts Valid stored lawful buffer id m r

  -- Nothing is lost by a change that leaves all that can be found.
  unchanged :
      (e : PebbleManagerError K E) (m' : PebbleManager K T N W C S)
      → IsSound parts Valid stored m'
      → ((j : K) → found parts stored j m' ≡ found parts stored j m)
      → m'.red_pebbles ≡ m.red_pebbles
      → m'.hot_capacity ≡ m.hot_capacity
      → m'.dag ≡ m.dag
      → Loaded parts Valid stored lawful buffer id m (err e, m')
  unchanged e m' sound same red capacity graph = (
    record {
      sound = sound;
      unique = rw red h.unique;
      pos = rw capacity h.pos;
      fits = rw (red, capacity) h.fits;
      known = λ j unknown.
          same j ∙ h.known j (subst (λ d. contains_key j d.nodes ≡ false) graph unknown);
    },
    λ j. ap (taken id j) (same j),
  )

  -- It is not in fast memory; `warm'` is the warm tier without it.
  module _ (cool : get id m.red_pebbles ≡ none) (warm' : W) (valid : Valid warm')
      (left : (j : K) → parts.warm.get j warm' ≡ taken id j (parts.warm.get j m.warm)) where
    abbrev below : PebbleManager K T N W C S
    below = record m { warm = warm' }

    below-IsSound : IsSound parts Valid stored below
    below-IsSound = rewarm-IsSound parts Valid stored id m h.sound warm' valid left

    below_warm : (x : T) → parts.warm.get id m.warm ≡ some x → Ends (promote_warm parts id x below)
    below_warm x warm_there =
        from_warm parts Valid stored lawful buffer id m h x below below-IsSound h.unique h.pos
          h.fits (rw (cool, warm_there) refl)
          (λ j. elim (same-cases j id) [
            | inl (p, q) ↦ rw (q, p, cool, warm_there) refl
            | inr q ↦ rw (q, left j, q) refl
          ])
          refl (rw (cool, left id, same_self id, h.sound.warm_apart id x warm_there) refl)
          (λ washed. h.sound.clean id x (rw cool warm_there) washed)

    module _ (not_warm : parts.warm.get id m.warm ≡ none) where
      below-found : (j : K) → found parts stored j below ≡ found parts stored j m
      below-found j = elim (same-cases j id) [
        | inl (p, q) ↦ rw (left j, q, p, not_warm) refl
        | inr q ↦ rw (left j, q) refl
      ]

      after_flush_lem :
          (x : T) (r : Result E (Unit {0})) (cold' : C)
          → parts.cold.flush m.cold ≡ (r, cold')
          → contains id m.blue_pebbles ≡ true
          → stored id m.cold ≡ some x
          → ((j : K) → stored j cold' ≡ stored j m.cold)
          → Ends (after_flush parts id (r, cold') below)
      after_flush_lem x (err e) cold' runs blue there same = (
        (err (flush_failed e), record below { cold = cold' }),
        refl,
        unchanged (flush_failed e) (record below { cold = cold' })
            (recold-IsSound parts Valid stored below below-IsSound cold' same)
            (λ j. recold_found parts Valid stored below below-IsSound cold' same j ∙ below-found j)
            refl refl refl,
      )
      after_flush_lem x (ok _) cold' runs blue there same = rw loads (
          from_storage parts Valid stored lawful buffer id m h x flushed
            (recold-IsSound parts Valid stored below below-IsSound cold' same) h.unique h.pos h.fits
            here
            (λ j. elim (same-cases j id) [
              | inl (p, q) ↦ rw q (sym (subst (λ k. found parts stored k m ≡ some x) (sym p) here))
              | inr q ↦ rw q (all j)
            ])
            refl blue (all id ∙ here))
        where
          flushed : PebbleManager K T N W C S
          flushed = record below { cold = cold' }

          all : (j : K) → found parts stored j flushed ≡ found parts stored j m
          all j = recold_found parts Valid stored below below-IsSound cold' same j ∙ below-found j

          here : found parts stored id m ≡ some x
          here = rw (cool, not_warm, blue) there

          loads : parts.cold.load id cold' ≡ ok x
          loads =
              subst (λ o. parts.cold.load id o.1 ≡ ok x) runs
                (lawful.cold_laws.load_lem id x m.cold (ap (λ o. o.0) runs) there)

      below_cold : Ends (load_cold parts id below)
      unfolding load_cold
      below_cold = elim (Bool-cases (contains id m.blue_pebbles)) [
        | inr missing ↦ (
          (err (never_added id), below),
          rw missing refl,
          unchanged (never_added id) below below-IsSound below-found refl refl refl,
        )
        | inl blue ↦
            let (x, there) = h.sound.backed id blue in
            rw blue (
              after_flush_lem x (parts.cold.flush m.cold).0 (parts.cold.flush m.cold).1 refl blue
                there (λ j. lawful.cold_laws.flush_lem j m.cold))
      ]

    below_lem :
        (o : Option T) → o ≡ parts.warm.get id m.warm → Ends (load_below parts id (o, warm') m)
    below_lem none e = below_cold (sym e)
    below_lem (some x) e = below_warm x (sym e)

  -- Over tiers that keep what they are given, of which the warm one can take an insertion back
  -- (`IsBuffer`, as `WarmCache` can and `NoWarm` cannot), `load` on a manager that satisfies the
  -- invariant ends and keeps the invariant. If it succeeds, it returns the checkpoint that was
  -- there under the identifier, which is in fast memory afterwards, and every checkpoint is there
  -- as before; if it fails, every other checkpoint is there as before.
  pub load_lem :
      (r : Result (PebbleManagerError K E) T × PebbleManager K T N W C S) × (load parts id m
        ≡ some r)
      × Loaded parts Valid stored lawful buffer id m r
  unfolding load
  load_lem = elim (contains_key-get id m.red_pebbles) [
    | inl (x, there, hot) ↦ (
      (ok x, record m { dag = mark_accessed id m.dag }),
      rw (hot, there) refl,
      (
        record {
          sound =
              frame parts Valid stored m (mark_accessed id m.dag) m.hot_capacity m.checkpoints_added
                m.io_reads m.warm_hits m.cold_loads m.branches h.sound;
          unique = h.unique;
          pos = h.pos;
          fits = h.fits;
          known = λ j unknown. h.known j (sym (mark_accessed-nodes j id m.dag) ∙ unknown);
        },
        rw there refl,
        there,
        λ j. refl,
      ),
    )
    | inr (cool, absent) ↦ rw absent (
        below_lem cool (parts.warm.remove id m.warm).1
          (lawful.warm_laws.remove_valid id m.warm h.sound.valid)
          (λ j. lawful.warm_laws.remove_lem id j m.warm h.sound.valid)
          (parts.warm.remove id m.warm).0 (lawful.warm_laws.remove_found id m.warm h.sound.valid))
  ]
