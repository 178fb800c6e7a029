-- ===== src/Pebble/Manager/Removal/Removing.antt =====
-- pebble/src/manager/pebble_manager.rs: `remove` as a whole.
use abmac_lib.Prelude.{
  ◌≡◌, refl, sym, ap, ◌∙◌, inl, inr, Bool, true, false, Option, none, some, arith, Bool-cases,
  none≢some,
}
use abmac_lib.Hash.{Key}
use abmac_lib.Hash.Sets.{insert, contains-remove, same-cases}
use abmac_lib.Pebble.Manifest.Ready.{record_tombstone-IsReady}
use abmac_lib.Pebble.Dag.Members.{remove_node-nodes}
use abmac_lib.Pebble.Tiers.{taken}
use abmac_lib.Pebble.Manager.{PebbleManager, Parts}
use abmac_lib.Pebble.Manager.Eviction.Found.{found, IsLawful, IsSound, IsAbsent}
use abmac_lib.Pebble.Manager.Access.Managed.{IsManaged}
use abmac_lib.Pebble.Manager.Removal.{
  Tier, hot, warm_tier, cold_tier, nowhere, take_out, forget, after_take,
}
use abmac_lib.Pebble.Manager.Removal
use abmac_lib.Pebble.Manager.Removal.Taken.{Taken, IsFound, Located, take_out_lem}

module _ {ℓ} {K T N W C S E : Type ℓ} ⦃key : Key K⦄ (parts : Parts K T W C S E) (Valid : W → Type 0)
    (stored : K → C → Option T) where
  -- What is in no tier need not be known as dirty.
  module _ (id : K) (m' : PebbleManager K T N W C S) (sound : IsSound parts Valid stored m')
      (absent : IsAbsent parts id m') where
    forget-IsSound : IsSound parts Valid stored (forget parts id m')
    unfolding forget
    forget-IsSound = record {
      ready = sound.ready;
      valid = sound.valid;
      backed = sound.backed;
      hot_apart = sound.hot_apart;
      warm_apart = sound.warm_apart;
      clean = λ j x there washed. elim (same-cases j id) [
        | inl (p, q) ↦ absurd (none≢some (rw (p, absent.0, absent.1) at there))
        | inr q ↦ sound.clean j x there (rw q at (sym (contains-remove j id m'.dirty) ∙ washed))
      ];
    }

    absent-found : found parts stored id m' ≡ none
    absent-found = rw (absent.0, absent.1, absent.2) refl

  module _ (lawful : IsLawful parts Valid stored) (id : K) (m : PebbleManager K T N W C S)
      (h : IsManaged parts Valid stored m) where
    Taken-IsManaged :
        (m' : PebbleManager K T N W C S)
        → Taken parts Valid stored id m m'
        → IsManaged parts Valid stored m'
    Taken-IsManaged m' t = record {
      sound = t.sound;
      unique = t.unique;
      pos = rw t.capacity h.pos;
      fits = omega (arith, t.fewer, t.capacity, h.fits);
      known =
          λ j unknown. t.all j ∙ ap (taken id j) (h.known j (rw t.graph at unknown)) ∙ taken-none j;
    }
      where
        taken-none : (j : K) → taken {T = T} id j none ≡ none
        taken-none j = elim (Bool-cases (key.same j id)) [ inl q ↦ rw q refl | inr q ↦ rw q refl ]

    forget-IsManaged :
        (m' : PebbleManager K T N W C S)
        → Taken parts Valid stored id m m'
        → IsManaged parts Valid stored (forget parts id m')
    unfolding forget
    forget-IsManaged m' t = record {
      sound = forget-IsSound id m' t.sound t.absent;
      unique = t.unique;
      pos = rw t.capacity h.pos;
      fits = omega (arith, t.fewer, t.capacity, h.fits);
      known = λ j unknown. elim (same-cases j id) [
        | inl (p, _) ↦ rw p (absent-found id m' t.sound t.absent)
        | inr q ↦ (Taken-IsManaged m' t).known j (sym (remove_node-nodes j id m'.dag q) ∙ unknown)
      ];
    }

    -- Whether something was removed, and what is left.
    abbrev pub Removed : Bool × PebbleManager K T N W C S → Type ℓ
    Removed (true, m') =
        IsManaged parts Valid stored m'
        × IsFound (found parts stored id m)
        × ((j : K) → found parts stored j m' ≡ taken id j (found parts stored j m))
    Removed (false, m') =
        IsManaged parts Valid stored m'
        × (found parts stored id m ≡ none)
        × ((j : K) → found parts stored j m' ≡ found parts stored j m)

    forgotten :
        (m' : PebbleManager K T N W C S)
        → Taken parts Valid stored id m m'
        → IsFound (found parts stored id m)
        → Removed (true, forget parts id m')
    unfolding forget
    forgotten m' t there = (forget-IsManaged m' t, there, t.all)

    after_take_lem :
        (t : Tier) (m' : PebbleManager K T N W C S)
        → Taken parts Valid stored id m m'
        → Located (found parts stored id m) t
        → (out : Bool × PebbleManager K T N W C S) × (after_take parts id (t, m') ≡ some out)
          × Removed out
    unfolding forget
    after_take_lem hot m' t there = (_, refl, forgotten m' t there)
    after_take_lem warm_tier m' t there = (_, refl, forgotten m' t there)
    after_take_lem nowhere m' t missing = (
      _,
      refl,
      (
        Taken-IsManaged m' t,
        missing,
        λ j. elim (same-cases j id) [
          | inl (p, q) ↦ t.all j ∙ rw (q, p, missing) refl
          | inr q ↦ t.all j ∙ rw q refl
        ],
      ),
    )
    after_take_lem cold_tier m' t there =
        let (manifest', runs, ready) =
          record_tombstone-IsReady parts.spout parts.default parts.max_deps parts.log_capacity
            lawful.capacity m'.manifest id t.sound.ready in
        let managed = forget-IsManaged m' t in
        (
          (
            true,
            record (forget parts id m') {
              manifest = manifest';
              tombstoned = insert id m'.tombstoned;
            },
          ),
          rw runs refl,
          (
            record {
              sound = record {
                ready = ready;
                valid = managed.sound.valid;
                backed = managed.sound.backed;
                hot_apart = managed.sound.hot_apart;
                warm_apart = managed.sound.warm_apart;
                clean = managed.sound.clean;
              };
              unique = managed.unique;
              pos = managed.pos;
              fits = managed.fits;
              known = managed.known;
            },
            there,
            t.all,
          ),
        )

    -- `remove` on a manager that satisfies the invariant ends and keeps the invariant, and tells
    -- whether there was a checkpoint; afterwards it is in no tier, and every other one is there as
    -- before.
    pub remove_lem :
        (out : Bool × PebbleManager K T N W C S) × (Removal.remove parts id m ≡ some out)
        × Removed out
    unfolding Removal.remove
    remove_lem =
        let (t, located) = take_out_lem parts Valid stored lawful id m h in
        after_take_lem (take_out parts id m).0 (take_out parts id m).1 t located
