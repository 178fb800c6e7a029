-- ===== src/Pebble/Manager/Eviction/Cooling.antt =====
-- pebble/src/manager/eviction.rs: a manager with the same checkpoints, and one without a checkpoint
-- that leaves fast memory.
use abmac_lib.Prelude.{
  ◌≤◌, ◌≡◌, refl, sym, ◌∙◌, inl, inr, true, false, Option, none, some, length, arith, Bool-cases,
}
use abmac_lib.Hash.{Key}
use abmac_lib.Hash.Sets.{contains, same-cases, same_self}
use abmac_lib.Hash.Maps.{get, delete, get-delete, IsUnique}
use abmac_lib.Pebble.Tiers.{added}
use abmac_lib.Pebble.Manager.{PebbleManager, Parts}
use abmac_lib.Pebble.Manager.Eviction.Found.{found, IsSound, IsAbsent, IsSafe}

module _ {ℓ} {K T N W C S E : Type ℓ} ⦃key : Key K⦄ (parts : Parts K T W C S E) (Valid : W → Type 0)
    (stored : K → C → Option T) where
  -- The manager is sound, holds the same checkpoints, and no more of them in fast memory.
  pub record Same (m m' : PebbleManager K T N W C S) : Type ℓ where
    pub sound : IsSound parts Valid stored m'
    pub unique : IsUnique m'.red_pebbles
    pub all : (j : K) → found parts stored j m' ≡ found parts stored j m
    pub storage : (j : K) → contains j m.blue_pebbles ≡ true → contains j m'.blue_pebbles ≡ true
    pub aside :
        (j : K) (z : T)
        → found parts stored j m ≡ none
        → IsSafe parts stored j z m
        → IsSafe parts stored j z m'
    pub graph : m'.dag ≡ m.dag
    pub capacity : m'.hot_capacity ≡ m.hot_capacity
    pub strategy : m'.strategy ≡ m.strategy
    pub fewer : length m'.red_pebbles ≤ length m.red_pebbles

  pub Same-refl :
      (m : PebbleManager K T N W C S)
      → IsSound parts Valid stored m
      → IsUnique m.red_pebbles
      → Same m m
  Same-refl m sound unique = record {
    sound = sound;
    unique = unique;
    all = λ j. refl;
    storage = λ j h. h;
    aside = λ j z _ safe. safe;
    graph = refl;
    capacity = refl;
    strategy = refl;
    fewer = omega arith;
  }

  pub Same-trans : (m m' m'' : PebbleManager K T N W C S) → Same m m' → Same m' m'' → Same m m''
  Same-trans m m' m'' a b = record {
    sound = b.sound;
    unique = b.unique;
    all = λ j. b.all j ∙ a.all j;
    storage = λ j h. b.storage j (a.storage j h);
    aside = λ j z missing safe. b.aside j z (a.all j ∙ missing) (a.aside j z missing safe);
    graph = b.graph ∙ a.graph;
    capacity = b.capacity ∙ a.capacity;
    strategy = b.strategy ∙ a.strategy;
    fewer = omega (arith, a.fewer, b.fewer);
  }

  -- A checkpoint on its way out of fast memory.
  module _ (id : K) (x : T) (m : PebbleManager K T N W C S) (sound : IsSound parts Valid stored m)
      (there : get id m.red_pebbles ≡ some x) where
    abbrev pub cooled : PebbleManager K T N W C S
    cooled = record m { red_pebbles = delete id m.red_pebbles }

    pub cooled-IsAbsent : IsAbsent parts id cooled
    cooled-IsAbsent = (
      get-delete id id m.red_pebbles ∙ rw (same_self id) refl,
      (sound.hot_apart id x there).0,
      (sound.hot_apart id x there).1,
    )

    still_hot :
        (j : K) (z : T) → get j (delete id m.red_pebbles) ≡ some z → get j m.red_pebbles ≡ some z
    still_hot j z h = elim (Bool-cases (key.same j id)) [
      | inl q ↦ cc (rw q at (sym (get-delete j id m.red_pebbles) ∙ h))
      | inr q ↦ rw q at (sym (get-delete j id m.red_pebbles) ∙ h)
    ]

    pub cooled-IsSound : IsSound parts Valid stored cooled
    cooled-IsSound = record {
      ready = sound.ready;
      valid = sound.valid;
      backed = sound.backed;
      hot_apart = λ j z h. sound.hot_apart j z (still_hot j z h);
      warm_apart = sound.warm_apart;
      clean = λ j z h washed. elim (same-cases j id) [
        | inl (p, q) ↦
            cc (rw (get-delete j id m.red_pebbles, q, p, (sound.hot_apart id x there).0) at h)
        | inr q ↦ sound.clean j z (rw (get-delete j id m.red_pebbles, q) at h) washed
      ];
    }

    pub cooled-IsSafe : IsSafe parts stored id x cooled
    cooled-IsSafe washed = sound.clean id x (rw there refl) washed

    pub cooled-found : (j : K) → added id x j (found parts stored j cooled) ≡ found parts stored j m
    cooled-found j = elim (same-cases j id) [
      | inl (p, q) ↦ rw (q, p, there) refl
      | inr q ↦ rw (q, get-delete j id m.red_pebbles, q) refl
    ]

    pub cooled_missing :
        (j : K)
        → found parts stored j m ≡ none
        → (key.same j id ≡ false) × (found parts stored j cooled ≡ none)
    cooled_missing j missing = elim (Bool-cases (key.same j id)) [
      | inl q ↦ cc (rw q at (cooled-found j ∙ missing))
      | inr q ↦ (q, rw q at (cooled-found j ∙ missing))
    ]
