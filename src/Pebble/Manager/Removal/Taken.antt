-- ===== src/Pebble/Manager/Removal/Taken.antt =====
-- pebble/src/manager/pebble_manager.rs: `remove` takes a checkpoint out of the tier it is in.
use abmac_lib.Prelude.{
  ◌≤◌, ◌≡◌, refl, sym, ap, ◌∙◌, subst, inl, inr, Bool, true, false, Option, none, some, length,
  if◌then◌else◌, arith, Bool-cases,
}
use abmac_lib.Hash.{Key}
use abmac_lib.Hash.Sets.{contains, remove, contains-remove, same-cases, same_self, true≢false}
use abmac_lib.Hash.Maps.{
  get, delete, contains_key-get, get-delete, IsUnique, delete-IsUnique, length-delete_le,
}
use abmac_lib.Pebble.Tiers.{taken}
use abmac_lib.Pebble.Manager.{PebbleManager, Parts}
use abmac_lib.Pebble.Manager.Eviction.Found.{found, IsLawful, IsSound, IsAbsent}
use abmac_lib.Pebble.Manager.Eviction.Cooling.{cooled-IsSound}
use abmac_lib.Pebble.Manager.Access.Managed.{IsManaged}
use abmac_lib.Pebble.Manager.Access.Promotion.{rewarm-IsSound}
use abmac_lib.Pebble.Manager.Removal.{
  Tier, hot, warm_tier, cold_tier, nowhere, take_below, take_out,
}

-- Whether there was one.
abbrev pub IsFound {ℓ} : {T : Type ℓ} → Option T → Type ℓ
IsFound {T = T} o = (x : T) × (o ≡ some x)

abbrev pub Located {ℓ} : {T : Type ℓ} → Option T → Tier → Type ℓ
Located o nowhere = o ≡ none
Located o hot = IsFound o
Located o warm_tier = IsFound o
Located o cold_tier = IsFound o

module _ {ℓ} {K T N W C S E : Type ℓ} ⦃key : Key K⦄ (parts : Parts K T W C S E) (Valid : W → Type 0)
    (stored : K → C → Option T) where
  -- The checkpoint is in no tier any more; the others are where they were.
  pub record Taken (id : K) (m m' : PebbleManager K T N W C S) : Type ℓ where
    pub sound : IsSound parts Valid stored m'
    pub unique : IsUnique m'.red_pebbles
    pub fewer : length m'.red_pebbles ≤ length m.red_pebbles
    pub absent : IsAbsent parts id m'
    pub all : (j : K) → found parts stored j m' ≡ taken id j (found parts stored j m)
    pub graph : m'.dag ≡ m.dag
    pub capacity : m'.hot_capacity ≡ m.hot_capacity

  module _ (lawful : IsLawful parts Valid stored) (id : K) (m : PebbleManager K T N W C S)
      (h : IsManaged parts Valid stored m) where
    abbrev Outcome : Tier × PebbleManager K T N W C S → Type ℓ
    Outcome (t, m') = Taken id m m' × Located (found parts stored id m) t

    from_hot :
        (x : T)
        → get id m.red_pebbles ≡ some x
        → Outcome (hot, record m { red_pebbles = delete id m.red_pebbles })
    from_hot x there = (
      record {
        sound = cooled-IsSound parts Valid stored id x m h.sound there;
        unique = delete-IsUnique id m.red_pebbles h.unique;
        fewer = length-delete_le id m.red_pebbles;
        absent = (get-delete id id m.red_pebbles ∙ rw (same_self id) refl, apart.0, apart.1);
        all = λ j. elim (same-cases j id) [
          | inl (p, q) ↦ rw (get-delete j id m.red_pebbles, q, p, apart.0, apart.1) refl
          | inr q ↦ rw (get-delete j id m.red_pebbles, q) refl
        ];
        graph = refl;
        capacity = refl;
      },
      (x, rw there refl),
    )
      where
        apart : (parts.warm.get id m.warm ≡ none) × (contains id m.blue_pebbles ≡ false)
        apart = h.sound.hot_apart id x there

    -- Not in fast memory; `warm'` is the warm tier without it.
    module _ (cool : get id m.red_pebbles ≡ none) (warm' : W) (valid : Valid warm')
        (left : (j : K) → parts.warm.get j warm' ≡ taken id j (parts.warm.get j m.warm)) where
      gone : parts.warm.get id warm' ≡ none
      gone = left id ∙ rw (same_self id) refl

      from_warm :
          (x : T)
          → parts.warm.get id m.warm ≡ some x
          → Outcome (warm_tier, record m { warm = warm' })
      from_warm x there = (
        record {
          sound = rewarm-IsSound parts Valid stored id m h.sound warm' valid left;
          unique = h.unique;
          fewer = omega arith;
          absent = (cool, gone, h.sound.warm_apart id x there);
          all = λ j. elim (same-cases j id) [
            | inl (p, q) ↦
                rw (q, p, cool, left id, same_self id, h.sound.warm_apart id x there) refl
            | inr q ↦ rw (q, left j, q) refl
          ];
          graph = refl;
          capacity = refl;
        },
        (x, rw (cool, there) refl),
      )

      missing :
          parts.warm.get id m.warm ≡ none
          → contains id m.blue_pebbles ≡ false
          → Outcome (nowhere, record m { warm = warm' })
      missing not_warm not_blue = (
        record {
          sound = rewarm-IsSound parts Valid stored id m h.sound warm' valid left;
          unique = h.unique;
          fewer = omega arith;
          absent = (cool, gone, not_blue);
          all = λ j. elim (same-cases j id) [
            | inl (p, q) ↦ rw (q, p, cool, gone, not_blue) refl
            | inr q ↦ rw (q, left j, q) refl
          ];
          graph = refl;
          capacity = refl;
        },
        rw (cool, not_warm, not_blue) refl,
      )

      from_cold :
          parts.warm.get id m.warm ≡ none
          → contains id m.blue_pebbles ≡ true
          → Outcome (cold_tier, record m { warm = warm'; blue_pebbles = remove id m.blue_pebbles })
      from_cold not_warm blue = (
        record {
          sound = record {
            ready = s.ready;
            valid = s.valid;
            backed = λ j b. s.backed j (still_blue j b);
            hot_apart =
                λ j x there. ((s.hot_apart j x there).0, not_blue j (s.hot_apart j x there).1);
            warm_apart = λ j x there. not_blue j (s.warm_apart j x there);
            clean = s.clean;
          };
          unique = h.unique;
          fewer = omega arith;
          absent = (cool, gone, contains-remove id id m.blue_pebbles ∙ rw (same_self id) refl);
          all = λ j. elim (same-cases j id) [
            | inl (p, q) ↦ rw (contains-remove j id m.blue_pebbles, q, p, cool, gone) refl
            | inr q ↦ rw (contains-remove j id m.blue_pebbles, q, left j, q) refl
          ];
          graph = refl;
          capacity = refl;
        },
        (let (x, there) = h.sound.backed id blue in (x, rw (cool, not_warm, blue, there) refl)),
      )
        where
          s : IsSound parts Valid stored (record m { warm = warm' })
          s = rewarm-IsSound parts Valid stored id m h.sound warm' valid left

          still_blue :
              (j : K)
              → contains j (remove id m.blue_pebbles) ≡ true
              → contains j m.blue_pebbles ≡ true
          still_blue j b = elim (Bool-cases (key.same j id)) [
            | inl q ↦ absurd (true≢false (sym b ∙ contains-remove j id m.blue_pebbles ∙ rw q refl))
            | inr q ↦ rw q at (sym (contains-remove j id m.blue_pebbles) ∙ b)
          ]

          not_blue :
              (j : K)
              → contains j m.blue_pebbles ≡ false
              → contains j (remove id m.blue_pebbles) ≡ false
          not_blue j b = elim (Bool-cases (key.same j id)) [
            | inl q ↦ contains-remove j id m.blue_pebbles ∙ rw q refl
            | inr q ↦ contains-remove j id m.blue_pebbles ∙ rw q b
          ]

      take_below_lem :
          (o : Option T) → o ≡ parts.warm.get id m.warm → Outcome (take_below parts id (o, warm') m)
      take_below_lem (some x) there = from_warm x (sym there)
      take_below_lem none there = go (contains id m.blue_pebbles) refl
        where
          go :
              (b : Bool)
              → contains id m.blue_pebbles ≡ b
              → Outcome (
                  if b
                  then (
                    cold_tier,
                    record m { warm = warm'; blue_pebbles = remove id m.blue_pebbles },
                  )
                  else (nowhere, record m { warm = warm' }))
          go true blue = from_cold (sym there) blue
          go false not_blue = missing (sym there) not_blue

    pub take_out_lem : Outcome (take_out parts id m)
    unfolding take_out
    take_out_lem = elim (contains_key-get id m.red_pebbles) [
      | inl (x, there, q) ↦
          subst Outcome (ap (λ b. if b then taken_hot else below) (sym q)) (from_hot x there)
      | inr (cool, q) ↦ subst Outcome (ap (λ b. if b then taken_hot else below) (sym q)) (
          take_below_lem cool (parts.warm.remove id m.warm).1
            (lawful.warm_laws.remove_valid id m.warm h.sound.valid)
            (λ j. lawful.warm_laws.remove_lem id j m.warm h.sound.valid)
            (parts.warm.remove id m.warm).0 (lawful.warm_laws.remove_found id m.warm h.sound.valid))
    ]
      where
        taken_hot : Tier × PebbleManager K T N W C S
        taken_hot = (hot, record m { red_pebbles = delete id m.red_pebbles })

        below : Tier × PebbleManager K T N W C S
        below = take_below parts id (parts.warm.remove id m.warm) m
