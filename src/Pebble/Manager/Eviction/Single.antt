-- ===== src/Pebble/Manager/Eviction/Single.antt =====
-- pebble/src/manager/eviction.rs: `evict_single` over a warm tier that can take an insertion back.
-- What overflows the warm tier is in storage afterwards; if it cannot be stored, all is where it was.
-- Lossy is about a warm tier that cannot.
use abmac_lib.Prelude.{◌≡◌, refl, ap, ◌∙◌, inl, inr, false, Option, none, some, Result, ok, err}
use abmac_lib.Hash.{Key}
use abmac_lib.Hash.Sets.{same_flip, same_self}
use abmac_lib.Hash.Maps.{put}
use abmac_lib.Pebble.Tiers.{WarmTier, IsWarm, IsBuffer, Inserted, added, taken}
use abmac_lib.Pebble.Manager.{PebbleManager, PebbleManagerError, Parts}
use abmac_lib.Pebble.Manager.Eviction.{settle, spill, evict_single}
use abmac_lib.Pebble.Manager.Eviction.Found.{
  IsLawful, IsSound, IsAbsent, IsSafe, Keeps, Persisted, persist_to_cold_lem,
}
use abmac_lib.Pebble.Manager.Eviction.Moves.{stored-Keeps, restored_Keeps, kept_Keeps}

Inserted-none {ℓ} :
    {K T W : Type ℓ} ⦃key : Key K⦄ (warm : WarmTier K T W) (id : K) (item : T) (w : W)
    (out : Option (K × T) × W)
    → out.0 ≡ none
    → Inserted warm id item w out
    → (j : K) → warm.get j out.1 ≡ added id item j (warm.get j w)
Inserted-none warm id item w (none, w') e h = h
Inserted-none warm id item w (some p, w') e h = cc

module _ {ℓ} {K T N W C S E : Type ℓ} ⦃key : Key K⦄ (parts : Parts K T W C S E) (Valid : W → Type 0)
    (stored : K → C → Option T) (lawful : IsLawful parts Valid stored)
    (buffer : IsBuffer parts.warm Valid) where
  -- No checkpoint is missing, be it that the eviction succeeded or not. If it did not, the item is in
  -- fast memory again.
  abbrev pub Evicted :
      K
      → T
      → PebbleManager K T N W C S
      → Result (PebbleManagerError K E) (Unit {0}) × PebbleManager K T N W C S
      → Type ℓ
  Evicted id item m (ok _, m') =
      Keeps parts Valid stored id item m m' × (m'.red_pebbles ≡ m.red_pebbles)
  Evicted id item m (err _, m') =
      Keeps parts Valid stored id item m m' × (m'.red_pebbles ≡ put id item m.red_pebbles)

  module _ (id : K) (item : T) (m : PebbleManager K T N W C S)
      (sound : IsSound parts Valid stored m) (absent : IsAbsent parts id m)
      (safe : IsSafe parts stored id item m) where
    settled :
        (o : K) (y : T) (warm' : W)
        → parts.warm.insert id item m.warm ≡ (some (o, y), warm')
        → Inserted parts.warm id item m.warm (some (o, y), warm')
        → Valid warm'
        → (r : Result (PebbleManagerError K E) (Unit {0}) × PebbleManager K T N W C S)
        → Persisted parts Valid stored o y (record m { warm = warm' }) r
        → Evicted id item m (settle parts id o y r)
    settled o y warm' runs effect valid r (cold', manifest', writes, ready, outcome) =
        elim outcome [
          | inl (e, grown) ↦ rw e (
            stored-Keeps parts Valid stored lawful id o item y m sound absent safe warm' effect
                cold' grown manifest' ready valid writes,
            refl,
          )
          | inr (_, e, unchanged) ↦
              rw (e, recovered)
                (
                  restored_Keeps parts Valid stored lawful id o item y m sound absent safe warm'
                      effect apart _ refilled cold' unchanged manifest' ready
                      (laws.insert_valid o y _ (laws.remove_valid id warm' valid)) writes,
                  refl,
                )
        ]
      where
        laws : IsWarm parts.warm Valid
        laws = lawful.warm_laws

        apart : key.same o id ≡ false
        apart = buffer.other id o item y m.warm warm' sound.valid absent.1 runs

        recovered : (parts.warm.remove id warm').0 ≡ some item
        recovered =
            laws.remove_found id warm' valid
            ∙ rw (effect.1 id, same_flip o id apart, same_self id) refl

        refilled :
            (j : K)
            → parts.warm.get j (parts.warm.insert o y (parts.warm.remove id warm').1).1
              ≡ added o y j (taken id j (parts.warm.get j warm'))
        refilled j =
            Inserted-none parts.warm o y _ _
              (buffer.restores id o item y m.warm warm' sound.valid absent.1 runs)
              (laws.insert_lem o y _ (laws.remove_valid id warm' valid)) j
            ∙ ap (added o y j) (laws.remove_lem id j warm' valid)

    spilled :
        (overflow : Option (K × T)) (warm' : W)
        → parts.warm.insert id item m.warm ≡ (overflow, warm')
        → Inserted parts.warm id item m.warm (overflow, warm')
        → Valid warm'
        → (r : Result (PebbleManagerError K E) (Unit {0}) × PebbleManager K T N W C S) × (spill
              parts id overflow
              (record m { warm = warm' })
            ≡ some r)
          × Evicted id item m r
    spilled none warm' runs effect valid = (
      (ok tt, record m { warm = warm' }),
      refl,
      (kept_Keeps parts Valid stored lawful id item m sound absent safe warm' effect valid, refl),
    )
    spilled (some (o, y)) warm' runs effect valid =
        let (r, persists, persisted) =
          persist_to_cold_lem parts Valid stored lawful o y (record m { warm = warm' })
            sound.ready in
        (settle parts id o y r, rw persists refl, settled o y warm' runs effect valid r persisted)

    -- `evict_single`
    pub evict_single_lem :
        (r : Result (PebbleManagerError K E) (Unit {0}) × PebbleManager K T N W C S) × (evict_single
            parts id item m
          ≡ some r)
        × Evicted id item m r
    unfolding evict_single
    evict_single_lem =
        spilled (parts.warm.insert id item m.warm).0 (parts.warm.insert id item m.warm).1 refl
          (lawful.warm_laws.insert_lem id item m.warm sound.valid)
          (lawful.warm_laws.insert_valid id item m.warm sound.valid)
