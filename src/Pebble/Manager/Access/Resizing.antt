-- ===== src/Pebble/Manager/Access/Resizing.antt =====
-- pebble/src/manager/pebble_manager.rs: `resize_hot` ends, over a warm tier that can take an
-- insertion back.
use abmac_lib.Prelude.{
  ℕ, zero, suc, ◌≤◌, ◌≡◌, refl, ◌∙◌, subst, inl, inr, false, Option, some, length, max, Result, ok,
  err, arith, ltb, Bool-cases, ltb→lt, ltb→le, dec_lt,
}
use abmac_lib.Hash.{Key}
use abmac_lib.Hash.Maps.{contains_key, IsUnique}
use abmac_lib.Pebble.Tiers.{IsBuffer}
use abmac_lib.Pebble.Manager.{PebbleManager, PebbleManagerError, Parts, go_on}
use abmac_lib.Pebble.Manager.Eviction.Found.{found, IsLawful, IsSound}
use abmac_lib.Pebble.Manager.Eviction.Cooling.{Same, Same-refl, Same-trans}
use abmac_lib.Pebble.Manager.Eviction.Several.{Freed, evict_red_pebbles_lem}
use abmac_lib.Pebble.Manager.Access.{shrink, resize_hot}
use abmac_lib.Pebble.Manager.Access.Managed.{IsManaged, frame}

module _ {ℓ} {K T N W C S E : Type ℓ} ⦃key : Key K⦄ (parts : Parts K T W C S E) (Valid : W → Type 0)
    (stored : K → C → Option T) (lawful : IsLawful parts Valid stored)
    (buffer : IsBuffer parts.warm Valid) where
  -- The loop ends with fast memory within its capacity, or with an error; it loses nothing.
  abbrev Shrunk :
      PebbleManager K T N W C S
      → Result (PebbleManagerError K E) (Unit {0}) × PebbleManager K T N W C S
      → Type ℓ
  Shrunk m (ok _, m') = Same parts Valid stored m m' × (length m'.red_pebbles ≤ m'.hot_capacity)
  Shrunk m (err _, m') = Same parts Valid stored m m'

  abbrev Ends :
      PebbleManager K T N W C S
      → Option (Result (PebbleManagerError K E) (Unit {0}) × PebbleManager K T N W C S)
      → Type ℓ
  Ends m out =
      (r : Result (PebbleManagerError K E) (Unit {0}) × PebbleManager K T N W C S) × (out ≡ some r)
      × Shrunk m r

  further :
      (m m' : PebbleManager K T N W C S)
      → Same parts Valid stored m m'
      → (out : Option (Result (PebbleManagerError K E) (Unit {0}) × PebbleManager K T N W C S))
      → Ends m' out
      → Ends m out
  further m m' same out ((err e, m''), runs, s) =
      (_, runs, Same-trans parts Valid stored m m' m'' same s)
  further m m' same out ((ok _, m''), runs, (s, fits)) =
      (_, runs, (Same-trans parts Valid stored m m' m'' same s, fits))

  shrink_lem :
      (fuel : ℕ) (m : PebbleManager K T N W C S)
      → IsSound parts Valid stored m
      → IsUnique m.red_pebbles
      → length m.red_pebbles ≤ fuel
      → Ends m (shrink parts fuel m)
  unfolding shrink
  shrink_lem zero m sound unique few =
      elim (Bool-cases (ltb m.hot_capacity (length m.red_pebbles))) [
        | inl more ↦ absurd (omega (arith, ltb→lt _ _ more))
        | inr fits ↦
            ((ok tt, m), rw fits refl, (Same-refl parts Valid stored m sound unique, omega arith))
      ]
  shrink_lem (suc fuel) m sound unique few =
      elim (Bool-cases (ltb m.hot_capacity (length m.red_pebbles))) [
        | inl more ↦
            let (r, runs, freed) =
              evict_red_pebbles_lem parts Valid stored lawful buffer m sound unique in
            rw (more, runs) (go r freed (λ m' s u le. shrink_lem fuel m' s u le))
        | inr fits ↦ (
          (ok tt, m),
          rw fits refl,
          (Same-refl parts Valid stored m sound unique, ltb→le _ _ fits),
        )
      ]
    where
      go :
          (r : Result (PebbleManagerError K E) ℕ × PebbleManager K T N W C S)
          → Freed parts Valid stored lawful buffer m r
          → ((m' : PebbleManager K T N W C S)
              → IsSound parts Valid stored m'
              → IsUnique m'.red_pebbles
              → length m'.red_pebbles ≤ fuel
              → Ends m' (shrink parts fuel m'))
          → Ends m (go_on (λ _ m'. shrink parts fuel m') (some r))
      go (err e, m') same next = ((err e, m'), refl, same)
      go (ok n, m') (same, balance, some_left) next = further m m' same (shrink parts fuel m') (
          next m' same.sound same.unique (elim (dec_lt 0 (length m'.red_pebbles)) [
            | yes left ↦ omega (arith, some_left left, few, balance)
            | no nothing ↦ omega arith
          ]))

  -- What comes of a new capacity.
  abbrev pub Resized :
      ℕ
      → PebbleManager K T N W C S
      → Result (PebbleManagerError K E) (Unit {0}) × PebbleManager K T N W C S
      → Type ℓ
  Resized n m (ok _, m') =
      IsManaged parts Valid stored m'
      × (m'.hot_capacity ≡ max n 1)
      × ((j : K) → found parts stored j m' ≡ found parts stored j m)
  Resized n m (err _, m') =
      IsSound parts Valid stored m' × ((j : K) → found parts stored j m' ≡ found parts stored j m)

  -- Over tiers that keep what they are given, of which the warm one can take an insertion back
  -- (`IsBuffer`, as `WarmCache` can and `NoWarm` cannot), `resize_hot` on a manager that satisfies
  -- the invariant ends and loses no checkpoint; if it succeeds, the capacity is the one asked for,
  -- or 1 for 0, and the invariant holds.
  pub resize_hot_total :
      (n : ℕ) (m : PebbleManager K T N W C S)
      → IsManaged parts Valid stored m
      → (r : Result (PebbleManagerError K E) (Unit {0}) × PebbleManager K T N W C S) × (resize_hot
            parts n m
          ≡ some r)
        × Resized n m r
  unfolding resize_hot
  resize_hot_total n m h =
      let (r, runs, shrunk) =
        shrink_lem (length m.red_pebbles) (record m { hot_capacity = max n 1 })
          (frame parts Valid stored m m.dag (max n 1) m.checkpoints_added m.io_reads m.warm_hits
            m.cold_loads m.branches h.sound)
          h.unique (omega arith) in
      (r, runs, go r shrunk)
    where
      go :
          (r : Result (PebbleManagerError K E) (Unit {0}) × PebbleManager K T N W C S)
          → Shrunk (record m { hot_capacity = max n 1 }) r
          → Resized n m r
      go (err e, m') same = (same.sound, same.all)
      go (ok _, m') (same, fits) = (
        record {
          sound = same.sound;
          unique = same.unique;
          pos = rw same.capacity (omega arith);
          fits = fits;
          known = λ j unknown.
              same.all j
              ∙ h.known j (subst (λ d. contains_key j d.nodes ≡ false) same.graph unknown);
        },
        same.capacity,
        same.all,
      )
