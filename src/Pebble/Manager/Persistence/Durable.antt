-- ===== src/Pebble/Manager/Persistence/Durable.antt =====
-- pebble/src/manager/pebble_manager.rs: `flush` stores what is dirty in fast memory.
use abmac_lib.Prelude.{
  ℕ, ◌≡◌, refl, ◌∙◌, inl, inr, false, List, [], ◌∷◌, Option, none, some, Result, ok, Bool-cases,
  Option-cases,
}
use abmac_lib.Hash.{Key}
use abmac_lib.Hash.Sets.{contains, same-cases, same_self}
use abmac_lib.Hash.Maps.{get}
use abmac_lib.Pebble.Manifest.{Manifest}
use abmac_lib.Pebble.Manifest.Ready.{IsReady}
use abmac_lib.Pebble.Tiers.{added}
use abmac_lib.Pebble.Manager.{PebbleManager, PebbleManagerError, Parts, go_on}
use abmac_lib.Pebble.Manager.Eviction.Found.{
  found, IsLawful, IsSound, Persisted, persist_to_cold_lem,
}
use abmac_lib.Pebble.Manager.Persistence.{persist_dirty}
use abmac_lib.Pebble.Manager.Persistence.Stored.{OnSuccess, OnSuccess-map}

other_dirty {ℓ} :
    {K : Type ℓ} ⦃key : Key K⦄ (j id : K) (ids : List K)
    → key.same j id ≡ false
    → contains j ids ≡ false
    → contains j (id ∷ ids) ≡ false
unfolding contains
other_dirty j id ids p q = rw p q

module _ {ℓ} {K T N W C S E : Type ℓ} ⦃key : Key K⦄ (parts : Parts K T W C S E) (Valid : W → Type 0)
    (stored : K → C → Option T) (lawful : IsLawful parts Valid stored) where
  -- The warm tier is empty, and of fast memory only `ids` is yet to be stored.
  pub record Remaining (ids : List K) (m : PebbleManager K T N W C S) : Type ℓ where
    pub sound : IsSound parts Valid stored (record m { dirty = ids })
    pub empty : (j : K) → parts.warm.get j m.warm ≡ none

  -- The tiers are as before, and all of fast memory is stored.
  pub record Cleaned (m m' : PebbleManager K T N W C S) : Type ℓ where
    pub remaining : Remaining [] m'
    pub all : (j : K) → found parts stored j m' ≡ found parts stored j m
    pub dirty : m'.dirty ≡ m.dirty
    pub red : m'.red_pebbles ≡ m.red_pebbles
    pub graph : m'.dag ≡ m.dag
    pub capacity : m'.hot_capacity ≡ m.hot_capacity

  Cleaned-trans :
      (m m₁ m' : PebbleManager K T N W C S)
      → ((j : K) → found parts stored j m₁ ≡ found parts stored j m)
      → m₁.dirty ≡ m.dirty
      → m₁.red_pebbles ≡ m.red_pebbles
      → m₁.dag ≡ m.dag
      → m₁.hot_capacity ≡ m.hot_capacity
      → Cleaned m₁ m'
      → Cleaned m m'
  Cleaned-trans m m₁ m' all dirty red graph capacity c = record {
    remaining = c.remaining;
    all = λ j. c.all j ∙ all j;
    dirty = c.dirty ∙ dirty;
    red = c.red ∙ red;
    graph = c.graph ∙ graph;
    capacity = c.capacity ∙ capacity;
  }

  module _ (id : K) (ids : List K) (m : PebbleManager K T N W C S)
      (h : Remaining (id ∷ ids) m) where
    -- An identifier that is not in fast memory needs no write.
    skipped : get id m.red_pebbles ≡ none → Remaining ids m
    skipped cool = record {
      sound = record {
        ready = h.sound.ready;
        valid = h.sound.valid;
        backed = h.sound.backed;
        hot_apart = h.sound.hot_apart;
        warm_apart = h.sound.warm_apart;
        clean = λ j x there washed. elim (same-cases j id) [
          | inl (p, _) ↦ cc (rw (p, cool, h.empty id) at there)
          | inr q ↦ h.sound.clean j x there (other_dirty j id ids q washed)
        ];
      };
      empty = h.empty;
    }

    module _ (x : T) (hot : get id m.red_pebbles ≡ some x) (cold' : C)
        (grown : (j : K) → stored j cold' ≡ added id x j (stored j m.cold))
        (manifest' : Manifest K S) (writes : ℕ)
        (ready : IsReady parts.spout parts.default parts.max_deps parts.log_capacity
          manifest') where
      abbrev written : PebbleManager K T N W C S
      written = record m { cold = cold'; manifest = manifest'; io_writes = writes }

      written-Remaining : Remaining ids written
      written-Remaining = record {
        sound = record {
          ready = ready;
          valid = h.sound.valid;
          backed = λ j blue. elim (Bool-cases (key.same j id)) [
            | inl q ↦ (x, rw (grown j, q) refl)
            | inr q ↦ rw (grown j, q) (h.sound.backed j blue)
          ];
          hot_apart = h.sound.hot_apart;
          warm_apart = h.sound.warm_apart;
          clean = λ j z there washed. elim (same-cases j id) [
            | inl (p, _) ↦ rw p (grown id ∙ (rw (same_self id) (rw (p, hot) at there)))
            | inr q ↦ rw (grown j, q) (h.sound.clean j z there (other_dirty j id ids q washed))
          ];
        };
        empty = h.empty;
      }

      written-found : (j : K) → found parts stored j written ≡ found parts stored j m
      written-found j = elim (same-cases j id) [
        | inl (p, _) ↦ rw (p, hot) refl
        | inr q ↦ rw (grown j, q) refl
      ]

  pub persist_dirty_lem :
      (ids : List K) (m : PebbleManager K T N W C S)
      → Remaining ids m
      → (r : Result (PebbleManagerError K E) (Unit {0}) × PebbleManager K T N W C S)
        × (persist_dirty parts ids m ≡ some r)
        × OnSuccess parts Valid stored lawful (Cleaned m) r
  unfolding persist_dirty
  persist_dirty_lem [] m h = (
    (ok tt, m),
    refl,
    record {
      remaining = h;
      all = λ j. refl;
      dirty = refl;
      red = refl;
      graph = refl;
      capacity = refl;
    },
  )
  persist_dirty_lem (id ∷ ids) m h = elim (Option-cases (get id m.red_pebbles)) [
    | inl cool ↦ rw cool (persist_dirty_lem ids m (skipped id ids m h cool))
    | inr (x, hot) ↦
        let (r, runs, persisted) =
          persist_to_cold_lem parts Valid stored lawful id x m h.sound.ready in
        rw (hot, runs) (go x hot r persisted (λ m₁ h₁. persist_dirty_lem ids m₁ h₁))
  ]
    where
      go :
          (x : T)
          → get id m.red_pebbles ≡ some x
          → (r : Result (PebbleManagerError K E) (Unit {0}) × PebbleManager K T N W C S)
          → Persisted parts Valid stored id x m r
          → ((m₁ : PebbleManager K T N W C S)
              → Remaining ids m₁
              → (out : Result (PebbleManagerError K E) (Unit {0}) × PebbleManager K T N W C S)
                × (persist_dirty parts ids m₁ ≡ some out)
                × OnSuccess parts Valid stored lawful (Cleaned m₁) out)
          → (out : Result (PebbleManagerError K E) (Unit {0}) × PebbleManager K T N W C S) × (go_on
                (λ _. persist_dirty parts ids)
                (some r)
              ≡ some out)
            × OnSuccess parts Valid stored lawful (Cleaned m) out
      go x hot r (cold', manifest', writes, ready, inr (e, failed, _)) rest =
          rw failed (_, refl, tt)
      go x hot r (cold', manifest', writes, ready, inl (done, grown)) rest =
          let m₁ = written id ids m h x hot cold' grown manifest' writes ready in
          let (out, runs, c) =
            rest m₁ (written-Remaining id ids m h x hot cold' grown manifest' writes ready) in
          rw done (
            out,
            runs,
            OnSuccess-map parts Valid stored lawful (Cleaned m₁) (Cleaned m)
                (λ m' c'.
                  Cleaned-trans m m₁ m'
                    (written-found id ids m h x hot cold' grown manifest' writes ready) refl refl
                    refl refl c')
                out c,
          )
