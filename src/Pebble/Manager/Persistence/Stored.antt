-- ===== src/Pebble/Manager/Persistence/Stored.antt =====
-- pebble/src/manager/pebble_manager.rs: what `flush` drains from the warm tier gets into storage.
use abmac_lib.Prelude.{
  ◌≡◌, refl, sym, ap, ◌∙◌, subst, inl, inr, false, List, [], ◌∷◌, Option, none, some, Result, ok,
  err, Bool-cases, Option-cases, none≢some,
}
use abmac_lib.Prelude.Sorting.{sort_by_key}
use abmac_lib.Hash.{Key}
use abmac_lib.Hash.Sets.{insert, remove, same-cases, same_self, true≢false}
use abmac_lib.Hash.Maps.{get, contains_key, IsUnique, get-contains_key}
use abmac_lib.Hash.Keys.{get-none}
use abmac_lib.Pebble.Tiers.{Inserted}
use abmac_lib.Pebble.Manager.{PebbleManager, PebbleManagerError, Parts}
use abmac_lib.Pebble.Manager.Eviction.Found.{
  first_of, found, IsLawful, IsSound, IsSafe, Keeps, Persisted, persist_to_cold_lem,
}
use abmac_lib.Pebble.Manager.Eviction.Moves.{stored-Keeps}
use abmac_lib.Pebble.Manager.Access.Managed.{found-none}
use abmac_lib.Pebble.Manager.Persistence.{created, after_persist, persist_each, flush_warm}
use abmac_lib.Pebble.Manager.Persistence.Order.{get-sort_by_key, sort_by_key-IsUnique}

module _ {ℓ} {K T N W C S E : Type ℓ} ⦃key : Key K⦄ (parts : Parts K T W C S E) (Valid : W → Type 0)
    (stored : K → C → Option T) (lawful : IsLawful parts Valid stored) where
  -- The checkpoints of `es` are in no tier, and the warm tier is empty.
  pub record InFlight (es : List (K × T)) (m : PebbleManager K T N W C S) : Type ℓ where
    pub sound : IsSound parts Valid stored m
    pub unique : IsUnique es
    pub empty : (j : K) → parts.warm.get j m.warm ≡ none
    pub flying :
        (j : K) (x : T)
        → get j es ≡ some x
        → (found parts stored j m ≡ none) × IsSafe parts stored j x m

  -- All checkpoints are there, those of `es` in storage.
  pub record Landed (es : List (K × T)) (m m' : PebbleManager K T N W C S) : Type ℓ where
    pub sound : IsSound parts Valid stored m'
    pub all : (j : K) → found parts stored j m' ≡ first_of (get j es) (found parts stored j m)
    pub warm : m'.warm ≡ m.warm
    pub red : m'.red_pebbles ≡ m.red_pebbles
    pub graph : m'.dag ≡ m.dag
    pub capacity : m'.hot_capacity ≡ m.hot_capacity

  -- All checkpoints are there, and none in the warm tier.
  pub record Stowed (m m' : PebbleManager K T N W C S) : Type ℓ where
    pub sound : IsSound parts Valid stored m'
    pub all : (j : K) → found parts stored j m' ≡ found parts stored j m
    pub empty : (j : K) → parts.warm.get j m'.warm ≡ none
    pub red : m'.red_pebbles ≡ m.red_pebbles
    pub graph : m'.dag ≡ m.dag
    pub capacity : m'.hot_capacity ≡ m.hot_capacity

  -- What holds if the call succeeds.
  abbrev pub OnSuccess :
      (PebbleManager K T N W C S → Type ℓ)
      → Result (PebbleManagerError K E) (Unit {0}) × PebbleManager K T N W C S
      → Type ℓ
  OnSuccess P (ok _, m') = P m'
  OnSuccess P (err _, m') = Unit

  pub OnSuccess-map :
      (P Q : PebbleManager K T N W C S → Type ℓ)
      → ((m : PebbleManager K T N W C S) → P m → Q m)
      → (out : Result (PebbleManagerError K E) (Unit {0}) × PebbleManager K T N W C S)
      → OnSuccess P out
      → OnSuccess Q out
  OnSuccess-map P Q f (ok _, m) h = f m h
  OnSuccess-map P Q f (err _, m) h = tt

  module _ (e : K × T) (es : List (K × T)) (m : PebbleManager K T N W C S)
      (h : InFlight (e ∷ es) m) where
    head : (found parts stored e.0 m ≡ none) × IsSafe parts stored e.0 e.1 m
    head = h.flying e.0 e.1 (unfold get in rw (same_self e.0) refl)

    outside : (j : K) (x : T) → get j es ≡ some x → key.same j e.0 ≡ false
    outside j x there = elim (same-cases j e.0) [
      | inr q ↦ q
      | inl (p, _) ↦ absurd (
          true≢false
            (sym (get-contains_key j es x there) ∙ ap (λ k. contains_key k es) p ∙ h.unique.0))
    ]

    overflows : Inserted parts.warm e.0 e.1 m.warm (some e, m.warm)
    overflows = (
      rw (same_self e.0) refl,
      λ j. elim (Bool-cases (key.same j e.0)) [ inl q ↦ rw q (h.empty j) | inr q ↦ rw q refl ],
    )

    module _ (m₁ : PebbleManager K T N W C S) (k : Keeps parts Valid stored e.0 e.1 m m₁)
        (warm : m₁.warm ≡ m.warm) where
      next_InFlight : InFlight es m₁
      next_InFlight = record {
        sound = k.sound;
        unique = h.unique.1;
        empty = λ j. rw warm (h.empty j);
        flying = λ j x there.
            let q = outside j x there in
            let (missing, safe) = h.flying j x (unfold get in rw q there) in
            (k.all j ∙ rw q missing, k.aside j x q missing safe);
      }

      next_Landed :
          (m' : PebbleManager K T N W C S)
          → Landed es m₁ m'
          → m₁.red_pebbles ≡ m.red_pebbles
          → Landed (e ∷ es) m m'
      next_Landed m' l red = record {
        sound = l.sound;
        all = λ j. l.all j ∙ elim (same-cases j e.0) [
          | inl (p, q) ↦
              rw (k.all j, q, subst (λ i. get i es ≡ none) (sym p) (get-none e.0 es h.unique.0))
                (unfold get in rw q refl)
          | inr q ↦ rw (k.all j, q) (unfold get in rw q refl)
        ];
        warm = l.warm ∙ warm;
        red = l.red ∙ red;
        graph = l.graph ∙ k.graph;
        capacity = l.capacity ∙ k.capacity;
      }

  persist_each_lem :
      (es : List (K × T)) (m : PebbleManager K T N W C S)
      → InFlight es m
      → (r : Result (PebbleManagerError K E) (Unit {0}) × PebbleManager K T N W C S) × (persist_each
            parts es m
          ≡ some r)
        × OnSuccess (Landed es m) r
  unfolding persist_each
  persist_each_lem [] m h = (
    (ok tt, m),
    refl,
    record {
      sound = h.sound;
      all = λ j. unfold get in refl;
      warm = refl;
      red = refl;
      graph = refl;
      capacity = refl;
    },
  )
  persist_each_lem (e ∷ es) m h =
      let (r, runs, persisted) =
        persist_to_cold_lem parts Valid stored lawful e.0 e.1 m h.sound.ready in
      rw runs (go r persisted (λ m₁ h₁. persist_each_lem es m₁ h₁))
    where
      go :
          (r : Result (PebbleManagerError K E) (Unit {0}) × PebbleManager K T N W C S)
          → Persisted parts Valid stored e.0 e.1 m r
          → ((m₁ : PebbleManager K T N W C S)
              → InFlight es m₁
              → (out : Result (PebbleManagerError K E) (Unit {0}) × PebbleManager K T N W C S)
                × (persist_each parts es m₁ ≡ some out)
                × OnSuccess (Landed es m₁) out)
          → (out : Result (PebbleManagerError K E) (Unit {0}) × PebbleManager K T N W C S)
            × (after_persist parts e es (persist_each parts es) (some r) ≡ some out)
            × OnSuccess (Landed (e ∷ es) m) out
      go r (cold', manifest', writes, ready, inr (x, failed, _)) rest = rw failed ((_, refl, tt))
      go r (cold', manifest', writes, ready, inl (done, grown)) rest =
          let m₁ = record m {
            cold = cold';
            manifest = manifest';
            io_writes = writes;
            blue_pebbles = insert e.0 m.blue_pebbles;
            dirty = remove e.0 m.dirty;
          } in
          let k =
            stored-Keeps parts Valid stored lawful e.0 e.0 e.1 e.1 m h.sound
              (found-none parts Valid stored e.0 m h.sound (head e es m h).0) (head e es m h).1
              m.warm (overflows e es m h) cold' grown manifest' ready h.sound.valid writes in
          let (out, runs, landed) = rest m₁ (next_InFlight e es m h m₁ k refl) in
          rw done (
            out,
            runs,
            OnSuccess-map (Landed es m₁) (Landed (e ∷ es) m)
                (λ m' l. next_Landed e es m h m₁ k refl m' l refl) out landed,
          )

  -- The warm tier has been drained.
  module _ (m : PebbleManager K T N W C S) (s : IsSound parts Valid stored m) where
    abbrev drained : PebbleManager K T N W C S
    drained = record m { warm = (parts.warm.drain m.warm).1 }

    abbrev pending : List (K × T)
    pending = sort_by_key (λ e. created (get e.0 m.dag.nodes)) (parts.warm.drain m.warm).0

    get-pending : (j : K) → get j pending ≡ parts.warm.get j m.warm
    get-pending j =
        get-sort_by_key (λ e. created (get e.0 m.dag.nodes)) j (parts.warm.drain m.warm).0
          (lawful.warm_laws.drain_unique m.warm s.valid)
        ∙ lawful.warm_laws.drain_found j m.warm s.valid

    nothing_warm : (j : K) → parts.warm.get j (parts.warm.drain m.warm).1 ≡ none
    nothing_warm j = lawful.warm_laws.drain_none j m.warm s.valid

    drained-IsSound : IsSound parts Valid stored drained
    drained-IsSound = record {
      ready = s.ready;
      valid = lawful.warm_laws.drain_valid m.warm s.valid;
      backed = s.backed;
      hot_apart = λ j x there. (nothing_warm j, (s.hot_apart j x there).1);
      warm_apart = λ j x there. absurd (none≢some (sym (nothing_warm j) ∙ there));
      clean = λ j x h washed. elim (Option-cases (get j m.red_pebbles)) [
        | inr (z, there) ↦ s.clean j x (rw there (rw there at h)) washed
        | inl cool ↦ absurd (none≢some (sym (nothing_warm j) ∙ (rw cool at h)))
      ];
    }

    drained_missing :
        (j : K) (x : T) → parts.warm.get j m.warm ≡ some x → found parts stored j drained ≡ none
    drained_missing j x there = elim (Option-cases (get j m.red_pebbles)) [
      | inr (z, hot) ↦ absurd (none≢some (sym (s.hot_apart j z hot).0 ∙ there))
      | inl cool ↦ rw (cool, nothing_warm j, s.warm_apart j x there) refl
    ]

    cool_of_warm : (j : K) (x : T) → parts.warm.get j m.warm ≡ some x → get j m.red_pebbles ≡ none
    cool_of_warm j x there = elim (Option-cases (get j m.red_pebbles)) [
      | inr (z, hot) ↦ absurd (none≢some (sym (s.hot_apart j z hot).0 ∙ there))
      | inl cool ↦ cool
    ]

    drained-found :
        (j : K) → first_of (get j pending) (found parts stored j drained) ≡ found parts stored j m
    drained-found j = elim (Option-cases (parts.warm.get j m.warm)) [
      | inl cool ↦ rw (get-pending j, cool, nothing_warm j) refl
      | inr (x, there) ↦ rw (get-pending j, there, cool_of_warm j x there) refl
    ]

    drained-InFlight : InFlight pending drained
    drained-InFlight = record {
      sound = drained-IsSound;
      unique =
          sort_by_key-IsUnique (λ e. created (get e.0 m.dag.nodes)) (parts.warm.drain m.warm).0
            (lawful.warm_laws.drain_unique m.warm s.valid);
      empty = nothing_warm;
      flying = λ j x there.
          let there' = sym (get-pending j) ∙ there in
          (
            drained_missing j x there',
            λ washed. s.clean j x (rw (cool_of_warm j x there') there') washed,
          );
    }

    -- All that was in the warm tier is in storage afterwards, and nothing is missing.
    pub flush_warm_lem :
        (r : Result (PebbleManagerError K E) (Unit {0}) × PebbleManager K T N W C S) × (flush_warm
            parts m
          ≡ some r)
        × OnSuccess (Stowed m) r
    unfolding flush_warm
    flush_warm_lem =
        let (r, runs, h) = persist_each_lem pending drained drained-InFlight in
        (
          r,
          runs,
          OnSuccess-map (Landed pending drained) (Stowed m)
              (λ m' l. record {
                sound = l.sound;
                all = λ j. l.all j ∙ drained-found j;
                empty = λ j. rw l.warm (nothing_warm j);
                red = l.red;
                graph = l.graph;
                capacity = l.capacity;
              })
              r h,
        )
