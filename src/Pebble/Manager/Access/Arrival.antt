-- ===== src/Pebble/Manager/Access/Arrival.antt =====
-- pebble/src/manager/pebble_manager.rs: the two ways by which `load` promotes a checkpoint, from the
-- warm tier and from storage.
use abmac_lib.Prelude.{
  ℕ, ◌≤◌, ◌<◌, ◌≡◌, refl, sym, ap, ◌∙◌, subst, inl, inr, true, false, List, Option, none, some,
  length, if◌then◌else◌, Result, ok, err, arith, Bool-cases, Option-cases, none≢some,
  saturating_add,
}
use abmac_lib.Hash.{Key}
use abmac_lib.Hash.Sets.{contains, remove, contains-remove, same-cases, true≢false}
use abmac_lib.Hash.Maps.{
  get, contains_key, put, get-put_self, IsUnique, put-IsUnique, length-put_le,
}
use abmac_lib.Pebble.Dag.{mark_accessed}
use abmac_lib.Pebble.Dag.Members.{mark_accessed-nodes}
use abmac_lib.Pebble.Tiers.{IsBuffer, added, taken}
use abmac_lib.Pebble.Manager.{PebbleManager, PebbleManagerError, Parts, go_on, ◌>>◌, modify}
use abmac_lib.Pebble.Manager.Eviction.Found.{found, IsLawful, IsSound, IsSafe}
use abmac_lib.Pebble.Manager.Eviction.Cooling.{Same}
use abmac_lib.Pebble.Manager.Eviction.Several.{Roomy, ensure_room_lem}
use abmac_lib.Pebble.Manager.Access.{found_hot, expect_hot, promote_warm, promote_cold}
use abmac_lib.Pebble.Manager.Access.Managed.{IsManaged, frame, found-none}
use abmac_lib.Pebble.Manager.Access.Promotion.{promoted-IsSound, promoted_found}

module _ {ℓ} {K T N W C S E : Type ℓ} ⦃key : Key K⦄ (parts : Parts K T W C S E) (Valid : W → Type 0)
    (stored : K → C → Option T) (lawful : IsLawful parts Valid stored)
    (buffer : IsBuffer parts.warm Valid) where
  -- The checkpoint that was found is returned and is in fast memory, and all are there as before; or
  -- the call failed, and the others are there as before.
  abbrev pub Loaded :
      K
      → PebbleManager K T N W C S
      → Result (PebbleManagerError K E) T × PebbleManager K T N W C S
      → Type ℓ
  Loaded id m (ok x, m') =
      IsManaged parts Valid stored m'
      × (found parts stored id m ≡ some x)
      × (get id m'.red_pebbles ≡ some x)
      × ((j : K) → found parts stored j m' ≡ found parts stored j m)
  Loaded id m (err _, m') =
      IsManaged parts Valid stored m'
      × ((j : K) → taken id j (found parts stored j m') ≡ taken id j (found parts stored j m))

  -- `m₁` is what `ensure_room` starts from, and `item` is on its way.
  module _ (id : K) (item : T) (m m₁ : PebbleManager K T N W C S)
      (h : IsManaged parts Valid stored m) (here : found parts stored id m ≡ some item)
      (others : (j : K) → added id item j (found parts stored j m₁) ≡ found parts stored j m)
      (graph : m₁.dag ≡ m.dag) where
    -- The others are there in any case.
    rest : (j : K) → taken id j (found parts stored j m₁) ≡ taken id j (found parts stored j m)
    rest j = elim (Bool-cases (key.same j id)) [
      | inl q ↦ rw q refl
      | inr q ↦ rw q (rw q at (others j))
    ]

    known₁ : (j : K) → contains_key j m₁.dag.nodes ≡ false → found parts stored j m₁ ≡ none
    known₁ j unknown =
        let missing = h.known j (subst (λ d. contains_key j d.nodes ≡ false) graph unknown) in
        elim (same-cases j id) [
          | inl (p, _) ↦
              absurd (none≢some (sym (subst (λ k. found parts stored k m ≡ none) p missing) ∙ here))
          | inr q ↦ (rw q at (others j)) ∙ missing
        ]

    module _ (pos : 1 ≤ m₁.hot_capacity) (fits : length m₁.red_pebbles ≤ m₁.hot_capacity)
        (m₂ : PebbleManager K T N W C S) (s : Same parts Valid stored m₁ m₂) where
      known₂ : (j : K) → contains_key j m₂.dag.nodes ≡ false → found parts stored j m₂ ≡ none
      known₂ j unknown =
          s.all j ∙ known₁ j (subst (λ d. contains_key j d.nodes ≡ false) s.graph unknown)

      failed :
          IsManaged parts Valid stored m₂
          × ((j : K) → taken id j (found parts stored j m₂) ≡ taken id j (found parts stored j m))
      failed = (
        record {
          sound = s.sound;
          unique = s.unique;
          pos = rw s.capacity pos;
          fits = omega (arith, s.fewer, s.capacity);
          known = known₂;
        },
        λ j. ap (taken id j) (s.all j) ∙ rest j,
      )

      -- The checkpoint arrives in fast memory.
      module _ (room : length m₂.red_pebbles < m₂.hot_capacity)
          (not_warm : parts.warm.get id m₂.warm ≡ none) (safe : IsSafe parts stored id item m₂)
          (blue' : List K)
          (blue_others : (j : K)
            → contains j blue' ≡ (if key.same j id then false else contains j m₂.blue_pebbles))
          (reads hits loads : ℕ) where
        abbrev arrived : PebbleManager K T N W C S
        arrived = record m₂ {
          red_pebbles = put id item m₂.red_pebbles;
          blue_pebbles = blue';
          dag = mark_accessed id m₂.dag;
          io_reads = reads;
          warm_hits = hits;
          cold_loads = loads;
        }

        arrived-found : (j : K) → found parts stored j arrived ≡ found parts stored j m
        arrived-found j =
            promoted_found parts Valid stored id item m₂ s.sound not_warm safe blue' blue_others j
            ∙ ap (added id item j) (s.all j)
            ∙ others j

        arrived-IsManaged : IsManaged parts Valid stored arrived
        arrived-IsManaged = record {
          sound =
              frame parts Valid stored
                (record m₂ { red_pebbles = put id item m₂.red_pebbles; blue_pebbles = blue' })
                (mark_accessed id m₂.dag) m₂.hot_capacity m₂.checkpoints_added reads hits loads
                m₂.branches
                (promoted-IsSound parts Valid stored id item m₂ s.sound not_warm safe blue'
                  blue_others);
          unique = put-IsUnique id item m₂.red_pebbles s.unique;
          pos = rw s.capacity pos;
          fits = omega (arith, length-put_le id item m₂.red_pebbles);
          known = λ j unknown.
              arrived-found j
              ∙ h.known j (
                  subst (λ d. contains_key j d.nodes ≡ false) (s.graph ∙ graph)
                    (sym (mark_accessed-nodes j id m₂.dag) ∙ unknown));
        }

        loaded :
            (r : Result (PebbleManagerError K E) T × PebbleManager K T N W C S) × (expect_hot parts
                id arrived
              ≡ some r)
            × Loaded id m r
        loaded = (
          (ok item, arrived),
          ap (λ o. found_hot parts o arrived) (get-put_self id item m₂.red_pebbles),
          (arrived-IsManaged, here, get-put_self id item m₂.red_pebbles, arrived-found),
        )

  module _ (id : K) (m : PebbleManager K T N W C S) (h : IsManaged parts Valid stored m) where
    -- What is only in storage is there.
    pub in_storage_only :
        (x : T) (m' : PebbleManager K T N W C S)
        → IsSound parts Valid stored m'
        → contains id m'.blue_pebbles ≡ true
        → found parts stored id m' ≡ some x
        → (get id m'.red_pebbles ≡ none)
          × (parts.warm.get id m'.warm ≡ none)
          × (stored id m'.cold ≡ some x)
    in_storage_only x m' s blue here = elim (Option-cases (get id m'.red_pebbles)) [
      | inr (z, there) ↦ absurd (true≢false (sym blue ∙ (s.hot_apart id z there).1))
      | inl cool ↦ elim (Option-cases (parts.warm.get id m'.warm)) [
        | inr (z, there) ↦ absurd (true≢false (sym blue ∙ s.warm_apart id z there))
        | inl not_warm ↦ (cool, not_warm, rw (cool, not_warm, blue) at here)
      ]
    ]

    module _ (x : T) (m₁ : PebbleManager K T N W C S) (s₁ : IsSound parts Valid stored m₁)
        (unique : IsUnique m₁.red_pebbles) (pos : 1 ≤ m₁.hot_capacity)
        (fits : length m₁.red_pebbles ≤ m₁.hot_capacity) (here : found parts stored id m ≡ some x)
        (others : (j : K) → added id x j (found parts stored j m₁) ≡ found parts stored j m)
        (graph : m₁.dag ≡ m.dag) where
      pub from_warm :
          found parts stored id m₁ ≡ none
          → IsSafe parts stored id x m₁
          → (r : Result (PebbleManagerError K E) T × PebbleManager K T N W C S) × (promote_warm
                parts id x m₁
              ≡ some r)
            × Loaded id m r
      unfolding promote_warm
      from_warm missing safe =
          let (r, runs, roomy) =
            ensure_room_lem parts Valid stored lawful buffer m₁ s₁ unique pos fits in
          rw runs (go r roomy)
        where
          go :
              (r : Result (PebbleManagerError K E) (Unit {0}) × PebbleManager K T N W C S)
              → Roomy parts Valid stored lawful buffer m₁ r
              → (out : Result (PebbleManagerError K E) T × PebbleManager K T N W C S) × (go_on
                    (λ _.
                      modify (λ m'. record m' {
                        red_pebbles = put id x m'.red_pebbles;
                        dag = mark_accessed id m'.dag;
                        warm_hits = saturating_add m'.warm_hits 1;
                      })
                      >> expect_hot parts id)
                    (some r)
                  ≡ some out)
                × Loaded id m out
          go (err e, m₂) s = ((err e, m₂), refl, failed id x m m₁ h here others graph pos fits m₂ s)
          go (ok _, m₂) (s, room) =
              let (_, not_warm, not_blue) =
                found-none parts Valid stored id m₂ s.sound (s.all id ∙ missing) in
              loaded id x m m₁ h here others graph pos fits m₂ s room not_warm
                (s.aside id x missing safe) m₂.blue_pebbles
                (λ j. elim (same-cases j id) [
                  | inl (p, q) ↦ rw (q, p) not_blue
                  | inr q ↦ rw q refl
                ])
                m₂.io_reads _ m₂.cold_loads

      pub from_storage :
          contains id m₁.blue_pebbles ≡ true
          → found parts stored id m₁ ≡ some x
          → (r : Result (PebbleManagerError K E) T × PebbleManager K T N W C S) × (promote_cold
                parts id
                (ok x)
                m₁
              ≡ some r)
            × Loaded id m r
      unfolding promote_cold
      from_storage blue there =
          let (r, runs, roomy) =
            ensure_room_lem parts Valid stored lawful buffer m₁ s₁ unique pos fits in
          rw runs (go r roomy)
        where
          go :
              (r : Result (PebbleManagerError K E) (Unit {0}) × PebbleManager K T N W C S)
              → Roomy parts Valid stored lawful buffer m₁ r
              → (out : Result (PebbleManagerError K E) T × PebbleManager K T N W C S) × (go_on
                    (λ _.
                      modify (λ m'. record m' {
                        red_pebbles = put id x m'.red_pebbles;
                        blue_pebbles = remove id m'.blue_pebbles;
                        io_reads = saturating_add m'.io_reads 1;
                        cold_loads = saturating_add m'.cold_loads 1;
                        dag = mark_accessed id m'.dag;
                      })
                      >> expect_hot parts id)
                    (some r)
                  ≡ some out)
                × Loaded id m out
          go (err e, m₂) s = ((err e, m₂), refl, failed id x m m₁ h here others graph pos fits m₂ s)
          go (ok _, m₂) (s, room) =
              let (_, not_warm, safe) =
                in_storage_only x m₂ s.sound (s.storage id blue) (s.all id ∙ there) in
              loaded id x m m₁ h here others graph pos fits m₂ s room not_warm (λ _. safe)
                (remove id m₂.blue_pebbles) (λ j. contains-remove j id m₂.blue_pebbles) _
                m₂.warm_hits _
