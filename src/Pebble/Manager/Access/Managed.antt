-- ===== src/Pebble/Manager/Access/Managed.antt =====
-- pebble/src/manager/pebble_manager.rs: the invariant of the manager, and `register_hot`.
use abmac_lib.Prelude.{
  ℕ, ◌≤◌, ◌<◌, ◌≡◌, refl, sym, ap, ◌∙◌, inl, inr, true, false, List, Option, none, some, length,
  max, if◌then◌else◌, arith, Bool-cases, none≢some, ltb, saturating_add, ltb→lt,
}
use abmac_lib.Prelude.Sorting.{isqrt}
use abmac_lib.Hash.{Key}
use abmac_lib.Hash.Sets.{contains, insert, contains-insert, same-cases, true≢false}
use abmac_lib.Hash.Maps.{get, contains_key, put, get-put, IsUnique, put-IsUnique, length-put_le}
use abmac_lib.Pebble.Branch.{BranchTracker}
use abmac_lib.Pebble.Dag.{ComputationDag}
use abmac_lib.Pebble.Tiers.{added}
use abmac_lib.Pebble.Manager.{PebbleManager, Parts}
use abmac_lib.Pebble.Manager.Eviction.Found.{first_of, found, IsSound, IsAbsent}
use abmac_lib.Pebble.Manager.Access.{track, auto_grow, register_hot, total}

first_of-none {ℓ} : {A : Type ℓ} (a b : Option A) → first_of a b ≡ none → (a ≡ none) × (b ≡ none)
first_of-none none b h = (refl, h)
first_of-none (some a) b h = cc

module _ {ℓ} {K T N W C S E : Type ℓ} ⦃key : Key K⦄ (parts : Parts K T W C S E) (Valid : W → Type 0)
    (stored : K → C → Option T) where
  -- What holds of a manager between any two calls: its tiers are sound, fast memory is within its
  -- capacity, and every checkpoint is a node of the graph.
  pub record IsManaged (m : PebbleManager K T N W C S) : Type ℓ where
    pub sound : IsSound parts Valid stored m
    pub unique : IsUnique m.red_pebbles
    pub pos : 1 ≤ m.hot_capacity
    pub fits : length m.red_pebbles ≤ m.hot_capacity
    pub known : (j : K) → contains_key j m.dag.nodes ≡ false → found parts stored j m ≡ none

  -- An identifier under which nothing is found is in no tier.
  pub found-none :
      (id : K) (m : PebbleManager K T N W C S)
      → IsSound parts Valid stored m
      → found parts stored id m ≡ none
      → IsAbsent parts id m
  found-none id m sound missing =
      let (cool, rest) = first_of-none (get id m.red_pebbles) _ missing in
      let (not_warm, not_cold) = first_of-none (parts.warm.get id m.warm) _ rest in
      (
        cool,
        not_warm,
        elim (Bool-cases (contains id m.blue_pebbles)) [
          | inr e ↦ e
          | inl e ↦
              let (x, there) = sound.backed id e in
              absurd (none≢some (rw e at (sym not_cold) ∙ there))
        ],
      )

  -- The tiers do not depend on the graph, the counters, the capacity and the branches.
  pub frame :
      (m : PebbleManager K T N W C S) (dag' : ComputationDag K) (cap added' reads hits loads : ℕ)
      (branches' : Option (BranchTracker N K))
      → IsSound parts Valid stored m
      → IsSound parts Valid stored (record m {
        dag = dag';
        hot_capacity = cap;
        checkpoints_added = added';
        io_reads = reads;
        warm_hits = hits;
        cold_loads = loads;
        branches = branches';
      })
  frame m dag' cap added' reads hits loads branches' s = record {
    ready = s.ready;
    valid = s.valid;
    backed = s.backed;
    hot_apart = s.hot_apart;
    warm_apart = s.warm_apart;
    clean = s.clean;
  }

  -- A checkpoint is put into fast memory, and is dirty.
  pub heated-IsSound :
      (id : K) (item : T) (m : PebbleManager K T N W C S)
      → IsSound parts Valid stored m
      → IsAbsent parts id m
      → IsSound parts Valid stored
          (record m { red_pebbles = put id item m.red_pebbles; dirty = insert id m.dirty })
  heated-IsSound id item m s absent = record {
    ready = s.ready;
    valid = s.valid;
    backed = s.backed;
    hot_apart = λ j x there. elim (same-cases j id) [
      | inl (p, _) ↦ rw p (absent.1, absent.2)
      | inr q ↦ s.hot_apart j x (rw q at (sym (get-put j id item m.red_pebbles) ∙ there))
    ];
    warm_apart = s.warm_apart;
    clean = λ j x h washed. elim (Bool-cases (key.same j id)) [
      | inl q ↦ absurd (true≢false (rw q at (sym (contains-insert j id m.dirty) ∙ washed)))
      | inr q ↦
          s.clean j x (rw (get-put j id item m.red_pebbles, q) at h)
            (rw q at (sym (contains-insert j id m.dirty) ∙ washed))
    ];
  }

  heated_found :
      (id j : K) (item : T) (m : PebbleManager K T N W C S) (dirty' : List K)
      → found parts stored j (record m { red_pebbles = put id item m.red_pebbles; dirty = dirty' })
        ≡ added id item j (found parts stored j m)
  heated_found id j item m dirty' = elim (Bool-cases (key.same j id)) [
    | inl q ↦ rw (get-put j id item m.red_pebbles, q) refl
    | inr q ↦ rw (get-put j id item m.red_pebbles, q) refl
  ]

  auto_grow_lem :
      (m : PebbleManager K T N W C S)
      → (cap : ℕ) × (m.hot_capacity ≤ cap) × (auto_grow parts m ≡ record m { hot_capacity = cap })
  unfolding auto_grow
  auto_grow_lem m = elim (Bool-cases m.auto_resize) [
    | inr fixed ↦ (m.hot_capacity, omega arith, ap (λ b. if b then grown else m) fixed)
    | inl free ↦ elim (Bool-cases (ltb m.hot_capacity (max (isqrt (total parts m)) 1))) [
      | inr enough ↦ (
        m.hot_capacity,
        omega arith,
        ap (λ b. if b then grown else m) free ∙ ap (λ b. if b then larger else m) enough,
      )
      | inl small ↦ (
        max (isqrt (total parts m)) 1,
        omega (arith, ltb→lt _ _ small),
        ap (λ b. if b then grown else m) free ∙ ap (λ b. if b then larger else m) small,
      )
    ]
  ]
    where
      larger : PebbleManager K T N W C S
      larger = record m { hot_capacity = max (isqrt (total parts m)) 1 }

      grown : PebbleManager K T N W C S
      grown = if ltb m.hot_capacity (max (isqrt (total parts m)) 1) then larger else m

  -- A new node is put into fast memory where there is room.
  pub register_hot_lem :
      (id : K) (item : T) (m : PebbleManager K T N W C S)
      → IsSound parts Valid stored m
      → IsUnique m.red_pebbles
      → length m.red_pebbles < m.hot_capacity
      → found parts stored id m ≡ none
      → contains_key id m.dag.nodes ≡ true
      → ((j : K) → contains_key j m.dag.nodes ≡ false → found parts stored j m ≡ none)
      → IsManaged (register_hot parts id item m)
        × ((j : K)
            → found parts stored j (register_hot parts id item m)
              ≡ added id item j (found parts stored j m))
  unfolding register_hot
  register_hot_lem id item m sound unique room missing node known =
      let absent = found-none id m sound missing in
      let hot = record m {
        red_pebbles = put id item m.red_pebbles;
        dirty = insert id m.dirty;
        checkpoints_added = saturating_add m.checkpoints_added 1;
        branches = track id m.branches;
      } in
      let (cap, le, grows) = auto_grow_lem hot in
      rw grows (
        record {
          sound =
              frame
                (record m { red_pebbles = put id item m.red_pebbles; dirty = insert id m.dirty })
                m.dag cap (saturating_add m.checkpoints_added 1) m.io_reads m.warm_hits m.cold_loads
                (track id m.branches) (heated-IsSound id item m sound absent);
          unique = put-IsUnique id item m.red_pebbles unique;
          pos = omega (arith, le);
          fits = omega (arith, le, length-put_le id item m.red_pebbles);
          known = λ j unknown. elim (same-cases j id) [
            | inl (p, _) ↦
                absurd
                  (true≢false (sym node ∙ ap (λ k. contains_key k m.dag.nodes) (sym p) ∙ unknown))
            | inr q ↦ heated_found id j item m (insert id m.dirty) ∙ rw q (known j unknown)
          ];
        },
        λ j. heated_found id j item m (insert id m.dirty),
      )
