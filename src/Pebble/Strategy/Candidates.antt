-- ===== src/Pebble/Strategy/Candidates.antt =====
-- pebble/src/strategy.rs: what is selected for eviction, and that something is.
use abmac_lib.Prelude.{
  ℕ, ◌≤◌, ◌<◌, ◌≡◌, refl, sym, ap, ◌∙◌, true, false, ◌⊎◌, inl, inr, List, [], ◌∷◌, some, length,
  Bool-cases, Option-cases, arith, dec_lt, length-take, some-inj,
}
use abmac_lib.Hash.{Key}
use abmac_lib.Hash.Sets.{
  contains, same-cases, true≢false, same_self, contains-cons, contains-cons_self,
}
use abmac_lib.Hash.Maps.{get, contains_key}
use abmac_lib.Pebble.Dag.{DagNode, ComputationDag}
use abmac_lib.Pebble.Strategy.{
  Strategy, ordered, any_active, is_candidate, free_nodes, get_eviction_candidates,
  select_eviction_candidates, access_key,
}
use abmac_lib.Pebble.Strategy.Orders.{
  contains-sort_by_key, contains-take, some_element, contains-ordered,
}

module _ {ℓ} {K : Type ℓ} ⦃key : Key K⦄ where
  -- Whatever depends on a node was created after it.
  abbrev pub IsOrdered : List (K × DagNode K) → Type ℓ
  IsOrdered nodes =
      (k d : K) (n n' : DagNode K)
      → get k nodes ≡ some n
      → contains d n.dependents ≡ true
      → get d nodes ≡ some n'
      → n.creation_time < n'.creation_time

pub no_key {ℓ κ} :
    {K : Type ℓ} (V : Type κ) ⦃key : Key K⦄ (k : K) → contains_key {V = V} k [] ≡ true → ⊥
unfolding contains_key
no_key V k h = true≢false (sym h)

same_node {ℓ} :
    {K : Type ℓ} ⦃key : Key K⦄ (j k : K) (m n : DagNode K) (nodes : List (K × DagNode K))
    → j ≡ k
    → get k nodes ≡ some n
    → get j nodes ≡ some m
    → m ≡ n
same_node j k m n nodes e found found' = some-inj (sym found' ∙ ap (λ x. get x nodes) e ∙ found)

module _ {ℓ κ} {K : Type ℓ} {V : Type κ} ⦃key : Key K⦄ where
  -- A node of fast memory on which no other one there depends.
  abbrev pub IsFree : K → List (K × V) → List (K × DagNode K) → Type 0
  IsFree k active nodes =
      (contains_key k active ≡ true) × (is_candidate (get k nodes) active ≡ true)

  contains-free_nodes :
      (k : K) (es active : List (K × V)) (nodes : List (K × DagNode K))
      → contains k (free_nodes es active nodes) ≡ true
      → (contains_key k es ≡ true) × (is_candidate (get k nodes) active ≡ true)
  unfolding contains free_nodes contains_key
  contains-free_nodes k [] active nodes h = absurd (true≢false (sym h))
  contains-free_nodes k (e ∷ es) active nodes h =
      elim (Bool-cases (is_candidate (get e.0 nodes) active)) [
        | inl free ↦ elim (same-cases k e.0) [
          | inl (p, q) ↦ rw (q, p) (refl, free)
          | inr q ↦ rw q (contains-free_nodes k es active nodes (rw (free, q) at h))
        ]
        | inr busy ↦
            let (there, free) = contains-free_nodes k es active nodes (rw busy at h) in
            (ground (arith, there), free)
      ]

  free_nodes-contains :
      (k : K) (es active : List (K × V)) (nodes : List (K × DagNode K))
      → contains_key k es ≡ true
      → is_candidate (get k nodes) active ≡ true
      → contains k (free_nodes es active nodes) ≡ true
  unfolding contains free_nodes contains_key
  free_nodes-contains k [] active nodes h free = absurd (true≢false (sym h))
  free_nodes-contains k (e ∷ es) active nodes h free = elim (same-cases k e.0) [
    | inl (p, q) ↦ rw (← p, free, same_self k) refl
    | inr q ↦ ground (arith, free_nodes-contains k es active nodes (rw q at h) free)
  ]

  contains-candidates :
      (k : K) (active : List (K × V)) (dag : ComputationDag K)
      → contains k (get_eviction_candidates active dag)
        ≡ contains k (free_nodes active active dag.nodes)
  unfolding get_eviction_candidates
  contains-candidates k active dag =
      contains-sort_by_key (λ id. access_key (get id dag.nodes)) k
        (free_nodes active active dag.nodes)

  none_active :
      (ds : List K) (active : List (K × V))
      → any_active ds active ≡ false
      → (d : K) → contains d ds ≡ true
      → contains_key d active ≡ false
  unfolding any_active contains
  none_active [] active h d listed = absurd (true≢false (sym listed))
  none_active (x ∷ ds) active h d listed = elim (Bool-cases (contains_key x active)) [
    | inl busy ↦ absurd (true≢false (rw busy at h))
    | inr idle ↦ elim (same-cases d x) [
      | inl (p, _) ↦ rw p idle
      | inr q ↦ none_active ds active (rw idle at h) d (rw q at listed)
    ]
  ]

  -- In fast memory, and a node of which no dependent is there.
  abbrev pub IsIdle : K → List (K × V) → List (K × DagNode K) → Type ℓ
  IsIdle k active nodes =
      (contains_key k active ≡ true)
      × (n : DagNode K) × (get k nodes ≡ some n)
      × ((d : K) → contains d n.dependents ≡ true → contains_key d active ≡ false)

  candidate-IsIdle :
      (k : K) (active : List (K × V)) (nodes : List (K × DagNode K))
      → IsFree k active nodes
      → IsIdle k active nodes
  candidate-IsIdle k active nodes (there, free) = elim (Option-cases (get k nodes)) [
    | inl unknown ↦ absurd (true≢false (sym (rw unknown at free)))
    | inr (n, found) ↦ (
      there,
      n,
      found,
      elim (Bool-cases (any_active n.dependents active)) [
        | inl busy ↦ absurd (true≢false (sym (rw (found, busy) at free)))
        | inr idle ↦ none_active n.dependents active idle
      ],
    )
  ]

  -- At most the target is selected for eviction, and only nodes of the graph that are in fast
  -- memory and none of whose dependents is in fast memory.
  pub select_eviction_candidates_bounds :
      (s : Strategy) (active : List (K × V)) (dag : ComputationDag K) (target : ℕ)
      → (length (select_eviction_candidates s active dag target) ≤ target)
        × ((k : K)
            → contains k (select_eviction_candidates s active dag target) ≡ true
            → IsIdle k active dag.nodes)
  unfolding select_eviction_candidates
  select_eviction_candidates_bounds s active dag target = (
    omega (arith, length-take target (ordered s dag (get_eviction_candidates active dag))),
    λ k h. candidate-IsIdle k active dag.nodes (
        contains-free_nodes k active active dag.nodes (
          sym (contains-candidates k active dag)
          ∙ sym (contains-ordered k s dag (get_eviction_candidates active dag))
          ∙ contains-take k target _ h)),
  )

  -- Something is selected if there is a node to select.
  select-some :
      (k : K) (s : Strategy) (active : List (K × V)) (dag : ComputationDag K) (target : ℕ)
      → IsFree k active dag.nodes
      → 1 ≤ target
      → 0 < length (select_eviction_candidates s active dag target)
  unfolding select_eviction_candidates
  select-some k s active dag target free pos =
      let some_free = some_element k (ordered s dag (get_eviction_candidates active dag)) (
        contains-ordered k s dag (get_eviction_candidates active dag)
        ∙ contains-candidates k active dag
        ∙ free_nodes-contains k active active dag.nodes free.0 free.1) in
      omega
        (arith, some_free, length-take target (ordered s dag (get_eviction_candidates active dag)))

  -- Every entry of `es` is a node.
  abbrev pub AreNodes : List (K × V) → List (K × DagNode K) → Type ℓ
  AreNodes es nodes = (k : K) → contains_key k es ≡ true → (n : DagNode K) × (get k nodes ≡ some n)

  abbrev IsNewest : K → DagNode K → List (K × V) → List (K × DagNode K) → Type ℓ
  IsNewest k n es nodes =
      (contains_key k es ≡ true)
      × (get k nodes ≡ some n)
      × ((j : K) (m : DagNode K)
          → contains_key j es ≡ true
          → get j nodes ≡ some m
          → m.creation_time ≤ n.creation_time)

  key_self : (e : K × V) (es : List (K × V)) → contains_key e.0 (e ∷ es) ≡ true
  unfolding contains_key
  key_self e es = rw (same_self e.0) refl

  key_behind :
      (k : K) (e : K × V) (es : List (K × V))
      → contains_key k es ≡ true
      → contains_key k (e ∷ es) ≡ true
  unfolding contains_key
  key_behind k e es h = ground (arith, h)

  key-cases :
      (k : K) (e : K × V) (es : List (K × V))
      → contains_key k (e ∷ es) ≡ true
      → (k ≡ e.0) ⊎ (contains_key k es ≡ true)
  unfolding contains_key
  key-cases k e es h = elim (same-cases k e.0) [ inl (p, _) ↦ inl p | inr q ↦ inr (rw q at h) ]

  newest :
      (e : K × V) (es : List (K × V)) (nodes : List (K × DagNode K))
      → AreNodes (e ∷ es) nodes
      → (k : K) × (n : DagNode K) × IsNewest k n (e ∷ es) nodes
  newest e [] nodes known =
      let (n, found) = known e.0 (key_self e []) in
      (
        e.0,
        n,
        (
          key_self e [],
          found,
          λ j m there found'. elim (key-cases j e [] there) [
            | inl p ↦ rw (same_node j e.0 m n nodes p found found') (omega arith)
            | inr none_left ↦ absurd (no_key V j none_left)
          ],
        ),
      )
  newest e (f ∷ es) nodes known =
      let (n, found) = known e.0 (key_self e (f ∷ es)) in
      let (k, r, (there, at, all)) =
        newest f es nodes (λ j h. known j (key_behind j e (f ∷ es) h)) in
      elim (dec_lt n.creation_time r.creation_time) [
        | yes later ↦ (
          k,
          r,
          (
            key_behind k e (f ∷ es) there,
            at,
            λ j m h found'. elim (key-cases j e (f ∷ es) h) [
              | inl p ↦ rw (same_node j e.0 m n nodes p found found') (omega arith)
              | inr rest ↦ all j m rest found'
            ],
          ),
        )
        | no earlier ↦ (
          e.0,
          n,
          (
            key_self e (f ∷ es),
            found,
            λ j m h found'. elim (key-cases j e (f ∷ es) h) [
              | inl p ↦ rw (same_node j e.0 m n nodes p found found') (omega arith)
              | inr rest ↦ omega (arith, all j m rest found')
            ],
          ),
        )
      ]

  no_active :
      (ds : List K) (active : List (K × V))
      → ((d : K) → contains d ds ≡ true → contains_key d active ≡ false)
      → any_active ds active ≡ false
  unfolding any_active
  no_active [] active h = refl
  no_active (d ∷ ds) active h =
      rw (h d (contains-cons_self d ds))
        (no_active ds active (λ d' q. h d' (contains-cons d' d ds q)))

  -- The newest node of fast memory is free.
  newest-IsFree :
      (k : K) (n : DagNode K) (active : List (K × V)) (nodes : List (K × DagNode K))
      → AreNodes active nodes
      → IsOrdered nodes
      → IsNewest k n active nodes
      → IsFree k active nodes
  newest-IsFree k n active nodes known ordered_nodes (there, found, all) =
      (there, rw (found, no_active n.dependents active idle) refl)
    where
      idle : (d : K) → contains d n.dependents ≡ true → contains_key d active ≡ false
      idle d listed = elim (Bool-cases (contains_key d active)) [
        | inr e ↦ e
        | inl e ↦
            let (n', found') = known d e in
            absurd (omega (arith, ordered_nodes k d n n' found listed found', all d n' e found'))
      ]

  -- If fast memory is not empty, its checkpoints are nodes of a graph in which whatever depends on
  -- a node was created after it, and at least one is asked for, then something is selected for
  -- eviction.
  pub select_eviction_candidates_nonempty :
      (s : Strategy) (active : List (K × V)) (dag : ComputationDag K) (target : ℕ)
      → AreNodes active dag.nodes
      → IsOrdered dag.nodes
      → 1 ≤ length active
      → 1 ≤ target
      → 0 < length (select_eviction_candidates s active dag target)
  select_eviction_candidates_nonempty s [] dag target known ordered_nodes some_active pos =
      absurd (omega arith)
  select_eviction_candidates_nonempty s (e ∷ es) dag target known ordered_nodes some_active pos =
      let (k, n, h) = newest e es dag.nodes known in
      select-some k s (e ∷ es) dag target
        (newest-IsFree k n (e ∷ es) dag.nodes known ordered_nodes h) pos
