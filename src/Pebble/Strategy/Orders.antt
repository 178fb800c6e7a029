-- ===== src/Pebble/Strategy/Orders.antt =====
-- pebble/src/strategy.rs: the orders of a strategy keep the elements.
use abmac_lib.Prelude.{
  ℕ, zero, suc, ◌<◌, ◌≡◌, refl, sym, ap, ◌∙◌, Bool, true, false, ◌||◌, inl, inr, List, [], ◌∷◌,
  length, take, Bool-cases, arith,
}
use abmac_lib.Prelude.Sorting.{SortKey, insert_by_key, sort_by_key, length-sort_by_key}
use abmac_lib.Hash.{Key}
use abmac_lib.Hash.Sets.{contains, true≢false}
use abmac_lib.Hash.Maps.{get}
use abmac_lib.Pebble.Dag.{ComputationDag}
use abmac_lib.Pebble.Strategy.{
  Strategy, tree, dag_strategy, ordered, leaf_key, postorder_key, or_max, priority_key,
}

swap_tests : (a b c : Bool) → (a || (b || c)) ≡ (b || (a || c))
swap_tests true true c = refl
swap_tests true false c = refl
swap_tests false b c = refl

module _ {ℓ} {K : Type ℓ} ⦃key : Key K⦄ where
  module _ (f : K → SortKey) where
    contains-insert_by_key :
        (k x : K) (ys : List K) → contains k (insert_by_key f x ys) ≡ contains k (x ∷ ys)
    unfolding insert_by_key contains
    contains-insert_by_key k x [] = refl
    contains-insert_by_key k x (y ∷ ys) = ground (
      arith,
      contains-insert_by_key k x ys,
      swap_tests (key.same k y) (key.same k x) (contains k ys),
    )

    pub contains-sort_by_key : (k : K) (xs : List K) → contains k (sort_by_key f xs) ≡ contains k xs
    unfolding sort_by_key contains
    contains-sort_by_key k [] = refl
    contains-sort_by_key k (x ∷ xs) =
        contains-insert_by_key k x (sort_by_key f xs)
        ∙ ap (λ b. key.same k x || b) (contains-sort_by_key k xs)

  pub contains-take :
      (k : K) (n : ℕ) (xs : List K) → contains k (take n xs) ≡ true → contains k xs ≡ true
  unfolding contains
  contains-take k zero xs h = absurd (true≢false (sym h))
  contains-take k (suc n) [] h = absurd (true≢false (sym h))
  contains-take k (suc n) (x ∷ xs) h = ground (arith, contains-take k n xs)

  pub some_element : (k : K) (xs : List K) → contains k xs ≡ true → 0 < length xs
  unfolding contains
  some_element k [] h = absurd (true≢false (sym h))
  some_element k (x ∷ xs) h = omega arith

  pub contains-ordered :
      (k : K) (s : Strategy) (dag : ComputationDag K) (ids : List K)
      → contains k (ordered s dag ids) ≡ contains k ids
  contains-ordered k (dag_strategy s) dag ids =
      contains-sort_by_key
        (λ id. priority_key s.priority_mode (or_max (get id dag.critical_paths)) (get id dag.nodes))
        k ids
  contains-ordered k (tree s) dag ids = elim (Bool-cases s.leaf_first) [
    | inl a ↦ rw a (contains-sort_by_key (λ id. leaf_key (get id dag.nodes)) k ids)
    | inr a ↦ elim (Bool-cases s.postorder_priority) [
      | inl b ↦
          rw (a, b)
            (contains-sort_by_key
              (λ id. postorder_key (or_max (get id dag.critical_paths)) (get id dag.nodes)) k ids)
      | inr b ↦ rw (a, b) refl
    ]
  ]

  pub length-ordered :
      (s : Strategy) (dag : ComputationDag K) (ids : List K)
      → length (ordered s dag ids) ≡ length ids
  length-ordered (dag_strategy s) dag ids =
      length-sort_by_key
        (λ id. priority_key s.priority_mode (or_max (get id dag.critical_paths)) (get id dag.nodes))
        ids
  length-ordered (tree s) dag ids = elim (Bool-cases s.leaf_first) [
    | inl a ↦ rw a (length-sort_by_key (λ id. leaf_key (get id dag.nodes)) ids)
    | inr a ↦ elim (Bool-cases s.postorder_priority) [
      | inl b ↦
          rw (a, b)
            (length-sort_by_key
              (λ id. postorder_key (or_max (get id dag.critical_paths)) (get id dag.nodes)) ids)
      | inr b ↦ rw (a, b) refl
    ]
  ]
