-- ===== src/Pebble/Dag/Adding.antt =====
-- pebble/src/dag/mod.rs: a validated `add_node` keeps the dependencies and the dependents converse to
-- each other, and the sets of roots and leaves exact.
use abmac_lib.Prelude.{
  ◌≡◌, refl, sym, ap, ◌∙◌, subst, ◌⊎◌, inl, inr, Bool, true, false, ◌&&◌, List, [], ◌∷◌, none,
  if◌then◌else◌, Bool-cases,
}
use abmac_lib.Hash.{Key}
use abmac_lib.Hash.Sets.{contains, same-cases, same_self, true≢false}
use abmac_lib.Hash.Maps.{get, contains_key, put, get-put, contains_key-get}
use abmac_lib.Pebble.Dag.{DagNode, ComputationDag, push_dependents}
use abmac_lib.Pebble.Dag.Edges.{
  is_nil, dependencies_of, dependents_of, is_root, is_leaf, push_dependents-none,
  push_dependents-some,
}

and_true : (b : Bool) → (if b && true then true else false) ≡ b
and_true true = refl
and_true false = refl

and_false {ℓ} : {A : Type ℓ} (b : Bool) (x y : A) → (if b && false then x else y) ≡ y
and_false true x y = refl
and_false false x y = refl

module _ {ℓ} {K : Type ℓ} ⦃key : Key K⦄ where
  -- An edge is seen from both of its ends, and the roots and leaves are the nodes without
  -- dependencies and dependents.
  pub record IsGraph (dag : ComputationDag K) : Type ℓ where
    pub converse :
        (a b : K)
        → contains b (dependencies_of (get a dag.nodes))
          ≡ contains a (dependents_of (get b dag.nodes))
    pub roots : (a : K) → contains a dag.roots ≡ is_root (get a dag.nodes)
    pub leaves : (a : K) → contains a dag.leaves ≡ is_leaf (get a dag.nodes)

  is_nil-contains : (k : K) (xs : List K) → contains k xs ≡ true → is_nil xs ≡ false
  unfolding contains
  is_nil-contains k [] h = sym h
  is_nil-contains k (x ∷ xs) h = refl

  -- The nodes after `push_dependents`, where the dependencies are all there.
  module _ (id : K) (ds : List K) (nodes : List (K × DagNode K))
      (there : (j : K) → contains j ds ≡ true → contains_key j nodes ≡ true) where
    absent→unlisted : (j : K) → contains_key j nodes ≡ false → contains j ds ≡ false
    absent→unlisted j absent = elim (Bool-cases (contains j ds)) [
      | inl p ↦ absurd (true≢false (sym (there j p) ∙ absent))
      | inr p ↦ p
    ]

    pushed-dependencies :
        (j : K)
        → dependencies_of (get j (push_dependents id ds nodes)) ≡ dependencies_of (get j nodes)
    pushed-dependencies j = elim (contains_key-get j nodes) [
      | inl (n, found, _) ↦
          let (n', found', s) = push_dependents-some id j ds nodes n found in
          rw (found, found') s.same_dependencies
      | inr (e, _) ↦ rw (e, push_dependents-none id j ds nodes e) refl
    ]

    pushed-dependents :
        (a j : K)
        → contains a (dependents_of (get j (push_dependents id ds nodes))) ≡ (
            if contains j ds && key.same a id
            then true
            else contains a (dependents_of (get j nodes)))
    pushed-dependents a j = elim (contains_key-get j nodes) [
      | inl (n, found, _) ↦
          let (n', found', s) = push_dependents-some id j ds nodes n found in
          rw (found, found') (s.dependent a)
      | inr (e, absent) ↦
          rw (e, push_dependents-none id j ds nodes e, absent→unlisted j absent) refl
    ]

    pub pushed-root :
        (j : K) → is_root (get j (push_dependents id ds nodes)) ≡ is_root (get j nodes)
    pushed-root j = elim (contains_key-get j nodes) [
      | inl (n, found, _) ↦
          let (n', found', s) = push_dependents-some id j ds nodes n found in
          rw (found, found') (ap is_nil s.same_dependencies)
      | inr (e, _) ↦ rw (e, push_dependents-none id j ds nodes e) refl
    ]

    pub pushed-leaf :
        (j : K)
        → is_leaf (get j (push_dependents id ds nodes))
          ≡ (if contains j ds then false else is_leaf (get j nodes))
    pushed-leaf j = elim (contains_key-get j nodes) [
      | inr (e, absent) ↦
          rw (e, push_dependents-none id j ds nodes e, absent→unlisted j absent) refl
      | inl (n, found, _) ↦
          let (n', found', s) = push_dependents-some id j ds nodes n found in
          elim (Bool-cases (contains j ds)) [
            | inr p ↦ rw (found, found', p) (ap is_nil (s.unlisted p))
            | inl p ↦
                rw (found, found', p)
                  (is_nil-contains id n'.dependents (s.dependent id ∙ rw (p, same_self id) refl))
          ]
    ]

    -- The graph after the node `fresh` with these dependencies is put in.
    module _ (fresh : DagNode K) (deps : fresh.dependencies ≡ ds)
        (dents : fresh.dependents ≡ []) where
      pub added-dependencies :
          (b a : K)
          → contains b (dependencies_of (get a (put id fresh (push_dependents id ds nodes))))
            ≡ (if key.same a id then contains b ds else contains b (dependencies_of (get a nodes)))
      added-dependencies b a = elim (Bool-cases (key.same a id)) [
        | inl p ↦ rw (get-put a id fresh (push_dependents id ds nodes), p) (ap (contains b) deps)
        | inr p ↦
            rw (get-put a id fresh (push_dependents id ds nodes), p)
              (ap (contains b) (pushed-dependencies a))
      ]

      added-dependents :
          (a b : K)
          → contains a (dependents_of (get b (put id fresh (push_dependents id ds nodes)))) ≡ (
              if key.same b id
              then false
              else if contains b ds && key.same a id
              then true
              else contains a (dependents_of (get b nodes)))
      unfolding contains
      added-dependents a b = elim (Bool-cases (key.same b id)) [
        | inl p ↦ rw (get-put b id fresh (push_dependents id ds nodes), p) (ap (contains a) dents)
        | inr p ↦ rw (get-put b id fresh (push_dependents id ds nodes), p) (pushed-dependents a b)
      ]

      module _ (apart : contains id ds ≡ false) (new : get id nodes ≡ none)
          (old : (a b : K)
            → contains b (dependencies_of (get a nodes))
              ≡ contains a (dependents_of (get b nodes))) where
        no_dependency : (b : K) → contains b (dependencies_of (get id nodes)) ≡ false
        unfolding contains
        no_dependency b = rw new refl

        pub added-converse :
            (a b : K)
            → contains b (dependencies_of (get a (put id fresh (push_dependents id ds nodes))))
              ≡ contains a (dependents_of (get b (put id fresh (push_dependents id ds nodes))))
        unfolding contains
        added-converse a b =
            added-dependencies b a
            ∙ split (same-cases a id) (same-cases b id)
            ∙ sym (added-dependents a b)
          where
            split :
                ((a ≡ id) × (key.same a id ≡ true)) ⊎ (key.same a id ≡ false)
                → ((b ≡ id) × (key.same b id ≡ true)) ⊎ (key.same b id ≡ false)
                → (if key.same a id
                    then contains b ds
                    else contains b (dependencies_of (get a nodes)))
                  ≡ (if key.same b id
                      then false
                      else if contains b ds && key.same a id
                      then true
                      else contains a (dependents_of (get b nodes)))
            split (inl (e, p)) (inl (e', p')) =
                rw (p, p') (subst (λ k. contains k ds ≡ false) (sym e') apart)
            split (inl (e, p)) (inr p') =
                rw
                  (
                    p,
                    p',
                    ← old a b,
                    ap (λ k. contains b (dependencies_of (get k nodes))) e,
                    no_dependency b,
                  )
                  (sym (and_true (contains b ds)))
            split (inr p) (inl (e', p')) =
                rw (p, p')
                  (old a b
                    ∙ subst (λ k. contains a (dependents_of (get k nodes)) ≡ false) (sym e')
                        (ap (λ o. contains a (dependents_of o)) new))
            split (inr p) (inr p') = rw (p, p') (old a b ∙ sym (and_false (contains b ds) true _))
