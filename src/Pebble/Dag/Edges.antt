-- ===== src/Pebble/Dag/Edges.antt =====
-- pebble/src/dag/mod.rs: the edges of the graph, from both of their ends, and what `add_node` does to
-- the lists of dependents.
use abmac_lib.Prelude.{
  ◌≡◌, refl, sym, ◌∙◌, subst, inl, inr, Bool, true, false, ◌&&◌, ◌||◌, List, [], ◌∷◌, ◌++◌, Option,
  none, some, if◌then◌else◌, Bool-cases, none≢some,
}
use abmac_lib.Hash.{Key}
use abmac_lib.Hash.Sets.{contains, remove, contains-remove, contains-append, same-cases, true≢false}
use abmac_lib.Hash.Maps.{get, contains_key, get-update}
use abmac_lib.Pebble.Dag.{DagNode, dedup, first_missing, push_dependents, remove_all}

abbrev pub is_nil {ℓ} : {A : Type ℓ} → List A → Bool
is_nil [] = true
is_nil (x ∷ xs) = false

module _ {ℓ} {K : Type ℓ} where
  abbrev pub dependencies_of : Option (DagNode K) → List K
  dependencies_of none = []
  dependencies_of (some n) = n.dependencies

  abbrev pub dependents_of : Option (DagNode K) → List K
  dependents_of none = []
  dependents_of (some n) = n.dependents

  -- `dep_node.dependents.push(id)`
  abbrev with_dependent : K → DagNode K → DagNode K
  with_dependent id n = record n { dependents = n.dependents ++ id ∷ [] }

  -- A node that is there, with an empty list.
  abbrev pub is_root : Option (DagNode K) → Bool
  is_root none = false
  is_root (some n) = is_nil n.dependencies

  abbrev pub is_leaf : Option (DagNode K) → Bool
  is_leaf none = false
  is_leaf (some n) = is_nil n.dependents

-- A dependent that is listed twice is listed.
once :
    (c s x : Bool)
    → (if c && s then true else if x then true else (s || false)) ≡ (if s then true else x)
once true true x = refl
once true false true = refl
once true false false = refl
once false true true = refl
once false true false = refl
once false false true = refl
once false false false = refl

module _ {ℓ} {K : Type ℓ} ⦃key : Key K⦄ where
  pub dedup_sub :
      (b : K) (seen ds : List K) → contains b (dedup seen ds) ≡ true → contains b ds ≡ true
  unfolding dedup contains
  dedup_sub b seen [] h = h
  dedup_sub b seen (d ∷ ds) h = elim (Bool-cases (key.same b d)) [
    | inl p ↦ rw p refl
    | inr p ↦ elim (Bool-cases (contains d seen)) [
      | inl q ↦ rw p (dedup_sub b seen ds (rw q at h))
      | inr q ↦ rw p (dedup_sub b (d ∷ seen) ds (rw (q, p) at h))
    ]
  ]

  -- `dedup` keeps every element that is not seen.
  pub contains-dedup :
      (b : K) (seen ds : List K)
      → contains b seen ≡ false
      → contains b (dedup seen ds) ≡ contains b ds
  unfolding dedup contains
  contains-dedup b seen [] h = refl
  contains-dedup b seen (d ∷ ds) h = elim (Bool-cases (contains d seen)) [
    | inr q ↦ elim (Bool-cases (key.same b d)) [
      | inl p ↦ rw (q, p) refl
      | inr p ↦ rw (q, p) (contains-dedup b (d ∷ seen) ds (rw p h))
    ]
    | inl q ↦ elim (same-cases b d) [
      | inl (e, _) ↦ absurd (true≢false (sym q ∙ subst (λ k. contains k seen ≡ false) e h))
      | inr p ↦ rw (q, p) (contains-dedup b seen ds h)
    ]
  ]

  -- With no dependency missing, each is there.
  pub first_missing-none :
      (b : K) (ds : List K) (nodes : List (K × DagNode K))
      → first_missing ds nodes ≡ none
      → contains b ds ≡ true
      → contains_key b nodes ≡ true
  unfolding first_missing contains
  first_missing-none b [] nodes h c = absurd (true≢false (sym c))
  first_missing-none b (d ∷ ds) nodes h c = elim (Bool-cases (contains_key d nodes)) [
    | inr p ↦ absurd (none≢some (sym (rw p at h)))
    | inl p ↦ elim (same-cases b d) [
      | inl (e, _) ↦ subst (λ k. contains_key k nodes ≡ true) (sym e) p
      | inr q ↦ first_missing-none b ds nodes (rw p at h) (rw q at c)
    ]
  ]

  pub contains-remove_all :
      (a : K) (ds s : List K)
      → contains a (remove_all ds s) ≡ (if contains a ds then false else contains a s)
  unfolding remove_all contains
  contains-remove_all a [] s = refl
  contains-remove_all a (d ∷ ds) s =
      contains-remove_all a ds (remove d s) ∙ elim (Bool-cases (key.same a d)) [
        | inl p ↦ rw (p, contains-remove a d s, p) (either (contains a ds))
        | inr p ↦ rw (p, contains-remove a d s, p) refl
      ]
    where
      either : (c : Bool) → (if c then false else false) ≡ false
      either true = refl
      either false = refl

  -- What `push_dependents` does to a node: its dependencies are the same, and `id` is among its
  -- dependents if it is among `ds`.
  pub record Pushed (id : K) (listed : Bool) (n n' : DagNode K) : Type ℓ where
    pub same_dependencies : n'.dependencies ≡ n.dependencies
    pub unlisted : listed ≡ false → n'.dependents ≡ n.dependents
    pub dependent :
        (a : K)
        → contains a n'.dependents
          ≡ (if listed && key.same a id then true else contains a n.dependents)

  pub push_dependents-none :
      (id j : K) (ds : List K) (nodes : List (K × DagNode K))
      → get j nodes ≡ none
      → get j (push_dependents id ds nodes) ≡ none
  unfolding push_dependents
  push_dependents-none id j [] nodes h = h
  push_dependents-none id j (d ∷ ds) nodes h =
      push_dependents-none id j ds _ (get-update j d _ nodes ∙ rw h (either (key.same j d)))
    where
      either : (c : Bool) → ◌≡◌ {A = Option (DagNode K)} (if c then none else none) none
      either true = refl
      either false = refl

  pub push_dependents-some :
      (id j : K) (ds : List K) (nodes : List (K × DagNode K)) (n : DagNode K)
      → get j nodes ≡ some n
      → (n' : DagNode K) × (get j (push_dependents id ds nodes) ≡ some n')
        × Pushed id (contains j ds) n n'
  unfolding push_dependents contains
  push_dependents-some id j [] nodes n h =
      (n, h, record { same_dependencies = refl; unlisted = λ e. refl; dependent = λ a. refl })
  push_dependents-some id j (d ∷ ds) nodes n h = elim (Bool-cases (key.same j d)) [
    | inl p ↦
        let (n', found, s) =
          push_dependents-some id j ds _ (with_dependent id n)
            (get-update j d (with_dependent id) nodes ∙ rw (p, h) refl) in
        (
          n',
          found,
          rw p (record {
            same_dependencies = s.same_dependencies;
            unlisted = λ e. absurd (true≢false e);
            dependent = λ a.
                s.dependent a
                ∙ rw (contains-append a n.dependents (id ∷ []))
                    (once (contains j ds) (key.same a id) (contains a n.dependents));
          }),
        )
    | inr p ↦
        let (n', found, s) =
          push_dependents-some id j ds _ n
            (get-update j d (with_dependent id) nodes ∙ rw (p, h) refl) in
        (n', found, rw p s)
  ]
