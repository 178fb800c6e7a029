-- ===== src/Pebble/Branch/Lineage.antt =====
-- pebble/src/manager/branch.rs: every branch descends from HEAD, so that the walk to its root ends.
use abmac_lib.Prelude.{
  ℕ, zero, suc, ◌≤◌, ◌<◌, ◌≡◌, refl, sym, ap, ◌∙◌, subst, ◌⊎◌, inl, inr, List, [], ◌∷◌, none, some,
  word, arith, none≢some,
}
use abmac_lib.Hash.{nat_key}
use abmac_lib.Hash.Maps.{get, get-nil, get-put-cases}
use abmac_lib.Pebble.Branch.{head_id, BranchInfo, BranchTracker, new_tracker, walk, lineage}

module _ {ℓ κ} {N : Type ℓ} {K : Type κ} where
  -- A branch is HEAD, without a parent, or its parent is an older branch that is there.
  abbrev pub HasOrigin : BranchInfo N K → List (ℕ × BranchInfo N K) → Type (ℓ ⊔ κ)
  HasOrigin b branches =
      ((b.id ≡ head_id) × (b.parent ≡ none))
      ⊎ ((p : ℕ) × (q : BranchInfo N K) × (b.parent ≡ some p)
          × (get p branches ≡ some q)
          × (p < b.id))

  pub record IsTree (t : BranchTracker N K) : Type (ℓ ⊔ κ) where
    pub named : (i : ℕ) (b : BranchInfo N K) → get i t.branches ≡ some b → b.id ≡ i
    pub older : (i : ℕ) (b : BranchInfo N K) → get i t.branches ≡ some b → i < t.next_id
    pub origin : (i : ℕ) (b : BranchInfo N K) → get i t.branches ≡ some b → HasOrigin b t.branches
    pub unused : t.next_id < word

  -- The chain goes down, from parent to parent, to HEAD.
  pub data Descends (branches : List (ℕ × BranchInfo N K)) : ℕ → List ℕ → Type (ℓ ⊔ κ) where
    root :
        (b : BranchInfo N K)
        → get head_id branches ≡ some b
        → b.parent ≡ none
        → Descends branches head_id (head_id ∷ [])
    child :
        (i p : ℕ) (b : BranchInfo N K) (chain : List ℕ)
        → get i branches ≡ some b
        → b.parent ≡ some p
        → Descends branches p chain
        → Descends branches i (i ∷ chain)

  walk-root :
      (t : BranchTracker N K) (fuel i : ℕ) (b : BranchInfo N K)
      → b.id ≡ i
      → get i t.branches ≡ some b
      → b.id ≡ head_id
      → b.parent ≡ none
      → (chain : List ℕ) × (walk (suc fuel) (some b) t.branches ≡ some (i ∷ chain))
        × Descends t.branches i (i ∷ chain)
  unfolding walk
  walk-root t fuel i b name found top orphan = (
    [],
    rw (orphan, name) refl,
    subst (λ j. Descends t.branches j (j ∷ [])) (sym top ∙ name)
        (root b (subst (λ j. get j t.branches ≡ some b) (sym name ∙ top) found) orphan),
  )

  walk_lem :
      (t : BranchTracker N K) (fuel i : ℕ) (b : BranchInfo N K)
      → IsTree t
      → i ≤ fuel
      → get i t.branches ≡ some b
      → (chain : List ℕ) × (walk (suc fuel) (some b) t.branches ≡ some (i ∷ chain))
        × Descends t.branches i (i ∷ chain)
  unfolding walk
  walk_lem t zero i b h le found = elim (h.origin i b found) [
    | inl (top, orphan) ↦ walk-root t zero i b (h.named i b found) found top orphan
    | inr (p, q, up, above, lt) ↦ absurd (omega (arith, h.named i b found))
  ]
  walk_lem t (suc fuel) i b h le found = elim (h.origin i b found) [
    | inl (top, orphan) ↦ walk-root t (suc fuel) i b (h.named i b found) found top orphan
    | inr (p, q, up, above, lt) ↦
        let (chain, runs, down) = walk_lem t fuel p q h (omega (arith, h.named i b found)) above in
        (
          p ∷ chain,
          rw (up, above, runs, h.named i b found) refl,
          child i p b (p ∷ chain) found up down,
        )
  ]

  -- `lineage` of a branch that exists ends, and gives the chain from the branch, from parent to
  -- parent, to HEAD.
  pub lineage_lem :
      (t : BranchTracker N K) (i : ℕ) (b : BranchInfo N K)
      → IsTree t
      → get i t.branches ≡ some b
      → (chain : List ℕ) × (lineage i t ≡ some (some (i ∷ chain)))
        × Descends t.branches i (i ∷ chain)
  unfolding lineage
  lineage_lem t i b h found = go (walk_lem t i i b h (omega arith) found)
    where
      go :
          (chain : List ℕ) × (walk (suc i) (some b) t.branches ≡ some (i ∷ chain))
            × Descends t.branches i (i ∷ chain)
          → (chain : List ℕ) × (lineage i t ≡ some (some (i ∷ chain)))
            × Descends t.branches i (i ∷ chain)
      go (chain, runs, down) = (chain, rw (found, runs) refl, down)

  -- A new tracker has the branch HEAD and no other.
  pub new_tracker-IsTree : (name : N) → IsTree (new_tracker name)
  unfolding new_tracker
  new_tracker-IsTree name = record {
    named = λ i b found. elim (get-put-cases i head_id _ [] b found) [
      | inl (e, p) ↦ ap (λ t. t.id) (sym p) ∙ sym e
      | inr (_, none_there) ↦ absurd (none≢some (sym (get-nil i) ∙ none_there))
    ];
    older = λ i b found. elim (get-put-cases i head_id _ [] b found) [
      | inl (e, p) ↦ omega arith
      | inr (_, none_there) ↦ absurd (none≢some (sym (get-nil i) ∙ none_there))
    ];
    origin = λ i b found. elim (get-put-cases i head_id _ [] b found) [
      | inl (e, p) ↦ inl (ap (λ t. t.id) (sym p), ap (λ t. t.parent) (sym p))
      | inr (_, none_there) ↦ absurd (none≢some (sym (get-nil i) ∙ none_there))
    ];
    unused = omega arith;
  }
