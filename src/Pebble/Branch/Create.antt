-- ===== src/Pebble/Branch/Create.antt =====
-- pebble/src/manager/branch.rs: `create_branch` keeps the tree of the branches, and their names apart.
use abmac_lib.Prelude.{
  ℕ, suc, ◌+◌, ◌<◌, ◌≡◌, ◌≢◌, refl, sym, ap, ◌∙◌, subst, ◌⊎◌, inl, inr, true, false, List, [], ◌∷◌,
  none, some, wrapping_add, word, ok, err, arith, Bool-cases, none≢some,
}
use native.Mathlib.Nat.{mod-eq_of_lt}
use abmac_lib.Hash.{Key, nat_key}
use abmac_lib.Hash.Sets.{ne→same, true≢false}
use abmac_lib.Hash.Maps.{
  get, contains_key, put, get-nil, get-put-cases, get-put_ne, get-put_self, get-cons-cases,
  contains_key-get,
}
use abmac_lib.Pebble.Branch.{
  head_id, BranchInfo, BranchError, branch_not_found, name_already_used, BranchTracker, new_tracker,
  has_name, create_branch,
}
use abmac_lib.Pebble.Branch.Lineage.{HasOrigin, IsTree}

module _ {ℓ κ} {N : Type ℓ} {K : Type κ} ⦃names : Key N⦄ where
  -- No two branches have the same name.
  abbrev pub HasUniqueNames : BranchTracker N K → Type (ℓ ⊔ κ)
  HasUniqueNames t =
      (i j : ℕ) (a b : BranchInfo N K)
      → get i t.branches ≡ some a
      → get j t.branches ≡ some b
      → a.name ≡ b.name
      → i ≡ j

  has_name-false :
      (name : N) (branches : List (ℕ × BranchInfo N K)) (i : ℕ) (b : BranchInfo N K)
      → has_name name branches ≡ false
      → get i branches ≡ some b
      → names.same b.name name ≡ false
  unfolding has_name get
  has_name-false name [] i b h found = absurd (none≢some found)
  has_name-false name (e ∷ branches) i b h found = elim (Bool-cases (names.same e.1.name name)) [
    | inl p ↦ absurd (true≢false (rw p at h))
    | inr p ↦ elim (get-cons-cases i e branches b found) [
      | inl q ↦ rw (← q) p
      | inr (_, q) ↦ has_name-false name branches i b (rw p at h) q
    ]
  ]

  -- The tracker with a branch added under the next number.
  abbrev grown : BranchInfo N K → BranchTracker N K → BranchTracker N K
  grown added t = record t {
    next_id = wrapping_add t.next_id 1;
    branches = put t.next_id added t.branches;
  }

  module _ (t : BranchTracker N K) (h : IsTree t) (added : BranchInfo N K) where
    old_branch :
        (i : ℕ) (b : BranchInfo N K)
        → get i t.branches ≡ some b
        → get i (put t.next_id added t.branches) ≡ some b
    old_branch i b found =
        get-put_ne i t.next_id added t.branches
          (ne→same i t.next_id (λ e. absurd (omega (arith, h.older i b found, e))))
        ∙ found

    grown-IsTree :
        (parent : ℕ)
        → suc t.next_id < word
        → contains_key parent t.branches ≡ true
        → added.id ≡ t.next_id
        → added.parent ≡ some parent
        → IsTree (grown added t)
    grown-IsTree parent room there name up = record {
      named = λ i b found. elim (get-put-cases i t.next_id added t.branches b found) [
        | inl (e, p) ↦ ap (λ x. x.id) (sym p) ∙ name ∙ sym e
        | inr (_, q) ↦ h.named i b q
      ];
      older = λ i b found. elim (get-put-cases i t.next_id added t.branches b found) [
        | inl (e, p) ↦ rw (next, e) (omega arith)
        | inr (_, q) ↦ rw next (omega (arith, h.older i b q))
      ];
      origin = λ i b found. elim (get-put-cases i t.next_id added t.branches b found) [
        | inl (e, p) ↦
            subst (λ x. HasOrigin x (put t.next_id added t.branches)) p
              (inr (elim (contains_key-get parent t.branches) [
                | inl (q, above, _) ↦
                    (parent, q, up, old_branch parent q above, rw name (h.older parent q above))
                | inr (_, absent) ↦ absurd (true≢false (sym there ∙ absent))
              ]))
        | inr (_, found') ↦ elim (h.origin i b found') [
          | inl top ↦ inl top
          | inr (p, q, climbs, above, lt) ↦ inr (p, q, climbs, old_branch p q above, lt)
        ]
      ];
      unused = rw next room;
    }
      where
        next : wrapping_add t.next_id 1 ≡ suc t.next_id
        next = omega (arith, mod-eq_of_lt {n = t.next_id + 1} {m = word} (omega arith))

    grown-HasUniqueNames :
        HasUniqueNames t → has_name added.name t.branches ≡ false → HasUniqueNames (grown added t)
    grown-HasUniqueNames unique fresh i j a b fa fb same_name =
        elim (get-put-cases i t.next_id added t.branches a fa) [
          | inl (e, p) ↦ elim (get-put-cases j t.next_id added t.branches b fb) [
            | inl (e', _) ↦ e ∙ sym e'
            | inr (_, q) ↦ absurd (clash j b q (sym same_name ∙ ap (λ x. x.name) (sym p)))
          ]
          | inr (_, q) ↦ elim (get-put-cases j t.next_id added t.branches b fb) [
            | inl (_, p) ↦ absurd (clash i a q (same_name ∙ ap (λ x. x.name) (sym p)))
            | inr (_, q') ↦ unique i j a b q q' same_name
          ]
        ]
      where
        clash : (k : ℕ) (c : BranchInfo N K) → get k t.branches ≡ some c → c.name ≢ added.name
        clash k c found e = true≢false (
            sym ((names.same_iff c.name added.name).1 e)
            ∙ has_name-false added.name t.branches k c fresh found)

  -- `create_branch` on an existing parent, with an unused name and a number to spare, adds a child
  -- of the parent under the next number, leaves the other branches alone, and keeps the tree of
  -- the branches and their names apart.
  pub create_branch_lem :
      (name : N) (fork_point : K) (parent : ℕ) (t : BranchTracker N K)
      → IsTree t
      → HasUniqueNames t
      → suc t.next_id < word
      → contains_key parent t.branches ≡ true
      → has_name name t.branches ≡ false
      → (t' : BranchTracker N K) × (create_branch name fork_point parent t ≡ (ok t.next_id, t'))
        × IsTree t'
        × HasUniqueNames t'
        × ((b : BranchInfo N K) × (get t.next_id t'.branches ≡ some b)
            × (b.name ≡ name)
            × (b.parent ≡ some parent)
            × (b.fork_point ≡ some fork_point))
        × ((i : ℕ) → i < t.next_id → get i t'.branches ≡ get i t.branches)
  unfolding create_branch
  create_branch_lem name fork_point parent t h unique room there fresh = (
    grown added t,
    rw (there, fresh) refl,
    grown-IsTree t h added parent room there refl refl,
    grown-HasUniqueNames t h added unique fresh,
    (added, get-put_self t.next_id added t.branches, refl, refl, refl),
    λ i lt.
        get-put_ne i t.next_id added t.branches
          (ne→same i t.next_id (λ e. absurd (omega (arith, e, lt)))),
  )
    where
      added : BranchInfo N K
      added = record {
        id = t.next_id;
        name = name;
        fork_point = some fork_point;
        parent = some parent;
        head = none;
      }

  -- Without its parent, or with a name that is in use, no branch is created.
  pub create_branch-refused :
      (name : N) (fork_point : K) (parent : ℕ) (t : BranchTracker N K)
      → (contains_key parent t.branches ≡ false) ⊎ (has_name name t.branches ≡ true)
      → (e : BranchError N) × (create_branch name fork_point parent t ≡ (err e, t))
  unfolding create_branch
  create_branch-refused name fork_point parent t h =
      elim (Bool-cases (contains_key parent t.branches)) [
        | inr absent ↦ (branch_not_found parent, rw absent refl)
        | inl there ↦ elim h [
          | inl absent ↦ absurd (true≢false (sym there ∙ absent))
          | inr used ↦ (name_already_used name, rw (there, used) refl)
        ]
      ]

  pub new_tracker-HasUniqueNames : (name : N) → HasUniqueNames (new_tracker name)
  unfolding new_tracker
  new_tracker-HasUniqueNames name i j a b fa fb e =
      only i a (get-put-cases i head_id _ [] a fa)
      ∙ sym (only j b (get-put-cases j head_id _ [] b fb))
    where
      only :
          (k : ℕ) (c : BranchInfo N K) {p : Type (ℓ ⊔ κ)} {q : Type 0}
          → ((k ≡ head_id) × p) ⊎ (q × (get k [] ≡ some c))
          → k ≡ head_id
      only k c (inl (e', _)) = e'
      only k c (inr (_, found)) = absurd (none≢some (sym (get-nil k) ∙ found))
