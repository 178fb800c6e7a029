-- ===== src/Hash/Sets.antt =====
-- `HashSet`: membership after an insertion and a removal.
use abmac_lib.Prelude.{
  suc, ◌≤◌, ◌<◌, ◌≡◌, ◌≢◌, refl, sym, ◌∙◌, Bool, true, false, ◌||◌, ◌⊎◌, inl, inr, subst, List, [],
  ◌∷◌, ◌++◌, length, arith, if◌then◌else◌, Bool-cases,
}
use abmac_lib.Hash.{Key}

if_false : (b : Bool) → (if b then false else false) ≡ false
if_false true = refl
if_false false = refl

or_true : (b : Bool) → (b || true) ≡ true
or_true true = refl
or_true false = refl

or-if : (s c : Bool) → (s || c) ≡ (if s then true else c)
or-if true c = refl
or-if false c = refl

absorb : (s c : Bool) → (if s then false else c) ≡ (if s then false else (s || c))
absorb true c = refl
absorb false c = refl

pub true≢false : true ≢ false
true≢false e = cc

module _ {ℓ} {K : Type ℓ} ⦃key : Key K⦄ where
  pub same_self : (k : K) → key.same k k ≡ true
  same_self k = (key.same_iff k k).1 refl

  pub same→eq : (a b : K) → key.same a b ≡ true → a ≡ b
  same→eq a b = (key.same_iff a b).0

  pub ne→same : (a b : K) → a ≢ b → key.same a b ≡ false
  ne→same a b h = elim (Bool-cases (key.same a b)) [
    | inl e ↦ absurd (h (same→eq a b e))
    | inr e ↦ e
  ]

  -- Two keys are equal and found so, or found different.
  pub same-cases : (a b : K) → ((a ≡ b) × (key.same a b ≡ true)) ⊎ (key.same a b ≡ false)
  same-cases a b = elim (Bool-cases (key.same a b)) [
    | inl e ↦ inl (same→eq a b e, e)
    | inr e ↦ inr e
  ]

  pub same_flip : (a b : K) → key.same a b ≡ false → key.same b a ≡ false
  same_flip a b e = elim (same-cases b a) [
    | inl (p, q) ↦ absurd (true≢false (sym (subst (λ x. key.same x b ≡ true) p (same_self b)) ∙ e))
    | inr q ↦ q
  ]

  unfoldable pub contains : K → List K → Bool
  contains k [] = false
  contains k (x ∷ xs) = key.same k x || contains k xs

  -- An element that is there is not added again.
  unfoldable pub insert : K → List K → List K
  insert k s = if contains k s then s else k ∷ s

  unfoldable pub remove : K → List K → List K
  remove k [] = []
  remove k (x ∷ xs) = let rest = remove k xs in if key.same k x then rest else x ∷ rest

  pub contains-insert :
      (j k : K) (s : List K)
      → contains j (insert k s) ≡ (if key.same j k then true else contains j s)
  unfolding contains insert
  contains-insert j k s = elim (Bool-cases (contains k s)) [
    | inr absent ↦ rw absent (or-if (key.same j k) (contains j s))
    | inl present ↦ rw present (elim (same-cases j k) [
      | inl (e, found) ↦ rw found (rw (← e) at present)
      | inr different ↦ rw different refl
    ])
  ]

  pub contains-remove :
      (j k : K) (s : List K)
      → contains j (remove k s) ≡ (if key.same j k then false else contains j s)
  unfolding contains remove
  contains-remove j k [] = sym (if_false (key.same j k))
  contains-remove j k (x ∷ xs) = elim (same-cases k x) [
    | inl (e, found) ↦
        rw (found, ← e, contains-remove j k xs) (absorb (key.same j k) (contains j xs))
    | inr different ↦
        rw (different, contains-remove j k xs)
          (elim (same-cases j x) [
            | inl (e, found) ↦ rw (found, e, same_flip k x different) refl
            | inr other ↦ rw other refl
          ])
  ]

  pub length-remove_le : (k : K) (s : List K) → length (remove k s) ≤ length s
  unfolding remove
  length-remove_le k [] = omega arith
  length-remove_le k (x ∷ xs) = ground (arith, length-remove_le k xs)

  pub length-remove_lt : (k : K) (s : List K) → contains k s ≡ true → length (remove k s) < length s
  unfolding contains remove
  length-remove_lt k [] h = absurd (true≢false (sym h))
  length-remove_lt k (x ∷ xs) h = ground (arith, length-remove_lt k xs, length-remove_le k xs)

  pub length-insert_le : (k : K) (s : List K) → length (insert k s) ≤ suc (length s)
  unfolding insert
  length-insert_le k s = ground arith

  pub insert-present : (k : K) (s : List K) → contains k s ≡ true → insert k s ≡ s
  unfolding insert
  insert-present k s h = rw h refl

  pub contains-cons_self : (k : K) (s : List K) → contains k (k ∷ s) ≡ true
  unfolding contains
  contains-cons_self k s = rw (same_self k) refl

  pub contains-cons : (j k : K) (s : List K) → contains j s ≡ true → contains j (k ∷ s) ≡ true
  unfolding contains
  contains-cons j k s h = rw h (or_true (key.same j k))

  pub contains-append :
      (k : K) (s t : List K) → contains k (s ++ t) ≡ (if contains k s then true else contains k t)
  unfolding contains
  contains-append k [] t = refl
  contains-append k (x ∷ s) t = elim (Bool-cases (key.same k x)) [
    | inl p ↦ rw p refl
    | inr p ↦ rw p (contains-append k s t)
  ]
