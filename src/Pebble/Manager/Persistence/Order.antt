-- ===== src/Pebble/Manager/Persistence/Order.antt =====
-- pebble/src/manager/pebble_manager.rs: what `flush` sorts by the time of creation is the same set of
-- checkpoints.
use abmac_lib.Prelude.{
  ◌≡◌, refl, sym, ap, ◌∙◌, Bool, true, false, inl, inr, List, [], ◌∷◌, some, if◌then◌else◌,
  Bool-cases,
}
use abmac_lib.Prelude.Sorting.{SortKey, key_le, insert_by_key, sort_by_key}
use abmac_lib.Hash.{Key}
use abmac_lib.Hash.Sets.{same-cases, same_flip, true≢false}
use abmac_lib.Hash.Maps.{get, contains_key, IsUnique}

swap_ifs {ℓ} :
    {A : Type ℓ} (s t : Bool) (x y z : A)
    → ((s ≡ true) → (t ≡ true) → ⊥)
    → (if t then y else if s then x else z) ≡ (if s then x else if t then y else z)
swap_ifs true true x y z h = absurd (h refl refl)
swap_ifs true false x y z h = refl
swap_ifs false true x y z h = refl
swap_ifs false false x y z h = refl

swap_same {ℓ} :
    {A : Type ℓ} (s t : Bool) (x z : A)
    → (if t then x else if s then x else z) ≡ (if s then x else if t then x else z)
swap_same true true x z = refl
swap_same true false x z = refl
swap_same false t x z = refl

module _ {ℓ κ} {K : Type ℓ} {V : Type κ} ⦃key : Key K⦄ (f : K × V → SortKey) where
  contains_key-insert_by_key :
      (j : K) (x : K × V) (ys : List (K × V))
      → contains_key j (insert_by_key f x ys) ≡ contains_key j (x ∷ ys)
  unfolding contains_key insert_by_key
  contains_key-insert_by_key j x [] = refl
  contains_key-insert_by_key j x (y ∷ ys) = elim (Bool-cases (key_le (f x) (f y))) [
    | inl le ↦ rw le refl
    | inr gt ↦
        rw (gt, contains_key-insert_by_key j x ys)
          (swap_same (key.same j x.0) (key.same j y.0) true (contains_key j ys))
  ]

  apart :
      (x y : K × V) (ys : List (K × V))
      → contains_key x.0 (y ∷ ys) ≡ false
      → key.same x.0 y.0 ≡ false
  unfolding contains_key
  apart x y ys h = elim (Bool-cases (key.same x.0 y.0)) [
    | inl q ↦ absurd (true≢false (rw q at h))
    | inr q ↦ q
  ]

  behind :
      (x y : K × V) (ys : List (K × V))
      → contains_key x.0 (y ∷ ys) ≡ false
      → contains_key x.0 ys ≡ false
  unfolding contains_key
  behind x y ys h = elim (Bool-cases (key.same x.0 y.0)) [
    | inl q ↦ absurd (true≢false (rw q at h))
    | inr q ↦ rw q at h
  ]

  both :
      (j : K) (x y : K × V)
      → key.same x.0 y.0 ≡ false
      → key.same j x.0 ≡ true
      → key.same j y.0 ≡ true
      → ⊥
  both j x y h p q = elim (same-cases j x.0) [
    | inl (e, _) ↦ true≢false (sym q ∙ ap (λ k. key.same k y.0) e ∙ h)
    | inr r ↦ true≢false (sym p ∙ r)
  ]

  get-insert_by_key :
      (j : K) (x : K × V) (ys : List (K × V))
      → contains_key x.0 ys ≡ false
      → get j (insert_by_key f x ys) ≡ get j (x ∷ ys)
  unfolding get insert_by_key
  get-insert_by_key j x [] h = refl
  get-insert_by_key j x (y ∷ ys) h = elim (Bool-cases (key_le (f x) (f y))) [
    | inl le ↦ rw le refl
    | inr gt ↦
        rw (gt, get-insert_by_key j x ys (behind x y ys h))
          (swap_ifs (key.same j x.0) (key.same j y.0) (some x.1) (some y.1) (get j ys)
            (both j x y (apart x y ys h)))
  ]

  not_cons :
      (j : K) (e : K × V) (es : List (K × V))
      → key.same j e.0 ≡ false
      → contains_key j es ≡ false
      → contains_key j (e ∷ es) ≡ false
  unfolding contains_key
  not_cons j e es p q = rw p q

  insert_by_key-IsUnique :
      (x : K × V) (ys : List (K × V))
      → contains_key x.0 ys ≡ false
      → IsUnique ys
      → IsUnique (insert_by_key f x ys)
  unfolding insert_by_key
  insert_by_key-IsUnique x [] h u = (h, tt)
  insert_by_key-IsUnique x (y ∷ ys) h (u, us) = elim (Bool-cases (key_le (f x) (f y))) [
    | inl le ↦ rw le (h, (u, us))
    | inr gt ↦ rw gt (
      contains_key-insert_by_key y.0 x ys ∙ other,
      insert_by_key-IsUnique x ys (behind x y ys h) us,
    )
  ]
    where
      other : contains_key y.0 (x ∷ ys) ≡ false
      other = not_cons y.0 x ys (same_flip x.0 y.0 (apart x y ys h)) u

  contains_key-sort_by_key :
      (j : K) (es : List (K × V)) → contains_key j (sort_by_key f es) ≡ contains_key j es
  unfolding contains_key sort_by_key
  contains_key-sort_by_key j [] = refl
  contains_key-sort_by_key j (e ∷ es) =
      contains_key-insert_by_key j e (sort_by_key f es)
      ∙ ap (λ b. if key.same j e.0 then true else b) (contains_key-sort_by_key j es)

  pub get-sort_by_key :
      (j : K) (es : List (K × V)) → IsUnique es → get j (sort_by_key f es) ≡ get j es
  unfolding get sort_by_key
  get-sort_by_key j [] h = refl
  get-sort_by_key j (e ∷ es) (h, hs) =
      get-insert_by_key j e (sort_by_key f es) (contains_key-sort_by_key e.0 es ∙ h)
      ∙ ap (λ o. if key.same j e.0 then some e.1 else o) (get-sort_by_key j es hs)

  pub sort_by_key-IsUnique : (es : List (K × V)) → IsUnique es → IsUnique (sort_by_key f es)
  unfolding sort_by_key
  sort_by_key-IsUnique [] h = tt
  sort_by_key-IsUnique (e ∷ es) (h, hs) =
      insert_by_key-IsUnique e (sort_by_key f es) (contains_key-sort_by_key e.0 es ∙ h)
        (sort_by_key-IsUnique es hs)
