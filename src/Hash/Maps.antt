-- ===== src/Hash/Maps.antt =====
-- `HashMap`: what is found under a key after an insertion, a removal and a change in place.
use abmac_lib.Prelude.{
  suc, ◌≤◌, ◌<◌, ◌≡◌, refl, sym, ap, ◌∙◌, Bool, true, false, ◌⊎◌, inl, inr, List, [], ◌∷◌, Option,
  none, some, length, arith, if◌then◌else◌, Bool-cases, some-inj, none≢some,
}
use abmac_lib.Hash.{Key}
use abmac_lib.Hash.Sets.{same-cases, same_flip, same_self, true≢false}

abbrev pub map_some {ℓ κ} : {A : Type ℓ} {B : Type κ} → (A → B) → Option A → Option B
map_some f none = none
map_some f (some a) = some (f a)

module _ {ℓ κ} {K : Type ℓ} {V : Type κ} ⦃key : Key K⦄ where
  unfoldable pub get : K → List (K × V) → Option V
  get k [] = none
  get k (e ∷ m) = let rest = get k m in if key.same k e.0 then some e.1 else rest

  unfoldable pub contains_key : K → List (K × V) → Bool
  contains_key k [] = false
  contains_key k (e ∷ m) = let rest = contains_key k m in if key.same k e.0 then true else rest

  unfoldable pub delete : K → List (K × V) → List (K × V)
  delete k [] = []
  delete k (e ∷ m) = let rest = delete k m in if key.same k e.0 then rest else e ∷ rest

  unfoldable pub put : K → V → List (K × V) → List (K × V)
  unfolding delete
  put k v m = (k, v) ∷ delete k m

  -- A change of the value under `k`, if there is one, as through `get_mut`.
  unfoldable pub update : K → (V → V) → List (K × V) → List (K × V)
  update k f [] = []
  update k f (e ∷ m) =
      let rest = update k f m in if key.same k e.0 then (e.0, f e.1) ∷ rest else e ∷ rest

  pub get-delete :
      (j k : K) (m : List (K × V)) → get j (delete k m) ≡ (if key.same j k then none else get j m)
  unfolding get delete
  get-delete j k [] = elim (Bool-cases (key.same j k)) [ inl e ↦ rw e refl | inr e ↦ rw e refl ]
  get-delete j k (e ∷ m) = elim (same-cases k e.0) [
    | inl (p, found) ↦
        rw (found, get-delete j k m, ← p)
          (elim (Bool-cases (key.same j k)) [ inl q ↦ rw q refl | inr q ↦ rw q refl ])
    | inr different ↦
        rw (different, get-delete j k m)
          (elim (same-cases j e.0) [
            | inl (p, found) ↦ rw (found, p, same_flip k e.0 different) refl
            | inr other ↦ rw other refl
          ])
  ]

  pub get-put :
      (j k : K) (v : V) (m : List (K × V))
      → get j (put k v m) ≡ (if key.same j k then some v else get j m)
  unfolding get put
  get-put j k v m = elim (Bool-cases (key.same j k)) [
    | inl e ↦ rw e refl
    | inr e ↦ rw (e, get-delete j k m, e) refl
  ]

  pub get-update :
      (j k : K) (f : V → V) (m : List (K × V))
      → get j (update k f m) ≡ (if key.same j k then map_some f (get j m) else get j m)
  unfolding get update
  get-update j k f [] = elim (Bool-cases (key.same j k)) [ inl e ↦ rw e refl | inr e ↦ rw e refl ]
  get-update j k f (e ∷ m) = elim (same-cases k e.0) [
    | inl (p, found) ↦
        rw (found, get-update j k f m, ← p)
          (elim (Bool-cases (key.same j k)) [ inl q ↦ rw q refl | inr q ↦ rw q refl ])
    | inr different ↦
        rw (different, get-update j k f m)
          (elim (same-cases j e.0) [
            | inl (p, found) ↦ rw (found, p, same_flip k e.0 different) refl
            | inr other ↦ rw other refl
          ])
  ]

  pub contains_key-get :
      (k : K) (m : List (K × V))
      → ((v : V) × (get k m ≡ some v) × (contains_key k m ≡ true))
        ⊎ ((get k m ≡ none) × (contains_key k m ≡ false))
  unfolding get contains_key
  contains_key-get k [] = inr (refl, refl)
  contains_key-get k (e ∷ m) = elim (Bool-cases (key.same k e.0)) [
    | inl p ↦ rw p (inl (e.1, refl, refl))
    | inr p ↦ rw p (contains_key-get k m)
  ]

  pub length-delete_le : (k : K) (m : List (K × V)) → length (delete k m) ≤ length m
  unfolding delete
  length-delete_le k [] = omega arith
  length-delete_le k (e ∷ m) = ground (arith, length-delete_le k m)

  pub length-delete_lt :
      (k : K) (m : List (K × V)) → contains_key k m ≡ true → length (delete k m) < length m
  unfolding contains_key delete
  length-delete_lt k [] h = absurd (true≢false (sym h))
  length-delete_lt k (e ∷ m) h = ground (arith, length-delete_lt k m, length-delete_le k m)

  pub delete-absent : (k : K) (m : List (K × V)) → contains_key k m ≡ false → delete k m ≡ m
  unfolding contains_key delete
  delete-absent k [] h = refl
  delete-absent k (e ∷ m) h = elim (Bool-cases (key.same k e.0)) [
    | inl p ↦ absurd (true≢false (rw p at h))
    | inr p ↦ rw p (ap (◌∷◌ e) (delete-absent k m (rw p at h)))
  ]

  -- No key has two entries, as in every `HashMap`.
  abbrev pub IsUnique : List (K × V) → Type 0
  IsUnique [] = Unit {0}
  IsUnique (e ∷ m) = (contains_key e.0 m ≡ false) × IsUnique m

  contains_key-delete :
      (j k : K) (m : List (K × V)) → contains_key j m ≡ false → contains_key j (delete k m) ≡ false
  unfolding contains_key delete
  contains_key-delete j k [] h = refl
  contains_key-delete j k (e ∷ m) h = elim (Bool-cases (key.same j e.0)) [
    | inl p ↦ absurd (true≢false (rw p at h))
    | inr p ↦ elim (Bool-cases (key.same k e.0)) [
      | inl q ↦ rw q (contains_key-delete j k m (rw p at h))
      | inr q ↦ rw (q, p) (contains_key-delete j k m (rw p at h))
    ]
  ]

  pub contains_key-delete_self : (k : K) (m : List (K × V)) → contains_key k (delete k m) ≡ false
  unfolding contains_key delete
  contains_key-delete_self k [] = refl
  contains_key-delete_self k (e ∷ m) = elim (Bool-cases (key.same k e.0)) [
    | inl q ↦ rw q (contains_key-delete_self k m)
    | inr q ↦ rw (q, q) (contains_key-delete_self k m)
  ]

  pub delete-IsUnique : (k : K) (m : List (K × V)) → IsUnique m → IsUnique (delete k m)
  unfolding delete
  delete-IsUnique k [] h = tt
  delete-IsUnique k (e ∷ m) h = elim (Bool-cases (key.same k e.0)) [
    | inl q ↦ rw q (delete-IsUnique k m h.1)
    | inr q ↦ rw q (contains_key-delete e.0 k m h.0, delete-IsUnique k m h.1)
  ]

  pub put-IsUnique : (k : K) (v : V) (m : List (K × V)) → IsUnique m → IsUnique (put k v m)
  unfolding put
  put-IsUnique k v m h = (contains_key-delete_self k m, delete-IsUnique k m h)

  pub length-put_le : (k : K) (v : V) (m : List (K × V)) → length (put k v m) ≤ suc (length m)
  unfolding put
  length-put_le k v m = omega (arith, length-delete_le k m)

  pub length-put_present :
      (k : K) (v : V) (m : List (K × V)) → contains_key k m ≡ true → length (put k v m) ≤ length m
  unfolding put
  length-put_present k v m h = omega (arith, length-delete_lt k m h)

  pub get-cons_self : (e : K × V) (m : List (K × V)) → get e.0 (e ∷ m) ≡ some e.1
  unfolding get
  get-cons_self e m = rw (same_self e.0) refl

  pub get-cons_ne :
      (j : K) (e : K × V) (m : List (K × V)) → key.same j e.0 ≡ false → get j (e ∷ m) ≡ get j m
  unfolding get
  get-cons_ne j e m h = rw h refl

  -- A value that is found is that of the first entry, or is found behind it.
  pub get-cons-cases :
      (j : K) (e : K × V) (m : List (K × V)) (v : V)
      → get j (e ∷ m) ≡ some v
      → (e.1 ≡ v) ⊎ ((key.same j e.0 ≡ false) × (get j m ≡ some v))
  unfolding get
  get-cons-cases j e m v found = elim (Bool-cases (key.same j e.0)) [
    | inl p ↦ inl (some-inj (rw p at found))
    | inr p ↦ inr (p, rw p at found)
  ]

  pub get-contains_key :
      (j : K) (m : List (K × V)) (v : V) → get j m ≡ some v → contains_key j m ≡ true
  get-contains_key j m v found = elim (contains_key-get j m) [
    | inl (_, _, c) ↦ c
    | inr (e, _) ↦ absurd (none≢some (sym e ∙ found))
  ]

  -- A value that is found after an insertion is the new one, or was there before.
  pub get-put-cases :
      (j k : K) (v : V) (m : List (K × V)) (b : V)
      → get j (put k v m) ≡ some b
      → ((j ≡ k) × (v ≡ b)) ⊎ ((key.same j k ≡ false) × (get j m ≡ some b))
  get-put-cases j k v m b found = elim (same-cases j k) [
    | inl (e, p) ↦ inl (e, some-inj (rw p at (sym (get-put j k v m) ∙ found)))
    | inr p ↦ inr (p, rw p at (sym (get-put j k v m) ∙ found))
  ]

  pub get-put_ne :
      (j k : K) (v : V) (m : List (K × V)) → key.same j k ≡ false → get j (put k v m) ≡ get j m
  get-put_ne j k v m p = get-put j k v m ∙ rw p refl

  pub get-put_self : (k : K) (v : V) (m : List (K × V)) → get k (put k v m) ≡ some v
  get-put_self k v m = get-put k k v m ∙ rw (same_self k) refl

  pub get-nil : (k : K) → ◌≡◌ {A = Option V} (get k []) none
  unfolding get
  get-nil k = refl

  pub contains_key-put_self : (k : K) (v : V) (m : List (K × V)) → contains_key k (put k v m) ≡ true
  unfolding contains_key put
  contains_key-put_self k v m = rw (same_self k) refl
