-- ===== src/Hash/Keys.antt =====
-- `HashMap`: which keys there are after an insertion and a change in place.
use abmac_lib.Prelude.{◌≡◌, refl, true, false, inl, inr, List, [], ◌∷◌, none, Bool-cases}
use abmac_lib.Hash.{Key}
use abmac_lib.Hash.Sets.{same-cases}
use abmac_lib.Hash.Maps.{get, contains_key, delete, put, update, contains_key-get}

module _ {ℓ κ} {K : Type ℓ} {V : Type κ} ⦃key : Key K⦄ where
  pub contains_key-update :
      (j k : K) (f : V → V) (m : List (K × V)) → contains_key j (update k f m) ≡ contains_key j m
  unfolding contains_key update
  contains_key-update j k f [] = refl
  contains_key-update j k f (e ∷ m) = elim (Bool-cases (key.same k e.0)) [
    | inl q ↦ rw (q, contains_key-update j k f m) refl
    | inr q ↦ rw (q, contains_key-update j k f m) refl
  ]

  pub contains_key-delete_ne :
      (j k : K) (m : List (K × V))
      → key.same j k ≡ false
      → contains_key j (delete k m) ≡ contains_key j m
  unfolding contains_key delete
  contains_key-delete_ne j k [] h = refl
  contains_key-delete_ne j k (e ∷ m) h = elim (same-cases k e.0) [
    | inr q ↦ rw (q, contains_key-delete_ne j k m h) refl
    | inl (p, q) ↦ rw (q, contains_key-delete_ne j k m h, ← p, h) refl
  ]

  pub contains_key-put_le :
      (j k : K) (v : V) (m : List (K × V))
      → contains_key j m ≡ true
      → contains_key j (put k v m) ≡ true
  unfolding contains_key put
  contains_key-put_le j k v m h = elim (Bool-cases (key.same j k)) [
    | inl q ↦ rw q refl
    | inr q ↦ rw (q, contains_key-delete_ne j k m q) h
  ]

  pub get-none : (j : K) (m : List (K × V)) → contains_key j m ≡ false → get j m ≡ none
  get-none j m h = elim (contains_key-get j m) [ inl (_, _, there) ↦ cc | inr (e, _) ↦ e ]
