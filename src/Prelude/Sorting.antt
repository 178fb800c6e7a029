-- ===== src/Prelude/Sorting.antt =====
-- `sort_by_key` of the standard library, a stable sort, and `isqrt`.
use abmac_lib.Prelude.Tests.{if◌then◌else◌, leb, ltb, Bool-cases, leb→le, leb→lt, ◌==◌}
use abmac_lib.Prelude.Lists.{length}
use Prim.Native.Nat.{ℕ, zero, suc, ◌+◌, ◌*◌, ◌≤◌, ◌<◌}
use mathlib.Core.Path.{◌≡◌, refl}
use mathlib.Core.Logic.{inl, inr}
use mathlib.Core.Bool.{Bool, true, false}
use mathlib.Core.List.{List, [], ◌∷◌}
use native.Mathlib.Omega.{arith}

-- The order of the tuples that serve as keys.
abbrev pub SortKey : Type 0
SortKey = ℕ × ℕ × ℕ

unfoldable pub key_le : SortKey → SortKey → Bool
key_le (a, b, c) (a', b', c') =
    if a == a' then (if b == b' then leb c c' else ltb b b') else ltb a a'

pub key_le_total : (p q : SortKey) → key_le p q ≡ false → key_le q p ≡ true
unfolding key_le
key_le_total (a, b, c) (a', b', c') h = ground arith

module _ {ℓ} {A : Type ℓ} (f : A → SortKey) where
  unfoldable pub insert_by_key : A → List A → List A
  insert_by_key x [] = x ∷ []
  insert_by_key x (y ∷ ys) =
      let rest = insert_by_key x ys in if key_le (f x) (f y) then x ∷ y ∷ ys else y ∷ rest

  -- An item goes in front of those behind it that have the same key.
  unfoldable pub sort_by_key : List A → List A
  unfolding insert_by_key
  sort_by_key [] = []
  sort_by_key (x ∷ xs) = insert_by_key x (sort_by_key xs)

  length-insert_by_key : (x : A) (ys : List A) → length (insert_by_key x ys) ≡ suc (length ys)
  unfolding insert_by_key
  length-insert_by_key x [] = refl
  length-insert_by_key x (y ∷ ys) = ground (arith, length-insert_by_key x ys)

  pub length-sort_by_key : (xs : List A) → length (sort_by_key xs) ≡ length xs
  unfolding sort_by_key
  length-sort_by_key [] = refl
  length-sort_by_key (x ∷ xs) =
      omega (arith, length-insert_by_key x (sort_by_key xs), length-sort_by_key xs)

  -- No neighbour has a greater key in front of a smaller one.
  abbrev pub IsSorted : List A → Type 0
  IsSorted [] = Unit {0}
  IsSorted (x ∷ []) = Unit {0}
  IsSorted (x ∷ y ∷ ys) = (key_le (f x) (f y) ≡ true) × IsSorted (y ∷ ys)

  insert_by_key-IsSorted : (x : A) (ys : List A) → IsSorted ys → IsSorted (insert_by_key x ys)
  unfolding insert_by_key
  insert_by_key-IsSorted x [] h = tt
  insert_by_key-IsSorted x (y ∷ []) h = elim (Bool-cases (key_le (f x) (f y))) [
    | inl le ↦ rw le (le, tt)
    | inr gt ↦ rw gt (key_le_total (f x) (f y) gt, tt)
  ]
  insert_by_key-IsSorted x (y ∷ z ∷ zs) h = elim (Bool-cases (key_le (f x) (f y))) [
    | inl le ↦ rw le (le, h)
    | inr gt ↦ rw gt (
        let rest = insert_by_key-IsSorted x (z ∷ zs) h.1 in
        elim (Bool-cases (key_le (f x) (f z))) [
          | inl le ↦ rw le (key_le_total (f x) (f y) gt, rw le at rest)
          | inr more ↦ rw more (h.0, rw more at rest)
        ])
  ]

  pub sort_by_key-IsSorted : (xs : List A) → IsSorted (sort_by_key xs)
  unfolding sort_by_key
  sort_by_key-IsSorted [] = tt
  sort_by_key-IsSorted (x ∷ xs) =
      insert_by_key-IsSorted x (sort_by_key xs) (sort_by_key-IsSorted xs)

-- The largest number whose square is at most `n`.
unfoldable pub isqrt : ℕ → ℕ
isqrt zero = 0
isqrt (suc n) = let r = isqrt n in if leb ((r + 1) * (r + 1)) (suc n) then r + 1 else r

pub isqrt_bounds : (n : ℕ) → (isqrt n * isqrt n ≤ n) × (n < (isqrt n + 1) * (isqrt n + 1))
unfolding isqrt
isqrt_bounds zero = omega arith
isqrt_bounds (suc n) = elim (Bool-cases (leb ((isqrt n + 1) * (isqrt n + 1)) (suc n))) [
  | inl le ↦ rw le (leb→le _ _ le, grind (arith, isqrt_bounds n))
  | inr gt ↦ rw gt (grind (arith, isqrt_bounds n), leb→lt _ _ gt)
]
