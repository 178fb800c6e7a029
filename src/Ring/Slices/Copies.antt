-- ===== src/Ring/Slices/Copies.antt =====
-- Runs of slots that are moved out or written at once, against the queue.
use native.Mathlib.Nat.{mod-add-mod, mod-eq_of_lt}
use abmac_lib.Prelude.{
  ℕ, zero, suc, ◌+◌, ◌≤◌, ◌<◌, ◌≡◌, refl, sym, ◌∙◌, List, [], ◌∷◌, ◌++◌, Option, none, some, length,
  take, drop, set, arith, wrapping_add, append_assoc, append-nil, length-append, wrapping-mod,
}
use abmac_lib.Ring.{Ring}
use abmac_lib.Ring.Slots.{mask, read_slot, write_slot, read_range, copy_in, copy_out}
use abmac_lib.Ring.Holds.{
  IsCapacity, IsCapacity-dvd, mask-mod, Holds, read-front, without_front, without_front-Holds,
  with_back, write-back, with_back-Holds,
}

-- Within the buffer the index of the next slot needs no mask.
next-index :
    {n : ℕ} (c : IsCapacity n) (i j : ℕ)
    → i ≡ mask n j
    → i + 1 < n
    → i + 1 ≡ mask n (wrapping_add j 1)
next-index {n} c i j e lt = sym (
    mask-mod c (wrapping_add j 1)
    ∙ wrapping-mod (j + 1) n (IsCapacity-dvd c)
    ∙ sym (mod-add-mod j n 1)
    ∙ rw (← mask-mod c j, ← e) (mod-eq_of_lt lt))

module _ {ℓ κ} {T : Type ℓ} {S : Type κ} {n : ℕ} (c : IsCapacity n) where
  -- What moving `count` items out leaves.
  abbrev pub advanced : ℕ → List (Option T) → Ring T S → Ring T S
  advanced count buffer' r = record r { head = wrapping_add r.head count; buffer = buffer' }

  abbrev pub MovesOut : Option (List T × List (Option T)) → ℕ → Ring T S → List T → S → Type (ℓ ⊔ κ)
  MovesOut o count r q s =
      (buffer' : List (Option T)) × (o ≡ some (take count q, buffer'))
      × Holds n (advanced count buffer' r) (drop count q, s)

  advance-zero :
      (r : Ring T S) (q : List T) (s : S)
      → Holds n r (q, s)
      → Holds n (advanced 0 r.buffer r) (q, s)
  advance-zero r q s h = rw same h
    where
      same : wrapping_add r.head 0 ≡ r.head
      same = omega (arith, h.head_word)

  advance-suc :
      (r : Ring T S) (count : ℕ) (buffer' : List (Option T)) (q : List T) (s : S)
      → Holds n (advanced count buffer' (without_front n r)) (q, s)
      → Holds n (advanced (suc count) buffer' r) (q, s)
  advance-suc r count buffer' q s h = rw same h
    where
      same : wrapping_add r.head (suc count) ≡ wrapping_add (wrapping_add r.head 1) count
      same = omega arith

  pub read_range-MovesOut :
      (count : ℕ) (r : Ring T S) (q : List T) (s : S)
      → Holds n r (q, s)
      → count ≤ length q
      → MovesOut (read_range n r.head count r.buffer) count r q s
  unfolding read_range
  read_range-MovesOut zero r q s h le = (r.buffer, refl, advance-zero r q s h)
  read_range-MovesOut (suc count) r [] s h le = absurd (omega arith)
  read_range-MovesOut (suc count) r (x ∷ q) s h le = step (
      read_range-MovesOut count (without_front n r) q s (without_front-Holds c r x q s h)
        (omega arith))
    where
      step :
          MovesOut
            (read_range n (wrapping_add r.head 1) count (set r.buffer (mask n r.head) none))
            count
            (without_front n r)
            q
            s
          → MovesOut (read_range n r.head (suc count) r.buffer) (suc count) r (x ∷ q) s
      step (buffer', runs, holds) =
          (buffer', rw (read-front c r x q s h, runs), advance-suc r count buffer' _ s holds)

  pub copy_out-MovesOut :
      (count i : ℕ) (r : Ring T S) (q : List T) (s : S)
      → (i < n → i ≡ mask n r.head)
      → i + count ≤ n
      → Holds n r (q, s)
      → count ≤ length q
      → MovesOut (copy_out count i r.buffer) count r q s
  unfolding copy_out
  copy_out-MovesOut zero i r q s e fits h le = (r.buffer, refl, advance-zero r q s h)
  copy_out-MovesOut (suc count) i r [] s e fits h le = absurd (omega arith)
  copy_out-MovesOut (suc count) i r (x ∷ q) s e fits h le = step (
      copy_out-MovesOut count (i + 1) (without_front n r) q s
        (next-index c i r.head (e (omega arith))) (omega arith) (without_front-Holds c r x q s h)
        (omega arith))
    where
      read-at : read_slot r.buffer i ≡ some (x, set r.buffer (mask n r.head) none)
      read-at = rw (e (omega arith)) (read-front c r x q s h)

      step :
          MovesOut
            (copy_out count (i + 1) (set r.buffer (mask n r.head) none))
            count
            (without_front n r)
            q
            s
          → MovesOut (copy_out (suc count) i r.buffer) (suc count) r (x ∷ q) s
      step (buffer', runs, holds) =
          (buffer', rw (read-at, runs), advance-suc r count buffer' _ s holds)

  -- What writing items behind the last leaves.
  abbrev pub extended : ℕ → List (Option T) → Ring T S → Ring T S
  extended count buffer' r = record r { buffer = buffer'; tail = wrapping_add r.tail count }

  abbrev pub MovesIn : Option (List (Option T)) → List T → Ring T S → List T → S → Type (ℓ ⊔ κ)
  MovesIn o xs r q s =
      (buffer' : List (Option T)) × (o ≡ some buffer')
      × Holds n (extended (length xs) buffer' r) (q ++ xs, s)

  pub copy_in-MovesIn :
      (xs : List T) (i : ℕ) (r : Ring T S) (q : List T) (s : S)
      → (i < n → i ≡ mask n r.tail)
      → i + length xs ≤ n
      → Holds n r (q, s)
      → length q + length xs ≤ n
      → MovesIn (copy_in xs i r.buffer) xs r q s
  unfolding copy_in
  copy_in-MovesIn [] i r q s e fits h le = (r.buffer, refl, rw (append-nil, same) h)
    where
      same : wrapping_add r.tail 0 ≡ r.tail
      same = rw h.tail_eq (omega arith)
  copy_in-MovesIn (x ∷ xs) i r q s e fits h le = step (
      copy_in-MovesIn xs (i + 1) (with_back n x r) (q ++ x ∷ []) s
        (next-index c i r.tail (e (omega arith))) (omega arith)
        (with_back-Holds c r q s x h (omega arith)) (rw length-append (omega arith)))
    where
      write-at : write_slot r.buffer i x ≡ some (set r.buffer (mask n r.tail) (some x))
      write-at = rw (e (omega arith)) (write-back c r q s x h (omega arith))

      same :
          wrapping_add r.tail (suc (length xs)) ≡ wrapping_add (wrapping_add r.tail 1) (length xs)
      same = omega arith

      step :
          MovesIn
            (copy_in xs (i + 1) (set r.buffer (mask n r.tail) (some x)))
            xs
            (with_back n x r)
            (q ++ x ∷ [])
            s
          → MovesIn (copy_in (x ∷ xs) i r.buffer) (x ∷ xs) r q s
      step (buffer', runs, holds) = (buffer', rw write-at runs, rw same (rw append_assoc at holds))
