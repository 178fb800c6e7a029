-- ===== src/Ring/Slices/Pop.antt =====
-- `pop_slice` against the queue.
use native.Mathlib.Nat.{mod-lt, mod-add-mod, mod_self}
use abmac_lib.Prelude.{
  ℕ, zero, suc, ◌+◌, ◌-◌, ◌%◌, ◌≤◌, ◌<◌, ◌≡◌, refl, sym, ap, ◌∙◌, List, [], ◌∷◌, ◌++◌, Option, some,
  length, take, drop, min, arith, wrapping_add, leb, if◌then◌else◌, dec_lt, wrapping-mod, ne→==,
  le→leb, lt→leb, take-min, drop-min, take-add, drop-add, ◌≢◌, length-drop,
}
use abmac_lib.Prelude.Results.{◌>>=◌}
use abmac_lib.Ring.{Ring}
use abmac_lib.Ring.Slots.{mask, copy_out}
use abmac_lib.Ring.Slices.{pop_slice}
use abmac_lib.Ring.Slices.Copies.{advanced, MovesOut, copy_out-MovesOut}
use abmac_lib.Ring.Queue
use abmac_lib.Ring.Queue.{Queue}
use abmac_lib.Ring.Holds.{IsCapacity, IsCapacity-pos, IsCapacity-dvd, mask-mod, Holds, len-Holds}
use abmac_lib.Ring.Refine.{Returns}

-- The slot after the last one of the buffer is the first.
pub round-index : {n : ℕ} (c : IsCapacity n) (j : ℕ) → 0 ≡ mask n (wrapping_add j (n - mask n j))
round-index {n} c j = sym (
    mask-mod c _ ∙ wrapping-mod (j + (n - mask n j)) n (IsCapacity-dvd c) ∙ rw (mask-mod c j) whole)
  where
    below : j % n < n
    below = mod-lt j {m = n} (IsCapacity-pos c)

    whole : (j + (n - j % n)) % n ≡ 0
    whole = sym (mod-add-mod j n (n - j % n)) ∙ ap (λ k. k % n) (omega (arith, below)) ∙ mod_self n

module _ {ℓ κ} {T : Type ℓ} {S : Type κ} {n : ℕ} (c : IsCapacity n) where
  -- The two copies of `pop_slice`.
  two_copies :
      (r : Ring T S) (q : List T) (s : S) (a b count : ℕ)
      → a ≡ n - mask n r.head
      → count ≡ a + b
      → Holds n r (q, s)
      → count ≤ length q
      → MovesOut c
          (do
            (first, buffer₁) ← copy_out a (mask n r.head) r.buffer
            (second, buffer₂) ← copy_out b 0 buffer₁
            some (first ++ second, buffer₂))
          count
          r
          q
          s
  two_copies r q s a b count e sum h le = first (
      copy_out-MovesOut c a (mask n r.head) r q s (λ _. refl) (omega (arith, below)) h
        (omega arith))
    where
      below : mask n r.head < n
      below = rw (mask-mod c) (mod-lt r.head {m = n} (IsCapacity-pos c))

      round : 0 ≡ mask n (wrapping_add r.head a)
      round = rw e (round-index c r.head)

      same : wrapping_add r.head count ≡ wrapping_add (wrapping_add r.head a) b
      same = rw sum (omega arith)

      Goal : Type (ℓ ⊔ κ)
      Goal =
          MovesOut c
            (do
              (first, buffer₁) ← copy_out a (mask n r.head) r.buffer
              (second, buffer₂) ← copy_out b 0 buffer₁
              some (first ++ second, buffer₂))
            count r q s

      second :
          (buffer₁ : List (Option T))
          → copy_out a (mask n r.head) r.buffer ≡ some (take a q, buffer₁)
          → MovesOut c (copy_out b 0 buffer₁) b (advanced c a buffer₁ r) (drop a q) s
          → Goal
      second buffer₁ ran (buffer₂, runs, holds) =
          (buffer₂, rw (ran, runs, sum, take-add a b q), rw (same, sum, drop-add a b q) holds)

      first : MovesOut c (copy_out a (mask n r.head) r.buffer) a r q s → Goal
      first (buffer₁, runs, holds) = second buffer₁ runs (
          copy_out-MovesOut c b 0 (advanced c a buffer₁ r) (drop a q) s (λ _. round) (omega arith)
            holds (rw length-drop (omega arith)))

  pop_some :
      (room : ℕ) (r : Ring T S) (q : List T) (s : S)
      → room ≢ 0
      → length q ≢ 0
      → Holds n r (q, s)
      → Returns n (pop_slice n room r) (take room q) (drop room q, s)
  unfolding pop_slice
  pop_some room r q s some_room some_item h = elim (dec_lt (n - mask n r.head) count) [
    | yes over ↦ done (
        rw (lt→leb count (n - mask n r.head) over) (
          two_copies r q s (n - mask n r.head) (count - (n - mask n r.head)) count refl
            (omega arith) h (omega arith)))
    | no inside ↦ done (
        rw (le→leb count (n - mask n r.head) (omega arith)) (
          copy_out-MovesOut c count (mask n r.head) r q s (λ _. refl) (omega arith) h
            (omega arith)))
  ]
    where
      count : ℕ
      count = min room (length q)

      done :
          MovesOut c
            (if leb count (n - mask n r.head) then copy_out count (mask n r.head) r.buffer else (do
              (first, buffer₁) ← copy_out (n - mask n r.head) (mask n r.head) r.buffer
              (second, buffer₂) ← copy_out (count - (n - mask n r.head)) 0 buffer₁
              some (first ++ second, buffer₂)))
            count
            r
            q
            s
          → Returns n (pop_slice n room r) (take room q) (drop room q, s)
      done (buffer', runs, holds) = (
        advanced c count buffer' r,
        rw (len-Holds c h, ne→== room 0 some_room, ne→== count 0 (omega arith), runs, take-min),
        rw drop-min at holds,
      )

  -- `pop_slice` returns the oldest items that its buffer has room for, and leaves the others.
  pub pop_slice_refines :
      (room : ℕ) (r : Ring T S) (p : Queue T S)
      → Holds n r p
      → Returns n (pop_slice n room r) (Queue.pop_slice room p).0 (Queue.pop_slice room p).1
  unfolding pop_slice
  pop_slice_refines zero r (q, s) h = (r, refl, h)
  pop_slice_refines (suc room) r ([], s) h =
      (r, rw (ne→== (suc room) 0 (omega arith), len-Holds c h, nothing) refl, h)
    where
      nothing : min (suc room) (length {A = T} []) ≡ 0
      nothing = omega arith
  pop_slice_refines (suc room) r (x ∷ q, s) h =
      pop_some (suc room) r (x ∷ q) s (omega arith) (omega arith) h
