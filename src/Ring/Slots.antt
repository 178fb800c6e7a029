-- ===== src/Ring/Slots.antt =====
-- spill-ring/src/ring.rs: the slots of the buffer. A slot is `none` while it is uninitialised or
-- its item has been moved out; a read of such a slot, or of one out of range, gives `none`.
use Prim.Native.Nat.{bit_and}
use abmac_lib.Prelude.{
  ℕ, zero, suc, ◌+◌, ◌-◌, List, [], ◌∷◌, Option, none, some, length, get_elem?, set, ltb,
  if◌then◌else◌, wrapping_add,
}
use abmac_lib.Prelude.Results.{◌>>=◌}

-- `index & (N - 1)`
abbrev pub mask : ℕ → ℕ → ℕ
mask n index = bit_and index (n - 1)

module _ {ℓ} {T : Type ℓ} where
  -- `assume_init_ref`
  unfoldable pub peek_slot : List (Option T) → ℕ → Option T
  peek_slot buffer i = get_elem? buffer i >>= λ slot. slot

  -- `assume_init_read` moves the item out.
  unfoldable pub read_slot : List (Option T) → ℕ → Option (T × List (Option T))
  unfolding peek_slot
  read_slot buffer i = do x ← peek_slot buffer i; some (x, set buffer i none)

  -- `MaybeUninit::write`
  unfoldable pub write_slot : List (Option T) → ℕ → T → Option (List (Option T))
  write_slot buffer i x = if ltb i (length buffer) then some (set buffer i (some x)) else none

  -- The slots of `count` indices from `index` on, each masked, moved out in order: the iterators
  -- that `push_slice` hands to `send_all`.
  unfoldable pub read_range : ℕ → ℕ → ℕ → List (Option T) → Option (List T × List (Option T))
  unfolding read_slot
  read_range n index zero buffer = some ([], buffer)
  read_range n index (suc count) buffer = do
    (x, buffer') ← read_slot buffer (mask n index)
    (xs, rest) ← read_range n (wrapping_add index 1) count buffer'
    some (x ∷ xs, rest)

  -- `copy_nonoverlapping` from a slice of items into the slots from `i` on.
  unfoldable pub copy_in : List T → ℕ → List (Option T) → Option (List (Option T))
  unfolding write_slot
  copy_in [] i buffer = some buffer
  copy_in (x ∷ xs) i buffer = do buffer' ← write_slot buffer i x; copy_in xs (i + 1) buffer'

  -- `copy_nonoverlapping` of the `count` slots from `i` on, which are then free.
  unfoldable pub copy_out : ℕ → ℕ → List (Option T) → Option (List T × List (Option T))
  unfolding read_slot
  copy_out zero i buffer = some ([], buffer)
  copy_out (suc count) i buffer = do
    (x, buffer') ← read_slot buffer i
    (xs, rest) ← copy_out count (i + 1) buffer'
    some (x ∷ xs, rest)
