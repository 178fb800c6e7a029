-- ===== src/Ring/Slices.antt =====
-- spill-ring/src/ring.rs: `push_slice` and `pop_slice`, which move whole slices in at most two
-- copies.
pub mod Copies
pub mod Push
pub mod Pop
use abmac_lib.Prelude.{
  ℕ, zero, suc, ◌+◌, ◌-◌, Bool, true, false, List, [], ◌∷◌, ◌++◌, Option, none, some, length, take,
  drop, ltb, leb, ◌==◌, if◌then◌else◌, min, wrapping_add, wrapping_sub,
}
use abmac_lib.Prelude.Results.{◌>>=◌}
use abmac_lib.Spout.{Spout, send_each}
use abmac_lib.Ring.{Ring}
use abmac_lib.Ring.Slots.{mask, read_range, copy_in, copy_out}

module _ {ℓ κ} {T : Type ℓ} {S : Type κ} (n : ℕ) where
  -- The items that `pop_slice` copies into a buffer of `room` places, whose number it returns.
  unfoldable pub pop_slice : ℕ → Ring T S → Option (List T × Ring T S)
  pop_slice room r =
      let avail = wrapping_sub r.tail r.head in
      let count = min room avail in
      let head_idx = mask n r.head in
      let to_end = n - head_idx in
      if room == 0 then some ([], r) else if count == 0 then some ([], r) else do
        (items, buffer') ←
            (if leb count to_end then copy_out count head_idx r.buffer else do
              (first, buffer₁) ← copy_out to_end head_idx r.buffer
              (second, buffer₂) ← copy_out (count - to_end) 0 buffer₁
              some (first ++ second, buffer₂))
        some (items, record r { head = wrapping_add r.head count; buffer = buffer' })

module _ {ℓ κ} {T : Type ℓ} {S : Type κ} (sp : Spout {ℓ, 0, κ} T ⊥ S) (n : ℕ) where
  -- The branch of `push_slice` for a slice longer than the ring: the ring and the excess go to the
  -- spout.
  unfoldable pub spill_excess : List T → Ring T S → Option (Ring T S)
  spill_excess items r =
      let count = wrapping_sub r.tail r.head in
      do
        (old, buffer') ← read_range n r.head count r.buffer
        let spout₁ = if ltb 0 count then (sp.send_all old r.spout).1 else r.spout
        let head' = wrapping_add r.head count
        some (record r {
          head = head';
          tail = head';
          buffer = buffer';
          spout = (send_each sp.send (take (length items - n) items) spout₁).1;
        })

  -- The eviction that makes room for `count` items in `push_slice`.
  unfoldable pub make_room : ℕ → Ring T S → Option (Ring T S)
  make_room count r =
      let free = n - wrapping_sub r.tail r.head in
      let evict_count = count - free in
      if ltb free count
      then (do
        (old, buffer') ← read_range n r.head evict_count r.buffer
        some (record r {
          head = wrapping_add r.head evict_count;
          buffer = buffer';
          spout = (sp.send_all old r.spout).1;
        }))
      else some r

  -- The two `memcpy` of `push_slice`, and the new tail.
  unfoldable pub append_slice : List T → Ring T S → Option (Ring T S)
  append_slice items r =
      let tail_idx = mask n r.tail in
      let space_to_end = n - tail_idx in
      do
        buffer' ←
            (if leb (length items) space_to_end then copy_in items tail_idx r.buffer else do
              buffer₁ ← copy_in (take space_to_end items) tail_idx r.buffer
              copy_in (drop space_to_end items) 0 buffer₁)
        some (record r { buffer = buffer'; tail = wrapping_add r.tail (length items) })

  unfoldable pub push_slice : List T → Ring T S → Option (Ring T S)
  push_slice [] r = some r
  push_slice (x ∷ xs) r =
      let items = x ∷ xs in
      let long = ltb n (length items) in
      let keep = if long then drop (length items - n) items else items in
      do
        r₁ ← if long then spill_excess items r else some r
        r₂ ← make_room (length keep) r₁
        append_slice keep r₂
