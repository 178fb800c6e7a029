-- ===== src/Ring/Iter.antt =====
-- spill-ring/src/iter.rs: `SpillRingIter`, which reads a ring's items from the oldest on.
use abmac_lib.Prelude.{ℕ, ◌+◌, ◌-◌, Option, none, some, leb, if◌then◌else◌, wrapping_add}
use abmac_lib.Prelude.Results.{◌>>=◌}
use abmac_lib.Ring.{Ring, len}
use abmac_lib.Ring.Slots.{mask, peek_slot}

pub record SpillRingIter {ℓ κ} (T : Type ℓ) (S : Type κ) : Type (ℓ ⊔ κ) where
  pub ring : Ring T S
  pub pos : ℕ
  pub count : ℕ
  pub head : ℕ

module _ {ℓ κ} {T : Type ℓ} {S : Type κ} (n : ℕ) where
  -- `iter` of the ring. The field `len` of the source is `count` here.
  unfoldable pub iter : Ring T S → SpillRingIter T S
  unfolding len
  iter r = record { ring = r; pos = 0; count = len n r; head = r.head }

  unfoldable pub next : SpillRingIter T S → Option (Option T × SpillRingIter T S)
  next it = if leb it.count it.pos then some (none, it) else do
    item ← peek_slot it.ring.buffer (mask n (wrapping_add it.head it.pos))
    some (some item, record it { pos = it.pos + 1 })

  unfoldable pub size_hint : SpillRingIter T S → ℕ × Option ℕ
  size_hint it = let remaining = it.count - it.pos in (remaining, some remaining)

  unfoldable pub nth : ℕ → SpillRingIter T S → Option (Option T × SpillRingIter T S)
  unfolding next
  nth k it =
      if leb (it.count - it.pos) k
      then some (none, record it { pos = it.count })
      else next (record it { pos = it.pos + k })
