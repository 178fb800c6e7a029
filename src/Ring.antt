-- ===== src/Ring.antt =====
-- spill-ring/src/ring.rs and read.rs: `SpillRing<T, N, S>`, its push, pop and bulk operations.
-- An operation gives `none` where the source would read a slot that holds no item.
pub mod Slots
pub mod Slices
pub mod Window
pub mod Queue
pub mod Holds
pub mod Refine
pub mod Flush
pub mod Iter
pub mod Views
pub mod Client
mod Tests
use abmac_lib.Prelude.{
  ℕ, zero, suc, ◌+◌, ◌-◌, ◌≡◌, ◌^◌, ◌≤◌, Bool, true, false, List, [], ◌∷◌, ◌++◌, Option, none, some,
  length, take, drop, replicate, ltb, leb, ◌==◌, if◌then◌else◌, min, wrapping_add, wrapping_sub,
  Result, ok, err,
}
use abmac_lib.Prelude.Results.{◌>>=◌}
use abmac_lib.Spout.{Spout, send_each}
use Slots.{mask, peek_slot, read_slot, write_slot, read_range, copy_in, copy_out}

pub record Ring {ℓ κ} (T : Type ℓ) (S : Type κ) : Type (ℓ ⊔ κ) where
  pub head : ℕ
  pub tail : ℕ
  pub buffer : List (Option T)
  pub spout : S

-- `MAX_CAPACITY`
abbrev pub max_capacity : ℕ
max_capacity = 2 ^ 20

-- `PushError::Full`
pub data PushError {ℓ} (T : Type ℓ) : Type ℓ where
  full : T → PushError T

module _ {ℓ κ} {T : Type ℓ} {S : Type κ} (n : ℕ) where
  -- `with_spout_cold`; its assertions on `N` are the record `IsCapacity` of the laws.
  unfoldable pub with_spout_cold : S → Ring T S
  with_spout_cold s = record { head = 0; tail = 0; buffer = replicate n none; spout = s }

  unfoldable pub len : Ring T S → ℕ
  len r = wrapping_sub r.tail r.head

  unfoldable pub is_empty : Ring T S → Bool
  unfolding len
  is_empty r = len r == 0

  unfoldable pub is_full : Ring T S → Bool
  unfolding len
  is_full r = leb n (len r)

  unfoldable pub pop_mut : Ring T S → Option (Option T × Ring T S)
  pop_mut r = if r.head == r.tail then some (none, r) else do
    (item, buffer') ← read_slot r.buffer (mask n r.head)
    some (some item, record r { head = wrapping_add r.head 1; buffer = buffer' })

  unfoldable pub try_push : T → Ring T S → Option (Result (PushError T) (Unit {0}) × Ring T S)
  try_push item r = if leb n (wrapping_sub r.tail r.head) then some (err (full item), r) else do
    buffer' ← write_slot r.buffer (mask n r.tail) item
    some (ok tt, record r { tail = wrapping_add r.tail 1; buffer = buffer' })

  unfoldable pub peek : Ring T S → Option (Option T)
  peek r =
      if r.head == r.tail
      then some none
      else do item ← peek_slot r.buffer (mask n r.head); some (some item)

  unfoldable pub peek_back : Ring T S → Option (Option T)
  peek_back r =
      if r.head == r.tail
      then some none
      else do item ← peek_slot r.buffer (mask n (wrapping_sub r.tail 1)); some (some item)

  unfoldable pub get : ℕ → Ring T S → Option (Option T)
  get index r =
      if leb (wrapping_sub r.tail r.head) index
      then some none
      else do item ← peek_slot r.buffer (mask n (wrapping_add r.head index)); some (some item)

-- The operations that can send items to the spout. The source asks for `Error = Infallible`.
module _ {ℓ κ} {T : Type ℓ} {S : Type κ} (sp : Spout {ℓ, 0, κ} T ⊥ S) (n : ℕ) where
  -- The first half of a push to a full ring: the oldest item goes to the spout.
  unfoldable pub evict_oldest : Ring T S → Option (Ring T S)
  evict_oldest r = do
    (evicted, buffer') ← read_slot r.buffer (mask n r.head)
    some (record r {
      head = wrapping_add r.head 1;
      buffer = buffer';
      spout = (sp.send evicted r.spout).1;
    })

  unfoldable pub push_mut : T → Ring T S → Option (Ring T S)
  unfolding evict_oldest
  push_mut item r = do
    r' ← if leb n (wrapping_sub r.tail r.head) then evict_oldest r else some r
    buffer' ← write_slot r'.buffer (mask n r.tail) item
    some (record r' { buffer = buffer'; tail = wrapping_add r.tail 1 })

  -- `for i in 0..count` in `flush`, with `count` rounds left and `start` the head at its start.
  unfoldable pub flush_loop : ℕ → ℕ → ℕ → Ring T S → Option (Ring T S)
  flush_loop zero i start r = some r
  flush_loop (suc count) i start r = do
    (item, buffer') ← read_slot r.buffer (mask n (wrapping_add start i))
    flush_loop count (i + 1) start (record r {
      head = wrapping_add start (i + 1);
      buffer = buffer';
      spout = (sp.send item r.spout).1;
    })

  -- The count of the items flushed, and the ring.
  unfoldable pub flush : Ring T S → Option (ℕ × Ring T S)
  flush r =
      let count = wrapping_sub r.tail r.head in
      if count == 0
      then some (0, r)
      else do r' ← flush_loop count 0 r.head r; some (count, record r' { tail = r.tail })

  unfoldable pub push_and_flush : T → Ring T S → Option (Ring T S)
  push_and_flush item r = do r' ← push_mut item r; (_, r'') ← flush r'; some r''

  -- `clear`, and the first half of `drop`.
  unfoldable pub clear : Ring T S → Option (Ring T S)
  clear r = do (_, r') ← flush r; some r'

  -- `Drop::drop`: what is left of the ring is its spout.
  unfoldable pub drop_ring : Ring T S → Option S
  drop_ring r = do (_, r') ← flush r; some (sp.flush r'.spout).1

  -- `for item in iter` of `Extend`.
  unfoldable pub extend : List T → Ring T S → Option (Ring T S)
  extend [] r = some r
  extend (item ∷ items) r = do r' ← push_mut item r; extend items r'
