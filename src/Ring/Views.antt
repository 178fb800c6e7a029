-- ===== src/Ring/Views.antt =====
-- The read-only views of a ring, `len` to `get`, and its iterator, against the queue that it holds.
use abmac_lib.Prelude.{
  ℕ, ◌+◌, ◌-◌, ◌≤◌, ◌<◌, ◌≡◌, ap, ◌∙◌, List, some, length, get_elem?, get_elem?-eq-none,
  get_elem?_of_lt, lt→ltb, le→ltb, arith, wrapping_add, wrapping_sub, ltb, leb, ◌==◌, if◌then◌else◌,
  le→leb, lt→leb, dec_lt, wrapping-mod, eq→==, ne→==,
}
use abmac_lib.Ring.{Ring, len, is_empty, is_full, peek, peek_back, get}
use abmac_lib.Ring.Slots.{mask, peek_slot}
use abmac_lib.Ring.Window.{peek_slot-Window}
use abmac_lib.Ring.Holds.{IsCapacity, IsCapacity-le, IsCapacity-dvd, mask-mod, Holds, len-Holds}
use abmac_lib.Ring.Iter.{SpillRingIter, iter, next, nth}

module _ {ℓ κ} {T : Type ℓ} {S : Type κ} {n : ℕ} (c : IsCapacity n) (r : Ring T S) (q : List T)
    (s : S) (h : Holds n r (q, s)) where
  -- `len`, `is_empty` and `is_full` are those of the queue.
  pub sizes_lem :
      (len n r ≡ length q) × (is_empty n r ≡ (length q == 0)) × (is_full n r ≡ leb n (length q))
  unfolding len is_empty is_full
  sizes_lem = (len-Holds c h, ap (λ k. k == 0) (len-Holds c h), ap (leb n) (len-Holds c h))

  slot-Holds : (i : ℕ) → i < n → peek_slot r.buffer (mask n (wrapping_add r.head i)) ≡ get_elem? q i
  slot-Holds i hi =
      rw (mask-mod c, wrapping-mod (r.head + i) n (IsCapacity-dvd c))
        (peek_slot-Window n r.buffer r.head q i h.size hi h.window)

  -- The slot of an item gives that item.
  pub item-Holds :
      (i : ℕ)
      → i < length q
      → (x : T) × (peek_slot r.buffer (mask n (wrapping_add r.head i)) ≡ some x)
        × (get_elem? q i ≡ some x)
  item-Holds i hi =
      let (x, e) = get_elem?_of_lt q i hi in (x, slot-Holds i (omega (arith, h.fits)) ∙ e, e)

  -- `get` returns the item at an index from the oldest on, or none past the newest.
  pub get_refines : (i : ℕ) → get n i r ≡ some (get_elem? q i)
  unfolding get
  get_refines i = elim (dec_lt i (length q)) [
    | yes inside ↦
        let (x, slot, item) = item-Holds i inside in
        rw (len-Holds c h, lt→leb (length q) i inside, slot, item)
    | no past ↦
        rw (len-Holds c h, le→leb (length q) i (omega arith), get_elem?-eq-none q i (omega arith))
  ]

  -- `peek` returns the oldest item.
  pub peek_refines : peek n r ≡ some (get_elem? q 0)
  unfolding peek
  peek_refines = elim (dec_lt 0 (length q)) [
    | yes inside ↦
        let (x, slot, item) = item-Holds 0 inside in
        rw (ne→== r.head r.tail (omega (arith, IsCapacity-le c)), front slot, item)
    | no past ↦ rw (eq→== r.head r.tail (omega arith), get_elem?-eq-none q 0 (omega arith))
  ]
    where
      at_head : wrapping_add r.head 0 ≡ r.head
      at_head = omega (arith, h.head_word)

      front :
          {x : T}
          → peek_slot r.buffer (mask n (wrapping_add r.head 0)) ≡ some x
          → peek_slot r.buffer (mask n r.head) ≡ some x
      front e = rw at_head at e

  -- `peek_back` returns the newest item, or none from an empty ring.
  pub peek_back_refines : peek_back n r ≡ some (get_elem? q (length q - 1))
  unfolding peek_back
  peek_back_refines = elim (dec_lt 0 (length q)) [
    | yes inside ↦
        let (x, slot, item) = item-Holds (length q - 1) (omega arith) in
        rw (ne→== r.head r.tail (omega (arith, IsCapacity-le c)), back inside, slot, item)
    | no past ↦
        rw (eq→== r.head r.tail (omega arith), get_elem?-eq-none q (length q - 1) (omega arith))
  ]
    where
      back : 0 < length q → wrapping_sub r.tail 1 ≡ wrapping_add r.head (length q - 1)
      back inside = rw h.tail_eq (omega (arith, h.head_word))

  -- The iterator at a position.
  abbrev at_pos : ℕ → SpillRingIter T S
  at_pos i = record { ring = r; pos = i; count = length q; head = r.head }

  -- `iter` starts at the oldest item and counts all of them; at every position `next` yields the
  -- item there and moves on, and past the last item it yields none and stays.
  pub next_refines :
      (i : ℕ)
      → i ≤ length q
      → (iter n r ≡ at_pos 0)
        × (next n (at_pos i) ≡ some (get_elem? q i, at_pos (if ltb i (length q) then i + 1 else i)))
  unfolding iter next len
  next_refines i le = (
    ap (λ k. record { ring = r; pos = 0; count = k; head = r.head }) (len-Holds c h),
    elim (dec_lt i (length q)) [
      | yes inside ↦
          let (x, slot, item) = item-Holds i inside in
          rw (lt→leb (length q) i inside, slot, item, lt→ltb i (length q) inside)
      | no past ↦ rw (
        le→leb (length q) i (omega arith),
        get_elem?-eq-none q i (omega arith),
        le→ltb i (length q) (omega arith),
      )
    ],
  )

  -- `nth k` skips `k` items and yields the next, or none, at the end, if there are no more.
  pub nth_refines :
      (k i : ℕ)
      → i ≤ length q
      → nth n k (at_pos i)
        ≡ some
            (get_elem? q (i + k), at_pos (if ltb (i + k) (length q) then i + k + 1 else length q))
  unfolding nth
  nth_refines k i le = elim (dec_lt (i + k) (length q)) [
    | yes inside ↦
        rw (lt→leb (length q - i) k (omega arith))
          ((next_refines (i + k) (omega arith)).1 ∙ rw (lt→ltb (i + k) (length q) inside))
    | no past ↦ rw (
      le→leb (length q - i) k (omega arith),
      get_elem?-eq-none q (i + k) (omega arith),
      le→ltb (i + k) (length q) (omega arith),
    )
  ]
