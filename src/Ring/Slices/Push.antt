-- ===== src/Ring/Slices/Push.antt =====
-- `push_slice` against the queue: it has the effect of pushing the items one by one.
use native.Mathlib.Nat.{mod-lt}
use abmac_lib.Prelude.{
  ℕ, suc, ◌+◌, ◌-◌, ◌≤◌, ◌<◌, ◌≡◌, refl, List, [], ◌∷◌, ◌++◌, Option, some, length, take, drop,
  arith, wrapping_add, ltb, if◌then◌else◌, dec_lt, le→leb, lt→leb, lt→ltb, le→ltb, take_all,
  drop_all, take_nil, drop_nil, take-append, drop-append, take-append_le, drop-append_le,
  length-take, length-drop, length-append, take-append-drop, append_assoc,
}
use abmac_lib.Prelude.Results.{◌>>=◌}
use abmac_lib.Spout.{Spout, IsLawful, send_each}
use abmac_lib.Ring.{Ring}
use abmac_lib.Ring.Slots.{mask, read_range, copy_in}
use abmac_lib.Ring.Slices.{spill_excess, make_room, append_slice, push_slice}
use abmac_lib.Ring.Slices.Copies.{
  advanced, extended, MovesOut, MovesIn, read_range-MovesOut, copy_in-MovesIn,
}
use abmac_lib.Ring.Slices.Pop.{round-index}
use abmac_lib.Ring.Queue
use abmac_lib.Ring.Queue.{Queue}
use abmac_lib.Ring.Queue.Overflow.{sent, sent-nil, sent-append, push_all_lem}
use abmac_lib.Ring.Holds.{IsCapacity, IsCapacity-pos, mask-mod, Holds, len-Holds}
use abmac_lib.Ring.Refine.{Reaches, Reaches-then, spout-Holds}

module _ {ℓ κ} {T : Type ℓ} {S : Type κ} (sp : Spout {ℓ, 0, κ} T ⊥ S) {n : ℕ}
    (c : IsCapacity n) where
  -- The items that fit are appended, in one copy or two.
  append_slice-Reaches :
      (xs : List T) (r : Ring T S) (q : List T) (s : S)
      → Holds n r (q, s)
      → length q + length xs ≤ n
      → Reaches n (append_slice sp n xs r) (q ++ xs, s)
  unfolding append_slice
  append_slice-Reaches xs r q s h le = elim (dec_lt (n - mask n r.tail) (length xs)) [
    | yes over ↦ first over (
        copy_in-MovesIn c (take space xs) (mask n r.tail) r q s (λ _. refl)
          (rw length-take (omega (arith, below))) h (rw length-take (omega arith)))
    | no inside ↦
        done inside
          (copy_in-MovesIn c xs (mask n r.tail) r q s (λ _. refl) (omega (arith, below)) h le)
  ]
    where
      space : ℕ
      space = n - mask n r.tail

      below : mask n r.tail < n
      below = rw (mask-mod c) (mod-lt r.tail {m = n} (IsCapacity-pos c))

      Goal : Type (ℓ ⊔ κ)
      Goal = Reaches n (append_slice sp n xs r) (q ++ xs, s)

      done : ¬ (space < length xs) → MovesIn c (copy_in xs (mask n r.tail) r.buffer) xs r q s → Goal
      done inside (buffer', runs, holds) = (
        extended c (length xs) buffer' r,
        rw (le→leb (length xs) space (omega arith), runs),
        holds,
      )

      taken : space < length xs → length (take space xs) ≡ space
      taken over = rw length-take (omega arith)

      second :
          (buffer₁ : List (Option T))
          → (over : space < length xs)
          → copy_in (take space xs) (mask n r.tail) r.buffer ≡ some buffer₁
          → MovesIn c
              (copy_in (drop space xs) 0 buffer₁)
              (drop space xs)
              (extended c (length (take space xs)) buffer₁ r)
              (q ++ take space xs)
              s
          → Goal
      second buffer₁ over ran (buffer₂, runs, holds) = (
        extended c (length xs) buffer₂ r,
        rw (lt→leb (length xs) space over, ran, runs),
        rw same (rw (append_assoc, take-append-drop) at holds),
      )
        where
          same :
              wrapping_add r.tail (length xs)
              ≡ wrapping_add (wrapping_add r.tail (length (take space xs))) (length (drop space xs))
          same = rw (taken over, length-drop) (omega arith)

      first :
          space < length xs
          → MovesIn c (copy_in (take space xs) (mask n r.tail) r.buffer) (take space xs) r q s
          → Goal
      first over (buffer₁, runs, holds) = second buffer₁ over runs (
          copy_in-MovesIn c (drop space xs) 0 (extended c (length (take space xs)) buffer₁ r)
            (q ++ take space xs) s (λ _. rw (taken over) (round-index c r.tail))
            (rw length-drop (omega (arith, below))) holds
            (rw (length-append, taken over, length-drop) (omega (arith))))

  module _ (law : IsLawful sp) where
    -- The eviction: the oldest items go to the spout, so that `count` more fit.
    make_room-Reaches :
        (count : ℕ) (r : Ring T S) (q : List T) (s : S)
        → Holds n r (q, s)
        → count ≤ n
        → Reaches n
            (make_room sp n count r)
            (drop (length q + count - n) q, sent sp (take (length q + count - n) q) s)
    unfolding make_room
    make_room-Reaches count r q s h le = elim (dec_lt (n - length q) count) [
      | yes short ↦ evict short (read_range-MovesOut c evict_count r q s h (omega (arith, h.fits)))
      | no enough ↦
          rw (none_over enough) (
            r,
            rw (len-Holds c h, le→ltb (n - length q) count (omega arith)),
            unfold send_each in h,
          )
    ]
      where
        evict_count : ℕ
        evict_count = count - (n - length q)

        none_over : ¬ (n - length q < count) → length q + count - n ≡ 0
        none_over enough = omega (arith, h.fits)

        amount : n - length q < count → length q + count - n ≡ evict_count
        amount short = omega (arith, h.fits)

        evict :
            n - length q < count
            → MovesOut c (read_range n r.head evict_count r.buffer) evict_count r q s
            → Reaches n
                (make_room sp n count r)
                (drop (length q + count - n) q, sent sp (take (length q + count - n) q) s)
        evict short (buffer', runs, holds) = rw (amount short) (
          record (advanced c evict_count buffer' r) {
            spout = (sp.send_all (take evict_count q) r.spout).1;
          },
          rw (len-Holds c h, lt→ltb (n - length q) count short, runs),
          rw (h.state, law.send_all_lem) (spout-Holds n _ (drop evict_count q) s _ holds),
        )

    -- The long slice: the ring is emptied into the spout, and the excess follows.
    spill_excess-Reaches :
        (xs : List T) (r : Ring T S) (q : List T) (s : S)
        → Holds n r (q, s)
        → Reaches n (spill_excess sp n xs r) ([], sent sp (q ++ take (length xs - n) xs) s)
    unfolding spill_excess
    spill_excess-Reaches xs r q s h =
        emptied (read_range-MovesOut c (length q) r q s h (omega arith))
      where
        after_ring :
            (q' : List T)
            → (if ltb 0 (length q') then (sp.send_all q' r.spout).1 else r.spout) ≡ sent sp q' s
        after_ring [] = unfold send_each in h.state
        after_ring (y ∷ q') =
            rw (lt→ltb 0 (suc (length q')) (omega arith), law.send_all_lem, h.state)

        emptied :
            MovesOut c (read_range n r.head (length q) r.buffer) (length q) r q s
            → Reaches n (spill_excess sp n xs r) ([], sent sp (q ++ take (length xs - n) xs) s)
        emptied (buffer', runs, holds) =
            let empty = rw (drop_all (length q) q (omega arith)) at holds in
            (
              record (advanced c (length q) buffer' r) {
                tail = wrapping_add r.head (length q);
                spout = sent sp (q ++ take (length xs - n) xs) s;
              },
              rw (
                len-Holds c h,
                runs,
                take_all (length q) q (omega arith),
                after_ring q,
                sent-append sp q,
              ),
              record {
                size = empty.size;
                head_word = empty.head_word;
                tail_eq = omega arith;
                fits = empty.fits;
                window = empty.window;
                state = refl;
              },
            )

    keep-Reaches :
        (keep : List T) (r : Ring T S) (q : List T) (s : S)
        → Holds n r (q, s)
        → length keep ≤ n
        → Reaches n (make_room sp n (length keep) r >>= append_slice sp n keep) (
          drop (length q + length keep - n) q ++ keep,
          sent sp (take (length q + length keep - n) q) s,
        )
    keep-Reaches keep r q s h le =
        Reaches-then n _ _ _ _ (make_room-Reaches (length keep) r q s h le)
          (λ r' h'. append_slice-Reaches keep r' _ _ h' (rw length-drop (omega (arith, h.fits))))

  -- `push_slice` leaves the ring and the spout as if the items had been pushed one by one, also
  -- for slices longer than the ring, when the spout's `send_all` agrees with its `send`.
  pub push_slice_refines :
      (xs : List T) (r : Ring T S) (p : Queue T S)
      → IsLawful sp
      → Holds n r p
      → Reaches n (push_slice sp n xs r) (Queue.push_all sp n xs p)
  unfolding push_slice
  push_slice_refines [] r p law h = (r, refl, h)
  push_slice_refines (x ∷ xs) r (q, s) law h =
      rw (push_all_lem sp n items q s (IsCapacity-pos c) h.fits) (elim (dec_lt n (length items)) [
        | yes long ↦
            rw (lt→ltb n (length items) long, over long, drop-append q items, take-append q items)
              (Reaches-then n _ _ _ _ (spill_excess-Reaches law items r q s h) (long_rest long))
        | no short ↦
            rw
              (
                le→ltb n (length items) (omega arith),
                all_fit,
                drop-append_le (length q + length items - n) q items (omega arith),
                take-append_le (length q + length items - n) q items (omega arith),
              )
              (keep-Reaches law items r q s h (omega arith))
      ])
    where
      items : List T
      items = x ∷ xs

      excess : ℕ
      excess = length items - n

      over : n < length items → length (q ++ items) - n ≡ length q + excess
      over long = rw length-append (omega arith)

      all_fit : length (q ++ items) - n ≡ length q + length items - n
      all_fit = rw length-append

      keep_length : n < length items → length (drop excess items) ≡ n
      keep_length long = rw length-drop (omega arith)

      long_rest :
          n < length items
          → (r' : Ring T S) → Holds n r' ([], sent sp (q ++ take excess items) s)
          → Reaches n
              (make_room sp n (length (drop excess items)) r'
                >>= append_slice sp n (drop excess items))
              (drop excess items, sent sp (q ++ take excess items) s)
      long_rest long r' h' =
          rw (drop_nil, take_nil, sent-nil sp) at
            (keep-Reaches law (drop excess items) r' [] _ h' (rw (keep_length long) (omega arith)))
