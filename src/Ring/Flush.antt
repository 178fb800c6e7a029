-- ===== src/Ring/Flush.antt =====
-- `flush` and what is built on it: `push_and_flush`, `clear`, `drop` and `extend`.
use abmac_lib.Prelude.{
  ℕ, suc, ◌+◌, ◌≡◌, refl, ap, List, [], ◌∷◌, none, some, length, set, arith, wrapping_add,
  wrapping_sub, eq→==, ne→==,
}
use abmac_lib.Spout.{Spout, send_each}
use abmac_lib.Ring.{Ring, flush_loop, flush, push_and_flush, clear, drop_ring, extend}
use abmac_lib.Ring.Slots.{mask, read_slot}
use abmac_lib.Ring.Queue
use abmac_lib.Ring.Queue.{Queue}
use abmac_lib.Ring.Queue.Overflow.{sent-cons}
use abmac_lib.Ring.Holds.{IsCapacity, Holds, len-Holds, read-front}
use abmac_lib.Ring.Refine.{
  Reaches, Returns, Reaches-then, Returns-then, evicted, evicted-Holds, push_mut_refines,
}

module _ {ℓ κ} {T : Type ℓ} {S : Type κ} (sp : Spout {ℓ, 0, κ} T ⊥ S) {n : ℕ}
    (c : IsCapacity n) where
  flush_loop_refines :
      (q : List T) (s : S) (i start : ℕ) (r : Ring T S)
      → r.head ≡ wrapping_add start i
      → Holds n r (q, s)
      → (r' : Ring T S) × (flush_loop sp n (length q) i start r ≡ some r')
        × Holds n r' (Queue.flush sp (q, s))
        × (r'.tail ≡ r.tail)
  unfolding flush_loop
  flush_loop_refines [] s i start r e h = (r, refl, unfold send_each in h, refl)
  flush_loop_refines (x ∷ q) s i start r e h =
      go (flush_loop_refines q (sp.send x s).1 (i + 1) start next refl next-Holds)
    where
      next : Ring T S
      next = record (evicted sp c x r) { head = wrapping_add start (i + 1) }

      shift : wrapping_add start (i + 1) ≡ wrapping_add r.head 1
      shift = rw e (omega arith)

      next-Holds : Holds n next (q, (sp.send x s).1)
      next-Holds = rw shift (evicted-Holds sp c r x q s h)

      read-at :
          read_slot r.buffer (mask n (wrapping_add start i))
          ≡ some (x, set r.buffer (mask n r.head) none)
      read-at = rw (← e) (read-front c r x q s h)

      go :
          (r' : Ring T S) × (flush_loop sp n (length q) (i + 1) start next ≡ some r')
            × Holds n r' (Queue.flush sp (q, (sp.send x s).1))
            × (r'.tail ≡ r.tail)
          → (r' : Ring T S) × (flush_loop sp n (suc (length q)) i start r ≡ some r')
            × Holds n r' (Queue.flush sp (x ∷ q, s))
            × (r'.tail ≡ r.tail)
      go (r', runs, holds, same) = (r', rw read-at runs, rw (sent-cons sp x q s) holds, same)

  -- `flush` sends every item to the spout, oldest first, returns their number and empties the
  -- ring.
  pub flush_refines :
      (r : Ring T S) (p : Queue T S)
      → Holds n r p
      → Returns n (flush sp n r) (length p.0) (Queue.flush sp p)
  unfolding flush
  flush_refines r ([], s) h =
      (r, rw (eq→== (wrapping_sub r.tail r.head) 0 (len-Holds c h)), unfold send_each in h)
  flush_refines r (x ∷ q, s) h = go (flush_loop_refines (x ∷ q) s 0 r.head r (omega arith) h)
    where
      go :
          (r' : Ring T S) × (flush_loop sp n (suc (length q)) 0 r.head r ≡ some r')
            × Holds n r' (Queue.flush sp (x ∷ q, s))
            × (r'.tail ≡ r.tail)
          → Returns n (flush sp n r) (suc (length q)) (Queue.flush sp (x ∷ q, s))
      go (r', runs, holds, same) =
          (r', rw (len-Holds c h, ne→== (suc (length q)) 0 (omega arith), runs, ← same), holds)

  -- `push_and_flush` leaves the ring empty; what it held, and then the item, went to the spout.
  pub push_and_flush_refines :
      (r : Ring T S) (p : Queue T S) (x : T)
      → Holds n r p
      → Reaches n (push_and_flush sp n x r) (Queue.flush sp (Queue.push sp n x p))
  unfolding push_and_flush
  push_and_flush_refines r p x h =
      Reaches-then n _ _ _ _ (push_mut_refines sp c r p x h)
        (λ r₁ h₁. Returns-then n _ _ _ _ _ (flush_refines r₁ _ h₁) (λ r₂ h₂. (r₂, refl, h₂)))

  -- Dropping a ring sends what it holds to the spout, oldest first, and then flushes the spout.
  pub drop_ring_lem :
      (r : Ring T S) (q : List T) (s : S)
      → Holds n r (q, s)
      → drop_ring sp n r ≡ some (sp.flush (send_each sp.send q s).1).1
  unfolding drop_ring
  drop_ring_lem r q s h = after (flush_refines r (q, s) h)
    where
      after :
          Returns n (flush sp n r) (length q) (Queue.flush sp (q, s))
          → drop_ring sp n r ≡ some (sp.flush (send_each sp.send q s).1).1
      after (r', flushed, holds) = rw flushed (ap (λ t. some (sp.flush t).1) holds.state)

  -- `clear` empties the ring into the spout.
  pub clear_refines :
      (r : Ring T S) (p : Queue T S) → Holds n r p → Reaches n (clear sp n r) (Queue.flush sp p)
  unfolding clear
  clear_refines r p h = Returns-then n _ _ _ _ _ (flush_refines r p h) (λ r' h'. (r', refl, h'))

  -- `extend` pushes the items one after the other.
  pub extend_refines :
      (xs : List T) (r : Ring T S) (p : Queue T S)
      → Holds n r p
      → Reaches n (extend sp n xs r) (Queue.push_all sp n xs p)
  unfolding extend
  extend_refines [] r p h = (r, refl, h)
  extend_refines (x ∷ xs) r p h =
      Reaches-then n _ _ _ _ (push_mut_refines sp c r p x h)
        (λ r' h'. extend_refines xs r' (Queue.push sp n x p) h')
