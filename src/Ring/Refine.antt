-- ===== src/Ring/Refine.antt =====
-- The operations of a ring, one item at a time, against those of the queue that it holds.
use abmac_lib.Prelude.{
  ℕ, suc, ◌≤◌, ◌≡◌, refl, true, false, List, [], ◌∷◌, Option, some, length, arith, ◌==◌, dec_lt,
  le→leb, lt→leb, lt→ltb, le→ltb, eq→==, ne→==,
}
use abmac_lib.Prelude.Results.{◌>>=◌}
use abmac_lib.Spout.{Spout}
use abmac_lib.Ring.{Ring, pop_mut, try_push, evict_oldest, push_mut}
use abmac_lib.Ring.Queue
use abmac_lib.Ring.Queue.{Queue}
use abmac_lib.Ring.Holds.{
  IsCapacity, IsCapacity-pos, IsCapacity-le, Holds, len-Holds, with_back, without_front, write-back,
  with_back-Holds, read-front, without_front-Holds,
}

module _ {ℓ κ} {T : Type ℓ} {S : Type κ} where
  -- The computation meets no undefined behaviour, and its ring holds the queue.
  abbrev pub Reaches : ℕ → Option (Ring T S) → Queue T S → Type (ℓ ⊔ κ)
  Reaches n o p = (r' : Ring T S) × (o ≡ some r') × Holds n r' p

  -- The same for a computation with a result.
  abbrev pub Returns {μ} :
      {A : Type μ} → ℕ → Option (A × Ring T S) → A → Queue T S → Type (ℓ ⊔ κ ⊔ μ)
  Returns n o a p = (r' : Ring T S) × (o ≡ some (a, r')) × Holds n r' p

  -- A chain of operations: the next one starts from what the first left.
  pub Reaches-then :
      (n : ℕ) (o : Option (Ring T S)) (f : Ring T S → Option (Ring T S)) (p p' : Queue T S)
      → Reaches n o p
      → ((r' : Ring T S) → Holds n r' p → Reaches n (f r') p')
      → Reaches n (o >>= f) p'
  Reaches-then n o f p p' (r', runs, holds) next = rw runs (next r' holds)

  pub Returns-then {μ} :
      {A : Type μ} (n : ℕ) (o : Option (A × Ring T S)) (f : A × Ring T S → Option (Ring T S))
      (a : A) (p p' : Queue T S)
      → Returns n o a p
      → ((r' : Ring T S) → Holds n r' p → Reaches n (f (a, r')) p')
      → Reaches n (o >>= f) p'
  Returns-then n o f a p p' (r', runs, holds) next = rw runs (next r' holds)

  pub spout-Holds :
      (n : ℕ) (r : Ring T S) (q : List T) (s t : S)
      → Holds n r (q, s)
      → Holds n (record r { spout = t }) (q, t)
  spout-Holds n r q s t h = record {
    size = h.size;
    head_word = h.head_word;
    tail_eq = h.tail_eq;
    fits = h.fits;
    window = h.window;
    state = refl;
  }

  -- A ring is empty exactly when its indices meet.
  pub empty-eq :
      {n : ℕ}
      → IsCapacity n
      → (r : Ring T S) (s : S) → Holds n r ([], s)
      → (r.head == r.tail) ≡ true
  empty-eq c r s h = eq→== r.head r.tail (omega arith)

  pub nonempty-eq :
      {n : ℕ}
      → IsCapacity n
      → (r : Ring T S) (x : T) (q : List T) (s : S) → Holds n r (x ∷ q, s)
      → (r.head == r.tail) ≡ false
  nonempty-eq c r x q s h = ne→== r.head r.tail (omega (arith, IsCapacity-le c))

module _ {ℓ κ} {T : Type ℓ} {S : Type κ} {n : ℕ} (c : IsCapacity n) where
  -- `pop_mut` returns the oldest item and removes it, or returns none from an empty ring.
  pub pop_mut_refines :
      (r : Ring T S) (p : Queue T S)
      → Holds n r p
      → Returns n (pop_mut n r) (Queue.pop p).0 (Queue.pop p).1
  unfolding pop_mut
  pop_mut_refines r ([], s) h = (r, rw (empty-eq c r s h), h)
  pop_mut_refines r (x ∷ q, s) h = (
    without_front n r,
    rw (nonempty-eq c r x q s h, read-front c r x q s h),
    without_front-Holds c r x q s h,
  )

  -- `try_push` appends the item, or gives it back and changes nothing when the ring is full.
  pub try_push_refines :
      (r : Ring T S) (p : Queue T S) (x : T)
      → Holds n r p
      → Returns n (try_push n x r) (Queue.try_push n x p).0 (Queue.try_push n x p).1
  unfolding try_push
  try_push_refines r (q, s) x h = elim (dec_lt (length q) n) [
    | yes room ↦ rw (lt→ltb _ n room) (
      with_back n x r,
      rw (len-Holds c h, lt→leb n _ room, write-back c r q s x h room),
      with_back-Holds c r q s x h room,
    )
    | no all_used ↦
        rw (le→ltb (length q) n (omega arith))
          (r, rw (len-Holds c h, le→leb n (length q) (omega arith)), h)
  ]

module _ {ℓ κ} {T : Type ℓ} {S : Type κ} (sp : Spout {ℓ, 0, κ} T ⊥ S) {n : ℕ}
    (c : IsCapacity n) where
  -- The ring with its oldest item sent on.
  abbrev pub evicted : T → Ring T S → Ring T S
  evicted x r = record (without_front n r) { spout = (sp.send x r.spout).1 }

  pub evicted-Holds :
      (r : Ring T S) (x : T) (q : List T) (s : S)
      → Holds n r (x ∷ q, s)
      → Holds n (evicted x r) (q, (sp.send x s).1)
  evicted-Holds r x q s h =
      rw (← h.state) (spout-Holds n (without_front n r) q s _ (without_front-Holds c r x q s h))

  -- `push_mut` appends the item; on a full ring the oldest item is moved to the spout first.
  pub push_mut_refines :
      (r : Ring T S) (p : Queue T S) (x : T)
      → Holds n r p
      → Reaches n (push_mut sp n x r) (Queue.push sp n x p)
  unfolding push_mut evict_oldest
  push_mut_refines r (q, s) x h = elim (dec_lt (length q) n) [
    | yes room ↦ rw (lt→ltb _ n room) (
      with_back n x r,
      rw (len-Holds c h, lt→leb n _ room, write-back c r q s x h room),
      with_back-Holds c r q s x h room,
    )
    | no all_used ↦ push_full r q s x h (omega arith)
  ]
    where
      push_full :
          (r : Ring T S) (q : List T) (s : S) (x : T)
          → Holds n r (q, s)
          → n ≤ length q
          → Reaches n (push_mut sp n x r) (Queue.push sp n x (q, s))
      push_full r [] s x h e = absurd (omega (arith, IsCapacity-pos c))
      push_full r (y ∷ q) s x h e =
          let h' = evicted-Holds r y q s h in
          rw (le→ltb (suc (length q)) n e) (
            with_back n x (evicted y r),
            rw (
              len-Holds c h,
              le→leb n (suc (length q)) e,
              read-front c r y q s h,
              write-back c (evicted y r) q (sp.send y s).1 x h' (omega arith),
            ),
            with_back-Holds c (evicted y r) q _ x h' (omega arith),
          )
