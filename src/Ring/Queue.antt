-- ===== src/Ring/Queue.antt =====
-- What a `SpillRing` promises: a queue of at most `n` items, oldest first, and a spout that takes
-- the items that a push finds no room for.
pub mod Overflow
use abmac_lib.Prelude.{
  ℕ, List, [], ◌∷◌, ◌++◌, Option, none, some, length, take, drop, ltb, leb, if◌then◌else◌, min,
  Result, ok, err,
}
use abmac_lib.Spout.{Spout, send_each}
use abmac_lib.Ring.{PushError, full}

-- The items in the ring, and the state of the spout.
abbrev pub Queue {ℓ κ} : Type ℓ → Type κ → Type (ℓ ⊔ κ)
Queue T S = List T × S

module _ {ℓ κ} {T : Type ℓ} {S : Type κ} where
  abbrev pub pop : Queue T S → Option T × Queue T S
  pop ([], s) = (none, ([], s))
  pop (x ∷ q, s) = (some x, (q, s))

  abbrev pub try_push : ℕ → T → Queue T S → Result (PushError T) (Unit {0}) × Queue T S
  try_push n item (q, s) =
      if ltb (length q) n then (ok tt, (q ++ item ∷ [], s)) else (err (full item), (q, s))

  abbrev pub pop_slice : ℕ → Queue T S → List T × Queue T S
  pop_slice room (q, s) = (take room q, (drop room q, s))

module _ {ℓ κ} {T : Type ℓ} {S : Type κ} (sp : Spout {ℓ, 0, κ} T ⊥ S) where
  -- The oldest item goes to the spout.
  abbrev pub evict : Queue T S → Queue T S
  evict ([], s) = ([], s)
  evict (x ∷ q, s) = (q, (sp.send x s).1)

  abbrev pub append : T → Queue T S → Queue T S
  append item (q, s) = (q ++ item ∷ [], s)

  abbrev pub push : ℕ → T → Queue T S → Queue T S
  push n item (q, s) = append item (if ltb (length q) n then (q, s) else evict (q, s))

  abbrev pub push_all : ℕ → List T → Queue T S → Queue T S
  push_all n [] p = p
  push_all n (x ∷ xs) p = push_all n xs (push n x p)

  -- Everything goes to the spout, oldest first.
  abbrev pub flush : Queue T S → Queue T S
  flush (q, s) = ([], (send_each sp.send q s).1)
