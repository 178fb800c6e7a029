-- ===== src/Ring/Client.antt =====
-- A client's calls of a `SpillRing`, in order, and what each returns.
use abmac_lib.Prelude.{ℕ, ◌≡◌, refl, List, [], ◌∷◌, Option, some, length, get_elem?, Result}
use abmac_lib.Prelude.Results.{◌>>=◌}
use abmac_lib.Spout.{Spout, IsLawful}
use abmac_lib.Ring.{
  Ring, PushError, with_spout_cold, len, push_mut, pop_mut, try_push, peek, get, flush, extend,
}
use abmac_lib.Ring.Slices.{push_slice, pop_slice}
use abmac_lib.Ring.Queue
use abmac_lib.Ring.Queue.{Queue}
use abmac_lib.Ring.Holds.{IsCapacity, Holds, with_spout_cold-Holds}
use abmac_lib.Ring.Refine.{Reaches, Returns, push_mut_refines, pop_mut_refines, try_push_refines}
use abmac_lib.Ring.Flush.{flush_refines, extend_refines}
use abmac_lib.Ring.Views.{sizes_lem, peek_refines, get_refines}
use abmac_lib.Ring.Slices.Push.{push_slice_refines}
use abmac_lib.Ring.Slices.Pop.{pop_slice_refines}

pub data Call {ℓ} (T : Type ℓ) : Type ℓ where
  push : T → Call T
  offer : T → Call T
  take_one : Call T
  look : ℕ → Call T
  look_front : Call T
  size : Call T
  push_many : List T → Call T
  push_each : List T → Call T
  take_many : ℕ → Call T
  flush_all : Call T

pub data Reply {ℓ} (T : Type ℓ) : Type ℓ where
  done : Reply T
  offered : Result (PushError T) (Unit {0}) → Reply T
  item : Option T → Reply T
  items : List T → Reply T
  number : ℕ → Reply T

module _ {ℓ κ} {T : Type ℓ} {S : Type κ} (sp : Spout {ℓ, 0, κ} T ⊥ S) (n : ℕ) where
  -- One call on the ring.
  pub call : Call T → Ring T S → Option (Reply T × Ring T S)
  call (push x) r = do r' ← push_mut sp n x r; some (done, r')
  call (offer x) r = do (a, r') ← try_push n x r; some (offered a, r')
  call take_one r = do (a, r') ← pop_mut n r; some (item a, r')
  call (look i) r = do a ← get n i r; some (item a, r)
  call look_front r = do a ← peek n r; some (item a, r)
  call size r = some (number (len n r), r)
  call (push_many xs) r = do r' ← push_slice sp n xs r; some (done, r')
  call (push_each xs) r = do r' ← extend sp n xs r; some (done, r')
  call (take_many room) r = do (xs, r') ← pop_slice n room r; some (items xs, r')
  call flush_all r = do (count, r') ← flush sp n r; some (number count, r')

  pub run : List (Call T) → Ring T S → Option (List (Reply T) × Ring T S)
  run [] r = some ([], r)
  run (c ∷ cs) r = do (a, r') ← call c r; (rest, r'') ← run cs r'; some (a ∷ rest, r'')

  -- The same call on the queue.
  pub queue_call : Call T → Queue T S → Reply T × Queue T S
  queue_call (push x) p = (done, Queue.push sp n x p)
  queue_call (offer x) p = let (a, p') = Queue.try_push n x p in (offered a, p')
  queue_call take_one p = let (a, p') = Queue.pop p in (item a, p')
  queue_call (look i) p = (item (get_elem? p.0 i), p)
  queue_call look_front p = (item (get_elem? p.0 0), p)
  queue_call size p = (number (length p.0), p)
  queue_call (push_many xs) p = (done, Queue.push_all sp n xs p)
  queue_call (push_each xs) p = (done, Queue.push_all sp n xs p)
  queue_call (take_many room) p = let (xs, p') = Queue.pop_slice room p in (items xs, p')
  queue_call flush_all p = (number (length p.0), Queue.flush sp p)

  pub queue_run : List (Call T) → Queue T S → List (Reply T) × Queue T S
  queue_run [] p = ([], p)
  queue_run (c ∷ cs) p =
      let (a, p') = queue_call c p in let (rest, p'') = queue_run cs p' in (a ∷ rest, p'')

module _ {ℓ κ} {T : Type ℓ} {S : Type κ} (sp : Spout {ℓ, 0, κ} T ⊥ S) {n : ℕ}
    (c : IsCapacity n) where
  from_Reaches :
      (o : Option (Ring T S)) (a : Reply T) (p : Queue T S)
      → Reaches n o p
      → Returns n (o >>= λ r'. some (a, r')) a p
  from_Reaches o a p (r', runs, holds) = (r', rw runs, holds)

  from_Returns {μ} :
      {A : Type μ} (o : Option (A × Ring T S)) (f : A → Reply T) (a : A) (p : Queue T S)
      → Returns n o a p
      → Returns n (o >>= λ t. some (f t.0, t.1)) (f a) p
  from_Returns o f a p (r', runs, holds) = (r', rw runs, holds)

  from_view {μ} :
      {A : Type μ} (o : Option A) (f : A → Reply T) (a : A) (r : Ring T S) (p : Queue T S)
      → o ≡ some a
      → Holds n r p
      → Returns n (o >>= λ t. some (f t, r)) (f a) p
  from_view o f a r p e holds = (r, rw e, holds)

  call_refines :
      (x : Call T) (r : Ring T S) (p : Queue T S)
      → IsLawful sp
      → Holds n r p
      → Returns n (call sp n x r) (queue_call sp n x p).0 (queue_call sp n x p).1
  unfolding call queue_call
  call_refines (push x) r p law h = from_Reaches _ done _ (push_mut_refines sp c r p x h)
  call_refines (offer x) r p law h = from_Returns _ offered _ _ (try_push_refines c r p x h)
  call_refines take_one r p law h = from_Returns _ item _ _ (pop_mut_refines c r p h)
  call_refines (look i) r (q, s) law h = from_view _ item _ r (q, s) (get_refines c r q s h i) h
  call_refines look_front r (q, s) law h = from_view _ item _ r (q, s) (peek_refines c r q s h) h
  call_refines size r (q, s) law h = (r, rw ((sizes_lem c r q s h).0), h)
  call_refines (push_many xs) r p law h =
      from_Reaches _ done _ (push_slice_refines sp c xs r p law h)
  call_refines (push_each xs) r p law h = from_Reaches _ done _ (extend_refines sp c xs r p h)
  call_refines (take_many room) r p law h =
      from_Returns _ items _ _ (pop_slice_refines c room r p h)
  call_refines flush_all r p law h = from_Returns _ number _ _ (flush_refines sp c r p h)

  run-then :
      (x : Call T) (cs : List (Call T)) (r : Ring T S) (p : Queue T S)
      → Returns n (call sp n x r) (queue_call sp n x p).0 (queue_call sp n x p).1
      → ((r' : Ring T S)
          → Holds n r' (queue_call sp n x p).1
          → Returns n
              (run sp n cs r')
              (queue_run sp n cs (queue_call sp n x p).1).0
              (queue_run sp n cs (queue_call sp n x p).1).1)
      → Returns n (run sp n (x ∷ cs) r) (queue_run sp n (x ∷ cs) p).0 (queue_run sp n (x ∷ cs) p).1
  unfolding run queue_run
  run-then x cs r p (r', runs, holds) next =
      let (r'', rest, holds'') = next r' holds in (r'', rw (runs, rest), holds'')

  -- Any sequence of the ring's calls on a ring that holds a queue meets no undefined behaviour and
  -- cannot be told from the same calls on that queue: the replies, the items left and the state of
  -- the spout are the same. The spout's `send_all` has to agree with its `send`.
  pub run_refines :
      (cs : List (Call T)) (r : Ring T S) (p : Queue T S)
      → IsLawful sp
      → Holds n r p
      → Returns n (run sp n cs r) (queue_run sp n cs p).0 (queue_run sp n cs p).1
  run_refines [] r p law h = unfold run queue_run in (r, refl, h)
  run_refines (x ∷ cs) r p law h =
      run-then x cs r p (call_refines x r p law h)
        (λ r' h'. run_refines cs r' (queue_call sp n x p).1 law h')

  -- Any sequence of calls on a new ring meets no undefined behaviour and cannot be told from the
  -- same calls on the empty queue. The spout's `send_all` has to agree with its `send`.
  pub run-with_spout_cold_refines :
      (cs : List (Call T)) (s : S)
      → IsLawful sp
      → Returns n
          (run sp n cs (with_spout_cold n s))
          (queue_run sp n cs ([], s)).0
          (queue_run sp n cs ([], s)).1
  run-with_spout_cold_refines cs s law =
      run_refines cs (with_spout_cold n s) ([], s) law (with_spout_cold-Holds c s)
