-- ===== src/Ring/Tests.antt =====
-- Runs of the ring on concrete inputs, and the theorems at a ring whose indices have just gone
-- round at `2 ^ 64`.
use abmac_lib.Prelude.{ℕ, zero, suc, ◌-◌, ◌≡◌, refl, List, [], ◌∷◌, none, some, arith, ok, word}
use abmac_lib.Spout.{Spout, IsLawful, send_each}
use abmac_lib.Spout.Sinks.{collect_spout, collect_spout-IsLawful}
use abmac_lib.Ring.{Ring, peek_back, try_push, push_mut, flush}
use abmac_lib.Ring.Slots.{peek_slot, read_slot, write_slot, read_range, copy_in}
use abmac_lib.Ring.Slices.{pop_slice, spill_excess, make_room, append_slice, push_slice}
use abmac_lib.Ring.Holds.{IsCapacity, Holds}
use abmac_lib.Ring.Window.{Window}
use abmac_lib.Ring.Iter.{SpillRingIter, iter, next}
use abmac_lib.Ring.Refine.{Reaches, Returns, push_mut_refines, try_push_refines}
use abmac_lib.Ring.Flush.{flush_refines}
use abmac_lib.Ring.Views.{peek_back_refines, next_refines}
use abmac_lib.Ring.Slices.Push.{push_slice_refines}
use abmac_lib.Ring.Slices.Pop.{pop_slice_refines}
use abmac_lib.Ring.Client.{Call, run, queue_run, run_refines}

abbrev sink : Spout ℕ ⊥ (List ℕ)
sink = collect_spout

IsCapacity-four : IsCapacity 4
IsCapacity-four = record { log = 2; small = omega arith; power = refl }

-- 10, then 20, with the head at the last index and the tail beyond it.
abbrev wrapped : Ring ℕ (List ℕ)
wrapped = record {
  head = word - 1;
  tail = 1;
  buffer = some 20 ∷ none ∷ none ∷ some 10 ∷ [];
  spout = 7 ∷ [];
}

abbrev items : List ℕ
items = 10 ∷ 20 ∷ []

wrapped-Window : Window 4 wrapped.buffer wrapped.head items
wrapped-Window zero h = refl
wrapped-Window (suc zero) h = refl
wrapped-Window (suc (suc zero)) h = refl
wrapped-Window (suc (suc (suc zero))) h = refl
wrapped-Window (suc (suc (suc (suc i)))) h = absurd (omega arith)

wrapped-Holds : Holds 4 wrapped (items, 7 ∷ [])
wrapped-Holds = record {
  size = refl;
  head_word = omega arith;
  tail_eq = refl;
  fits = omega arith;
  window = wrapped-Window;
  state = refl;
}

lawful : IsLawful sink
lawful = collect_spout-IsLawful ⊥

-- Three pushes to a ring that holds two of four: the oldest goes to the spout.
push_slice-wrapped :
    push_slice sink 4 (1 ∷ 2 ∷ 3 ∷ []) wrapped
    ≡ some (record {
      head = 0;
      tail = 4;
      buffer = some 20 ∷ some 1 ∷ some 2 ∷ some 3 ∷ [];
      spout = 7 ∷ 10 ∷ [];
    })
unfolding push_slice make_room append_slice read_range copy_in read_slot write_slot peek_slot
    collect_spout
push_slice-wrapped = refl

-- A slice longer than the ring.
push_slice-long :
    push_slice sink 4 (1 ∷ 2 ∷ 3 ∷ 4 ∷ 5 ∷ []) wrapped
    ≡ some (record {
      head = 1;
      tail = 5;
      buffer = some 5 ∷ some 2 ∷ some 3 ∷ some 4 ∷ [];
      spout = 7 ∷ 10 ∷ 20 ∷ 1 ∷ [];
    })
unfolding push_slice spill_excess make_room append_slice read_range copy_in read_slot write_slot
    peek_slot send_each collect_spout
push_slice-long = refl

-- A slot is moved out once: reading it again would be undefined behaviour.
read_slot-twice : read_slot {T = ℕ} (none ∷ []) 0 ≡ none
unfolding read_slot peek_slot
read_slot-twice = refl

push_mut_refines_example : Reaches 4 (push_mut sink 4 30 wrapped) (10 ∷ 20 ∷ 30 ∷ [], 7 ∷ [])
push_mut_refines_example =
    push_mut_refines sink IsCapacity-four wrapped (items, 7 ∷ []) 30 wrapped-Holds

try_push_refines_example : Returns 4 (try_push 4 30 wrapped) (ok tt) (10 ∷ 20 ∷ 30 ∷ [], 7 ∷ [])
try_push_refines_example = try_push_refines IsCapacity-four wrapped (items, 7 ∷ []) 30 wrapped-Holds

flush_refines_example : Returns 4 (flush sink 4 wrapped) 2 ([], 7 ∷ 10 ∷ 20 ∷ [])
unfolding send_each collect_spout
flush_refines_example = flush_refines sink IsCapacity-four wrapped (items, 7 ∷ []) wrapped-Holds

push_slice_refines_example :
    Reaches 4 (push_slice sink 4 (1 ∷ 2 ∷ 3 ∷ []) wrapped) (20 ∷ 1 ∷ 2 ∷ 3 ∷ [], 7 ∷ 10 ∷ [])
unfolding collect_spout
push_slice_refines_example =
    push_slice_refines sink IsCapacity-four (1 ∷ 2 ∷ 3 ∷ []) wrapped (items, 7 ∷ []) lawful
      wrapped-Holds

pop_slice_refines_example : Returns 4 (pop_slice 4 3 wrapped) (10 ∷ 20 ∷ []) ([], 7 ∷ [])
pop_slice_refines_example =
    pop_slice_refines IsCapacity-four 3 wrapped (items, 7 ∷ []) wrapped-Holds

run_refines_example :
    Returns 4
      (run sink 4 (Call.take_one ∷ Call.push_many (1 ∷ 2 ∷ 3 ∷ 4 ∷ []) ∷ Call.size ∷ []) wrapped)
      (queue_run sink 4
        (Call.take_one ∷ Call.push_many (1 ∷ 2 ∷ 3 ∷ 4 ∷ []) ∷ Call.size ∷ [])
        (items, 7 ∷ [])).0
      (queue_run sink 4
        (Call.take_one ∷ Call.push_many (1 ∷ 2 ∷ 3 ∷ 4 ∷ []) ∷ Call.size ∷ [])
        (items, 7 ∷ [])).1
run_refines_example =
    run_refines sink IsCapacity-four
      (Call.take_one ∷ Call.push_many (1 ∷ 2 ∷ 3 ∷ 4 ∷ []) ∷ Call.size ∷ []) wrapped (items, 7 ∷ [])
      lawful wrapped-Holds

peek_back_refines_example : peek_back 4 wrapped ≡ some (some 20)
peek_back_refines_example = peek_back_refines IsCapacity-four wrapped items (7 ∷ []) wrapped-Holds

abbrev iterator : ℕ → SpillRingIter ℕ (List ℕ)
iterator i = record { ring = wrapped; pos = i; count = 2; head = word - 1 }

next_refines_example :
    (iter 4 wrapped ≡ iterator 0) × (next 4 (iterator 1) ≡ some (some 20, iterator 2))
next_refines_example =
    next_refines IsCapacity-four wrapped items (7 ∷ []) wrapped-Holds 1 (omega arith)

abbrev calls : List (Call ℕ)
calls = Call.push_many (1 ∷ 2 ∷ 3 ∷ 4 ∷ 5 ∷ []) ∷ Call.take_one ∷ Call.size ∷ []
