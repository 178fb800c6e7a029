-- ===== src/Spout/Batch/Tests.antt =====
-- Runs of a `BatchSpout` with batches of two.
use abmac_lib.Prelude.{ℕ, ◌≡◌, List, [], ◌∷◌, some, ok, arith}
use abmac_lib.Spout.{Spout, send_each}
use abmac_lib.Spout.Sinks.{collect_spout}
use abmac_lib.Spout.Batch.{BatchSpout, send_item, send_items}
use abmac_lib.Spout.Batch.Batches.{send_items_lem}

abbrev batches : Spout (List ℕ) ⊥ (List (List ℕ))
batches = collect_spout

abbrev half_full : BatchSpout ℕ (List (List ℕ))
half_full = record { buffer = 1 ∷ []; threshold = 2; sink = [] }

send_items_lem_example :
    send_items batches (2 ∷ 3 ∷ 4 ∷ 5 ∷ 6 ∷ []) half_full
    ≡ some (
      ok tt,
      record { buffer = []; threshold = 2; sink = (1 ∷ 2 ∷ []) ∷ (3 ∷ 4 ∷ []) ∷ (5 ∷ 6 ∷ []) ∷ [] },
    )
unfolding send_each send_item collect_spout
send_items_lem_example = send_items_lem batches (2 ∷ 3 ∷ 4 ∷ 5 ∷ 6 ∷ []) half_full (omega arith)
