-- ===== src/Spout/Batch.antt =====
-- spout/src/impls/core_impls.rs: `BatchSpout`, which sends its items on in batches.
pub mod Batches
mod Tests
use abmac_lib.Prelude.{
  ℕ, zero, suc, List, [], ◌∷◌, ◌++◌, Option, none, some, length, take, drop, leb, if◌then◌else◌,
  Result, ok, err,
}
use abmac_lib.Spout.{Spout}

pub record BatchSpout {ℓ κ} (T : Type ℓ) (S : Type κ) : Type (ℓ ⊔ κ) where
  pub buffer : List T
  pub threshold : ℕ
  pub sink : S

module _ {ℓ κ} {T : Type ℓ} {S : Type κ} where
  -- `new`, after its assertion that the threshold is not 0.
  unfoldable pub new_batch : ℕ → S → BatchSpout T S
  new_batch threshold sink = record { buffer = []; threshold = threshold; sink = sink }

module _ {ℓ κ μ} {T : Type ℓ} {E : Type κ} {S : Type μ} (sp : Spout (List T) E S) where
  -- The batch goes to the sink, and `rest` stays in the buffer, also after an error.
  abbrev pub send_batch : List T → List T → BatchSpout T S → Result E (Unit {0}) × BatchSpout T S
  send_batch batch rest b =
      let (r, sink') = sp.send batch b.sink in (r, record b { buffer = rest; sink = sink' })

  unfoldable pub send_item : T → BatchSpout T S → Result E (Unit {0}) × BatchSpout T S
  send_item item b =
      let buffer' = b.buffer ++ item ∷ [] in
      if leb b.threshold (length buffer')
      then send_batch buffer' [] b
      else (ok tt, record b { buffer = buffer' })

  -- What follows a batch: the rest of the loop, or its error.
  abbrev pub or_stop :
      (BatchSpout T S → Option (Result E (Unit {0}) × BatchSpout T S))
      → Result E (Unit {0}) × BatchSpout T S
      → Option (Result E (Unit {0}) × BatchSpout T S)
  or_stop go (ok _, b) = go b
  or_stop go (err e, b) = some (err e, b)

  -- `while self.buffer.len() >= self.threshold`, with as many rounds as `fuel`. `none` is a loop that
  -- goes on.
  unfoldable pub send_batches : ℕ → BatchSpout T S → Option (Result E (Unit {0}) × BatchSpout T S)
  send_batches zero b = if leb b.threshold (length b.buffer) then none else some (ok tt, b)
  send_batches (suc fuel) b =
      let go = λ (b' : BatchSpout T S). send_batches fuel b' in
      if leb b.threshold (length b.buffer)
      then or_stop go (send_batch (take b.threshold b.buffer) (drop b.threshold b.buffer) b)
      else some (ok tt, b)

  -- `send_all`; with a threshold that is not 0 there are at most as many batches as items.
  unfoldable pub send_items :
      List T → BatchSpout T S → Option (Result E (Unit {0}) × BatchSpout T S)
  unfolding send_batches
  send_items items b =
      let b' = record b { buffer = b.buffer ++ items } in send_batches (length b'.buffer) b'

  abbrev pub then_flush :
      Result E (Unit {0}) × BatchSpout T S → Result E (Unit {0}) × BatchSpout T S
  then_flush (ok _, b) = let (r, sink') = sp.flush b.sink in (r, record b { sink = sink' })
  then_flush (err e, b) = (err e, b)

  unfoldable pub flush_batch : BatchSpout T S → Result E (Unit {0}) × BatchSpout T S
  flush_batch b =
      then_flush (if leb 1 (length b.buffer) then send_batch b.buffer [] b else (ok tt, b))
