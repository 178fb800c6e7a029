-- ===== src/Spout/Batch/Batches.antt =====
-- spout/src/impls/core_impls.rs: the bulk `send_all` of a `BatchSpout` does what its `send` does.
use abmac_lib.Prelude.{
  ℕ, zero, suc, ◌≤◌, ◌<◌, ◌≡◌, refl, sym, ap, ◌∙◌, List, [], ◌∷◌, ◌++◌, some, length, Result, ok,
  err, infallible, arith, append_assoc, append-nil, length-append, le→leb, lt→leb, dec_lt,
  take-append_self, drop-append_self,
}
use abmac_lib.Spout.{Spout, send_each}
use abmac_lib.Spout.Batch.{BatchSpout, send_batch, send_item, or_stop, send_batches, send_items}

module _ {ℓ κ} {T : Type ℓ} {S : Type κ} (sp : Spout {ℓ, 0, κ} (List T) ⊥ S) where
  abbrev state : ℕ → S → List T → BatchSpout T S
  state t s buf = record { buffer = buf; threshold = t; sink = s }

  send_batch-ok :
      (t : ℕ) (s : S) (buf batch rest : List T)
      → send_batch sp batch rest (state t s buf) ≡ (ok tt, state t (sp.send batch s).1 rest)
  send_batch-ok t s buf batch rest =
      ap (λ r. (r, state t (sp.send batch s).1 rest)) (infallible (sp.send batch s).0)

  -- Fewer items than a batch stay.
  send_batches-short :
      (fuel t : ℕ) (s : S) (buf : List T)
      → length buf < t
      → send_batches sp fuel (state t s buf) ≡ some (ok tt, state t s buf)
  unfolding send_batches
  send_batches-short zero t s buf short = rw (lt→leb t (length buf) short) refl
  send_batches-short (suc fuel) t s buf short = rw (lt→leb t (length buf) short) refl

  send_batches-long :
      (fuel t : ℕ) (s : S) (batch rest : List T)
      → length batch ≡ t
      → send_batches sp (suc fuel) (state t s (batch ++ rest))
        ≡ send_batches sp fuel (state t (sp.send batch s).1 rest)
  unfolding send_batches
  send_batches-long fuel t s batch rest e =
      rw
        (
          ← e,
          le→leb (length batch) (length (batch ++ rest)) (rw length-append (omega arith)),
          take-append_self batch rest,
          drop-append_self batch rest,
        )
        (ap (or_stop sp (λ b. send_batches sp fuel b))
          (send_batch-ok (length batch) s (batch ++ rest) batch rest))

  each-step :
      (x : T) (xs : List T) (b b' : BatchSpout T S)
      → send_item sp x b ≡ (ok tt, b')
      → send_each (send_item sp) (x ∷ xs) b ≡ send_each (send_item sp) xs b'
  unfolding send_each
  each-step x xs b b' e =
      ap
        (λ (p : Result ⊥ (Unit {0}) × BatchSpout T S). elim p.0 [
          | ok _ ↦ send_each (send_item sp) xs p.1
          | err e' ↦ (err e', p.1)
        ])
        e

  send_item-short :
      (x : T) (t : ℕ) (s : S) (buf : List T)
      → suc (length buf) < t
      → send_item sp x (state t s buf) ≡ (ok tt, state t s (buf ++ x ∷ []))
  unfolding send_item
  send_item-short x t s buf room =
      rw (lt→leb t (length (buf ++ x ∷ [])) (rw length-append (omega arith))) refl

  send_item-long :
      (x : T) (t : ℕ) (s : S) (buf : List T)
      → t ≤ suc (length buf)
      → send_item sp x (state t s buf) ≡ (ok tt, state t (sp.send (buf ++ x ∷ []) s).1 [])
  unfolding send_item
  send_item-long x t s buf full =
      rw (le→leb t (length (buf ++ x ∷ [])) (rw length-append (omega arith)))
        (send_batch-ok t s buf (buf ++ x ∷ []) [])

  send_batches-each :
      (xs buf : List T) (fuel t : ℕ) (s : S)
      → length buf < t
      → length (buf ++ xs) ≤ fuel
      → send_batches sp fuel (state t s (buf ++ xs))
        ≡ some (send_each (send_item sp) xs (state t s buf))
  send_batches-each [] buf fuel t s short enough =
      rw append-nil (send_batches-short fuel t s buf short ∙ unfold send_each in refl)
  send_batches-each (x ∷ xs) buf zero t s short enough =
      absurd (omega (arith, length-append buf (x ∷ xs)))
  send_batches-each (x ∷ xs) buf (suc fuel) t s short enough = elim (dec_lt (suc (length buf)) t) [
    | yes room ↦ rw (← append_assoc buf (x ∷ []) xs) (
        send_batches-each xs (buf ++ x ∷ []) (suc fuel) t s (rw length-append (omega arith))
          (rw append_assoc enough)
        ∙ ap some (sym (each-step x xs _ _ (send_item-short x t s buf room))))
    | no full ↦ rw (← append_assoc buf (x ∷ []) xs) (
        send_batches-long fuel t s (buf ++ x ∷ []) xs (rw length-append (omega arith))
        ∙ send_batches-each xs [] fuel t (sp.send (buf ++ x ∷ []) s).1 (omega arith)
            (omega (arith, length-append buf (x ∷ xs)))
        ∙ ap some (sym (each-step x xs _ _ (send_item-long x t s buf (omega arith)))))
  ]

  -- The bulk `send_all` of a batch spout whose buffer is not full, over a sink that does not fail,
  -- ends and does what one `send` for each item does.
  pub send_items_lem :
      (xs : List T) (b : BatchSpout T S)
      → length b.buffer < b.threshold
      → send_items sp xs b ≡ some (send_each (send_item sp) xs b)
  unfolding send_items
  send_items_lem xs b short =
      send_batches-each xs b.buffer (length (b.buffer ++ xs)) b.threshold b.sink short (omega arith)
