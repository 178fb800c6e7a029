-- ===== src/Ring/Queue/Overflow.antt =====
-- The queue after many pushes: it keeps the newest items that fit, and the spout has the others.
use abmac_lib.Prelude.{
  ℕ, suc, ◌-◌, ◌≤◌, ◌<◌, ◌≡◌, refl, sym, ap, ◌∙◌, List, [], ◌∷◌, ◌++◌, length, take, drop, arith,
  infallible, append_assoc, append-nil, length-append, lt→ltb, le→ltb, dec_lt,
}
use abmac_lib.Spout.{Spout, send_each}
use abmac_lib.Ring.Queue.{push, push_all}

module _ {ℓ κ} {T : Type ℓ} {S : Type κ} (sp : Spout {ℓ, 0, κ} T ⊥ S) where
  -- The state of the spout after it has taken the items, in order.
  abbrev pub sent : List T → S → S
  sent xs s = (send_each sp.send xs s).1

  pub sent-nil : (s : S) → sent [] s ≡ s
  unfolding send_each
  sent-nil s = refl

  -- A send cannot fail, so `send_all` goes on to the end.
  pub sent-cons : (x : T) (xs : List T) (s : S) → sent (x ∷ xs) s ≡ sent xs (sp.send x s).1
  unfolding send_each
  sent-cons x xs s = ground (arith, infallible (sp.send x s).0)

  pub sent-append : (xs ys : List T) (s : S) → sent (xs ++ ys) s ≡ sent ys (sent xs s)
  sent-append [] ys s = unfold send_each in refl
  sent-append (x ∷ xs) ys s =
      sent-cons x (xs ++ ys) s
      ∙ sent-append xs ys (sp.send x s).1
      ∙ ap (sent ys) (sym (sent-cons x xs s))

  sent_snoc : (xs : List T) (y : T) (s : S) → sent (xs ++ y ∷ []) s ≡ (sp.send y (sent xs s)).1
  sent_snoc xs y s =
      sent-append xs (y ∷ []) s ∙ sent-cons y [] (sent xs s) ∙ sent-nil (sp.send y (sent xs s)).1

  -- After the items of a queue and then more pushes, the newest items that fit are in the queue,
  -- in order, and all before them went to the spout, in order.
  pub push_all_lem :
      (n : ℕ) (xs q : List T) (s : S)
      → 0 < n
      → length q ≤ n
      → push_all sp n xs (q, s)
        ≡ (drop (length (q ++ xs) - n) (q ++ xs), sent (take (length (q ++ xs) - n) (q ++ xs)) s)
  push_all_lem n [] q s pos fits = rw (append-nil, none_over) (unfold send_each in refl)
    where
      none_over : length q - n ≡ 0
      none_over = omega arith
  push_all_lem n (x ∷ xs) [] s pos fits =
      rw (lt→ltb 0 n pos) (push_all_lem n xs (x ∷ []) s pos (omega arith))
  push_all_lem n (x ∷ xs) (y ∷ q) s pos fits = elim (dec_lt (suc (length q)) n) [
    | yes room ↦ rw (lt→ltb (suc (length q)) n room) (
        rw append_assoc at
          (push_all_lem n xs (y ∷ (q ++ x ∷ [])) s pos (rw length-append (omega arith))))
    | no all_used ↦
        rw (le→ltb (suc (length q)) n (omega arith), over (omega arith), sent-cons y)
          (rw append_assoc at
            (push_all_lem n xs (q ++ x ∷ []) (sp.send y s).1 pos (rw length-append (omega arith))))
  ]
    where
      over : n ≤ suc (length q) → suc (length (q ++ x ∷ xs)) - n ≡ suc (length (q ++ x ∷ xs) - n)
      over h = rw length-append (omega arith)

  -- One push, seen from all that was ever pushed: the queue and what the spout took stay its two
  -- parts.
  pub push_split :
      (n : ℕ) (x : T) (old q : List T) (s : S)
      → 0 < n
      → (old' : List T) × (q' : List T) × ((old ++ q) ++ x ∷ [] ≡ old' ++ q')
        × (push sp n x (q, sent old s) ≡ (q', sent old' s))
  push_split n x old [] s pos =
      (old, x ∷ [], append_assoc old [] (x ∷ []), rw (lt→ltb 0 n pos) refl)
  push_split n x old (y ∷ q) s pos = elim (dec_lt (suc (length q)) n) [
    | yes room ↦ (
      old,
      y ∷ q ++ x ∷ [],
      append_assoc old (y ∷ q) (x ∷ []),
      rw (lt→ltb (suc (length q)) n room) refl,
    )
    | no all_used ↦ (
      old ++ y ∷ [],
      q ++ x ∷ [],
      append_assoc old (y ∷ q) (x ∷ []) ∙ sym (append_assoc old (y ∷ []) (q ++ x ∷ [])),
      rw (le→ltb (suc (length q)) n (omega arith))
          (ap (λ t. (q ++ x ∷ [], t)) (sym (sent_snoc old y s))),
    )
  ]
