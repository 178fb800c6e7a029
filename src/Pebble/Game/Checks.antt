-- ===== src/Pebble/Game/Checks.antt =====
-- pebble/src/game.rs: `validate_invariants`, and the games that play can lead to.
use abmac_lib.Prelude.{
  ℕ, ◌<◌, ◌≡◌, ◌≢◌, ◌↔◌, inl, inr, refl, sym, ap, ◌∙◌, subst, true, false, List, [], ◌∷◌, Option,
  none, some, length, ltb, Result, ok, err, Bool-cases, arith, ltb→le, le→ltb, lt→ltb,
}
use abmac_lib.Hash.{Key}
use abmac_lib.Hash.Sets.{
  contains, insert, contains-insert, same-cases, same_self, contains-cons_self, contains-cons,
  true≢false,
}
use abmac_lib.Pebble.Game.{
  PebbleColor, red, blue, PebbleGame, load_node, store_node, compute_node, delete_node, computed,
  has_missing, check_colors, validate_invariants, initialize_inputs, new_game,
}
use abmac_lib.Pebble.Game.Board.{
  color, color-cases, IsSound, Moved-IsSound, Refused-IsSound, load_node_lem, store_node_lem,
  compute_node_lem, delete_node_lem,
}

err≢ok {ℓ κ} : {E : Type ℓ} {A : Type κ} {e : E} {a : A} → ◌≢◌ {A = Result E A} (err e) (ok a)
err≢ok p = cc

red≢blue : ◌≢◌ {A = Option PebbleColor} (some red) (some blue)
red≢blue p = cc

none≢some : ◌≢◌ {A = Option PebbleColor} none (some blue)
none≢some p = cc

module _ {ℓ} {K : Type ℓ} ⦃key : Key K⦄ where
  Apart : List K → List K → Type ℓ
  Apart reds blues = (k : K) → contains k reds ≡ true → contains k blues ≡ false

  check_colors-Apart : (reds blues : List K) → check_colors reds blues ≡ ok tt → Apart reds blues
  unfolding check_colors contains Apart
  check_colors-Apart [] blues e k h = absurd (true≢false (sym h))
  check_colors-Apart (x ∷ reds) blues e k h = elim (Bool-cases (contains x blues)) [
    | inl b ↦ absurd (err≢ok (rw b at e))
    | inr b ↦ elim (same-cases k x) [
      | inl (p, found) ↦ subst (λ t. contains t blues ≡ false) (sym p) b
      | inr different ↦ check_colors-Apart reds blues (rw b at e) k (rw different at h)
    ]
  ]

  Apart-check_colors : (reds blues : List K) → Apart reds blues → check_colors reds blues ≡ ok tt
  unfolding check_colors contains Apart
  Apart-check_colors [] blues h = refl
  Apart-check_colors (x ∷ reds) blues h =
      rw (h x (contains-cons_self x reds))
        (Apart-check_colors reds blues (λ k c. h k (contains-cons k x reds c)))

  -- `validate_invariants` succeeds exactly on the games with fast memory within its size and no
  -- node with two pebbles.
  pub validate_invariants_lem : (g : PebbleGame K) → (validate_invariants g ≡ ok tt) ↔ IsSound g
  unfolding validate_invariants Apart
  validate_invariants_lem g = (passes, fails)
    where
      passes : validate_invariants g ≡ ok tt → IsSound g
      passes e = elim (Bool-cases (ltb g.max_red_pebbles (length g.red_pebbles))) [
        | inl over ↦ absurd (err≢ok (rw over at e))
        | inr fits ↦ record {
          fits = ltb→le _ _ fits;
          apart = check_colors-Apart g.red_pebbles g.blue_pebbles (rw fits at e);
        }
      ]

      fails : IsSound g → validate_invariants g ≡ ok tt
      fails h =
          rw (le→ltb g.max_red_pebbles (length g.red_pebbles) h.fits)
            (Apart-check_colors g.red_pebbles g.blue_pebbles h.apart)

  -- The games that are reached from a new one and its inputs by moves, refused or not, that compute
  -- no blue node.
  pub data Reached (max_red : ℕ) (inputs : List K) : PebbleGame K → Type ℓ where
    start : Reached max_red inputs (initialize_inputs inputs (new_game max_red))
    loads :
        {g : PebbleGame K}
        → Reached max_red inputs g
        → (node : K) → Reached max_red inputs (load_node node g).1
    stores :
        {g : PebbleGame K}
        → Reached max_red inputs g
        → (node : K) → Reached max_red inputs (store_node node g).1
    deletes :
        {g : PebbleGame K}
        → Reached max_red inputs g
        → (node : K) → Reached max_red inputs (delete_node node g).1
    computes :
        {g : PebbleGame K}
        → Reached max_red inputs g
        → (node : K) (dependencies : List K) → color g node ≢ some blue
        → Reached max_red inputs (compute_node node dependencies g).1

  new_game-empty : (n : ℕ) → (new_game {K = K} n).red_pebbles ≡ []
  unfolding new_game
  new_game-empty n = refl

  inputs-IsSound :
      (inputs : List K) (g : PebbleGame K)
      → g.red_pebbles ≡ []
      → IsSound (initialize_inputs inputs g)
  unfolding initialize_inputs contains
  inputs-IsSound [] g e = record {
    fits = rw e (omega arith);
    apart = λ k h. absurd (true≢false (sym (rw e at h)));
  }
  inputs-IsSound (input ∷ inputs) g e =
      inputs-IsSound inputs (record g { blue_pebbles = insert input g.blue_pebbles }) e

  -- Play from a new game and its inputs that computes no blue node keeps fast memory within its
  -- size and never gives a node two pebbles.
  pub Reached-IsSound :
      (max_red : ℕ) (inputs : List K) (g : PebbleGame K) → Reached max_red inputs g → IsSound g
  Reached-IsSound max_red inputs _ start =
      inputs-IsSound inputs (new_game max_red) (new_game-empty max_red)
  Reached-IsSound max_red inputs _ (loads {g} r node) =
      let h = Reached-IsSound max_red inputs g r in
      elim (load_node_lem g h node) [
        | inl (_, _, m) ↦ Moved-IsSound g _ node _ _ m
        | inr (_, m) ↦ Refused-IsSound g _ h m
      ]
  Reached-IsSound max_red inputs _ (stores {g} r node) =
      let h = Reached-IsSound max_red inputs g r in
      elim (store_node_lem g h node) [
        | inl (_, m) ↦ Moved-IsSound g _ node _ _ m
        | inr (_, m) ↦ Refused-IsSound g _ h m
      ]
  Reached-IsSound max_red inputs _ (deletes {g} r node) =
      let h = Reached-IsSound max_red inputs g r in
      elim (delete_node_lem g h node) [
        | inl (_, m) ↦ Moved-IsSound g _ node _ _ m
        | inr (_, m) ↦ Refused-IsSound g _ h m
      ]
  Reached-IsSound max_red inputs _ (computes {g} r node dependencies c) =
      let h = Reached-IsSound max_red inputs g r in
      elim (compute_node_lem g h node dependencies c) [
        | inl (_, _, m) ↦ Moved-IsSound g _ node _ _ m
        | inr (_, m) ↦ Refused-IsSound g _ h m
      ]

  -- In a sound game with room, a blue node whose dependencies are red is computed and keeps its
  -- blue pebble beside the red one, and `validate_invariants` then fails.
  pub compute_node-blue :
      (g : PebbleGame K) (node : K) (dependencies : List K)
      → IsSound g
      → color g node ≡ some blue
      → has_missing dependencies g.red_pebbles ≡ false
      → length g.red_pebbles < g.max_red_pebbles
      → ((compute_node node dependencies g).0 ≡ ok tt)
        × ((color (compute_node node dependencies g).1 node) ≡ some red)
        × (validate_invariants (compute_node node dependencies g).1 ≢ ok tt)
  unfolding compute_node color
  compute_node-blue g node dependencies h c ready room = (
    ap (λ t. t.0) runs,
    ap (λ t. color t.1 node) runs ∙ rw is_red refl,
    λ valid. true≢false (
        sym still_blue
        ∙ ((validate_invariants_lem (computed node g)).0
              (ap (λ t. validate_invariants t.1) (sym runs) ∙ valid)).apart
            node is_red),
  )
    where
      facts : (contains node g.red_pebbles ≡ false) × (contains node g.blue_pebbles ≡ true)
      facts = elim (color-cases g h node) [
        | inl (r, b, e) ↦ absurd (red≢blue (sym e ∙ c))
        | inr (inl (r, b, e)) ↦ (r, b)
        | inr (inr (r, b, e)) ↦ absurd (none≢some (sym e ∙ c))
      ]

      runs : compute_node node dependencies g ≡ (ok tt, computed node g)
      runs = rw (ready, facts.0, lt→ltb _ _ room) refl

      is_red : contains node (insert node g.red_pebbles) ≡ true
      is_red = rw (contains-insert node node g.red_pebbles, same_self node) refl

      still_blue : contains node g.blue_pebbles ≡ true
      still_blue = facts.1
