-- ===== src/Pebble/Game/Board.antt =====
-- pebble/src/game.rs: the board as it is seen from outside, a color for each node, and what the rules
-- of the game do to it.
use abmac_lib.Prelude.{
  ℕ, ◌≤◌, ◌<◌, ◌≡◌, ◌≢◌, ◌⊎◌, inl, inr, refl, sym, ◌∙◌, subst, Bool, true, false, List, Option,
  none, some, length, ltb, if◌then◌else◌, saturating_add, Result, ok, err, Bool-cases, arith,
  ltb→lt, ltb→le,
}
use abmac_lib.Hash.{Key}
use abmac_lib.Hash.Sets.{
  contains, contains-insert, contains-remove, length-insert_le, length-remove_le, insert-present,
  same-cases, true≢false,
}
use abmac_lib.Pebble.Game.{
  PebbleColor, red, blue, PebbleError, fast_memory_exhausted, invalid_operation, PebbleGame,
  load_node, store_node, compute_node, delete_node, loaded, stored, computed, deleted, has_missing,
}

abbrev is_red : Option PebbleColor → Bool
is_red (some red) = true
is_red _ = false

abbrev is_blue : Option PebbleColor → Bool
is_blue (some blue) = true
is_blue _ = false

red→not_blue : (c : Option PebbleColor) → is_red c ≡ true → is_blue c ≡ false
red→not_blue none e = refl
red→not_blue (some red) e = refl
red→not_blue (some blue) e = absurd (true≢false (sym e))

color_of :
    (c : Option PebbleColor)
    → (if is_red c then some red else if is_blue c then some blue else none) ≡ c
color_of none = refl
color_of (some red) = refl
color_of (some blue) = refl

module _ {ℓ} {K : Type ℓ} ⦃key : Key K⦄ where
  unfoldable pub color : PebbleGame K → K → Option PebbleColor
  color g k =
      if contains k g.red_pebbles
      then some red
      else if contains k g.blue_pebbles
      then some blue
      else none

  -- The board after a change at one node.
  abbrev pub recolor : K → Option PebbleColor → (K → Option PebbleColor) → K → Option PebbleColor
  recolor node c board j = if key.same j node then c else board j

  -- Fast memory is not exceeded, and no node has two pebbles.
  pub record IsSound (g : PebbleGame K) : Type ℓ where
    pub fits : length g.red_pebbles ≤ g.max_red_pebbles
    pub apart : (k : K) → contains k g.red_pebbles ≡ true → contains k g.blue_pebbles ≡ false

  -- A move that succeeds: the node has the color `c` afterwards and no other node changes, and
  -- `io` moves between the memories have been counted.
  abbrev pub Moved :
      PebbleGame K
      → Result (PebbleError K) (Unit {0}) × PebbleGame K
      → K
      → Option PebbleColor
      → ℕ
      → Type ℓ
  Moved g out node c io =
      (g' : PebbleGame K) × (out ≡ (ok tt, g'))
      × IsSound g'
      × ((j : K) → color g' j ≡ recolor node c (color g) j)
      × (g'.io_count ≡ io)

  -- A move that the rules forbid: an error, and the game is unchanged.
  abbrev pub Refused : PebbleGame K → Result (PebbleError K) (Unit {0}) × PebbleGame K → Type ℓ
  Refused g out = (e : PebbleError K) × (out ≡ (err e, g))

  module _ (g : PebbleGame K) (h : IsSound g) (node : K) where
    -- What the two tests on the board say.
    pub color-cases :
        ((contains node g.red_pebbles ≡ true)
          × (contains node g.blue_pebbles ≡ false)
          × (color g node ≡ some red))
        ⊎ (((contains node g.red_pebbles ≡ false)
              × (contains node g.blue_pebbles ≡ true)
              × (color g node ≡ some blue))
            ⊎ ((contains node g.red_pebbles ≡ false)
                × (contains node g.blue_pebbles ≡ false)
                × (color g node ≡ none)))
    unfolding color
    color-cases = elim (Bool-cases (contains node g.red_pebbles)) [
      | inl r ↦ inl (r, h.apart node r, rw r refl)
      | inr r ↦ elim (Bool-cases (contains node g.blue_pebbles)) [
        | inl b ↦ inr (inl (r, b, rw (r, b) refl))
        | inr b ↦ inr (inr (r, b, rw (r, b) refl))
      ]
    ]

    -- A change of the two sets at one node, to a color or to none.
    settled :
        (g' : PebbleGame K) (c : Option PebbleColor)
        → length g'.red_pebbles ≤ g'.max_red_pebbles
        → ((j : K)
            → contains j g'.red_pebbles
              ≡ (if key.same j node then is_red c else contains j g.red_pebbles))
        → ((j : K)
            → contains j g'.blue_pebbles
              ≡ (if key.same j node then is_blue c else contains j g.blue_pebbles))
        → IsSound g' × ((j : K) → color g' j ≡ recolor node c (color g) j)
    unfolding color
    settled g' c room reds blues = (
      record {
        fits = room;
        apart = λ k r. elim (same-cases k node) [
          | inl (e, found) ↦ blues k ∙ rw found (red→not_blue c (rw found at (sym (reds k) ∙ r)))
          | inr different ↦ blues k ∙ rw different (h.apart k (rw different at (sym (reds k) ∙ r)))
        ];
      },
      λ j. elim (same-cases j node) [
        | inl (e, found) ↦ rw (reds j, blues j, found) (color_of c)
        | inr different ↦ rw (reds j, blues j, different) refl
      ],
    )

    -- The two sets where `contains` has not changed at the node.
    kept :
        (s : List K) (b : Bool)
        → contains node s ≡ b
        → (j : K) → contains j s ≡ (if key.same j node then b else contains j s)
    kept s b e j = elim (same-cases j node) [
      | inl (p, found) ↦ rw found (subst (λ x. contains x s ≡ b) (sym p) e)
      | inr different ↦ rw different refl
    ]

    -- In a sound game exactly a blue node can be loaded, and only if fast memory has room: it
    -- turns red, no other node changes and one transfer is counted. Otherwise there is an error
    -- and no change.
    pub load_node_lem :
        ((color g node ≡ some blue)
          × (length g.red_pebbles < g.max_red_pebbles)
          × Moved g (load_node node g) node (some red) (saturating_add g.io_count 1))
        ⊎ (((color g node ≢ some blue) ⊎ (g.max_red_pebbles ≤ length g.red_pebbles))
            × Refused g (load_node node g))
    unfolding load_node
    load_node_lem = elim color-cases [
      | inl (r, b, e) ↦ inr (inl (rw e (λ p. cc)), (refusal, rw b refl))
      | inr (inr (r, b, e)) ↦ inr (inl (rw e (λ p. cc)), (refusal, rw (r, b) refl))
      | inr (inl (r, b, e)) ↦ elim (Bool-cases (ltb (length g.red_pebbles) g.max_red_pebbles)) [
        | inr full ↦ inr (inr (ltb→le _ _ full), (refusal, rw (r, b, full) refl))
        | inl room ↦
            let (sound, colors) =
              settled (loaded node g) (some red)
                (omega (arith, ltb→lt _ _ room, length-insert_le node g.red_pebbles))
                (λ j. contains-insert j node g.red_pebbles)
                (λ j. contains-remove j node g.blue_pebbles) in
            inl (e, ltb→lt _ _ room, (loaded node g, rw (r, b, room) refl, sound, colors, refl))
      ]
    ]
      where
        refusal : PebbleError K
        refusal = invalid_operation "Load " node ": not in blue pebbles or red memory full"

    -- In a sound game exactly a red node can be stored: it turns blue, no other node changes and
    -- one transfer is counted. Otherwise there is an error and no change.
    pub store_node_lem :
        ((color g node ≡ some red)
          × Moved g (store_node node g) node (some blue) (saturating_add g.io_count 1))
        ⊎ ((color g node ≢ some red) × Refused g (store_node node g))
    unfolding store_node
    store_node_lem = elim color-cases [
      | inr (inl (r, b, e)) ↦ inr (rw e (λ p. cc), (refusal, rw r refl))
      | inr (inr (r, b, e)) ↦ inr (rw e (λ p. cc), (refusal, rw r refl))
      | inl (r, b, e) ↦
          let (sound, colors) =
            settled (stored node g) (some blue)
              (omega (arith, h.fits, length-remove_le node g.red_pebbles))
              (λ j. contains-remove j node g.red_pebbles)
              (λ j. contains-insert j node g.blue_pebbles) in
          inl (e, (stored node g, rw r refl, sound, colors, refl))
    ]
      where
        refusal : PebbleError K
        refusal = invalid_operation "Store " node ": not in red pebbles"

    -- R4: exactly a red node can be deleted. It has no pebble afterwards.
    pub delete_node_lem :
        ((color g node ≡ some red) × Moved g (delete_node node g) node none g.io_count)
        ⊎ ((color g node ≢ some red) × Refused g (delete_node node g))
    unfolding delete_node
    delete_node_lem = elim color-cases [
      | inr (inl (r, b, e)) ↦ inr (rw e (λ p. cc), (refusal, rw r refl))
      | inr (inr (r, b, e)) ↦ inr (rw e (λ p. cc), (refusal, rw r refl))
      | inl (r, b, e) ↦
          let (sound, colors) =
            settled (deleted node g) none
              (omega (arith, h.fits, length-remove_le node g.red_pebbles))
              (λ j. contains-remove j node g.red_pebbles) (kept g.blue_pebbles false b) in
          inl (e, (deleted node g, rw r refl, sound, colors, refl))
    ]
      where
        refusal : PebbleError K
        refusal = invalid_operation "Delete " node ": not in red pebbles"

    -- In a sound game a node that is not blue can be computed exactly if its dependencies are red
    -- and it is red or fast memory has room: it is red afterwards and no transfer is counted.
    -- Otherwise there is an error and no change.
    pub compute_node_lem :
        (dependencies : List K)
        → color g node ≢ some blue
        → ((has_missing dependencies g.red_pebbles ≡ false)
            × ((color g node ≡ some red) ⊎ (length g.red_pebbles < g.max_red_pebbles))
            × Moved g (compute_node node dependencies g) node (some red) g.io_count)
          ⊎ (((has_missing dependencies g.red_pebbles ≡ true)
                ⊎ ((color g node ≢ some red) × (g.max_red_pebbles ≤ length g.red_pebbles)))
              × Refused g (compute_node node dependencies g))
    unfolding compute_node
    compute_node_lem dependencies colorless =
        elim (Bool-cases (has_missing dependencies g.red_pebbles)) [
          | inl missing ↦ inr (inl missing, (no_dependency, rw missing refl))
          | inr ready ↦ elim color-cases [
            | inr (inl (r, b, e)) ↦ absurd (colorless e)
            | inl (r, b, e) ↦
                let (sound, colors) =
                  settled (computed node g) (some red)
                    (rw (insert-present node g.red_pebbles r) h.fits)
                    (λ j. contains-insert j node g.red_pebbles) (kept g.blue_pebbles false b) in
                inl (ready, inl e, (computed node g, rw (ready, r) refl, sound, colors, refl))
            | inr (inr (r, b, e)) ↦
                elim (Bool-cases (ltb (length g.red_pebbles) g.max_red_pebbles)) [
                  | inr full ↦
                      inr (
                        inr (rw e (λ p. cc), ltb→le _ _ full),
                        (exhausted, rw (ready, r, full) refl),
                      )
                  | inl room ↦
                      let (sound, colors) =
                        settled (computed node g) (some red)
                          (omega (arith, ltb→lt _ _ room, length-insert_le node g.red_pebbles))
                          (λ j. contains-insert j node g.red_pebbles)
                          (kept g.blue_pebbles false b) in
                      inl (
                        ready,
                        inr (ltb→lt _ _ room),
                        (computed node g, rw (ready, r, room) refl, sound, colors, refl),
                      )
                ]
          ]
        ]
      where
        no_dependency : PebbleError K
        no_dependency = invalid_operation "Compute " node ": dependencies not in red pebbles"

        exhausted : PebbleError K
        exhausted = fast_memory_exhausted (length g.red_pebbles) g.max_red_pebbles

  -- Whatever a rule answers, a sound game stays one.
  pub Moved-IsSound :
      (g : PebbleGame K) (out : Result (PebbleError K) (Unit {0}) × PebbleGame K) (node : K)
      (c : Option PebbleColor) (io : ℕ)
      → Moved g out node c io
      → IsSound out.1
  Moved-IsSound g out node c io (g', runs, sound, _, _) = subst (λ t. IsSound t.1) (sym runs) sound

  pub Refused-IsSound :
      (g : PebbleGame K) (out : Result (PebbleError K) (Unit {0}) × PebbleGame K)
      → IsSound g
      → Refused g out
      → IsSound out.1
  Refused-IsSound g out h (_, runs) = subst (λ t. IsSound t.1) (sym runs) h
