-- ===== src/Pebble/Manager/Eviction/Moves.antt =====
-- pebble/src/manager/eviction.rs: the states in which `evict_single` may leave the tiers, and that no
-- checkpoint is missing in any of them.
use abmac_lib.Prelude.{
  ℕ, ◌≡◌, refl, sym, ◌∙◌, subst, inl, inr, false, Option, none, some, Bool-cases, Option-cases,
  none≢some, arith,
}
use abmac_lib.Hash.{Key}
use abmac_lib.Hash.Sets.{contains, insert, remove, contains-insert, contains-remove, same-cases}
use abmac_lib.Hash.Maps.{get, put, get-put}
use abmac_lib.Pebble.Manifest.{Manifest}
use abmac_lib.Pebble.Manifest.Ready.{IsReady}
use abmac_lib.Pebble.Tiers.{Inserted, added, taken}
use abmac_lib.Pebble.Manager.{PebbleManager, Parts}
use abmac_lib.Pebble.Manager.Eviction.Found.{
  first_of, in_storage, found, IsLawful, IsSound, IsAbsent, IsSafe, Keeps,
}

module _ {ℓ} {K T N W C S E : Type ℓ} ⦃key : Key K⦄ (parts : Parts K T W C S E) (Valid : W → Type 0)
    (stored : K → C → Option T) (lawful : IsLawful parts Valid stored) where
  -- An identifier in no tier is no other that is somewhere.
  hot_other :
      (id j : K) (x : T) (m : PebbleManager K T N W C S)
      → IsAbsent parts id m
      → get j m.red_pebbles ≡ some x
      → key.same j id ≡ false
  hot_other id j x m absent there = elim (same-cases j id) [
    | inr q ↦ q
    | inl (p, _) ↦
        absurd (none≢some (sym (subst (λ k. get k m.red_pebbles ≡ none) (sym p) absent.0) ∙ there))
  ]

  -- The states on the way, by their tiers: the warm tier took `id`, and `o` overflowed.
  module _ (id o : K) (item y : T) (m : PebbleManager K T N W C S)
      (sound : IsSound parts Valid stored m) (absent : IsAbsent parts id m)
      (safe : IsSafe parts stored id item m) (warm' : W)
      (effect : Inserted parts.warm id item m.warm (some (o, y), warm')) where
    -- What overflows is the item, or was in the warm tier.
    overflow_found : added id item o (found parts stored o m) ≡ some y
    overflow_found = elim (Bool-cases (key.same o id)) [
      | inl q ↦ rw q (rw q at effect.0)
      | inr q ↦ elim (Option-cases (get o m.red_pebbles)) [
        | inl cool ↦ rw (q, cool, rw q at effect.0) refl
        | inr (x, there) ↦
            absurd (none≢some (sym (sound.hot_apart o x there).0 ∙ (rw q at effect.0)))
      ]
    ]

    elsewhere :
        (j : K) → key.same j id ≡ false → found parts stored j m ≡ none → key.same j o ≡ false
    elsewhere j other missing = elim (same-cases j o) [
      | inr q ↦ q
      | inl (p, _) ↦ absurd (
          none≢some (
            sym (subst (λ k. found parts stored k m ≡ none) p missing)
            ∙ (rw (subst (λ k. key.same k id ≡ false) p other) at overflow_found)))
    ]

    -- It is not hot, and neither is anything else in the warm tier.
    hot_outside :
        (j : K) (x : T)
        → get j m.red_pebbles ≡ some x
        → (parts.warm.get j warm' ≡ none) × (key.same j o ≡ false)
    hot_outside j x there = elim (same-cases j o) [
      | inr q ↦
          (rw (effect.1 j, q, hot_other id j x m absent there) (sound.hot_apart j x there).0, q)
      | inl (p, _) ↦ absurd (
          none≢some (
            sym (subst (λ k. parts.warm.get k m.warm ≡ none) p (sound.hot_apart j x there).0)
            ∙ (rw (subst (λ k. key.same k id ≡ false) p (hot_other id j x m absent there)) at
                effect.0)))
    ]

    warm_outside :
        (j : K) (x : T)
        → parts.warm.get j warm' ≡ some x
        → (key.same j o ≡ false) × (contains j m.blue_pebbles ≡ false)
    warm_outside j x there = elim (Bool-cases (key.same j o)) [
      | inl q ↦ absurd (none≢some (rw q at (sym (effect.1 j) ∙ there)))
      | inr q ↦ elim (same-cases j id) [
        | inl (p, _) ↦ (q, subst (λ k. contains k m.blue_pebbles ≡ false) (sym p) absent.2)
        | inr other ↦ (q, sound.warm_apart j x (rw (q, other) at (sym (effect.1 j) ∙ there)))
      ]
    ]

    module _ (cold' : C) (grown : (j : K) → stored j cold' ≡ added o y j (stored j m.cold)) where
      stored-found :
          (j : K)
          → first_of (get j m.red_pebbles) (
              first_of
                (parts.warm.get j warm')
                (in_storage stored j (insert o m.blue_pebbles) cold'))
            ≡ added id item j (found parts stored j m)
      stored-found j = elim (Option-cases (get j m.red_pebbles)) [
        | inr (x, there) ↦ rw (there, hot_other id j x m absent there) refl
        | inl cool ↦ elim (same-cases j o) [
          | inl (p, q) ↦
              rw (cool, effect.1 j, q, contains-insert j o m.blue_pebbles, q, grown j, q)
                (sym (
                    subst (λ k. added id item k (found parts stored k m) ≡ some y) (sym p)
                      overflow_found)
                  ∙ rw cool refl)
          | inr q ↦ elim (Bool-cases (key.same j id)) [
            | inl itself ↦ rw (cool, effect.1 j, q, itself) refl
            | inr other ↦
                rw (cool, effect.1 j, q, other, contains-insert j o m.blue_pebbles, q, grown j, q)
                  refl
          ]
        ]
      ]

      module _ (manifest' : Manifest K S)
          (ready : IsReady parts.spout parts.default parts.max_deps parts.log_capacity manifest')
          (valid : Valid warm') (writes : ℕ) where
        pub stored-Keeps : Keeps parts Valid stored id item m (record m {
          warm = warm';
          cold = cold';
          manifest = manifest';
          io_writes = writes;
          blue_pebbles = insert o m.blue_pebbles;
          dirty = remove o m.dirty;
        })
        stored-Keeps = record {
          sound = record {
            ready = ready;
            valid = valid;
            backed = λ j h. elim (Bool-cases (key.same j o)) [
              | inl q ↦ (y, rw (grown j, q) refl)
              | inr q ↦ rw (grown j, q) (sound.backed j (rw (contains-insert j o _, q) at h))
            ];
            hot_apart = λ j x there. (
              (hot_outside j x there).0,
              rw (contains-insert j o m.blue_pebbles, (hot_outside j x there).1)
                  (sound.hot_apart j x there).1,
            );
            warm_apart = λ j x there.
                rw (contains-insert j o m.blue_pebbles, (warm_outside j x there).0)
                  (warm_outside j x there).1;
            clean = λ j x h washed. elim (Option-cases (get j m.red_pebbles)) [
              | inr (z, there) ↦
                  let q = (hot_outside j z there).1 in
                  rw (grown j, q)
                    (sound.clean j x (rw there (rw there at h))
                      (rw (contains-remove j o m.dirty, q) at washed))
              | inl cool ↦
                  let in_warm = rw cool at h in
                  let q = (warm_outside j x in_warm).0 in
                  let washed' = rw (contains-remove j o m.dirty, q) at washed in
                  rw (grown j, q)
                    (elim (same-cases j id) [
                      | inl (p, itself) ↦ rw p (
                          safe (rw p at washed') ∙ (rw (q, itself) at (sym (effect.1 j) ∙ in_warm)))
                      | inr other ↦
                          sound.clean j x (rw cool (rw (q, other) at (sym (effect.1 j) ∙ in_warm)))
                            washed'
                    ])
            ];
          };
          all = stored-found;
          storage = λ j h. ground (arith, contains-insert j o m.blue_pebbles);
          aside = λ j z other missing safe_before washed.
              let q = elsewhere j other missing in
              rw (grown j, q) (safe_before (rw (contains-remove j o m.dirty, q) at washed));
          graph = refl;
          capacity = refl;
          strategy = refl;
        }

    -- Everything is put back: `warm₂` is the warm tier without `id` and with `o`.
    module _ (other : key.same o id ≡ false) (warm₂ : W)
        (refilled : (j : K)
          → parts.warm.get j warm₂ ≡ added o y j (taken id j (parts.warm.get j warm'))) where
      refilled_warm : (j : K) → parts.warm.get j warm₂ ≡ parts.warm.get j m.warm
      refilled_warm j = elim (same-cases j o) [
        | inl (p, q) ↦
            rw (refilled j, q)
              (sym (subst (λ k. parts.warm.get k m.warm ≡ some y) (sym p) (rw other at effect.0)))
        | inr q ↦ elim (same-cases j id) [
          | inl (p, itself) ↦
              rw (refilled j, q, itself)
                (sym (subst (λ k. parts.warm.get k m.warm ≡ none) (sym p) absent.1))
          | inr outside ↦ rw (refilled j, q, outside, effect.1 j, q, outside) refl
        ]
      ]

      module _ (cold' : C) (unchanged : (j : K) → stored j cold' ≡ stored j m.cold)
          (manifest' : Manifest K S)
          (ready : IsReady parts.spout parts.default parts.max_deps parts.log_capacity manifest')
          (valid : Valid warm₂) (writes : ℕ) where
        restored_hot :
            (j : K) (x : T)
            → get j (put id item m.red_pebbles) ≡ some x
            → (parts.warm.get j warm₂ ≡ none) × (contains j m.blue_pebbles ≡ false)
        restored_hot j x there = elim (same-cases j id) [
          | inl (p, _) ↦ rw p (refilled_warm id ∙ absent.1, absent.2)
          | inr q ↦
              rw (refilled_warm j)
                (sound.hot_apart j x (rw q at (sym (get-put j id item m.red_pebbles) ∙ there)))
        ]

        pub restored_Keeps : Keeps parts Valid stored id item m (record m {
          warm = warm₂;
          red_pebbles = put id item m.red_pebbles;
          cold = cold';
          manifest = manifest';
          io_writes = writes;
        })
        restored_Keeps = record {
          sound = record {
            ready = ready;
            valid = valid;
            backed = λ j h. rw (unchanged j) (sound.backed j h);
            hot_apart = restored_hot;
            warm_apart = λ j x there. sound.warm_apart j x (sym (refilled_warm j) ∙ there);
            clean = λ j x h washed. rw (unchanged j) (elim (same-cases j id) [
              | inl (p, q) ↦
                  rw p (safe (rw p at washed) ∙ (rw (get-put j id item m.red_pebbles, q) at h))
              | inr q ↦
                  sound.clean j x (rw (get-put j id item m.red_pebbles, q, refilled_warm j) at h)
                    washed
            ]);
          };
          storage = λ j h. h;
          aside = λ j z _ _ safe_before washed. unchanged j ∙ safe_before washed;
          all = λ j. elim (Bool-cases (key.same j id)) [
            | inl q ↦ rw (get-put j id item m.red_pebbles, q) refl
            | inr q ↦ rw (get-put j id item m.red_pebbles, q, refilled_warm j, unchanged j) refl
          ];
          graph = refl;
          capacity = refl;
          strategy = refl;
        }

  -- Nothing overflows.
  module _ (id : K) (item : T) (m : PebbleManager K T N W C S)
      (sound : IsSound parts Valid stored m) (absent : IsAbsent parts id m)
      (safe : IsSafe parts stored id item m) (warm' : W)
      (effect : Inserted parts.warm id item m.warm (none, warm')) (valid : Valid warm') where
    pub kept_Keeps : Keeps parts Valid stored id item m (record m { warm = warm' })
    kept_Keeps = record {
      sound = record {
        ready = sound.ready;
        valid = valid;
        backed = sound.backed;
        hot_apart = λ j x there. (
          rw (effect j, hot_other id j x m absent there) (sound.hot_apart j x there).0,
          (sound.hot_apart j x there).1,
        );
        warm_apart = λ j x there. elim (same-cases j id) [
          | inl (p, _) ↦ subst (λ k. contains k m.blue_pebbles ≡ false) (sym p) absent.2
          | inr q ↦ sound.warm_apart j x (rw q at (sym (effect j) ∙ there))
        ];
        clean = λ j x h washed. elim (Option-cases (get j m.red_pebbles)) [
          | inr (z, there) ↦ sound.clean j x (rw there (rw there at h)) washed
          | inl cool ↦ elim (same-cases j id) [
            | inl (p, itself) ↦
                rw p (safe (rw p at washed) ∙ (rw itself at (sym (effect j) ∙ (rw cool at h))))
            | inr other ↦
                sound.clean j x (rw cool (rw other at (sym (effect j) ∙ (rw cool at h)))) washed
          ]
        ];
      };
      storage = λ j h. h;
      aside = λ j z _ _ safe_before. safe_before;
      all = λ j. elim (Option-cases (get j m.red_pebbles)) [
        | inr (x, there) ↦ rw (there, hot_other id j x m absent there) refl
        | inl cool ↦ elim (Bool-cases (key.same j id)) [
          | inl q ↦ rw (cool, effect j, q) refl
          | inr q ↦ rw (cool, effect j, q) refl
        ]
      ];
      graph = refl;
      capacity = refl;
      strategy = refl;
    }
