-- ===== src/Pebble/Manager/Access/Promotion.antt =====
-- pebble/src/manager/pebble_manager.rs: the tiers while `load` moves a checkpoint between them.
use abmac_lib.Prelude.{
  ◌≡◌, refl, sym, ◌∙◌, inl, inr, false, List, Option, none, some, if◌then◌else◌, Bool-cases,
  Option-cases,
}
use abmac_lib.Hash.{Key}
use abmac_lib.Hash.Sets.{contains, same-cases, true≢false}
use abmac_lib.Hash.Maps.{get, put, get-put}
use abmac_lib.Pebble.Tiers.{added, taken}
use abmac_lib.Pebble.Manager.{PebbleManager, Parts}
use abmac_lib.Pebble.Manager.Eviction.Found.{found, IsSound, IsSafe}

module _ {ℓ} {K T N W C S E : Type ℓ} ⦃key : Key K⦄ (parts : Parts K T W C S E) (Valid : W → Type 0)
    (stored : K → C → Option T) where
  -- A cold tier that holds the same.
  module _ (m : PebbleManager K T N W C S) (s : IsSound parts Valid stored m) (cold' : C)
      (same : (j : K) → stored j cold' ≡ stored j m.cold) where
    pub recold-IsSound : IsSound parts Valid stored (record m { cold = cold' })
    recold-IsSound = record {
      ready = s.ready;
      valid = s.valid;
      backed = λ j h. rw (same j) (s.backed j h);
      hot_apart = s.hot_apart;
      warm_apart = s.warm_apart;
      clean = λ j x h washed. same j ∙ s.clean j x h washed;
    }

    pub recold_found :
        (j : K) → found parts stored j (record m { cold = cold' }) ≡ found parts stored j m
    recold_found j = rw (same j) refl

  -- A warm tier from which `id` was taken.
  module _ (id : K) (m : PebbleManager K T N W C S) (s : IsSound parts Valid stored m) (warm' : W)
      (valid : Valid warm')
      (left : (j : K) → parts.warm.get j warm' ≡ taken id j (parts.warm.get j m.warm)) where
    was_warm : (j : K) (x : T) → parts.warm.get j warm' ≡ some x → parts.warm.get j m.warm ≡ some x
    was_warm j x h = elim (Bool-cases (key.same j id)) [
      | inl q ↦ cc (rw q at (sym (left j) ∙ h))
      | inr q ↦ rw q at (sym (left j) ∙ h)
    ]

    still_none : (j : K) → parts.warm.get j m.warm ≡ none → parts.warm.get j warm' ≡ none
    still_none j h = elim (Bool-cases (key.same j id)) [
      | inl q ↦ rw (left j, q) refl
      | inr q ↦ rw (left j, q) h
    ]

    pub rewarm-IsSound : IsSound parts Valid stored (record m { warm = warm' })
    rewarm-IsSound = record {
      ready = s.ready;
      valid = valid;
      backed = s.backed;
      hot_apart = λ j x there. (still_none j (s.hot_apart j x there).0, (s.hot_apart j x there).1);
      warm_apart = λ j x there. s.warm_apart j x (was_warm j x there);
      clean = λ j x h washed. elim (Option-cases (get j m.red_pebbles)) [
        | inr (z, there) ↦ s.clean j x (rw there (rw there at h)) washed
        | inl cool ↦ s.clean j x (rw cool (was_warm j x (rw cool at h))) washed
      ];
    }

  -- A checkpoint that is on its way is put into fast memory, and is no longer in storage.
  module _ (id : K) (item : T) (m : PebbleManager K T N W C S) (s : IsSound parts Valid stored m)
      (not_warm : parts.warm.get id m.warm ≡ none) (safe : IsSafe parts stored id item m)
      (blue' : List K)
      (others : (j : K)
        → contains j blue' ≡ (if key.same j id then false else contains j m.blue_pebbles)) where
    pub promoted-IsSound :
        IsSound parts Valid stored
          (record m { red_pebbles = put id item m.red_pebbles; blue_pebbles = blue' })
    promoted-IsSound = record {
      ready = s.ready;
      valid = s.valid;
      backed = λ j h. elim (Bool-cases (key.same j id)) [
        | inl q ↦ absurd (true≢false (sym h ∙ others j ∙ rw q refl))
        | inr q ↦ s.backed j (rw q at (sym (others j) ∙ h))
      ];
      hot_apart = λ j x there. elim (same-cases j id) [
        | inl (p, q) ↦ (rw p not_warm, rw (others j, q) refl)
        | inr q ↦
            let h = s.hot_apart j x (rw q at (sym (get-put j id item m.red_pebbles) ∙ there)) in
            (h.0, rw (others j, q) h.1)
      ];
      warm_apart = λ j x there. elim (Bool-cases (key.same j id)) [
        | inl q ↦ rw (others j, q) refl
        | inr q ↦ rw (others j, q) (s.warm_apart j x there)
      ];
      clean = λ j x h washed. elim (same-cases j id) [
        | inl (p, q) ↦ rw p (safe (rw p at washed) ∙ (rw (get-put j id item m.red_pebbles, q) at h))
        | inr q ↦ s.clean j x (rw (get-put j id item m.red_pebbles, q) at h) washed
      ];
    }

    pub promoted_found :
        (j : K)
        → found parts stored j
            (record m { red_pebbles = put id item m.red_pebbles; blue_pebbles = blue' })
          ≡ added id item j (found parts stored j m)
    promoted_found j = elim (Bool-cases (key.same j id)) [
      | inl q ↦ rw (get-put j id item m.red_pebbles, q) refl
      | inr q ↦ rw (get-put j id item m.red_pebbles, q, others j, q) refl
    ]
