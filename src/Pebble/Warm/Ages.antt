-- ===== src/Pebble/Warm/Ages.antt =====
-- pebble/src/manager/warm/cache.rs: the stamps are the order of the insertions, until the counter
-- goes round.
use abmac_lib.Prelude.{
  ℕ, ◌+◌, ◌≤◌, ◌<◌, ◌≡◌, refl, sym, ap, ◌∙◌, ◌⊎◌, inl, inr, true, false, none, some, length,
  if◌then◌else◌, wrapping_add, word, arith, Bool-cases, none≢some, some-inj, dec_lt, [],
}
use native.Mathlib.Nat.{mod-eq_of_lt}
use abmac_lib.Hash.{Key}
use abmac_lib.Hash.Sets.{same-cases, same_self, true≢false}
use abmac_lib.Hash.Maps.{get, contains_key}
use abmac_lib.Pebble.Warm.{WarmCache, insert}
use abmac_lib.Pebble.Warm.Overflow.{IsOldest, IsSound, Stamped, Kept, Spilled, insert_lem}

module _ {ℓ κ} {K : Type ℓ} {T : Type κ} ⦃key : Key K⦄ where
  -- No stamp is past the counter, and no two entries have the same.
  pub record IsClocked (w : WarmCache K T) : Type (ℓ ⊔ κ) where
    pub behind : (j : K) (v : T × ℕ) → get j w.entries ≡ some v → v.1 ≤ w.counter
    pub distinct :
        (i j : K) (u v : T × ℕ)
        → get i w.entries ≡ some u
        → get j w.entries ≡ some v
        → u.1 ≡ v.1
        → key.same i j ≡ true

  -- The entries of `w'` are the new one and some of `w`.
  module _ (id : K) (item : T) (w w' : WarmCache K T) (clocked : IsClocked w)
      (spare : w.counter + 1 < word) (ticks : w'.counter ≡ wrapping_add w.counter 1)
      (new : get id w'.entries ≡ some (Stamped item w))
      (old : (j : K) (v : T × ℕ)
        → key.same j id ≡ false
        → get j w'.entries ≡ some v
        → get j w.entries ≡ some v) where
    later : w'.counter ≡ w.counter + 1
    later = ticks ∙ mod-eq_of_lt spare

    -- Whether an entry is the new one.
    entry-cases :
        (j : K) (v : T × ℕ)
        → get j w'.entries ≡ some v
        → ((key.same j id ≡ true) × (v.1 ≡ w.counter + 1))
          ⊎ ((get j w.entries ≡ some v) × (v.1 ≤ w.counter))
    entry-cases j v there = elim (same-cases j id) [
      | inr q ↦ inr (old j v q there, clocked.behind j v (old j v q there))
      | inl (p, q) ↦ inl (
        q,
        ap (λ x. x.1) (some-inj (sym there ∙ ap (λ k. get k w'.entries) p ∙ new))
            ∙ mod-eq_of_lt spare,
      )
    ]

    ticked-IsClocked : IsClocked w'
    ticked-IsClocked = record {
      behind = λ j v there. elim (entry-cases j v there) [
        | inl (_, stamp_now) ↦ omega (arith, later, stamp_now)
        | inr (_, before) ↦ omega (arith, later, before)
      ];
      distinct = λ i j u v here there same_stamp. elim (entry-cases i u here) [
        | inl (q, now) ↦ elim (entry-cases j v there) [
          | inl (q', _) ↦ both i j q q'
          | inr (_, before) ↦ absurd (omega (arith, now, before, same_stamp))
        ]
        | inr (was, before) ↦ elim (entry-cases j v there) [
          | inl (_, now) ↦ absurd (omega (arith, now, before, same_stamp))
          | inr (was', _) ↦ clocked.distinct i j u v was was' same_stamp
        ]
      ];
    }
      where
        both : (i j : K) → key.same i id ≡ true → key.same j id ≡ true → key.same i j ≡ true
        both i j q q' = elim (same-cases i id) [
          | inr r ↦ absurd (true≢false (sym q ∙ r))
          | inl (p, _) ↦ elim (same-cases j id) [
            | inr r ↦ absurd (true≢false (sym q' ∙ r))
            | inl (p', _) ↦ rw (p, p') (same_self id)
          ]
        ]

  -- Every other entry was put in after `out`.
  abbrev pub IsFirst : K × T → WarmCache K T → Type (ℓ ⊔ κ)
  IsFirst out w =
      (t : ℕ) × (get out.0 w.entries ≡ some (out.1, t))
      × ((j : K) (v : T × ℕ) → key.same out.0 j ≡ false → get j w.entries ≡ some v → t < v.1)

  oldest-IsFirst :
      (o : K) (y : T) (t : ℕ) (w : WarmCache K T)
      → IsClocked w
      → IsOldest (o, (y, t)) w.entries
      → IsFirst (o, y) w
  oldest-IsFirst o y t w clocked oldest = (
    t,
    oldest.there,
    λ j v apart there. elim (dec_lt t v.1) [
      | yes less ↦ less
      | no not_less ↦ absurd (
          true≢false (
            sym (
              clocked.distinct o j (y, t) v oldest.there there
                (omega (arith, oldest.first j v there)))
            ∙ apart))
    ],
  )

  -- An insertion into a sound warm cache of positive capacity, in which no two items have the same
  -- stamp and none is past the counter, and whose counter has a number to spare, keeps all that
  -- and the capacity; the new item gets the next number, which the counter then is, and the others
  -- that stay keep their stamps. Nothing overflows if the identifier was there or there was room;
  -- else the one item overflows whose stamp is before that of every other.
  pub insert-IsClocked :
      (id : K) (item : T) (w : WarmCache K T)
      → IsSound w
      → 0 < w.capacity
      → IsClocked w
      → w.counter + 1 < word
      → (w' : WarmCache K T) × IsSound w'
        × IsClocked w'
        × (w'.capacity ≡ w.capacity)
        × (w'.counter ≡ w.counter + 1)
        × ((((contains_key id w.entries ≡ true) ⊎ (length w.entries < w.capacity))
              × (insert id item w ≡ (none, w'))
              × Kept id item w w')
            ⊎ ((contains_key id w.entries ≡ false)
                × (length w.entries ≡ w.capacity)
                × (out : K × T) × (insert id item w ≡ (some out, w'))
                × IsFirst out w
                × Spilled id item out w w'))
  insert-IsClocked id item w sound pos clocked spare =
      let (w', sound', same_capacity, outcome) = insert_lem id item w sound pos in
      elim outcome [
        | inl (why, runs, (ticks, all)) ↦ (
          w',
          sound',
          ticked-IsClocked id item w w' clocked spare ticks (all id ∙ rw (same_self id) refl)
              (λ j v q there. sym (rw q at (all j)) ∙ there),
          same_capacity,
          ticks ∙ mod-eq_of_lt spare,
          inl (why, runs, (ticks, all)),
        )
        | inr (absent, full, (o, y), runs, (t, oldest, ticks, all)) ↦ (
          w',
          sound',
          ticked-IsClocked id item w w' clocked spare ticks (all id ∙ rw (same_self id) refl)
              (λ j v q there. still o j v q (sym (rw q at (all j)) ∙ there)),
          same_capacity,
          ticks ∙ mod-eq_of_lt spare,
          inr (
            absent,
            full,
            (o, y),
            runs,
            oldest-IsFirst o y t w clocked oldest,
            (t, oldest, ticks, all),
          ),
        )
      ]
    where
      still :
          (o j : K) (v : T × ℕ)
          → key.same j id ≡ false
          → (if key.same j o then none else get j w.entries) ≡ some v
          → get j w.entries ≡ some v
      still o j v q h = elim (Bool-cases (key.same j o)) [
        | inl r ↦ absurd (none≢some (rw r at h))
        | inr r ↦ rw r at h
      ]

  -- A new cache has no stamps.
  pub empty-IsClocked :
      (capacity counter : ℕ)
      → IsClocked (record { entries = []; capacity = capacity; counter = counter })
  unfolding get
  empty-IsClocked capacity counter = record {
    behind = λ j v there. absurd (none≢some there);
    distinct = λ i j u v here there e. absurd (none≢some here);
  }
