-- ===== src/Pebble/Warm/Overflow.antt =====
-- pebble/src/manager/warm/cache.rs: `insert`, entry by entry.
use abmac_lib.Prelude.{
  ℕ, ◌≤◌, ◌<◌, ◌≡◌, refl, sym, ap, ◌∙◌, ◌⊎◌, inl, inr, true, false, List, [], ◌∷◌, none, some,
  length, leb, if◌then◌else◌, wrapping_add, arith, Bool-cases, none≢some, leb→le, leb→lt,
}
use abmac_lib.Hash.{Key}
use abmac_lib.Hash.Sets.{same-cases, same_self, true≢false}
use abmac_lib.Hash.Maps.{
  get, contains_key, delete, get-put, get-delete, IsUnique, delete-IsUnique, put-IsUnique,
  length-put_le, get-cons_self, get-cons_ne, get-cons-cases, get-contains_key, length-put_present,
  length-delete_lt,
}
use abmac_lib.Pebble.Warm.{WarmCache, older, oldest, evict_found, evict_oldest, stamp, insert}

module _ {ℓ κ} {K : Type ℓ} {T : Type κ} ⦃key : Key K⦄ where
  -- `e` is the entry of its key, and no entry is older.
  pub record IsOldest (e : K × (T × ℕ)) (es : List (K × (T × ℕ))) : Type (ℓ ⊔ κ) where
    pub there : get e.0 es ≡ some e.1
    pub first : (j : K) (v : T × ℕ) → get j es ≡ some v → e.1.1 ≤ v.1

  oldest-IsOldest :
      (e : K × (T × ℕ)) (es : List (K × (T × ℕ)))
      → IsUnique (e ∷ es)
      → IsOldest (older e (oldest es)) (e ∷ es)
  unfolding oldest get
  oldest-IsOldest e [] h = record {
    there = rw (same_self e.0) refl;
    first = λ j v found. elim (get-cons-cases j e [] v found) [
      | inl p ↦ rw (← p) (omega arith)
      | inr (_, p) ↦ absurd (none≢some p)
    ];
  }
  oldest-IsOldest e (f ∷ es) h = choose (older f (oldest es)) (oldest-IsOldest f es h.1)
    where
      apart : (o : K × (T × ℕ)) → get o.0 (f ∷ es) ≡ some o.1 → key.same o.0 e.0 ≡ false
      apart o found = elim (same-cases o.0 e.0) [
        | inr different ↦ different
        | inl (p, _) ↦ absurd (
            true≢false (
              sym (get-contains_key o.0 (f ∷ es) o.1 found)
              ∙ ap (λ k. contains_key k (f ∷ es)) p
              ∙ h.0))
      ]

      choose : (o : K × (T × ℕ)) → IsOldest o (f ∷ es) → IsOldest (older e (some o)) (e ∷ f ∷ es)
      choose o s = elim (Bool-cases (leb e.1.1 o.1.1)) [
        | inl le ↦ rw le (record {
          there = get-cons_self e (f ∷ es);
          first = λ j v found. elim (get-cons-cases j e (f ∷ es) v found) [
            | inl p ↦ rw (← p) (omega arith)
            | inr (_, p) ↦ omega (arith, leb→le e.1.1 o.1.1 le, s.first j v p)
          ];
        })
        | inr gt ↦ rw gt (record {
          there = get-cons_ne o.0 e (f ∷ es) (apart o s.there) ∙ s.there;
          first = λ j v found. elim (get-cons-cases j e (f ∷ es) v found) [
            | inl p ↦ rw (← p) (omega (arith, leb→lt e.1.1 o.1.1 gt))
            | inr (_, p) ↦ s.first j v p
          ];
        })
      ]

  oldest-some :
      (es : List (K × (T × ℕ)))
      → 0 < length es
      → IsUnique es
      → (o : K × (T × ℕ)) × (oldest es ≡ some o) × IsOldest o es
  unfolding oldest
  oldest-some [] pos h = absurd (omega arith)
  oldest-some (e ∷ es) pos h = (older e (oldest es), refl, oldest-IsOldest e es h)

  evict_oldest-some :
      (w : WarmCache K T)
      → 0 < length w.entries
      → IsUnique w.entries
      → (out : K × T) × (t : ℕ) × (evict_oldest w
          ≡ (some out, record w { entries = delete out.0 w.entries }))
        × IsOldest (out.0, (out.1, t)) w.entries
  unfolding evict_oldest
  evict_oldest-some w pos h =
      let (o, found, s) = oldest-some w.entries pos h in
      ((o.0, o.1.0), o.1.1, ap (evict_found w) found ∙ rw (s.there) refl, s)

  -- The cache is within its capacity, and no identifier has two entries.
  pub record IsSound (w : WarmCache K T) : Type 0 where
    pub fits : length w.entries ≤ w.capacity
    pub unique : IsUnique w.entries

  -- The counter moves on, and its new value is the item's stamp.
  abbrev pub Stamped : T → WarmCache K T → T × ℕ
  Stamped item w = (item, wrapping_add w.counter 1)

  -- Nothing overflows: the other entries stay, with their stamps.
  abbrev pub Kept : K → T → WarmCache K T → WarmCache K T → Type (ℓ ⊔ κ)
  Kept id item w w' =
      (w'.counter ≡ wrapping_add w.counter 1)
      × ((j : K)
          → get j w'.entries ≡ (if key.same j id then some (Stamped item w) else get j w.entries))

  -- One item, that with the smallest stamp, overflows: the other entries stay, with their stamps.
  abbrev pub Spilled : K → T → K × T → WarmCache K T → WarmCache K T → Type (ℓ ⊔ κ)
  Spilled id item out w w' =
      (t : ℕ) × IsOldest (out.0, (out.1, t)) w.entries
      × (w'.counter ≡ wrapping_add w.counter 1)
      × ((j : K)
          → get j w'.entries ≡ (
              if key.same j id
              then some (Stamped item w)
              else if key.same j out.0
              then none
              else get j w.entries))

  -- `insert`
  pub insert_lem :
      (id : K) (item : T) (w : WarmCache K T)
      → IsSound w
      → 0 < w.capacity
      → (w' : WarmCache K T) × IsSound w'
        × (w'.capacity ≡ w.capacity)
        × ((((contains_key id w.entries ≡ true) ⊎ (length w.entries < w.capacity))
              × (insert id item w ≡ (none, w'))
              × Kept id item w w')
            ⊎ ((contains_key id w.entries ≡ false)
                × (length w.entries ≡ w.capacity)
                × (out : K × T) × (insert id item w ≡ (some out, w'))
                × Spilled id item out w w'))
  unfolding insert
  insert_lem id item w h pos = elim (Bool-cases (contains_key id w.entries)) [
    | inl present ↦ (
      stamp id item w,
      record {
        fits = omega (
          arith,
          h.fits,
          length-put_present id (item, wrapping_add w.counter 1) w.entries present,
        );
        unique = put-IsUnique id _ w.entries h.unique;
      },
      refl,
      inl (inl present, rw present refl, (refl, λ j. get-put j id (Stamped item w) w.entries)),
    )
    | inr absent ↦ elim (Bool-cases (leb w.capacity (length w.entries))) [
      | inr room ↦ (
        stamp id item w,
        record {
          fits =
              omega (
                arith,
                leb→lt _ _ room,
                length-put_le id (item, wrapping_add w.counter 1) w.entries,
              );
          unique = put-IsUnique id _ w.entries h.unique;
        },
        refl,
        inl (
          inr (leb→lt _ _ room),
          rw (absent, room) refl,
          (refl, λ j. get-put j id (Stamped item w) w.entries),
        ),
      )
      | inl full ↦
          let (out, t, runs, s) = evict_oldest-some w (omega (arith, leb→le _ _ full)) h.unique in
          let rest = record w { entries = delete out.0 w.entries } in
          (
            stamp id item rest,
            record {
              fits = omega (
                arith,
                h.fits,
                length-put_le id (item, wrapping_add w.counter 1) rest.entries,
                length-delete_lt out.0 w.entries (get-contains_key out.0 w.entries _ s.there),
              );
              unique = put-IsUnique id _ rest.entries (delete-IsUnique out.0 w.entries h.unique);
            },
            refl,
            inr (
              absent,
              omega (arith, h.fits, leb→le _ _ full),
              out,
              rw (absent, full, runs) refl,
              (
                t,
                s,
                refl,
                λ j.
                    get-put j id (Stamped item w) rest.entries
                    ∙ ap (λ u. if key.same j id then some (Stamped item w) else u)
                        (get-delete j out.0 w.entries),
              ),
            ),
          )
    ]
  ]
