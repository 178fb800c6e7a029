-- ===== src/Pebble/Tiers/Warming.antt =====
-- pebble/src/manager/warm/cache.rs and none.rs: the two implementations of `WarmTier`.
use abmac_lib.Prelude.{
  ℕ, ◌<◌, ◌≡◌, refl, sym, ap, ◌∙◌, subst, inl, inr, Bool, true, false, List, [], ◌∷◌, Option, none,
  some, length, map, if◌then◌else◌, Bool-cases, arith, lt→leb, none≢some, some-inj,
}
use abmac_lib.Hash.{Key}
use abmac_lib.Hash.Sets.{same-cases, same_self, true≢false}
use abmac_lib.Hash.Maps.{
  get, contains_key, map_some, get-delete, get-contains_key, delete-IsUnique, length-delete_le,
  length-delete_lt, contains_key-put_self, get-nil, IsUnique,
}
use abmac_lib.Pebble.Warm.{WarmCache, insert, get_item, remove_entry, contains, drain}
use abmac_lib.Pebble.Warm.Overflow.{IsSound, Kept, Spilled, Stamped, insert_lem}
use abmac_lib.Pebble.Tiers.{WarmTier, IsWarm, IsBuffer, Inserted, added, taken}

module _ {ℓ} {T : Type ℓ} where
  -- An entry without its stamp.
  abbrev item_of : Option (T × ℕ) → Option T
  item_of = map_some (λ v. v.0)

  item_of-if :
      (b : Bool) (v : T × ℕ) (o : Option (T × ℕ))
      → item_of (if b then some v else o) ≡ (if b then some v.0 else item_of o)
  item_of-if true v o = refl
  item_of-if false v o = refl

  item_of-none :
      (b : Bool) (o : Option (T × ℕ))
      → item_of (if b then none else o) ≡ (if b then none else item_of o)
  item_of-none true o = refl
  item_of-none false o = refl

module _ {ℓ} {K T : Type ℓ} ⦃key : Key K⦄ where
  unfoldable pub warm_cache : WarmTier K T (WarmCache K T)
  unfolding insert get_item remove_entry contains drain
  warm_cache = record {
    insert = insert;
    get = get_item;
    remove = remove_entry;
    contains = contains;
    drain = drain;
    len = λ w. length w.entries;
  }

  -- Every insertion overflows at once.
  unfoldable pub no_warm : WarmTier K T (Unit {ℓ})
  no_warm = record {
    insert = λ id item w. (some (id, item), w);
    get = λ id w. none;
    remove = λ id w. (none, w);
    contains = λ id w. false;
    drain = λ w. ([], w);
    len = λ w. 0;
  }

  abbrev pub IsRoomy : WarmCache K T → Type 0
  IsRoomy w = IsSound w × (0 < w.capacity)

  pub no_warm-IsWarm : IsWarm no_warm (λ _. Unit {0})
  unfolding no_warm
  no_warm-IsWarm = record {
    insert_valid = λ id item w v. tt;
    insert_lem = λ id item w v. (rw (same_self id) refl, λ j. ground arith);
    remove_valid = λ id w v. tt;
    remove_found = λ id w v. refl;
    remove_lem = λ id j w v. ground arith;
    drain_valid = λ w v. tt;
    drain_none = λ j w v. refl;
    drain_found = λ j w v. get-nil j;
    drain_unique = λ w v. tt;
  }

  -- The oldest entry is not that of an identifier that is absent.
  oldest_apart :
      (id : K) (e : K × (T × ℕ)) (es : List (K × (T × ℕ)))
      → contains_key id es ≡ false
      → get e.0 es ≡ some e.1
      → key.same e.0 id ≡ false
  oldest_apart id e es absent there = elim (same-cases e.0 id) [
    | inr different ↦ different
    | inl (p, _) ↦ absurd (
        true≢false
          (sym (get-contains_key e.0 es e.1 there) ∙ ap (λ k. contains_key k es) p ∙ absent))
  ]

  -- The two ways to say what is left.
  reorder :
      (id o j : K) (item : T) (old : Option T)
      → key.same o id ≡ false
      → (if key.same j id then some item else if key.same j o then none else old)
        ≡ taken o j (added id item j old)
  reorder id o j item old apart = elim (same-cases j o) [
    | inl (p, q) ↦ rw (q, p, apart) refl
    | inr q ↦ rw q refl
  ]

  Kept-Inserted :
      (id : K) (item : T) (w w' : WarmCache K T)
      → Kept id item w w'
      → Inserted warm_cache id item w (none, w')
  unfolding warm_cache get_item
  Kept-Inserted id item w w' (_, all) j =
      ap item_of (all j) ∙ item_of-if (key.same j id) (Stamped item w) (get j w.entries)

  Spilled-Inserted :
      (id : K) (item : T) (w w' : WarmCache K T) (out : K × T)
      → contains_key id w.entries ≡ false
      → Spilled id item out w w'
      → Inserted warm_cache id item w (some out, w')
  unfolding warm_cache get_item
  Spilled-Inserted id item w w' (o, y) absent (t, oldest, _, all) = (
    rw (apart, oldest.there) refl,
    λ j.
        ap item_of (all j)
        ∙ item_of-if (key.same j id) (Stamped item w)
            (if key.same j o then none else get j w.entries)
        ∙ ap (λ u. if key.same j id then some item else u)
            (item_of-none (key.same j o) (get j w.entries))
        ∙ reorder id o j item (get_item j w) apart,
  )
    where
      apart : key.same o id ≡ false
      apart = oldest_apart id (o, (y, t)) w.entries absent oldest.there

  warm_cache-Inserted :
      (id : K) (item : T) (w : WarmCache K T)
      → IsRoomy w
      → IsRoomy (insert id item w).1 × Inserted warm_cache id item w (insert id item w)
  unfolding warm_cache
  warm_cache-Inserted id item w (sound, pos) =
      let (w', sound', same_capacity, outcome) = insert_lem id item w sound pos in
      elim outcome [
        | inl (_, runs, kept) ↦
            rw runs ((sound', rw same_capacity pos), Kept-Inserted id item w w' kept)
        | inr (absent, _, out, runs, spilled) ↦
            rw runs
              ((sound', rw same_capacity pos), Spilled-Inserted id item w w' out absent spilled)
      ]

  remove_entry-IsRoomy : (id : K) (w : WarmCache K T) → IsRoomy w → IsRoomy (remove_entry id w).1
  unfolding remove_entry
  remove_entry-IsRoomy id w (sound, pos) = (
    record {
      fits = omega (arith, sound.fits, length-delete_le id w.entries);
      unique = delete-IsUnique id w.entries sound.unique;
    },
    pos,
  )

  get_item-remove_entry :
      (id j : K) (w : WarmCache K T) → get_item j (remove_entry id w).1 ≡ taken id j (get_item j w)
  unfolding get_item remove_entry
  get_item-remove_entry id j w = elim (Bool-cases (key.same j id)) [
    | inl q ↦ rw (get-delete j id w.entries, q) refl
    | inr q ↦ rw (get-delete j id w.entries, q) refl
  ]

  drain-IsRoomy : (w : WarmCache K T) → IsRoomy w → IsRoomy (drain w).1
  unfolding drain
  drain-IsRoomy w (sound, pos) = (record { fits = omega arith; unique = tt }, pos)

  abbrev items : List (K × (T × ℕ)) → List (K × T)
  items = map (λ e. (e.0, e.1.0))

  get-items : (j : K) (es : List (K × (T × ℕ))) → get j (items es) ≡ map_some (λ e. e.0) (get j es)
  unfolding get
  get-items j [] = refl
  get-items j (e ∷ es) = elim (Bool-cases (key.same j e.0)) [
    | inl q ↦ rw q refl
    | inr q ↦ rw q (get-items j es)
  ]

  contains_key-items :
      (j : K) (es : List (K × (T × ℕ))) → contains_key j (items es) ≡ contains_key j es
  unfolding contains_key
  contains_key-items j [] = refl
  contains_key-items j (e ∷ es) = rw (contains_key-items j es) refl

  items-IsUnique : (es : List (K × (T × ℕ))) → IsUnique es → IsUnique (items es)
  items-IsUnique [] h = tt
  items-IsUnique (e ∷ es) (h, hs) = (contains_key-items e.0 es ∙ h, items-IsUnique es hs)

  pub warm_cache-IsWarm : IsWarm warm_cache IsRoomy
  unfolding warm_cache
  warm_cache-IsWarm = record {
    insert_valid = λ id item w v. (warm_cache-Inserted id item w v).0;
    insert_lem = λ id item w v. (warm_cache-Inserted id item w v).1;
    remove_valid = λ id w v. remove_entry-IsRoomy id w v;
    remove_found = λ id w v. unfold remove_entry get_item in refl;
    remove_lem = λ id j w v. get_item-remove_entry id j w;
    drain_valid = λ w v. drain-IsRoomy w v;
    drain_none = λ j w v. unfold drain get_item in ap (map_some (λ e. e.0)) (get-nil j);
    drain_found = λ j w v. unfold drain get_item in get-items j w.entries;
    drain_unique = λ w v. unfold drain in items-IsUnique w.entries v.0.unique;
  }

  -- No entry overflows while there is room.
  insert-room :
      (id : K) (item : T) (w : WarmCache K T)
      → length w.entries < w.capacity
      → (insert id item w).0 ≡ none
  unfolding insert
  insert-room id item w room = elim (Bool-cases (contains_key id w.entries)) [
    | inl present ↦ rw present refl
    | inr absent ↦ rw (absent, lt→leb w.capacity (length w.entries) room) refl
  ]

  overflow_apart :
      (id o : K) (item y : T) (w w' : WarmCache K T)
      → IsRoomy w
      → insert id item w ≡ (some (o, y), w')
      → key.same o id ≡ false
  overflow_apart id o item y w w' (sound, pos) runs =
      let (w₁, _, _, outcome) = insert_lem id item w sound pos in
      elim outcome [
        | inl (_, runs₁, _) ↦ absurd (none≢some (ap (λ r. r.0) (sym runs₁ ∙ runs)))
        | inr (absent, _, out, runs₁, (t, oldest, _, _)) ↦
            subst (λ p. key.same p.0 id ≡ false) (some-inj (ap (λ r. r.0) (sym runs₁ ∙ runs)))
              (oldest_apart id (out.0, (out.1, t)) w.entries absent oldest.there)
      ]

  insert-there :
      (id : K) (item : T) (w : WarmCache K T) → contains_key id (insert id item w).1.entries ≡ true
  unfolding insert
  insert-there id item w = elim (Bool-cases (contains_key id w.entries)) [
    | inl present ↦ rw present (contains_key-put_self id _ w.entries)
    | inr absent ↦ rw absent (contains_key-put_self id _ _)
  ]

  -- Without the item that was put in there is room for the one that overflowed.
  remove_entry-room :
      (id : K) (w : WarmCache K T)
      → IsRoomy w
      → contains_key id w.entries ≡ true
      → length (remove_entry id w).1.entries < (remove_entry id w).1.capacity
  unfolding remove_entry
  remove_entry-room id w (sound, _) there =
      omega (arith, sound.fits, length-delete_lt id w.entries there)

  -- `WarmCache` can take an insertion back.
  pub warm_cache-IsBuffer : IsBuffer warm_cache IsRoomy
  unfolding warm_cache
  warm_cache-IsBuffer = record {
    other = λ id o item y w w' v absent runs. overflow_apart id o item y w w' v runs;
    restores = λ id o item y w w' v absent runs. insert-room o y (remove_entry id w').1 (
        remove_entry-room id w' (subst (λ r. IsRoomy r.1) runs (warm_cache-Inserted id item w v).0)
          (subst (λ r. contains_key id r.1.entries ≡ true) runs (insert-there id item w)));
  }

  -- `NoWarm` does not: the item itself overflows, and would do so again.
  no_warm-IsBuffer :
      (Valid : Unit {ℓ} → Type 0) (id : K) (item : T) → Valid tt → IsBuffer no_warm Valid → ⊥
  unfolding no_warm
  no_warm-IsBuffer Valid id item valid buffer =
      true≢false (sym (same_self id) ∙ buffer.other id id item item tt tt valid refl refl)
