-- ===== src/Pebble/Manager/Eviction/Several.antt =====
-- pebble/src/manager/eviction.rs: `evict_red_pebbles` over a warm tier that can take an
-- insertion back: it makes room, and keeps every checkpoint.
use abmac_lib.Prelude.{
  ℕ, ◌+◌, ◌≤◌, ◌<◌, ◌≡◌, refl, ◌∙◌, inl, inr, List, [], ◌∷◌, Option, some, length, Result, ok, err,
  arith, Bool-cases, Option-cases, ◌==◌, ◌&&◌, ltb, leb, leb→lt, dec_lt,
}
use abmac_lib.Hash.{Key}
use abmac_lib.Hash.Maps.{
  get, delete, IsUnique, put-IsUnique, delete-IsUnique, length-delete_lt, length-put_le,
  get-contains_key,
}
use abmac_lib.Pebble.Strategy.{select_eviction_candidates}
use abmac_lib.Pebble.Tiers.{IsBuffer}
use abmac_lib.Pebble.Manager.{
  PebbleManager, PebbleManagerError, internal_inconsistency, Parts, go_on, return,
}
use abmac_lib.Pebble.Manager.Eviction.{
  eviction_count, evict_single, evict_each, check_evicted, evict_red_pebbles, ensure_room,
}
use abmac_lib.Pebble.Manager.Eviction.Found.{IsLawful, IsSound, Keeps}
use abmac_lib.Pebble.Manager.Eviction.Single.{Evicted, evict_single_lem}
use abmac_lib.Pebble.Manager.Eviction.Cooling.{
  Same, Same-refl, Same-trans, cooled, cooled-IsAbsent, cooled-IsSafe, cooled-IsSound, cooled-found,
  cooled_missing,
}

module _ {ℓ} {K T N W C S E : Type ℓ} ⦃key : Key K⦄ (parts : Parts K T W C S E) (Valid : W → Type 0)
    (stored : K → C → Option T) where
  module _ (lawful : IsLawful parts Valid stored) (buffer : IsBuffer parts.warm Valid) where
    -- The evictions so far, and the checkpoints that left fast memory for them.
    abbrev Counted :
        ℕ
        → PebbleManager K T N W C S
        → Result (PebbleManagerError K E) ℕ × PebbleManager K T N W C S
        → Type ℓ
    Counted count m (ok evicted, m') =
        Same parts Valid stored m m'
        × (count ≤ evicted)
        × (length m'.red_pebbles + evicted ≤ length m.red_pebbles + count)
    Counted count m (err _, m') = Same parts Valid stored m m'

    abbrev Left :
        PebbleManager K T N W C S
        → Result (PebbleManagerError K E) (Unit {0}) × PebbleManager K T N W C S
        → Type ℓ
    Left m (ok _, m') =
        Same parts Valid stored m m' × (length m'.red_pebbles < length m.red_pebbles)
    Left m (err _, m') = Same parts Valid stored m m'

    module _ (id : K) (x : T) (m : PebbleManager K T N W C S) (sound : IsSound parts Valid stored m)
        (there : get id m.red_pebbles ≡ some x) (unique : IsUnique m.red_pebbles) where
      Keeps-Same :
          (m' : PebbleManager K T N W C S)
          → Keeps parts Valid stored id x (cooled parts Valid stored id x m sound there) m'
          → IsUnique m'.red_pebbles
          → length m'.red_pebbles ≤ length m.red_pebbles
          → Same parts Valid stored m m'
      Keeps-Same m' k unique' fewer = record {
        sound = k.sound;
        unique = unique';
        all = λ j. k.all j ∙ cooled-found parts Valid stored id x m sound there j;
        storage = k.storage;
        aside = λ j z missing safe.
            let (other, missing') =
              cooled_missing parts Valid stored id x m sound there j missing in
            k.aside j z other missing' safe;
        graph = k.graph;
        capacity = k.capacity;
        strategy = k.strategy;
        fewer = fewer;
      }

      shorter : length (delete id m.red_pebbles) < length m.red_pebbles
      shorter = length-delete_lt id m.red_pebbles (get-contains_key id m.red_pebbles x there)

      after_single :
          (r : Result (PebbleManagerError K E) (Unit {0}) × PebbleManager K T N W C S)
          → Evicted parts Valid stored lawful buffer id x
              (cooled parts Valid stored id x m sound there)
              r
          → Left m r
      after_single (ok _, m') (k, e) = (
        Keeps-Same m' k (rw e (delete-IsUnique id m.red_pebbles unique))
            (rw e (omega (arith, shorter))),
        rw e shorter,
      )
      after_single (err x', m') (k, e) =
          Keeps-Same m' k (rw e (put-IsUnique id x _ (delete-IsUnique id m.red_pebbles unique)))
            (rw e (omega (arith, shorter, length-put_le id x (delete id m.red_pebbles))))

      single :
          (r : Result (PebbleManagerError K E) (Unit {0}) × PebbleManager K T N W C S)
          × (evict_single parts id x (cooled parts Valid stored id x m sound there) ≡ some r)
          × Left m r
      single =
          let (r, runs, h) =
            evict_single_lem parts Valid stored lawful buffer id x
              (cooled parts Valid stored id x m sound there)
              (cooled-IsSound parts Valid stored id x m sound there)
              (cooled-IsAbsent parts Valid stored id x m sound there)
              (cooled-IsSafe parts Valid stored id x m sound there) in
          (r, runs, after_single r h)

    evict_each_lem :
        (ids : List K) (count : ℕ) (m : PebbleManager K T N W C S)
        → IsSound parts Valid stored m
        → IsUnique m.red_pebbles
        → (r : Result (PebbleManagerError K E) ℕ × PebbleManager K T N W C S) × (evict_each parts
              ids count m
            ≡ some r)
          × Counted count m r
    unfolding evict_each
    evict_each_lem [] count m sound unique =
        (_, refl, (Same-refl parts Valid stored m sound unique, omega arith, omega arith))
    evict_each_lem (id ∷ ids) count m sound unique = elim (Option-cases (get id m.red_pebbles)) [
      | inl cool ↦ rw cool (evict_each_lem ids count m sound unique)
      | inr (x, there) ↦
          let (r, runs, h) = single id x m sound there unique in
          rw (there, runs)
            (go r h (λ m' sound' unique'. evict_each_lem ids (count + 1) m' sound' unique'))
    ]
      where
        go :
            (r : Result (PebbleManagerError K E) (Unit {0}) × PebbleManager K T N W C S)
            → Left m r
            → ((m' : PebbleManager K T N W C S)
                → IsSound parts Valid stored m'
                → IsUnique m'.red_pebbles
                → (out : Result (PebbleManagerError K E) ℕ × PebbleManager K T N W C S)
                  × (evict_each parts ids (count + 1) m' ≡ some out)
                  × Counted (count + 1) m' out)
            → (out : Result (PebbleManagerError K E) ℕ × PebbleManager K T N W C S) × (go_on
                  (λ _. evict_each parts ids (count + 1))
                  (some r)
                ≡ some out)
              × Counted count m out
        go (err e, m') h rest = ((err e, m'), refl, h)
        go (ok _, m') (h, left) rest =
            let (out, runs, h') = rest m' h.sound h.unique in (out, runs, further out h')
          where
            further :
                (out : Result (PebbleManagerError K E) ℕ × PebbleManager K T N W C S)
                → Counted (count + 1) m' out
                → Counted count m out
            further (err e, m'') s = Same-trans parts Valid stored m m' m'' h s
            further (ok n, m'') (s, more, balance) =
                (Same-trans parts Valid stored m m' m'' h s, omega arith, omega arith)

    -- An eviction of several either fails or makes at least one slot free, if any was taken.
    abbrev pub Freed :
        PebbleManager K T N W C S
        → Result (PebbleManagerError K E) ℕ × PebbleManager K T N W C S
        → Type ℓ
    Freed m (ok evicted, m') =
        Same parts Valid stored m m'
        × (length m'.red_pebbles + evicted ≤ length m.red_pebbles)
        × (1 ≤ length m'.red_pebbles → 1 ≤ evicted)
    Freed m (err _, m') = Same parts Valid stored m m'

    checked :
        (m m' : PebbleManager K T N W C S) (evicted : ℕ)
        → Counted 0 m (ok evicted, m')
        → (r : Result (PebbleManagerError K E) ℕ × PebbleManager K T N W C S) × (check_evicted parts
              evicted m'
            ≡ some r)
          × Freed m r
    checked m m' evicted (same, _, balance) =
        elim (Bool-cases (evicted == 0 && ltb 0 (length m'.red_pebbles))) [
          | inl stuck ↦ ((err internal_inconsistency, m'), rw stuck refl, same)
          | inr fine ↦
              ((ok evicted, m'), rw fine refl, (same, omega arith, λ left. ground (arith, fine)))
        ]

    -- Over tiers that keep what they are given, of which the warm one can take an insertion back
    -- (`IsBuffer`, as `WarmCache` can and `NoWarm` cannot), an eviction from fast memory of a
    -- sound manager ends and loses no checkpoint, be it that cold storage fails or not, and the
    -- manager stays sound; if it succeeds and leaves checkpoints in fast memory, it has evicted at
    -- least one.
    pub evict_red_pebbles_lem :
        (m : PebbleManager K T N W C S)
        → IsSound parts Valid stored m
        → IsUnique m.red_pebbles
        → (r : Result (PebbleManagerError K E) ℕ × PebbleManager K T N W C S) × (evict_red_pebbles
              parts m
            ≡ some r)
          × Freed m r
    unfolding evict_red_pebbles
    evict_red_pebbles_lem m sound unique =
        let candidates =
          select_eviction_candidates m.strategy m.red_pebbles m.dag
            (eviction_count m.hot_capacity) in
        let (r, runs, h) = evict_each_lem candidates 0 m sound unique in rw runs (go r h)
      where
        go :
            (r : Result (PebbleManagerError K E) ℕ × PebbleManager K T N W C S)
            → Counted 0 m r
            → (out : Result (PebbleManagerError K E) ℕ × PebbleManager K T N W C S) × (go_on
                  (check_evicted parts)
                  (some r)
                ≡ some out)
              × Freed m out
        go (err e, m') h = ((err e, m'), refl, h)
        go (ok n, m') h = checked m m' n h

    -- Whether there is room for one more checkpoint.
    abbrev pub Roomy :
        PebbleManager K T N W C S
        → Result (PebbleManagerError K E) (Unit {0}) × PebbleManager K T N W C S
        → Type ℓ
    Roomy m (ok _, m') = Same parts Valid stored m m' × (length m'.red_pebbles < m'.hot_capacity)
    Roomy m (err _, m') = Same parts Valid stored m m'

    -- Over tiers that keep what they are given, of which the warm one can take an insertion back
    -- (`IsBuffer`, as `WarmCache` can and `NoWarm` cannot), `ensure_capacity` on a sound manager
    -- whose fast memory is within its capacity ends with room for one more checkpoint in fast
    -- memory, or with an error; no checkpoint is lost either way.
    pub ensure_room_lem :
        (m : PebbleManager K T N W C S)
        → IsSound parts Valid stored m
        → IsUnique m.red_pebbles
        → 1 ≤ m.hot_capacity
        → length m.red_pebbles ≤ m.hot_capacity
        → (r : Result (PebbleManagerError K E) (Unit {0}) × PebbleManager K T N W C S)
          × (ensure_room parts m ≡ some r)
          × Roomy m r
    unfolding ensure_room
    ensure_room_lem m sound unique pos fits =
        elim (Bool-cases (leb m.hot_capacity (length m.red_pebbles))) [
          | inr room ↦ (
            (ok tt, m),
            rw room refl,
            (Same-refl parts Valid stored m sound unique, leb→lt _ _ room),
          )
          | inl full ↦
              let (r, runs, h) = evict_red_pebbles_lem m sound unique in rw (full, runs) (go r h)
        ]
      where
        go :
            (r : Result (PebbleManagerError K E) ℕ × PebbleManager K T N W C S)
            → Freed m r
            → (out : Result (PebbleManagerError K E) (Unit {0}) × PebbleManager K T N W C S)
              × (go_on (λ _. return tt) (some r) ≡ some out)
              × Roomy m out
        go (err e, m') h = ((err e, m'), refl, h)
        go (ok n, m') (same, balance, some_left) = (
          (ok tt, m'),
          refl,
          (
            same,
            elim (dec_lt 0 (length m'.red_pebbles)) [
              | yes left ↦ omega (arith, some_left left, same.capacity)
              | no nothing ↦ omega (arith, same.capacity)
            ],
          ),
        )
