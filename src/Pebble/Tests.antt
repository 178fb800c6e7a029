-- ===== src/Pebble/Tests.antt =====
-- Runs of pebble/src/manager/manifest.rs and warm/cache.rs.
use abmac_lib.Prelude.{
  ℕ, ◌≤◌, ◌<◌, ◌≡◌, ◌⊎◌, refl, sym, ap, inl, inr, some-inj, none≢some, true, false, List, [], ◌∷◌,
  none, some, length, arith, ok, err,
}
use abmac_lib.Spout.{Spout}
use abmac_lib.Spout.Sinks.{collect_spout}
use abmac_lib.Ring.Holds.{IsCapacity}
use abmac_lib.Ring.Queue.Overflow.{sent}
use abmac_lib.Hash.{nat_key}
use abmac_lib.Hash.Sets.{same-cases}
use abmac_lib.Hash.Maps.{get, contains_key, delete, put}
use abmac_lib.Pebble.Manifest.{
  too_many_dependencies, ManifestEntry, Manifest, eviction, removal, new_manifest, record_eviction,
  record_tombstone, flush_manifest,
}
use abmac_lib.Pebble.Manifest.Log.{
  IsLog, record_eviction_lem, record_tombstone_lem, flush_manifest_lem, new_manifest-IsLog,
}
use abmac_lib.Pebble.Warm.{WarmCache, oldest, evict_oldest, insert}
use abmac_lib.Pebble.Warm.Overflow.{IsSound, Kept, Spilled}
use abmac_lib.Pebble.Warm.Ages.{IsClocked, IsFirst, insert-IsClocked}
use abmac_lib.Pebble.Branch.{
  BranchInfo, BranchTracker, new_tracker, has_name, create_branch, lineage,
}
use abmac_lib.Pebble.Branch.Lineage.{IsTree, Descends, lineage_lem, new_tracker-IsTree}
use abmac_lib.Pebble.Branch.Create.{HasUniqueNames, create_branch_lem, new_tracker-HasUniqueNames}

abbrev sink : Spout (ManifestEntry ℕ) ⊥ (List (ManifestEntry ℕ))
sink = collect_spout

IsCapacity-four : IsCapacity 4
IsCapacity-four = record { log = 2; power = refl; small = omega arith }

abbrev fresh : Manifest ℕ (List (ManifestEntry ℕ))
fresh = new_manifest sink 0 8 4 []

fresh-IsLog : IsLog sink 0 8 4 IsCapacity-four [] fresh []
fresh-IsLog = new_manifest-IsLog sink 0 8 4 IsCapacity-four []

abbrev entry : ManifestEntry ℕ
entry = eviction 0 8 5 (3 ∷ 4 ∷ []) 1

record_eviction_lem_example :
    ((2 ≤ 8)
      × (m' : Manifest ℕ (List (ManifestEntry ℕ))) × (record_eviction sink 0 8 4 5
            (3 ∷ 4 ∷ [])
            fresh
          ≡ some (ok tt, m'))
      × IsLog sink 0 8 4 IsCapacity-four [] m' (eviction 0 8 5 (3 ∷ 4 ∷ []) 0 ∷ []))
    ⊎ ((8 < 2)
        × (record_eviction sink 0 8 4 5 (3 ∷ 4 ∷ []) fresh
            ≡ some (err (too_many_dependencies 8 2), fresh)))
record_eviction_lem_example =
    record_eviction_lem sink 0 8 4 IsCapacity-four [] fresh [] 5 (3 ∷ 4 ∷ []) fresh-IsLog
      (omega arith)

record_tombstone_lem_example :
    (m' : Manifest ℕ (List (ManifestEntry ℕ))) × (record_tombstone sink 0 8 4 5 fresh ≡ some m')
    × IsLog sink 0 8 4 IsCapacity-four [] m' (removal 0 8 5 0 ∷ [])
record_tombstone_lem_example =
    record_tombstone_lem sink 0 8 4 IsCapacity-four [] fresh [] 5 fresh-IsLog (omega arith)

-- A manifest after one removal.
abbrev Logged : Type 0
Logged =
    (m' : Manifest ℕ (List (ManifestEntry ℕ))) × (record_tombstone sink 0 8 4 5 fresh ≡ some m')
    × IsLog sink 0 8 4 IsCapacity-four [] m' (removal 0 8 5 0 ∷ [])

logged : Logged
logged = record_tombstone_lem sink 0 8 4 IsCapacity-four [] fresh [] 5 fresh-IsLog (omega arith)

flush_manifest_lem_example :
    (m' : Manifest ℕ (List (ManifestEntry ℕ))) × (flush_manifest sink 0 8 4 logged.0 ≡ some m')
    × IsLog sink 0 8 4 IsCapacity-four [] m' (removal 0 8 5 0 ∷ [])
    × (m'.ring.spout ≡ sent sink (removal 0 8 5 0 ∷ []) [])
flush_manifest_lem_example =
    flush_manifest_lem sink 0 8 4 IsCapacity-four [] logged.0 (removal 0 8 5 0 ∷ []) logged.2

-- A full cache whose second entry is the older one.
abbrev cache : WarmCache ℕ ℕ
cache = record { entries = (1, (10, 6)) ∷ (2, (20, 5)) ∷ []; capacity = 2; counter = 6 }

cache-IsSound : IsSound cache
unfolding contains_key nat_key
cache-IsSound = record { fits = omega arith; unique = (refl, (refl, tt)) }

-- Which entry is found.
cache-cases :
    (j : ℕ) (v : ℕ × ℕ)
    → get j cache.entries ≡ some v
    → ((j ≡ 1) × (v.1 ≡ 6)) ⊎ ((j ≡ 2) × (v.1 ≡ 5))
unfolding get
cache-cases j v there = elim (same-cases j 1) [
  | inl (p, q) ↦ inl (p, sym (ap (λ x. x.1) (some-inj (rw q at there))))
  | inr q ↦ elim (same-cases j 2) [
    | inl (p, r) ↦ inr (p, sym (ap (λ x. x.1) (some-inj (rw (q, r) at there))))
    | inr r ↦ absurd (none≢some (rw (q, r) at there))
  ]
]

cache-IsClocked : IsClocked cache
unfolding nat_key
cache-IsClocked = record {
  behind = λ j v there. elim (cache-cases j v there) [
    | inl (_, q) ↦ omega (arith, q)
    | inr (_, q) ↦ omega (arith, q)
  ];
  distinct = λ i j u v here there e. elim (cache-cases i u here) [
    | inl (p, q) ↦ elim (cache-cases j v there) [
      | inl (p', _) ↦ rw (p, p') refl
      | inr (_, q') ↦ absurd (omega (arith, q, q', e))
    ]
    | inr (p, q) ↦ elim (cache-cases j v there) [
      | inl (_, q') ↦ absurd (omega (arith, q, q', e))
      | inr (p', _) ↦ rw (p, p') refl
    ]
  ];
}

insert-IsClocked_example :
    (w' : WarmCache ℕ ℕ) × IsSound w'
    × IsClocked w'
    × (w'.capacity ≡ 2)
    × (w'.counter ≡ 7)
    × ((((contains_key 3 cache.entries ≡ true) ⊎ (2 < 2))
          × (insert 3 30 cache ≡ (none, w'))
          × Kept 3 30 cache w')
        ⊎ ((contains_key 3 cache.entries ≡ false)
            × (length cache.entries ≡ cache.capacity)
            × (out : ℕ × ℕ) × (insert 3 30 cache ≡ (some out, w'))
            × IsFirst out cache
            × Spilled 3 30 out cache w'))
insert-IsClocked_example =
    insert-IsClocked 3 30 cache cache-IsSound (omega arith) cache-IsClocked (omega arith)

-- The older one overflows.
insert-cache : (insert 3 30 cache).0 ≡ some (2, 20)
unfolding insert evict_oldest oldest contains_key get delete put nat_key
insert-cache = refl

-- Names are numbers here.
abbrev tracker : BranchTracker ℕ ℕ
tracker = new_tracker 100

abbrev Forked : Type 0
Forked =
    (t' : BranchTracker ℕ ℕ) × (create_branch 200 7 0 tracker ≡ (ok 1, t'))
    × IsTree t'
    × HasUniqueNames t'
    × ((b : BranchInfo ℕ ℕ) × (get 1 t'.branches ≡ some b)
        × (b.name ≡ 200)
        × (b.parent ≡ some 0)
        × (b.fork_point ≡ some 7))
    × ((i : ℕ) → i < 1 → get i t'.branches ≡ get i tracker.branches)

forked : Forked
unfolding new_tracker contains_key has_name put delete nat_key
forked =
    create_branch_lem 200 7 0 tracker (new_tracker-IsTree 100) (new_tracker-HasUniqueNames 100)
      (omega arith) refl refl

create_branch_lem_example : Forked
unfolding new_tracker contains_key has_name put delete nat_key
create_branch_lem_example =
    create_branch_lem 200 7 0 tracker (new_tracker-IsTree 100) (new_tracker-HasUniqueNames 100)
      (omega arith) refl refl

lineage_lem_example :
    (chain : List ℕ) × (lineage 1 forked.0 ≡ some (some (1 ∷ chain)))
    × Descends forked.0.branches 1 (1 ∷ chain)
lineage_lem_example = lineage_lem forked.0 1 forked.4.0 forked.2 forked.4.1
