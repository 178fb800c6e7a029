-- ===== src/Pebble/Manifest/Ready.antt =====
-- pebble/src/manager/manifest.rs: on a ring that holds a queue, every operation of the manifest ends
-- and leaves such a ring.
use abmac_lib.Prelude.{
  ℕ, ◌≤◌, ◌≡◌, refl, arith, false, inl, inr, List, some, length, ltb, ok, err, Result, wrapping_add,
  Bool-cases,
}
use abmac_lib.Spout.{Spout}
use abmac_lib.Ring.Queue.{Queue}
use abmac_lib.Ring.Holds.{IsCapacity, Holds, with_spout_cold-Holds}
use abmac_lib.Ring.Refine.{push_mut_refines}
use abmac_lib.Ring.Flush.{flush_refines}
use abmac_lib.Pebble.Manifest.{
  StorageError, too_many_dependencies, ManifestEntry, Manifest, eviction, removal, new_manifest,
  append_entry, record_eviction, record_tombstone, flush_manifest,
}

module _ {ℓ κ} {K : Type ℓ} {S : Type κ} (sp : Spout {ℓ, 0, κ} (ManifestEntry K) ⊥ S) (default : K)
    (max_deps n : ℕ) where
  abbrev pub IsReady : Manifest K S → Type (ℓ ⊔ κ)
  IsReady m = (p : Queue (ManifestEntry K) S) × Holds n m.ring p

  module _ (c : IsCapacity n) where
    append-IsReady :
        (m : Manifest K S) (entry : ManifestEntry K)
        → IsReady m
        → (m' : Manifest K S) × (append_entry sp default max_deps n entry m ≡ some m') × IsReady m'
    unfolding append_entry
    append-IsReady m entry (p, holds) =
        let (ring', runs, holds') = push_mut_refines sp c m.ring p entry holds in
        (record { ring = ring'; seq = wrapping_add m.seq 1 }, rw runs refl, (_, holds'))

    pub record_tombstone-IsReady :
        (m : Manifest K S) (id : K)
        → IsReady m
        → (m' : Manifest K S) × (record_tombstone sp default max_deps n id m ≡ some m') × IsReady m'
    unfolding record_tombstone
    record_tombstone-IsReady m id h = append-IsReady m (removal default max_deps id m.seq) h

    pub record_eviction-IsReady :
        (m : Manifest K S) (id : K) (deps : List K)
        → IsReady m
        → (r : Result StorageError (Unit {0})) × (m' : Manifest K S) × (record_eviction sp default
              max_deps n id deps m
            ≡ some (r, m'))
          × IsReady m'
    unfolding record_eviction
    record_eviction-IsReady m id deps h = elim (Bool-cases (ltb max_deps (length deps))) [
      | inl many ↦ (err (too_many_dependencies max_deps (length deps)), m, rw many refl, h)
      | inr fit ↦
          let (m', runs, h') = append-IsReady m (eviction default max_deps id deps m.seq) h in
          (ok tt, m', rw (fit, runs) refl, h')
    ]

    pub record_eviction-succeeds :
        (m : Manifest K S) (id : K) (deps : List K)
        → IsReady m
        → length deps ≤ max_deps
        → (m' : Manifest K S) × (record_eviction sp default max_deps n id deps m ≡ some (ok tt, m'))
          × IsReady m'
    unfolding record_eviction
    record_eviction-succeeds m id deps h fit =
        let (m', runs, h') = append-IsReady m (eviction default max_deps id deps m.seq) h in
        (m', rw (not_ltb, runs) refl, h')
      where
        not_ltb : ltb max_deps (length deps) ≡ false
        not_ltb = ground arith

    pub flush_manifest-IsReady :
        (m : Manifest K S)
        → IsReady m
        → (m' : Manifest K S) × (flush_manifest sp default max_deps n m ≡ some m') × IsReady m'
    unfolding flush_manifest
    flush_manifest-IsReady m (p, holds) =
        let (ring', runs, holds') = flush_refines sp c m.ring p holds in
        (record m { ring = ring' }, rw runs refl, (_, holds'))

  pub new_manifest-IsReady : IsCapacity n → (s : S) → IsReady (new_manifest sp default max_deps n s)
  unfolding new_manifest
  new_manifest-IsReady c s = (_, with_spout_cold-Holds c s)
