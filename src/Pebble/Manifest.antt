-- ===== src/Pebble/Manifest.antt =====
-- pebble/src/manager/manifest.rs: `Manifest`, the log of evictions and removals, which is a
-- `SpillRing`. The operations are those of a build without debug assertions.
pub mod Log
pub mod Ready
use abmac_lib.Prelude.{
  ℕ, ◌+◌, ◌-◌, ◌%◌, Bool, true, false, List, [], ◌∷◌, ◌++◌, Option, none, some, length, replicate,
  ltb, if◌then◌else◌, wrapping_add, Result, ok, err,
}
use abmac_lib.Prelude.Results.{◌>>=◌}
use abmac_lib.Spout.{Spout}
use abmac_lib.Ring.{Ring, with_spout_cold, push_mut, flush}

-- `StorageError::TooManyDependencies`, with `max` and `count`.
pub data StorageError : Type 0 where
  too_many_dependencies : ℕ → ℕ → StorageError

pub record ManifestEntry {ℓ} (K : Type ℓ) : Type ℓ where
  pub checkpoint_id : K
  pub dependencies : List K
  pub dep_count : ℕ
  pub seq : ℕ
  pub tombstone : Bool

pub record Manifest {ℓ κ} (K : Type ℓ) (S : Type κ) : Type (ℓ ⊔ κ) where
  pub ring : Ring (ManifestEntry K) S
  pub seq : ℕ

module _ {ℓ} {K : Type ℓ} (default : K) (max_deps : ℕ) where
  -- The entry of `record`: the dependencies, padded to an array of `max_deps`.
  abbrev pub eviction : K → List K → ℕ → ManifestEntry K
  eviction id deps seq = record {
    checkpoint_id = id;
    dependencies = deps ++ replicate (max_deps - length deps) default;
    dep_count = length deps % 256;
    seq = seq;
    tombstone = false;
  }

  -- The entry of `record_tombstone`.
  abbrev pub removal : K → ℕ → ManifestEntry K
  removal id seq = record {
    checkpoint_id = id;
    dependencies = replicate max_deps default;
    dep_count = 0;
    seq = seq;
    tombstone = true;
  }

module _ {ℓ κ} {K : Type ℓ} {S : Type κ} (sp : Spout {ℓ, 0, κ} (ManifestEntry K) ⊥ S) (default : K)
    (max_deps n : ℕ) where
  unfoldable pub new_manifest : S → Manifest K S
  new_manifest s = record { ring = with_spout_cold n s; seq = 0 }

  -- `self.seq += 1; self.ring.push_mut(entry);`
  unfoldable pub append_entry : ManifestEntry K → Manifest K S → Option (Manifest K S)
  append_entry entry m = do
    ring' ← push_mut sp n entry m.ring
    some (record { ring = ring'; seq = wrapping_add m.seq 1 })

  -- `record`
  unfoldable pub record_eviction :
      K → List K → Manifest K S → Option (Result StorageError (Unit {0}) × Manifest K S)
  record_eviction id deps m =
      if ltb max_deps (length deps)
      then some (err (too_many_dependencies max_deps (length deps)), m)
      else do m' ← append_entry (eviction default max_deps id deps m.seq) m; some (ok tt, m')

  unfoldable pub record_tombstone : K → Manifest K S → Option (Manifest K S)
  record_tombstone id m = append_entry (removal default max_deps id m.seq) m

  unfoldable pub flush_manifest : Manifest K S → Option (Manifest K S)
  flush_manifest m = do (_, ring') ← flush sp n m.ring; some (record m { ring = ring' })
