-- ===== src/Pebble/Manager.antt =====
-- pebble/src/manager/pebble_manager.rs: `PebbleManager`, a checkpoint's way between fast memory, the
-- warm tier and cold storage, with the errors of pebble/src/errors/manager.rs. The manager is that of
-- a build without debug assertions, which has no `game`.
pub mod Eviction
pub mod Access
pub mod Removal
pub mod Persistence
pub mod Created
mod Tests
use abmac_lib.Prelude.{
  ℕ, suc, ◌+◌, ◌≡◌, Bool, true, false, ◌||◌, List, [], ◌∷◌, Option, none, some, length, max,
  if◌then◌else◌, saturating_add, Result, ok, err, ltb,
}
use abmac_lib.Prelude.Sorting.{isqrt}
use abmac_lib.Hash.{Key}
use abmac_lib.Hash.Sets.{contains, insert}
use abmac_lib.Hash.Maps.{get, contains_key, put, update}
use abmac_lib.Spout.{Spout}
use abmac_lib.Pebble.Manifest.{StorageError, ManifestEntry, Manifest}
use abmac_lib.Pebble.Branch.{BranchInfo, BranchTracker, assign}
use abmac_lib.Pebble.Dag.{DagNode, ComputationDag, DagError, new_dag}
use abmac_lib.Pebble.Strategy.{Strategy}
use abmac_lib.Pebble.Tiers.{WarmTier, ColdTier}

-- The texts that go with an error are left out.
pub data PebbleManagerError {ℓ} (K E : Type ℓ) : Type ℓ where
  storage : StorageError → PebbleManagerError K E
  dag_error : DagError K → PebbleManagerError K E
  never_added : K → PebbleManagerError K E
  storage_load_failed : K → PebbleManagerError K E
  dependency_missing : K → K → PebbleManagerError K E
  serialization : K → E → PebbleManagerError K E
  deserialization : K → E → PebbleManagerError K E
  flush_failed : E → PebbleManagerError K E
  rebuild_failed : K → PebbleManagerError K E
  dependency_width_exceeded : K → ℕ → ℕ → PebbleManagerError K E
  checkpoint_too_large : ℕ → ℕ → PebbleManagerError K E
  internal_inconsistency : PebbleManagerError K E

-- `N` is the type of the branches' names, `W`, `C` and `S` are the states of the tiers and of the
-- manifest's spout.
pub record PebbleManager {ℓ} (K T N W C S : Type ℓ) : Type ℓ where
  pub hot_capacity : ℕ
  pub red_pebbles : List (K × T)
  pub blue_pebbles : List K
  pub dag : ComputationDag K
  pub strategy : Strategy
  pub cold : C
  pub warm : W
  pub manifest : Manifest K S
  pub checkpoints_added : ℕ
  pub io_reads : ℕ
  pub io_writes : ℕ
  pub warm_hits : ℕ
  pub cold_loads : ℕ
  pub auto_resize : Bool
  pub dirty : List K
  pub tombstoned : List K
  pub branches : Option (BranchTracker N K)

-- What a manager is instantiated with: `C`, `W`, `S` and `T` with their traits, the default
-- identifier and the constants of the manifest.
pub record Parts {ℓ} (K T W C S E : Type ℓ) : Type ℓ where
  pub warm : WarmTier K T W
  pub cold : ColdTier K T C E
  pub spout : Spout {ℓ, 0, ℓ} (ManifestEntry K) ⊥ S
  pub default : K
  pub max_deps : ℕ
  pub log_capacity : ℕ
  pub checkpoint_id : T → K

module _ {ℓ} {K T N W C S : Type ℓ} where
  unfoldable pub new_manager :
      C → W → Manifest K S → Strategy → ℕ → Bool → PebbleManager K T N W C S
  new_manager cold warm manifest strategy hot_capacity auto_resize = record {
    hot_capacity = max hot_capacity 1;
    red_pebbles = [];
    blue_pebbles = [];
    dag = new_dag;
    strategy = strategy;
    cold = cold;
    warm = warm;
    manifest = manifest;
    checkpoints_added = 0;
    io_reads = 0;
    io_writes = 0;
    warm_hits = 0;
    cold_loads = 0;
    auto_resize = auto_resize;
    dirty = [];
    tombstoned = [];
    branches = none;
  }

-- A method with `&mut self` and a result. `none` is a panic or a loop that goes on.
abbrev pub Action {ℓ κ} : (M : Type ℓ) (E : Type ℓ) (A : Type κ) → Type (ℓ ⊔ κ)
Action M E A = M → Option (Result E A × M)

-- What `?` does between two methods.
abbrev pub go_on {ℓ κ μ} :
    {M E : Type ℓ} {A : Type κ} {B : Type μ}
    → (A → Action M E B)
    → Option (Result E A × M)
    → Option (Result E B × M)
go_on f none = none
go_on f (some (ok a, m)) = f a m
go_on f (some (err e, m)) = some (err e, m)

infixl 5 ◌>>=◌ ◌>>◌
abbrev pub ◌>>=◌ {ℓ κ μ} :
    {M E : Type ℓ} {A : Type κ} {B : Type μ} → Action M E A → (A → Action M E B) → Action M E B
◌>>=◌ act f m = go_on f (act m)

abbrev pub ◌>>◌ {ℓ κ} :
    {M E : Type ℓ} {B : Type κ} → Action M E (Unit {0}) → Action M E B → Action M E B
act >> next = act >>= λ _. next

abbrev pub return {ℓ κ} : {M E : Type ℓ} {A : Type κ} → A → Action M E A
return a m = some (ok a, m)

abbrev pub modify {ℓ} : {M E : Type ℓ} → (M → M) → Action M E (Unit {0})
modify f m = some (ok tt, f m)
