-- ===== src/Pebble/Branch.antt =====
-- pebble/src/manager/branch.rs: `BranchTracker`, the names and the lineage of the branches, with the
-- errors of pebble/src/errors/branch.rs. A `BranchId` is its number; a name is of any type with an
-- equality, since only that is asked of `String` here.
pub mod Lineage
pub mod Create
use abmac_lib.Prelude.{
  ℕ, zero, suc, ◌+◌, ◌≡◌, Bool, true, false, ◌||◌, List, [], ◌∷◌, Option, none, some, map,
  if◌then◌else◌, wrapping_add, Result, ok, err,
}
use abmac_lib.Prelude.Results.{◌>>=◌}
use abmac_lib.Hash.{Key, nat_key}
use abmac_lib.Hash.Maps.{get, contains_key, delete, put}

-- `HEAD`
abbrev pub head_id : ℕ
head_id = 0

pub record BranchInfo {ℓ κ} (N : Type ℓ) (K : Type κ) : Type (ℓ ⊔ κ) where
  pub id : ℕ
  pub name : N
  pub fork_point : Option K
  pub parent : Option ℕ
  pub head : Option K

pub data BranchError {ℓ} (N : Type ℓ) : Type ℓ where
  branching_not_enabled : BranchError N
  branch_not_found : ℕ → BranchError N
  name_already_used : N → BranchError N

pub record BranchTracker {ℓ κ} (N : Type ℓ) (K : Type κ) : Type (ℓ ⊔ κ) where
  pub branches : List (ℕ × BranchInfo N K)
  pub checkpoint_to_branch : List (K × ℕ)
  pub active : ℕ
  pub next_id : ℕ

-- `None` for an empty chain.
abbrev pub non_empty : List ℕ → Option (List ℕ)
non_empty [] = none
non_empty (x ∷ xs) = some (x ∷ xs)

-- `b.fork_point == Some(checkpoint_id)`
abbrev pub forks_at {κ} : {K : Type κ} ⦃key : Key K⦄ → K → Option K → Bool
forks_at checkpoint_id none = false
forks_at ⦃key⦄ checkpoint_id (some k) = key.same k checkpoint_id

module _ {ℓ κ} {N : Type ℓ} {K : Type κ} where
  -- `new`; `name` is the source's "head".
  unfoldable pub new_tracker : N → BranchTracker N K
  new_tracker name = record {
    branches =
        put head_id
          (record { id = head_id; name = name; fork_point = none; parent = none; head = none }) [];
    checkpoint_to_branch = [];
    active = head_id;
    next_id = 1;
  }

  unfoldable pub set_active :
      ℕ → BranchTracker N K → Result (BranchError N) (Unit {0}) × BranchTracker N K
  set_active branch_id t =
      if contains_key branch_id t.branches
      then (ok tt, record t { active = branch_id })
      else (err (branch_not_found branch_id), t)

  unfoldable pub info : ℕ → BranchTracker N K → Option (BranchInfo N K)
  info branch_id t = get branch_id t.branches

  -- `while let Some(info) = current`, with as many rounds as `fuel`. `none` is a loop that goes on.
  unfoldable pub walk : ℕ → Option (BranchInfo N K) → List (ℕ × BranchInfo N K) → Option (List ℕ)
  walk fuel none branches = some []
  walk zero (some b) branches = none
  walk (suc fuel) (some b) branches = do
    chain ← walk fuel (b.parent >>= λ pid. get pid branches) branches
    some (b.id ∷ chain)

  -- As many rounds as the identifier and one more are enough (`Lineage.lineage_lem`).
  unfoldable pub lineage : ℕ → BranchTracker N K → Option (Option (List ℕ))
  unfolding walk
  lineage branch_id t = do
    chain ← walk (suc branch_id) (get branch_id t.branches) t.branches
    some (non_empty chain)

module _ {ℓ κ} {N : Type ℓ} {K : Type κ} ⦃names : Key N⦄ where
  -- `self.branches.values().any(|b| b.name == name)`
  unfoldable pub has_name : N → List (ℕ × BranchInfo N K) → Bool
  has_name name [] = false
  has_name name (e ∷ branches) = names.same e.1.name name || has_name name branches

  unfoldable pub create_branch :
      N → K → ℕ → BranchTracker N K → Result (BranchError N) ℕ × BranchTracker N K
  create_branch name fork_point parent t =
      if contains_key parent t.branches
      then (if has_name name t.branches then (err (name_already_used name), t) else (
        ok t.next_id,
        record t {
          next_id = wrapping_add t.next_id 1;
          branches =
              put t.next_id
                (record {
                  id = t.next_id;
                  name = name;
                  fork_point = some fork_point;
                  parent = some parent;
                  head = none;
                })
                t.branches;
        },
      ))
      else (err (branch_not_found parent), t)

module _ {ℓ κ} {N : Type ℓ} {K : Type κ} ⦃key : Key K⦄ where
  unfoldable pub assign : K → ℕ → BranchTracker N K → BranchTracker N K
  assign checkpoint_id branch_id t = record t {
    checkpoint_to_branch = put checkpoint_id branch_id t.checkpoint_to_branch;
  }

  unfoldable pub branch_of : K → BranchTracker N K → Option ℕ
  branch_of checkpoint_id t = get checkpoint_id t.checkpoint_to_branch

  unfoldable pub remove_checkpoint : K → BranchTracker N K → BranchTracker N K
  remove_checkpoint checkpoint_id t = record t {
    checkpoint_to_branch = delete checkpoint_id t.checkpoint_to_branch;
  }

  unfoldable pub branches_forked_at : K → List (ℕ × BranchInfo N K) → List ℕ
  branches_forked_at checkpoint_id [] = []
  branches_forked_at checkpoint_id (e ∷ branches) =
      let rest = branches_forked_at checkpoint_id branches in
      if forks_at checkpoint_id e.1.fork_point then e.1.id ∷ rest else rest
