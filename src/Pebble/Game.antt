-- ===== src/Pebble/Game.antt =====
-- pebble/src/game.rs: `PebbleGame`, the red-blue pebble game, with the errors of
-- pebble/src/errors/game.rs.
pub mod Board
pub mod Checks
mod Tests
use Prim.Native.String.{String}
use mathlib.Core.Bool.{not}
use abmac_lib.Prelude.{
  ℕ, ◌+◌, ◌-◌, ◌≡◌, Bool, true, false, ◌&&◌, ◌||◌, List, [], ◌∷◌, ◌++◌, Option, none, some, length,
  ltb, if◌then◌else◌, saturating_add, Result, ok, err, word,
}
use abmac_lib.Hash.{Key}
use abmac_lib.Hash.Sets.{contains, insert, remove}

pub data PebbleColor : Type 0 where
  red : PebbleColor
  blue : PebbleColor

pub data PebbleOperation {ℓ} (K : Type ℓ) : Type ℓ where
  load : K → PebbleOperation K
  store : K → PebbleOperation K
  compute : K → PebbleOperation K
  delete : K → PebbleOperation K

-- The message of `InvalidOperation` is kept as its parts: what stands before the node, the node,
-- and what stands behind it.
pub data PebbleError {ℓ} (K : Type ℓ) : Type ℓ where
  fast_memory_exhausted : ℕ → ℕ → PebbleError K
  invalid_operation : String → K → String → PebbleError K
  not_found : K → PebbleError K

pub record PebbleGame {ℓ} (K : Type ℓ) : Type ℓ where
  pub red_pebbles : List K
  pub blue_pebbles : List K
  pub max_red_pebbles : ℕ
  pub io_count : ℕ
  pub operation_log : List (PebbleOperation K)

-- An operation's result and the game after it.
abbrev pub Move {ℓ} : Type ℓ → Type ℓ
Move K = PebbleGame K → Result (PebbleError K) (Unit {0}) × PebbleGame K

module _ {ℓ} {K : Type ℓ} where
  unfoldable pub new_game : ℕ → PebbleGame K
  new_game max_red_pebbles = record {
    red_pebbles = [];
    blue_pebbles = [];
    max_red_pebbles = max_red_pebbles;
    io_count = 0;
    operation_log = [];
  }

  unfoldable pub clear_log : PebbleGame K → PebbleGame K
  clear_log g = record g { operation_log = [] }

module _ {ℓ} {K : Type ℓ} ⦃key : Key K⦄ where
  abbrev pub can_load : K → List K → List K → ℕ → Bool
  can_load node blues reds max_red =
      contains node blues && (not (contains node reds) && ltb (length reds) max_red)

  -- `can_store` and `can_delete`
  abbrev pub can_store : K → List K → Bool
  can_store node reds = contains node reds

  unfoldable pub initialize_inputs : List K → PebbleGame K → PebbleGame K
  initialize_inputs [] g = g
  initialize_inputs (input ∷ inputs) g =
      initialize_inputs inputs (record g { blue_pebbles = insert input g.blue_pebbles })

  abbrev pub loaded : K → PebbleGame K → PebbleGame K
  loaded node g = record g {
    blue_pebbles = remove node g.blue_pebbles;
    red_pebbles = insert node g.red_pebbles;
    io_count = saturating_add g.io_count 1;
    operation_log = g.operation_log ++ load node ∷ [];
  }

  unfoldable pub load_node : K → Move K
  load_node node g =
      if can_load node g.blue_pebbles g.red_pebbles g.max_red_pebbles
      then (ok tt, loaded node g)
      else (err (invalid_operation "Load " node ": not in blue pebbles or red memory full"), g)

  abbrev pub stored : K → PebbleGame K → PebbleGame K
  stored node g = record g {
    red_pebbles = remove node g.red_pebbles;
    blue_pebbles = insert node g.blue_pebbles;
    io_count = saturating_add g.io_count 1;
    operation_log = g.operation_log ++ store node ∷ [];
  }

  unfoldable pub store_node : K → Move K
  store_node node g =
      if can_store node g.red_pebbles
      then (ok tt, stored node g)
      else (err (invalid_operation "Store " node ": not in red pebbles"), g)

  -- `dependencies.iter().any(|d| !self.red_pebbles.contains(d))`
  unfoldable pub has_missing : List K → List K → Bool
  has_missing [] reds = false
  has_missing (d ∷ dependencies) reds = not (contains d reds) || has_missing dependencies reds

  abbrev pub computed : K → PebbleGame K → PebbleGame K
  computed node g = record g {
    red_pebbles = insert node g.red_pebbles;
    operation_log = g.operation_log ++ compute node ∷ [];
  }

  unfoldable pub compute_node : K → List K → Move K
  compute_node node dependencies g =
      if has_missing dependencies g.red_pebbles
      then (err (invalid_operation "Compute " node ": dependencies not in red pebbles"), g)
      else if contains node g.red_pebbles || ltb (length g.red_pebbles) g.max_red_pebbles
      then (ok tt, computed node g)
      else (err (fast_memory_exhausted (length g.red_pebbles) g.max_red_pebbles), g)

  abbrev pub deleted : K → PebbleGame K → PebbleGame K
  deleted node g = record g {
    red_pebbles = remove node g.red_pebbles;
    operation_log = g.operation_log ++ delete node ∷ [];
  }

  unfoldable pub delete_node : K → Move K
  delete_node node g =
      if can_store node g.red_pebbles
      then (ok tt, deleted node g)
      else (err (invalid_operation "Delete " node ": not in red pebbles"), g)

  -- `for node in &self.red_pebbles` of `validate_invariants`.
  unfoldable pub check_colors : List K → List K → Result (PebbleError K) (Unit {0})
  check_colors [] blues = ok tt
  check_colors (node ∷ reds) blues =
      if contains node blues
      then err (invalid_operation "Node " node " has both red and blue pebbles")
      else check_colors reds blues

  unfoldable pub validate_invariants : PebbleGame K → Result (PebbleError K) (Unit {0})
  unfolding check_colors
  validate_invariants g =
      if ltb g.max_red_pebbles (length g.red_pebbles)
      then err (fast_memory_exhausted (length g.red_pebbles) g.max_red_pebbles)
      else check_colors g.red_pebbles g.blue_pebbles

  -- The shadow of the manager's moves, without the rules. `none` is a failed assertion.
  unfoldable pub place_red : K → PebbleGame K → PebbleGame K
  place_red node g = record g {
    blue_pebbles = remove node g.blue_pebbles;
    red_pebbles = insert node g.red_pebbles;
  }

  unfoldable pub place_blue : K → PebbleGame K → PebbleGame K
  place_blue node g = record g {
    red_pebbles = remove node g.red_pebbles;
    blue_pebbles = insert node g.blue_pebbles;
  }

  unfoldable pub move_to_blue : K → PebbleGame K → Option (PebbleGame K)
  unfolding place_blue
  move_to_blue node g =
      if contains node g.red_pebbles
      then some (record (place_blue node g) { io_count = saturating_add g.io_count 1 })
      else none

  unfoldable pub move_to_red : K → PebbleGame K → Option (PebbleGame K)
  unfolding place_red
  move_to_red node g =
      if contains node g.blue_pebbles
      then some (record (place_red node g) { io_count = saturating_add g.io_count 1 })
      else none

  unfoldable pub remove_node : K → PebbleGame K → PebbleGame K
  remove_node node g = record g {
    red_pebbles = remove node g.red_pebbles;
    blue_pebbles = remove node g.blue_pebbles;
  }
