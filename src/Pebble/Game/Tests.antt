-- ===== src/Pebble/Game/Tests.antt =====
-- Runs of pebble/src/game.rs on a board with room for two red pebbles.
use abmac_lib.Prelude.{
  ℕ, ◌≤◌, ◌<◌, ◌≡◌, ◌≢◌, ◌↔◌, ◌⊎◌, refl, [], ◌∷◌, none, some, arith, saturating_add, ok,
}
use abmac_lib.Hash.{nat_key}
use abmac_lib.Hash.Sets.{contains, insert, remove}
use abmac_lib.Pebble.Game.{
  red, blue, PebbleGame, load_node, compute_node, delete_node, has_missing, check_colors,
  validate_invariants, initialize_inputs, new_game,
}
use abmac_lib.Pebble.Game.Board.{color, IsSound, Moved, Refused, load_node_lem, delete_node_lem}
use abmac_lib.Pebble.Game.Checks.{
  validate_invariants_lem, start, loads, computes, Reached-IsSound, compute_node-blue,
}

abbrev board : PebbleGame ℕ
board = record {
  red_pebbles = 1 ∷ [];
  blue_pebbles = 2 ∷ [];
  max_red_pebbles = 2;
  io_count = 5;
  operation_log = [];
}

board-IsSound : IsSound board
unfolding validate_invariants check_colors contains nat_key
board-IsSound = (validate_invariants_lem board).0 refl

two_is_blue : color board 2 ≡ some blue
unfolding color contains nat_key
two_is_blue = refl

three_is_not_blue : color board 3 ≢ some blue
unfolding color contains nat_key
three_is_not_blue e = cc

validate_invariants_lem_example : (validate_invariants board ≡ ok tt) ↔ IsSound board
validate_invariants_lem_example = validate_invariants_lem board

load_node_lem_example :
    ((color board 2 ≡ some blue)
      × (1 < 2)
      × Moved board (load_node 2 board) 2 (some red) (saturating_add 5 1))
    ⊎ (((color board 2 ≢ some blue) ⊎ (2 ≤ 1)) × Refused board (load_node 2 board))
load_node_lem_example = load_node_lem board board-IsSound 2

delete_node_lem_example :
    ((color board 1 ≡ some red) × Moved board (delete_node 1 board) 1 none 5)
    ⊎ ((color board 1 ≢ some red) × Refused board (delete_node 1 board))
delete_node_lem_example = delete_node_lem board board-IsSound 1

-- A load, and then the computation of a node from it.
abbrev game : PebbleGame ℕ
game = (compute_node 4 (2 ∷ []) (load_node 2 (initialize_inputs (2 ∷ 7 ∷ []) (new_game 3))).1).1

Reached-IsSound_example : IsSound game
unfolding color load_node initialize_inputs new_game contains insert remove nat_key
Reached-IsSound_example =
    Reached-IsSound 3 (2 ∷ 7 ∷ []) game (computes (loads start 2) 4 (2 ∷ []) (λ e. cc))

compute_node-blue_example :
    ((compute_node 2 (1 ∷ []) board).0 ≡ ok tt)
    × (color (compute_node 2 (1 ∷ []) board).1 2 ≡ some red)
    × (validate_invariants (compute_node 2 (1 ∷ []) board).1 ≢ ok tt)
unfolding has_missing contains nat_key
compute_node-blue_example =
    compute_node-blue board 2 (1 ∷ []) board-IsSound two_is_blue refl (omega arith)
