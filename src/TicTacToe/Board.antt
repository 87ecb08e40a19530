-- ===== src/TicTacToe/Board.antt =====
-- `tic_tac_toe_board` of examples/tic_tac_toe/tic_tac_toe_game.hpp.
pub mod Referee
use simple_web_game_server.Prelude.{
  ℕ, ◌+◌, ◌*◌, ◌-◌, Bool, true, false, Option, none, some, List, [], ◌∷◌, ◌&&◌, ◌||◌, ltb, ◌==◌,
  not, if◌then◌else◌, get_elem?, set,
}
use simple_web_game_server.Prelude.Int.{ℤ, pos, negsuc, ◌==ℤ◌}
use simple_web_game_server.Base.Link.{incr}

abbrev pub empty_val : ℤ
empty_val = pos 0

-- `BOARD_VALUES`, a vector of two
abbrev pub board_value : ℕ → ℤ
board_value turn = if turn == 0 then pos 1 else negsuc 0

pub record Board : Type 0 where
  pub cells : List ℤ
  pub state : ℤ
  pub move_count : ℕ

abbrev pub new_board : Board
new_board = record {
  cells =
      empty_val ∷ empty_val ∷ empty_val ∷ empty_val ∷ empty_val ∷ empty_val ∷ empty_val ∷ empty_val
      ∷ empty_val ∷ [];
  state = pos 0;
  move_count = 0;
}

-- The code has undefined behaviour out of range, where this is 0; `add_move` stays in range.
abbrev pub value_or_empty : Option ℤ → ℤ
value_or_empty (some v) = v
value_or_empty none = empty_val

unfoldable pub get_value : ℕ → ℕ → List ℤ → ℤ
get_value i j cells = value_or_empty (get_elem? cells (i + 3 * j))

unfoldable pub set_value : ℕ → ℕ → ℤ → List ℤ → List ℤ
set_value i j s cells = set cells (i + 3 * j) s

-- a loop over three squares that ends at the first one that differs
abbrev pub all_three : (ℕ → ℤ) → ℤ → Bool
all_three value s = value 0 ==ℤ s && (value 1 ==ℤ s && value 2 ==ℤ s)

-- the four checks of `move`: the first that succeeds returns, and all set the same state
unfoldable pub wins : ℕ → ℕ → ℤ → List ℤ → Bool
unfolding get_value
wins x y s cells =
    all_three (λ i. get_value x i cells) s
    || (all_three (λ i. get_value i y cells) s
        || ((x == y && all_three (λ i. get_value i i cells) s)
            || (x + y == 2 && all_three (λ i. get_value i (2 - i) cells) s)))

unfoldable pub move : ℕ → ℕ → ℤ → Board → Board
unfolding set_value wins
move x y s b =
    let cells = set_value x y s b.cells in
    record {
      cells = cells;
      state = if wins x y s cells then s else b.state;
      move_count = incr b.move_count;
    }

unfoldable pub add_move : ℕ → ℕ → ℤ → Board → Board × Bool
unfolding get_value move
add_move i j value b =
    if ltb 2 i || ltb 2 j
    then (b, false)
    else if not (get_value i j b.cells ==ℤ empty_val)
    then (b, false)
    else (move i j value b, true)

abbrev pub is_done : Board → Bool
is_done b = b.move_count == 9 || not (b.state ==ℤ pos 0)
