-- ===== src/TicTacToe/Game/Turns.antt =====
-- Turns and moves of `tic_tac_toe_game` in examples/tic_tac_toe/tic_tac_toe_game.hpp.
use mathlib.Core.Path.{subst}
use simple_web_game_server.Prelude.{
  ℕ, ◌%◌, ◌≡◌, refl, sym, ◌∙◌, ap, Bool, true, false, not, ◌&&◌, ◌||◌, List, [], ◌∷◌, ◌==◌, arith,
  Option-cases, Bool-cases, if◌then◌else◌, inl, inr, length, length-append, get_elem?,
}
use simple_web_game_server.Prelude.Int.{ℤ}
use simple_web_game_server.Game.{Message}
use simple_web_game_server.TicTacToe.Board
use simple_web_game_server.TicTacToe.Board.{Board, board_value, add_move, move, new_board}
use simple_web_game_server.Base.Link.{incr}
use simple_web_game_server.TicTacToe.Board.Referee.{IsFair, count_le, play-IsFair, new_board-IsFair}
use simple_web_game_server.TicTacToe.Game.{
  Game, Json, is_done, make, connect, disconnect, take_move, time_out, tick, tell_times,
  player_update, read_messages, play, begin, advance,
}

-- The board follows the rules, it has as many moves as the list of moves, and the turn is the first
-- player's after an even number of moves and the second's after an odd number.
pub record IsInTurn {J : Type 0} (g : Game J) : Type 0 where
  pub fair : IsFair g.board
  pub recorded : g.board.move_count ≡ length g.move_list
  pub alternates : g.turn ≡ length g.move_list % 2

make-IsInTurn : {J : Type 0} (json : Json J) (msg : J) → IsInTurn (make json msg)
unfolding make
make-IsInTurn json msg = record { fair = new_board-IsFair; recorded = refl; alternates = refl }

module _ {J : Type 0} where
  -- Only the board, the list of moves and the turn matter.
  IsInTurn-same :
      (g g' : Game J)
      → g'.board ≡ g.board
      → g'.move_list ≡ g.move_list
      → g'.turn ≡ g.turn
      → IsInTurn g
      → IsInTurn g'
  IsInTurn-same g g' b m t v = record {
    fair = subst IsFair (sym b) v.fair;
    recorded = ap (λ x. x.move_count) b ∙ v.recorded ∙ ap length (sym m);
    alternates = t ∙ v.alternates ∙ ap (λ l. length l % 2) (sym m);
  }

  -- the parts of a game that only a move changes
  record SameMoves (g g' : Game J) : Type 0 where
    same_board : g'.board ≡ g.board
    same_moves : g'.move_list ≡ g.move_list
    same_turn : g'.turn ≡ g.turn

  tick-SameMoves : (delta : ℕ) (g : Game J) → SameMoves g (tick delta g)
  unfolding tick time_out
  tick-SameMoves delta g = record {
    same_board = ground arith;
    same_moves = ground arith;
    same_turn = ground arith;
  }

or-eq_false : (a b : Bool) → (a || b) ≡ false → a ≡ false
or-eq_false true b h = h
or-eq_false false b h = refl

not_done : {J : Type 0} (g : Game J) → is_done g ≡ false → Board.is_done g.board ≡ false
not_done g h = or-eq_false (Board.is_done g.board) g.game_over h

add_move-count :
    (i j : ℕ) (v : ℤ) (b : Board)
    → (add_move i j v b).1 ≡ true
    → (add_move i j v b).0.move_count ≡ incr b.move_count
unfolding add_move move
add_move-count i j v b h = ground arith

module _ {J : Type 0} (json : Json J) where
  tell_times-SameMoves :
      (delta : ℕ) (out : List Message) (g : Game J) → SameMoves g (tell_times json delta out g).0
  unfolding tell_times
  tell_times-SameMoves delta out g = record {
    same_board = ground arith;
    same_moves = ground arith;
    same_turn = ground arith;
  }

  take_move-IsInTurn :
      (out : List Message) (text : J) (i j : ℕ) (g : Game J)
      → is_done g ≡ false
      → (add_move i j (board_value g.turn) g.board).1 ≡ true
      → IsInTurn g
      → IsInTurn (take_move json out text (add_move i j (board_value g.turn) g.board).0 g).0
  unfolding take_move
  take_move-IsInTurn out text i j g on taken v = record {
    fair =
        subst IsFair
          (ap (λ (b : Bool). if b then g.board else (add_move i j (board_value g.turn) g.board).0)
            (not_done g on))
          (play-IsFair i j g.turn g.board v.fair);
    recorded =
        add_move-count i j (board_value g.turn) g.board taken
        ∙ ground
            (arith, v.recorded, count_le g.board v.fair, length-append g.move_list (text ∷ []));
    alternates = ground (arith, v.alternates, length-append g.move_list (text ∷ []));
  }

  begin-IsInTurn :
      (out : List Message) (ms : ℕ) (g : Game J) → IsInTurn g → IsInTurn (begin json out ms g).0
  unfolding begin
  begin-IsInTurn out ms g v = IsInTurn-same g _ (ground arith) (ground arith) (ground arith) v

  player_update-IsInTurn :
      (out : List Message) (id : ℕ) (m : ℕ × ℕ × J) (g : Game J)
      → IsInTurn g
      → IsInTurn (player_update json out id m g).0
  unfolding player_update
  player_update-IsInTurn out id m g v = elim (Bool-cases (g.started && not (is_done g))) [
    | inr e ↦ rw (e, player_update) v
    | inl e ↦ elim (Option-cases (get_elem? g.player_list g.turn)) [
      | inl f ↦ rw (e, f, player_update) v
      | inr (player, f) ↦ elim (Bool-cases (id == player)) [
        | inr h ↦ rw (e, f, h, player_update) v
        | inl h ↦ elim (Bool-cases ((add_move m.0 m.1 (board_value g.turn) g.board).1)) [
          | inr k ↦ rw (e, f, h, k, player_update) v
          | inl k ↦
              rw (e, f, h, k, player_update)
                (take_move-IsInTurn out m.2 m.0 m.1 g (ground arith) k v)
        ]
      ]
    ]
  ]

  read_messages-IsInTurn :
      (out ins : List Message) (g : Game J) → IsInTurn g → IsInTurn (read_messages json out ins g).0
  unfolding read_messages
  read_messages-IsInTurn out [] g v = v
  read_messages-IsInTurn out ((id, text) ∷ ms) g v = elim (Option-cases (json.read_move text)) [
    | inl e ↦ rw (e, read_messages) (read_messages-IsInTurn out ms g v)
    | inr (m, e) ↦
        let r = player_update json out id m g in
        rw (e, read_messages)
          (read_messages-IsInTurn r.1 ms r.0 (player_update-IsInTurn out id m g v))
  ]

  play-IsInTurn :
      (out ins : List Message) (delta : ℕ) (g : Game J)
      → IsInTurn g
      → IsInTurn (play json out ins delta g).0
  unfolding play
  play-IsInTurn out ins delta g v =
      let a = tick-SameMoves delta g in
      let r = tell_times json delta out (tick delta g) in
      let b = tell_times-SameMoves delta out (tick delta g) in
      read_messages-IsInTurn _ ins r.0 (
        IsInTurn-same g r.0 (b.same_board ∙ a.same_board) (b.same_moves ∙ a.same_moves)
          (b.same_turn ∙ a.same_turn) v)

  advance-IsInTurn :
      (ms : ℕ) (out ins : List Message) (delta : ℕ) (g : Game J)
      → IsInTurn g
      → IsInTurn (advance json ms out ins delta g).0
  unfolding advance
  advance-IsInTurn ms out ins delta g v = elim (Bool-cases (g.started && not g.game_over)) [
    | inl e ↦ rw (e, advance) (play-IsInTurn out ins delta g v)
    | inr e ↦ rw (e, advance) (begin-IsInTurn out ms g v)
  ]

-- The calls that a game server makes of a game.
pub data GameCall : Type 0 where
  connects disconnects : List Message → ℕ → GameCall
  advances : ℕ → List Message → List Message → ℕ → GameCall

module _ {J : Type 0} (json : Json J) where
  abbrev pub perform : GameCall → Game J → Game J
  perform (connects out id) g = (connect json out id g).0
  perform (disconnects out id) g = (disconnect json out id g).0
  perform (advances ms out ins delta) g = (advance json ms out ins delta g).0

  pub performs : List GameCall → Game J → Game J
  performs [] g = g
  performs (c ∷ cs) g = performs cs (perform c g)

  performs-IsInTurn : (cs : List GameCall) (g : Game J) → IsInTurn g → IsInTurn (performs cs g)
  unfolding performs connect disconnect
  performs-IsInTurn [] g v = v
  performs-IsInTurn (connects out id ∷ cs) g v =
      performs-IsInTurn cs (perform (connects out id) g)
        (IsInTurn-same g (perform (connects out id) g) refl refl refl v)
  performs-IsInTurn (disconnects out id ∷ cs) g v =
      performs-IsInTurn cs (perform (disconnects out id) g)
        (IsInTurn-same g (perform (disconnects out id) g) refl refl refl v)
  performs-IsInTurn (advances ms out ins delta ∷ cs) g v =
      performs-IsInTurn cs (perform (advances ms out ins delta) g)
        (advance-IsInTurn json ms out ins delta g v)

  -- In a game that a game server runs, whatever it calls and whatever messages come, the board
  -- follows the rules, the list of moves has as many moves as the board, and it is the first
  -- player's turn after an even number of moves and the second's after an odd number.
  pub in_turn : (msg : J) (cs : List GameCall) → IsInTurn (performs cs (make json msg))
  in_turn msg cs = performs-IsInTurn cs (make json msg) (make-IsInTurn json msg)
