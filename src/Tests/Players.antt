-- ===== src/Tests/Players.antt =====
-- Runs of a client and of a game of tic-tac-toe.
use simple_web_game_server.Prelude.{ℕ, suc, ◌≡◌, refl, true, false, some, List, [], ◌∷◌, arith}
use simple_web_game_server.Prelude.Int.{pos, negsuc, abs_difference}
use simple_web_game_server.Client.{
  Handlers, Event, connects, looping, opened, closed, sends, history, perform, init,
}
use simple_web_game_server.Client.Safety.{Answers, accepts, guarded}
use simple_web_game_server.TicTacToe.Board.{new_board, add_move, get_value, move, set_value, wins}
use simple_web_game_server.TicTacToe.Board.Referee.{IsFair, plays, referee}
use simple_web_game_server.TicTacToe.Game.{Game, Json, is_done, make, advance}
use simple_web_game_server.TicTacToe.Game.Clock.{out_of_time}
use simple_web_game_server.TicTacToe.Game.Turns.{
  IsInTurn, GameCall, connects as joins, advances, performs, in_turn,
}
use simple_web_game_server.Prelude.{All, ℕ_discrete}
use simple_web_game_server.Prelude.Assoc.{Assoc, lookup}
use simple_web_game_server.Prelude.Assoc.Size.{Distinct}
use simple_web_game_server.Prelude.NatSet.{contains, insert}
use simple_web_game_server.Matchmaking.Progress.{matched_sessions}
use simple_web_game_server.TicTacToe.Matchmaker
use simple_web_game_server.TicTacToe.Matchmaker.{Rated, best_partner, pair, pairs}
use simple_web_game_server.TicTacToe.Matchmaker.Pairs.{IsClose, NoRepeat, pairing}

-- the owner counts the openings
abbrev counting : Handlers ℕ
counting = record { handle_open = λ n. suc n; handle_close = λ n. n; handle_message = λ msg n. n }

abbrev session : List (Event ℕ)
session = connects (looping 3) "token" ∷ opened ∷ closed ∷ []

guarded_example :
    let c = history session (init counting 0) in
    Answers (accepts (sends "late") c) (perform (sends "late") c)
guarded_example = guarded session (sends "late") counting 0

-- the first player has the middle row
abbrev middle_row : List (ℕ × ℕ × ℕ)
middle_row = (0, 1, 0) ∷ (0, 0, 1) ∷ (1, 1, 0) ∷ (1, 0, 1) ∷ (2, 1, 0) ∷ (2, 0, 1) ∷ []

middle_row-wins : (plays middle_row new_board).state ≡ pos 1
unfolding plays add_move get_value move set_value wins
middle_row-wins = refl

referee_example : IsFair (plays middle_row new_board)
referee_example = referee middle_row

-- every message is a move to the first square
abbrev pub json : Json ℕ
json = record {
  to_json = λ report. 0;
  dump = λ j. "report";
  matched = λ j. some true;
  read_move = λ text. some (0, 0, 7);
}

abbrev opening : List GameCall
opening =
    joins [] 5
    ∷ joins [] 6
    ∷ advances 1 [] [] 10
    ∷ advances 2 [] ((5, "move") ∷ (6, "move") ∷ []) 10
    ∷ []

in_turn_example : IsInTurn (performs json opening (make json 0))
in_turn_example = in_turn json 0 opening

-- the second player has 2 seconds left
abbrev late_game : Game ℕ
late_game = record {
  player_list = 5 ∷ 6 ∷ [];
  connected = (5, true) ∷ (6, true) ∷ [];
  valid = true;
  started = true;
  game_over = false;
  turn = 1;
  state = pos 0;
  times = (9000, 2000);
  elapsed_time = 0;
  move_list = 7 ∷ [];
  board = record new_board { move_count = 1 };
}

out_of_time_example :
    let g' = (advance json 4 [] [] 2500 late_game).0 in
    (is_done g' ≡ true) × (g'.game_over ≡ true) × (g'.state ≡ negsuc 0)
out_of_time_example =
    out_of_time json 4 2500 [] [] late_game refl refl (omega arith) (omega arith) (omega arith)

abbrev pub ratings : Matchmaker.Json ℕ
ratings = record { rating = λ j. some (pos j); matched = λ b. 1; uninitialised = pos 0 }

-- three sessions: the first and the third are closest
abbrev waiting_sessions : Assoc ℕ Rated
waiting_sessions =
    (4, record { rating = pos 1500; valid = true })
    ∷ (7, record { rating = pos 1800; valid = true })
    ∷ (9, record { rating = pos 1520; valid = true })
    ∷ []

waiting_sessions-Distinct : Distinct ℕ_discrete waiting_sessions
unfolding lookup ℕ_discrete
waiting_sessions-Distinct = (refl, (refl, (refl, tt)))

waiting_pairs : pairs ratings [] waiting_sessions ≡ pair ratings 4 9 ∷ []
unfolding pairs best_partner contains insert
waiting_pairs = refl

far_apart : abs_difference (pos 2147483647) (negsuc 2147483647) ≡ pos 1
far_apart = refl

pairing_example :
    All (IsClose ratings [] waiting_sessions) (pairs ratings [] waiting_sessions)
    × NoRepeat (matched_sessions (pairs ratings [] waiting_sessions))
pairing_example = pairing ratings waiting_sessions waiting_sessions-Distinct
