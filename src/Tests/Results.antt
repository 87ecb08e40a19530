-- ===== src/Tests/Results.antt =====
-- A result of examples/tic_tac_toe from the game server to the ratings.
use mathlib.Core.List.{Mem}
use simple_web_game_server.Prelude.{ℕ, ◌≡◌, refl, true, false, some, [], ◌∷◌, arith, ℕ_discrete}
use simple_web_game_server.Prelude.Assoc.{lookup, emplace, update, value_or}
use simple_web_game_server.Prelude.Int.{pos}
use simple_web_game_server.BufferedMap
use simple_web_game_server.Locks.{update_session_locks}
use simple_web_game_server.Base.{Action, close_connection, id_discrete, init}
use simple_web_game_server.Base.Completion.{client}
use simple_web_game_server.Base.Invariant.{live-init-IsValid}
use simple_web_game_server.Base.Lifecycle.{live}
use simple_web_game_server.Base.Waiting.{IsWaiting}
use simple_web_game_server.Base.Worker.{step}
use simple_web_game_server.Game.{GameServer}
use simple_web_game_server.Game.Lifecycle.{empty_inbox}
use simple_web_game_server.Game.Loop.{time_step}
use simple_web_game_server.Game.Updates.{process_connection_updates}
use simple_web_game_server.TicTacToe.Board.{new_board}
use simple_web_game_server.TicTacToe.Game.{Game, tic_tac_toe, advance}
use simple_web_game_server.TicTacToe.Service.{json_reply, outcome}
use simple_web_game_server.TicTacToe.Service.Ratings.{rated}
use simple_web_game_server.TicTacToe.Service.Results.{result_counts}
use simple_web_game_server.TicTacToe.Service.Signing.{IsSigned}
use simple_web_game_server.TicTacToe.Service.Startup.{ResultJson, session_claims, game_env}
use simple_web_game_server.TicTacToe.Service.Submission.{submit}
use simple_web_game_server.Tests.{login_events}
use simple_web_game_server.Tests.Owners.{ticking}
use simple_web_game_server.Tests.Players.{json}
use simple_web_game_server.Tests.Requests.{tokens, parse_session_id, naturals, in_game, waiting}

-- the text of a result is its token
abbrev results : ResultJson ℕ
results = record { token_data = λ j. 3; with_token = λ j token. j; dump = λ j. "first" }

-- a game that is over
abbrev over : Game ℕ
over = record {
  player_list = 0 ∷ 1 ∷ [];
  connected = [];
  valid = false;
  started = true;
  game_over = true;
  turn = 0;
  state = pos 1;
  times = (5, 0);
  elapsed_time = 0;
  move_list = [];
  board = new_board;
}

-- the player 0 is connected in the session 3
abbrev server : GameServer ℕ (Game ℕ)
server = record {
  games = (3, over) ∷ [];
  game_count = 1;
  in_messages = [];
  connection_updates = [];
  out_messages = (3, []) ∷ [];
  finished_games = [];
  time_start = 20;
  readings = 0;
  base = live (game_env tokens parse_session_id results 0) login_events (init 1000 empty_inbox);
}

abbrev updated_server : GameServer ℕ (Game ℕ)
updated_server = record server { base = record server.base { app = empty_inbox } }

updated :
    process_connection_updates
      (game_env tokens parse_session_id results 0)
      ticking
      (tic_tac_toe json 0)
      server
    ≡ some updated_server
unfolding process_connection_updates live init step lookup BufferedMap.contains update_session_locks
    emplace
updated = refl

base-IsWaiting : IsWaiting 0 3 4 updated_server.base
unfolding live init step lookup BufferedMap.contains update_session_locks emplace id_discrete
base-IsWaiting = record {
  links =
      live-init-IsValid (game_env tokens parse_session_id results 0) login_events 1000
        (empty_inbox {J = ℕ});
  not_over = refl;
  there = refl;
}

abbrev after_step : GameServer ℕ (Game ℕ)
after_step =
    value_or ℕ_discrete
      (time_step (game_env tokens parse_session_id results 0) ticking (tic_tac_toe json 0) 10 20
        server)
      server

stepped :
    time_step (game_env tokens parse_session_id results 0) ticking (tic_tac_toe json 0) 10 20 server
    ≡ some after_step
unfolding time_step live init step lookup emplace update advance BufferedMap.contains
    update_session_locks ℕ_discrete
stepped = refl

after_step-game : lookup ℕ_discrete 3 after_step.games ≡ some over
unfolding time_step live init step lookup emplace update advance BufferedMap.contains
    update_session_locks ℕ_discrete
after_step-game = refl

result-IsSigned :
    IsSigned tokens parse_session_id (session_claims "tic_tac_toe_game_server" 0 (client 0 3) 3)
result-IsSigned = record {
  jwt = 3;
  decoded = refl;
  accepted = λ v t k i b. ground arith;
  pid_json = 3;
  pid_claim = refl;
  pid_read = refl;
  sid_claim = λ sid e. (3, refl, e);
  data_claim = λ d e. e;
}

result_counts_example :
    (x : Action) × Mem x after_step.base.actions
    × (x.type ≡ close_connection)
    × (x.hdl ≡ 4)
    × (submit tokens naturals 7 x.msg in_game ≡ (
      record in_game {
        player_database = rated naturals 0 1 1 0 0 (waiting 0) (waiting 2) in_game.player_database;
      },
      json_reply (outcome true),
    ))
result_counts_example =
    result_counts tokens naturals parse_session_id json results ticking (λ text. text) 0 0 0 3 4 10
      20 7 server updated_server after_step over 0 1 1 0 in_game (waiting 0) (waiting 0) (waiting 2)
      updated base-IsWaiting stepped after_step-game refl result-IsSigned refl refl refl
      (omega arith) refl refl refl refl
