-- ===== src/Tests/Handover.antt =====
-- A player of examples/tic_tac_toe from the matchmaking server to the game server.
use mathlib.Core.List.{Mem}
use simple_web_game_server.Prelude.{
  ℕ, ◌≡◌, refl, true, false, some, [], ◌∷◌, arith, is_some, ℕ_discrete,
}
use simple_web_game_server.Prelude.Assoc.{lookup, emplace}
use simple_web_game_server.Prelude.Int.{pos}
use simple_web_game_server.Prelude.NatSet.{contains}
use simple_web_game_server.BufferedMap
use simple_web_game_server.Locks.{update_session_locks}
use simple_web_game_server.Base
use simple_web_game_server.Prelude.{length, ◌≤◌, ap, sym, ◌∙◌, Option}
use simple_web_game_server.Prelude.Assoc.{value_or, update}
use simple_web_game_server.Prelude.NatSet
use simple_web_game_server.Base.Sessions.{close_players, close_player}
use simple_web_game_server.Base.{
  send, close, CombinedId, Action, close_connection, id_discrete, Server, init,
}
use simple_web_game_server.Base.Invariant.{live-init-IsValid}
use simple_web_game_server.Base.Lifecycle.{live, set_open, set_close, set_message}
use simple_web_game_server.Base.Login.{open_session}
use simple_web_game_server.Base.Waiting.{IsWaiting}
use simple_web_game_server.Base.Worker.{step, works, run_inputs}
use simple_web_game_server.Base.Completion.{client}
use simple_web_game_server.Game.{GameServer, player_connect}
use simple_web_game_server.Game.Lifecycle.{connect_handlers}
use simple_web_game_server.Game.Tables.{IsSound}
use simple_web_game_server.Game.Updates as GameUpdates
use simple_web_game_server.Matchmaking.{Inbox, MatchServer}
use simple_web_game_server.Matchmaking.Handover.{first_game, matched_hears, matched_sent}
use simple_web_game_server.Matchmaking.Loop.{forget_sessions, time_step}
use simple_web_game_server.Matchmaking.Updates.{process_connection_updates}
use simple_web_game_server.TicTacToe.Game.{Game, tic_tac_toe}
use simple_web_game_server.TicTacToe.Matchmaker.{Json, Rated, pair_up, pair, tic_tac_toe_matchmaker}
use simple_web_game_server.TicTacToe.Service.Handover.{matched_plays}
use simple_web_game_server.TicTacToe.Service.Startup.{matchmaking_env, game_env}
use simple_web_game_server.Tests.{at_start, login_events}
use simple_web_game_server.Tests.Owners.{ticking, moved}
use simple_web_game_server.Tests.Players.{json, ratings}
use simple_web_game_server.Tests.Systems.{new_server}
use simple_web_game_server.Tests.Requests.{tokens, parse_session_id, plain_results, match-IsSigned}

abbrev match_json : Json ℕ
match_json = record ratings { matched = λ b. 3 }

-- The player 0 is connected in the session 3, and the session 4 is there too.
abbrev average : Rated
average = record { rating = pos 1500; valid = true }

abbrev inbox : Inbox ℕ
inbox = record { updates = [] }

abbrev before_match : MatchServer ℕ Rated ℕ
before_match = record {
  matchmaker = 0;
  session_data = (3, average) ∷ (4, average) ∷ [];
  session_players = (3, 0 ∷ []) ∷ (4, 1 ∷ []) ∷ [];
  connection_updates = [];
  finished_first = [];
  finished_second = [];
  time_start = 6000;
  is_waiting = false;
  readings = 0;
  base = live (matchmaking_env tokens parse_session_id 0) login_events (init 1000 inbox);
}

abbrev update_result : MatchServer ℕ Rated ℕ
update_result = record before_match { base = record before_match.base { app = inbox } }

updated :
    process_connection_updates
      (matchmaking_env tokens parse_session_id 0)
      ticking
      (tic_tac_toe_matchmaker match_json)
      before_match
    ≡ some update_result
unfolding process_connection_updates live init step lookup BufferedMap.contains update_session_locks
    emplace
updated = refl

base-IsWaiting : IsWaiting 0 3 4 update_result.base
unfolding live init step lookup BufferedMap.contains update_session_locks emplace id_discrete
base-IsWaiting = record {
  links = live-init-IsValid (matchmaking_env tokens parse_session_id 0) login_events 1000 inbox;
  not_over = refl;
  there = refl;
}

paired :
    let s2 = forget_sessions update_result.finished_first update_result in
    first_game 3 (pair_up match_json s2.session_data 6000 s2.matchmaker).1
    ≡ some (pair match_json 3 4)
unfolding first_game pair_up forget_sessions contains
paired = refl

abbrev game_server : GameServer ℕ (Game ℕ)
game_server = new_server

game_server-IsSound : IsSound game_server
unfolding lookup
game_server-IsSound = record {
  tables = record { paired = λ sid. refl; distinct = tt; counted = refl };
  erasable = tt;
}

game_server-handler : game_server.base.handlers.handle_open ≡ player_connect
unfolding connect_handlers set_open set_close set_message Base.init
game_server-handler = refl

game_server-free :
    BufferedMap.contains (update_session_locks at_start.locks game_server.base.locks).locked 3
    ≡ false
unfolding connect_handlers set_open set_close set_message Base.init BufferedMap.contains
    update_session_locks lookup
game_server-free = refl

matched_plays_example :
    let env = matchmaking_env tokens parse_session_id 0 in
    let game_side = game_env tokens parse_session_id plain_results 0 in
    (s' : MatchServer ℕ Rated ℕ) × (time_step env ticking
        (tic_tac_toe_matchmaker match_json)
        moved
        6000
        6000
        before_match
      ≡ some s')
    × (a : Action) × Mem a s'.base.actions
    × (a.type ≡ close_connection)
    × (a.hdl ≡ 4)
    × (gs' : GameServer ℕ (Game ℕ)) × (GameUpdates.process_connection_updates game_side ticking
          (tic_tac_toe json 0)
          (record game_server { base = open_session game_side at_start 8 a.msg game_server.base })
        ≡ some gs')
    × (is_some (lookup ℕ_discrete 3 gs'.games) ≡ true)
matched_plays_example =
    matched_plays tokens parse_session_id match_json json plain_results ticking ticking moved 0 0 0
      0 3 4 6000 6000 before_match update_result (pair match_json 3 4) updated base-IsWaiting paired
      match-IsSigned refl at_start 8 game_server game_server-IsSound game_server-handler
      game_server-free (omega arith)

abbrev step_result : Option (MatchServer ℕ Rated ℕ)
step_result =
    time_step (matchmaking_env tokens parse_session_id 0) ticking
      (tic_tac_toe_matchmaker match_json) moved 6000 6000 before_match

abbrev after_match : MatchServer ℕ Rated ℕ
after_match = value_or ℕ_discrete step_result before_match

stepped : step_result ≡ some after_match
stepped =
    let (s', e, _) =
      matched_hears (matchmaking_env tokens parse_session_id 0) ticking
        (tic_tac_toe_matchmaker match_json) moved 0 3 4 6000 6000 before_match update_result
        (pair match_json 3 4) updated base-IsWaiting paired in
    e ∙ ap some (sym (ap (λ o. value_or ℕ_discrete o before_match) e))

after_match-is_running : after_match.base.is_running ≡ true
unfolding time_step live init step lookup BufferedMap.contains BufferedMap.insert
    update_session_locks emplace id_discrete pair_up contains NatSet.insert close_players
    close_player update
after_match-is_running = refl

after_match-actions : length after_match.base.actions ≤ 1
unfolding time_step live init step lookup BufferedMap.contains BufferedMap.insert
    update_session_locks emplace id_discrete pair_up contains NatSet.insert close_players
    close_player update
after_match-actions = omega arith

matched_sent_example :
    let env = matchmaking_env tokens parse_session_id 0 in
    let text = env.get_result_str (client 0 3) 3 in
    let calls = (run_inputs env (works at_start ∷ []) after_match.base).calls in
    Mem (send 4 text) calls × Mem (close 4 env.reasons.session_complete) calls
matched_sent_example =
    matched_sent (matchmaking_env tokens parse_session_id 0) ticking
      (tic_tac_toe_matchmaker match_json) moved 0 3 4 6000 6000 before_match update_result
      after_match (pair match_json 3 4) (works at_start ∷ []) updated base-IsWaiting paired stepped
      after_match-is_running after_match-actions
