-- ===== src/Tests/Startup.antt =====
-- The servers of examples/minimal_template at concrete inputs.
use text.Mathlib.Text.{◌==◌}
use mathlib.Core.List.{Mem}
use simple_web_game_server.Prelude.{
  ℕ, ◌/◌, ◌%◌, ◌≡◌, refl, true, false, some, List, [], ◌∷◌, is_some, if◌then◌else◌, ℕ_discrete,
}
use simple_web_game_server.Prelude.Assoc.{lookup, emplace}
use simple_web_game_server.BufferedMap
use simple_web_game_server.Locks.{update_session_locks}
use simple_web_game_server.Base
use simple_web_game_server.Base.{Action, ok, close_connection, id_discrete, init}
use simple_web_game_server.Base.Completion.{client}
use simple_web_game_server.Base.Invariant.{live-init-IsValid}
use simple_web_game_server.Base.Lifecycle.{live, set_open, set_close, set_message}
use simple_web_game_server.Base.Login.{open_session}
use simple_web_game_server.Base.Waiting.{IsWaiting}
use simple_web_game_server.Base.Worker.{step}
use simple_web_game_server.Game.{GameServer}
use simple_web_game_server.Game.Lifecycle.{connect_handlers, run, enter_update_games}
use simple_web_game_server.Game.System.{Reachable, new, starts, begins}
use simple_web_game_server.Game.Updates as GameUpdates
use simple_web_game_server.Matchmaking.{Inbox, MatchedGame, MatchServer}
use simple_web_game_server.Matchmaking.Handover.{first_game}
use simple_web_game_server.Matchmaking.Loop.{forget_sessions, time_step}
use simple_web_game_server.Matchmaking.Updates.{process_connection_updates}
use simple_web_game_server.Minimal.{minimal_game, minimal_matchmaker, pair_sessions}
use simple_web_game_server.Minimal.Handover.{IsSigned, minimal_plays}
use simple_web_game_server.Minimal.Services.{Tokens, matchmaking_env, game_env}
use simple_web_game_server.Prelude.NatSet.{contains}
use simple_web_game_server.Tests.{at_start, login_events}
use simple_web_game_server.Tests.Owners.{ticking, moved}
use simple_web_game_server.Tests.Systems.{new_server, new_server-made}
use simple_web_game_server.Tests.Templates.{plain_json}

-- every token is that of the player 0 in the session 3
abbrev tokens : Tokens ℕ ℕ
tokens = record {
  decode = λ token. some 3;
  verify = λ v t jwt. true;
  payload_claim = λ jwt name. some (if name == "data" then 1 else jwt);
  sign = λ key c. "token";
  parse_player_id = λ j. some (j / 10);
  parse_session_id = λ j. some (j % 10);
  token_message = λ token. token;
}

token-IsSigned : IsSigned tokens "matchmaking_server" (client 0 3) 1
token-IsSigned = record {
  jwt = 3;
  decoded = refl;
  accepted = λ v t k i. refl;
  pid_json = 3;
  pid_claim = refl;
  pid_read = refl;
  sid_json = 3;
  sid_claim = refl;
  sid_read = refl;
  data_claim = refl;
}

abbrev inbox : Inbox ℕ
inbox = record { updates = [] }

-- the player is connected, and the session 4 is there too
abbrev before_match : MatchServer ℕ (Unit {0}) ℕ
before_match = record {
  matchmaker = 3;
  session_data = (3, tt) ∷ (4, tt) ∷ [];
  session_players = (3, 0 ∷ []) ∷ (4, 1 ∷ []) ∷ [];
  connection_updates = [];
  finished_first = [];
  finished_second = [];
  time_start = 20;
  is_waiting = false;
  readings = 0;
  base = live (matchmaking_env tokens) login_events (init 1000 inbox);
}

abbrev update_result : MatchServer ℕ (Unit {0}) ℕ
update_result = record before_match { base = record before_match.base { app = inbox } }

updated :
    process_connection_updates
      (matchmaking_env tokens)
      ticking
      (minimal_matchmaker plain_json)
      before_match
    ≡ some update_result
unfolding process_connection_updates live init step lookup BufferedMap.contains update_session_locks
    emplace
updated = refl

base-IsWaiting : IsWaiting 0 3 4 update_result.base
unfolding live init step lookup BufferedMap.contains update_session_locks emplace id_discrete
base-IsWaiting = record {
  links = live-init-IsValid (matchmaking_env tokens) login_events 1000 inbox;
  not_over = refl;
  there = refl;
}

abbrev found : MatchedGame ℕ
found = record { sessions = 3 ∷ 4 ∷ []; game_sid = 3; game_data = 1 }

paired :
    let s2 = forget_sessions update_result.finished_first update_result in
    first_game 3 ((minimal_matchmaker plain_json).pair_up s2.session_data 10 s2.matchmaker).1
    ≡ some found
unfolding first_game pair_sessions forget_sessions contains
paired = refl

abbrev looping : GameServer ℕ (List ℕ)
looping = enter_update_games 0 (run 9090 true new_server)

looping-Reachable : Reachable (game_env tokens) ticking (minimal_game plain_json) true looping
looping-Reachable = begins 0 (starts 9090 true (new 1000 new_server new_server-made))

looping-is_running : looping.base.is_running ≡ true
unfolding enter_update_games run connect_handlers set_open set_close set_message Base.init
looping-is_running = refl

looping-free :
    BufferedMap.contains (update_session_locks at_start.locks looping.base.locks).locked 3 ≡ false
unfolding enter_update_games run connect_handlers set_open set_close set_message Base.init
    BufferedMap.contains update_session_locks lookup
looping-free = refl

minimal_plays_example :
    (s' : MatchServer ℕ (Unit {0}) ℕ) × (time_step
        (matchmaking_env tokens)
        ticking
        (minimal_matchmaker plain_json)
        moved
        10
        20
        before_match
      ≡ some s')
    × (a : Action) × Mem a s'.base.actions
    × (a.type ≡ close_connection)
    × (a.hdl ≡ 4)
    × (gs' : GameServer ℕ (List ℕ)) × (GameUpdates.process_connection_updates
          (game_env tokens)
          ticking
          (minimal_game plain_json)
          (record looping { base = open_session (game_env tokens) at_start 8 a.msg looping.base })
        ≡ some gs')
    × (is_some (lookup ℕ_discrete 3 gs'.games) ≡ true)
minimal_plays_example =
    minimal_plays tokens plain_json ticking ticking moved (λ token. token) 0 3 4 10 20 before_match
      update_result found at_start 8 looping (λ token. refl) updated base-IsWaiting paired
      token-IsSigned looping-Reachable looping-is_running looping-free
