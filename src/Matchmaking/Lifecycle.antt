-- ===== src/Matchmaking/Lifecycle.antt =====
-- The constructors, the setters and getters, `run`, `stop` and `reset` of include/simple_web_game_server/matchmaking_server.hpp.
use simple_web_game_server.Prelude.{ℕ, Bool, false, []}
use simple_web_game_server.Base
use simple_web_game_server.Base.Lifecycle
use simple_web_game_server.Base.{Env, Server, Result, ok, ◌>>=◌}
use simple_web_game_server.Base.Login.{Times}
use simple_web_game_server.Base.Worker.{work}
use simple_web_game_server.Base.Lifecycle.{set_open, set_close, set_message, after}
use simple_web_game_server.Matchmaking.{
  Inbox, MatchServer, player_connect, player_disconnect, process_message,
}

abbrev pub empty_inbox : {J : Type 0} → Inbox J
empty_inbox = record { updates = [] }

module _ {J : Type 0} where
  -- the base server with the three handlers set, as the constructor does it
  unfoldable pub connect_handlers : ℕ → Result (Server J (Inbox J))
  unfolding Base.init set_open set_close set_message
  connect_handlers release_time = do
    s1 ← set_open player_connect (Base.init release_time empty_inbox)
    s2 ← set_close player_disconnect s1
    set_message process_message s2

module _ {J D M : Type 0} where
  unfoldable pub init : M → ℕ → Result (MatchServer J D M)
  unfolding connect_handlers
  init matchmaker release_time = do
    base ← connect_handlers release_time
    ok (record {
      matchmaker = matchmaker;
      session_data = [];
      session_players = [];
      connection_updates = [];
      finished_first = [];
      finished_second = [];
      time_start = 0;
      is_waiting = false;
      readings = 0;
      base = base;
    })

  -- the locals of `match_players`, when it is called
  unfoldable pub enter_match_players : ℕ → MatchServer J D M → MatchServer J D M
  enter_match_players now s = record s {
    time_start = now;
    is_waiting = false;
    finished_first = [];
    finished_second = [];
  }

  -- the constructor without a time: 3600 seconds
  unfoldable pub init_default : M → Result (MatchServer J D M)
  unfolding init
  init_default matchmaker = init matchmaker 3600000

  -- The two setters that the owner of the server has; they pass on what the base server throws.
  unfoldable pub set_http_handler :
      (ℕ → Inbox J → Inbox J) → MatchServer J D M → Result (MatchServer J D M)
  unfolding Lifecycle.set_http
  set_http_handler f s = do base ← Lifecycle.set_http f s.base; ok (record s { base = base })

  unfoldable pub set_tls_init_handler : MatchServer J D M → Result (MatchServer J D M)
  unfolding Lifecycle.set_tls_init
  set_tls_init_handler s = do base ← Lifecycle.set_tls_init s.base; ok (record s { base = base })

  unfoldable pub get_player_count : MatchServer J D M → ℕ
  unfolding Lifecycle.get_player_count
  get_player_count s = Lifecycle.get_player_count s.base

  unfoldable pub is_running : MatchServer J D M → Bool
  unfolding Lifecycle.is_running
  is_running s = Lifecycle.is_running s.base

  unfoldable pub run : ℕ → Bool → MatchServer J D M → MatchServer J D M
  unfolding Lifecycle.run
  run port unlock_address s = record s { base = Lifecycle.run port unlock_address s.base }

module _ {J Jwt D M : Type 0} (env : Env J Jwt) where
  -- `stop` of the base server throws on a stopped server, before anything is cleared
  unfoldable pub stop : MatchServer J D M → Result (MatchServer J D M)
  unfolding Lifecycle.stop
  stop s = do
    base ← Lifecycle.stop env s.base
    ok (record s {
      session_data = [];
      session_players = [];
      connection_updates = [];
      base = record base { app = empty_inbox };
    })

  unfoldable pub reset : MatchServer J D M → Result (MatchServer J D M)
  unfolding stop Lifecycle.reset
  reset s = do s' ← stop s; base ← Lifecycle.reset env s'.base; ok (record s' { base = base })

  -- one round of the loop of the base server
  unfoldable pub process_messages : Times → MatchServer J D M → MatchServer J D M
  unfolding work
  process_messages t s = record s { base = work env t s.base }
