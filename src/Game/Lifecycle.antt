-- ===== src/Game/Lifecycle.antt =====
-- The constructors, the setters and getters, `run`, `stop` and `reset` of include/simple_web_game_server/game_server.hpp.
use simple_web_game_server.Prelude.{ℕ, Bool, []}
use simple_web_game_server.Base
use simple_web_game_server.Base.Lifecycle
use simple_web_game_server.Base.{Env, Server, Result, ok, ◌>>=◌}
use simple_web_game_server.Base.Login.{Times}
use simple_web_game_server.Base.Worker.{work}
use simple_web_game_server.Base.Lifecycle.{set_open, set_close, set_message, after}
use simple_web_game_server.Game.{
  Inbox, GameServer, player_connect, player_disconnect, process_message,
}

abbrev pub empty_inbox : {J : Type 0} → Inbox J
empty_inbox = record { updates = []; messages = [] }

module _ {J : Type 0} where
  -- the base server with the three handlers set, as the constructor does it
  unfoldable pub connect_handlers : ℕ → Result (Server J (Inbox J))
  unfolding Base.init set_open set_close set_message
  connect_handlers release_time = do
    s1 ← set_open player_connect (Base.init release_time empty_inbox)
    s2 ← set_close player_disconnect s1
    set_message process_message s2

module _ {J G : Type 0} where
  unfoldable pub init : ℕ → Result (GameServer J G)
  unfolding connect_handlers
  init release_time = do
    base ← connect_handlers release_time
    ok (record {
      games = [];
      game_count = 0;
      in_messages = [];
      connection_updates = [];
      out_messages = [];
      finished_games = [];
      time_start = 0;
      readings = 0;
      base = base;
    })

  -- the locals of `update_games`, when it is called
  unfoldable pub enter_update_games : ℕ → GameServer J G → GameServer J G
  enter_update_games now s = record s { time_start = now; finished_games = [] }

  -- the constructor without a time: 3600 seconds
  unfoldable pub init_default : Result (GameServer J G)
  unfolding init
  init_default = init 3600000

  -- The two setters that the owner of the server has; they pass on what the base server throws. (The
  -- owner's function has no access to the inbox in the code: any function is more than enough.)
  unfoldable pub set_http_handler :
      (ℕ → Inbox J → Inbox J) → GameServer J G → Result (GameServer J G)
  unfolding Lifecycle.set_http
  set_http_handler f s = do base ← Lifecycle.set_http f s.base; ok (record s { base = base })

  unfoldable pub set_tls_init_handler : GameServer J G → Result (GameServer J G)
  unfolding Lifecycle.set_tls_init
  set_tls_init_handler s = do base ← Lifecycle.set_tls_init s.base; ok (record s { base = base })

  unfoldable pub get_player_count : GameServer J G → ℕ
  unfolding Lifecycle.get_player_count
  get_player_count s = Lifecycle.get_player_count s.base

  unfoldable pub get_game_count : GameServer J G → ℕ
  get_game_count s = s.game_count

  unfoldable pub is_running : GameServer J G → Bool
  unfolding Lifecycle.is_running
  is_running s = Lifecycle.is_running s.base

  unfoldable pub run : ℕ → Bool → GameServer J G → GameServer J G
  unfolding Lifecycle.run
  run port unlock_address s = record s { base = Lifecycle.run port unlock_address s.base }

module _ {J Jwt G : Type 0} (env : Env J Jwt) where
  -- `stop` of the base server throws on a stopped server, before anything is cleared
  unfoldable pub stop : GameServer J G → Result (GameServer J G)
  unfolding Lifecycle.stop
  stop s = do
    base ← Lifecycle.stop env s.base
    ok (record s {
      games = [];
      out_messages = [];
      connection_updates = [];
      in_messages = [];
      game_count = 0;
      base = record base { app = empty_inbox };
    })

  unfoldable pub reset : GameServer J G → Result (GameServer J G)
  unfolding stop Lifecycle.reset
  reset s = do s' ← stop s; base ← Lifecycle.reset env s'.base; ok (record s' { base = base })

  -- one round of the loop of the base server
  unfoldable pub process_messages : Times → GameServer J G → GameServer J G
  unfolding work
  process_messages t s = record s { base = work env t s.base }
