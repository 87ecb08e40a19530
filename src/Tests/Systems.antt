-- ===== src/Tests/Systems.antt =====
-- Runs of a whole game server and of a whole matchmaking server, from their constructors on.
use simple_web_game_server.Prelude.{ℕ, ◌≡◌, refl, true, none, some, []}
use simple_web_game_server.Base
use simple_web_game_server.Base.{ok}
use simple_web_game_server.Base.Invariant.{IsValid}
use simple_web_game_server.Base.Lifecycle.{after, set_open, set_close, set_message}
use simple_web_game_server.Base.Worker.{Input, opened, received, works, step}
use simple_web_game_server.BufferedMap
use simple_web_game_server.Game.{GameServer}
use simple_web_game_server.Game.Lifecycle.{
  connect_handlers, init, enter_update_games, run, empty_inbox, get_player_count, get_game_count,
}
use simple_web_game_server.Prelude.{is_some, false, ℕ_discrete, length, ◌%◌}
use simple_web_game_server.Locks.Expiry.{moment}
use simple_web_game_server.Base.Login.{read_token, valid, open_session}
use simple_web_game_server.Tests.{bearer}
use simple_web_game_server.Game.Owner.{IsOwn, in_charge, admitted_plays}
use simple_web_game_server.Base.Link.{size_mod}
use simple_web_game_server.Game.Updates.{process_connection_updates}
use simple_web_game_server.Game.Loop.{update_games}
use simple_web_game_server.Game.System.{Reachable, new, acts, starts, begins, rounds_go_on}
use simple_web_game_server.Game.Tables.{IsPaired}
use simple_web_game_server.Locks.{update_session_locks}
use simple_web_game_server.Matchmaking.{MatchServer}
use simple_web_game_server.Matchmaking.Lifecycle
use simple_web_game_server.Matchmaking.Loop.{match_players}
use simple_web_game_server.Matchmaking.System
use simple_web_game_server.Matchmaking.Tables.{IsSound}
use simple_web_game_server.Prelude.Assoc.{lookup}
use simple_web_game_server.Tests.{env, at_start}
use simple_web_game_server.Tests.Owners.{ticking, countdown, pairing, moved}

abbrev pub new_server : {G : Type 0} → GameServer ℕ G
new_server = record {
  games = [];
  game_count = 0;
  in_messages = [];
  connection_updates = [];
  out_messages = [];
  finished_games = [];
  time_start = 0;
  readings = 0;
  base = after (Base.init 1000 empty_inbox) (connect_handlers 1000);
}

pub new_server-made : {G : Type 0} → init {G = G} 1000 ≡ ok new_server
unfolding init connect_handlers set_open set_close set_message Base.init
new_server-made = refl

abbrev looping : GameServer ℕ ℕ
looping = enter_update_games 0 (run 80 true new_server)

abbrev given : Input ℕ → GameServer ℕ ℕ → GameServer ℕ ℕ
given i s = record s { base = step env i s.base }

-- a client has connected, and has logged in
abbrev joined : GameServer ℕ ℕ
joined =
    given (works at_start)
      (given (works at_start) (given (received 4 "token") (given (opened 4) looping)))

joined-Reachable : Reachable env ticking countdown true joined
joined-Reachable = acts (works at_start) (
    acts (works at_start) (
      acts (received 4 "token")
        (acts (opened 4) (begins 0 (starts 80 true (new 1000 new_server new_server-made))))))

joined-is_running : joined.base.is_running ≡ true
unfolding connect_handlers set_open set_close set_message Base.init step run enter_update_games
    lookup BufferedMap.contains update_session_locks
joined-is_running = refl

rounds_go_on_example :
    (s' : GameServer ℕ ℕ) × (update_games env ticking countdown 10 50 none 51 joined ≡ some s')
    × Reachable env ticking countdown true s'
rounds_go_on_example =
    rounds_go_on env ticking countdown 10 50 none 51 joined-Reachable joined-is_running

abbrev new_matching : MatchServer ℕ ℕ ℕ
new_matching = record {
  matchmaker = 0;
  session_data = [];
  session_players = [];
  connection_updates = [];
  finished_first = [];
  finished_second = [];
  time_start = 0;
  is_waiting = false;
  readings = 0;
  base = after (Base.init 1000 Lifecycle.empty_inbox) (Lifecycle.connect_handlers 1000);
}

new_matching-made : Lifecycle.init 0 1000 ≡ ok new_matching
unfolding Lifecycle.init Lifecycle.connect_handlers set_open set_close set_message Base.init
new_matching-made = refl

-- a client has connected
abbrev matching : MatchServer ℕ ℕ ℕ
matching =
    let s = Lifecycle.enter_match_players 0 (Lifecycle.run 80 true new_matching) in
    record s { base = step env (opened 4) s.base }

matching-Reachable : System.Reachable env ticking pairing moved matching
matching-Reachable =
    System.acts (opened 4)
      (System.begins 0 (System.starts 80 true (System.new 0 1000 new_matching new_matching-made)))

matching_goes_on_example :
    IsValid matching.base
    × IsSound matching
    × (s' : MatchServer ℕ ℕ ℕ) × (match_players env ticking pairing moved 10 50 51 matching
        ≡ some s')
    × System.Reachable env ticking pairing moved s'
matching_goes_on_example =
    System.matching_goes_on env ticking pairing moved 10 50 51 matching-Reachable

looping-Reachable : Reachable env ticking countdown true looping
looping-Reachable = begins 0 (starts 80 true (new 1000 new_server new_server-made))

looping-is_running : looping.base.is_running ≡ true
unfolding enter_update_games run connect_handlers set_open set_close set_message Base.init
looping-is_running = refl

token-read : read_token env 7 "token" ≡ valid (bearer, 59)
unfolding read_token
token-read = refl

looping-free :
    BufferedMap.contains (update_session_locks (moment 0) looping.base.locks).locked 9 ≡ false
unfolding enter_update_games run connect_handlers set_open set_close set_message Base.init
    BufferedMap.contains update_session_locks lookup
looping-free = refl

admitted_plays_example :
    let s1 : GameServer ℕ ℕ = record looping {
      base = open_session env at_start 4 "token" looping.base;
    } in
    (s' : GameServer ℕ ℕ) × (process_connection_updates env ticking countdown s1 ≡ some s')
    × (is_some (lookup ℕ_discrete 9 s'.games) ≡ true)
admitted_plays_example =
    admitted_plays env ticking countdown at_start 4 "token" bearer 59 looping-Reachable
      looping-is_running token-read looping-free refl

in_charge_example :
    IsOwn joined.base.handlers
    × IsValid joined.base
    × IsPaired joined.games joined.out_messages joined.game_count
    × (get_player_count joined ≡ length joined.base.id_connections % size_mod)
    × (get_game_count joined ≡ length joined.games % size_mod)
in_charge_example = in_charge env ticking countdown joined-Reachable
