-- ===== src/Tests/Owners.antt =====
-- Runs of a game server and of a matchmaking server.
use simple_web_game_server.Prelude.{
  ℕ, ◌≡◌, refl, true, false, ◌+◌, ◌-◌, is_some, String, some, List, [], ◌∷◌, ◌++◌, All, arith, ltb,
  ℕ_discrete,
}
use simple_web_game_server.Prelude.Assoc.{Assoc, lookup, erase}
use simple_web_game_server.Prelude.Assoc.Size.{Distinct}
use simple_web_game_server.Prelude.NatSet.{contains}
use simple_web_game_server.BufferedMap
use simple_web_game_server.Locks.{Readings}
use simple_web_game_server.Locks.Expiry.{moment}
use simple_web_game_server.Base.{Server, init}
use simple_web_game_server.Base.Completion.{client}
use simple_web_game_server.Base.Lifecycle.{live}
use simple_web_game_server.Game
use simple_web_game_server.Game.{GameApi, GameServer}
use simple_web_game_server.Game.Loop.{messages_at, time_step}
use simple_web_game_server.Game.Tables.{IsSound}
use simple_web_game_server.Game.Progress.{Gone, done_sessions, time_step-IsSound}
use simple_web_game_server.Matchmaking
use simple_web_game_server.Matchmaking.{MatchApi, MatchServer, MatchedGame, connected, disconnected}
use simple_web_game_server.Matchmaking.Loop.{time_step as match_step, forget_sessions, send_players}
use simple_web_game_server.Matchmaking.Tables.{IsSound as IsMatchSound}
use simple_web_game_server.Matchmaking.Updates.{process_connection_updates}
use simple_web_game_server.Matchmaking.Progress.{matched_sessions, games_of, matchmaking_step}
use simple_web_game_server.Matchmaking.Cancelled.{given_up, taking_part}
use simple_web_game_server.Matchmaking.Faults.{cancelled_is_matchable}
use simple_web_game_server.Matchmaking.Broadcast.{hdls_of, hand_down, broadcast_hands_down}
use simple_web_game_server.Tests.{env, bearer, login_events}

abbrev pub ticking : ℕ → Readings
ticking n = moment n

-- A game is a number that counts down its time; it is over at 0.
abbrev pub countdown : GameApi ℕ ℕ
countdown = record {
  make = λ j. j;
  is_valid = λ g. ltb 0 g;
  is_done = λ g. ltb g 1;
  get_state = λ g. g;
  connect = λ out pid g. (g, out ++ (pid, "hello") ∷ []);
  disconnect = λ out pid g. (g, out);
  advance = λ out ins delta g. (g - delta, out);
}

abbrev game_inbox : Game.Inbox ℕ
game_inbox = record { updates = Game.connected bearer 59 ∷ []; messages = [] }

-- one game is over and waits to be erased
abbrev games_server : GameServer ℕ ℕ
games_server = record {
  games = (3, 0) ∷ (6, 20) ∷ [];
  game_count = 2;
  in_messages = [];
  connection_updates = [];
  out_messages = (3, []) ∷ (6, []) ∷ [];
  finished_games = 3 ∷ [];
  time_start = 0;
  readings = 0;
  base = live env login_events (init 1000 game_inbox);
}

abbrev waiting_games : Assoc ℕ ℕ
waiting_games = (3, 0) ∷ (6, 20) ∷ []

abbrev waiting_messages : Assoc ℕ (List Game.Message)
waiting_messages = (3, []) ∷ (6, []) ∷ []

games-paired :
    (sid : ℕ)
    → is_some (lookup ℕ_discrete sid waiting_games)
      ≡ is_some (lookup ℕ_discrete sid waiting_messages)
unfolding lookup
games-paired sid = ground arith

games-Distinct : Distinct ℕ_discrete waiting_games
unfolding lookup ℕ_discrete
games-Distinct = (refl, (refl, tt))

games_server-IsSound : IsSound games_server
unfolding lookup erase ℕ_discrete
games_server-IsSound = record {
  tables = record { paired = games-paired; distinct = games-Distinct; counted = refl };
  erasable = (refl, tt);
}

time_step-IsSound_example :
    (s' : GameServer ℕ ℕ) × (time_step env ticking countdown 5 100 games_server ≡ some s')
    × IsSound s'
    × (s'.finished_games ≡ done_sessions countdown s'.games)
    × ((sid : ℕ) → messages_at (lookup ℕ_discrete sid s'.out_messages) ≡ [])
    × All (Gone s'.games) (3 ∷ [])
time_step-IsSound_example =
    time_step-IsSound env ticking countdown 5 100 games_server games_server-IsSound

-- Any two sessions match, and the game has the first one's session.
abbrev pub pairing : MatchApi ℕ ℕ ℕ
pairing = record {
  make = λ j. j;
  is_valid = λ d. ltb 0 d;
  can_match = λ sessions m. (m, true);
  pair_up = λ sessions delta m. (
    m + delta,
    record { sessions = 9 ∷ 2 ∷ []; game_sid = 9; game_data = 1 } ∷ [],
    (9, "found") ∷ [],
  );
  cancel_data = λ m. 0;
}

abbrev match_inbox : Matchmaking.Inbox ℕ
match_inbox = record { updates = connected bearer 59 ∷ [] }

abbrev match_server : MatchServer ℕ ℕ ℕ
match_server = record {
  matchmaker = 0;
  session_data = (2, 30) ∷ [];
  session_players = (2, 8 ∷ []) ∷ [];
  connection_updates = [];
  finished_first = [];
  finished_second = [];
  time_start = 0;
  is_waiting = false;
  readings = 0;
  base = live env login_events (init 1000 match_inbox);
}

-- a string that was moved from is empty
abbrev pub moved : String → String
moved msg = ""

match_server-IsSound : IsMatchSound match_server
unfolding lookup
match_server-IsSound sid = ground arith

-- A session that is there gives up, and is joined again.
abbrev changing_server : MatchServer ℕ ℕ ℕ
changing_server = record match_server {
  base = record match_server.base {
    app = record { updates = disconnected (client 8 2) ∷ connected (client 9 2) 31 ∷ [] };
  };
}

changing_gives_up :
    given_up pairing changing_server.base.app.updates (taking_part changing_server) ≡ 2 ∷ []
unfolding lookup ℕ_discrete
changing_gives_up = refl

matchmaking_step_example :
    (s1 : MatchServer ℕ ℕ ℕ) × (s' : MatchServer ℕ ℕ ℕ) × (process_connection_updates env ticking
        pairing
        (record changing_server { time_start = 100 })
      ≡ some s1)
    × (match_step env ticking pairing moved 5 100 changing_server ≡ some s')
    × IsMatchSound s'
    × (s'.finished_first
        ≡ changing_server.finished_second
          ++ given_up pairing changing_server.base.app.updates (taking_part changing_server)
          ++ matched_sessions (games_of env ticking pairing moved 5 s1))
    × (s'.finished_second ≡ [])
matchmaking_step_example =
    matchmaking_step env ticking pairing moved 5 100 changing_server match_server-IsSound

session_2 : lookup ℕ_discrete 2 changing_server.session_data ≡ some 30
unfolding lookup ℕ_discrete
session_2 = refl

no_session : contains 2 [] ≡ false
unfolding contains
no_session = refl

cancelled_is_matchable_example :
    (s1 : MatchServer ℕ ℕ ℕ) × (process_connection_updates env ticking pairing changing_server
      ≡ some s1)
    × (BufferedMap.contains s1.base.locks.locked 2 ≡ true)
    × (s1.finished_second ≡ 2 ∷ [])
    × (lookup ℕ_discrete 2 (forget_sessions s1.finished_first s1).session_data ≡ some 31)
cancelled_is_matchable_example =
    cancelled_is_matchable env ticking pairing 2 8 9 31 30 changing_server session_2 refl refl
      no_session

-- A second client, the player 6, is in the session 9 with the handle 7.
abbrev two_clients : Server ℕ (Matchmaking.Inbox ℕ)
two_clients = record match_server.base { id_connections = (client 5 9, 4) ∷ (client 6 9, 7) ∷ [] }

broadcast_hands_down_example :
    send_players moved 9 (5 ∷ 6 ∷ []) "found" two_clients ≡ record two_clients {
      actions =
          two_clients.actions
          ++ hand_down moved "found" (hdls_of 9 two_clients.id_connections (5 ∷ 6 ∷ []));
    }
broadcast_hands_down_example = broadcast_hands_down moved 9 (5 ∷ 6 ∷ []) "found" two_clients
