-- ===== src/Tests.antt =====
-- Inputs for the tests: an environment whose tokens are numbers, histories of a server, and states
-- of the two servers that own one.
mod Archive
mod Servers
mod Owners
mod Players
mod Systems
mod Requests
mod Templates
mod Handover
mod Startup
mod Results
use simple_web_game_server.Prelude.{
  ℕ, ◌+◌, ◌/◌, ◌%◌, Bool, true, false, String, some, List, [], ◌∷◌, ltb,
}
use simple_web_game_server.Prelude.Assoc.{Assoc}
use simple_web_game_server.BufferedMap
use simple_web_game_server.Locks.{Locks}
use simple_web_game_server.Locks.Expiry.{moment}
use simple_web_game_server.Base.{CombinedId, Env, Server, init, default_close_reasons}
use simple_web_game_server.Base.Login.{Times}
use simple_web_game_server.Base.Worker.{Input, opened, received, works}
use simple_web_game_server.Base.Lifecycle.{Event, acts, starts, live}

-- A token is a number of two digits, the player and the session, and is good until the time 100.
abbrev pub env : Env ℕ ℕ
env = record {
  decode = λ token. some 59;
  verify = λ jwt_now jwt. ltb jwt_now 100;
  claim = λ jwt name. some jwt;
  parse_player_id = λ j. some (j / 10);
  parse_session_id = λ j. some (j % 10);
  get_result_str = λ id j. "result";
  reasons = default_close_reasons;
}

abbrev pub bearer : CombinedId
bearer = record { player = 5; session = 9 }

abbrev pub at_start : Times
at_start = record { locks = moment 0; jwt_now = 7 }

-- A client connects with the handle 4 and logs in.
abbrev pub login_events : List (Event ℕ)
login_events =
    starts 80 true
    ∷ acts (opened 4)
    ∷ acts (received 4 "token")
    ∷ acts (works at_start)
    ∷ acts (works at_start)
    ∷ []

-- what the owner of the server keeps
abbrev pub owned : ℕ
owned = 0
