-- ===== src/Tests/Requests.antt =====
-- Requests to the service of examples/tic_tac_toe/matchmaking_server/matchmaking_server.cpp.
use text.Mathlib.Text.{◌==◌}
use simple_web_game_server.Prelude.{
  ℕ, ◌+◌, ◌*◌, ◌/◌, ◌%◌, ◌≤◌, ◌≡◌, ◌⊎◌, refl, true, false, String, Option, none, some, List, [],
  All, ◌∷◌, arith, ltb, if◌then◌else◌, get_elem?,
}
use simple_web_game_server.Prelude.Int.{pos, ◌+ℤ◌}
use simple_web_game_server.Base.{CombinedId}
use simple_web_game_server.Base.Login.{read_token, valid}
use simple_web_game_server.TicTacToe.Service.{
  PlayerData, Service, Tokens, Doubles, Files, auth_verifier, mm_verifier, game_verifier, init,
  replied, plain, seconds,
}
use simple_web_game_server.TicTacToe.Service.Routes.{
  read_player, login, match_claims, start_matchmaking, set_matchmaking,
}
use simple_web_game_server.TicTacToe.Service.Submission.{submit}
use simple_web_game_server.TicTacToe.Service.Handler.{Request, login_route, route, take_route}
use simple_web_game_server.TicTacToe.Service.Startup.{ResultJson, session_claims, matchmaking_env}
use simple_web_game_server.TicTacToe.Service.Sessions.{IsRegistered, served, sessions_differ}
use simple_web_game_server.TicTacToe.Service.Authority.{Names, only_named}
use simple_web_game_server.TicTacToe.Service.Relogin.{Spares, login_again}
use simple_web_game_server.TicTacToe.Service.Signing.{IsSigned, login_roundtrip}
use simple_web_game_server.TicTacToe.Service.Ratings.{rate, counted_twice}
use simple_web_game_server.TicTacToe.Service.Refusal.{rejection, unverified, unproved}

-- A token is a number of two digits, the player and the session, and good for half an hour.
abbrev pub tokens : Tokens ℕ ℕ ℕ
tokens = record {
  decode = λ token. if token == "bad" then none else if token == "second" then some 14 else some 3;
  verify = λ v t jwt. ltb t (seconds 1800);
  payload_claim = λ jwt name. some (if name == "data" then 3 else jwt);
  sign = λ key c. "first";
  parse_player_id = λ j. some (j / 10);
  rating_json = λ elo. 3;
  players = λ j. some (0 ∷ 1 ∷ []);
  scores = λ j. some (1 ∷ 0 ∷ []);
  matched = λ j. some false;
}

abbrev pub parse_session_id : ℕ → Option ℕ
parse_session_id j = some (j % 10)

-- every player is expected to score nothing
abbrev pub naturals : Doubles ℕ
naturals = record {
  strength = λ elo. 1;
  add = λ a b. a + b;
  divide = λ a b. 0;
  gain = λ score expected. 32 * score;
  add_to_int = λ elo d. elo +ℤ pos d;
}

-- The paths are numbers in their order: public_html is 5, and the URI leads to 7, beside it.
abbrev disk : Files ℕ
disk = record {
  static_path = 5;
  index = 6;
  canonical = λ text. some 7;
  is_greater = λ a b. ltb b a;
  string = λ path. "server.key";
  content = λ path. some "private";
}

abbrev idle : PlayerData
idle = record { elo = pos 1500; matchmaking = false; sid = 0; exp_time = 0 }

abbrev pub waiting : ℕ → PlayerData
waiting sid = record { elo = pos 1500; matchmaking = true; sid = sid; exp_time = 5 }

-- the player 0 is idle, and the player 1 is matchmaking
abbrev open_service : Service
open_service = record { session_count = 3; player_database = idle ∷ waiting 2 ∷ [] }

-- both players are in a game
abbrev pub in_game : Service
in_game = record { session_count = 3; player_database = waiting 0 ∷ waiting 2 ∷ [] }

first_read :
    (read_player tokens auth_verifier 7 "first" ≡ some (3, 0))
    × (read_player tokens game_verifier 7 "first" ≡ some (3, 0))
    × (read_player tokens mm_verifier 7 "first" ≡ some (3, 0))
unfolding read_player
first_read = (refl, refl, refl)

second_read : read_player tokens game_verifier 8 "second" ≡ some (14, 1)
unfolding read_player
second_read = refl

abbrev get : String → Request
get uri = record { method = "GET"; uri = uri; now = 0; jwt_now = 7 }

abbrev day : List Request
day = get "/signup" ∷ get "/signup/" ∷ get "/login/first" ∷ get "/login/second" ∷ []

sessions_differ_example : IsRegistered 4 (served tokens naturals disk day init)
sessions_differ_example = sessions_differ tokens naturals disk day (omega arith)

only_named_example :
    let s' = (take_route tokens naturals disk 0 7 (login_route "first") open_service).0 in
    (get_elem? s'.player_database 1 ≡ some (waiting 2)) ⊎ Names tokens 7 (login_route "first") 1
only_named_example =
    only_named tokens naturals disk 0 7 (login_route "first") open_service 1 (waiting 2) refl

unproved_example :
    take_route tokens naturals disk 0 (seconds 1800) (login_route "first") open_service
    ≡ (open_service, rejection (login_route "first"))
unproved_example =
    unproved tokens naturals disk 0 (seconds 1800) (login_route "first") open_service
      (unverified 3 refl refl)

-- another player's login, a new player, and a page
abbrev meanwhile : List Request
meanwhile = get "/login/second" ∷ get "/signup" ∷ get "/" ∷ []

meanwhile-Spares : All (λ req. Spares tokens req.jwt_now (route req.uri) 0) meanwhile
unfolding route
meanwhile-Spares = (tt, (λ h. h, (λ h. h, tt)))

login_again_example :
    let r = login tokens 0 7 "first" open_service in
    let s2 = served tokens naturals disk meanwhile r.0 in
    login tokens (seconds 9000) 7 "first" s2 ≡ (s2, r.1)
login_again_example =
    login_again tokens naturals disk 0 (seconds 9000) 7 7 "first" "first" open_service 3 3 0 idle
      meanwhile first_read.0 first_read.0 refl meanwhile-Spares

login-IsSigned :
    IsSigned tokens parse_session_id
      (match_claims tokens 0 (start_matchmaking 0 0 idle open_service).1)
unfolding start_matchmaking
login-IsSigned = record {
  jwt = 3;
  decoded = refl;
  accepted = λ v t k i b. ground arith;
  pid_json = 3;
  pid_claim = refl;
  pid_read = refl;
  sid_claim = λ sid e. (3, refl, e);
  data_claim = λ d e. e;
}

login_time : 7 + seconds 1 ≤ (start_matchmaking 0 0 idle open_service).1.exp_time
unfolding start_matchmaking
login_time = omega arith

login_roundtrip_example :
    let r = start_matchmaking 0 0 idle open_service in
    (text : String) × ((login tokens 0 7 "first" open_service).1
      ≡ replied "text/plain" (plain text))
    × (read_token (matchmaking_env tokens parse_session_id 0) 7 text
        ≡ valid (record { player = 0; session = r.1.sid }, 3))
login_roundtrip_example =
    login_roundtrip tokens parse_session_id 0 7 7 0 "first" open_service 3 0 idle first_read.0 refl
      login-IsSigned login_time

abbrev pub plain_results : ResultJson ℕ
plain_results = record { token_data = λ j. j; with_token = λ j token. j; dump = λ j. "done" }

abbrev pub matched_player : CombinedId
matched_player = record { player = 0; session = 3 }

pub match-IsSigned :
    IsSigned tokens parse_session_id (session_claims "tic_tac_toe_matchmaker" 0 matched_player 3)
match-IsSigned = record {
  jwt = 3;
  decoded = refl;
  accepted = λ v t k i b. ground arith;
  pid_json = 3;
  pid_claim = refl;
  pid_read = refl;
  sid_claim = λ sid e. (3, refl, e);
  data_claim = λ d e. e;
}

counted_twice_example :
    let s2 = (submit tokens naturals 8 "second" (submit tokens naturals 7 "first" in_game).0).0 in
    let twice = rate tokens naturals 1 0 (rate tokens naturals 1 0 (waiting 0, waiting 2)) in
    (get_elem? s2.player_database 0 ≡ some (set_matchmaking false twice.0))
    × (get_elem? s2.player_database 1 ≡ some (set_matchmaking false twice.1))
counted_twice_example =
    counted_twice tokens naturals 0 1 1 0 3 refl refl 7 8 "first" "second" in_game 3 14 (waiting 0)
      (waiting 2) (omega arith) first_read.1 refl second_read refl refl refl refl refl
