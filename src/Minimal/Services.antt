-- ===== src/Minimal/Services.antt =====
-- examples/minimal_template/matchmaking_server/matchmaking_server.cpp and
-- examples/minimal_template/game_server/game_server.cpp, and the two variants with TLS beside them: what
-- their `main` functions give to the servers, and how they start them.
use simple_web_game_server.Prelude.{ℕ, Bool, true, false, String, Option, none, some}
use simple_web_game_server.Base.{CombinedId, Env, Result, ok, ◌>>=◌, default_close_reasons}
use simple_web_game_server.Game.{GameServer}
use simple_web_game_server.Game.Lifecycle
use simple_web_game_server.Matchmaking.{MatchServer}
use simple_web_game_server.Matchmaking.Lifecycle as MatchLifecycle
use simple_web_game_server.TicTacToe.Service.{Verifier, Claims, secret}

-- jwt-cpp and nlohmann's json: the tokens, the readers of the players' traits, and the text of
-- {"type": "token", "token": t}. `none` is an exception.
pub record Tokens (J Jwt : Type 0) : Type 0 where
  pub decode : String → Option Jwt
  pub verify : Verifier → ℕ → Jwt → Bool
  pub payload_claim : Jwt → String → Option J
  pub sign : String → Claims J → String
  pub parse_player_id : J → Option ℕ
  pub parse_session_id : J → Option ℕ
  pub token_message : String → String

abbrev pub auth_verifier : Verifier
auth_verifier = record { key = secret; issuer = "auth_server" }

abbrev pub match_verifier : Verifier
match_verifier = record { key = secret; issuer = "matchmaking_server" }

-- the claims that both functions set; such a token does not expire
abbrev pub token_claims : {J : Type 0} → String → CombinedId → J → Claims J
token_claims issuer id data_json = record {
  issuer = issuer;
  pid = id.player;
  sid = some id.session;
  expires_at = none;
  data_json = some data_json;
}

module _ {J Jwt : Type 0} (api : Tokens J Jwt) where
  -- `sign_game` of the matchmaking server
  unfoldable pub sign_game : CombinedId → J → String
  sign_game id data_json =
      api.token_message (api.sign secret (token_claims "matchmaking_server" id data_json))

  -- `sign_game` of the game server
  unfoldable pub sign_result : CombinedId → J → String
  sign_result id data_json =
      api.token_message (api.sign secret (token_claims "game_server" id data_json))

  abbrev pub server_env : Verifier → (CombinedId → J → String) → Env J Jwt
  server_env verifier get_result_str = record {
    decode = api.decode;
    verify = api.verify verifier;
    claim = api.payload_claim;
    parse_player_id = api.parse_player_id;
    parse_session_id = api.parse_session_id;
    get_result_str = get_result_str;
    reasons = default_close_reasons;
  }

  -- `matchmaking_server mms{verifier, sign_game, 60s}`
  abbrev pub matchmaking_env : Env J Jwt
  matchmaking_env = server_env auth_verifier sign_game

  -- `game_server gs(verifier, sign_game, 60s)`
  abbrev pub game_env : Env J Jwt
  game_env = server_env match_verifier sign_result

abbrev pub release_time : ℕ
release_time = 60000

-- The `main` functions: the server is made, the variant with TLS sets its handler, `run` starts the
-- server, and the thread of the loop begins. The threads that then run are not part of it.
module _ {J G : Type 0} where
  unfoldable pub start_game_server : Bool → ℕ → Result (GameServer J G)
  unfolding Lifecycle.init Lifecycle.set_tls_init_handler Lifecycle.run Lifecycle.enter_update_games
  start_game_server tls now = do
    gs ← Lifecycle.init release_time
    gs' ← elim tls [ true ↦ Lifecycle.set_tls_init_handler gs | false ↦ ok gs ]
    ok (Lifecycle.enter_update_games now (Lifecycle.run 9090 true gs'))

module _ {J D M : Type 0} where
  unfoldable pub start_matchmaking_server : Bool → M → ℕ → Result (MatchServer J D M)
  unfolding MatchLifecycle.init MatchLifecycle.set_tls_init_handler MatchLifecycle.run
      MatchLifecycle.enter_match_players
  start_matchmaking_server tls matchmaker now = do
    mms ← MatchLifecycle.init matchmaker release_time
    mms' ← elim tls [ true ↦ MatchLifecycle.set_tls_init_handler mms | false ↦ ok mms ]
    ok (MatchLifecycle.enter_match_players now (MatchLifecycle.run 9091 true mms'))
