-- ===== src/TicTacToe/Service/Startup.antt =====
-- What `main` of examples/tic_tac_toe/matchmaking_server/matchmaking_server.cpp and of
-- examples/tic_tac_toe/game_server/game_server.cpp give their servers: a verifier, and the function that
-- signs the results of sessions.
use simple_web_game_server.Prelude.{ℕ, ◌+◌, String, Option, some}
use simple_web_game_server.Base.{CombinedId, Env, default_close_reasons}
use simple_web_game_server.TicTacToe.Service.{
  secret, Verifier, auth_verifier, mm_verifier, Claims, Tokens, seconds,
}

-- What the server of the games makes of the state of a game that is over: the object with its players
-- and scores, the state with a token added, and its text.
pub record ResultJson (J : Type 0) : Type 0 where
  pub token_data : J → J
  pub with_token : J → String → J
  pub dump : J → String

-- the claims that both functions set
abbrev pub session_claims : {J : Type 0} → String → ℕ → CombinedId → J → Claims J
session_claims issuer now id data_json = record {
  issuer = issuer;
  pid = id.player;
  sid = some id.session;
  expires_at = some (now + seconds 1800);
  data_json = some data_json;
}

module _ {J Jwt D : Type 0} (api : Tokens J Jwt D) where
  -- `sign_game` of matchmaking_server.cpp
  unfoldable pub sign_game : ℕ → CombinedId → J → String
  sign_game now id data_json =
      api.sign secret (session_claims "tic_tac_toe_matchmaker" now id data_json)

  -- `sign_game` of game_server.cpp
  unfoldable pub sign_result : ResultJson J → ℕ → CombinedId → J → String
  sign_result json now id data_json =
      let token_data = json.token_data data_json in
      let token = api.sign secret (session_claims "tic_tac_toe_game_server" now id token_data) in
      json.dump (json.with_token data_json token)

  -- the base server's surroundings, from the verifier and the function for results
  abbrev pub server_env : (J → Option ℕ) → Verifier → (CombinedId → J → String) → Env J Jwt
  server_env parse_session_id verifier get_result_str = record {
    decode = api.decode;
    verify = api.verify verifier;
    claim = api.payload_claim;
    parse_player_id = api.parse_player_id;
    parse_session_id = parse_session_id;
    get_result_str = get_result_str;
    reasons = default_close_reasons;
  }

  -- `ttt_server mms{auth_verifier, sign_game, 60s}`, where results are signed at the time `now`
  abbrev pub matchmaking_env : (J → Option ℕ) → ℕ → Env J Jwt
  matchmaking_env parse_session_id now = server_env parse_session_id auth_verifier (sign_game now)

  abbrev pub game_env : (J → Option ℕ) → ResultJson J → ℕ → Env J Jwt
  game_env parse_session_id json now =
      server_env parse_session_id mm_verifier (sign_result json now)
