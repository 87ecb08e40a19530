-- ===== src/TicTacToe/Service/Signing.antt =====
-- The tokens that the servers of examples/tic_tac_toe sign for one another, read back.
use simple_web_game_server.Prelude.{
  ℕ, ◌+◌, ◌≤◌, ◌≡◌, refl, ap, true, String, Option, none, some, get_elem?,
}
use simple_web_game_server.Base.{CombinedId}
use simple_web_game_server.Base.Login.{read_token, valid}
use simple_web_game_server.TicTacToe.Service.{
  secret, PlayerData, Service, Verifier, auth_verifier, mm_verifier, Claims, Tokens, Reply, replied,
  plain, seconds,
}
use simple_web_game_server.TicTacToe.Service.Routes.{
  read_player, start_matchmaking, match_claims, login,
}
use simple_web_game_server.TicTacToe.Service.Startup.{
  ResultJson, session_claims, sign_game, sign_result, server_env, matchmaking_env, game_env,
}
use simple_web_game_server.TicTacToe.Service.Tickets.{login-known}

-- The time is before the one at which a token expires. Tokens hold whole seconds.
abbrev pub Before : ℕ → Option ℕ → Type 0
Before t none = Unit
Before t (some e) = t + seconds 1 ≤ e

module _ {J Jwt D : Type 0} (api : Tokens J Jwt D) (parse_session_id : J → Option ℕ) where
  -- What jwt-cpp and the readers of JSON say of a token that was signed with these claims: it is
  -- decoded; a verifier of the same secret and issuer accepts it before it expires; and each claim
  -- is there and is read as it was set.
  pub record IsSigned (c : Claims J) : Type 0 where
    pub jwt : Jwt
    pub decoded : api.decode (api.sign secret c) ≡ some jwt
    pub accepted :
        (v : Verifier) (t : ℕ)
        → v.key ≡ secret
        → v.issuer ≡ c.issuer
        → Before t c.expires_at
        → api.verify v t jwt ≡ true
    pub pid_json : J
    pub pid_claim : api.payload_claim jwt "pid" ≡ some pid_json
    pub pid_read : api.parse_player_id pid_json ≡ some c.pid
    pub sid_claim :
        (sid : ℕ)
        → c.sid ≡ some sid
        → (j : J) × (api.payload_claim jwt "sid" ≡ some j) × (parse_session_id j ≡ some sid)
    pub data_claim : (d : J) → c.data_json ≡ some d → api.payload_claim jwt "data" ≡ some d

  module _ (c : Claims J) (h : IsSigned c) where
    pub read_player-signed :
        (v : Verifier) (t : ℕ)
        → v.key ≡ secret
        → v.issuer ≡ c.issuer
        → Before t c.expires_at
        → read_player api v t (api.sign secret c) ≡ some (h.jwt, c.pid)
    unfolding read_player
    read_player-signed v t k i b =
        rw (h.decoded, h.accepted v t k i b, h.pid_claim, h.pid_read) refl

    -- A server with the verifier reads the id and the data that were signed.
    read_token-signed :
        (v : Verifier) (t sid : ℕ) (d : J) (get_result_str : CombinedId → J → String)
        → v.key ≡ secret
        → v.issuer ≡ c.issuer
        → Before t c.expires_at
        → c.sid ≡ some sid
        → c.data_json ≡ some d
        → read_token (server_env api parse_session_id v get_result_str) t (api.sign secret c)
          ≡ valid (record { player = c.pid; session = sid }, d)
    unfolding read_token
    read_token-signed v t sid d get_result_str k i b e f =
        let (j, sid_there, sid_read) = h.sid_claim sid e in
        rw
          (
            h.decoded,
            h.accepted v t k i b,
            h.pid_claim,
            h.pid_read,
            sid_there,
            sid_read,
            h.data_claim d f,
          )
          refl

  -- If jwt-cpp reads the token as it was signed, the text that a login gives a player is read by the matchmaking server, before it expires, as
  -- the id of the player in the session of the entry that the player then has, with the rating.
  pub login_roundtrip :
      (now jwt_now t signing : ℕ) (token : String) (s : Service) (jwt : Jwt) (pid : ℕ)
      (p : PlayerData)
      → read_player api auth_verifier jwt_now token ≡ some (jwt, pid)
      → get_elem? s.player_database pid ≡ some p
      → let r = start_matchmaking now pid p s in
        IsSigned (match_claims api pid r.1)
        → t + seconds 1 ≤ r.1.exp_time
        → (text : String) × ((login api now jwt_now token s).1 ≡ replied "text/plain" (plain text))
          × (read_token (matchmaking_env api parse_session_id signing) t text
              ≡ valid (record { player = pid; session = r.1.sid }, api.rating_json r.1.elo))
  login_roundtrip now jwt_now t signing token s jwt pid p e there h b =
      let r = start_matchmaking now pid p s in
      (
        api.sign secret (match_claims api pid r.1),
        ap (λ (x : Service × Reply). x.1) (login-known api now jwt_now token s jwt pid p e there),
        read_token-signed (match_claims api pid r.1) h auth_verifier t r.1.sid
            (api.rating_json r.1.elo) (sign_game api signing) refl refl b refl refl,
      )

  -- If jwt-cpp reads the token as it was signed, the text that the matchmaking server sends for a session that is over is read by the game
  -- server, for half an hour less a second, as the same id with the same data.
  pub match_roundtrip :
      (now t signing : ℕ) (id : CombinedId) (data_json : J) (json : ResultJson J)
      → IsSigned (session_claims "tic_tac_toe_matchmaker" now id data_json)
      → t + seconds 1 ≤ now + seconds 1800
      → read_token
          (game_env api parse_session_id json signing)
          t
          ((matchmaking_env api parse_session_id now).get_result_str id data_json)
        ≡ valid (id, data_json)
  unfolding sign_game
  match_roundtrip now t signing id data_json json h b =
      read_token-signed _ h mm_verifier t id.session data_json (sign_result api json signing) refl
        refl b refl refl
