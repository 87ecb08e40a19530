-- ===== src/Minimal/Handover.antt =====
-- The servers of examples/minimal_template, from their `main` functions on, and a player's way from the
-- one to the other.
use mathlib.Core.List.{Mem}
use simple_web_game_server.Prelude.{
  ℕ, ◌≡◌, refl, true, false, Bool, String, some, List, is_some, ℕ_discrete,
}
use simple_web_game_server.Prelude.Assoc.{lookup}
use simple_web_game_server.BufferedMap
use simple_web_game_server.Locks.{Readings, update_session_locks}
use simple_web_game_server.Base.{CombinedId, Action, Env, ok, close_connection}
use simple_web_game_server.Base.Completion.{client, farewell}
use simple_web_game_server.Base.Lifecycle as BaseLifecycle
use simple_web_game_server.Base.Lifecycle.{set_open, set_close, set_message}
use simple_web_game_server.Base.Login.{Times, valid, read_token, open_session}
use simple_web_game_server.Base.Waiting.{IsWaiting}
use simple_web_game_server.Game.{GameApi, GameServer}
use simple_web_game_server.Game.Lifecycle.{init, connect_handlers, set_tls_init_handler}
use simple_web_game_server.Game.Owner.{admitted_plays}
use simple_web_game_server.Game.System.{Reachable, new, sets_tls, starts, begins}
use simple_web_game_server.Game.Updates as GameUpdates
use simple_web_game_server.Matchmaking.{MatchedGame, MatchServer}
use simple_web_game_server.Matchmaking.Handover.{first_game, as_result, matched_hears}
use simple_web_game_server.Matchmaking.Loop.{forget_sessions, time_step}
use simple_web_game_server.Matchmaking.Updates.{process_connection_updates}
use simple_web_game_server.Minimal.{Json, minimal_game, minimal_matchmaker}
use simple_web_game_server.Minimal.Services.{
  Tokens, token_claims, match_verifier, sign_game, matchmaking_env, game_env, start_game_server,
}
use simple_web_game_server.TicTacToe.Service.{Verifier, secret}

module _ {J Jwt G : Type 0} (env : Env J Jwt) (clock : ℕ → Readings) (api : GameApi J G) where
  -- `main` of the game server, with TLS or without, is refused nothing: the server runs when the loop
  -- of `update_games` begins, in a state that the server reaches.
  pub start_game_server-runs :
      (tls : Bool) (now : ℕ)
      → (s : GameServer J G) × (start_game_server tls now ≡ ok s)
        × Reachable env clock api true s
        × (s.base.is_running ≡ true)
  unfolding start_game_server init connect_handlers set_open set_close set_message
      set_tls_init_handler BaseLifecycle.set_tls_init BaseLifecycle.run
  start_game_server-runs true now =
      (_, refl, begins now (starts 9090 true (sets_tls (new 60000 _ refl) refl)), refl)
  start_game_server-runs false now =
      (_, refl, begins now (starts 9090 true (new 60000 _ refl)), refl)

module _ {J Jwt : Type 0} (api : Tokens J Jwt) where
  -- What jwt-cpp and the readers of JSON say of a token that was signed with these claims: it is
  -- decoded, a verifier of the same secret and issuer accepts it at any time, since it does not expire,
  -- and each claim is there and is read as it was set.
  pub record IsSigned (issuer : String) (id : CombinedId) (data_json : J) : Type 0 where
    pub jwt : Jwt
    pub decoded : api.decode (api.sign secret (token_claims issuer id data_json)) ≡ some jwt
    pub accepted :
        (v : Verifier) (t : ℕ) → v.key ≡ secret → v.issuer ≡ issuer → api.verify v t jwt ≡ true
    pub pid_json : J
    pub pid_claim : api.payload_claim jwt "pid" ≡ some pid_json
    pub pid_read : api.parse_player_id pid_json ≡ some id.player
    pub sid_json : J
    pub sid_claim : api.payload_claim jwt "sid" ≡ some sid_json
    pub sid_read : api.parse_session_id sid_json ≡ some id.session
    pub data_claim : api.payload_claim jwt "data" ≡ some data_json

  read_token-signed :
      (t : ℕ) (id : CombinedId) (data_json : J)
      → IsSigned "matchmaking_server" id data_json
      → read_token
          (game_env api)
          t
          (api.sign secret (token_claims "matchmaking_server" id data_json))
        ≡ valid (id, data_json)
  unfolding read_token
  read_token-signed t id data_json h =
      rw
        (
          h.decoded,
          h.accepted match_verifier t refl refl,
          h.pid_claim,
          h.pid_read,
          h.sid_claim,
          h.sid_read,
          h.data_claim,
        )
        refl

  -- If jwt-cpp reads the token as it was signed, and a client reads the token out of the message that
  -- holds it, then: after the connection updates of a time-step of the matchmaking server, a client of
  -- a session that is not over, whose session the matchmaker puts into a game, has a last action in the
  -- queue for its connection when the step ends. If the token in its text is a first message to a game
  -- server in any state that it reaches while it runs `update_games`, and the session of the game is
  -- not over there, then the next connection updates of the game server meet no missing entry, and the
  -- session has a game after them.
  pub minimal_plays :
      (json : Json J) (clock game_clock : ℕ → Readings) (moved token_of : String → String)
      (pid sid hdl delta start : ℕ) (s s1 : MatchServer J (Unit {0}) ℕ) (g : MatchedGame J)
      (t : Times) (con : ℕ) (gs : GameServer J (List ℕ))
      → let env = matchmaking_env api in
        let matcher = minimal_matchmaker json in
        let game_side = game_env api in
        ((token : String) → token_of (api.token_message token) ≡ token)
        → process_connection_updates env clock matcher (record s { time_start = start }) ≡ some s1
        → IsWaiting pid sid hdl s1.base
        → let s2 = forget_sessions s1.finished_first s1 in
          first_game sid (matcher.pair_up s2.session_data delta s2.matchmaker).1 ≡ some g
          → IsSigned "matchmaking_server" (client pid g.game_sid) g.game_data
          → Reachable game_side game_clock (minimal_game json) true gs
          → gs.base.is_running ≡ true
          → BufferedMap.contains (update_session_locks t.locks gs.base.locks).locked g.game_sid
            ≡ false
          → (s' : MatchServer J (Unit {0}) ℕ) × (time_step env clock matcher moved delta start s
              ≡ some s')
            × (a : Action) × Mem a s'.base.actions
            × (a.type ≡ close_connection)
            × (a.hdl ≡ hdl)
            × (gs' : GameServer J (List ℕ)) × (GameUpdates.process_connection_updates game_side
                  game_clock
                  (minimal_game json)
                  (record gs { base = open_session game_side t con (token_of a.msg) gs.base })
                ≡ some gs')
            × (is_some (lookup ℕ_discrete g.game_sid gs'.games) ≡ true)
  unfolding sign_game
  minimal_plays json clock game_clock moved token_of pid sid hdl delta start s s1 g t con gs unwraps
        e w f signed r on free =
      let env = matchmaking_env api in
      let id = client pid g.game_sid in
      let (s', stepped, told) =
        matched_hears env clock (minimal_matchmaker json) moved pid sid hdl delta start s s1 g e w
          f in
      let (gs', played, there) =
        admitted_plays (game_env api) game_clock (minimal_game json) t con
          (token_of (env.get_result_str id g.game_data)) id g.game_data r on
          (rw unwraps (read_token-signed t.jwt_now id g.game_data signed)) free refl in
      (s', stepped, farewell env (as_result g) pid hdl, told, refl, refl, gs', played, there)
