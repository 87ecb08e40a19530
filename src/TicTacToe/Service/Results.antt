-- ===== src/TicTacToe/Service/Results.antt =====
-- From the game server of examples/tic_tac_toe back to the ratings: the result of a game that is over.
use mathlib.Core.List.{Mem}
use simple_web_game_server.Prelude.{
  ℕ, ◌+◌, ◌≤◌, ◌≡◌, refl, true, String, Option, some, [], ◌∷◌, get_elem?, ℕ_discrete,
}
use simple_web_game_server.Prelude.Assoc.{lookup}
use simple_web_game_server.Locks.{Readings}
use simple_web_game_server.Base.{Action, close_connection}
use simple_web_game_server.Base.Completion.{client, farewell}
use simple_web_game_server.Base.Waiting.{IsWaiting}
use simple_web_game_server.Game.{GameServer}
use simple_web_game_server.Game.Farewell.{outcome as outcome_of, finished_hears}
use simple_web_game_server.Game.Loop.{time_step}
use simple_web_game_server.Game.Updates.{process_connection_updates}
use simple_web_game_server.TicTacToe.Game.{Json, Game, get_state, is_done, tic_tac_toe}
use simple_web_game_server.TicTacToe.Service.{
  PlayerData, Service, Tokens, Doubles, game_verifier, json_reply, outcome, seconds, secret,
}
use simple_web_game_server.TicTacToe.Service.Ratings.{rated, submit-known}
use simple_web_game_server.TicTacToe.Service.Signing.{IsSigned, read_player-signed}
use simple_web_game_server.TicTacToe.Service.Startup.{
  ResultJson, session_claims, sign_result, game_env,
}
use simple_web_game_server.TicTacToe.Service.Submission.{submit}

module _ {J Jwt D : Type 0} (api : Tokens J Jwt D) (reals : Doubles D)
    (parse_session_id : J → Option ℕ) (json : Json J) (results : ResultJson J) where
  -- If jwt-cpp reads the token as it was signed at the time `now`, a client reads the token out of the
  -- text that holds it, and the token's data list two players with a score for each, then: when a
  -- time-step of the game server ends with a game that is done, a client of its session, with the
  -- conditions of `finished_hears` (consistent tables, connected after the connection updates, the
  -- session not over), has a last action in the queue for its connection. If the player submits the
  -- token in its text within half an hour less a second, and is matchmaking, and all three players are
  -- in the database, then the submission succeeds, and the database is the old one with the ratings of
  -- the two players changed by their scores and the player not matchmaking.
  pub result_counts :
      (clock : ℕ → Readings) (token_of : String → String) (now ms pid sid hdl delta start t : ℕ)
      (s s1 s' : GameServer J (Game J)) (game : Game J) (a b : ℕ) (score1 score2 : D)
      (service : Service) (p p1 p2 : PlayerData)
      → let env = game_env api parse_session_id results now in
        let player = tic_tac_toe json ms in
        let state = get_state json game in
        let data_json = results.token_data state in
        let claims = session_claims "tic_tac_toe_game_server" now (client pid sid) data_json in
        process_connection_updates env clock player (record s { time_start = start }) ≡ some s1
        → IsWaiting pid sid hdl s1.base
        → time_step env clock player delta start s ≡ some s'
        → lookup ℕ_discrete sid s'.games ≡ some game
        → is_done game ≡ true
        → (signed : IsSigned api parse_session_id claims)
        → token_of (results.dump (results.with_token state (api.sign secret claims)))
          ≡ api.sign secret claims
        → api.players data_json ≡ some (a ∷ b ∷ [])
        → api.scores data_json ≡ some (score1 ∷ score2 ∷ [])
        → t + seconds 1 ≤ now + seconds 1800
        → get_elem? service.player_database pid ≡ some p
        → p.matchmaking ≡ true
        → get_elem? service.player_database a ≡ some p1
        → get_elem? service.player_database b ≡ some p2
        → (x : Action) × Mem x s'.base.actions
          × (x.type ≡ close_connection)
          × (x.hdl ≡ hdl)
          × (submit api reals t (token_of x.msg) service ≡ (
            record service {
              player_database = rated reals a b score1 score2 pid p1 p2 service.player_database;
            },
            json_reply (outcome true),
          ))
  unfolding sign_result
  result_counts clock token_of now ms pid sid hdl delta start t s s1 s' game a b score1 score2
        service p p1 p2 e w stepped there done signed unwraps listed scored early entry on entry1
        entry2 =
      let env = game_env api parse_session_id results now in
      let data_json = results.token_data (get_state json game) in
      let read = read_player-signed api parse_session_id _ signed game_verifier t refl refl early in
      (
        farewell env (outcome_of (tic_tac_toe json ms) sid game) pid hdl,
        finished_hears env clock (tic_tac_toe json ms) pid sid hdl delta start s s1 s' game e w
            stepped there done,
        refl,
        refl,
        rw unwraps (
            submit-known api reals a b score1 score2 data_json listed scored t _ service signed.jwt
              pid p p1 p2 read (signed.data_claim data_json refl) entry on entry1 entry2),
      )
