-- ===== src/TicTacToe/Service/Handover.antt =====
-- From the matchmaking server of examples/tic_tac_toe to its game server: the players that are matched
-- find their game.
use mathlib.Core.List.{Mem}
use simple_web_game_server.Prelude.{
  ℕ, ◌+◌, ◌≤◌, ◌≡◌, refl, inl, inr, true, false, String, Option, none, some, List, [], ◌∷◌, arith,
  ltb, is_some, Bool-cases, Option-cases, ℕ_discrete,
}
use simple_web_game_server.Prelude.Assoc.{Assoc, lookup}
use simple_web_game_server.Prelude.NatSet.{insert}
use simple_web_game_server.BufferedMap
use simple_web_game_server.Locks.{Readings, update_session_locks}
use simple_web_game_server.Base.{Action, close_connection}
use simple_web_game_server.Base.Completion.{client, farewell}
use simple_web_game_server.Base.Login.{Times, open_session}
use simple_web_game_server.Base.Waiting.{IsWaiting}
use simple_web_game_server.Game.{GameServer, player_connect}
use simple_web_game_server.Game.Joining.{login_plays}
use simple_web_game_server.Game.Tables.{IsSound}
use simple_web_game_server.Game.Updates as GameUpdates
use simple_web_game_server.Matchmaking.{MatchedGame, MatchServer}
use simple_web_game_server.Matchmaking.Handover.{first_game, as_result, matched_hears}
use simple_web_game_server.Matchmaking.Loop.{forget_sessions, time_step}
use simple_web_game_server.Matchmaking.Updates.{process_connection_updates}
use simple_web_game_server.TicTacToe.Game.{Json as GameJson, tic_tac_toe}
use simple_web_game_server.TicTacToe.Game as TheGame
use simple_web_game_server.Prelude.Int.{pos}
use simple_web_game_server.TicTacToe.Matchmaker.{
  Json as MatchJson, Rated, best_partner, pairs, pair_up, tic_tac_toe_matchmaker,
}
use simple_web_game_server.TicTacToe.Service.{Tokens, seconds}
use simple_web_game_server.TicTacToe.Service.Signing.{IsSigned, match_roundtrip}
use simple_web_game_server.TicTacToe.Service.Startup.{
  ResultJson, session_claims, matchmaking_env, game_env,
}

module _ {J : Type 0} (json : MatchJson J) where
  -- Every game has the data of a match.
  first_game-pairs :
      (matched : List ℕ) (t : Assoc ℕ Rated) (sid : ℕ) (g : MatchedGame J)
      → first_game sid (pairs json matched t) ≡ some g
      → g.game_data ≡ json.matched true
  unfolding pairs first_game
  first_game-pairs matched [] sid g e = cc
  first_game-pairs matched ((k, d) ∷ rest) sid g e =
      let best = (best_partner d.rating matched rest (none, pos 100000)).0 in
      elim (Option-cases best) [
        | inl alone ↦ ground (arith, first_game-pairs matched rest sid g)
        | inr (partner, found) ↦ ground (
          arith,
          first_game-pairs matched rest sid g,
          first_game-pairs (insert partner (insert k matched)) rest sid g,
        )
      ]

  first_game-pair_up :
      (t : Assoc ℕ Rated) (delta elapsed sid : ℕ) (g : MatchedGame J)
      → first_game sid (pair_up json t delta elapsed).1 ≡ some g
      → g.game_data ≡ json.matched true
  unfolding pair_up first_game
  first_game-pair_up t delta elapsed sid g e = elim (Bool-cases (ltb 5000 (elapsed + delta))) [
    | inl due ↦ first_game-pairs [] t sid g (rw (due, pair_up) at e)
    | inr early ↦ ground arith
  ]

module _ {J Jwt D : Type 0} (api : Tokens J Jwt D) (parse_session_id : J → Option ℕ)
    (match_json : MatchJson J) (game_json : GameJson J) (results : ResultJson J) where
  -- If jwt-cpp reads the token as it was signed at the time `now`, and the object for a match is read as
  -- one, then: after the connection updates of a time-step of the matchmaking server, a client of a
  -- session that is not over, whose session the matchmaker puts into a game, has a last action in the
  -- queue for its connection when the step ends. If its text is a client's first message to a game
  -- server in a sound state, with the handler that its constructor sets and on which the session of the
  -- game is not over, and is read within half an hour less a second, then the next connection updates
  -- of the game server meet no missing entry, and the session has a game after them.
  pub matched_plays :
      (clock game_clock : ℕ → Readings) (moved : String → String) (now signing ms pid sid hdl : ℕ)
      (delta start : ℕ) (s s1 : MatchServer J Rated ℕ) (g : MatchedGame J)
      → let env = matchmaking_env api parse_session_id now in
        let matcher = tic_tac_toe_matchmaker match_json in
        process_connection_updates env clock matcher (record s { time_start = start }) ≡ some s1
        → IsWaiting pid sid hdl s1.base
        → let s2 = forget_sessions s1.finished_first s1 in
          first_game sid (pair_up match_json s2.session_data delta s2.matchmaker).1 ≡ some g
          → IsSigned api parse_session_id (
              session_claims "tic_tac_toe_matchmaker" now
                (client pid g.game_sid)
                (match_json.matched true))
          → game_json.matched (match_json.matched true) ≡ some true
          → (t : Times) (con : ℕ) (gs : GameServer J (TheGame.Game J)) → IsSound gs
          → gs.base.handlers.handle_open ≡ player_connect
          → BufferedMap.contains (update_session_locks t.locks gs.base.locks).locked g.game_sid
            ≡ false
          → t.jwt_now + seconds 1 ≤ now + seconds 1800
          → let game_side = game_env api parse_session_id results signing in
            (s' : MatchServer J Rated ℕ) × (time_step env clock matcher moved delta start s
              ≡ some s')
            × (a : Action) × Mem a s'.base.actions
            × (a.type ≡ close_connection)
            × (a.hdl ≡ hdl)
            × (gs' : GameServer J (TheGame.Game J)) × (GameUpdates.process_connection_updates
                  game_side game_clock
                  (tic_tac_toe game_json ms)
                  (record gs { base = open_session game_side t con a.msg gs.base })
                ≡ some gs')
            × (is_some (lookup ℕ_discrete g.game_sid gs'.games) ≡ true)
  unfolding TheGame.make
  matched_plays clock game_clock moved now signing ms pid sid hdl delta start s s1 g e w f signed
        reads t con gs sound handler free early =
      let env = matchmaking_env api parse_session_id now in
      let game_side = game_env api parse_session_id results signing in
      let matched = first_game-pair_up match_json _ delta _ sid g f in
      let (s', stepped, told) =
        matched_hears env clock (tic_tac_toe_matchmaker match_json) moved pid sid hdl delta start s
          s1 g e w f in
      let id = client pid g.game_sid in
      let read =
        match_roundtrip api parse_session_id now t.jwt_now signing id (match_json.matched true)
          results signed early in
      let (gs', played, there) =
        login_plays game_side game_clock (tic_tac_toe game_json ms) t con
          (env.get_result_str id g.game_data) gs id (match_json.matched true) sound handler
          (rw matched read) free (rw reads refl) in
      (s', stepped, farewell env (as_result g) pid hdl, told, refl, refl, gs', played, there)
