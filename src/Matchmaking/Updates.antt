-- ===== src/Matchmaking/Updates.antt =====
-- `process_connection_updates` of include/simple_web_game_server/matchmaking_server.hpp. `none` is
-- std::out_of_range.
use simple_web_game_server.Prelude.Options.{◌>>=◌}
use simple_web_game_server.Prelude.{
  ℕ, ◌+◌, Option, none, some, List, [], ◌∷◌, ◌++◌, if◌then◌else◌, ℕ_discrete,
}
use simple_web_game_server.Prelude.Assoc.{lookup, erase, emplace, update}
use simple_web_game_server.Prelude.NatSet
use simple_web_game_server.Locks.{Readings}
use simple_web_game_server.Base.{Env}
use simple_web_game_server.Base.Sessions.{complete_session}
use simple_web_game_server.Matchmaking.{
  MatchApi, ConnectionUpdate, connected, disconnected, MatchServer,
}

module _ {J D M : Type 0} where
  unfoldable pub forget_session : ℕ → MatchServer J D M → MatchServer J D M
  forget_session sid s = record s {
    session_data = erase ℕ_discrete sid s.session_data;
    session_players = erase ℕ_discrete sid s.session_players;
  }

  unfoldable pub add_session : ℕ → D → ℕ → MatchServer J D M → MatchServer J D M
  add_session sid d pid s = record s {
    session_data = emplace ℕ_discrete sid d s.session_data;
    session_players = emplace ℕ_discrete sid (pid ∷ []) s.session_players;
  }

  -- `m_session_players.at(sid).insert(pid)`
  unfoldable pub add_player : ℕ → ℕ → MatchServer J D M → Option (MatchServer J D M)
  add_player sid pid s = do
    players ← lookup ℕ_discrete sid s.session_players
    some (record s {
      session_players = update ℕ_discrete sid players (NatSet.insert pid) s.session_players;
    })

  -- the two halves of the pair are swapped
  abbrev pub swap_updates : MatchServer J D M → MatchServer J D M
  swap_updates s = record s {
    connection_updates = s.base.app.updates;
    base = record s.base { app = record s.base.app { updates = s.connection_updates } };
  }

module _ {J Jwt D M : Type 0} (env : Env J Jwt) (clock : ℕ → Readings) (api : MatchApi J D M) where
  -- the call of `complete_session` on the base server, which reads the clock
  unfoldable pub finish_session : ℕ → ℕ → J → MatchServer J D M → MatchServer J D M
  finish_session sid game_sid d s = record s {
    base = complete_session env (clock s.readings) sid game_sid d s.base;
    readings = s.readings + 1;
  }

  -- the result of a session that is given up, and its place in `finished_sessions`
  unfoldable pub cancel_session : ℕ → MatchServer J D M → MatchServer J D M
  unfolding finish_session
  cancel_session sid s =
      let s1 = finish_session sid sid (api.cancel_data s.matchmaker) s in
      record s1 { finished_second = s1.finished_second ++ sid ∷ [] }

  unfoldable pub process_update :
      ConnectionUpdate J → MatchServer J D M → Option (MatchServer J D M)
  unfolding cancel_session forget_session add_session add_player
  process_update (disconnected id) s = elim (lookup ℕ_discrete id.session s.session_data) [
    | some d ↦ some (forget_session id.session (cancel_session id.session s))
    | none ↦ some s
  ]
  process_update (connected id login) s = elim (lookup ℕ_discrete id.session s.session_data) [
    | some d ↦ add_player id.session id.player s
    | none ↦
        let d = api.make login in
        if api.is_valid d
        then some (add_session id.session d id.player s)
        else some (cancel_session id.session s)
  ]

  unfoldable pub process_updates :
      List (ConnectionUpdate J) → MatchServer J D M → Option (MatchServer J D M)
  unfolding process_update
  process_updates [] s = some s
  process_updates (u ∷ us) s = do s' ← process_update u s; process_updates us s'

  unfoldable pub process_connection_updates : MatchServer J D M → Option (MatchServer J D M)
  unfolding process_updates
  process_connection_updates s = do
    s' ← process_updates (swap_updates s).connection_updates (swap_updates s)
    some (record s' { connection_updates = [] })
