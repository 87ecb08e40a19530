-- ===== src/Matchmaking/Loop.antt =====
-- `match_players` of include/simple_web_game_server/matchmaking_server.hpp.
use simple_web_game_server.Prelude.Options.{◌>>=◌}
use simple_web_game_server.Prelude.{
  ℕ, Bool, true, false, String, Option, some, List, [], ◌∷◌, ◌++◌, not, ◌&&◌, ltb, is_some,
  if◌then◌else◌, ℕ_discrete,
}
use simple_web_game_server.Prelude.Assoc.{lookup}
use simple_web_game_server.Locks.{Readings, elapsed_ms}
use simple_web_game_server.Base.{CombinedId, Env, Server}
use simple_web_game_server.Base.Link.{get_connection_hdl_from_id, send_message, players_at}
use simple_web_game_server.Matchmaking.{Message, MatchedGame, MatchApi, Inbox, MatchServer}
use simple_web_game_server.Matchmaking.Updates.{
  forget_session, finish_session, process_connection_updates,
}

abbrev pub none_of : {A : Type 0} → List A → Bool
none_of [] = true
none_of (x ∷ xs) = false

-- What std::move leaves in a string is `moved`. A message is moved into the queue if its client has
-- a connection, and the loop goes on with what is left.
module _ {J : Type 0} (moved : String → String) where
  unfoldable pub send_players : ℕ → List ℕ → String → Server J (Inbox J) → Server J (Inbox J)
  unfolding get_connection_hdl_from_id send_message
  send_players sid [] msg b = b
  send_players sid (pid ∷ pids) msg b =
      let id : CombinedId = record { player = pid; session = sid } in
      let left = if is_some (get_connection_hdl_from_id id b) then moved msg else msg in
      send_players sid pids left (send_message id msg b)

module _ {J D M : Type 0} (moved : String → String) where
  unfoldable pub send_messages : List Message → MatchServer J D M → MatchServer J D M
  unfolding send_players
  send_messages [] s = s
  send_messages ((sid, msg) ∷ ms) s = send_messages ms (record s {
    base = send_players moved sid (players_at (lookup ℕ_discrete sid s.session_players)) msg s.base;
  })

module _ {J D M : Type 0} where
  -- the loop over `finished_sessions.first`
  unfoldable pub forget_sessions : List ℕ → MatchServer J D M → MatchServer J D M
  unfolding forget_session
  forget_sessions [] s = s
  forget_sessions (sid ∷ sids) s = forget_sessions sids (forget_session sid s)

  -- the first list is cleared, and the two are swapped
  abbrev pub swap_finished : MatchServer J D M → MatchServer J D M
  swap_finished s = record s { finished_first = s.finished_second; finished_second = [] }

module _ {J Jwt D M : Type 0} (env : Env J Jwt) (clock : ℕ → Readings) (api : MatchApi J D M)
    (moved : String → String) where
  unfoldable pub finish_sessions : List ℕ → ℕ → J → MatchServer J D M → MatchServer J D M
  unfolding finish_session
  finish_sessions [] game_sid d s = s
  finish_sessions (sid ∷ sids) game_sid d s =
      let s1 = finish_session env clock api sid game_sid d s in
      finish_sessions sids game_sid d (record s1 { finished_first = s1.finished_first ++ sid ∷ [] })

  unfoldable pub finish_games : List (MatchedGame J) → MatchServer J D M → MatchServer J D M
  unfolding finish_sessions
  finish_games [] s = s
  finish_games (g ∷ gs) s = finish_games gs (finish_sessions g.sessions g.game_sid g.game_data s)

  -- The time-step itself. `delta` is the time since the last one, `start` the reading of the clock.
  unfoldable pub time_step : ℕ → ℕ → MatchServer J D M → Option (MatchServer J D M)
  unfolding process_connection_updates forget_sessions send_messages finish_games
  time_step delta start s = do
    s1 ← process_connection_updates env clock api (record s { time_start = start })
    let s2 = swap_finished (forget_sessions s1.finished_first s1)
    let result = api.pair_up s2.session_data delta s2.matchmaker
    some
        (finish_games result.1 (send_messages moved result.2 (record s2 { matchmaker = result.0 })))

  -- One round of `match_players`. It asks the matchmaker, and waits if nothing can be matched and no
  -- update is there; a round that waits goes on without asking again, once there is an update.
  unfoldable pub match_players : ℕ → ℕ → ℕ → MatchServer J D M → Option (MatchServer J D M)
  unfolding time_step
  match_players timestep now start s =
      if s.base.is_running
      then (let asked =
            if s.is_waiting
            then (s.matchmaker, false)
            else api.can_match s.session_data s.matchmaker in
          let waits = not asked.1 && none_of s.base.app.updates in
          let s1 = record s { matchmaker = asked.0; is_waiting = waits } in
          if waits
          then some s1
          else if ltb (elapsed_ms now s.time_start) timestep
          then some s1
          else time_step (elapsed_ms now s.time_start) start s1)
      else some s
