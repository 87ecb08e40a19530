-- ===== src/Matchmaking/Links.antt =====
-- The base server of include/simple_web_game_server/matchmaking_server.hpp through a round of
-- `match_players`: its connections stay consistent.
use simple_web_game_server.Prelude.Options.{◌>>=◌}
use simple_web_game_server.Prelude.{
  ℕ, inl, inr, Bool, true, false, String, Option, none, some, List, [], ◌∷◌, not, ◌&&◌,
  if◌then◌else◌, Bool-cases, Option-cases, ℕ_discrete, ltb,
}
use simple_web_game_server.Prelude.Assoc.{lookup}
use simple_web_game_server.Locks.{Readings, elapsed_ms}
use simple_web_game_server.Base.{CombinedId, Env, Server}
use simple_web_game_server.Base.Link.{players_at}
use simple_web_game_server.Base.Invariant.{IsValid, complete_session-IsValid, send_message-IsValid}
use simple_web_game_server.Matchmaking.{
  Message, MatchedGame, MatchApi, Inbox, ConnectionUpdate, connected, disconnected, MatchServer,
}
use simple_web_game_server.Matchmaking.Updates.{
  forget_session, add_session, add_player, finish_session, cancel_session, process_update,
  process_updates, process_connection_updates,
}
use simple_web_game_server.Matchmaking.Loop.{
  none_of, send_players, send_messages, forget_sessions, swap_finished, finish_sessions,
  finish_games, time_step, match_players,
}

-- The connections of a result, if there is one, are consistent.
abbrev pub Held : {J D M : Type 0} → Option (MatchServer J D M) → Type 0
Held none = Unit
Held (some s) = IsValid s.base

module _ {J D M : Type 0} where
  Held-bind :
      (o : Option (MatchServer J D M)) (f : MatchServer J D M → Option (MatchServer J D M))
      → Held o
      → ((s : MatchServer J D M) → IsValid s.base → Held (f s))
      → Held (o >>= f)
  Held-bind none f h k = tt
  Held-bind (some s) f h k = k s h

  Held-if :
      (b : Bool) (o o' : Option (MatchServer J D M)) → Held o → Held o' → Held (if b then o else o')
  Held-if true o o' h k = h
  Held-if false o o' h k = k

  add_player-Held :
      (sid pid : ℕ) (s : MatchServer J D M) → IsValid s.base → Held (add_player sid pid s)
  unfolding add_player
  add_player-Held sid pid s v = elim (Option-cases (lookup ℕ_discrete sid s.session_players)) [
    | inl e ↦ rw (e, add_player) tt
    | inr (ps, e) ↦ rw (e, add_player) v
  ]

  forget_sessions-IsValid :
      (sids : List ℕ) (s : MatchServer J D M)
      → IsValid s.base
      → IsValid (forget_sessions sids s).base
  unfolding forget_sessions forget_session
  forget_sessions-IsValid [] s v = v
  forget_sessions-IsValid (sid ∷ sids) s v = forget_sessions-IsValid sids (forget_session sid s) v

module _ {J : Type 0} (moved : String → String) where
  send_players-IsValid :
      (sid : ℕ) (pids : List ℕ) (msg : String) (b : Server J (Inbox J))
      → IsValid b
      → IsValid (send_players moved sid pids msg b)
  unfolding send_players
  send_players-IsValid sid [] msg b v = v
  send_players-IsValid sid (pid ∷ pids) msg b v =
      let id : CombinedId = record { player = pid; session = sid } in
      send_players-IsValid sid pids _ _ (send_message-IsValid id msg b v)

module _ {J D M : Type 0} (moved : String → String) where
  send_messages-IsValid :
      (ms : List Message) (s : MatchServer J D M)
      → IsValid s.base
      → IsValid (send_messages moved ms s).base
  unfolding send_messages
  send_messages-IsValid [] s v = v
  send_messages-IsValid ((sid, msg) ∷ ms) s v =
      let pids = players_at (lookup ℕ_discrete sid s.session_players) in
      send_messages-IsValid ms (record s { base = send_players moved sid pids msg s.base })
        (send_players-IsValid moved sid pids msg s.base v)

module _ {J Jwt D M : Type 0} (env : Env J Jwt) (clock : ℕ → Readings) (api : MatchApi J D M)
    (moved : String → String) where
  finish_session-IsValid :
      (sid game_sid : ℕ) (d : J) (s : MatchServer J D M)
      → IsValid s.base
      → IsValid (finish_session env clock api sid game_sid d s).base
  unfolding finish_session
  finish_session-IsValid sid game_sid d s v =
      complete_session-IsValid env (clock s.readings) sid game_sid d s.base v

  process_update-Held :
      (u : ConnectionUpdate J) (s : MatchServer J D M)
      → IsValid s.base
      → Held (process_update env clock api u s)
  unfolding process_update cancel_session forget_session add_session
  process_update-Held (disconnected id) s v =
      elim (Option-cases (lookup ℕ_discrete id.session s.session_data)) [
        | inl e ↦ rw (e, process_update) v
        | inr (d, e) ↦ rw (e, process_update) (finish_session-IsValid id.session id.session _ s v)
      ]
  process_update-Held (connected id login) s v =
      elim (Option-cases (lookup ℕ_discrete id.session s.session_data)) [
        | inr (d, e) ↦ rw (e, process_update) (add_player-Held id.session id.player s v)
        | inl e ↦ elim (Bool-cases (api.is_valid (api.make login))) [
          | inl good ↦ rw (e, process_update, good) v
          | inr bad ↦
              rw (e, process_update, bad) (finish_session-IsValid id.session id.session _ s v)
        ]
      ]

  process_updates-Held :
      (us : List (ConnectionUpdate J)) (s : MatchServer J D M)
      → IsValid s.base
      → Held (process_updates env clock api us s)
  unfolding process_updates
  process_updates-Held [] s v = v
  process_updates-Held (u ∷ us) s v =
      Held-bind (process_update env clock api u s) _ (process_update-Held u s v)
        (λ s' w. process_updates-Held us s' w)

  finish_sessions-IsValid :
      (sids : List ℕ) (game_sid : ℕ) (d : J) (s : MatchServer J D M)
      → IsValid s.base
      → IsValid (finish_sessions env clock api moved sids game_sid d s).base
  unfolding finish_sessions
  finish_sessions-IsValid [] game_sid d s v = v
  finish_sessions-IsValid (sid ∷ sids) game_sid d s v =
      finish_sessions-IsValid sids game_sid d _ (finish_session-IsValid sid game_sid d s v)

  finish_games-IsValid :
      (gs : List (MatchedGame J)) (s : MatchServer J D M)
      → IsValid s.base
      → IsValid (finish_games env clock api moved gs s).base
  unfolding finish_games
  finish_games-IsValid [] s v = v
  finish_games-IsValid (g ∷ gs) s v =
      finish_games-IsValid gs _ (finish_sessions-IsValid g.sessions g.game_sid g.game_data s v)

  time_step-Held :
      (delta start : ℕ) (s : MatchServer J D M)
      → IsValid s.base
      → Held (time_step env clock api moved delta start s)
  unfolding time_step process_connection_updates
  time_step-Held delta start s v =
      Held-bind (process_connection_updates env clock api (record s { time_start = start })) _
        (Held-bind (process_updates env clock api s.base.app.updates _) _
          (process_updates-Held s.base.app.updates _ v) (λ s1 w. w))
        (λ s1 w.
          let f = forget_sessions s1.finished_first s1 in
          let result = api.pair_up f.session_data delta f.matchmaker in
          let s2 : MatchServer J D M = record (swap_finished f) { matchmaker = result.0 } in
          finish_games-IsValid result.1 (send_messages moved result.2 s2) (
            send_messages-IsValid moved result.2 s2
              (forget_sessions-IsValid s1.finished_first s1 w)))

  pub match_players-Held :
      (timestep now start : ℕ) (s : MatchServer J D M)
      → IsValid s.base
      → Held (match_players env clock api moved timestep now start s)
  unfolding match_players
  match_players-Held timestep now start s v =
      let asked =
        if s.is_waiting then (s.matchmaker, false) else api.can_match s.session_data s.matchmaker in
      let waits = not asked.1 && none_of s.base.app.updates in
      let s1 : MatchServer J D M = record s { matchmaker = asked.0; is_waiting = waits } in
      Held-if s.base.is_running _ _
        (Held-if waits _ _ v (
          Held-if (ltb (elapsed_ms now s.time_start) timestep) _ _ v
            (time_step-Held (elapsed_ms now s.time_start) start s1 v)))
        v
