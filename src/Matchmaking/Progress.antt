-- ===== src/Matchmaking/Progress.antt =====
-- The time-step of `match_players` in include/simple_web_game_server/matchmaking_server.hpp.
use mathlib.Core.List.{append-nil, append_assoc}
use simple_web_game_server.Prelude.{
  ℕ, ◌≡◌, refl, sym, ap, ◌∙◌, String, some, List, [], ◌∷◌, ◌++◌, ℕ_discrete,
}
use simple_web_game_server.Prelude.Assoc.{lookup}
use simple_web_game_server.Locks.{Readings}
use simple_web_game_server.Base.{Env}
use simple_web_game_server.Base.Link.{players_at}
use simple_web_game_server.Matchmaking.{Message, MatchedGame, MatchApi, MatchServer}
use simple_web_game_server.Matchmaking.Cancelled.{
  given_up, taking_part, process_connection_updates-given_up,
}
use simple_web_game_server.Matchmaking.Loop.{
  send_players, send_messages, forget_sessions, swap_finished, finish_sessions, finish_games,
  time_step,
}
use simple_web_game_server.Matchmaking.Tables.{
  IsSound, forget_session-IsSound, process_connection_updates-IsSound,
}
use simple_web_game_server.Matchmaking.Updates.{
  forget_session, finish_session, process_connection_updates,
}

module _ {J D M : Type 0} where
  forget_sessions-IsSound :
      (sids : List ℕ) (s : MatchServer J D M) → IsSound s → IsSound (forget_sessions sids s)
  unfolding forget_sessions
  forget_sessions-IsSound [] s v = v
  forget_sessions-IsSound (sid ∷ sids) s v =
      forget_sessions-IsSound sids (forget_session sid s) (forget_session-IsSound sid s v)

  finished_second-forget_sessions :
      (sids : List ℕ) (s : MatchServer J D M)
      → (forget_sessions sids s).finished_second ≡ s.finished_second
  unfolding forget_sessions forget_session
  finished_second-forget_sessions [] s = refl
  finished_second-forget_sessions (sid ∷ sids) s =
      finished_second-forget_sessions sids (forget_session sid s)

-- The sessions of all games, in order.
abbrev pub matched_sessions : {J : Type 0} → List (MatchedGame J) → List ℕ
matched_sessions [] = []
matched_sessions (g ∷ gs) = g.sessions ++ matched_sessions gs

-- What the loops over messages and games leave alone.
record SameTables {J D M : Type 0} (s s' : MatchServer J D M) : Type 0 where
  same_data : s'.session_data ≡ s.session_data
  same_players : s'.session_players ≡ s.session_players
  same_second : s'.finished_second ≡ s.finished_second

SameTables-IsSound :
    {J D M : Type 0} → (s s' : MatchServer J D M) → SameTables s s' → IsSound s → IsSound s'
SameTables-IsSound s s' t v sid = rw (t.same_data, t.same_players) (v sid)

module _ {J D M : Type 0} (moved : String → String) where
  send_messages-SameTables :
      (ms : List Message) (s : MatchServer J D M)
      → SameTables s (send_messages moved ms s)
        × ((send_messages moved ms s).finished_first ≡ s.finished_first)
  unfolding send_messages
  send_messages-SameTables [] s =
      (record { same_data = refl; same_players = refl; same_second = refl }, refl)
  send_messages-SameTables ((sid, msg) ∷ ms) s =
      let (t, f) = send_messages-SameTables ms (record s {
        base =
            send_players moved sid (players_at (lookup ℕ_discrete sid s.session_players)) msg
              s.base;
      }) in
      (
        record {
          same_data = t.same_data;
          same_players = t.same_players;
          same_second = t.same_second;
        },
        f,
      )

module _ {J Jwt D M : Type 0} (env : Env J Jwt) (clock : ℕ → Readings) (api : MatchApi J D M)
    (moved : String → String) where
  finish_sessions-SameTables :
      (sids : List ℕ) (game_sid : ℕ) (d : J) (s : MatchServer J D M)
      → let s' = finish_sessions env clock api moved sids game_sid d s in
        SameTables s s' × (s'.finished_first ≡ s.finished_first ++ sids)
  unfolding finish_sessions finish_session
  finish_sessions-SameTables [] game_sid d s = (
    record { same_data = refl; same_players = refl; same_second = refl },
    sym (append-nil s.finished_first),
  )
  finish_sessions-SameTables (sid ∷ sids) game_sid d s =
      let s1 = finish_session env clock api sid game_sid d s in
      let (t, f) =
        finish_sessions-SameTables sids game_sid d
          (record s1 { finished_first = s1.finished_first ++ sid ∷ [] }) in
      (
        record {
          same_data = t.same_data;
          same_players = t.same_players;
          same_second = t.same_second;
        },
        f ∙ append_assoc s.finished_first (sid ∷ []) sids,
      )

  finish_games-SameTables :
      (gs : List (MatchedGame J)) (s : MatchServer J D M)
      → let s' = finish_games env clock api moved gs s in
        SameTables s s' × (s'.finished_first ≡ s.finished_first ++ matched_sessions gs)
  unfolding finish_games
  finish_games-SameTables [] s = (
    record { same_data = refl; same_players = refl; same_second = refl },
    sym (append-nil s.finished_first),
  )
  finish_games-SameTables (g ∷ gs) s =
      let (t, f) = finish_sessions-SameTables g.sessions g.game_sid g.game_data s in
      let (u, h) =
        finish_games-SameTables gs
          (finish_sessions env clock api moved g.sessions g.game_sid g.game_data s) in
      (
        record {
          same_data = u.same_data ∙ t.same_data;
          same_players = u.same_players ∙ t.same_players;
          same_second = u.same_second ∙ t.same_second;
        },
        h
            ∙ ap (λ (l : List ℕ). l ++ matched_sessions gs) f
            ∙ append_assoc s.finished_first g.sessions (matched_sessions gs),
      )

  -- The games that a time-step makes: those that the matchmaker finds among the sessions that are
  -- left when the connection updates are in and the finished sessions are out.
  abbrev pub games_of : ℕ → MatchServer J D M → List (MatchedGame J)
  games_of delta s1 =
      let s2 = forget_sessions s1.finished_first s1 in
      (api.pair_up s2.session_data delta s2.matchmaker).1

  -- From a sound state a time-step meets no missing entry and ends in a sound state. The sessions
  -- to forget in the next step are then those that were already listed for it, those that this
  -- step's updates give up, which are those of a disconnection while the session takes part and of a
  -- connection with invalid data while it does not, and those of the games that were made, in order.
  pub matchmaking_step :
      (delta start : ℕ) (s : MatchServer J D M)
      → IsSound s
      → (s1 : MatchServer J D M) × (s' : MatchServer J D M) × (process_connection_updates env clock
            api
            (record s { time_start = start })
          ≡ some s1)
        × (time_step env clock api moved delta start s ≡ some s')
        × IsSound s'
        × (s'.finished_first
            ≡ s.finished_second
              ++ given_up api s.base.app.updates (taking_part s)
              ++ matched_sessions (games_of delta s1))
        × (s'.finished_second ≡ [])
  unfolding time_step
  matchmaking_step delta start s v =
      let (s1, e, v1) =
        process_connection_updates-IsSound env clock api (record s { time_start = start }) v in
      let f = forget_sessions s1.finished_first s1 in
      let v2 = forget_sessions-IsSound s1.finished_first s1 v1 in
      let result = api.pair_up f.session_data delta f.matchmaker in
      let s2 : MatchServer J D M = record (swap_finished f) { matchmaker = result.0 } in
      let s3 = send_messages moved result.2 s2 in
      let (t, g) = send_messages-SameTables moved result.2 s2 in
      let (u, h) = finish_games-SameTables result.1 s3 in
      (
        s1,
        finish_games env clock api moved result.1 s3,
        e,
        rw e refl,
        SameTables-IsSound s3 (finish_games env clock api moved result.1 s3) u
            (SameTables-IsSound s2 s3 t v2),
        h
            ∙ ap (λ (l : List ℕ). l ++ matched_sessions result.1)
                (g
                  ∙ finished_second-forget_sessions s1.finished_first s1
                  ∙ process_connection_updates-given_up env clock api
                      (record s { time_start = start }) s1 e),
        u.same_second ∙ t.same_second,
      )
