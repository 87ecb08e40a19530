-- ===== src/Matchmaking/Tables.antt =====
-- The tables of session data and of session players of
-- include/simple_web_game_server/matchmaking_server.hpp.
use simple_web_game_server.Prelude.{
  ℕ, ◌≡◌, refl, sym, ◌∙◌, inl, inr, true, some, List, [], ◌∷◌, arith, is_some, ℕ_discrete,
  Bool-cases, Option-cases, is_some-eq_true,
}
use simple_web_game_server.Prelude.Assoc.{
  Assoc, lookup, update, lookup-erase, lookup-emplace, lookup-update,
}
use simple_web_game_server.Prelude.NatSet
use simple_web_game_server.Locks.{Readings}
use simple_web_game_server.Base.{Env}
use simple_web_game_server.Matchmaking.{
  MatchApi, ConnectionUpdate, connected, disconnected, MatchServer,
}
use simple_web_game_server.Matchmaking.Updates.{
  forget_session, add_session, add_player, swap_updates, finish_session, cancel_session,
  process_update, process_updates, process_connection_updates,
}

abbrev pub SameKeys : {D : Type 0} → Assoc ℕ D → Assoc ℕ (List ℕ) → Type 0
SameKeys sd sp = (sid : ℕ) → is_some (lookup ℕ_discrete sid sd) ≡ is_some (lookup ℕ_discrete sid sp)

-- Every session with data has a set of players, and the other way round.
abbrev pub IsSound : {J D M : Type 0} → MatchServer J D M → Type 0
IsSound s = SameKeys s.session_data s.session_players

module _ {J D M : Type 0} where
  pub forget_session-IsSound :
      (sid : ℕ) (s : MatchServer J D M) → IsSound s → IsSound (forget_session sid s)
  unfolding forget_session
  forget_session-IsSound sid s v j = ground (
    arith,
    v j,
    lookup-erase ℕ_discrete sid j s.session_data,
    lookup-erase ℕ_discrete sid j s.session_players,
  )

  add_session-IsSound :
      (sid : ℕ) (d : D) (pid : ℕ) (s : MatchServer J D M)
      → IsSound s
      → IsSound (add_session sid d pid s)
  unfolding add_session
  add_session-IsSound sid d pid s v j = ground (
    arith,
    v j,
    lookup-emplace ℕ_discrete sid j d s.session_data,
    lookup-emplace ℕ_discrete sid j (pid ∷ []) s.session_players,
  )

  add_player-IsSound :
      (sid pid : ℕ) (s : MatchServer J D M)
      → is_some (lookup ℕ_discrete sid s.session_data) ≡ true
      → IsSound s
      → (s' : MatchServer J D M) × (add_player sid pid s ≡ some s') × IsSound s'
  unfolding add_player
  add_player-IsSound sid pid s there v =
      let (ps, e) =
        is_some-eq_true (lookup ℕ_discrete sid s.session_players) (sym (v sid) ∙ there) in
      (
        record s {
          session_players = update ℕ_discrete sid ps (NatSet.insert pid) s.session_players;
        },
        rw (e, add_player) refl,
        λ j. ground (
          arith,
          v j,
          v sid,
          there,
          lookup-update ℕ_discrete sid j ps (NatSet.insert pid) s.session_players,
        ),
      )

module _ {J Jwt D M : Type 0} (env : Env J Jwt) (clock : ℕ → Readings) (api : MatchApi J D M) where
  cancel_session-IsSound :
      (sid : ℕ) (s : MatchServer J D M) → IsSound s → IsSound (cancel_session env clock api sid s)
  unfolding cancel_session finish_session
  cancel_session-IsSound sid s v = v

  process_update-IsSound :
      (u : ConnectionUpdate J) (s : MatchServer J D M)
      → IsSound s
      → (s' : MatchServer J D M) × (process_update env clock api u s ≡ some s') × IsSound s'
  unfolding process_update
  process_update-IsSound (disconnected id) s v =
      elim (Option-cases (lookup ℕ_discrete id.session s.session_data)) [
        | inl e ↦ (s, rw (e, process_update) refl, v)
        | inr (d, e) ↦ (
          forget_session id.session (cancel_session env clock api id.session s),
          rw (e, process_update) refl,
          forget_session-IsSound id.session (cancel_session env clock api id.session s)
              (cancel_session-IsSound id.session s v),
        )
      ]
  process_update-IsSound (connected id login) s v =
      elim (Option-cases (lookup ℕ_discrete id.session s.session_data)) [
        | inr (d, e) ↦
            rw (e, process_update) (add_player-IsSound id.session id.player s (rw e refl) v)
        | inl e ↦ elim (Bool-cases (api.is_valid (api.make login))) [
          | inl good ↦ (
            add_session id.session (api.make login) id.player s,
            rw (e, process_update, good) refl,
            add_session-IsSound id.session (api.make login) id.player s v,
          )
          | inr bad ↦ (
            cancel_session env clock api id.session s,
            rw (e, process_update, bad) refl,
            cancel_session-IsSound id.session s v,
          )
        ]
      ]

  process_updates-IsSound :
      (us : List (ConnectionUpdate J)) (s : MatchServer J D M)
      → IsSound s
      → (s' : MatchServer J D M) × (process_updates env clock api us s ≡ some s') × IsSound s'
  unfolding process_updates
  process_updates-IsSound [] s v = (s, refl, v)
  process_updates-IsSound (u ∷ us) s v =
      let (s1, e, v1) = process_update-IsSound u s v in
      let (s2, f, v2) = process_updates-IsSound us s1 v1 in (s2, rw e f, v2)

  pub process_connection_updates-IsSound :
      (s : MatchServer J D M)
      → IsSound s
      → (s' : MatchServer J D M) × (process_connection_updates env clock api s ≡ some s')
        × IsSound s'
  unfolding process_connection_updates
  process_connection_updates-IsSound s v =
      let (s1, e, v1) = process_updates-IsSound s.base.app.updates (swap_updates s) v in
      (record s1 { connection_updates = [] }, rw e refl, v1)
