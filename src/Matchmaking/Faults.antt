-- ===== src/Matchmaking/Faults.antt =====
-- include/simple_web_game_server/matchmaking_server.hpp: a session that is given up and joined again
-- in one time-step, and a message to a session of two players.
use mathlib.Core.List.{append_assoc}
use simple_web_game_server.Prelude.{
  ℕ, ◌≡◌, ◌∙◌, refl, inl, inr, true, false, String, none, some, List, [], ◌∷◌, ◌++◌, arith,
  ℕ_discrete, Bool-cases,
}
use simple_web_game_server.Prelude.Assoc.{lookup, lookup-erase, lookup-emplace}
use simple_web_game_server.Prelude.NatSet.{contains}
use simple_web_game_server.BufferedMap
use simple_web_game_server.BufferedMap.Laws.{contains-at, at-insert_self}
use simple_web_game_server.Locks.{Readings, update_session_locks}
use simple_web_game_server.Base.{CombinedId, out_message, Env, Server, SessionData, push}
use simple_web_game_server.Base.Link.{get_connection_hdl_from_id, send_message}
use simple_web_game_server.Base.Sessions.{complete_session, players_of}
use simple_web_game_server.Base.Completion.{client, close_players_lem}
use simple_web_game_server.Matchmaking.{MatchApi, Inbox, connected, disconnected, MatchServer}
use simple_web_game_server.Matchmaking.Updates.{
  forget_session, add_session, finish_session, swap_updates, cancel_session, process_update,
  process_updates, process_connection_updates,
}
use simple_web_game_server.Matchmaking.Loop.{forget_sessions, send_players}

module _ {J Jwt H : Type 0} (env : Env J Jwt) (r : Readings) (sid result_sid : ℕ) (d : J)
    (s : Server J H) where
  complete_session-contains :
      BufferedMap.contains (complete_session env r sid result_sid d s).locks.locked sid ≡ true
  unfolding complete_session
  complete_session-contains =
      elim (Bool-cases (BufferedMap.contains (update_session_locks r s.locks).locked sid)) [
        | inl e ↦ rw (e, complete_session) e
        | inr e ↦
            let s1 : Server J H = record s { locks = update_session_locks r s.locks } in
            let result : SessionData J = record { session = result_sid; result = d } in
            let b = s1.locks.locked in
            rw
              (
                e,
                complete_session,
                close_players_lem env sid result (players_of sid s1) s1,
                contains-at (BufferedMap.insert sid result b) sid,
                at-insert_self b sid result e,
              )
              refl
      ]

module _ {J D M : Type 0} where
  -- Forgetting other sessions keeps the data of a session.
  lookup-forget_sessions :
      (sids : List ℕ) (sid : ℕ)
      → contains sid sids ≡ false
      → (s : MatchServer J D M)
      → lookup ℕ_discrete sid (forget_sessions sids s).session_data
        ≡ lookup ℕ_discrete sid s.session_data
  unfolding forget_sessions forget_session contains
  lookup-forget_sessions [] sid e s = refl
  lookup-forget_sessions (k ∷ sids) sid e s =
      lookup-forget_sessions sids sid (ground arith) (forget_session k s)
      ∙ ground (arith, lookup-erase ℕ_discrete k sid s.session_data)

module _ {J Jwt D M : Type 0} (env : Env J Jwt) (clock : ℕ → Readings) (api : MatchApi J D M)
    (sid p q : ℕ) (login : J) (d : D) (s : MatchServer J D M)
    (there : lookup ℕ_discrete sid s.session_data ≡ some d)
    (good : api.is_valid (api.make login) ≡ true)
    (both : s.base.app.updates ≡ disconnected (client p sid) ∷ connected (client q sid) login ∷ [])
    (unlisted : contains sid s.finished_first ≡ false) where
  -- If the only updates of a time-step are that a player of a session with data gives up and then that a
  -- player connects to it with valid data, and the session is not listed to be forgotten in this step,
  -- then after them the session is complete in the base server and is listed to be forgotten in the
  -- next step, but its data are in the table that is matched in this one.
  pub cancelled_is_matchable :
      (s1 : MatchServer J D M) × (process_connection_updates env clock api s ≡ some s1)
      × (BufferedMap.contains s1.base.locks.locked sid ≡ true)
      × (s1.finished_second ≡ s.finished_second ++ sid ∷ [])
      × (lookup ℕ_discrete sid (forget_sessions s1.finished_first s1).session_data
          ≡ some (api.make login))
  unfolding process_connection_updates process_updates process_update cancel_session finish_session
      forget_session add_session
  cancelled_is_matchable =
      let s0 = swap_updates s in
      let s1 = forget_session sid (cancel_session env clock api sid s0) in
      let s2 : MatchServer J D M = record (add_session sid (api.make login) q s1) {
        connection_updates = [];
      } in
      let gone : lookup ℕ_discrete sid s1.session_data ≡ none =
        ground (arith, lookup-erase ℕ_discrete sid sid s.session_data) in
      (
        s2,
        rw (both, there, process_update, gone, good) refl,
        complete_session-contains env (clock s.readings) sid sid (api.cancel_data s.matchmaker)
            s0.base,
        refl,
        lookup-forget_sessions s.finished_first sid unlisted s2
            ∙ ground
                (arith, gone, lookup-emplace ℕ_discrete sid sid (api.make login) s1.session_data),
      )

send_message_at :
    {J : Type 0} (id : CombinedId) (h : ℕ) (msg : String) (b : Server J (Inbox J))
    → get_connection_hdl_from_id id b ≡ some h
    → send_message id msg b ≡ push (record { type = out_message; hdl = h; msg = msg }) b
unfolding send_message get_connection_hdl_from_id
send_message_at id h msg b e = rw (e, send_message) refl

module _ {J : Type 0} (moved : String → String) (sid p q h k : ℕ) (msg : String)
    (b : Server J (Inbox J)) (first : get_connection_hdl_from_id (client p sid) b ≡ some h)
    (second : get_connection_hdl_from_id (client q sid) b ≡ some k) where
  -- Of two connected players of a session only the first gets the matchmaker's message: the second
  -- gets what std::move has left of it.
  pub broadcast_moved :
      (send_players moved sid (p ∷ q ∷ []) msg b).actions
      ≡ b.actions
        ++ record { type = out_message; hdl = h; msg = msg }
          ∷ record { type = out_message; hdl = k; msg = moved msg }
          ∷ []
  unfolding send_players get_connection_hdl_from_id
  broadcast_moved =
      let b' : Server J (Inbox J) = push (record { type = out_message; hdl = h; msg = msg }) b in
      rw
        (
          first,
          send_players,
          send_message_at (client p sid) h msg b first,
          send_message_at (client q sid) k (moved msg) b' second,
        )
        (append_assoc b.actions (record { type = out_message; hdl = h; msg = msg } ∷ [])
          (record { type = out_message; hdl = k; msg = moved msg } ∷ []))
