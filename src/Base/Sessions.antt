-- ===== src/Base/Sessions.antt =====
-- `complete_session` of include/simple_web_game_server/base_server.hpp.
use simple_web_game_server.Prelude.{ℕ, none, some, List, [], ◌∷◌, if◌then◌else◌, ℕ_discrete}
use simple_web_game_server.Prelude.Assoc.{lookup}
use simple_web_game_server.BufferedMap
use simple_web_game_server.Locks.{Readings, update_session_locks}
use simple_web_game_server.Base.{close_connection, SessionData, Server, Env, push}
use simple_web_game_server.Base.Link.{get_connection_hdl_from_id, players_at}

module _ {J H : Type 0} where
  -- the players of a session that nobody has joined are none
  abbrev pub players_of : ℕ → Server J H → List ℕ
  players_of sid s = players_at (lookup ℕ_discrete sid s.session_players)

module _ {J Jwt H : Type 0} (env : Env J Jwt) where
  -- the body of the loop over the players of the session
  unfoldable pub close_player : ℕ → SessionData J → ℕ → Server J H → Server J H
  unfolding get_connection_hdl_from_id
  close_player sid result pid s =
      elim (get_connection_hdl_from_id (record { player = pid; session = sid }) s) [
        | some hdl ↦
            push
              (record {
                type = close_connection;
                hdl = hdl;
                msg =
                    env.get_result_str (record { player = pid; session = result.session })
                      result.result;
              })
              s
        | none ↦ s
      ]

  unfoldable pub close_players : ℕ → SessionData J → List ℕ → Server J H → Server J H
  close_players sid result [] s = s
  close_players sid result (pid ∷ pids) s =
      close_players sid result pids (close_player sid result pid s)

  unfoldable pub complete_session : Readings → ℕ → ℕ → J → Server J H → Server J H
  complete_session r sid result_sid result_data s =
      let s1 = record s { locks = update_session_locks r s.locks } in
      if BufferedMap.contains s1.locks.locked sid
      then s1
      else (let result : SessionData J = record { session = result_sid; result = result_data } in
          let s2 = close_players sid result (players_of sid s1) s1 in
          record s2 {
            locks = record s2.locks { locked = BufferedMap.insert sid result s2.locks.locked };
          })
