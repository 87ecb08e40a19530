-- ===== src/Base/Takeover.antt =====
-- A client that opens a second connection, in include/simple_web_game_server/base_server.hpp: alone,
-- and beside a second worker that is in the middle of the first connection's end.
use simple_web_game_server.Prelude.{
  ℕ, ◌≡◌, ◌≢◌, refl, String, none, some, [], ◌∷◌, ◌++◌, arith, ite, or_some, ℕ_discrete,
}
use simple_web_game_server.Prelude.Assoc.{
  Assoc, lookup, erase, emplace, lookup-erase, lookup-emplace,
}
use simple_web_game_server.Base.{CombinedId, id_discrete, close, Server, Env, close_hdl}
use simple_web_game_server.Base.Invariant.{IsValid}
use simple_web_game_server.Base.Link.{
  get_connection_hdl_from_id, send_message, drop_duplicate, setup_connection_id, player_disconnect,
}
use simple_web_game_server.Base.Login.{join_session}
use simple_web_game_server.Base.Worker.{process_unsubscribe}

-- The tables after the move, read at one key.
module _ (hdl old : ℕ) (id : CombinedId) (cids : Assoc ℕ CombinedId)
    (idcs : Assoc CombinedId ℕ) where
  cids_after :
      (h : ℕ)
      → lookup ℕ_discrete h (emplace ℕ_discrete hdl id (erase ℕ_discrete old cids))
        ≡ ite
            (ℕ_discrete hdl h)
            (or_some (ite (ℕ_discrete old h) none (lookup ℕ_discrete h cids)) id)
            (ite (ℕ_discrete old h) none (lookup ℕ_discrete h cids))
  cids_after h = ground (
    arith,
    lookup-emplace ℕ_discrete hdl h id (erase ℕ_discrete old cids),
    lookup-erase ℕ_discrete old h cids,
  )

  idcs_after :
      (j : CombinedId)
      → lookup id_discrete j (emplace id_discrete id hdl (erase id_discrete id idcs))
        ≡ ite (id_discrete id j) (some hdl) (lookup id_discrete j idcs)
  idcs_after j = ground (
    arith,
    lookup-emplace id_discrete id j hdl (erase id_discrete id idcs),
    lookup-erase id_discrete id j idcs,
  )

module _ {J Jwt H : Type 0} (env : Env J Jwt) (hdl old : ℕ) (id : CombinedId) (d : J)
    (s : Server J H) (valid : IsValid s) (new : lookup ℕ_discrete hdl s.connection_ids ≡ none)
    (there : lookup id_discrete id s.id_connections ≡ some old) where
  -- A login of a client that is connected moves the client to the new connection: the old one is
  -- closed as a duplicate and has no id any more, no other connection or client is touched, and
  -- the player count stays.
  pub takeover :
      let s' = join_session env hdl id d s in
      (lookup ℕ_discrete hdl s'.connection_ids ≡ some id)
      × (lookup ℕ_discrete old s'.connection_ids ≡ none)
      × (get_connection_hdl_from_id id s' ≡ some hdl)
      × (s'.calls ≡ s.calls ++ close old env.reasons.duplicate_connection ∷ [])
      × (s'.player_count ≡ s.player_count)
      × ((h : ℕ)
          → h ≢ hdl
          → h ≢ old
          → lookup ℕ_discrete h s'.connection_ids ≡ lookup ℕ_discrete h s.connection_ids)
      × ((j : CombinedId)
          → j ≢ id
          → get_connection_hdl_from_id j s' ≡ get_connection_hdl_from_id j s)
  unfolding join_session setup_connection_id drop_duplicate close_hdl get_connection_hdl_from_id
  takeover =
      rw (there, drop_duplicate)
        (
          ground (arith, cids_after hdl old id s.connection_ids s.id_connections hdl),
          ground (
            arith,
            cids_after hdl old id s.connection_ids s.id_connections old,
            valid.hdls id old,
          ),
          ground (arith, idcs_after hdl old id s.connection_ids s.id_connections id),
          refl,
          refl,
          (λ h a b. ground (arith, cids_after hdl old id s.connection_ids s.id_connections h)),
          (λ j a. ground (arith, idcs_after hdl old id s.connection_ids s.id_connections j)),
        )

  abbrev raced : Server J H
  raced = process_unsubscribe env old (some id) (join_session env hdl id d s)

  kept_id : lookup ℕ_discrete hdl raced.connection_ids ≡ some id
  unfolding process_unsubscribe player_disconnect
  kept_id = ground (
    arith,
    lookup-erase ℕ_discrete old hdl (join_session env hdl id d s).connection_ids,
    takeover.0,
    takeover.1,
  )

  unreachable : lookup id_discrete id raced.id_connections ≡ none
  unfolding process_unsubscribe player_disconnect
  unreachable =
      ground (arith, lookup-erase id_discrete id id (join_session env hdl id d s).id_connections)

  -- Beside another worker: if that worker has looked up the id of the old connection for its end
  -- before the new connection logs in, and ends it afterwards, the client keeps an id that nobody
  -- can reach: the new connection has the id, but messages to it are dropped, and the tables of
  -- connections are no longer inverse to one another.
  pub unsubscribe_race :
      let s' = process_unsubscribe env old (some id) (join_session env hdl id d s) in
      (lookup ℕ_discrete hdl s'.connection_ids ≡ some id)
      × (get_connection_hdl_from_id id s' ≡ none)
      × ((msg : String) → send_message id msg s' ≡ s')
      × (¬ IsValid s')
  unfolding get_connection_hdl_from_id send_message process_unsubscribe
  unsubscribe_race = (
    kept_id,
    unreachable,
    (λ msg. rw (unreachable, send_message) refl),
    (λ v. cc (v.ids hdl id kept_id, unreachable)),
  )
