-- ===== src/Game/Joining.antt =====
-- From a login at the base server to a game of include/simple_web_game_server/game_server.hpp.
use simple_web_game_server.Prelude.Options.{◌>>=◌}
use simple_web_game_server.Prelude.{
  ℕ, ◌≡◌, refl, sym, ap, ◌∙◌, inl, inr, true, false, String, Option, some, List, [], ◌∷◌, ◌++◌,
  arith, is_some, ℕ_discrete, Option-cases, is_some-eq_true,
}
use simple_web_game_server.Prelude.Assoc.{lookup, lookup-update}
use simple_web_game_server.BufferedMap
use simple_web_game_server.Locks.{Readings, update_session_locks}
use simple_web_game_server.Base.{CombinedId, id_discrete, Server, Env, close_hdl}
use simple_web_game_server.Base.Link.{drop_duplicate, setup_connection_id}
use simple_web_game_server.Base.Login.{
  Times, valid, read_token, with_locks, join_session, open_session,
}
use simple_web_game_server.Game.{
  Message, GameApi, Inbox, ConnectionUpdate, connected, GameServer, player_connect,
}
use simple_web_game_server.Game.Tables.{
  IsSound, create_game-IsSound, create_game-there, process_update-IsSound,
}
use simple_web_game_server.Game.Updates.{
  put, swap_updates, with_game, create_game, process_update, process_updates,
  process_connection_updates,
}

module _ {J G : Type 0} where
  with_game-there :
      (sid : ℕ) (method : List Message → G → G × List Message) (s : GameServer J G)
      → is_some (lookup ℕ_discrete sid s.games) ≡ true
      → IsSound s
      → (s' : GameServer J G) × (with_game sid method s ≡ some s')
        × (is_some (lookup ℕ_discrete sid s'.games) ≡ true)
  unfolding with_game
  with_game-there sid method s there v =
      let (game, g) = is_some-eq_true (lookup ℕ_discrete sid s.games) there in
      let (out, o) =
        is_some-eq_true (lookup ℕ_discrete sid s.out_messages)
          (sym (v.tables.paired sid) ∙ there) in
      let (game', out') = method out game in
      (
        record s { games = put sid game' s.games; out_messages = put sid out' s.out_messages },
        rw (g, o, with_game) refl,
        ground (arith, lookup-update ℕ_discrete sid sid game' (λ _. game') s.games),
      )

module _ {J Jwt G : Type 0} (env : Env J Jwt) (clock : ℕ → Readings) (api : GameApi J G)
    (id : CombinedId) (d : J) (good : api.is_valid (api.make d) ≡ true) where
  -- the game of the session is there after the update
  abbrev Plays : Option (GameServer J G) → Type 0
  Plays o =
      (s' : GameServer J G) × (o ≡ some s')
      × (is_some (lookup ℕ_discrete id.session s'.games) ≡ true)

  connected-Plays :
      (s : GameServer J G) → IsSound s → Plays (process_update env clock api (connected id d) s)
  unfolding process_update
  connected-Plays s v = elim (Option-cases (lookup ℕ_discrete id.session s.games)) [
    | inr (g, e) ↦ rw (e, process_update) (with_game-there id.session _ s (rw e refl) v)
    | inl e ↦
        rw (e, process_update, good)
          (with_game-there id.session _ (create_game id.session (api.make d) s)
            (create_game-there id.session (api.make d) s)
            (create_game-IsSound id.session (api.make d) s e v))
  ]

  last-Plays :
      (us : List (ConnectionUpdate J)) (s : GameServer J G)
      → IsSound s
      → Plays (process_updates env clock api (us ++ connected id d ∷ []) s)
  unfolding process_updates
  last-Plays [] s v = let (s', e, h) = connected-Plays s v in (s', rw e refl, h)
  last-Plays (u ∷ us) s v =
      let (s1, e, v1, _) = process_update-IsSound env clock api u s v in
      let (s2, f, h) = last-Plays us s1 v1 in (s2, rw e f, h)

module _ {J Jwt H : Type 0} (env : Env J Jwt) where
  -- the owner's handler runs on the owner's data
  join-app :
      (hdl : ℕ) (id : CombinedId) (d : J) (s : Server J H)
      → (join_session env hdl id d s).app ≡ s.handlers.handle_open id d s.app
  unfolding join_session setup_connection_id close_hdl
  join-app hdl id d s = elim (Option-cases (lookup id_discrete id s.id_connections)) [
    | inl e ↦ rw (join_session, setup_connection_id, e, drop_duplicate) refl
    | inr (old, e) ↦ rw (join_session, setup_connection_id, e, drop_duplicate) refl
  ]

  open-app :
      (t : Times) (hdl : ℕ) (token : String) (s : Server J H) (id : CombinedId) (d : J)
      → read_token env t.jwt_now token ≡ valid (id, d)
      → BufferedMap.contains (update_session_locks t.locks s.locks).locked id.session ≡ false
      → (open_session env t hdl token s).app ≡ s.handlers.handle_open id d s.app
  unfolding open_session
  open-app t hdl token s id d e free =
      rw (e, open_session, free) (join-app hdl id d (with_locks t s))

module _ {J Jwt G : Type 0} (env : Env J Jwt) (clock : ℕ → Readings) (api : GameApi J G) where
  -- If a worker has read a token that proves an id, of a session that is not over, the base server
  -- has the handler `player_connect`, and the game made of the token's data is valid, then the next connection updates of a game server in a
  -- sound state meet no missing entry, and the session has a game after them.
  pub login_plays :
      (t : Times) (hdl : ℕ) (token : String) (s : GameServer J G) (id : CombinedId) (d : J)
      → IsSound s
      → s.base.handlers.handle_open ≡ player_connect
      → read_token env t.jwt_now token ≡ valid (id, d)
      → BufferedMap.contains (update_session_locks t.locks s.base.locks).locked id.session ≡ false
      → api.is_valid (api.make d) ≡ true
      → let s1 : GameServer J G = record s { base = open_session env t hdl token s.base } in
        (s' : GameServer J G) × (process_connection_updates env clock api s1 ≡ some s')
        × (is_some (lookup ℕ_discrete id.session s'.games) ≡ true)
  unfolding process_connection_updates player_connect
  login_plays t hdl token s id d v handler e free good =
      let s1 : GameServer J G = record s { base = open_session env t hdl token s.base } in
      let inbox =
        open-app env t hdl token s.base id d e free
        ∙ ap (λ (f : CombinedId → J → Inbox J → Inbox J). f id d s.base.app) handler in
      let filled = ap (λ (b : Inbox J). b.updates) inbox in
      let clear : GameServer J G → Option (GameServer J G) =
        λ s'. some (record s' { connection_updates = [] }) in
      let (s2, f, h) =
        last-Plays env clock api id d good s.base.app.updates (swap_updates s1)
          (record { tables = v.tables; erasable = v.erasable }) in
      (
        record s2 { connection_updates = [] },
        ap (λ us. process_updates env clock api us (swap_updates s1) >>= clear) filled
            ∙ ap (λ o. o >>= clear) f,
        h,
      )
