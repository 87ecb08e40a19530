-- ===== src/Game/Owner.antt =====
-- What the owner of a server of include/simple_web_game_server/game_server.hpp can rely on, whatever it
-- calls and whatever the clients do.
use simple_web_game_server.Prelude.{
  ℕ, ◌%◌, ◌≡◌, refl, sym, ap, subst, Bool, true, false, String, some, length, is_some, ℕ_discrete,
}
use simple_web_game_server.Prelude.Assoc.{lookup}
use simple_web_game_server.BufferedMap
use simple_web_game_server.Locks.{Readings, update_session_locks}
use simple_web_game_server.Base.{CombinedId, Env, Handlers, Server, ok}
use simple_web_game_server.Base.Fixtures.{
  handlers-send_message, handlers-run, handlers-complete_session, handlers-step, handlers-shut_down,
}
use simple_web_game_server.Base.Invariant.{IsValid}
use simple_web_game_server.Game.Tables.{IsPaired}
use simple_web_game_server.Base.Lifecycle.{after, set_open, set_close, set_message}
use simple_web_game_server.Base.Link.{size_mod}
use simple_web_game_server.Base.Login.{Times, valid, read_token, open_session}
use simple_web_game_server.Game.{
  GameApi, Inbox, GameServer, player_connect, player_disconnect, process_message,
}
use simple_web_game_server.Game.Lifecycle.{
  init, connect_handlers, enter_update_games, run, get_player_count, get_game_count,
}
use simple_web_game_server.Game.Joining.{login_plays}
use simple_web_game_server.Game.Updates.{process_connection_updates}
use simple_web_game_server.Game.Links.{Held, IsLasting, update_games-Held}
use simple_web_game_server.Game.System.{
  Reachable, new, acts, sets_http, sets_tls, starts, begins, rounds, ends, stops, resets, kept,
  sets_http_cases, sets_tls_cases, stop_cases, reset_cases,
}

module _ {J : Type 0} where
  -- The handlers are those that the constructor of a game server sets.
  pub record IsOwn (h : Handlers J (Inbox J)) : Type 0 where
    pub own_open : h.handle_open ≡ player_connect
    pub own_close : h.handle_close ≡ player_disconnect
    pub own_message : h.handle_message ≡ process_message

  abbrev Owns : Server J (Inbox J) → Type 0
  Owns b = IsOwn b.handlers

Owns-IsLasting : {J Jwt : Type 0} → (env : Env J Jwt) → IsLasting env Owns
Owns-IsLasting env = record {
  completes = λ r sid result_sid d b o.
      subst IsOwn (sym (handlers-complete_session env r sid result_sid d b)) o;
  sends = λ id msg b o. subst IsOwn (sym (handlers-send_message id msg b)) o;
  takes = λ app b o. o;
}

module _ {J G : Type 0} where
  init-Owns :
      (release_time : ℕ) (s : GameServer J G) → init release_time ≡ ok s → IsOwn s.base.handlers
  unfolding init connect_handlers set_open set_close set_message
  init-Owns release_time s e =
      subst (λ (s' : GameServer J G). IsOwn s'.base.handlers) (ap (after s) e)
        (record { own_open = refl; own_close = refl; own_message = refl })

module _ {J Jwt G : Type 0} (env : Env J Jwt) (clock : ℕ → Readings) (api : GameApi J G) where
  abbrev OwnsBase : GameServer J G → Type 0
  OwnsBase s = IsOwn s.base.handlers

  pub reachable-IsOwn :
      {on : Bool} {s : GameServer J G} → Reachable env clock api on s → IsOwn s.base.handlers
  unfolding run enter_update_games
  reachable-IsOwn (new release_time s e) = init-Owns release_time s e
  reachable-IsOwn (acts {on} {s} i r) =
      subst IsOwn (sym (handlers-step env i s.base)) (reachable-IsOwn r)
  reachable-IsOwn (sets_http {on} {s} {s'} f r e) =
      let o = reachable-IsOwn r in
      subst OwnsBase (sets_http_cases f s s' e)
        (record { own_open = o.own_open; own_close = o.own_close; own_message = o.own_message })
  reachable-IsOwn (sets_tls {on} {s} {s'} r e) =
      subst OwnsBase (sets_tls_cases s s' e) (reachable-IsOwn r)
  reachable-IsOwn (starts {s} port unlock_address r) =
      subst IsOwn (sym (handlers-run port unlock_address s.base)) (reachable-IsOwn r)
  reachable-IsOwn (begins now r) = reachable-IsOwn r
  reachable-IsOwn (rounds {s} {s'} timestep now woken start r on e) = subst (Held Owns) e (
      update_games-Held env clock api Owns (Owns-IsLasting env) timestep now woken start s
        (reachable-IsOwn r))
  reachable-IsOwn (ends r off) = reachable-IsOwn r
  reachable-IsOwn (stops {on} {s} {s'} r e) =
      subst OwnsBase (stop_cases env s s' e)
        (subst IsOwn (sym (handlers-shut_down env s.base)) (reachable-IsOwn r))
  reachable-IsOwn (resets {on} {s} {s'} r e) =
      subst OwnsBase (reset_cases env s s' e)
        (subst IsOwn (sym (handlers-shut_down env s.base)) (reachable-IsOwn r))

  -- In every state that a game server reaches, whatever handlers for HTTP and TLS its owner sets, if it
  -- is started again only after the loop of `update_games` has ended: the base server calls the game
  -- server's own three handlers, its connections are consistent, each game has its messages,
  -- get_player_count is the number of clients with a connection and get_game_count the number of games
  -- (both modulo 2^64).
  pub in_charge :
      {on : Bool} {s : GameServer J G}
      → Reachable env clock api on s
      → IsOwn s.base.handlers
        × IsValid s.base
        × IsPaired s.games s.out_messages s.game_count
        × (get_player_count s ≡ length s.base.id_connections % size_mod)
        × (get_game_count s ≡ length s.games % size_mod)
  unfolding get_player_count get_game_count
  in_charge r =
      let v = kept env clock api r in
      (reachable-IsOwn r, v.links, v.tables, v.links.counted, v.tables.counted)

  -- In every state that a running game server reaches while `update_games` is executed, under the same
  -- condition: if a worker reads a token that proves an id, of a session that is not over, and the game
  -- made of the token's data is valid, then the next connection updates meet no missing entry, and the
  -- session has a game after them.
  pub admitted_plays :
      (t : Times) (hdl : ℕ) (token : String) {s : GameServer J G} (id : CombinedId) (d : J)
      → Reachable env clock api true s
      → s.base.is_running ≡ true
      → read_token env t.jwt_now token ≡ valid (id, d)
      → BufferedMap.contains (update_session_locks t.locks s.base.locks).locked id.session ≡ false
      → api.is_valid (api.make d) ≡ true
      → let s1 : GameServer J G = record s { base = open_session env t hdl token s.base } in
        (s' : GameServer J G) × (process_connection_updates env clock api s1 ≡ some s')
        × (is_some (lookup ℕ_discrete id.session s'.games) ≡ true)
  admitted_plays t hdl token {s} id d r on e free good =
      let v = kept env clock api r in
      login_plays env clock api t hdl token s id d
        (record { tables = v.tables; erasable = v.erasable refl on }) (reachable-IsOwn r).own_open e
        free good
