-- ===== src/Game/Updates.antt =====
-- `process_connection_updates` of include/simple_web_game_server/game_server.hpp. `none` is a fault:
-- a use of the end iterator, or std::out_of_range.
use simple_web_game_server.Prelude.Options.{◌>>=◌}
use simple_web_game_server.Prelude.{
  ℕ, ◌+◌, Option, none, some, List, [], ◌∷◌, if◌then◌else◌, ℕ_discrete,
}
use simple_web_game_server.Prelude.Assoc.{Assoc, lookup, emplace, update}
use simple_web_game_server.Locks.{Readings}
use simple_web_game_server.Base.{Env}
use simple_web_game_server.Base.Link.{incr}
use simple_web_game_server.Base.Sessions.{complete_session}
use simple_web_game_server.Game.{
  Message, GameApi, ConnectionUpdate, connected, disconnected, GameServer,
}

-- it->second = v, for an iterator at the key
abbrev pub put : {V : Type 0} → ℕ → V → Assoc ℕ V → Assoc ℕ V
put k v = update ℕ_discrete k v (λ _. v)

module _ {J G : Type 0} where
  unfoldable pub with_game :
      ℕ → (List Message → G → G × List Message) → GameServer J G → Option (GameServer J G)
  with_game sid method s = do
    game ← lookup ℕ_discrete sid s.games
    out ← lookup ℕ_discrete sid s.out_messages
    let result = method out game
    some (record s {
      games = put sid result.0 s.games;
      out_messages = put sid result.1 s.out_messages;
    })

  unfoldable pub create_game : ℕ → G → GameServer J G → GameServer J G
  create_game sid game s = record s {
    games = emplace ℕ_discrete sid game s.games;
    out_messages = emplace ℕ_discrete sid [] s.out_messages;
    game_count = incr s.game_count;
  }

  -- the two halves of the pair are swapped
  abbrev pub swap_updates : GameServer J G → GameServer J G
  swap_updates s = record s {
    connection_updates = s.base.app.updates;
    base = record s.base { app = record s.base.app { updates = s.connection_updates } };
  }

module _ {J Jwt G : Type 0} (env : Env J Jwt) (clock : ℕ → Readings) (api : GameApi J G) where
  -- the call of `complete_session` on the base server, which reads the clock
  unfoldable pub finish_session : ℕ → J → GameServer J G → GameServer J G
  finish_session sid state s = record s {
    base = complete_session env (clock s.readings) sid sid state s.base;
    readings = s.readings + 1;
  }

  unfoldable pub process_update : ConnectionUpdate J → GameServer J G → Option (GameServer J G)
  unfolding finish_session with_game create_game
  process_update (disconnected id) s = elim (lookup ℕ_discrete id.session s.games) [
    | none ↦ some s
    | some game ↦ with_game id.session (λ out g. api.disconnect out id.player g) s
  ]
  process_update (connected id login) s = elim (lookup ℕ_discrete id.session s.games) [
    | some game ↦ with_game id.session (λ out g. api.connect out id.player g) s
    | none ↦
        let game = api.make login in
        if api.is_valid game
        then with_game id.session (λ out g. api.connect out id.player g)
            (create_game id.session game s)
        else some (finish_session id.session (api.get_state game) s)
  ]

  unfoldable pub process_updates :
      List (ConnectionUpdate J) → GameServer J G → Option (GameServer J G)
  unfolding process_update
  process_updates [] s = some s
  process_updates (u ∷ us) s = do s' ← process_update u s; process_updates us s'

  unfoldable pub process_connection_updates : GameServer J G → Option (GameServer J G)
  unfolding process_updates
  process_connection_updates s = do
    s' ← process_updates (swap_updates s).connection_updates (swap_updates s)
    some (record s' { connection_updates = [] })
