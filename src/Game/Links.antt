-- ===== src/Game/Links.antt =====
-- The base server of include/simple_web_game_server/game_server.hpp through a round of `update_games`:
-- what its two operations that the round uses keep, the round keeps.
use simple_web_game_server.Prelude.Options.{◌>>=◌}
use simple_web_game_server.Prelude.{
  ℕ, ◌≡◌, refl, inl, inr, Bool, true, false, String, Option, none, some, List, [], ◌∷◌,
  if◌then◌else◌, Bool-cases, Option-cases, ℕ_discrete, ltb,
}
use simple_web_game_server.Prelude.Assoc.{Assoc, lookup}
use simple_web_game_server.Locks.{Readings, elapsed_ms}
use simple_web_game_server.Base.{CombinedId, Env, Server}
use simple_web_game_server.Base.Link.{send_message}
use simple_web_game_server.Base.Sessions.{complete_session}
use simple_web_game_server.Game.{
  Message, GameApi, Inbox, ConnectionUpdate, connected, disconnected, GameServer,
}
use simple_web_game_server.Game.Updates.{
  with_game, create_game, finish_session, process_update, process_updates,
  process_connection_updates,
}
use simple_web_game_server.Game.Loop.{
  erase_games, send_session, send_all, send_out, advance_games, process_game_updates, finish_games,
  time_step, update_games, waits, restarted, swap_messages,
}

-- A property that a result has, if there is one.
abbrev pub Held : {J G : Type 0} → (Server J (Inbox J) → Type 0) → Option (GameServer J G) → Type 0
Held P none = Unit
Held P (some s) = P s.base

-- A property of the base server that outlives what the game server does with it.
pub record IsLasting {J Jwt : Type 0} (env : Env J Jwt) (P : Server J (Inbox J) → Type 0)
    : Type 0 where
  pub completes :
      (r : Readings) (sid result_sid : ℕ) (d : J) (b : Server J (Inbox J))
      → P b
      → P (complete_session env r sid result_sid d b)
  pub sends :
      (id : CombinedId) (msg : String) (b : Server J (Inbox J)) → P b → P (send_message id msg b)
  pub takes : (app : Inbox J) (b : Server J (Inbox J)) → P b → P (record b { app = app })

module _ {J G : Type 0} (P : Server J (Inbox J) → Type 0) where
  Held-bind :
      (o : Option (GameServer J G)) (f : GameServer J G → Option (GameServer J G))
      → Held P o
      → ((s : GameServer J G) → P s.base → Held P (f s))
      → Held P (o >>= f)
  Held-bind none f h k = tt
  Held-bind (some s) f h k = k s h

  with_game-Held :
      (sid : ℕ) (method : List Message → G → G × List Message) (s : GameServer J G)
      → P s.base
      → Held P (with_game sid method s)
  unfolding with_game
  with_game-Held sid method s v = elim (Option-cases (lookup ℕ_discrete sid s.games)) [
    | inl e ↦ rw (e, with_game) tt
    | inr (g, e) ↦ elim (Option-cases (lookup ℕ_discrete sid s.out_messages)) [
      | inl e' ↦ rw (e, with_game, e') tt
      | inr (o, e') ↦ rw (e, with_game, e') v
    ]
  ]

module _ {J G : Type 0} where
  pub erase_games-base : (sids : List ℕ) (s : GameServer J G) → (erase_games sids s).base ≡ s.base
  unfolding erase_games
  erase_games-base [] s = refl
  erase_games-base (sid ∷ sids) s = erase_games-base sids _

module _ {J Jwt : Type 0} (env : Env J Jwt) (P : Server J (Inbox J) → Type 0)
    (lasting : IsLasting env P) where
  send_session-keeps :
      (sid : ℕ) (ms : List Message) (b : Server J (Inbox J)) → P b → P (send_session sid ms b)
  unfolding send_session
  send_session-keeps sid [] b v = v
  send_session-keeps sid (m ∷ ms) b v =
      let id : CombinedId = record { player = m.0; session = sid } in
      send_session-keeps sid ms _ (lasting.sends id m.1 b v)

  send_all-keeps :
      (outs : Assoc ℕ (List Message)) (b : Server J (Inbox J)) → P b → P (send_all outs b)
  unfolding send_all
  send_all-keeps [] b v = v
  send_all-keeps (out ∷ outs) b v = send_all-keeps outs _ (send_session-keeps out.0 out.1 b v)

module _ {J Jwt G : Type 0} (env : Env J Jwt) (clock : ℕ → Readings) (api : GameApi J G)
    (P : Server J (Inbox J) → Type 0) (lasting : IsLasting env P) where
  finish_session-keeps :
      (sid : ℕ) (d : J) (s : GameServer J G)
      → P s.base
      → P (finish_session env clock api sid d s).base
  unfolding finish_session
  finish_session-keeps sid d s v = lasting.completes (clock s.readings) sid sid d s.base v

  process_update-Held :
      (u : ConnectionUpdate J) (s : GameServer J G)
      → P s.base
      → Held P (process_update env clock api u s)
  unfolding process_update create_game
  process_update-Held (disconnected id) s v =
      elim (Option-cases (lookup ℕ_discrete id.session s.games)) [
        | inl e ↦ rw (e, process_update) v
        | inr (g, e) ↦ rw (e, process_update) (with_game-Held P id.session _ s v)
      ]
  process_update-Held (connected id login) s v =
      elim (Option-cases (lookup ℕ_discrete id.session s.games)) [
        | inr (g, e) ↦ rw (e, process_update) (with_game-Held P id.session _ s v)
        | inl e ↦ elim (Bool-cases (api.is_valid (api.make login))) [
          | inl good ↦ rw (e, process_update, good) (with_game-Held P id.session _ _ v)
          | inr bad ↦ rw (e, process_update, bad) (finish_session-keeps id.session _ s v)
        ]
      ]

  process_updates-Held :
      (us : List (ConnectionUpdate J)) (s : GameServer J G)
      → P s.base
      → Held P (process_updates env clock api us s)
  unfolding process_updates
  process_updates-Held [] s v = v
  process_updates-Held (u ∷ us) s v =
      Held-bind P (process_update env clock api u s) _ (process_update-Held u s v)
        (λ s' w. process_updates-Held us s' w)

  process_game_updates-Held :
      (delta : ℕ) (s : GameServer J G) → P s.base → Held P (process_game_updates api delta s)
  unfolding process_game_updates
  process_game_updates-Held delta s v =
      let s1 = swap_messages s in
      elim (Option-cases (advance_games api delta s1.in_messages s1.games s1.out_messages)) [
        | inl e ↦ rw (e, process_game_updates) tt
        | inr (r, e) ↦ rw (e, process_game_updates) (lasting.takes _ _ v)
      ]

  finish_games-keeps :
      (games : Assoc ℕ G) (s : GameServer J G)
      → P s.base
      → P (finish_games env clock api games s).base
  unfolding finish_games
  finish_games-keeps [] s v = v
  finish_games-keeps ((sid, game) ∷ games) s v = elim (Bool-cases (api.is_done game)) [
    | inl e ↦ rw (e, finish_games) (finish_games-keeps games _ (finish_session-keeps sid _ s v))
    | inr e ↦ rw (e, finish_games) (finish_games-keeps games s v)
  ]

  time_step-Held :
      (delta start : ℕ) (s : GameServer J G)
      → P s.base
      → Held P (time_step env clock api delta start s)
  unfolding time_step process_connection_updates send_out
  time_step-Held delta start s v =
      Held-bind P (process_connection_updates env clock api (record s { time_start = start })) _
        (Held-bind P (process_updates env clock api s.base.app.updates _) _
          (process_updates-Held s.base.app.updates _ (lasting.takes _ _ v)) (λ s1 w. w))
        (λ s1 w.
          let s2 = record (erase_games s1.finished_games s1) { finished_games = [] } in
          Held-bind P (process_game_updates api delta s2) _
            (process_game_updates-Held delta s2 (rw (erase_games-base s1.finished_games s1) w))
            (λ s3 x.
              finish_games-keeps (send_out s3).games (send_out s3)
                (send_all-keeps env P lasting s3.out_messages s3.base x)))

  pub update_games-Held :
      (timestep now : ℕ) (woken : Option ℕ) (start : ℕ) (s : GameServer J G)
      → P s.base
      → Held P (update_games env clock api timestep now woken start s)
  unfolding update_games
  update_games-Held timestep now woken start s v =
      Held-if s.base.is_running _ _
        (Held-if (waits s) _ _ v (
          Held-if (ltb (elapsed_ms now s.time_start) timestep) _ _ (restarted-keeps woken)
            (time_step-Held _ start (restarted woken s) (restarted-keeps woken))))
        v
    where
      Held-if :
          (b : Bool) (o o' : Option (GameServer J G))
          → Held P o
          → Held P o'
          → Held P (if b then o else o')
      Held-if true o o' h k = h
      Held-if false o o' h k = k

      restarted-keeps : (woken : Option ℕ) → P (restarted woken s).base
      restarted-keeps none = v
      restarted-keeps (some t) = v
