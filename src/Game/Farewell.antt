-- ===== src/Game/Farewell.antt =====
-- How the players of a game that is over hear of its result: `finish_games`, in a time-step of
-- `update_games` in include/simple_web_game_server/game_server.hpp.
use mathlib.Core.List.{Mem}
use simple_web_game_server.Prelude.Options.{◌>>=◌, bind-some}
use simple_web_game_server.Prelude.{
  ℕ, ◌≡◌, sym, ap, subst, ◌∙◌, inl, inr, true, Option, none, some, List, [], ◌∷◌, arith, Bool-cases,
  ℕ_discrete,
}
use simple_web_game_server.Prelude.Assoc.{Assoc, lookup}
use simple_web_game_server.Locks.{Readings}
use simple_web_game_server.Base.{Action, SessionData, Env, Server}
use simple_web_game_server.Base.Completion.{farewell}
use simple_web_game_server.Base.Waiting.{
  IsWaiting, complete_session-keeps, complete_session-IsWaiting, complete_session-told,
  send_message-IsWaiting,
}
use simple_web_game_server.Game.{Message, GameApi, Inbox, GameServer}
use simple_web_game_server.Game.Links.{erase_games-base}
use simple_web_game_server.Game.Loop.{
  erase_games, swap_messages, send_session, send_all, send_out, advance_games, process_game_updates,
  finish_games, time_step,
}
use simple_web_game_server.Game.Progress.{finish_games-Finished}
use simple_web_game_server.Game.Updates.{finish_session, process_connection_updates}

-- the result of a game
abbrev pub outcome : {J G : Type 0} → GameApi J G → ℕ → G → SessionData J
outcome api sid game = record { session = sid; result = api.get_state game }

module _ {J : Type 0} (pid sid hdl : ℕ) where
  send_session-IsWaiting :
      (k : ℕ) (ms : List Message) (b : Server J (Inbox J))
      → IsWaiting pid sid hdl b
      → IsWaiting pid sid hdl (send_session k ms b)
  unfolding send_session
  send_session-IsWaiting k [] b w = w
  send_session-IsWaiting k (m ∷ ms) b w =
      send_session-IsWaiting k ms _
        (send_message-IsWaiting pid sid hdl (record { player = m.0; session = k }) m.1 b w)

  send_all-IsWaiting :
      (outs : Assoc ℕ (List Message)) (b : Server J (Inbox J))
      → IsWaiting pid sid hdl b
      → IsWaiting pid sid hdl (send_all outs b)
  unfolding send_all
  send_all-IsWaiting [] b w = w
  send_all-IsWaiting (out ∷ outs) b w =
      send_all-IsWaiting outs _ (send_session-IsWaiting out.0 out.1 b w)

module _ {J G : Type 0} (api : GameApi J G) where
  process_game_updates-IsWaiting :
      (pid sid hdl delta : ℕ) (s s' : GameServer J G)
      → process_game_updates api delta s ≡ some s'
      → IsWaiting pid sid hdl s.base
      → IsWaiting pid sid hdl s'.base
  unfolding process_game_updates
  process_game_updates-IsWaiting pid sid hdl delta s s' e w =
      let s1 = swap_messages s in
      let (r, _, f) =
        bind-some (advance_games api delta s1.in_messages s1.games s1.out_messages) _ e in
      subst Waits f (record { links = w.links; not_over = w.not_over; there = w.there })
    where
      Waits : Option (GameServer J G) → Type 0
      Waits none = Unit
      Waits (some s) = IsWaiting pid sid hdl s.base

module _ {J Jwt G : Type 0} (env : Env J Jwt) (clock : ℕ → Readings) (api : GameApi J G) where
  finish_games-keeps :
      (games : Assoc ℕ G) (s : GameServer J G) (a : Action)
      → Mem a s.base.actions
      → Mem a (finish_games env clock api games s).base.actions
  unfolding finish_games finish_session
  finish_games-keeps [] s a m = m
  finish_games-keeps ((sid, game) ∷ games) s a m = elim (Bool-cases (api.is_done game)) [
    | inr more ↦ rw (more, finish_games) (finish_games-keeps games s a m)
    | inl done ↦
        rw (done, finish_games)
          (finish_games-keeps games _ a
            (complete_session-keeps env (clock s.readings) sid sid (api.get_state game) s.base a m))
  ]

  finish_games-told :
      (pid sid hdl : ℕ) (games : Assoc ℕ G) (game : G) (s : GameServer J G)
      → lookup ℕ_discrete sid games ≡ some game
      → api.is_done game ≡ true
      → IsWaiting pid sid hdl s.base
      → Mem
          (farewell env (outcome api sid game) pid hdl)
          (finish_games env clock api games s).base.actions
  unfolding finish_games finish_session lookup
  finish_games-told pid sid hdl [] game s e done w = absurd (ground arith)
  finish_games-told pid sid hdl ((k, g) ∷ games) game s e done w = elim (ℕ_discrete k sid) [
    | yes same ↦
        let it : g ≡ game = ground arith in
        let over : api.is_done g ≡ true = rw it done in
        rw (over, finish_games)
          (finish_games-keeps games _ _ (
            rw (same, it)
              (complete_session-told env (clock s.readings) sid sid pid hdl (api.get_state game)
                s.base w)))
    | no other ↦
        let there : lookup ℕ_discrete sid games ≡ some game = ground arith in
        elim (Bool-cases (api.is_done g)) [
          | inr more ↦
              rw (more, finish_games) (finish_games-told pid sid hdl games game s there done w)
          | inl over ↦
              rw (over, finish_games)
                (finish_games-told pid sid hdl games game _ there done (
                  complete_session-IsWaiting env (clock s.readings) k k pid sid hdl
                    (api.get_state g) s.base other w))
        ]
  ]

  -- The game stands in the table of a result.
  abbrev Has : ℕ → G → Option (GameServer J G) → Type 0
  Has sid game none = ⊥
  Has sid game (some s) = lookup ℕ_discrete sid s.games ≡ some game

  abbrev Queued : Action → Option (GameServer J G) → Type 0
  Queued a none = ⊥
  Queued a (some s) = Mem a s.base.actions

  -- When a time-step ends, a game of the table is done, and a client of its session, whose base
  -- server's tables are consistent, was connected after the connection updates of the step, with the
  -- session not over: then the client has a last action in the queue, with the state of the game.
  pub finished_hears :
      (pid sid hdl delta start : ℕ) (s s1 s' : GameServer J G) (game : G)
      → process_connection_updates env clock api (record s { time_start = start }) ≡ some s1
      → IsWaiting pid sid hdl s1.base
      → time_step env clock api delta start s ≡ some s'
      → lookup ℕ_discrete sid s'.games ≡ some game
      → api.is_done game ≡ true
      → Mem (farewell env (outcome api sid game) pid hdl) s'.base.actions
  unfolding time_step send_out
  finished_hears pid sid hdl delta start s s1 s' game e w h there done =
      let after_updates : GameServer J G → Option (GameServer J G) = λ s1.
        process_game_updates api delta
          (record (erase_games s1.finished_games s1) { finished_games = [] })
        >>= λ s3. some (finish_games env clock api (send_out s3).games (send_out s3)) in
      let h1 : after_updates s1 ≡ some s' = ap (λ o. o >>= after_updates) (sym e) ∙ h in
      let s2 : GameServer J G = record (erase_games s1.finished_games s1) { finished_games = [] } in
      let w2 : IsWaiting pid sid hdl s2.base = rw (erase_games-base s1.finished_games s1) w in
      let (s3, e3, f) = bind-some (process_game_updates api delta s2) _ h1 in
      let s4 = send_out s3 in
      let w4 =
        send_all-IsWaiting pid sid hdl s3.out_messages s3.base
          (process_game_updates-IsWaiting api pid sid hdl delta s2 s3 e3 w2) in
      let there4 =
        ap (lookup ℕ_discrete sid)
          (sym (finish_games-Finished env clock api s4.games s4).same_games)
        ∙ subst (Has sid game) (sym f) there in
      subst (Queued (farewell env (outcome api sid game) pid hdl)) f
        (finish_games-told pid sid hdl s4.games game s4 there4 done w4)
