-- ===== src/Matchmaking/Handover.antt =====
-- How the players of a matched session hear of their game: `finish_games`, in a time-step of
-- `match_players` in include/simple_web_game_server/matchmaking_server.hpp.
use mathlib.Core.List.{Mem, mem-cons_self, mem-cons_of_mem}
use simple_web_game_server.Prelude.{length, ◌≤◌, subst, sym, ◌∙◌}
use simple_web_game_server.Prelude.{
  ℕ, ◌≡◌, refl, inl, inr, true, false, String, Option, none, some, List, [], ◌∷◌, arith,
  if◌then◌else◌, Bool-cases, ℕ_discrete,
}
use simple_web_game_server.Prelude.Assoc.{lookup}
use simple_web_game_server.Prelude.NatSet.{contains}
use simple_web_game_server.Locks.{Readings}
use simple_web_game_server.Base.{Action, SessionData, Env, Server, send, close}
use simple_web_game_server.Base.Link.{players_at}
use simple_web_game_server.Base.Completion.{client, farewell}
use simple_web_game_server.Base.Delivery.{issued}
use simple_web_game_server.Base.Queue.{rounds}
use simple_web_game_server.Base.Worker.{Input, run_inputs}
use simple_web_game_server.Base.Waiting.{
  IsWaiting, send_message-IsWaiting, complete_session-keeps, complete_session-IsWaiting,
  complete_session-told,
}
use simple_web_game_server.Matchmaking.{Message, MatchedGame, MatchApi, Inbox, MatchServer}
use simple_web_game_server.Matchmaking.Updates.{finish_session, process_connection_updates}
use simple_web_game_server.Matchmaking.Loop.{
  send_players, send_messages, forget_sessions, swap_finished, finish_sessions, finish_games,
  time_step,
}

-- The first of some games that a session is in.
unfoldable pub first_game : {J : Type 0} → ℕ → List (MatchedGame J) → Option (MatchedGame J)
first_game sid [] = none
first_game sid (g ∷ gs) =
    let rest = first_game sid gs in if contains sid g.sessions then some g else rest

-- The action stands in the queue of a result.
abbrev Queued : {J D M : Type 0} → Action → Option (MatchServer J D M) → Type 0
Queued a none = ⊥
Queued a (some s) = Mem a s.base.actions

-- the result of a matched session
abbrev pub as_result : {J : Type 0} → MatchedGame J → SessionData J
as_result g = record { session = g.game_sid; result = g.game_data }

module _ {J : Type 0} (moved : String → String) (pid sid hdl : ℕ) where
  send_players-IsWaiting :
      (k : ℕ) (pids : List ℕ) (msg : String) (b : Server J (Inbox J))
      → IsWaiting pid sid hdl b
      → IsWaiting pid sid hdl (send_players moved k pids msg b)
  unfolding send_players
  send_players-IsWaiting k [] msg b w = w
  send_players-IsWaiting k (p ∷ pids) msg b w =
      send_players-IsWaiting k pids _ _
        (send_message-IsWaiting pid sid hdl (record { player = p; session = k }) msg b w)

module _ {J D M : Type 0} (moved : String → String) (pid sid hdl : ℕ) where
  send_messages-IsWaiting :
      (ms : List Message) (s : MatchServer J D M)
      → IsWaiting pid sid hdl s.base
      → IsWaiting pid sid hdl (send_messages moved ms s).base
  unfolding send_messages
  send_messages-IsWaiting [] s w = w
  send_messages-IsWaiting ((k, msg) ∷ ms) s w =
      let pids = players_at (lookup ℕ_discrete k s.session_players) in
      send_messages-IsWaiting ms (record s { base = send_players moved k pids msg s.base })
        (send_players-IsWaiting moved pid sid hdl k pids msg s.base w)

module _ {J D M : Type 0} where
  base-forget_sessions :
      (sids : List ℕ) (s : MatchServer J D M) → (forget_sessions sids s).base ≡ s.base
  unfolding forget_sessions
  base-forget_sessions [] s = refl
  base-forget_sessions (sid ∷ sids) s = base-forget_sessions sids _

module _ {J Jwt D M : Type 0} (env : Env J Jwt) (clock : ℕ → Readings) (api : MatchApi J D M)
    (moved : String → String) where
  finish_sessions-keeps :
      (sids : List ℕ) (game_sid : ℕ) (d : J) (s : MatchServer J D M) (a : Action)
      → Mem a s.base.actions
      → Mem a (finish_sessions env clock api moved sids game_sid d s).base.actions
  unfolding finish_sessions finish_session
  finish_sessions-keeps [] game_sid d s a m = m
  finish_sessions-keeps (sid ∷ sids) game_sid d s a m =
      finish_sessions-keeps sids game_sid d _ a
        (complete_session-keeps env (clock s.readings) sid game_sid d s.base a m)

  finish_games-keeps :
      (gs : List (MatchedGame J)) (s : MatchServer J D M) (a : Action)
      → Mem a s.base.actions
      → Mem a (finish_games env clock api moved gs s).base.actions
  unfolding finish_games
  finish_games-keeps [] s a m = m
  finish_games-keeps (g ∷ gs) s a m =
      finish_games-keeps gs _ a (finish_sessions-keeps g.sessions g.game_sid g.game_data s a m)

  module _ (pid sid hdl : ℕ) where
    finish_sessions-IsWaiting :
        (sids : List ℕ) (game_sid : ℕ) (d : J) (s : MatchServer J D M)
        → contains sid sids ≡ false
        → IsWaiting pid sid hdl s.base
        → IsWaiting pid sid hdl (finish_sessions env clock api moved sids game_sid d s).base
    unfolding finish_sessions finish_session contains
    finish_sessions-IsWaiting [] game_sid d s c w = w
    finish_sessions-IsWaiting (k ∷ sids) game_sid d s c w =
        finish_sessions-IsWaiting sids game_sid d _ (ground arith) (
          complete_session-IsWaiting env (clock s.readings) k game_sid pid sid hdl d s.base
            (λ e. ground arith) w)

    finish_sessions-told :
        (sids : List ℕ) (game_sid : ℕ) (d : J) (s : MatchServer J D M)
        → contains sid sids ≡ true
        → IsWaiting pid sid hdl s.base
        → Mem
            (farewell env (record { session = game_sid; result = d }) pid hdl)
            (finish_sessions env clock api moved sids game_sid d s).base.actions
    unfolding finish_sessions finish_session contains
    finish_sessions-told [] game_sid d s c w = absurd (ground arith)
    finish_sessions-told (k ∷ sids) game_sid d s c w = elim (ℕ_discrete k sid) [
      | yes same ↦
          finish_sessions-keeps sids game_sid d _ _
            (complete_session-told env (clock s.readings) k game_sid pid hdl d s.base (rw same w))
      | no other ↦ finish_sessions-told sids game_sid d _ (ground arith) (
          complete_session-IsWaiting env (clock s.readings) k game_sid pid sid hdl d s.base other w)
    ]

    finish_games-told :
        (gs : List (MatchedGame J)) (g : MatchedGame J) (s : MatchServer J D M)
        → first_game sid gs ≡ some g
        → IsWaiting pid sid hdl s.base
        → Mem
            (farewell env (as_result g) pid hdl)
            (finish_games env clock api moved gs s).base.actions
    unfolding finish_games first_game
    finish_games-told [] g s e w = cc
    finish_games-told (g' ∷ gs) g s e w = elim (Bool-cases (contains sid g'.sessions)) [
      | inl inside ↦
          let same : g' ≡ g = ground arith in
          rw (← same) (
            finish_games-keeps gs _ _
              (finish_sessions-told g'.sessions g'.game_sid g'.game_data s inside w))
      | inr outside ↦
          finish_games-told gs g _ (ground arith)
            (finish_sessions-IsWaiting g'.sessions g'.game_sid g'.game_data s outside w)
    ]

    -- After the connection updates of a time-step that gives a result, a client of a session that is
    -- not over, whose base server's tables are consistent, has its last action in the queue when the
    -- step ends, with the data of the first game that the matchmaker has put the session into.
    pub matched_hears :
        (delta start : ℕ) (s s1 : MatchServer J D M) (g : MatchedGame J)
        → process_connection_updates env clock api (record s { time_start = start }) ≡ some s1
        → IsWaiting pid sid hdl s1.base
        → let s2 = forget_sessions s1.finished_first s1 in
          first_game sid (api.pair_up s2.session_data delta s2.matchmaker).1 ≡ some g
          → (s' : MatchServer J D M) × (time_step env clock api moved delta start s ≡ some s')
            × Mem (farewell env (as_result g) pid hdl) s'.base.actions
    unfolding time_step
    matched_hears delta start s s1 g e w f =
        let s2 = swap_finished (forget_sessions s1.finished_first s1) in
        let result = api.pair_up s2.session_data delta s2.matchmaker in
        let s3 = record s2 { matchmaker = result.0 } in
        let w3 : IsWaiting pid sid hdl s3.base = rw (base-forget_sessions s1.finished_first s1) w in
        (
          finish_games env clock api moved result.1 (send_messages moved result.2 s3),
          rw e refl,
          finish_games-told result.1 g _ f
              (send_messages-IsWaiting moved pid sid hdl result.2 s3 w3),
        )

    -- A client of a session that is not over after the connection updates of a time-step, whose base
    -- server's tables are consistent then, and whose session the matchmaker puts into a game: if the
    -- server runs when the step ends, then as soon as there have been as many rounds of a worker as the
    -- queue had actions, whatever events come between, the client's connection has been sent the text
    -- for the first such game, and has been closed.
    pub matched_sent :
        (delta start : ℕ) (s s1 s' : MatchServer J D M) (g : MatchedGame J) (is : List (Input J))
        → process_connection_updates env clock api (record s { time_start = start }) ≡ some s1
        → IsWaiting pid sid hdl s1.base
        → let s2 = forget_sessions s1.finished_first s1 in
          first_game sid (api.pair_up s2.session_data delta s2.matchmaker).1 ≡ some g
          → time_step env clock api moved delta start s ≡ some s'
          → s'.base.is_running ≡ true
          → length s'.base.actions ≤ rounds is
          → let text = env.get_result_str (client pid g.game_sid) g.game_data in
            Mem (send hdl text) (run_inputs env is s'.base).calls
            × Mem (close hdl env.reasons.session_complete) (run_inputs env is s'.base).calls
    matched_sent delta start s s1 s' g is e w f stepped on enough =
        let (s3, same, told) = matched_hears delta start s s1 g e w f in
        let there : Mem (farewell env (as_result g) pid hdl) s'.base.actions =
          subst (Queued (farewell env (as_result g) pid hdl)) (sym same ∙ stepped) told in
        (
          issued env is _ _ s'.base on there mem-cons_self enough,
          issued env is _ _ s'.base on there (mem-cons_of_mem _ mem-cons_self) enough,
        )
