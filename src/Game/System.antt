-- ===== src/Game/System.antt =====
-- The whole of include/simple_web_game_server/game_server.hpp: the base server, whose events come from
-- the clients, and the thread of `update_games`, one step after the other.
use simple_web_game_server.Prelude.{
  ℕ, ◌≡◌, refl, sym, ap, subst, ◌∙◌, arith, Bool, true, false, Option, none, some, if◌then◌else◌,
  ltb, [],
}
use simple_web_game_server.Prelude.Assoc.{lookup}
use simple_web_game_server.Locks.{Readings, elapsed_ms}
use simple_web_game_server.Base.{WsCall, Env, Server, Result, ok, ◌>>=◌, call, reset_endpoint}
use simple_web_game_server.Base.Worker.{Input, step}
use simple_web_game_server.Base.Lifecycle
use simple_web_game_server.Base.Lifecycle.{after}
use simple_web_game_server.Base.Invariant.{
  IsValid, step-IsValid, live_step-IsValid, complete_session-IsValid, send_message-IsValid,
  empty-IsLinked,
}
use simple_web_game_server.Base.Shutdown.{close_all_lem, shut_down-is_running, if-ok, if-stopped}
use simple_web_game_server.Base.Rounds.{step-is_running}
use simple_web_game_server.Game.{GameApi, Inbox, GameServer}
use simple_web_game_server.Game.Tables.{IsPaired, Erasable, IsSound}
use simple_web_game_server.Game.Progress.{time_step-IsSound}
use simple_web_game_server.Game.Links.{Held, IsLasting, update_games-Held}
use simple_web_game_server.Game.Loop.{update_games, waits, restarted}
use simple_web_game_server.Game.Lifecycle.{
  init, connect_handlers, enter_update_games, set_http_handler, set_tls_init_handler, run, stop,
  reset, empty_inbox,
}

module _ {J Jwt G : Type 0} (env : Env J Jwt) (clock : ℕ → Readings) (api : GameApi J G) where
  -- The states that the server reaches, and whether `update_games` is being executed there. The
  -- server is started again only when the loop has seen that it was stopped, and has ended.
  pub data Reachable : Bool → GameServer J G → Type 0 where
    new : (release_time : ℕ) (s : GameServer J G) → init release_time ≡ ok s → Reachable false s
    acts :
        {on : Bool} {s : GameServer J G} (i : Input J)
        → Reachable on s
        → Reachable on (record s { base = step env i s.base })
    sets_http :
        {on : Bool} {s s' : GameServer J G} (f : ℕ → Inbox J → Inbox J)
        → Reachable on s
        → set_http_handler f s ≡ ok s'
        → Reachable on s'
    sets_tls :
        {on : Bool} {s s' : GameServer J G}
        → Reachable on s
        → set_tls_init_handler s ≡ ok s'
        → Reachable on s'
    starts :
        {s : GameServer J G} (port : ℕ) (unlock_address : Bool)
        → Reachable false s
        → Reachable false (run port unlock_address s)
    begins :
        {s : GameServer J G} (now : ℕ)
        → Reachable false s
        → Reachable true (enter_update_games now s)
    rounds :
        {s s' : GameServer J G} (timestep now : ℕ) (woken : Option ℕ) (start : ℕ)
        → Reachable true s
        → s.base.is_running ≡ true
        → update_games env clock api timestep now woken start s ≡ some s'
        → Reachable true s'
    ends : {s : GameServer J G} → Reachable true s → s.base.is_running ≡ false → Reachable false s
    stops :
        {on : Bool} {s s' : GameServer J G} → Reachable on s → stop env s ≡ ok s' → Reachable on s'
    resets :
        {on : Bool} {s s' : GameServer J G} → Reachable on s → reset env s ≡ ok s' → Reachable on s'

empty-IsPaired : {G : Type 0} → IsPaired {G = G} [] [] 0
unfolding lookup
empty-IsPaired = record { paired = λ sid. refl; distinct = tt; counted = refl }

module _ {J G : Type 0} where
  pub record IsKept (on : Bool) (s : GameServer J G) : Type 0 where
    pub links : IsValid s.base
    pub tables : IsPaired s.games s.out_messages s.game_count
    pub erasable : on ≡ true → s.base.is_running ≡ true → Erasable s.finished_games s.games

  init-IsKept : (release_time : ℕ) (s : GameServer J G) → init release_time ≡ ok s → IsKept false s
  unfolding init connect_handlers
  init-IsKept release_time s e = subst (IsKept false) (ap (after s) e) (record {
    links = empty-IsLinked;
    tables = empty-IsPaired;
    erasable = λ f. absurd (ground arith);
  })

module _ {J G : Type 0} where
  -- What a setter of the owner makes of a server, which is not running.
  pub sets_http_cases :
      (f : ℕ → Inbox J → Inbox J) (s s' : GameServer J G)
      → set_http_handler f s ≡ ok s'
      → record s {
        base =
            call WsCall.set_http_handler
              (record s.base { handlers = record s.base.handlers { handle_http = f } });
      }
        ≡ s'
  unfolding set_http_handler Lifecycle.set_http
  sets_http_cases f s s' e = ap (after s) (if-stopped s.base.is_running _ _ _ e).1

  pub sets_tls_cases :
      (s s' : GameServer J G)
      → set_tls_init_handler s ≡ ok s'
      → record s { base = call WsCall.set_tls_init_handler s.base } ≡ s'
  unfolding set_tls_init_handler Lifecycle.set_tls_init
  sets_tls_cases s s' e = ap (after s) (if-stopped s.base.is_running _ _ _ e).1

module _ {J Jwt G : Type 0} (env : Env J Jwt) where
  -- what `stop` leaves of a running server
  abbrev pub stopped : GameServer J G → GameServer J G
  stopped s = record s {
    games = [];
    out_messages = [];
    connection_updates = [];
    in_messages = [];
    game_count = 0;
    base = record (Lifecycle.shut_down env s.base) { app = empty_inbox };
  }

  stopped-IsKept : (on : Bool) (s : GameServer J G) → IsKept on (stopped s)
  unfolding Lifecycle.shut_down
  stopped-IsKept on s = rw close_all_lem (record {
    links = empty-IsLinked;
    tables = empty-IsPaired;
    erasable = λ f g. absurd (ground arith);
  })

  pub stop_cases : (s s' : GameServer J G) → stop env s ≡ ok s' → stopped s ≡ s'
  unfolding stop Lifecycle.stop
  stop_cases s s' e = ap (after s) (if-ok s.base.is_running _ _ _ (λ r. r) refl e)

  pub reset_cases :
      (s s' : GameServer J G)
      → reset env s ≡ ok s'
      → record (stopped s) { base = call reset_endpoint (stopped s).base } ≡ s'
  unfolding reset stop Lifecycle.stop Lifecycle.reset
  reset_cases s s' e =
      let b = (stopped s).base in
      let f : Server J (Inbox J) → Result (GameServer J G) =
        λ base. ok (record (stopped s) { base = base }) in
      ap (after s) (
        sym (
          ap
            (λ (on : Bool).
              (if on
                then Lifecycle.reset_after (Lifecycle.stop env b)
                else ok (call reset_endpoint b))
              >>= f)
            (shut_down-is_running env s.base))
        ∙ if-ok s.base.is_running _ _ _
            (λ r.
              r >>= λ s1. Lifecycle.reset env s1.base >>= λ base. ok (record s1 { base = base }))
            refl e)

IsValid-IsLasting : {J Jwt : Type 0} → (env : Env J Jwt) → IsLasting env IsValid
IsValid-IsLasting env = record {
  completes = complete_session-IsValid env;
  sends = send_message-IsValid;
  takes = λ app b v. v;
}

module _ {J Jwt G : Type 0} (env : Env J Jwt) (clock : ℕ → Readings) (api : GameApi J G) where
  -- The result is there, and sound.
  abbrev Continues : Option (GameServer J G) → Type 0
  Continues o = (s' : GameServer J G) × (o ≡ some s') × IsSound s'

  Continues-if :
      (b : Bool) (o o' : Option (GameServer J G))
      → Continues o
      → Continues o'
      → Continues (if b then o else o')
  Continues-if true o o' c d = c
  Continues-if false o o' c d = d

  restarted-IsSound :
      (woken : Option ℕ) (s : GameServer J G) → IsSound s → IsSound (restarted woken s)
  restarted-IsSound none s v = v
  restarted-IsSound (some t) s v = record { tables = v.tables; erasable = v.erasable }

  update_games-Continues :
      (timestep now : ℕ) (woken : Option ℕ) (start : ℕ) (s : GameServer J G)
      → IsSound s
      → Continues (update_games env clock api timestep now woken start s)
  unfolding update_games
  update_games-Continues timestep now woken start s v =
      let r = restarted-IsSound woken s v in
      let delta = elapsed_ms now s.time_start in
      let (s', e, w, _, _, _) = time_step-IsSound env clock api delta start (restarted woken s) r in
      Continues-if s.base.is_running _ _
        (Continues-if (waits s) _ _ (s, refl, v)
          (Continues-if (ltb delta timestep) _ _ (restarted woken s, refl, r) (s', e, w)))
        (s, refl, v)

  pub kept : {on : Bool} {s : GameServer J G} → Reachable env clock api on s → IsKept on s
  unfolding run enter_update_games Lifecycle.run Lifecycle.live_step
  kept (new release_time s e) = init-IsKept release_time s e
  kept (acts {on} {s} i r) =
      let v = kept r in
      record {
        links = step-IsValid env i s.base v.links;
        tables = v.tables;
        erasable = λ f g. v.erasable f (sym (step-is_running env i s.base) ∙ g);
      }
  kept (sets_http {on} {s} {s'} f r e) =
      let v = kept r in
      subst (IsKept on) (sets_http_cases f s s' e)
        (record { links = v.links; tables = v.tables; erasable = v.erasable })
  kept (sets_tls {on} {s} {s'} r e) =
      let v = kept r in
      subst (IsKept on) (sets_tls_cases s s' e)
        (record { links = v.links; tables = v.tables; erasable = v.erasable })
  kept (starts {s} port unlock_address r) =
      let v = kept r in
      record {
        links = live_step-IsValid env (Lifecycle.starts port unlock_address) s.base v.links;
        tables = v.tables;
        erasable = λ f. absurd (ground arith);
      }
  kept (begins now r) =
      let v = kept r in record { links = v.links; tables = v.tables; erasable = λ f g. tt }
  kept (rounds {s} {s'} timestep now woken start r on e) =
      let v = kept r in
      let (s1, f, w) =
        update_games-Continues timestep now woken start s
          (record { tables = v.tables; erasable = v.erasable refl on }) in
      let same : some s1 ≡ some s' = sym f ∙ e in
      record {
        links = subst (Held IsValid) e (
            update_games-Held env clock api IsValid (IsValid-IsLasting env) timestep now woken start
              s v.links);
        tables = (subst Found same w).tables;
        erasable = λ g h. (subst Found same w).erasable;
      }
    where
      Found : Option (GameServer J G) → Type 0
      Found none = ⊥
      Found (some s) = IsSound s
  kept (ends r off) =
      let v = kept r in
      record { links = v.links; tables = v.tables; erasable = λ f. absurd (ground arith) }
  kept (stops {on} {s} {s'} r e) =
      subst (IsKept on) (stop_cases env s s' e) (stopped-IsKept env on s)
  kept (resets {on} {s} {s'} r e) =
      let v = stopped-IsKept env on s in
      subst (IsKept on) (reset_cases env s s' e)
        (record { links = v.links; tables = v.tables; erasable = v.erasable })

  -- In every state that the server reaches, if it is started again only after the loop of
  -- `update_games` has ended, its connections are consistent, and each game has its messages and
  -- is counted (modulo 2^64).
  pub reachable :
      {on : Bool} {s : GameServer J G}
      → Reachable env clock api on s
      → IsValid s.base × IsPaired s.games s.out_messages s.game_count
  reachable r = let v = kept r in (v.links, v.tables)

  -- Under the same condition no round of the loop of a running server meets a missing entry, in
  -- any state that the server reaches.
  pub rounds_go_on :
      (timestep now : ℕ) (woken : Option ℕ) (start : ℕ) {s : GameServer J G}
      → Reachable env clock api true s
      → s.base.is_running ≡ true
      → (s' : GameServer J G) × (update_games env clock api timestep now woken start s ≡ some s')
        × Reachable env clock api true s'
  rounds_go_on timestep now woken start {s} r on =
      let v = kept r in
      let (s', e, _) =
        update_games-Continues timestep now woken start s
          (record { tables = v.tables; erasable = v.erasable refl on }) in
      (s', e, rounds timestep now woken start r on e)
