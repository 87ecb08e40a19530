-- ===== src/Matchmaking/System.antt =====
-- The whole of include/simple_web_game_server/matchmaking_server.hpp: the base server, whose events come
-- from the clients, and the thread of `match_players`, one step after the other.
use simple_web_game_server.Prelude.{
  ℕ, ◌≡◌, refl, sym, ap, subst, ◌∙◌, Bool, true, false, String, Option, none, some, if◌then◌else◌,
  not, ◌&&◌, ltb, [],
}
use simple_web_game_server.Prelude.Assoc.{lookup}
use simple_web_game_server.Locks.{Readings, elapsed_ms}
use simple_web_game_server.Base.{WsCall, Env, Server, Result, ok, ◌>>=◌, call, reset_endpoint}
use simple_web_game_server.Base.Worker.{Input, step}
use simple_web_game_server.Base.Lifecycle
use simple_web_game_server.Base.Lifecycle.{after}
use simple_web_game_server.Base.Invariant.{IsValid, step-IsValid, live_step-IsValid, empty-IsLinked}
use simple_web_game_server.Base.Shutdown.{shut_down-is_running, if-ok, if-stopped}
use simple_web_game_server.Matchmaking.{MatchApi, Inbox, MatchServer}
use simple_web_game_server.Matchmaking.Tables.{SameKeys, IsSound}
use simple_web_game_server.Matchmaking.Progress.{matchmaking_step}
use simple_web_game_server.Matchmaking.Links.{Held, match_players-Held}
use simple_web_game_server.Matchmaking.Loop.{none_of, match_players}
use simple_web_game_server.Matchmaking.Lifecycle.{
  init, connect_handlers, enter_match_players, set_http_handler, set_tls_init_handler, run, stop,
  reset, empty_inbox,
}

module _ {J Jwt D M : Type 0} (env : Env J Jwt) (clock : ℕ → Readings) (api : MatchApi J D M)
    (moved : String → String) where
  -- The states that the server reaches.
  pub data Reachable : MatchServer J D M → Type 0 where
    new :
        (matchmaker : M) (release_time : ℕ) (s : MatchServer J D M)
        → init matchmaker release_time ≡ ok s
        → Reachable s
    acts :
        {s : MatchServer J D M} (i : Input J)
        → Reachable s
        → Reachable (record s { base = step env i s.base })
    sets_http :
        {s s' : MatchServer J D M} (f : ℕ → Inbox J → Inbox J)
        → Reachable s
        → set_http_handler f s ≡ ok s'
        → Reachable s'
    sets_tls :
        {s s' : MatchServer J D M} → Reachable s → set_tls_init_handler s ≡ ok s' → Reachable s'
    starts :
        {s : MatchServer J D M} (port : ℕ) (unlock_address : Bool)
        → Reachable s
        → Reachable (run port unlock_address s)
    begins : {s : MatchServer J D M} (now : ℕ) → Reachable s → Reachable (enter_match_players now s)
    rounds :
        {s s' : MatchServer J D M} (timestep now start : ℕ)
        → Reachable s
        → match_players env clock api moved timestep now start s ≡ some s'
        → Reachable s'
    stops : {s s' : MatchServer J D M} → Reachable s → stop env s ≡ ok s' → Reachable s'
    resets : {s s' : MatchServer J D M} → Reachable s → reset env s ≡ ok s' → Reachable s'

module _ {J D M : Type 0} where
  -- the connections and the tables of sessions are consistent
  abbrev IsKept : MatchServer J D M → Type 0
  IsKept s = IsValid s.base × IsSound s

  empty-SameKeys : (s : MatchServer J D M) → SameKeys {D = D} [] []
  unfolding lookup
  empty-SameKeys s sid = refl

  init-IsKept :
      (matchmaker : M) (release_time : ℕ) (s : MatchServer J D M)
      → init matchmaker release_time ≡ ok s
      → IsKept s
  unfolding init connect_handlers
  init-IsKept matchmaker release_time s e =
      subst IsKept (ap (after s) e) (empty-IsLinked, empty-SameKeys s)

module _ {J D M : Type 0} where
  -- What a setter of the owner makes of a server, which is not running.
  sets_http_cases :
      (f : ℕ → Inbox J → Inbox J) (s s' : MatchServer J D M)
      → set_http_handler f s ≡ ok s'
      → record s {
        base =
            call WsCall.set_http_handler
              (record s.base { handlers = record s.base.handlers { handle_http = f } });
      }
        ≡ s'
  unfolding set_http_handler Lifecycle.set_http
  sets_http_cases f s s' e = ap (after s) (if-stopped s.base.is_running _ _ _ e).1

  sets_tls_cases :
      (s s' : MatchServer J D M)
      → set_tls_init_handler s ≡ ok s'
      → record s { base = call WsCall.set_tls_init_handler s.base } ≡ s'
  unfolding set_tls_init_handler Lifecycle.set_tls_init
  sets_tls_cases s s' e = ap (after s) (if-stopped s.base.is_running _ _ _ e).1

module _ {J Jwt D M : Type 0} (env : Env J Jwt) where
  -- what `stop` leaves of a running server
  abbrev stopped : MatchServer J D M → MatchServer J D M
  stopped s = record s {
    session_data = [];
    session_players = [];
    connection_updates = [];
    base = record (Lifecycle.shut_down env s.base) { app = empty_inbox };
  }

  stopped-IsKept : (s : MatchServer J D M) → IsKept (stopped s)
  unfolding Lifecycle.shut_down
  stopped-IsKept s = (empty-IsLinked, empty-SameKeys s)

  stop_cases : (s s' : MatchServer J D M) → stop env s ≡ ok s' → stopped s ≡ s'
  unfolding stop Lifecycle.stop
  stop_cases s s' e = ap (after s) (if-ok s.base.is_running _ _ _ (λ r. r) refl e)

  reset_cases :
      (s s' : MatchServer J D M)
      → reset env s ≡ ok s'
      → record (stopped s) { base = call reset_endpoint (stopped s).base } ≡ s'
  unfolding reset stop Lifecycle.stop Lifecycle.reset
  reset_cases s s' e =
      let b = (stopped s).base in
      let f : Server J (Inbox J) → Result (MatchServer J D M) =
        λ base. ok (record (stopped s) { base = base }) in
      ap (after s) (
        sym (
          ap
            (λ (on : Bool).
              (if on
                then Lifecycle.reset_after (Lifecycle.stop env b)
                else ok (call reset_endpoint b))
              >>= f)
            (shut_down-is_running env s.base))
        ∙ if-ok s.base.is_running _ _ _
            (λ r.
              r >>= λ s1. Lifecycle.reset env s1.base >>= λ base. ok (record s1 { base = base }))
            refl e)

module _ {J Jwt D M : Type 0} (env : Env J Jwt) (clock : ℕ → Readings) (api : MatchApi J D M)
    (moved : String → String) where
  -- The result is there, and sound.
  abbrev Continues : Option (MatchServer J D M) → Type 0
  Continues o = (s' : MatchServer J D M) × (o ≡ some s') × IsSound s'

  Continues-if :
      (b : Bool) (o o' : Option (MatchServer J D M))
      → Continues o
      → Continues o'
      → Continues (if b then o else o')
  Continues-if true o o' c d = c
  Continues-if false o o' c d = d

  match_players-Continues :
      (timestep now start : ℕ) (s : MatchServer J D M)
      → IsSound s
      → Continues (match_players env clock api moved timestep now start s)
  unfolding match_players
  match_players-Continues timestep now start s v =
      let asked =
        if s.is_waiting then (s.matchmaker, false) else api.can_match s.session_data s.matchmaker in
      let waits = not asked.1 && none_of s.base.app.updates in
      let s1 : MatchServer J D M = record s { matchmaker = asked.0; is_waiting = waits } in
      let delta = elapsed_ms now s.time_start in
      let (_, s', _, e, w, _, _) = matchmaking_step env clock api moved delta start s1 v in
      Continues-if s.base.is_running _ _
        (Continues-if waits _ _ (s1, refl, v)
          (Continues-if (ltb delta timestep) _ _ (s1, refl, v) (s', e, w)))
        (s, refl, v)

  kept : {s : MatchServer J D M} → Reachable env clock api moved s → IsKept s
  unfolding run enter_match_players Lifecycle.run Lifecycle.live_step
  kept (new matchmaker release_time s e) = init-IsKept matchmaker release_time s e
  kept (acts {s} i r) = let (v, w) = kept r in (step-IsValid env i s.base v, w)
  kept (sets_http {s} {s'} f r e) = subst IsKept (sets_http_cases f s s' e) (kept r)
  kept (sets_tls {s} {s'} r e) = subst IsKept (sets_tls_cases s s' e) (kept r)
  kept (starts {s} port unlock_address r) =
      let (v, w) = kept r in
      (live_step-IsValid env (Lifecycle.starts port unlock_address) s.base v, w)
  kept (begins now r) = kept r
  kept (rounds {s} {s'} timestep now start r e) =
      let (v, w) = kept r in
      let (s1, f, u) = match_players-Continues timestep now start s w in
      (
        subst Held e (match_players-Held env clock api moved timestep now start s v),
        subst Found (sym f ∙ e) u,
      )
    where
      Found : Option (MatchServer J D M) → Type 0
      Found none = ⊥
      Found (some s) = IsSound s
  kept (stops {s} {s'} r e) = subst IsKept (stop_cases env s s' e) (stopped-IsKept env s)
  kept (resets {s} {s'} r e) = subst IsKept (reset_cases env s s' e) (stopped-IsKept env s)

  -- In every state that the server reaches, however calls, events and rounds follow one another,
  -- its connections are consistent, a session has data if and only if it has players, and the
  -- next round of `match_players` meets no missing entry.
  pub matching_goes_on :
      (timestep now start : ℕ) {s : MatchServer J D M}
      → Reachable env clock api moved s
      → IsValid s.base
        × IsSound s
        × (s' : MatchServer J D M) × (match_players env clock api moved timestep now start s
            ≡ some s')
        × Reachable env clock api moved s'
  matching_goes_on timestep now start {s} r =
      let (v, w) = kept r in
      let (s', e, _) = match_players-Continues timestep now start s w in
      (v, w, s', e, rounds timestep now start r e)
