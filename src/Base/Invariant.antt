-- ===== src/Base/Invariant.antt =====
-- The consistency of the state of `base_server` (include/simple_web_game_server/base_server.hpp) over
-- histories of inputs, taken one after the other.
use simple_web_game_server.Prelude.{
  ℕ, ◌≡◌, refl, inl, inr, Bool, true, false, String, none, List, [], ◌∷◌, arith, ℕ_discrete,
  Bool-cases, Option-cases,
}
use simple_web_game_server.Prelude.Assoc.{lookup}
use simple_web_game_server.Prelude.NatSet.{contains}
use simple_web_game_server.BufferedMap
use simple_web_game_server.Locks.{Readings, update_session_locks}
use simple_web_game_server.Base.{
  CombinedId, id_discrete, ActionType, subscribe, unsubscribe, in_message, out_message,
  close_connection, Action, SessionData, Server, Env, init, send_to_hdl, close_hdl,
}
use simple_web_game_server.Base.Link.{
  get_connection_hdl_from_id, send_message, drop_duplicate, setup_connection_id, player_disconnect,
}
use simple_web_game_server.Base.Links.{IsLinked, enter-IsLinked, leave-IsLinked, replace-IsLinked}
use simple_web_game_server.Base.Lifecycle.{
  Event, acts, starts, stops, resets, run, shut_down, stop, reset, live_step, live,
}
use simple_web_game_server.Base.Login.{
  Times, with_locks, resend_result, join_session, open_session, open_session_cases,
  resend_result_cases,
}
use simple_web_game_server.Base.Sessions.{close_player, close_players, complete_session, players_of}
use simple_web_game_server.Base.Worker.{
  Input, opened, closed, received, http, works, sends, completes, on_open, on_close, on_message,
  on_http, process_unsubscribe, process_in_message, process_action, work, step,
}

abbrev pub IsValid : {J H : Type 0} → Server J H → Type 0
IsValid s = IsLinked s.connection_ids s.id_connections s.session_players s.player_count

module _ {J H : Type 0} where
  pub send_message-IsValid :
      (id : CombinedId) (msg : String) (s : Server J H)
      → IsValid s
      → IsValid (send_message id msg s)
  unfolding send_message
  send_message-IsValid id msg s v = elim (Option-cases (get_connection_hdl_from_id id s)) [
    | inl e ↦ rw (e, send_message) v
    | inr (hdl, e) ↦ rw (e, send_message) v
  ]

module _ {J Jwt H : Type 0} (env : Env J Jwt) where
  join-IsValid :
      (hdl : ℕ) (id : CombinedId) (d : J) (s : Server J H)
      → lookup ℕ_discrete hdl s.connection_ids ≡ none
      → IsValid s
      → IsValid (join_session env hdl id d s)
  unfolding join_session setup_connection_id drop_duplicate
  join-IsValid hdl id d s new v = elim (Option-cases (lookup id_discrete id s.id_connections)) [
    | inl absent ↦ rw (absent, drop_duplicate) (enter-IsLinked _ _ _ _ hdl id v new absent)
    | inr (old, there) ↦
        rw (there, drop_duplicate) (replace-IsLinked _ _ _ _ hdl id old v new there)
  ]

  resend-IsValid :
      (hdl : ℕ) (id : CombinedId) (s : Server J H)
      → IsValid s
      → IsValid (resend_result env hdl id s)
  unfolding send_to_hdl close_hdl
  resend-IsValid hdl id s v = resend_result_cases env IsValid hdl id s v (λ _ _. v)

  open_session-IsValid :
      (t : Times) (hdl : ℕ) (token : String) (s : Server J H)
      → lookup ℕ_discrete hdl s.connection_ids ≡ none
      → IsValid s
      → IsValid (open_session env t hdl token s)
  unfolding close_hdl
  open_session-IsValid t hdl token s new v =
      open_session_cases env IsValid t hdl token s (λ _ _. v)
        (λ id d _ _. resend-IsValid hdl id (with_locks t s) v)
        (λ id d _ _. join-IsValid hdl id d (with_locks t s) new v)

  process_action-IsValid :
      (t : Times) (type : ActionType) (hdl : ℕ) (msg : String) (s : Server J H)
      → IsValid s
      → IsValid (process_action env t type hdl msg s)
  unfolding process_action process_unsubscribe process_in_message player_disconnect send_to_hdl
      close_hdl
  process_action-IsValid t subscribe hdl msg s v = v
  process_action-IsValid t unsubscribe hdl msg s v =
      elim (Option-cases (lookup ℕ_discrete hdl s.connection_ids)) [
        | inl e ↦ rw (e, process_unsubscribe) v
        | inr (id, e) ↦ rw (e, process_unsubscribe) (leave-IsLinked _ _ _ _ hdl id v e)
      ]
  process_action-IsValid t in_message hdl msg s v =
      elim (Option-cases (lookup ℕ_discrete hdl s.connection_ids)) [
        | inl e ↦ rw (e, process_in_message) (open_session-IsValid t hdl msg s e v)
        | inr (id, e) ↦ rw (e, process_in_message) v
      ]
  process_action-IsValid t out_message hdl msg s v = v
  process_action-IsValid t close_connection hdl msg s v = v

  close_players-tables :
      (sid : ℕ) (result : SessionData J) (pids : List ℕ) (s : Server J H)
      → IsValid s
      → IsValid (close_players env sid result pids s)
  unfolding close_players close_player
  close_players-tables sid result [] s v = v
  close_players-tables sid result (pid ∷ pids) s v =
      close_players-tables sid result pids _
        (elim (Option-cases
          (get_connection_hdl_from_id (record { player = pid; session = sid }) s)) [
            | inl e ↦ rw (e, close_player) v
            | inr (hdl, e) ↦ rw (e, close_player) v
          ])

  pub complete_session-IsValid :
      (r : Readings) (sid result_sid : ℕ) (d : J) (s : Server J H)
      → IsValid s
      → IsValid (complete_session env r sid result_sid d s)
  unfolding complete_session
  complete_session-IsValid r sid result_sid d s v =
      elim (Bool-cases (BufferedMap.contains (update_session_locks r s.locks).locked sid)) [
        | inl over ↦ rw (over, complete_session) v
        | inr open_still ↦
            rw (open_still, complete_session)
              (close_players-tables sid _ (players_of sid s)
                (record s { locks = update_session_locks r s.locks }) v)
      ]

  work-IsValid : (t : Times) (s : Server J H) → IsValid s → IsValid (work env t s)
  unfolding work
  work-IsValid t s v = go s.is_running s.actions refl refl
    where
      go : (b : Bool) (q : List Action) → s.is_running ≡ b → s.actions ≡ q → IsValid (work env t s)
      go false q e f = rw (e, work) v
      go true [] e f = rw (e, f, work) v
      go true (a ∷ rest) e f =
          rw (e, f, work)
            (process_action-IsValid t a.type a.hdl a.msg (record s { actions = rest }) v)

  -- Every input keeps the tables inverse to one another, the count equal to the number of clients
  -- (modulo 2^64), and the sets of players those of the connected clients.
  pub step-IsValid : (i : Input J) (s : Server J H) → IsValid s → IsValid (step env i s)
  unfolding step on_open on_close on_message on_http close_hdl
  step-IsValid (opened hdl) s v = elim (Bool-cases s.is_running) [
    | inl e ↦ rw (e, on_open) v
    | inr e ↦ rw (e, on_open) v
  ]
  step-IsValid (closed hdl) s v = v
  step-IsValid (received hdl msg) s v = v
  step-IsValid (http true hdl) s v = elim (Bool-cases s.is_running) [
    | inl e ↦ rw (e, on_http) v
    | inr e ↦ rw (e, on_http) v
  ]
  step-IsValid (http false hdl) s v = elim (Bool-cases s.is_running) [
    | inl e ↦ rw (e, on_http) v
    | inr e ↦ rw (e, on_http) v
  ]
  step-IsValid (works t) s v = work-IsValid t s v
  step-IsValid (sends id msg) s v = send_message-IsValid id msg s v
  step-IsValid (completes r sid result_sid d) s v = complete_session-IsValid r sid result_sid d s v

pub empty-IsLinked : IsLinked [] [] [] 0
unfolding lookup contains
empty-IsLinked = record {
  ids = λ h id e. cc;
  hdls = λ id h e. cc;
  distinct = tt;
  counted = omega arith;
  members = λ p sid. refl;
  inhabited = λ sid e. cc;
}

module _ {J Jwt H : Type 0} (env : Env J Jwt) where
  pub live_step-IsValid : (e : Event J) (s : Server J H) → IsValid s → IsValid (live_step env e s)
  unfolding live_step shut_down
  live_step-IsValid (acts i) s v = step-IsValid env i s v
  live_step-IsValid (starts port unlock_address) s v = elim (Bool-cases s.is_running) [
    | inl e ↦ rw (e, run) v
    | inr e ↦ rw (e, run) v
  ]
  live_step-IsValid stops s v = elim (Bool-cases s.is_running) [
    | inl e ↦ rw (e, stop) empty-IsLinked
    | inr e ↦ rw (e, stop) v
  ]
  live_step-IsValid resets s v = elim (Bool-cases s.is_running) [
    | inl e ↦ rw (e, reset, stop) empty-IsLinked
    | inr e ↦ rw (e, reset) v
  ]

  live-IsValid : (es : List (Event J)) (s : Server J H) → IsValid s → IsValid (live env es s)
  unfolding live
  live-IsValid [] s v = v
  live-IsValid (e ∷ es) s v = live-IsValid es (live_step env e s) (live_step-IsValid e s v)

  -- After any history of a new server, of inputs taken one after the other, starts, stops and
  -- resets, the tables of connections are inverse to one another, the player count is the number
  -- of clients with a connection (modulo 2^64), and the players of each session are those of its
  -- connected clients, with no empty set kept.
  pub live-init-IsValid :
      (es : List (Event J)) (release_time : ℕ) (app : H)
      → IsValid (live env es (init release_time app))
  unfolding init
  live-init-IsValid es release_time app = live-IsValid es (init release_time app) empty-IsLinked
