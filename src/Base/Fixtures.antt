-- ===== src/Base/Fixtures.antt =====
-- The handlers of include/simple_web_game_server/base_server.hpp: no event of a connection, no round of a
-- worker and no call of the owner but the setters changes them.
use simple_web_game_server.Prelude.{
  ℕ, ◌≡◌, refl, inl, inr, Bool, true, false, String, List, [], ◌∷◌, arith, ℕ_discrete, Bool-cases,
  Option-cases,
}
use simple_web_game_server.Prelude.Assoc.{lookup}
use simple_web_game_server.BufferedMap
use simple_web_game_server.Locks.{Readings, update_session_locks}
use simple_web_game_server.Base.{
  CombinedId, id_discrete, ActionType, subscribe, unsubscribe, in_message, out_message,
  close_connection, Action, Server, Env, send_to_hdl, close_hdl,
}
use simple_web_game_server.Base.Completion.{close_players_lem}
use simple_web_game_server.Base.Lifecycle.{run, shut_down}
use simple_web_game_server.Base.Link.{
  get_connection_hdl_from_id, send_message, drop_duplicate, setup_connection_id, player_disconnect,
}
use simple_web_game_server.Base.Login.{
  Times, with_locks, join_session, open_session, open_session_cases, resend_result_cases,
}
use simple_web_game_server.Base.Sessions.{complete_session}
use simple_web_game_server.Base.Shutdown.{close_all_lem}
use simple_web_game_server.Base.Worker.{
  Input, opened, closed, received, http, works, sends, completes, on_open, on_close, on_message,
  on_http, process_unsubscribe, process_in_message, process_action, work, step,
}

module _ {J H : Type 0} where
  pub handlers-send_message :
      (id : CombinedId) (msg : String) (s : Server J H)
      → (send_message id msg s).handlers ≡ s.handlers
  unfolding send_message
  handlers-send_message id msg s = elim (Option-cases (get_connection_hdl_from_id id s)) [
    | inl e ↦ rw (e, send_message) refl
    | inr (hdl, e) ↦ rw (e, send_message) refl
  ]

  pub handlers-run :
      (port : ℕ) (unlock_address : Bool) (s : Server J H)
      → (run port unlock_address s).handlers ≡ s.handlers
  unfolding run
  handlers-run port unlock_address s = ground arith

module _ {J Jwt H : Type 0} (env : Env J Jwt) where
  pub handlers-complete_session :
      (r : Readings) (sid result_sid : ℕ) (d : J) (s : Server J H)
      → (complete_session env r sid result_sid d s).handlers ≡ s.handlers
  unfolding complete_session
  handlers-complete_session r sid result_sid d s =
      elim (Bool-cases (BufferedMap.contains (update_session_locks r s.locks).locked sid)) [
        | inl over ↦ rw (over, complete_session) refl
        | inr free ↦ rw (free, complete_session, close_players_lem) refl
      ]

  handlers-join_session :
      (hdl : ℕ) (id : CombinedId) (d : J) (s : Server J H)
      → (join_session env hdl id d s).handlers ≡ s.handlers
  unfolding join_session setup_connection_id close_hdl
  handlers-join_session hdl id d s = elim (Option-cases (lookup id_discrete id s.id_connections)) [
    | inl e ↦ rw (join_session, setup_connection_id, e, drop_duplicate) refl
    | inr (old, e) ↦ rw (join_session, setup_connection_id, e, drop_duplicate) refl
  ]

  handlers-open_session :
      (t : Times) (hdl : ℕ) (msg : String) (s : Server J H)
      → (open_session env t hdl msg s).handlers ≡ s.handlers
  unfolding close_hdl send_to_hdl
  handlers-open_session t hdl msg s =
      open_session_cases env (λ s'. s'.handlers ≡ s.handlers) t hdl msg s (λ e bad. refl)
        (λ id d good over.
          resend_result_cases env (λ s'. s'.handlers ≡ s.handlers) hdl id (with_locks t s) refl
            (λ m r. refl))
        (λ id d good free. handlers-join_session hdl id d (with_locks t s))

  handlers-process_action :
      (t : Times) (type : ActionType) (hdl : ℕ) (msg : String) (s : Server J H)
      → (process_action env t type hdl msg s).handlers ≡ s.handlers
  unfolding process_action process_unsubscribe process_in_message player_disconnect send_to_hdl
      close_hdl
  handlers-process_action t subscribe hdl msg s = refl
  handlers-process_action t unsubscribe hdl msg s =
      elim (Option-cases (lookup ℕ_discrete hdl s.connection_ids)) [
        | inl e ↦ rw (e, process_unsubscribe) refl
        | inr (id, e) ↦ rw (e, process_unsubscribe) refl
      ]
  handlers-process_action t in_message hdl msg s =
      elim (Option-cases (lookup ℕ_discrete hdl s.connection_ids)) [
        | inl e ↦ rw (e, process_in_message) (handlers-open_session t hdl msg s)
        | inr (id, e) ↦ rw (e, process_in_message) refl
      ]
  handlers-process_action t out_message hdl msg s = refl
  handlers-process_action t close_connection hdl msg s = refl

  handlers-work : (t : Times) (s : Server J H) → (work env t s).handlers ≡ s.handlers
  unfolding work
  handlers-work t s = go s.is_running s.actions refl refl
    where
      go :
          (b : Bool) (q : List Action)
          → s.is_running ≡ b
          → s.actions ≡ q
          → (work env t s).handlers ≡ s.handlers
      go false q e f = rw (e, work) refl
      go true [] e f = rw (e, f, work) refl
      go true (a ∷ rest) e f =
          rw (e, f, work)
            (handlers-process_action t a.type a.hdl a.msg (record s { actions = rest }))

  pub handlers-step : (i : Input J) (s : Server J H) → (step env i s).handlers ≡ s.handlers
  unfolding step on_open on_close on_message on_http close_hdl
  handlers-step (opened hdl) s = ground arith
  handlers-step (closed hdl) s = refl
  handlers-step (received hdl msg) s = refl
  handlers-step (http found hdl) s = ground arith
  handlers-step (works t) s = handlers-work t s
  handlers-step (sends id msg) s = handlers-send_message id msg s
  handlers-step (completes r sid result_sid d) s = handlers-complete_session r sid result_sid d s

  pub handlers-shut_down : (s : Server J H) → (shut_down env s).handlers ≡ s.handlers
  unfolding shut_down
  handlers-shut_down s = rw close_all_lem refl
