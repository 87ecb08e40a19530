-- ===== src/Base/Worker.antt =====
-- The queue of actions of include/simple_web_game_server/base_server.hpp: the handlers that fill
-- it, and `process_messages`, which empties it.
use simple_web_game_server.Prelude.{
  ℕ, Bool, String, Option, none, some, List, [], ◌∷◌, if◌then◌else◌, ℕ_discrete,
}
use simple_web_game_server.Prelude.Assoc.{lookup}
use simple_web_game_server.Prelude.NatSet
use simple_web_game_server.Locks.{Readings}
use simple_web_game_server.Base.{
  CombinedId, ActionType, subscribe, unsubscribe, in_message, out_message, close_connection, Server,
  Env, send_to_hdl, close_hdl, push,
}
use simple_web_game_server.Base.Link.{send_message, player_disconnect}
use simple_web_game_server.Base.Login.{Times, open_session}
use simple_web_game_server.Base.Sessions.{complete_session}

module _ {J Jwt H : Type 0} (env : Env J Jwt) where
  open env use {reasons}

  unfoldable pub on_open : ℕ → Server J H → Server J H
  unfolding close_hdl
  on_open hdl s =
      if s.is_running
      then push (record { type = subscribe; hdl = hdl; msg = "" }) s
      else close_hdl hdl reasons.server_shutdown s

  -- an id that was looked up under the lock, or none
  unfoldable pub process_unsubscribe : ℕ → Option CombinedId → Server J H → Server J H
  unfolding player_disconnect
  process_unsubscribe hdl none s = record s {
    new_connections = NatSet.remove hdl s.new_connections;
  }
  process_unsubscribe hdl (some id) s = player_disconnect hdl id s

  unfoldable pub process_in_message :
      Times → ℕ → String → Option CombinedId → Server J H → Server J H
  unfolding open_session
  process_in_message t hdl msg none s = open_session env t hdl msg s
  process_in_message t hdl msg (some id) s = record s {
    app = s.handlers.handle_message id msg s.app;
  }

  unfoldable pub process_action : Times → ActionType → ℕ → String → Server J H → Server J H
  unfolding process_unsubscribe process_in_message send_to_hdl close_hdl
  process_action t subscribe hdl msg s = record s {
    new_connections = NatSet.insert hdl s.new_connections;
  }
  process_action t unsubscribe hdl msg s =
      process_unsubscribe hdl (lookup ℕ_discrete hdl s.connection_ids) s
  process_action t in_message hdl msg s =
      process_in_message t hdl msg (lookup ℕ_discrete hdl s.connection_ids) s
  process_action t out_message hdl msg s = send_to_hdl hdl msg s
  process_action t close_connection hdl msg s =
      close_hdl hdl reasons.session_complete (send_to_hdl hdl msg s)

  -- One round of the loop of `process_messages`. On an empty queue the worker waits.
  unfoldable pub work : Times → Server J H → Server J H
  unfolding process_action
  work t s =
      if s.is_running
      then elim s.actions [
        | [] ↦ s
        | a ∷ rest ↦ process_action t a.type a.hdl a.msg (record s { actions = rest })
      ]
      else s

module _ {J H : Type 0} where
  unfoldable pub on_close : ℕ → Server J H → Server J H
  on_close hdl s = push (record { type = unsubscribe; hdl = hdl; msg = "" }) s

  unfoldable pub on_message : ℕ → String → Server J H → Server J H
  on_message hdl payload s = push (record { type = in_message; hdl = hdl; msg = payload }) s

  -- `found` says whether `get_con_from_hdl` has the connection; if not, it throws
  unfoldable pub on_http : Bool → ℕ → Server J H → Server J H
  on_http found hdl s =
      if s.is_running
      then (if found then record s { app = s.handlers.handle_http hdl s.app } else s)
      else s

-- What can happen to a server: events of the connections, rounds of a worker, and calls of its
-- owner.
pub data Input (J : Type 0) : Type 0 where
  opened closed : ℕ → Input J
  received : ℕ → String → Input J
  http : Bool → ℕ → Input J
  works : Times → Input J
  sends : CombinedId → String → Input J
  completes : Readings → ℕ → ℕ → J → Input J

module _ {J Jwt H : Type 0} (env : Env J Jwt) where
  unfoldable pub step : Input J → Server J H → Server J H
  unfolding on_open on_close on_message on_http work send_message complete_session
  step (opened hdl) s = on_open env hdl s
  step (closed hdl) s = on_close hdl s
  step (received hdl msg) s = on_message hdl msg s
  step (http found hdl) s = on_http found hdl s
  step (works t) s = work env t s
  step (sends id msg) s = send_message id msg s
  step (completes r sid result_sid d) s = complete_session env r sid result_sid d s

  unfoldable pub run_inputs : List (Input J) → Server J H → Server J H
  unfolding step
  run_inputs [] s = s
  run_inputs (i ∷ is) s = run_inputs is (step i s)
