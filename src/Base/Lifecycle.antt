-- ===== src/Base/Lifecycle.antt =====
-- Setting handlers, starting and stopping: `set_*_handler`, `run`, `is_running`, `reset`, `stop` and
-- `get_player_count` of include/simple_web_game_server/base_server.hpp.
use simple_web_game_server.Prelude.{ℕ, Bool, true, false, String, List, [], ◌∷◌, if◌then◌else◌}
use simple_web_game_server.Prelude.Assoc.{Assoc}
use simple_web_game_server.Prelude.NatSet
use simple_web_game_server.BufferedMap
use simple_web_game_server.Base.{
  CombinedId, ActionType, subscribe, close_connection, Action, set_http_handler,
  set_tls_init_handler, set_reuse_addr, listen, start_accept, run_loop, stop_listening,
  reset_endpoint, Env, Server, Result, ok, server_error, call, close_hdl,
}
use simple_web_game_server.Base.Worker.{Input, step}

module _ {J H : Type 0} where
  abbrev when_stopped : String → Server J H → Server J H → Result (Server J H)
  when_stopped message s s' = if s.is_running then server_error message else ok s'

  unfoldable pub set_http : (ℕ → H → H) → Server J H → Result (Server J H)
  set_http f s =
      when_stopped "set_http_handler called on running server" s
        (call set_http_handler (record s { handlers = record s.handlers { handle_http = f } }))

  unfoldable pub set_tls_init : Server J H → Result (Server J H)
  set_tls_init s =
      when_stopped "set_tls_init_handler called on running server" s (call set_tls_init_handler s)

  unfoldable pub set_open : (CombinedId → J → H → H) → Server J H → Result (Server J H)
  set_open f s =
      when_stopped "set_open_handler called on running server" s
        (record s { handlers = record s.handlers { handle_open = f } })

  unfoldable pub set_close : (CombinedId → H → H) → Server J H → Result (Server J H)
  set_close f s =
      when_stopped "set_close_handler called on running server" s
        (record s { handlers = record s.handlers { handle_close = f } })

  unfoldable pub set_message : (CombinedId → String → H → H) → Server J H → Result (Server J H)
  set_message f s =
      when_stopped "set_message_handler called on running server" s
        (record s { handlers = record s.handlers { handle_message = f } })

  unfoldable pub is_running : Server J H → Bool
  is_running s = s.is_running

  unfoldable pub get_player_count : Server J H → ℕ
  get_player_count s = s.player_count

  -- `run`, up to the blocking call of the endpoint's loop, which is its last step
  unfoldable pub run : ℕ → Bool → Server J H → Server J H
  run port unlock_address s =
      if s.is_running
      then call run_loop s
      else call run_loop (
          call start_accept (
            call (listen port)
              (call (set_reuse_addr unlock_address) (record s { is_running = true }))))

-- An action that waits for its connection to be known, or to be closed.
unfoldable pub collect_action : ActionType → ℕ → List ℕ → List ℕ
collect_action subscribe hdl new = NatSet.insert hdl new
collect_action close_connection hdl new = NatSet.insert hdl new
collect_action _ hdl new = new

-- the loop over the queue in `stop`
unfoldable pub collect_actions : List Action → List ℕ → List ℕ
unfolding collect_action
collect_actions [] new = new
collect_actions (a ∷ rest) new = collect_actions rest (collect_action a.type a.hdl new)

-- the loop over the connections with an id
unfoldable pub collect_ids : Assoc ℕ CombinedId → List ℕ → List ℕ
collect_ids [] new = new
collect_ids ((hdl, id) ∷ rest) new = collect_ids rest (NatSet.insert hdl new)

unfoldable pub close_all : {J H : Type 0} → String → List ℕ → Server J H → Server J H
close_all reason [] s = s
close_all reason (hdl ∷ hdls) s = close_all reason hdls (close_hdl hdl reason s)

abbrev pub reset_after : {J H : Type 0} → Result (Server J H) → Result (Server J H)
reset_after (ok s) = ok (call reset_endpoint s)
reset_after (server_error e) = server_error e

module _ {J Jwt H : Type 0} (env : Env J Jwt) where
  open env use {reasons}

  -- the connections that `stop` closes
  abbrev pub open_connections : Server J H → List ℕ
  open_connections s = collect_ids s.connection_ids (collect_actions s.actions s.new_connections)

  -- the body of `stop` on a running server
  unfoldable pub shut_down : Server J H → Server J H
  unfolding close_all
  shut_down s =
      let s1 = call stop_listening (record s { is_running = false; actions = [] }) in
      let s2 = close_all reasons.server_shutdown (open_connections s) s1 in
      record s2 {
        player_count = 0;
        connection_ids = [];
        id_connections = [];
        new_connections = [];
        locks = record s2.locks { locked = BufferedMap.clear (BufferedMap.clear s2.locks.locked) };
        session_players = [];
      }

  unfoldable pub stop : Server J H → Result (Server J H)
  unfolding shut_down
  stop s = if s.is_running then ok (shut_down s) else server_error "stop called on stopped server"

  unfoldable pub reset : Server J H → Result (Server J H)
  unfolding stop
  reset s = if s.is_running then reset_after (stop s) else ok (call reset_endpoint s)

-- A call that throws leaves the server as it was.
abbrev pub after : {A : Type 0} → A → Result A → A
after a (ok b) = b
after a (server_error e) = a

-- The life of a server: inputs, and the calls that start and stop it.
pub data Event (J : Type 0) : Type 0 where
  acts : Input J → Event J
  starts : ℕ → Bool → Event J
  stops resets : Event J

module _ {J Jwt H : Type 0} (env : Env J Jwt) where
  unfoldable pub live_step : Event J → Server J H → Server J H
  unfolding run stop reset
  live_step (acts i) s = step env i s
  live_step (starts port unlock_address) s = run port unlock_address s
  live_step stops s = after s (stop env s)
  live_step resets s = after s (reset env s)

  unfoldable pub live : List (Event J) → Server J H → Server J H
  unfolding live_step
  live [] s = s
  live (e ∷ es) s = live es (live_step e s)
