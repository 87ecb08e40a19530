-- ===== src/Tests/Servers.antt =====
-- Runs of the server of include/simple_web_game_server/base_server.hpp.
use mathlib.Core.List.{Mem}
use simple_web_game_server.Prelude.{
  ℕ, ◌≡◌, ◌≢◌, refl, true, false, String, none, some, List, [], ◌∷◌, ◌++◌, All, arith, is_some,
  ◌||◌, ◌<◌, ◌≤◌, length, ℕ_discrete,
}
use simple_web_game_server.Prelude.Assoc.{lookup, emplace}
use simple_web_game_server.Prelude.NatSet.{contains}
use simple_web_game_server.BufferedMap
use simple_web_game_server.Locks.{update_session_locks}
use simple_web_game_server.Locks.Expiry.{moment}
use simple_web_game_server.Base.{
  CombinedId, id_discrete, Action, SessionData, Server, init, close_hdl, send_to_hdl, ok,
  server_error, close, stop_listening, WsCall, send, push, in_message,
}
use simple_web_game_server.Base.Link.{get_connection_hdl_from_id, send_message}
use simple_web_game_server.Base.Login.{
  Times, valid, with_locks, read_token, open_session, join_session,
}
use simple_web_game_server.Base.Worker.{
  opened, received, works, Input, run_inputs, step, process_unsubscribe,
}
use simple_web_game_server.Base.Lifecycle.{live, after, stop, open_connections}
use simple_web_game_server.Base.Sessions.{complete_session}
use simple_web_game_server.Base.Invariant.{IsValid, live-init-IsValid}
use simple_web_game_server.Base.Authentication.{Authentic, authentication}
use simple_web_game_server.Base.Comeback.{Timely, comeback}
use simple_web_game_server.Base.Completion.{client, farewell, IsFarewell, completion_closes}
use simple_web_game_server.Base.Shutdown.{closings, waiting, stop_closes}
use simple_web_game_server.Base.Delivery.{delivery, drained}
use simple_web_game_server.Base.Directory.{directory}
use simple_web_game_server.Base.Directory.Histories.{changes, replay, nobody, directory_refines}
use simple_web_game_server.Base.Admission.{Admitted, admission}
use simple_web_game_server.Prelude.{◌↔◌}
use simple_web_game_server.Base.Takeover.{takeover, unsubscribe_race}
use simple_web_game_server.Tests.{env, bearer, at_start, login_events, owned}

abbrev served : Server ℕ ℕ
served = live env login_events (init 1000 owned)

served-is_running : served.is_running ≡ true
unfolding live init step lookup BufferedMap.contains update_session_locks
served-is_running = refl

served-hdl : lookup ℕ_discrete 4 served.connection_ids ≡ some bearer
unfolding live init lookup step BufferedMap.contains update_session_locks emplace ℕ_discrete
served-hdl = refl

served-new : lookup ℕ_discrete 6 served.connection_ids ≡ none
unfolding live init lookup step BufferedMap.contains update_session_locks emplace ℕ_discrete
served-new = refl

served-there : lookup id_discrete bearer served.id_connections ≡ some 4
unfolding live init lookup step BufferedMap.contains update_session_locks emplace id_discrete
served-there = refl

served-free : BufferedMap.contains (update_session_locks (moment 0) served.locks).locked 9 ≡ false
unfolding live init lookup step BufferedMap.contains update_session_locks emplace
served-free = refl

bearer-read : read_token env 7 "token" ≡ valid (bearer, 59)
unfolding read_token
bearer-read = refl

live-init-IsValid_example : IsValid (live env login_events (init 1000 owned))
live-init-IsValid_example = live-init-IsValid env login_events 1000 owned

-- only the connection 4 has sent a message
abbrev SaidBy4 : ℕ → String → Type 0
SaidBy4 hdl msg = hdl ≡ 4

abbrev WorkedAt7 : Times → Type 0
WorkedAt7 t = t.jwt_now ≡ 7

authentication_example : Authentic env SaidBy4 WorkedAt7 4 bearer
authentication_example =
    authentication env SaidBy4 WorkedAt7 login_events 1000 owned 4 bearer
      (tt, (tt, (refl, (refl, (refl, tt))))) served-hdl

abbrev over : Server ℕ ℕ
over =
    run_inputs env (opened 6 ∷ received 6 "token" ∷ works at_start ∷ [])
      (complete_session env (moment 0) 9 12 77 served)

archive_time : Timely 0 served.locks.release_time (moment 0)
archive_time = (omega arith, omega arith, omega arith)

comeback_example :
    open_session env at_start 6 "token" over
    ≡ close_hdl 6 "SESSION_COMPLETE" (send_to_hdl 6 "result" (with_locks at_start over))
comeback_example =
    comeback env (moment 0) 9 12 77 (opened 6 ∷ received 6 "token" ∷ works at_start ∷ []) at_start 6
      "token" bearer 59 served (omega arith) served-free (tt, (tt, (archive_time, tt))) archive_time
      bearer-read refl

completion_closes_example :
    let s' = complete_session env (moment 0) 9 12 77 served in
    let result : SessionData ℕ = record { session = 12; result = 77 } in
    (q : List Action) × (s'.actions ≡ served.actions ++ q)
    × All (IsFarewell env 9 result served.id_connections) q
    × ((pid hdl : ℕ)
        → lookup id_discrete (client pid 9) served.id_connections ≡ some hdl
        → Mem (farewell env result pid hdl) q)
    × (BufferedMap.at s'.locks.locked 9 ≡ some result)
completion_closes_example =
    completion_closes env (moment 0) 9 12 77 served (live-init-IsValid env login_events 1000 owned)
      served-free

stop_closes_example :
    let s' = after served (stop env served) in
    (stop env served ≡ ok s')
    × (s'.calls
        ≡ served.calls ++ stop_listening ∷ closings "SERVER_SHUTDOWN" (open_connections env served))
    × ((h : ℕ)
        → contains h (open_connections env served) ≡ (
            is_some (lookup ℕ_discrete h served.connection_ids)
            || (waiting h served.actions || contains h served.new_connections)))
    × (s'.actions ≡ [])
    × (s'.connection_ids ≡ [])
    × (s'.id_connections ≡ [])
    × (s'.player_count ≡ 0)
    × ((k : ℕ) → BufferedMap.at s'.locks.locked k ≡ none)
    × (stop env s' ≡ server_error "stop called on stopped server")
stop_closes_example = stop_closes env served served-is_running

takeover_example :
    let s' = join_session env 6 bearer 59 served in
    (lookup ℕ_discrete 6 s'.connection_ids ≡ some bearer)
    × (lookup ℕ_discrete 4 s'.connection_ids ≡ none)
    × (get_connection_hdl_from_id bearer s' ≡ some 6)
    × (s'.calls ≡ served.calls ++ close 4 "DUPLICATE_CONNECTION" ∷ [])
    × (s'.player_count ≡ served.player_count)
    × ((h : ℕ)
        → h ≢ 6
        → h ≢ 4
        → lookup ℕ_discrete h s'.connection_ids ≡ lookup ℕ_discrete h served.connection_ids)
    × ((j : CombinedId)
        → j ≢ bearer
        → get_connection_hdl_from_id j s' ≡ get_connection_hdl_from_id j served)
takeover_example =
    takeover env 6 4 bearer 59 served (live-init-IsValid env login_events 1000 owned) served-new
      served-there

unsubscribe_race_example :
    let s' = process_unsubscribe env 4 (some bearer) (join_session env 6 bearer 59 served) in
    (lookup ℕ_discrete 6 s'.connection_ids ≡ some bearer)
    × (get_connection_hdl_from_id bearer s' ≡ none)
    × ((msg : String) → send_message bearer msg s' ≡ s')
    × (¬ IsValid s')
unsubscribe_race_example =
    unsubscribe_race env 6 4 bearer 59 served (live-init-IsValid env login_events 1000 owned)
      served-new served-there

-- a connection and a message come between the rounds
abbrev busy : List (Input ℕ)
busy = opened 6 ∷ works at_start ∷ received 6 "token" ∷ works at_start ∷ []

served-length : length served.actions < 2
unfolding live init lookup step BufferedMap.contains update_session_locks emplace
served-length = omega arith

delivery_example :
    (c : List WsCall) × (d : List WsCall) × ((run_inputs env busy
        (send_message bearer "hello" served)).calls
      ≡ c ++ send 4 "hello" ∷ d)
unfolding get_connection_hdl_from_id lookup
delivery_example =
    delivery env busy bearer 4 "hello" served served-is_running served-there served-length

abbrev receive_one : Server ℕ ℕ
receive_one = push (record { type = in_message; hdl = 4; msg = "move" }) served

receive_one-length : length receive_one.actions ≤ 1
unfolding live init lookup step BufferedMap.contains update_session_locks emplace
receive_one-length = omega arith

drained_example : (run_inputs env (works at_start ∷ []) receive_one).actions ≡ []
drained_example = drained env (at_start ∷ []) receive_one served-is_running receive_one-length

admission_example :
    (lookup ℕ_discrete 6 (open_session env at_start 6 "token" served).connection_ids ≡ some bearer)
    ↔ Admitted env at_start 6 "token" served served-new bearer
admission_example = admission env at_start 6 "token" served served-new bearer

directory_refines_example :
    let s0 = init 1000 owned in
    (directory served ≡ replay (changes env login_events s0) nobody)
    × ((id : CombinedId) (hdl : ℕ)
        → (get_connection_hdl_from_id id served ≡ some hdl)
          ↔ (replay (changes env login_events s0) nobody hdl ≡ some id))
directory_refines_example = directory_refines env login_events 1000 owned
