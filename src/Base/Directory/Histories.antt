-- ===== src/Base/Directory/Histories.antt =====
-- The directory of include/simple_web_game_server/base_server.hpp through the histories of a server.
use mathlib.Core.Path.{fun_ext}
use simple_web_game_server.Prelude.{
  ℕ, ◌≡◌, ◌↔◌, refl, sym, ap, ◌∙◌, inl, inr, Bool, true, false, String, none, some, List, [], ◌∷◌,
  arith, Bool-cases, Option-cases,
}
use simple_web_game_server.Prelude.Assoc.{lookup}
use simple_web_game_server.BufferedMap
use simple_web_game_server.Locks.{Readings, update_session_locks}
use simple_web_game_server.Base.{CombinedId, Action, Server, Env, init, close_hdl}
use simple_web_game_server.Base.Invariant.{
  IsValid, live_step-IsValid, live-init-IsValid, empty-IsLinked,
}
use simple_web_game_server.Base.Lifecycle.{
  Event, acts, starts, stops, resets, run, shut_down, stop, reset, live_step, live,
}
use simple_web_game_server.Base.Link.{get_connection_hdl_from_id, send_message}
use simple_web_game_server.Base.Login.{Times}
use simple_web_game_server.Base.Sessions.{complete_session}
use simple_web_game_server.Base.Completion.{close_players_lem}
use simple_web_game_server.Base.Worker.{
  Input, opened, closed, received, http, works, sends, completes, on_open, on_close, on_message,
  on_http, process_action, work, step,
}
use simple_web_game_server.Base.Directory.{
  Directory, Change, nothing, all_leave, change, directory, meaning, process_action-directory,
}

abbrev stop_meaning : Bool → Change
stop_meaning true = all_leave
stop_meaning false = nothing

module _ {J H : Type 0} where
  send_message-directory :
      (id : CombinedId) (msg : String) (s : Server J H) (h : ℕ)
      → directory (send_message id msg s) h ≡ directory s h
  unfolding send_message
  send_message-directory id msg s h = elim (Option-cases (get_connection_hdl_from_id id s)) [
    | inl e ↦ rw (e, send_message) refl
    | inr (hdl, e) ↦ rw (e, send_message) refl
  ]

module _ {J Jwt H : Type 0} (env : Env J Jwt) where
  abbrev work_meaning : Times → Bool → List Action → Server J H → Change
  work_meaning t true (a ∷ rest) s = meaning env t a.type a.hdl a.msg (record s { actions = rest })
  work_meaning t true [] s = nothing
  work_meaning t false q s = nothing

  -- Only a round of a worker, and a stop of a running server, mean anything.
  pub event_meaning : Event J → Server J H → Change
  unfolding meaning
  event_meaning (acts (works t)) s = work_meaning t s.is_running s.actions s
  event_meaning (acts i) s = nothing
  event_meaning (starts port unlock_address) s = nothing
  event_meaning stops s = stop_meaning s.is_running
  event_meaning resets s = stop_meaning s.is_running

  work-directory :
      (t : Times) (s : Server J H) (h : ℕ)
      → IsValid s
      → directory (work env t s) h
        ≡ change (work_meaning t s.is_running s.actions s) (directory s) h
  unfolding work change meaning
  work-directory t s h v = go s.is_running s.actions refl refl
    where
      go :
          (b : Bool) (q : List Action)
          → s.is_running ≡ b
          → s.actions ≡ q
          → directory (work env t s) h ≡ change (work_meaning t b q s) (directory s) h
      go false q e f = rw (e, work) refl
      go true [] e f = rw (e, f, work) refl
      go true (a ∷ rest) e f =
          let s1 = record s { actions = rest } in
          let taken : work env t s ≡ process_action env t a.type a.hdl a.msg s1 =
            simp (e, f, work) in
          ap (λ s'. directory s' h) taken ∙ process_action-directory env t a.type a.hdl a.msg s1 h v

  complete_session-directory :
      (r : Readings) (sid result_sid : ℕ) (d : J) (s : Server J H) (h : ℕ)
      → directory (complete_session env r sid result_sid d s) h ≡ directory s h
  unfolding complete_session
  complete_session-directory r sid result_sid d s h =
      elim (Bool-cases (BufferedMap.contains (update_session_locks r s.locks).locked sid)) [
        | inl over ↦ rw (over, complete_session) refl
        | inr free ↦ rw (free, complete_session, close_players_lem) refl
      ]

  step-directory :
      (i : Input J) (s : Server J H) (h : ℕ)
      → IsValid s
      → directory (step env i s) h ≡ change (event_meaning (acts i) s) (directory s) h
  unfolding step event_meaning change on_open on_close on_message on_http close_hdl
  step-directory (opened hdl) s h v = elim (Bool-cases s.is_running) [
    | inl e ↦ rw (e, on_open) refl
    | inr e ↦ rw (e, on_open) refl
  ]
  step-directory (closed hdl) s h v = refl
  step-directory (received hdl msg) s h v = refl
  step-directory (http found hdl) s h v = ground arith
  step-directory (works t) s h v = work-directory t s h v
  step-directory (sends id msg) s h v = send_message-directory id msg s h
  step-directory (completes r sid result_sid d) s h v =
      complete_session-directory r sid result_sid d s h

  live_step-directory :
      (e : Event J) (s : Server J H) (h : ℕ)
      → IsValid s
      → directory (live_step env e s) h ≡ change (event_meaning e s) (directory s) h
  unfolding live_step event_meaning change shut_down lookup
  live_step-directory (acts i) s h v = step-directory i s h v
  live_step-directory (starts port unlock_address) s h v = elim (Bool-cases s.is_running) [
    | inl e ↦ rw (e, run) refl
    | inr e ↦ rw (e, run) refl
  ]
  live_step-directory stops s h v = elim (Bool-cases s.is_running) [
    | inl e ↦ rw (e, stop) refl
    | inr e ↦ rw (e, stop) refl
  ]
  live_step-directory resets s h v = elim (Bool-cases s.is_running) [
    | inl e ↦ rw (e, reset, stop) refl
    | inr e ↦ rw (e, reset) refl
  ]

  -- what a history means to the directory
  pub changes : List (Event J) → Server J H → List Change
  unfolding event_meaning
  changes [] s = []
  changes (e ∷ es) s = event_meaning e s ∷ changes es (live_step env e s)

pub replay : List Change → Directory → Directory
unfolding change
replay [] who = who
replay (c ∷ cs) who = replay cs (change c who)

-- a directory without clients
abbrev pub nobody : Directory
nobody h = none

module _ {J Jwt H : Type 0} (env : Env J Jwt) where
  live-directory :
      (es : List (Event J)) (s : Server J H)
      → IsValid s
      → directory (live env es s) ≡ replay (changes env es s) (directory s)
  unfolding live changes replay
  live-directory [] s v = refl
  live-directory (e ∷ es) s v =
      live-directory es (live_step env e s) (live_step-IsValid env e s v)
      ∙ ap (replay (changes env es (live_step env e s)))
          (fun_ext λ h. live_step-directory env e s h v)

  -- After any history of a new server, of inputs taken one after the other, starts, stops and resets, a
  -- connection has the id that it has in the directory which has seen the same logins, ends of
  -- connections and stops; and a client is sent its messages on a connection if and only if the
  -- directory has the client there.
  pub directory_refines :
      (es : List (Event J)) (release_time : ℕ) (app : H)
      → let s0 = init release_time app in
        let s = live env es s0 in
        (directory s ≡ replay (changes env es s0) nobody)
        × ((id : CombinedId) (hdl : ℕ)
            → (get_connection_hdl_from_id id s ≡ some hdl)
              ↔ (replay (changes env es s0) nobody hdl ≡ some id))
  unfolding init get_connection_hdl_from_id lookup
  directory_refines es release_time app =
      let s0 = init release_time app in
      let same = live-directory es s0 empty-IsLinked in
      let v = live-init-IsValid env es release_time app in
      (
        same,
        λ id hdl. (
          λ e. sym (ap (λ (who : Directory). who hdl) same) ∙ v.hdls id hdl e,
          λ e. v.ids hdl id (ap (λ (who : Directory). who hdl) same ∙ e),
        ),
      )
