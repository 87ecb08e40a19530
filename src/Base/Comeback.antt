-- ===== src/Base/Comeback.antt =====
-- Logins to a session that is over, in include/simple_web_game_server/base_server.hpp.
use simple_web_game_server.Prelude.{
  ℕ, ◌≡◌, refl, ap, ◌∙◌, inl, inr, Bool, true, false, String, some, List, [], ◌∷◌, All, is_some,
  ℕ_discrete, Bool-cases, Option-cases, ◌+◌, ◌*◌, ◌≤◌,
}
use simple_web_game_server.Prelude.Assoc.{lookup}
use simple_web_game_server.BufferedMap
use simple_web_game_server.BufferedMap.Laws.{contains-at}
use simple_web_game_server.Locks.{
  Locks, Readings, Op, check, completes as completes_op, readings, ns_per_ms, update_session_locks,
  complete, apply, release_time-apply, release_time-complete,
}
use simple_web_game_server.Locks.Retention.{IsKept, IsKept-at, fresh-IsKept, apply-IsKept}
use simple_web_game_server.Base.{
  CombinedId, id_discrete, ActionType, subscribe, unsubscribe, in_message, out_message,
  close_connection, Action, SessionData, Server, Env, send_to_hdl, close_hdl,
}
use simple_web_game_server.Base.Link.{
  get_connection_hdl_from_id, send_message, drop_duplicate, setup_connection_id, player_disconnect,
}
use simple_web_game_server.Base.Login.{
  Times, valid, with_locks, read_token, resend_result, join_session, open_session,
  open_session_cases, resend_result_cases,
}
use simple_web_game_server.Base.Sessions.{complete_session}
use simple_web_game_server.Base.Completion.{close_players_lem}
use simple_web_game_server.Base.Worker.{
  Input, opened, closed, received, http, works, sends, completes, on_open, on_close, on_message,
  on_http, process_unsubscribe, process_in_message, process_action, work, step, run_inputs,
}

-- The two readings of the clock lie in the release time, in milliseconds, after `t0`.
abbrev pub Timely : ℕ → ℕ → Readings → Type 0
Timely t0 release r = (t0 ≤ r.now) × (r.now ≤ t0 + release * ns_per_ms) × (r.now ≤ r.stamp)

-- An input whose readings of the clock are timely.
abbrev pub TimelyInput : {J : Type 0} → ℕ → ℕ → Input J → Type 0
TimelyInput t0 release (works t) = Timely t0 release t.locks
TimelyInput t0 release (completes r sid result_sid d) = Timely t0 release r
TimelyInput t0 release _ = Unit

module _ {V : Type 0} (t0 k : ℕ) (v : V) (release : ℕ) where
  -- The archive still has the result, and its release time is the same.
  abbrev Holds : Locks V → Type 0
  Holds l = IsKept t0 k v l × (l.release_time ≡ release)

  apply-Holds :
      (o : Op V) (l : Locks V) → Timely t0 release (readings o) → Holds l → Holds (apply o l)
  apply-Holds o l t (kept, same) =
      (apply-IsKept t0 k v o l (rw same t) kept, release_time-apply o l ∙ same)

module _ {J Jwt H : Type 0} (env : Env J Jwt) where
  -- On the archive, `complete_session` is `complete`.
  locks-complete_session :
      (r : Readings) (sid result_sid : ℕ) (d : J) (s : Server J H)
      → (complete_session env r sid result_sid d s).locks
        ≡ complete r sid (record { session = result_sid; result = d }) s.locks
  unfolding complete_session complete
  locks-complete_session r sid result_sid d s =
      elim (Bool-cases (BufferedMap.contains (update_session_locks r s.locks).locked sid)) [
        | inl over ↦ rw (over, complete_session, complete) refl
        | inr free ↦ rw (free, complete_session, complete, close_players_lem) refl
      ]

module _ {J Jwt H : Type 0} (env : Env J Jwt) (t0 k : ℕ) (v : SessionData J) (release : ℕ) where
  abbrev Held : Server J H → Type 0
  Held s = Holds t0 k v release s.locks

  with_locks-Held :
      (t : Times) (s : Server J H) → Timely t0 release t.locks → Held s → Held (with_locks t s)
  unfolding apply
  with_locks-Held t s timely h = apply-Holds t0 k v release (check t.locks) s.locks timely h

  join-Held :
      (hdl : ℕ) (id : CombinedId) (d : J) (s : Server J H)
      → Held s
      → Held (join_session env hdl id d s)
  unfolding join_session setup_connection_id drop_duplicate close_hdl
  join-Held hdl id d s h = elim (Option-cases (lookup id_discrete id s.id_connections)) [
    | inl e ↦ rw (e, drop_duplicate) h
    | inr (old, e) ↦ rw (e, drop_duplicate) h
  ]

  process_action-Held :
      (t : Times) (type : ActionType) (hdl : ℕ) (msg : String) (s : Server J H)
      → Timely t0 release t.locks
      → Held s
      → Held (process_action env t type hdl msg s)
  unfolding process_action process_unsubscribe process_in_message player_disconnect send_to_hdl
      close_hdl
  process_action-Held t subscribe hdl msg s p h = h
  process_action-Held t unsubscribe hdl msg s p h =
      elim (Option-cases (lookup ℕ_discrete hdl s.connection_ids)) [
        | inl e ↦ rw (e, process_unsubscribe) h
        | inr (id, e) ↦ rw (e, process_unsubscribe) h
      ]
  process_action-Held t in_message hdl msg s p h =
      elim (Option-cases (lookup ℕ_discrete hdl s.connection_ids)) [
        | inl e ↦
            let h' = with_locks-Held t s p h in
            rw (e, process_in_message)
              (open_session_cases env Held t hdl msg s (λ _ _. h)
                (λ id d _ _. resend_result_cases env Held hdl id (with_locks t s) h' (λ _ _. h'))
                (λ id d _ _. join-Held hdl id d (with_locks t s) h'))
        | inr (id, e) ↦ rw (e, process_in_message) h
      ]
  process_action-Held t out_message hdl msg s p h = h
  process_action-Held t close_connection hdl msg s p h = h

  work-Held :
      (t : Times) (s : Server J H) → Timely t0 release t.locks → Held s → Held (work env t s)
  unfolding work
  work-Held t s p h = go s.is_running s.actions refl refl
    where
      go : (b : Bool) (q : List Action) → s.is_running ≡ b → s.actions ≡ q → Held (work env t s)
      go false q e f = rw (e, work) h
      go true [] e f = rw (e, f, work) h
      go true (a ∷ rest) e f =
          rw (e, f, work)
            (process_action-Held t a.type a.hdl a.msg (record s { actions = rest }) p h)

  step-Held :
      (i : Input J) (s : Server J H) → TimelyInput t0 release i → Held s → Held (step env i s)
  unfolding step on_open on_close on_message on_http send_message close_hdl apply
  step-Held (opened hdl) s p h = elim (Bool-cases s.is_running) [
    | inl e ↦ rw (e, on_open) h
    | inr e ↦ rw (e, on_open) h
  ]
  step-Held (closed hdl) s p h = h
  step-Held (received hdl msg) s p h = h
  step-Held (http true hdl) s p h = elim (Bool-cases s.is_running) [
    | inl e ↦ rw (e, on_http) h
    | inr e ↦ rw (e, on_http) h
  ]
  step-Held (http false hdl) s p h = elim (Bool-cases s.is_running) [
    | inl e ↦ rw (e, on_http) h
    | inr e ↦ rw (e, on_http) h
  ]
  step-Held (works t) s p h = work-Held t s p h
  step-Held (sends id msg) s p h = elim (Option-cases (get_connection_hdl_from_id id s)) [
    | inl e ↦ rw (e, send_message) h
    | inr (hdl, e) ↦ rw (e, send_message) h
  ]
  step-Held (completes r sid result_sid d) s p h =
      rw (locks-complete_session env r sid result_sid d s) (
        apply-Holds t0 k v release
          (completes_op r sid (record { session = result_sid; result = d })) s.locks p h)

  run_inputs-Held :
      (is : List (Input J)) (s : Server J H)
      → All (TimelyInput t0 release) is
      → Held s
      → Held (run_inputs env is s)
  unfolding run_inputs
  run_inputs-Held [] s p h = h
  run_inputs-Held (i ∷ is) s (p, ps) h = run_inputs-Held is (step env i s) ps (step-Held i s p h)

module _ {J Jwt H : Type 0} (env : Env J Jwt) where
  -- While a result is in the archive, a login to its session is answered by it.
  resend-at :
      (hdl : ℕ) (id : CombinedId) (v : SessionData J) (s : Server J H)
      → BufferedMap.at s.locks.locked id.session ≡ some v
      → resend_result env hdl id s
        ≡ close_hdl hdl env.reasons.session_complete (
            send_to_hdl hdl
              (env.get_result_str (record { player = id.player; session = v.session }) v.result)
              s)
  unfolding resend_result
  resend-at hdl id v s e = rw (e, resend_result) refl

  open_session_over :
      (t : Times) (hdl : ℕ) (token : String) (s : Server J H) (id : CombinedId) (d : J)
      → read_token env t.jwt_now token ≡ valid (id, d)
      → BufferedMap.contains (update_session_locks t.locks s.locks).locked id.session ≡ true
      → open_session env t hdl token s ≡ resend_result env hdl id (with_locks t s)
  unfolding open_session
  open_session_over t hdl token s id d good over = rw (good, open_session, over) refl

  -- After a session has completed, any inputs may follow, also further calls of
  -- `complete_session` for it: a connection that then logs in to the session with a valid token is
  -- sent the result that was given first, made for its player, and is closed; it gets no id. This
  -- holds while the clock is read within the release time of the completion and does not go back
  -- within one reading.
  pub comeback :
      (r : Readings) (sid result_sid : ℕ) (d : J) (is : List (Input J)) (t : Times) (hdl : ℕ)
      (token : String) (id : CombinedId) (login : J) (s : Server J H)
      → r.now ≤ r.stamp
      → BufferedMap.contains (update_session_locks r s.locks).locked sid ≡ false
      → All (TimelyInput r.now s.locks.release_time) is
      → Timely r.now s.locks.release_time t.locks
      → read_token env t.jwt_now token ≡ valid (id, login)
      → id.session ≡ sid
      → let s' = with_locks t (run_inputs env is (complete_session env r sid result_sid d s)) in
        open_session env t hdl token (run_inputs env is (complete_session env r sid result_sid d s))
        ≡ close_hdl hdl env.reasons.session_complete (
            send_to_hdl hdl
              (env.get_result_str (record { player = id.player; session = result_sid }) d)
              s')
  comeback r sid result_sid d is t hdl token id login s ordered free timely now good same =
      let v : SessionData J = record { session = result_sid; result = d } in
      let release : ℕ = s.locks.release_time in
      let done = complete_session env r sid result_sid d s in
      let later = run_inputs env is done in
      let first : Holds r.now sid v release done.locks =
        rw (locks-complete_session env r sid result_sid d s)
          (fresh-IsKept r sid v s.locks ordered free, release_time-complete r sid v s.locks) in
      let kept : Holds r.now sid v release (with_locks t later).locks =
        with_locks-Held env r.now sid v release t later now
          (run_inputs-Held env r.now sid v release is done timely first) in
      let there : BufferedMap.at (with_locks t later).locks.locked id.session ≡ some v =
        rw same (IsKept-at r.now sid v (with_locks t later).locks kept.0) in
      open_session_over t hdl token later id login good
        (contains-at (with_locks t later).locks.locked id.session ∙ ap is_some there)
      ∙ resend-at hdl id v (with_locks t later) there
