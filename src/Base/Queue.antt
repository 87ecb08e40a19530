-- ===== src/Base/Queue.antt =====
-- The action queue of include/simple_web_game_server/base_server.hpp: what an event adds to it, and that
-- the actions themselves add nothing.
use mathlib.Core.List.{append_assoc, append-nil}
use simple_web_game_server.Prelude.{
  ℕ, suc, if◌then◌else◌, ◌⊎◌, ◌≡◌, refl, sym, inl, inr, Bool, true, false, String, List, [], ◌∷◌,
  ◌++◌, ℕ_discrete, Bool-cases, Option-cases,
}
use simple_web_game_server.Prelude.Assoc.{lookup}
use simple_web_game_server.BufferedMap
use simple_web_game_server.Locks.{Readings, update_session_locks}
use simple_web_game_server.Base.{
  CombinedId, id_discrete, ActionType, subscribe, unsubscribe, in_message, out_message,
  close_connection, Action, Server, Env, WsCall, send, close, send_to_hdl, close_hdl, push,
}
use simple_web_game_server.Base.Link.{
  get_connection_hdl_from_id, send_message, drop_duplicate, setup_connection_id, player_disconnect,
}
use simple_web_game_server.Base.Login.{
  Times, with_locks, join_session, open_session, open_session_cases, resend_result_cases,
}
use simple_web_game_server.Base.Sessions.{complete_session, players_of}
use simple_web_game_server.Base.Completion.{close_players_lem, farewells}
use simple_web_game_server.Base.Worker.{
  Input, opened, closed, received, http, works, sends, completes, on_open, on_close, on_message,
  on_http, process_unsubscribe, process_in_message, process_action, step,
}

-- The server runs on, the queue grows at its end at most, and so do the calls.
abbrev pub Grows : {J H : Type 0} → Server J H → Server J H → Type 0
Grows s s' =
    (s'.is_running ≡ s.is_running)
    × (q : List Action) × (s'.actions ≡ s.actions ++ q)
    × (c : List WsCall) × (s'.calls ≡ s.calls ++ c)

-- The same with no new action.
abbrev pub Keeps : {J H : Type 0} → Server J H → Server J H → Type 0
Keeps s s' =
    (s'.is_running ≡ s.is_running)
    × (s'.actions ≡ s.actions)
    × (c : List WsCall) × (s'.calls ≡ s.calls ++ c)

module _ {J H : Type 0} (s : Server J H) where
  Keeps-refl : Keeps s s
  Keeps-refl = (refl, refl, [], sym (append-nil s.calls))

  Grows-refl : Grows s s
  Grows-refl = (refl, [], sym (append-nil s.actions), [], sym (append-nil s.calls))

  Grows-if :
      (b : Bool) (s' s'' : Server J H) → Grows s s' → Grows s s'' → Grows s (if b then s' else s'')
  Grows-if true s' s'' g h = g
  Grows-if false s' s'' g h = h

  Grows-push : (a : Action) → Grows s (push a s)
  Grows-push a = (refl, a ∷ [], refl, [], sym (append-nil s.calls))

module _ {J Jwt H : Type 0} (env : Env J Jwt) where
  join-Keeps :
      (hdl : ℕ) (id : CombinedId) (d : J) (s : Server J H) → Keeps s (join_session env hdl id d s)
  unfolding join_session setup_connection_id close_hdl
  join-Keeps hdl id d s = elim (Option-cases (lookup id_discrete id s.id_connections)) [
    | inl e ↦ rw (e, drop_duplicate) (Keeps-refl s)
    | inr (old, e) ↦
        rw (e, drop_duplicate) (refl, refl, close old env.reasons.duplicate_connection ∷ [], refl)
  ]

  open_session-Keeps :
      (t : Times) (hdl : ℕ) (token : String) (s : Server J H)
      → Keeps s (open_session env t hdl token s)
  unfolding close_hdl send_to_hdl
  open_session-Keeps t hdl token s =
      open_session_cases env (Keeps s) t hdl token s
        (λ _ _. (refl, refl, close hdl env.reasons.invalid_jwt ∷ [], refl))
        (λ id d _ _.
          resend_result_cases env (Keeps s) hdl id (with_locks t s) (Keeps-refl s)
            (λ v e. (refl, refl, _, append_assoc s.calls _ _)))
        (λ id d _ _. join-Keeps hdl id d (with_locks t s))

  pub process_action-Keeps :
      (t : Times) (type : ActionType) (hdl : ℕ) (msg : String) (s : Server J H)
      → Keeps s (process_action env t type hdl msg s)
  unfolding process_action process_unsubscribe process_in_message player_disconnect send_to_hdl
      close_hdl
  process_action-Keeps t subscribe hdl msg s = Keeps-refl s
  process_action-Keeps t unsubscribe hdl msg s =
      elim (Option-cases (lookup ℕ_discrete hdl s.connection_ids)) [
        | inl e ↦ rw (e, process_unsubscribe) (Keeps-refl s)
        | inr (id, e) ↦ rw (e, process_unsubscribe) (Keeps-refl s)
      ]
  process_action-Keeps t in_message hdl msg s =
      elim (Option-cases (lookup ℕ_discrete hdl s.connection_ids)) [
        | inl e ↦ rw (e, process_in_message) (open_session-Keeps t hdl msg s)
        | inr (id, e) ↦ rw (e, process_in_message) (Keeps-refl s)
      ]
  process_action-Keeps t out_message hdl msg s = (refl, refl, send hdl msg ∷ [], refl)
  process_action-Keeps t close_connection hdl msg s = (
    refl,
    refl,
    send hdl msg ∷ close hdl env.reasons.session_complete ∷ [],
    append_assoc s.calls (send hdl msg ∷ []) (close hdl env.reasons.session_complete ∷ []),
  )

-- An input that is no round of a worker.
abbrev pub IsEvent : {J : Type 0} → Input J → Type 0
IsEvent (works t) = ⊥
IsEvent _ = Unit

pub Input-cases : {J : Type 0} (i : Input J) → IsEvent i ⊎ ((t : Times) × (i ≡ works t))
Input-cases (works t) = inr (t, refl)
Input-cases (opened hdl) = inl tt
Input-cases (closed hdl) = inl tt
Input-cases (received hdl msg) = inl tt
Input-cases (http found hdl) = inl tt
Input-cases (sends id msg) = inl tt
Input-cases (completes r sid result_sid d) = inl tt

-- the number of rounds of a worker among some inputs
abbrev pub rounds : {J : Type 0} → List (Input J) → ℕ
rounds [] = 0
rounds (works t ∷ is) = suc (rounds is)
rounds (_ ∷ is) = rounds is

pub rounds-event :
    {J : Type 0} (i : Input J) (is : List (Input J)) → IsEvent i → rounds (i ∷ is) ≡ rounds is
rounds-event (works t) is v = elim v [ ]
rounds-event (opened hdl) is v = refl
rounds-event (closed hdl) is v = refl
rounds-event (received hdl msg) is v = refl
rounds-event (http found hdl) is v = refl
rounds-event (sends id msg) is v = refl
rounds-event (completes r sid result_sid d) is v = refl

module _ {J H : Type 0} where
  send_message-Grows :
      (id : CombinedId) (msg : String) (s : Server J H) → Grows s (send_message id msg s)
  unfolding send_message
  send_message-Grows id msg s = elim (Option-cases (get_connection_hdl_from_id id s)) [
    | inl e ↦ rw (e, send_message) (Grows-refl s)
    | inr (hdl, e) ↦ rw (e, send_message) (Grows-push s _)
  ]

module _ {J Jwt H : Type 0} (env : Env J Jwt) where
  complete_session-Grows :
      (r : Readings) (sid result_sid : ℕ) (d : J) (s : Server J H)
      → Grows s (complete_session env r sid result_sid d s)
  unfolding complete_session
  complete_session-Grows r sid result_sid d s =
      elim (Bool-cases (BufferedMap.contains (update_session_locks r s.locks).locked sid)) [
        | inl over ↦ rw (over, complete_session) (Grows-refl s)
        | inr free ↦
            rw (free, complete_session, close_players_lem)
              (
                refl,
                farewells env sid _ s.id_connections (players_of sid s),
                refl,
                [],
                sym (append-nil s.calls),
              )
      ]

  pub step-Grows : (i : Input J) (s : Server J H) → IsEvent i → Grows s (step env i s)
  unfolding step on_open on_close on_message on_http close_hdl
  step-Grows (opened hdl) s v =
      Grows-if s s.is_running _ _ (Grows-push s _)
        (refl, [], sym (append-nil s.actions), close hdl env.reasons.server_shutdown ∷ [], refl)
  step-Grows (closed hdl) s v = Grows-push s _
  step-Grows (received hdl msg) s v = Grows-push s _
  step-Grows (http found hdl) s v =
      Grows-if s s.is_running _ _ (Grows-if s found _ _ (Grows-refl s) (Grows-refl s))
        (Grows-refl s)
  step-Grows (works t) s v = elim v [ ]
  step-Grows (sends id msg) s v = send_message-Grows id msg s
  step-Grows (completes r sid result_sid d) s v = complete_session-Grows r sid result_sid d s
