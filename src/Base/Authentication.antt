-- ===== src/Base/Authentication.antt =====
-- Who gets an id in include/simple_web_game_server/base_server.hpp: tokens, and where they come from.
use simple_web_game_server.Prelude.{
  ℕ, ◌≡◌, refl, subst, inl, inr, Bool, true, false, String, Option, none, some, List, [], ◌∷◌, All,
  All-append, arith, ℕ_discrete, Bool-cases, Option-cases,
}
use simple_web_game_server.Prelude.Assoc.{lookup, Entries, erase-Entries, emplace-Entries}
use simple_web_game_server.BufferedMap
use simple_web_game_server.Locks.{Readings, update_session_locks}
use simple_web_game_server.Base.{
  CombinedId, id_discrete, ActionType, subscribe, unsubscribe, in_message, out_message,
  close_connection, Action, SessionData, Server, Env, init, send_to_hdl, push, close_hdl,
}
use simple_web_game_server.Base.Lifecycle.{
  Event, acts, starts, stops, resets, run, shut_down, stop, reset, live_step, live,
}
use simple_web_game_server.Base.Link.{
  get_connection_hdl_from_id, send_message, drop_duplicate, setup_connection_id, player_disconnect,
}
use simple_web_game_server.Base.Login.{
  Times, LoginError, out_of_range, token_verification, invalid_argument, other_exception, Checked,
  ◌>>=◌, ◌>>◌, valid, or_throw, require, with_locks, read_token, join_session, open_session,
  open_session_cases, resend_result_cases,
}
use simple_web_game_server.Base.Sessions.{close_player, close_players, complete_session, players_of}
use simple_web_game_server.Base.Shutdown.{shut_down-actions}
use simple_web_game_server.Base.Worker.{
  opened, closed, received, http, works, sends, completes, on_open, on_close, on_message, on_http,
  process_unsubscribe, process_in_message, process_action, work, step,
}

-- The token `token` proves at `jwt_now` that its bearer is `id`.
pub record Proves {J Jwt : Type 0} (env : Env J Jwt) (jwt_now : ℕ) (token : String)
    (id : CombinedId) : Type 0 where
  pub jwt : Jwt
  pub pid_json : J
  pub sid_json : J
  pub decoded : env.decode token ≡ some jwt
  pub verified : env.verify jwt_now jwt ≡ true
  pub pid_claim : env.claim jwt "pid" ≡ some pid_json
  pub sid_claim : env.claim jwt "sid" ≡ some sid_json
  pub player : env.parse_player_id pid_json ≡ some id.player
  pub session : env.parse_session_id sid_json ≡ some id.session

or_throw-bind :
    {A B : Type 0} (e : LoginError) (o : Option A) (f : A → Checked B) {b : B}
    → (or_throw e o >>= f) ≡ valid b
    → (a : A) × (o ≡ some a) × (f a ≡ valid b)
or_throw-bind e none f h = ground arith
or_throw-bind e (some a) f h = (a, refl, h)

require-bind :
    {B : Type 0} (e : LoginError) (c : Bool) (m : Checked B) {b : B}
    → (require e c >> m) ≡ valid b
    → (c ≡ true) × (m ≡ valid b)
require-bind e true m h = (refl, h)
require-bind e false m h = ground arith

module _ {J Jwt : Type 0} (env : Env J Jwt) where
  read_token-Proves :
      (jwt_now : ℕ) (token : String) (id : CombinedId) (d : J)
      → read_token env jwt_now token ≡ valid (id, d)
      → Proves env jwt_now token id
  unfolding read_token
  read_token-Proves jwt_now token id d e =
      let (jwt, decoded, e1) = or_throw-bind invalid_argument (env.decode token) _ e in
      let (verified, e2) = require-bind token_verification (env.verify jwt_now jwt) _ e1 in
      let (pid_json, pid_claim, e3) = or_throw-bind out_of_range (env.claim jwt "pid") _ e2 in
      let (pid, player, e4) = or_throw-bind other_exception (env.parse_player_id pid_json) _ e3 in
      let (sid_json, sid_claim, e5) = or_throw-bind out_of_range (env.claim jwt "sid") _ e4 in
      let (sid, session, e6) = or_throw-bind other_exception (env.parse_session_id sid_json) _ e5 in
      let (_, _, e7) = or_throw-bind out_of_range (env.claim jwt "data") _ e6 in
      record {
        jwt = jwt;
        pid_json = pid_json;
        sid_json = sid_json;
        decoded = decoded;
        verified = verified;
        pid_claim = pid_claim;
        sid_claim = sid_claim;
        player = ground arith;
        session = ground arith;
      }

-- What is known of the inputs so far: which messages came from which connection, and at which
-- times a worker ran. A connection with this id has sent, itself, a token that proved it when a
-- worker read it.
abbrev pub Authentic :
    {J Jwt : Type 0}
    → Env J Jwt
    → (ℕ → String → Type 0)
    → (Times → Type 0)
    → ℕ
    → CombinedId
    → Type 0
Authentic env Said Worked hdl id =
    (token : String) × (t : Times) × Said hdl token × Worked t × Proves env t.jwt_now token id

-- A queued message is one that its connection has sent.
abbrev Genuine : (ℕ → String → Type 0) → Action → Type 0
Genuine Said a = a.type ≡ in_message → Said a.hdl a.msg

abbrev Trusted :
    {J H : Type 0} → (ℕ → String → Type 0) → (ℕ → CombinedId → Type 0) → Server J H → Type 0
Trusted Said Known s = Entries ℕ_discrete Known s.connection_ids × All (Genuine Said) s.actions

module _ {J Jwt H : Type 0} (env : Env J Jwt) (Said : ℕ → String → Type 0)
    (Known : ℕ → CombinedId → Type 0) where
  join-Trusted :
      (hdl : ℕ) (id : CombinedId) (d : J) (s : Server J H)
      → Known hdl id
      → Trusted Said Known s
      → Trusted Said Known (join_session env hdl id d s)
  unfolding join_session setup_connection_id drop_duplicate close_hdl
  join-Trusted hdl id d s proof (known, queued) =
      elim (Option-cases (lookup id_discrete id s.id_connections)) [
        | inl absent ↦
            rw (absent, drop_duplicate) (emplace-Entries _ Known hdl id _ proof known, queued)
        | inr (old, there) ↦
            rw (there, drop_duplicate)
              (emplace-Entries _ Known hdl id _ proof (erase-Entries _ Known old _ known), queued)
      ]

  open_session-Trusted :
      (t : Times) (hdl : ℕ) (token : String) (s : Server J H)
      → ((id : CombinedId) → Proves env t.jwt_now token id → Known hdl id)
      → Trusted Said Known s
      → Trusted Said Known (open_session env t hdl token s)
  unfolding close_hdl send_to_hdl
  open_session-Trusted t hdl token s proves v =
      open_session_cases env (Trusted Said Known) t hdl token s (λ _ _. v)
        (λ id d _ _.
          resend_result_cases env (Trusted Said Known) hdl id (with_locks t s) v (λ _ _. v))
        (λ id d e _.
          join-Trusted hdl id d (with_locks t s) (proves id (read_token-Proves env _ token id d e))
            v)

  process_action-Trusted :
      (t : Times) (type : ActionType) (hdl : ℕ) (msg : String) (s : Server J H)
      → (type ≡ in_message → (id : CombinedId) → Proves env t.jwt_now msg id → Known hdl id)
      → Trusted Said Known s
      → Trusted Said Known (process_action env t type hdl msg s)
  unfolding process_action process_unsubscribe process_in_message player_disconnect send_to_hdl
      close_hdl
  process_action-Trusted t subscribe hdl msg s p v = v
  process_action-Trusted t unsubscribe hdl msg s p v =
      elim (Option-cases (lookup ℕ_discrete hdl s.connection_ids)) [
        | inl e ↦ rw (e, process_unsubscribe) v
        | inr (id, e) ↦ rw (e, process_unsubscribe) (erase-Entries _ Known hdl _ v.0, v.1)
      ]
  process_action-Trusted t in_message hdl msg s p v =
      elim (Option-cases (lookup ℕ_discrete hdl s.connection_ids)) [
        | inl e ↦ rw (e, process_in_message) (open_session-Trusted t hdl msg s (p refl) v)
        | inr (id, e) ↦ rw (e, process_in_message) v
      ]
  process_action-Trusted t out_message hdl msg s p v = v
  process_action-Trusted t close_connection hdl msg s p v = v

  push-Trusted :
      (a : Action) (s : Server J H)
      → Genuine Said a
      → Trusted Said Known s
      → Trusted Said Known (push a s)
  push-Trusted a s g (known, queued) =
      (known, All-append (Genuine Said) s.actions (a ∷ []) queued (g, tt))

  close_players-Trusted :
      (sid : ℕ) (result : SessionData J) (pids : List ℕ) (s : Server J H)
      → Trusted Said Known s
      → Trusted Said Known (close_players env sid result pids s)
  unfolding close_players close_player
  close_players-Trusted sid result [] s v = v
  close_players-Trusted sid result (pid ∷ pids) s v =
      close_players-Trusted sid result pids _
        (elim (Option-cases
          (get_connection_hdl_from_id (record { player = pid; session = sid }) s)) [
            | inl e ↦ rw (e, close_player) v
            | inr (hdl, e) ↦ rw (e, close_player) (push-Trusted _ s (λ p. cc) v)
          ])

  complete_session-Trusted :
      (r : Readings) (sid result_sid : ℕ) (d : J) (s : Server J H)
      → Trusted Said Known s
      → Trusted Said Known (complete_session env r sid result_sid d s)
  unfolding complete_session
  complete_session-Trusted r sid result_sid d s v =
      elim (Bool-cases (BufferedMap.contains (update_session_locks r s.locks).locked sid)) [
        | inl over ↦ rw (over, complete_session) v
        | inr open_still ↦
            rw (open_still, complete_session)
              (close_players-Trusted sid _ (players_of sid s)
                (record s { locks = update_session_locks r s.locks }) v)
      ]

  send_message-Trusted :
      (id : CombinedId) (msg : String) (s : Server J H)
      → Trusted Said Known s
      → Trusted Said Known (send_message id msg s)
  unfolding send_message
  send_message-Trusted id msg s v = elim (Option-cases (get_connection_hdl_from_id id s)) [
    | inl e ↦ rw (e, send_message) v
    | inr (hdl, e) ↦ rw (e, send_message) (push-Trusted _ s (λ p. cc) v)
  ]

  on_open-Trusted :
      (hdl : ℕ) (s : Server J H) → Trusted Said Known s → Trusted Said Known (on_open env hdl s)
  unfolding on_open close_hdl
  on_open-Trusted hdl s v = elim (Bool-cases s.is_running) [
    | inl e ↦ rw (e, on_open) (push-Trusted _ s (λ p. cc) v)
    | inr e ↦ rw (e, on_open) v
  ]

  on_http-Trusted :
      (found : Bool) (hdl : ℕ) (s : Server J H)
      → Trusted Said Known s
      → Trusted Said Known (on_http found hdl s)
  unfolding on_http
  on_http-Trusted true hdl s v = elim (Bool-cases s.is_running) [
    | inl e ↦ rw (e, on_http) v
    | inr e ↦ rw (e, on_http) v
  ]
  on_http-Trusted false hdl s v = elim (Bool-cases s.is_running) [
    | inl e ↦ rw (e, on_http) v
    | inr e ↦ rw (e, on_http) v
  ]

  shut_down-Trusted : (s : Server J H) → Trusted Said Known (shut_down env s)
  unfolding shut_down lookup
  shut_down-Trusted s = ((λ k w q. cc), rw (shut_down-actions env s) tt)

-- What an input says: a message is one of its connection, and a round is one at its times.
abbrev pub Recorded : {J : Type 0} → (ℕ → String → Type 0) → (Times → Type 0) → Event J → Type 0
Recorded Said Worked (acts (received hdl msg)) = Said hdl msg
Recorded Said Worked (acts (works t)) = Worked t
Recorded Said Worked _ = Unit

module _ {J Jwt H : Type 0} (env : Env J Jwt) (Said : ℕ → String → Type 0)
    (Worked : Times → Type 0) where
  abbrev IsTrusted : Server J H → Type 0
  IsTrusted s = Trusted Said (Authentic env Said Worked) s

  work-IsTrusted : (t : Times) (s : Server J H) → Worked t → IsTrusted s → IsTrusted (work env t s)
  unfolding work
  work-IsTrusted t s worked v = go s.is_running s.actions refl refl
    where
      go :
          (b : Bool) (q : List Action) → s.is_running ≡ b → s.actions ≡ q → IsTrusted (work env t s)
      go false q e f = rw (e, work) v
      go true [] e f = rw (e, f, work) v
      go true (a ∷ rest) e f =
          let queued = subst (All (Genuine Said)) f v.1 in
          rw (e, f, work)
            (process_action-Trusted env Said (Authentic env Said Worked) t a.type a.hdl a.msg
              (record s { actions = rest }) (λ p id proof. (a.msg, t, queued.0 p, worked, proof))
              (v.0, queued.1))

  live_step-IsTrusted :
      (e : Event J) (s : Server J H)
      → Recorded Said Worked e
      → IsTrusted s
      → IsTrusted (live_step env e s)
  unfolding live_step step on_close on_message
  live_step-IsTrusted (acts (opened hdl)) s r v = on_open-Trusted env Said _ hdl s v
  live_step-IsTrusted (acts (closed hdl)) s r v = push-Trusted env Said _ _ s (λ p. cc) v
  live_step-IsTrusted (acts (received hdl msg)) s r v = push-Trusted env Said _ _ s (λ p. r) v
  live_step-IsTrusted (acts (http found hdl)) s r v = on_http-Trusted env Said _ found hdl s v
  live_step-IsTrusted (acts (works t)) s r v = work-IsTrusted t s r v
  live_step-IsTrusted (acts (sends id msg)) s r v = send_message-Trusted env Said _ id msg s v
  live_step-IsTrusted (acts (completes rs sid rsid d)) s r v =
      complete_session-Trusted env Said _ rs sid rsid d s v
  live_step-IsTrusted (starts port unlock_address) s r v = elim (Bool-cases s.is_running) [
    | inl e ↦ rw (e, run) v
    | inr e ↦ rw (e, run) v
  ]
  live_step-IsTrusted stops s r v = elim (Bool-cases s.is_running) [
    | inl e ↦ rw (e, stop) (shut_down-Trusted env Said _ s)
    | inr e ↦ rw (e, stop) v
  ]
  live_step-IsTrusted resets s r v = elim (Bool-cases s.is_running) [
    | inl e ↦ rw (e, reset, stop) (shut_down-Trusted env Said _ s)
    | inr e ↦ rw (e, reset) v
  ]

  live-IsTrusted :
      (es : List (Event J)) (s : Server J H)
      → All (Recorded Said Worked) es
      → IsTrusted s
      → IsTrusted (live env es s)
  unfolding live
  live-IsTrusted [] s r v = v
  live-IsTrusted (e ∷ es) s (r, rs) v =
      live-IsTrusted es (live_step env e s) rs (live_step-IsTrusted e s r v)

  -- After any history of a new server: a connection that has an id has itself sent a message that
  -- decoded to a token which the verifier accepted when a worker read it, and whose "pid" and
  -- "sid" claims parse to that id. (`Said` and `Worked` are any predicates that hold of the
  -- messages received and of the times of the rounds in the history.)
  pub authentication :
      (es : List (Event J)) (release_time : ℕ) (app : H) (hdl : ℕ) (id : CombinedId)
      → All (Recorded Said Worked) es
      → lookup ℕ_discrete hdl (live env es (init release_time app)).connection_ids ≡ some id
      → Authentic env Said Worked hdl id
  unfolding init lookup
  authentication es release_time app hdl id rs e =
      (live-IsTrusted es (init release_time app) rs ((λ k w q. cc), tt)).0 hdl id e
