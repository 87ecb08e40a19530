-- ===== src/Base/Rounds.antt =====
-- One round of a worker of include/simple_web_game_server/base_server.hpp: what it takes off the action
-- queue, and the calls it makes.
use mathlib.Core.List.{append_assoc, append-nil}
use simple_web_game_server.Prelude.{
  ℕ, if◌then◌else◌, ◌≡◌, refl, sym, ap, ◌∙◌, inl, inr, Bool, true, String, List, [], ◌∷◌, ◌++◌,
  Bool-cases,
}
use simple_web_game_server.Base.{
  ActionType, subscribe, unsubscribe, in_message, out_message, close_connection, Action, Server,
  Env, WsCall, send, close, send_to_hdl, close_hdl,
}
use simple_web_game_server.Base.Login.{Times}
use simple_web_game_server.Base.Worker.{Input, works, process_action, work, step}
use simple_web_game_server.Base.Queue.{process_action-Keeps, Input-cases, step-Grows}

module _ {J Jwt H : Type 0} (env : Env J Jwt) where
  -- what a round of a running server does with the queue `q`
  abbrev take_first : Times → Server J H → List Action → Server J H
  take_first t s [] = s
  take_first t s (a ∷ rest) = process_action env t a.type a.hdl a.msg (record s { actions = rest })

  -- On a running server a round takes the first action off the queue.
  pub work-running :
      (t : Times) (q : List Action) (s : Server J H)
      → s.is_running ≡ true
      → s.actions ≡ q
      → work env t s ≡ take_first t s q
  unfolding work
  work-running t q s on e =
      ap
        (λ (b : Bool).
          if b
          then elim s.actions [
            | [] ↦ s
            | a ∷ rest ↦ process_action env t a.type a.hdl a.msg (record s { actions = rest })
          ]
          else s)
        on
      ∙ ap
          (λ (l : List Action). elim l [
            | [] ↦ s
            | a ∷ rest ↦ process_action env t a.type a.hdl a.msg (record s { actions = rest })
          ])
          e
      ∙ taken t s q
    where
      taken :
          (t : Times) (s : Server J H) (q : List Action)
          → elim q as (λ _. Server J H) [
            | [] ↦ s
            | a ∷ rest ↦ process_action env t a.type a.hdl a.msg (record s { actions = rest })
          ]
            ≡ take_first t s q
      taken t s [] = refl
      taken t s (a ∷ rest) = refl

-- The calls that an action of the server makes: its message, and the end of the connection.
abbrev pub issues : {J Jwt : Type 0} → Env J Jwt → Action → List WsCall
issues env a = elim a.type [
  | out_message ↦ send a.hdl a.msg ∷ []
  | close_connection ↦ send a.hdl a.msg ∷ close a.hdl env.reasons.session_complete ∷ []
  | _ ↦ []
]

module _ {J Jwt H : Type 0} (env : Env J Jwt) where
  process_action-issues :
      (t : Times) (type : ActionType) (hdl : ℕ) (msg : String) (s : Server J H)
      → let a : Action = record { type = type; hdl = hdl; msg = msg } in
        (c : List WsCall) × ((process_action env t type hdl msg s).calls
          ≡ s.calls ++ (issues env a ++ c))
  unfolding process_action send_to_hdl close_hdl
  process_action-issues t out_message hdl msg s = ([], refl)
  process_action-issues t close_connection hdl msg s = ([], append_assoc s.calls _ _)
  process_action-issues t subscribe hdl msg s = ([], sym (append-nil s.calls))
  process_action-issues t unsubscribe hdl msg s =
      let (_, _, c, e) = process_action-Keeps env t unsubscribe hdl msg s in (c, e)
  process_action-issues t in_message hdl msg s =
      let (_, _, c, e) = process_action-Keeps env t in_message hdl msg s in (c, e)

  -- An input that is a round, on a queue that is not empty.
  pub step-works :
      (t : Times) (a : Action) (rest : List Action) (s : Server J H)
      → s.is_running ≡ true
      → s.actions ≡ a ∷ rest
      → let s' = step env (works t) s in
        (s'.is_running ≡ true)
        × (s'.actions ≡ rest)
        × (c : List WsCall) × (s'.calls ≡ s.calls ++ (issues env a ++ c))
  unfolding step
  step-works t a rest s on e =
      let s1 : Server J H = record s { actions = rest } in
      let (r, q, _, _) = process_action-Keeps env t a.type a.hdl a.msg s1 in
      let (c, h) = process_action-issues t a.type a.hdl a.msg s1 in
      rw (work-running env t (a ∷ rest) s on e) (r ∙ on, q, c, h)

  -- Any input, on a running server.
  pub step-running :
      (i : Input J) (s : Server J H)
      → s.is_running ≡ true
      → ((step env i s).is_running ≡ true)
        × (c : List WsCall) × ((step env i s).calls ≡ s.calls ++ c)
  unfolding step
  step-running i s on = elim (Input-cases i) [
    | inl v ↦ let (r, _, _, c, h) = step-Grows env i s v in (r ∙ on, c, h)
    | inr (t, e) ↦ rw e (round t s.actions refl)
  ]
    where
      round :
          (t : Times) (q : List Action)
          → s.actions ≡ q
          → ((work env t s).is_running ≡ true)
            × (c : List WsCall) × ((work env t s).calls ≡ s.calls ++ c)
      round t [] e = rw (work-running env t [] s on e) (on, [], sym (append-nil s.calls))
      round t (a ∷ rest) e =
          let (r, _, c, h) = step-works t a rest s on e in (r, issues env a ++ c, h)

module _ {J Jwt H : Type 0} (env : Env J Jwt) where
  pub step-is_running : (i : Input J) (s : Server J H) → (step env i s).is_running ≡ s.is_running
  unfolding step
  step-is_running i s = elim (Bool-cases s.is_running) [
    | inl on ↦ (step-running env i s on).0 ∙ sym on
    | inr off ↦ elim (Input-cases i) [
      | inl v ↦ (step-Grows env i s v).0
      | inr (t, e) ↦ rw (e, work) (rw off refl)
    ]
  ]
