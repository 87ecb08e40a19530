-- ===== src/Base/Delivery.antt =====
-- The action queue of include/simple_web_game_server/base_server.hpp over time: what the rounds of a
-- worker make of it, beside the events that fill it.
use mathlib.Core.Logic.{∥∥₁_elim}
use mathlib.Core.List.{
  Mem, Mem-prop, append_assoc, append-nil, append_of_mem, mem-append_left, mem-append_right,
}
use mathlib.Core.Path.{subst⁻¹}
use simple_web_game_server.Prelude.{
  ℕ, suc, ◌≤◌, ◌<◌, ◌≡◌, refl, sym, ap, ◌∙◌, inl, inr, true, String, some, List, [], ◌∷◌, ◌++◌, map,
  length, arith, subst, length-append,
}
use simple_web_game_server.Base.{CombinedId, Action, out_message, Server, Env, WsCall, send, push}
use simple_web_game_server.Base.Link.{get_connection_hdl_from_id, send_message}
use simple_web_game_server.Base.Login.{Times}
use simple_web_game_server.Base.Worker.{Input, works, step, run_inputs}
use simple_web_game_server.Base.Queue.{IsEvent, Input-cases, rounds, rounds-event, step-Grows}
use simple_web_game_server.Base.Rounds.{issues, step-works, step-running, work-running}

module _ {J Jwt H : Type 0} (env : Env J Jwt) where
  run_inputs-calls :
      (is : List (Input J)) (s : Server J H)
      → s.is_running ≡ true
      → (c : List WsCall) × ((run_inputs env is s).calls ≡ s.calls ++ c)
  unfolding run_inputs
  run_inputs-calls [] s on = ([], sym (append-nil s.calls))
  run_inputs-calls (i ∷ is) s on =
      let (r, c, h) = step-running env i s on in
      let (d, k) = run_inputs-calls is (step env i s) r in
      (c ++ d, k ∙ ap (λ l. l ++ d) h ∙ append_assoc s.calls c d)

module _ {J Jwt : Type 0} (H : Type 0) (env : Env J Jwt) where
  -- The action `a` makes its calls in the history `is` of a server that runs, if there are enough
  -- rounds.
  abbrev Reached : List (Input J) → Action → Type 0
  Reached is a =
      (before after : List Action) (s : Server J H)
      → s.is_running ≡ true
      → s.actions ≡ before ++ a ∷ after
      → length before < rounds is
      → (c : List WsCall) × (d : List WsCall) × ((run_inputs env is s).calls
          ≡ c ++ (issues env a ++ d))

  Reached-works :
      (t : Times) (is : List (Input J)) (a : Action) → Reached is a → Reached (works t ∷ is) a
  unfolding run_inputs
  Reached-works t is a h [] after s on e few =
      let (r, _, c, k) = step-works env t a after s on e in
      let (d, l) = run_inputs-calls env is (step env (works t) s) r in
      (
        s.calls,
        c ++ d,
        l
            ∙ ap (λ x. x ++ d) k
            ∙ append_assoc s.calls (issues env a ++ c) d
            ∙ ap (λ x. s.calls ++ x) (append_assoc (issues env a) c d),
      )
  Reached-works t is a h (b ∷ bs) after s on e few =
      let (r, q, _, _) = step-works env t b (bs ++ a ∷ after) s on e in
      h bs after (step env (works t) s) r q (omega arith)

  Reached-event :
      (i : Input J) (is : List (Input J)) (a : Action)
      → IsEvent i
      → Reached is a
      → Reached (i ∷ is) a
  unfolding run_inputs
  Reached-event i is a v h before after s on e few =
      let (r, q, k, _, _) = step-Grows env i s v in
      h before (after ++ q) (step env i s) (r ∙ on)
        (k ∙ ap (λ l. l ++ q) e ∙ append_assoc before (a ∷ after) q)
        (omega (arith, rounds-event i is v))

  -- On a running server an action in the queue has made its calls as soon as there have been more
  -- rounds of a worker than actions stand before it, whatever events come between the rounds.
  carried_out : (is : List (Input J)) (a : Action) → Reached is a
  carried_out [] a = λ before after s on e few. absurd (omega arith)
  carried_out (i ∷ is) a = elim (Input-cases i) [
    | inl v ↦ Reached-event i is a v (carried_out is a)
    | inr (t, same) ↦
        subst⁻¹ (λ k. Reached (k ∷ is) a) same (Reached-works t is a (carried_out is a))
  ]

module _ {J Jwt H : Type 0} (env : Env J Jwt) where
  -- A message for a connected client of a running server is sent to the connection that the client
  -- has now, as soon as there have been more rounds of a worker than actions stood in the queue,
  -- whatever events come between the rounds.
  pub delivery :
      (is : List (Input J)) (id : CombinedId) (hdl : ℕ) (msg : String) (s : Server J H)
      → s.is_running ≡ true
      → get_connection_hdl_from_id id s ≡ some hdl
      → length s.actions < rounds is
      → (c : List WsCall) × (d : List WsCall) × ((run_inputs env is (send_message id msg s)).calls
          ≡ c ++ send hdl msg ∷ d)
  unfolding send_message get_connection_hdl_from_id
  delivery is id hdl msg s on there few =
      let a : Action = record { type = out_message; hdl = hdl; msg = msg } in
      rw (there, send_message) (carried_out H env is a s.actions [] (push a s) on refl few)

  -- Whatever a call of the queue's actions is, it has been made on a running server as soon as there
  -- have been as many rounds of a worker as the queue has actions, whatever events come between.
  pub issued :
      (is : List (Input J)) (a : Action) (c : WsCall) (s : Server J H)
      → s.is_running ≡ true
      → Mem a s.actions
      → Mem c (issues env a)
      → length s.actions ≤ rounds is
      → Mem c (run_inputs env is s).calls
  issued is a c s on m mc enough = ∥∥₁_elim (append_of_mem m) Mem-prop λ (before, after, e).
      let (c0, d, k) =
        carried_out H env is a before after s on e
          (omega (arith, ap length e, length-append before (a ∷ after))) in
      subst (λ calls. Mem c calls) (sym k) (mem-append_right c0 (mem-append_left d mc))

  shrinks :
      (t : Times) (n : ℕ) (q : List Action) (s : Server J H)
      → s.is_running ≡ true
      → s.actions ≡ q
      → length s.actions ≤ suc n
      → ((step env (works t) s).is_running ≡ true) × (length (step env (works t) s).actions ≤ n)
  unfolding step
  shrinks t n [] s on e h = rw (work-running env t [] s on e) (on, rw e (omega arith))
  shrinks t n (a ∷ rest) s on e h =
      let (r, k, _, _) = step-works env t a rest s on e in (r, rw k (omega (arith, ap length e)))

  -- A worker that is alone empties the queue of a running server, in as many rounds as it has
  -- actions.
  pub drained :
      (ts : List Times) (s : Server J H)
      → s.is_running ≡ true
      → length s.actions ≤ length ts
      → (run_inputs env (map works ts) s).actions ≡ []
  unfolding run_inputs
  drained [] s on enough = empty s.actions enough
    where
      empty : (q : List Action) → length q ≤ 0 → q ≡ []
      empty [] h = refl
      empty (a ∷ q) h = absurd (omega arith)
  drained (t ∷ ts) s on enough =
      let (r, fewer) = shrinks t (length ts) s.actions s on refl enough in
      drained ts (step env (works t) s) r fewer
