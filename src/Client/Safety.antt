-- ===== src/Client/Safety.antt =====
-- The guards of include/simple_web_game_server/client.hpp, over histories of calls and callbacks.
use mathlib.Core.List.{append_assoc}
use simple_web_game_server.Prelude.{
  ℕ, ◌≡◌, refl, ap, inl, inr, ◌⊎◌, Bool, true, false, not, String, Option, none, some, List, [],
  ◌∷◌, ◌++◌, arith, is_some, is_some-eq_true, if◌then◌else◌,
}
use simple_web_game_server.Client.{
  WsCall, close, connect, run_loop, send, Attempt, no_connection, connect_throws, looping, Outcome,
  done, client_error, null_pointer, ◌>>=◌, Handlers, Client, init, call, fail, start, connect_to,
  on_connection, disconnect, reset, send_text, set_open, set_close, set_message, on_open, on_close,
  on_message, Event, connects, disconnects, resets, opened, closed, loop_throws, sends, received,
  sets_open, sets_close, sets_message, perform, after, history,
}

-- A client that runs has a connection, and has not failed.
abbrev pub IsReady : {H : Type 0} → Client H → Type 0
IsReady c = c.is_running ≡ true → (is_some c.connection ≡ true) × (c.has_failed ≡ false)

-- The call is made if the test holds, and is refused by an exception if it does not.
abbrev pub Answers : {A : Type 0} → Bool → Outcome A → Type 0
Answers {A = A} b o =
    ((b ≡ true) × (a : A) × (o ≡ done a)) ⊎ ((b ≡ false) × (msg : String) × (o ≡ client_error msg))

Answers-done : {A : Type 0} (a : A) → Answers true (done a)
Answers-done a = inl (refl, a, refl)

Answers-bind :
    {A B : Type 0} (b : Bool) (o : Outcome A) (f : A → B)
    → Answers b o
    → Answers b (o >>= λ a. done (f a))
Answers-bind b o f (inl (e, a, h)) = inl (e, f a, rw h refl)
Answers-bind b o f (inr (e, msg, h)) = inr (e, msg, rw h refl)

Answers-stopped :
    {A : Type 0} (b : Bool) (msg : String) (a : A)
    → Answers (not b) (if b then client_error msg else done a)
Answers-stopped true msg a = inr (refl, msg, refl)
Answers-stopped false msg a = inl (refl, a, refl)

Answers-if :
    {A : Type 0} (b : Bool) (o : Outcome A) (msg : String)
    → (b ≡ true → Answers true o)
    → Answers b (if b then o else client_error msg)
Answers-if true o msg h = h refl
Answers-if false o msg h = inr (refl, msg, refl)

-- an inner test that the outer one has made already
Answers-twice :
    {A : Type 0} (b : Bool) (o : Outcome A) (msg : String) (a : A)
    → (b ≡ true → Answers true o)
    → Answers true (if b then if b then o else client_error msg else done a)
Answers-twice true o msg a h = h refl
Answers-twice false o msg a h = Answers-done a

module _ {H : Type 0} where
  Answers-on_connection :
      (w : ℕ → WsCall) (c : Client H)
      → IsReady c
      → c.is_running ≡ true
      → Answers true (on_connection w c)
  Answers-on_connection w c ready e =
      let (con, there) = is_some-eq_true c.connection (ready e).0 in
      inl (
        refl,
        call (w con) c,
        ap (λ (o : Option ℕ). elim o [ some k ↦ done (call (w k) c) | none ↦ null_pointer ]) there,
      )

  Answers-running :
      (w : ℕ → WsCall) (msg : String) (c : Client H)
      → IsReady c
      → Answers c.is_running (if c.is_running then on_connection w c else client_error msg)
  Answers-running w msg c ready =
      Answers-if c.is_running (on_connection w c) msg (Answers-on_connection w c ready)

  -- which calls a client accepts
  abbrev pub accepts : Event H → Client H → Bool
  accepts (connects attempt token) c = not c.is_running
  accepts (sets_open f) c = not c.is_running
  accepts (sets_close f) c = not c.is_running
  accepts (sets_message f) c = not c.is_running
  accepts disconnects c = c.is_running
  accepts opened c = c.is_running
  accepts (sends msg) c = c.is_running
  accepts _ c = true

  perform-Answers : (e : Event H) (c : Client H) → IsReady c → Answers (accepts e c) (perform e c)
  unfolding perform on_open reset disconnect send_text connect_to set_open set_close set_message
  perform-Answers (connects attempt token) c ready = Answers-stopped c.is_running _ _
  perform-Answers disconnects c ready = Answers-running _ _ c ready
  perform-Answers resets c ready =
      Answers-bind true _ _ (
        Answers-twice c.is_running (on_connection close c) _ c
          (Answers-on_connection close c ready))
  perform-Answers opened c ready = Answers-bind c.is_running _ _ (Answers-running _ _ c ready)
  perform-Answers closed c ready = Answers-done _
  perform-Answers loop_throws c ready = Answers-done _
  perform-Answers (sends msg) c ready = Answers-running _ _ c ready
  perform-Answers (received msg) c ready = Answers-done _
  perform-Answers (sets_open f) c ready = Answers-stopped c.is_running _ _
  perform-Answers (sets_close f) c ready = Answers-stopped c.is_running _ _
  perform-Answers (sets_message f) c ready = Answers-stopped c.is_running _ _

  perform-IsReady : (e : Event H) (c : Client H) → IsReady c → IsReady (after c (perform e c))
  unfolding perform on_open reset disconnect send_text connect_to set_open set_close set_message
      start on_close on_message fail
  perform-IsReady (connects no_connection token) c ready = λ h. ground (arith, ready)
  perform-IsReady (connects (connect_throws con) token) c ready = λ h. ground (arith, ready)
  perform-IsReady (connects (looping con) token) c ready = λ h. ground (arith, ready)
  perform-IsReady disconnects c ready = λ h. ground (arith, ready)
  perform-IsReady resets c ready = λ h. ground (arith, ready)
  perform-IsReady opened c ready = λ h. ground (arith, ready)
  perform-IsReady closed c ready = λ h. ground arith
  perform-IsReady loop_throws c ready = λ h. ground arith
  perform-IsReady (sends msg) c ready = λ h. ground (arith, ready)
  perform-IsReady (received msg) c ready = ready
  perform-IsReady (sets_open f) c ready = λ h. ground (arith, ready)
  perform-IsReady (sets_close f) c ready = λ h. ground (arith, ready)
  perform-IsReady (sets_message f) c ready = λ h. ground (arith, ready)

  history-IsReady : (es : List (Event H)) (c : Client H) → IsReady c → IsReady (history es c)
  unfolding history
  history-IsReady [] c ready = ready
  history-IsReady (e ∷ es) c ready =
      history-IsReady es (after c (perform e c)) (perform-IsReady e c ready)

  -- After any history of a new client, each call and each callback is carried out, or is refused by
  -- an exception: connecting and setting a handler are refused if and only if the client runs; the
  -- end of a connection, a message and the opening of a connection if and only if it does not run;
  -- all else is never refused. No call uses the null pointer.
  pub guarded :
      (es : List (Event H)) (e : Event H) (handlers : Handlers H) (app : H)
      → let c = history es (init handlers app) in Answers (accepts e c) (perform e c)
  unfolding init
  guarded es e handlers app =
      perform-Answers e _ (history-IsReady es (init handlers app) (λ h. ground arith))

  connects-stopped :
      (attempt : Attempt) (token : String) (c : Client H)
      → c.is_running ≡ false
      → perform (connects attempt token) c ≡ done (start attempt token c)
  unfolding perform connect_to
  connects-stopped attempt token c e =
      ap
        (λ (b : Bool).
          if b
          then client_error "connect called on running client"
          else done (start attempt token c))
        e

  -- The first things that a stopped client does when it connects, and its connection opens, are to
  -- run the loop and to send the token of that call to the connection; then the owner's handler
  -- runs. In between it runs and has not failed.
  pub token_first :
      (con : ℕ) (token : String) (c : Client H)
      → c.is_running ≡ false
      → let c' = after c (perform (connects (looping con) token) c) in
        (c'.is_running ≡ true)
        × (c'.has_failed ≡ false)
        × ((after c' (perform opened c')).calls
            ≡ c.calls ++ connect ∷ run_loop ∷ send con token ∷ [])
        × ((after c' (perform opened c')).app ≡ c.handlers.handle_open c.app)
  unfolding perform connect_to start on_open send_text
  token_first con token c e =
      rw (connects-stopped (looping con) token c e) (refl, refl, simp append_assoc refl, refl)
