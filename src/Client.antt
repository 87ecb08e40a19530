-- ===== src/Client.antt =====
-- `client` of include/simple_web_game_server/client.hpp.
pub mod Safety
use Prim.Native.String.{◌++◌ as ◌+s◌}
use simple_web_game_server.Prelude.{
  ℕ, Bool, true, false, String, Option, none, some, List, [], ◌∷◌, ◌++◌, if◌then◌else◌,
}

-- The calls that the client makes of `m_client`, a websocketpp::client, and of `m_connection`. The
-- connection's `close` and `send` may throw; the client catches that and logs it.
pub data WsCall : Type 0 where
  connect run_loop reset_endpoint : WsCall
  close : ℕ → WsCall
  send : ℕ → String → WsCall

-- What the calls of websocketpp in `connect` come to: `get_connection` reports an error, and stores
-- no connection; `connect` throws; or the loop begins with the new connection, until it ends or
-- throws, which is a later event.
pub data Attempt : Type 0 where
  no_connection : Attempt
  connect_throws looping : ℕ → Attempt

-- What a member function does: it returns, throws `client_error` with its message, or uses the
-- null pointer.
pub data Outcome (A : Type 0) : Type 0 where
  done : A → Outcome A
  client_error : String → Outcome A
  null_pointer : Outcome A

infixl 5 ◌>>=◌
abbrev ◌>>=◌ : {A B : Type 0} → Outcome A → (A → Outcome B) → Outcome B
done a >>= f = f a
client_error msg >>= f = client_error msg
null_pointer >>= f = null_pointer

-- The handlers that the owner of the client sets. They act on the owner's data `H`.
pub record Handlers (H : Type 0) : Type 0 where
  pub handle_open : H → H
  pub handle_close : H → H
  pub handle_message : String → H → H

-- The members of `client`, the calls made so far, and the owner's data. `connection` is `none` for
-- the null pointer.
pub record Client (H : Type 0) : Type 0 where
  pub connection : Option ℕ
  pub is_running : Bool
  pub has_failed : Bool
  pub jwt : String
  pub handlers : Handlers H
  pub calls : List WsCall
  pub app : H

module _ {H : Type 0} where
  -- the constructor with given handlers
  unfoldable pub init : Handlers H → H → Client H
  init handlers app = record {
    connection = none;
    is_running = false;
    has_failed = false;
    jwt = "";
    handlers = handlers;
    calls = [];
    app = app;
  }

  abbrev pub call : WsCall → Client H → Client H
  call w c = record c { calls = c.calls ++ w ∷ [] }

  -- what a catch of std::exception in `connect` does
  unfoldable pub fail : Client H → Client H
  fail c = record c { is_running = false; has_failed = true }

  -- `connect` up to the loop; after an error of `get_connection` the pointer is null
  unfoldable pub start : Attempt → String → Client H → Client H
  unfolding fail
  start no_connection token c = record c { jwt = token; connection = none }
  start (connect_throws con) token c =
      fail (call connect (record c { jwt = token; connection = some con }))
  start (looping con) token c =
      call run_loop (record (call connect (record c { jwt = token; connection = some con })) {
        is_running = true;
        has_failed = false;
      })

  unfoldable pub connect_to : Attempt → String → Client H → Outcome (Client H)
  unfolding start
  connect_to attempt token c =
      if c.is_running
      then client_error "connect called on running client"
      else done (start attempt token c)

  -- a call of the connection that `m_connection` points to
  abbrev pub on_connection : (ℕ → WsCall) → Client H → Outcome (Client H)
  on_connection w c = elim c.connection [ some con ↦ done (call (w con) c) | none ↦ null_pointer ]

  unfoldable pub disconnect : Client H → Outcome (Client H)
  disconnect c =
      if c.is_running
      then on_connection close c
      else client_error "disconnect called on stopped client"

  unfoldable pub reset : Client H → Outcome (Client H)
  unfolding disconnect
  reset c = do c' ← if c.is_running then disconnect c else done c; done (call reset_endpoint c')

  unfoldable pub send_text : String → Client H → Outcome (Client H)
  send_text msg c =
      if c.is_running
      then on_connection (λ con. send con msg) c
      else client_error ("send called on stopped client with message: " +s msg)

  abbrev when_stopped : String → Client H → Client H → Outcome (Client H)
  when_stopped msg c c' = if c.is_running then client_error msg else done c'

  unfoldable pub set_open : (H → H) → Client H → Outcome (Client H)
  set_open f c =
      when_stopped "set_open_handler called on running client" c
        (record c { handlers = record c.handlers { handle_open = f } })

  unfoldable pub set_close : (H → H) → Client H → Outcome (Client H)
  set_close f c =
      when_stopped "set_close_handler called on running client" c
        (record c { handlers = record c.handlers { handle_close = f } })

  unfoldable pub set_message : (String → H → H) → Client H → Outcome (Client H)
  set_message f c =
      when_stopped "set_message_handler called on running client" c
        (record c { handlers = record c.handlers { handle_message = f } })

  -- the token goes out first; an exception of the handler is caught and logged
  unfoldable pub on_open : Client H → Outcome (Client H)
  unfolding send_text
  on_open c = do c' ← send_text c.jwt c; done (record c' { app = c'.handlers.handle_open c'.app })

  unfoldable pub on_close : Client H → Client H
  on_close c = record c { is_running = false; app = c.handlers.handle_close c.app }

  unfoldable pub on_message : String → Client H → Client H
  on_message msg c = record c { app = c.handlers.handle_message msg c.app }

-- What can happen to a client: calls of its owner, callbacks of websocketpp, and the end of the
-- loop in `connect` by an exception.
pub data Event (H : Type 0) : Type 0 where
  connects : Attempt → String → Event H
  disconnects resets opened closed loop_throws : Event H
  sends received : String → Event H
  sets_open sets_close : (H → H) → Event H
  sets_message : (String → H → H) → Event H

module _ {H : Type 0} where
  unfoldable pub perform : Event H → Client H → Outcome (Client H)
  unfolding connect_to disconnect reset send_text set_open set_close set_message on_open on_close
      on_message fail
  perform (connects attempt token) c = connect_to attempt token c
  perform disconnects c = disconnect c
  perform resets c = reset c
  perform opened c = on_open c
  perform closed c = done (on_close c)
  perform loop_throws c = done (fail c)
  perform (sends msg) c = send_text msg c
  perform (received msg) c = done (on_message msg c)
  perform (sets_open f) c = set_open f c
  perform (sets_close f) c = set_close f c
  perform (sets_message f) c = set_message f c

  -- a call that throws leaves the client as it was
  abbrev pub after : Client H → Outcome (Client H) → Client H
  after c (done c') = c'
  after c (client_error msg) = c
  after c null_pointer = c

  unfoldable pub history : List (Event H) → Client H → Client H
  unfolding perform
  history [] c = c
  history (e ∷ es) c = history es (after c (perform e c))
