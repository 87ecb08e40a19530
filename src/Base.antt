-- ===== src/Base.antt =====
-- include/simple_web_game_server/base_server.hpp: the types and the state of `base_server`. The
-- operations are in the child modules Link, Login, Sessions, Worker and Lifecycle.
pub mod Link
pub mod Login
pub mod Sessions
pub mod Worker
pub mod Lifecycle
pub mod Links
pub mod Invariant
pub mod Shutdown
pub mod Authentication
pub mod Completion
pub mod Comeback
pub mod Takeover
pub mod Queue
pub mod Rounds
pub mod Delivery
pub mod Admission
pub mod Waiting
pub mod Directory
pub mod Fixtures
use simple_web_game_server.Prelude.{
  ℕ, ◌≡◌, ap, Bool, true, false, String, Option, none, some, List, [], ◌∷◌, ◌++◌, ℕ_discrete,
}
use simple_web_game_server.Prelude.Assoc.{Assoc}
use simple_web_game_server.BufferedMap
use simple_web_game_server.Locks.{Locks}

-- `player_traits::id`: every instance in the repository takes `unsigned long` for both parts.
pub record CombinedId : Type 0 where
  pub player : ℕ
  pub session : ℕ

-- operator== of `player_traits::id`
unfoldable pub id_discrete : Discrete CombinedId
unfolding ℕ_discrete
id_discrete a b = elim (ℕ_discrete a.player b.player) [
  | no n ↦ no (λ e. n (ap (λ (x : CombinedId). x.player) e))
  | yes p ↦ elim (ℕ_discrete a.session b.session) [
    | no n ↦ no (λ e. n (ap (λ (x : CombinedId). x.session) e))
    | yes q ↦ yes (λ i. record { player = p i; session = q i })
  ]
]

-- `action_type` and `action`. A connection handle is compared by its owner, here by its number.
pub data ActionType : Type 0 where
  subscribe unsubscribe in_message out_message close_connection : ActionType

pub record Action : Type 0 where
  pub type : ActionType
  pub hdl : ℕ
  pub msg : String

-- `session_data`
pub record SessionData (J : Type 0) : Type 0 where
  pub session : ℕ
  pub result : J

-- `close_reasons`, a template parameter
pub record CloseReasons : Type 0 where
  pub invalid_jwt : String
  pub duplicate_connection : String
  pub server_shutdown : String
  pub session_complete : String

abbrev pub default_close_reasons : CloseReasons
default_close_reasons = record {
  invalid_jwt = "INVALID_TOKEN";
  duplicate_connection = "DUPLICATE_CONNECTION";
  server_shutdown = "SERVER_SHUTDOWN";
  session_complete = "SESSION_COMPLETE";
}

-- The calls that the server makes of `m_server`, a websocketpp::server. Its `send` and `close` may
-- throw; the server catches that and logs it, so the state is the same either way.
pub data WsCall : Type 0 where
  send : ℕ → String → WsCall
  close : ℕ → String → WsCall
  set_http_handler set_tls_init_handler : WsCall
  set_reuse_addr : Bool → WsCall
  listen : ℕ → WsCall
  start_accept run_loop stop_listening reset_endpoint : WsCall

-- What the server takes from elsewhere: jwt-cpp (`decode`, the verifier, which reads a clock of its
-- own, and the payload claims), `player_traits`, the function for result tokens, and the reasons.
-- `none` is an exception.
pub record Env (J Jwt : Type 0) : Type 0 where
  pub decode : String → Option Jwt
  pub verify : ℕ → Jwt → Bool
  pub claim : Jwt → String → Option J
  pub parse_player_id : J → Option ℕ
  pub parse_session_id : J → Option ℕ
  pub get_result_str : CombinedId → J → String
  pub reasons : CloseReasons

-- The handlers that the owner of the server sets. They act on the owner's data `H`.
pub record Handlers (J H : Type 0) : Type 0 where
  pub handle_http : ℕ → H → H
  pub handle_open : CombinedId → J → H → H
  pub handle_close : CombinedId → H → H
  pub handle_message : CombinedId → String → H → H

-- The members of `base_server`, the calls made of `m_server` so far, and the owner's data.
pub record Server (J H : Type 0) : Type 0 where
  pub is_running : Bool
  pub new_connections : List ℕ
  pub connection_ids : Assoc ℕ CombinedId
  pub id_connections : Assoc CombinedId ℕ
  pub locks : Locks (SessionData J)
  pub session_players : Assoc ℕ (List ℕ)
  pub actions : List Action
  pub player_count : ℕ
  pub handlers : Handlers J H
  pub calls : List WsCall
  pub app : H

-- A member function that may throw `server_error`, with its message.
pub data Result (A : Type 0) : Type 0 where
  ok : A → Result A
  server_error : String → Result A

infixl 5 ◌>>=◌
abbrev pub ◌>>=◌ : {A B : Type 0} → Result A → (A → Result B) → Result B
ok a >>= f = f a
server_error e >>= f = server_error e

module _ {J H : Type 0} where
  abbrev pub call : WsCall → Server J H → Server J H
  call c s = record s { calls = s.calls ++ c ∷ [] }

  unfoldable pub send_to_hdl : ℕ → String → Server J H → Server J H
  send_to_hdl hdl msg s = call (send hdl msg) s

  unfoldable pub close_hdl : ℕ → String → Server J H → Server J H
  close_hdl hdl reason s = call (close hdl reason) s

  abbrev pub push : Action → Server J H → Server J H
  push a s = record s { actions = s.actions ++ a ∷ [] }

-- The constructor: no handler is set, and the time of the last release is the clock's epoch.
unfoldable pub init : {J H : Type 0} → ℕ → H → Server J H
init release_time app = record {
  is_running = false;
  new_connections = [];
  connection_ids = [];
  id_connections = [];
  locks = record { last_update = 0; release_time = release_time; locked = BufferedMap.empty };
  session_players = [];
  actions = [];
  player_count = 0;
  handlers = record {
    handle_http = λ _ h. h;
    handle_open = λ _ _ h. h;
    handle_close = λ _ h. h;
    handle_message = λ _ _ h. h;
  };
  calls = [];
  app = app;
}
