-- ===== src/Matchmaking.antt =====
-- include/simple_web_game_server/matchmaking_server.hpp: the types and the state of
-- `matchmaking_server`, and the handlers that it sets on its base server.
pub mod Updates
pub mod Loop
pub mod Lifecycle
pub mod Tables
pub mod Cancelled
pub mod Progress
pub mod Faults
pub mod Links
pub mod System
pub mod Handover
pub mod Broadcast
use simple_web_game_server.Prelude.{ℕ, Bool, String, List, [], ◌∷◌, ◌++◌}
use simple_web_game_server.Prelude.Assoc.{Assoc}
use simple_web_game_server.Base.{CombinedId, Server}

-- pair<session_id, std::string>
abbrev pub Message : Type 0
Message = ℕ × String

-- `game`, a tuple: the sessions that were matched, the session of the game, and its data
pub record MatchedGame (J : Type 0) : Type 0 where
  pub sessions : List ℕ
  pub game_sid : ℕ
  pub game_data : J

-- `matchmaker`, a template parameter, with its own state `M` and the data `D` of a session. `pair_up`
-- is `match`, which fills two vectors.
pub record MatchApi (J D M : Type 0) : Type 0 where
  pub make : J → D
  pub is_valid : D → Bool
  pub can_match : Assoc ℕ D → M → M × Bool
  pub pair_up : Assoc ℕ D → ℕ → M → M × List (MatchedGame J) × List Message
  pub cancel_data : M → J

-- `connection_update`: a disconnection has no data
pub data ConnectionUpdate (J : Type 0) : Type 0 where
  disconnected : CombinedId → ConnectionUpdate J
  connected : CombinedId → J → ConnectionUpdate J

-- The half of the pair that the handlers fill: `m_connection_updates.first`.
pub record Inbox (J : Type 0) : Type 0 where
  pub updates : List (ConnectionUpdate J)

-- The members of `matchmaking_server`, and `finished_sessions` (a pair) and `time_start` of
-- `match_players`, with whether it waits for an update. `readings` counts the readings of the clock by `complete_session`.
pub record MatchServer (J D M : Type 0) : Type 0 where
  pub matchmaker : M
  pub session_data : Assoc ℕ D
  pub session_players : Assoc ℕ (List ℕ)
  pub connection_updates : List (ConnectionUpdate J)
  pub finished_first : List ℕ
  pub finished_second : List ℕ
  pub time_start : ℕ
  pub is_waiting : Bool
  pub readings : ℕ
  pub base : Server J (Inbox J)

module _ {J : Type 0} where
  -- a message of a client ends its matchmaking, whatever it says
  unfoldable pub process_message : CombinedId → String → Inbox J → Inbox J
  process_message id msg b = record b { updates = b.updates ++ disconnected id ∷ [] }

  unfoldable pub player_connect : CombinedId → J → Inbox J → Inbox J
  player_connect id login b = record b { updates = b.updates ++ connected id login ∷ [] }

  unfoldable pub player_disconnect : CombinedId → Inbox J → Inbox J
  player_disconnect id b = record b { updates = b.updates ++ disconnected id ∷ [] }
