-- ===== src/Game.antt =====
-- include/simple_web_game_server/game_server.hpp: the types and the state of `game_server`, and the
-- handlers that it sets on its base server.
pub mod Updates
pub mod Loop
pub mod Lifecycle
pub mod Tables
pub mod Progress
pub mod Parallel
pub mod Joining
pub mod Links
pub mod System
pub mod Owner
pub mod Farewell
use simple_web_game_server.Prelude.{
  ℕ, Bool, true, false, String, Option, none, some, List, [], ◌∷◌, ◌++◌, ℕ_discrete,
}
use simple_web_game_server.Prelude.Assoc.{Assoc, update}
use simple_web_game_server.Base.{CombinedId, Server}

-- pair<player_id, std::string>
abbrev pub Message : Type 0
Message = ℕ × String

-- `game_instance`, a template parameter. A method that takes `out_messages` by reference returns it.
pub record GameApi (J G : Type 0) : Type 0 where
  pub make : J → G
  pub is_valid : G → Bool
  pub is_done : G → Bool
  pub get_state : G → J
  pub connect : List Message → ℕ → G → G × List Message
  pub disconnect : List Message → ℕ → G → G × List Message
  pub advance : List Message → List Message → ℕ → G → G × List Message

-- `connection_update`: a disconnection has no data
pub data ConnectionUpdate (J : Type 0) : Type 0 where
  disconnected : CombinedId → ConnectionUpdate J
  connected : CombinedId → J → ConnectionUpdate J

-- The halves of the two pairs that the handlers fill: `m_connection_updates.first` and
-- `m_in_messages.first`.
pub record Inbox (J : Type 0) : Type 0 where
  pub updates : List (ConnectionUpdate J)
  pub messages : Assoc ℕ (List Message)

-- The members of `game_server`, and `finished_games` and `time_start` of `update_games`. `readings`
-- counts the readings of the clock by `complete_session`.
pub record GameServer (J G : Type 0) : Type 0 where
  pub games : Assoc ℕ G
  pub game_count : ℕ
  pub in_messages : Assoc ℕ (List Message)
  pub connection_updates : List (ConnectionUpdate J)
  pub out_messages : Assoc ℕ (List Message)
  pub finished_games : List ℕ
  pub time_start : ℕ
  pub readings : ℕ
  pub base : Server J (Inbox J)

module _ {J : Type 0} where
  unfoldable pub process_message : CombinedId → String → Inbox J → Inbox J
  process_message id msg b = record b {
    messages = update ℕ_discrete id.session [] (λ ms. ms ++ (id.player, msg) ∷ []) b.messages;
  }

  unfoldable pub player_connect : CombinedId → J → Inbox J → Inbox J
  player_connect id login b = record b { updates = b.updates ++ connected id login ∷ [] }

  unfoldable pub player_disconnect : CombinedId → Inbox J → Inbox J
  player_disconnect id b = record b { updates = b.updates ++ disconnected id ∷ [] }
