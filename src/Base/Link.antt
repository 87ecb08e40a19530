-- ===== src/Base/Link.antt =====
-- Which connection belongs to which client: `setup_connection_id`, `player_disconnect` and
-- `get_connection_hdl_from_id` of include/simple_web_game_server/base_server.hpp, and
-- `send_message`.
use simple_web_game_server.Prelude.{
  ℕ, ◌+◌, ◌-◌, ◌%◌, ◌^◌, String, Option, none, some, List, [], ◌∷◌, ℕ_discrete,
}
use simple_web_game_server.Prelude.Assoc.{Assoc, lookup, erase, emplace, update}
use simple_web_game_server.Prelude.NatSet
use simple_web_game_server.Base.{CombinedId, id_discrete, out_message, Server, close_hdl, push}

-- std::size_t
abbrev pub size_mod : ℕ
size_mod = 2 ^ 64

abbrev pub incr : ℕ → ℕ
incr n = (n + 1) % size_mod

abbrev pub decr : ℕ → ℕ
decr n = (n + size_mod - 1) % size_mod

-- The set of a session, empty if the map has none.
abbrev pub players_at : Option (List ℕ) → List ℕ
players_at none = []
players_at (some ps) = ps

-- The player leaves the session's set, and an empty set leaves the map.
unfoldable pub without_player : CombinedId → Assoc ℕ (List ℕ) → Assoc ℕ (List ℕ)
without_player id sps = elim (lookup ℕ_discrete id.session sps) [
  | none ↦ sps
  | some players ↦
      let left = update ℕ_discrete id.session [] (NatSet.remove id.player) sps in
      elim (NatSet.remove id.player players) [
        | [] ↦ erase ℕ_discrete id.session left
        | p ∷ ps ↦ left
      ]
]

module _ {J H : Type 0} where
  unfoldable pub get_connection_hdl_from_id : CombinedId → Server J H → Option ℕ
  get_connection_hdl_from_id id s = lookup id_discrete id s.id_connections

  unfoldable pub send_message : CombinedId → String → Server J H → Server J H
  unfolding get_connection_hdl_from_id
  send_message id msg s = elim (get_connection_hdl_from_id id s) [
    | some hdl ↦ push (record { type = out_message; hdl = hdl; msg = msg }) s
    | none ↦ s
  ]

  -- A second connection of a client closes the first and takes its place.
  unfoldable pub drop_duplicate : String → CombinedId → Server J H → Server J H
  unfolding close_hdl
  drop_duplicate reason id s = elim (lookup id_discrete id s.id_connections) [
    | some old ↦ record (close_hdl old reason s) {
      connection_ids = erase ℕ_discrete old s.connection_ids;
      id_connections = erase id_discrete id s.id_connections;
    }
    | none ↦ record s { player_count = incr s.player_count }
  ]

  unfoldable pub setup_connection_id : String → ℕ → CombinedId → Server J H → Server J H
  unfolding drop_duplicate
  setup_connection_id reason hdl id s =
      let s' = drop_duplicate reason id s in
      record s' {
        connection_ids = emplace ℕ_discrete hdl id s'.connection_ids;
        id_connections = emplace id_discrete id hdl s'.id_connections;
        new_connections = NatSet.remove hdl s'.new_connections;
      }

  unfoldable pub player_disconnect : ℕ → CombinedId → Server J H → Server J H
  unfolding without_player
  player_disconnect hdl id s =
      let s1 = record s {
        connection_ids = erase ℕ_discrete hdl s.connection_ids;
        id_connections = erase id_discrete id s.id_connections;
      } in
      let s2 = record s1 { session_players = without_player id s1.session_players } in
      record s2 { player_count = decr s2.player_count; app = s2.handlers.handle_close id s2.app }
