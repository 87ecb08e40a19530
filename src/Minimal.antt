-- ===== src/Minimal.antt =====
-- examples/minimal_template/minimal_game.hpp: the game and the matchmaker of the template.
pub mod Chat
pub mod Turns
pub mod Services
pub mod Handover
use simple_web_game_server.Prelude.{ℕ, Bool, true, false, String, List, [], ◌∷◌, ◌++◌, ltb, length}
use simple_web_game_server.Prelude.Assoc.{Assoc}
use simple_web_game_server.Prelude.NatSet.{insert, remove}
use simple_web_game_server.Base.Link.{incr}
use simple_web_game_server.Game.{Message, GameApi}
use simple_web_game_server.Matchmaking
use simple_web_game_server.Matchmaking.{MatchedGame, MatchApi}

-- What the two take from nlohmann's json: the text of {"pid": p, "message": m}, {"valid": true} and
-- {"matched": b}.
pub record Json (J : Type 0) : Type 0 where
  pub dump : ℕ → String → String
  pub valid : J
  pub matched : Bool → J

module _ {J : Type 0} (json : Json J) where
  open json use {dump}

  -- the loop over the players for one message
  unfoldable pub tell_players : Message → List ℕ → List Message → List Message
  tell_players msg [] out = out
  tell_players msg (pid ∷ pids) out = tell_players msg pids (out ++ (pid, dump msg.0 msg.1) ∷ [])

  unfoldable pub tell_all : List Message → List ℕ → List Message → List Message
  unfolding tell_players
  tell_all [] players out = out
  tell_all (msg ∷ msgs) players out = tell_all msgs players (tell_players msg players out)

  abbrev pub no_players : List ℕ → Bool
  no_players [] = true
  no_players (pid ∷ pids) = false

  -- The game is its set of players.
  abbrev pub minimal_game : GameApi J (List ℕ)
  minimal_game = record {
    make = λ data_json. [];
    is_valid = λ players. true;
    is_done = no_players;
    get_state = λ players. json.valid;
    connect = λ out pid players. (insert pid players, out);
    disconnect = λ out pid players. (remove pid players, out);
    advance = λ out ins delta players. (players, tell_all ins players out);
  }

  -- The loop of `match`: `sl` is empty again after it has been moved into a game.
  unfoldable pub pair_sessions : {D : Type 0} → List ℕ → Assoc ℕ D → ℕ → ℕ × List (MatchedGame J)
  pair_sessions sl [] sid_count = (sid_count, [])
  pair_sessions sl ((sid, d) ∷ sessions) sid_count = elim (ltb 1 (length (sl ++ sid ∷ []))) [
    | true ↦
        let game : MatchedGame J = record {
          sessions = sl ++ sid ∷ [];
          game_sid = sid_count;
          game_data = json.matched true;
        } in
        let rest = pair_sessions [] sessions (incr sid_count) in (rest.0, game ∷ rest.1)
    | false ↦ pair_sessions (sl ++ sid ∷ []) sessions sid_count
  ]

  -- The state is `m_sid_count`; a session has no data.
  abbrev pub minimal_matchmaker : MatchApi J (Unit {0}) ℕ
  minimal_matchmaker = record {
    make = λ data_json. tt;
    is_valid = λ d. true;
    can_match = λ sessions sid_count. (sid_count, ltb 1 (length sessions));
    pair_up =
        λ sessions delta sid_count. let r = pair_sessions [] sessions sid_count in (r.0, r.1, []);
    cancel_data = λ sid_count. json.matched false;
  }
