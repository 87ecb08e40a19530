-- ===== src/TicTacToe/Matchmaker.antt =====
-- `tic_tac_toe_matchmaker` of examples/tic_tac_toe/tic_tac_toe_game.hpp.
pub mod Pairs
use simple_web_game_server.Prelude.{
  ℕ, ◌+◌, Bool, true, false, Option, none, some, List, [], ◌∷◌, ltb, if◌then◌else◌, length,
}
use simple_web_game_server.Prelude.Assoc.{Assoc}
use simple_web_game_server.Prelude.NatSet.{contains, insert}
use simple_web_game_server.Prelude.Int.{ℤ, pos, abs_difference, ltb_ℤ, leb_ℤ}
use simple_web_game_server.Matchmaking.{Message, MatchedGame, MatchApi}

-- `session_data`. The rating of data without one is not initialised in the code: some number.
pub record Rated : Type 0 where
  pub rating : ℤ
  pub valid : Bool

-- What the matchmaker takes from nlohmann's json: the claim "rating", where `none` is an exception,
-- the objects with "matched", and the number that stands where no rating was stored.
pub record Json (J : Type 0) : Type 0 where
  pub rating : J → Option ℤ
  pub matched : Bool → J
  pub uninitialised : ℤ

unfoldable pub rate : {J : Type 0} → Json J → J → Rated
rate json msg = elim (json.rating msg) [
  | some r ↦ record { rating = r; valid = true }
  | none ↦ record { rating = json.uninitialised; valid = false }
]

-- it does not read the member
abbrev pub is_valid : Rated → Bool
is_valid d = true

-- The inner loop: the partner with the smallest score so far, and that score. `int score` wraps
-- around where the ratings are too far apart.
unfoldable pub best_partner : ℤ → List ℕ → Assoc ℕ Rated → Option ℕ × ℤ → Option ℕ × ℤ
best_partner r matched [] best = best
best_partner r matched ((sid, d) ∷ rest) best =
    let score = abs_difference r d.rating in
    let better = if ltb_ℤ score best.1 then (some sid, score) else best in
    best_partner r matched rest (if contains sid matched then best else better)

module _ {J : Type 0} (json : Json J) where
  -- A pair of sessions: the game has the first one's.
  abbrev pub pair : ℕ → ℕ → MatchedGame J
  pair sid partner = record {
    sessions = sid ∷ partner ∷ [];
    game_sid = sid;
    game_data = json.matched true;
  }

  -- The outer loop. A score of at most 250 is that of a partner.
  unfoldable pub pairs : List ℕ → Assoc ℕ Rated → List (MatchedGame J)
  unfolding best_partner
  pairs matched [] = []
  pairs matched ((sid, d) ∷ rest) = elim (contains sid matched) [
    | true ↦ pairs matched rest
    | false ↦
        let best = best_partner d.rating matched rest (none, pos 100000) in
        elim best.0 [
          | none ↦ pairs matched rest
          | some partner ↦ elim (leb_ℤ best.1 (pos 250)) [
            | true ↦ pair sid partner ∷ pairs (insert partner (insert sid matched)) rest
            | false ↦ pairs matched rest
          ]
        ]
  ]

  -- `match`; the state is the time since the last pairing
  unfoldable pub pair_up : Assoc ℕ Rated → ℕ → ℕ → ℕ × List (MatchedGame J) × List Message
  unfolding pairs
  pair_up sessions delta elapsed =
      if ltb 5000 (elapsed + delta) then (0, pairs [] sessions, []) else (elapsed + delta, [], [])

  -- The matchmaker as an instance of the matchmaking server's template.
  abbrev pub tic_tac_toe_matchmaker : MatchApi J Rated ℕ
  tic_tac_toe_matchmaker = record {
    make = rate json;
    is_valid = is_valid;
    can_match = λ sessions elapsed. (elapsed, ltb 1 (length sessions));
    pair_up = pair_up;
    cancel_data = λ elapsed. json.matched false;
  }
