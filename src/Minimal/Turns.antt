-- ===== src/Minimal/Turns.antt =====
-- The pairs that the matchmaker of examples/minimal_template/minimal_game.hpp makes.
use simple_web_game_server.Prelude.{
  ℕ, suc, ◌<◌, ◌+◌, ◌/◌, ◌%◌, ◌≡◌, refl, ap, ◌∙◌, true, List, [], ◌∷◌, arith, length,
}
use simple_web_game_server.Prelude.Assoc.{Assoc, keys}
use simple_web_game_server.Base.Link.{size_mod, incr}
use simple_web_game_server.Matchmaking.{MatchedGame}
use simple_web_game_server.Minimal.{Json, pair_sessions, minimal_matchmaker}

length-keys : {D : Type 0} (m : Assoc ℕ D) → length (keys m) ≡ length m
length-keys [] = refl
length-keys (e ∷ m) = ap suc (length-keys m)

module _ {J : Type 0} (json : Json J) where
  -- The sessions two by two, in their order; a last one without a partner is left.
  abbrev pub two_by_two : List ℕ → ℕ → List (MatchedGame J)
  two_by_two (a ∷ b ∷ sids) n =
      record { sessions = a ∷ b ∷ []; game_sid = n; game_data = json.matched true }
      ∷ two_by_two sids (incr n)
  two_by_two _ n = []

  abbrev games_made : List ℕ → ℕ → ℕ
  games_made (a ∷ b ∷ sids) n = games_made sids (incr n)
  games_made _ n = n

  games_made_lem :
      (sids : List ℕ) (n : ℕ) → n < size_mod → games_made sids n ≡ (n + length sids / 2) % size_mod
  games_made_lem [] n h = omega arith
  games_made_lem (a ∷ []) n h = omega arith
  games_made_lem (a ∷ b ∷ sids) n h = omega (arith, games_made_lem sids (incr n) (omega arith))

  pair_sessions_lem :
      {D : Type 0} (sessions : Assoc ℕ D) (n : ℕ)
      → pair_sessions json [] sessions n
        ≡ (games_made (keys sessions) n, two_by_two (keys sessions) n)
  unfolding pair_sessions
  pair_sessions_lem [] n = refl
  pair_sessions_lem ((a, d) ∷ []) n = refl
  pair_sessions_lem ((a, d) ∷ (b, e) ∷ sessions) n =
      ap
        (λ (r : ℕ × List (MatchedGame J)). (
          r.0,
          record { sessions = a ∷ b ∷ []; game_sid = n; game_data = json.matched true } ∷ r.1,
        ))
        (pair_sessions_lem sessions (incr n))

  -- The matchmaker pairs the sessions two by two in the order of the table, and leaves the last one
  -- of an odd number; the games have the next numbers, one after the other, as their sessions
  -- (modulo 2^64), and no message is sent.
  pub two_at_a_time :
      (sessions : Assoc ℕ (Unit {0})) (delta n : ℕ)
      → n < size_mod
      → (minimal_matchmaker json).pair_up sessions delta n
        ≡ ((n + length sessions / 2) % size_mod, two_by_two (keys sessions) n, [])
  two_at_a_time sessions delta n h =
      ap (λ (r : ℕ × List (MatchedGame J)). (r.0, r.1, [])) (pair_sessions_lem sessions n)
      ∙ ap (λ (k : ℕ). (k, two_by_two (keys sessions) n, []))
          (games_made_lem (keys sessions) n h
            ∙ ap (λ (k : ℕ). (n + k / 2) % size_mod) (length-keys sessions))
