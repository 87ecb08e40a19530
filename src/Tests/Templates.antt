-- ===== src/Tests/Templates.antt =====
-- Runs of the template's game and matchmaker, of the JSON traits, and of the loop over the games.
use simple_web_game_server.Prelude.{
  ℕ, ◌+◌, ◌/◌, ◌%◌, ◌≡◌, refl, true, some, List, [], ◌∷◌, ◌++◌, map, arith, length, if◌then◌else◌,
  ℕ_discrete,
}
use simple_web_game_server.Prelude.Assoc.{Assoc, lookup, keys, update}
use simple_web_game_server.Prelude.Assoc.Size.{Distinct}
use simple_web_game_server.Prelude.NatSet.{contains}
use simple_web_game_server.Base.Link.{size_mod}
use simple_web_game_server.Game.{Message}
use simple_web_game_server.Game.Loop.{advance_games}
use simple_web_game_server.Game.Parallel.{game_alone, out_alone, each_alone}
use simple_web_game_server.Minimal.{Json, minimal_game, minimal_matchmaker}
use simple_web_game_server.Minimal.Chat.{Visit, comes, goes, visited, texts_for, everyone_hears}
use simple_web_game_server.Minimal.Turns.{two_by_two, two_at_a_time}
use simple_web_game_server.Traits.{
  NlohmannJson, number_unsigned, object_type, string_type, array_type, integer_type, boolean_type,
  number_type, get_type, as_object, as_string, as_array, as_int, as_bool, as_number,
}
use simple_web_game_server.Traits.Casts.{succeeds, is_typed, casts}
use simple_web_game_server.Tests.Owners.{countdown}

abbrev pub plain_json : Json ℕ
plain_json = record { dump = λ pid msg. msg; valid = 1; matched = λ b. if b then 1 else 0 }

abbrev evening : List Visit
evening = comes 5 ∷ comes 2 ∷ comes 8 ∷ goes 2 ∷ []

abbrev said : List Message
said = (5, "hello") ∷ (8, "hi") ∷ []

everyone_hears_example :
    let g = visited plain_json evening [] in
    texts_for 8 ((minimal_game plain_json).advance [] said 10 g).1
    ≡ texts_for 8 []
      ++ (if contains 8 g then map (λ (m : Message). plain_json.dump m.0 m.1) said else [])
everyone_hears_example = everyone_hears plain_json evening 8 10 said []

abbrev three_sessions : Assoc ℕ (Unit {0})
three_sessions = (4, tt) ∷ (9, tt) ∷ (6, tt) ∷ []

two_at_a_time_example : (minimal_matchmaker plain_json).pair_up three_sessions 10 7 ≡ (
  (7 + length three_sessions / 2) % size_mod,
  two_by_two plain_json (keys three_sessions) 7,
  [],
)
two_at_a_time_example = two_at_a_time plain_json three_sessions 10 7 (omega arith)

-- every value is an unsigned number
abbrev numbers : NlohmannJson ℕ ℕ ℕ ℕ ℕ
numbers = record {
  type = λ val. number_unsigned;
  get_object = λ val. val;
  get_string = λ val. "";
  get_array = λ val. val;
  get_int = λ val. val;
  get_bool = λ val. true;
  get_double = λ val. val;
  parse = λ text. some 1;
  dump = λ val. "1";
}

casts_example :
    (succeeds (as_object numbers 3) ≡ is_typed (get_type numbers 3) object_type)
    × (succeeds (as_string numbers 3) ≡ is_typed (get_type numbers 3) string_type)
    × (succeeds (as_array numbers 3) ≡ is_typed (get_type numbers 3) array_type)
    × (succeeds (as_int numbers 3) ≡ is_typed (get_type numbers 3) integer_type)
    × (succeeds (as_bool numbers 3) ≡ is_typed (get_type numbers 3) boolean_type)
    × (succeeds (as_number numbers 3) ≡ is_typed (get_type numbers 3) number_type)
casts_example = casts numbers 3

abbrev two_games : Assoc ℕ ℕ
two_games = (3, 30) ∷ (6, 20) ∷ []

abbrev no_messages : Assoc ℕ (List Message)
no_messages = (6, []) ∷ (3, []) ∷ []

two_games-Distinct : Distinct ℕ_discrete two_games
unfolding lookup ℕ_discrete
two_games-Distinct = (refl, (refl, tt))

two_games-advanced :
    advance_games countdown 5 [] two_games no_messages
    ≡ some ((3, 25) ∷ (6, 15) ∷ [], (6, []) ∷ (3, []) ∷ [])
unfolding advance_games lookup update ℕ_discrete
two_games-advanced = refl

each_alone_example :
    let game = lookup ℕ_discrete 6 two_games in
    let out = lookup ℕ_discrete 6 no_messages in
    (lookup ℕ_discrete 6 ((3, 25) ∷ (6, 15) ∷ []) ≡ game_alone countdown 5 [] 6 game out)
    × (lookup ℕ_discrete 6 no_messages ≡ out_alone countdown 5 [] 6 game out)
each_alone_example =
    each_alone countdown 5 [] two_games no_messages ((3, 25) ∷ (6, 15) ∷ [], no_messages) 6
      two_games-Distinct two_games-advanced
