-- ===== src/BufferedMap.antt =====
-- `buffered_map` of include/simple_web_game_server/base_server.hpp, over session identifiers.
pub mod Laws
use simple_web_game_server.Prelude.{
  ℕ, Bool, true, false, Option, none, some, [], is_some, if◌then◌else◌, ℕ_discrete,
}
use simple_web_game_server.Prelude.Assoc.{Assoc, lookup, emplace}

pub record BufferedMap (V : Type 0) : Type 0 where
  pub map1 : Assoc ℕ V
  pub map2 : Assoc ℕ V

abbrev pub empty : {V : Type 0} → BufferedMap V
empty = record { map1 = []; map2 = [] }

module _ {V : Type 0} where
  unfoldable pub insert : ℕ → V → BufferedMap V → BufferedMap V
  insert k v b = record b { map1 = emplace ℕ_discrete k v b.map1 }

  -- `none` is the exception std::out_of_range
  unfoldable pub at : BufferedMap V → ℕ → Option V
  at b k = elim (lookup ℕ_discrete k b.map1) [ some v ↦ some v | none ↦ lookup ℕ_discrete k b.map2 ]

  unfoldable pub contains : BufferedMap V → ℕ → Bool
  contains b k =
      if is_some (lookup ℕ_discrete k b.map1)
      then true
      else if is_some (lookup ℕ_discrete k b.map2)
      then true
      else false

  -- the second map is cleared, then the two are swapped
  unfoldable pub clear : BufferedMap V → BufferedMap V
  clear b = record { map1 = []; map2 = b.map1 }
