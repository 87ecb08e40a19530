-- ===== src/BufferedMap/Laws.antt =====
-- What a client can read of a `buffered_map` after each operation.
use simple_web_game_server.Prelude.{
  ℕ, ◌≡◌, refl, false, none, some, is_some, arith, ite, ℕ_discrete,
}
use simple_web_game_server.Prelude.Assoc.{lookup, lookup-emplace}
use simple_web_game_server.BufferedMap.{BufferedMap, insert, at, contains, clear}

module _ {V : Type 0} (b : BufferedMap V) (k : ℕ) where
  -- `contains` says when `at` does not throw.
  pub contains-at : contains b k ≡ is_some (at b k)
  unfolding contains at
  contains-at = ground arith

  -- What stands in the first map outlives one `clear`.
  pub at-clear_first : (v : V) → lookup ℕ_discrete k b.map1 ≡ some v → at (clear b) k ≡ some v
  unfolding at clear lookup
  at-clear_first v h = ground arith

  pub at-clear_twice : at (clear (clear b)) k ≡ none
  unfolding at clear lookup
  at-clear_twice = refl

  -- An insertion is read back if the key was free, and other keys read as before.
  pub at-insert_self : (v : V) → contains b k ≡ false → at (insert k v b) k ≡ some v
  unfolding at insert contains
  at-insert_self v h = ground (arith, lookup-emplace ℕ_discrete k k v b.map1)

  pub at-insert :
      (j : ℕ) (v : V)
      → contains b k ≡ false
      → at (insert k v b) j ≡ ite (ℕ_discrete k j) (some v) (at b j)
  unfolding at insert contains
  at-insert j v h = ground (arith, lookup-emplace ℕ_discrete k j v b.map1)
