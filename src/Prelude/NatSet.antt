-- ===== src/Prelude/NatSet.antt =====
-- std::set over identifiers: ascending lists.
use Prim.Native.Nat.{ℕ}
use mathlib.Core.Path.{◌≡◌}
use mathlib.Core.Logic.{◌≢◌}
use mathlib.Core.Bool.{Bool, false, ◌||◌}
use mathlib.Core.List.{List, [], ◌∷◌}
use native.Mathlib.Omega.{arith}
use simple_web_game_server.Prelude.Tests.{ltb, ◌==◌, if◌then◌else◌}

-- s.count(k) > 0
unfoldable pub contains : ℕ → List ℕ → Bool
contains k [] = false
contains k (x ∷ s) = x == k || contains k s

-- s.insert(k)
unfoldable pub insert : ℕ → List ℕ → List ℕ
insert k [] = k ∷ []
insert k (x ∷ s) =
    let rest = insert k s in if x == k then x ∷ s else if ltb k x then k ∷ x ∷ s else x ∷ rest

-- s.erase(k)
unfoldable pub remove : ℕ → List ℕ → List ℕ
remove k [] = []
remove k (x ∷ s) = let rest = remove k s in if x == k then rest else x ∷ rest

pub contains-insert : (k j : ℕ) (s : List ℕ) → contains j (insert k s) ≡ (k == j || contains j s)
unfolding contains insert
contains-insert k j [] = ground arith
contains-insert k j (x ∷ s) = ground (arith, contains-insert k j s)

pub contains-remove :
    (k j : ℕ) (s : List ℕ) → contains j (remove k s) ≡ (if k == j then false else contains j s)
unfolding contains remove
contains-remove k j [] = ground arith
contains-remove k j (x ∷ s) = ground (arith, contains-remove k j s)

pub insert-ne-nil : (k : ℕ) (s : List ℕ) → insert k s ≢ []
unfolding insert
insert-ne-nil k [] h = ground arith
insert-ne-nil k (x ∷ s) h = ground arith
