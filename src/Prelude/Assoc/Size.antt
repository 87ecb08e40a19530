-- ===== src/Prelude/Assoc/Size.antt =====
-- Maps with at most one entry for a key, and their number of entries.
use mathlib.Core.Path.{◌≡◌}
use mathlib.Core.Option.{none, some}
use mathlib.Core.List.{[], ◌∷◌}
use Prim.Native.Nat.{◌+◌}
use native.Mathlib.Omega.{arith}
use mathlib.Core.Bool.{true}
use simple_web_game_server.Prelude.Tests.{is_some}
use simple_web_game_server.Prelude.Lists.{length}
use simple_web_game_server.Prelude.Assoc.{
  Assoc, lookup, erase, emplace, update, lookup-erase, lookup-emplace, lookup-update,
}

module _ {ℓ} {K V : Type ℓ} (dec : Discrete K) where
  abbrev pub Distinct : Assoc K V → Type ℓ
  Distinct [] = Unit
  Distinct ((k, v) ∷ m) = (lookup dec k m ≡ none) × Distinct m

  pub erase-Distinct : (k : K) (m : Assoc K V) → Distinct m → Distinct (erase dec k m)
  unfolding erase
  erase-Distinct k [] d = d
  erase-Distinct k ((j, v) ∷ m) d = ground (arith, erase-Distinct k m d.1, lookup-erase dec k j m)

  pub emplace-Distinct : (k : K) (v : V) (m : Assoc K V) → Distinct m → Distinct (emplace dec k v m)
  unfolding emplace lookup
  emplace-Distinct k v [] d = ground arith
  emplace-Distinct k v ((j, w) ∷ m) d =
      ground (arith, emplace-Distinct k v m d.1, lookup-emplace dec k j v m)

  erase_absent : (k : K) (m : Assoc K V) → lookup dec k m ≡ none → erase dec k m ≡ m
  unfolding erase lookup
  erase_absent k [] h = ground arith
  erase_absent k ((j, v) ∷ m) h = ground (arith, erase_absent k m)

  pub length-erase :
      (k : K) (m : Assoc K V) (v : V)
      → Distinct m
      → lookup dec k m ≡ some v
      → length (erase dec k m) + 1 ≡ length m
  unfolding erase lookup
  length-erase k [] v d h = ground arith
  length-erase k ((j, w) ∷ m) v d h = ground (arith, length-erase k m v d.1, erase_absent k m)

  pub length-emplace_new :
      (k : K) (v : V) (m : Assoc K V)
      → lookup dec k m ≡ none
      → length (emplace dec k v m) ≡ length m + 1
  unfolding emplace lookup
  length-emplace_new k v [] h = ground arith
  length-emplace_new k v ((j, w) ∷ m) h = ground (arith, length-emplace_new k v m)

  pub update-Distinct :
      (k : K) (d : V) (f : V → V) (m : Assoc K V) → Distinct m → Distinct (update dec k d f m)
  unfolding update lookup
  update-Distinct k d f [] h = ground arith
  update-Distinct k d f ((j, w) ∷ m) h =
      ground (arith, update-Distinct k d f m h.1, lookup-update dec k j d f m)

  pub length-update :
      (k : K) (d : V) (f : V → V) (m : Assoc K V)
      → is_some (lookup dec k m) ≡ true
      → length (update dec k d f m) ≡ length m
  unfolding update lookup
  length-update k d f [] h = ground arith
  length-update k d f ((j, w) ∷ m) h = ground (arith, length-update k d f m)
