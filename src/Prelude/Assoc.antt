-- ===== src/Prelude/Assoc.antt =====
-- The maps of the program (std::map and std::unordered_map): association lists with at most one
-- entry for a key. The order of the entries is the order of iteration.
pub mod Size
use mathlib.Core.Path.{◌≡◌, refl, subst, subst₂}
use mathlib.Core.Logic.{ite, if_pos, if_neg}
use mathlib.Core.Option.{Option, none, some}
use mathlib.Core.List.{List, [], ◌∷◌, map}
use native.Mathlib.Omega.{arith}
use simple_web_game_server.Prelude.Tests.{or_some, is_some, if◌then◌else◌, Option-cases}
use mathlib.Core.Logic.{◌⊎◌, inl, inr, ◌≢◌}
use mathlib.Core.Bool.{Bool, true, false}

abbrev pub Assoc {ℓ} : Type ℓ → Type ℓ → Type ℓ
Assoc K V = List (K × V)

module _ {ℓ} {K V : Type ℓ} where
  abbrev pub keys : Assoc K V → List K
  keys = map (λ e. e.0)

module _ {ℓ} {K V : Type ℓ} (dec : Discrete K) where
  -- m.find(k)
  unfoldable pub lookup : K → Assoc K V → Option V
  lookup k [] = none
  lookup k ((j, v) ∷ m) = ite (dec j k) (some v) (lookup k m)

  -- m.erase(k)
  unfoldable pub erase : K → Assoc K V → Assoc K V
  erase k [] = []
  erase k ((j, v) ∷ m) = let rest = erase k m in ite (dec j k) rest ((j, v) ∷ rest)

  -- m.insert({k, v}) and m.emplace(k, v): an entry that is there stays
  unfoldable pub emplace : K → V → Assoc K V → Assoc K V
  emplace k v [] = (k, v) ∷ []
  emplace k v ((j, w) ∷ m) = ite (dec j k) ((j, w) ∷ m) ((j, w) ∷ emplace k v m)

  -- m[k] = f(m[k]), where `d` stands for the value that operator[] makes
  unfoldable pub update : K → V → (V → V) → Assoc K V → Assoc K V
  update k d f [] = (k, f d) ∷ []
  update k d f ((j, w) ∷ m) = ite (dec j k) ((j, f w) ∷ m) ((j, w) ∷ update k d f m)

  pub lookup-erase :
      (k j : K) (m : Assoc K V) → lookup j (erase k m) ≡ ite (dec k j) none (lookup j m)
  unfolding lookup erase
  lookup-erase k j [] = ground arith
  lookup-erase k j ((i, v) ∷ m) = ground (arith, lookup-erase k j m)

  pub lookup-emplace :
      (k j : K) (v : V) (m : Assoc K V)
      → lookup j (emplace k v m) ≡ ite (dec k j) (or_some (lookup j m) v) (lookup j m)
  unfolding lookup emplace
  lookup-emplace k j v [] = ground arith
  lookup-emplace k j v ((i, w) ∷ m) = ground (arith, lookup-emplace k j v m)

  -- The value of a key, after operator[] has made one if there was none.
  abbrev pub value_or : Option V → V → V
  value_or none d = d
  value_or (some v) d = v

  pub lookup-update :
      (k j : K) (d : V) (f : V → V) (m : Assoc K V)
      → lookup j (update k d f m) ≡ ite (dec k j) (some (f (value_or (lookup j m) d))) (lookup j m)
  unfolding lookup update
  lookup-update k j d f [] = ground arith
  lookup-update k j d f ((i, w) ∷ m) = ground (arith, lookup-update k j d f m)

  pub lookup-first : (k : K) (v : V) (m : Assoc K V) → lookup k ((k, v) ∷ m) ≡ some v
  unfolding lookup
  lookup-first k v m = if_pos (dec k k) refl _ _

  pub lookup-rest : (k j : K) (v : V) (m : Assoc K V) → k ≢ j → lookup j ((k, v) ∷ m) ≡ lookup j m
  unfolding lookup
  lookup-rest k j v m n = if_neg (dec k j) n _ _

-- A fact that holds of every entry of a map.
abbrev pub Entries {ℓ} : {K V : Type ℓ} → Discrete K → (K → V → Type ℓ) → Assoc K V → Type ℓ
Entries {K = K} {V = V} dec P m = (k : K) (v : V) → lookup dec k m ≡ some v → P k v

module _ {ℓ} {K V : Type ℓ} (dec : Discrete K) (P : K → V → Type ℓ) where
  pub erase-Entries : (k : K) (m : Assoc K V) → Entries dec P m → Entries dec P (erase dec k m)
  erase-Entries k m all j w e = all j w (ground (arith, lookup-erase dec k j m))

  pub emplace-Entries :
      (k : K) (v : V) (m : Assoc K V) → P k v → Entries dec P m → Entries dec P (emplace dec k v m)
  emplace-Entries k v m new all j w e = elim (Option-cases (lookup dec j m)) [
    | inr (u, f) ↦ subst (P j) (ground (arith, lookup-emplace dec k j v m)) (all j u f)
    | inl f ↦
        subst₂ P (ground (arith, lookup-emplace dec k j v m))
          (ground (arith, lookup-emplace dec k j v m)) new
  ]
