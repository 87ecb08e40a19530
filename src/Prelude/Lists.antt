-- ===== src/Prelude/Lists.antt =====
-- Lists measured and indexed by native numbers, under the library's names.
use Prim.Native.Nat.{ℕ, zero, suc, ◌+◌, ◌<◌}
use mathlib.Core.Path.{◌≡◌, refl, ap}
use mathlib.Core.Logic.{◌≢◌, ◌⊎◌, inl, inr}
use mathlib.Core.List.{List, [], ◌∷◌, ◌++◌}
use mathlib.Core.Option.{Option, none, some}
use native.Mathlib.Omega.{arith}

module _ {ℓ} {A : Type ℓ} where
  abbrev pub length : List A → ℕ
  length [] = 0
  length (x ∷ xs) = suc (length xs)

  abbrev pub get_elem? : List A → ℕ → Option A
  get_elem? [] i = none
  get_elem? (x ∷ xs) zero = some x
  get_elem? (x ∷ xs) (suc i) = get_elem? xs i

  -- A write out of bounds changes nothing.
  abbrev pub set : List A → ℕ → A → List A
  set [] i v = []
  set (x ∷ xs) zero v = v ∷ xs
  set (x ∷ xs) (suc i) v = x ∷ set xs i v

  -- l.at(i) = f(l.at(i))
  abbrev pub modify : ℕ → (A → A) → List A → List A
  modify i f [] = []
  modify zero f (x ∷ xs) = f x ∷ xs
  modify (suc i) f (x ∷ xs) = x ∷ modify i f xs

  pub length-modify : (i : ℕ) (f : A → A) (l : List A) → length (modify i f l) ≡ length l
  length-modify i f [] = refl
  length-modify zero f (x ∷ xs) = refl
  length-modify (suc i) f (x ∷ xs) = ap suc (length-modify i f xs)

  pub get_elem?-modify :
      (i : ℕ) (f : A → A) (l : List A) (x : A)
      → get_elem? l i ≡ some x
      → get_elem? (modify i f l) i ≡ some (f x)
  get_elem?-modify i f [] x e = absurd (ground arith)
  get_elem?-modify zero f (y ∷ ys) x e = cc
  get_elem?-modify (suc i) f (y ∷ ys) x e = get_elem?-modify i f ys x e

  pub get_elem?-modify_other :
      (i j : ℕ) (f : A → A) (l : List A) → i ≢ j → get_elem? (modify i f l) j ≡ get_elem? l j
  get_elem?-modify_other i j f [] n = refl
  get_elem?-modify_other zero zero f (x ∷ xs) n = absurd (n refl)
  get_elem?-modify_other zero (suc j) f (x ∷ xs) n = refl
  get_elem?-modify_other (suc i) zero f (x ∷ xs) n = refl
  get_elem?-modify_other (suc i) (suc j) f (x ∷ xs) n =
      get_elem?-modify_other i j f xs (λ e. n (ap suc e))

  -- What stands in a list that has been changed at one place.
  pub get_elem?-modify_inv :
      (i j : ℕ) (f : A → A) (l : List A) (y : A)
      → get_elem? (modify i f l) j ≡ some y
      → (x : A) × (get_elem? l j ≡ some x) × (((i ≡ j) × (y ≡ f x)) ⊎ ((i ≢ j) × (y ≡ x)))
  get_elem?-modify_inv i j f [] y e = absurd (ground arith)
  get_elem?-modify_inv zero zero f (x ∷ xs) y e = (x, refl, inl (refl, cc))
  get_elem?-modify_inv zero (suc j) f (x ∷ xs) y e = (y, e, inr (omega arith, refl))
  get_elem?-modify_inv (suc i) zero f (x ∷ xs) y e = (y, e, inr (omega arith, refl))
  get_elem?-modify_inv (suc i) (suc j) f (x ∷ xs) y e =
      let (z, h, cases) = get_elem?-modify_inv i j f xs y e in
      (z, h, elim cases [ inl (k, v) ↦ inl (ap suc k, v) | inr (n, v) ↦ inr (omega arith, v) ])

  pub get_elem?-snoc_inv :
      (l : List A) (x y : A) (j : ℕ)
      → get_elem? (l ++ x ∷ []) j ≡ some y
      → (get_elem? l j ≡ some y) ⊎ ((j ≡ length l) × (y ≡ x))
  get_elem?-snoc_inv [] x y zero e = inr (refl, cc)
  get_elem?-snoc_inv [] x y (suc j) e = absurd (ground arith)
  get_elem?-snoc_inv (z ∷ l) x y zero e = inl e
  get_elem?-snoc_inv (z ∷ l) x y (suc j) e = elim (get_elem?-snoc_inv l x y j e) [
    | inl h ↦ inl h
    | inr (k, v) ↦ inr (ap suc k, v)
  ]

  pub get_elem?-length : (l : List A) (j : ℕ) (y : A) → get_elem? l j ≡ some y → j < length l
  get_elem?-length [] j y e = absurd (ground arith)
  get_elem?-length (x ∷ l) zero y e = omega arith
  get_elem?-length (x ∷ l) (suc j) y e = omega (arith, get_elem?-length l j y e)

  pub length-append : (xs ys : List A) → length (xs ++ ys) ≡ length xs + length ys
  length-append [] ys = omega arith
  length-append (x ∷ xs) ys = omega (arith, length-append xs ys)

-- Every element has the property.
abbrev pub All {ℓ κ} : {A : Type ℓ} → (A → Type κ) → List A → Type κ
All P [] = Unit
All P (x ∷ xs) = P x × All P xs

module _ {ℓ κ} {A : Type ℓ} where
  pub All-append : (P : A → Type κ) (xs ys : List A) → All P xs → All P ys → All P (xs ++ ys)
  All-append P [] ys hx hy = hy
  All-append P (x ∷ xs) ys hx hy = (hx.0, All-append P xs ys hx.1 hy)
