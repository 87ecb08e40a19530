-- ===== src/Prelude/Int.antt =====
-- Signed integers over the native numbers, under the library's names.
use Prim.Native.Nat.{ℕ, ◌+◌, ◌-◌, ◌^◌, ◌≤◌}
use mathlib.Core.Logic.{◌⊎◌, inl, inr}
use mathlib.Core.Path.{◌≡◌, ap}
use mathlib.Core.Bool.{Bool, true, false, not}
use native.Mathlib.Omega.{arith}
use simple_web_game_server.Prelude.Tests.{ltb, ◌==◌, if◌then◌else◌, Bool-cases}

pub data ℤ : Type 0 where
  pos : ℕ → ℤ
  negsuc : ℕ → ℤ

-- `m - n`, below zero too
abbrev pub sub_ℕ : ℕ → ℕ → ℤ
sub_ℕ m n = if ltb m n then negsuc (n - m - 1) else pos (m - n)

infixl 65 ◌+ℤ◌
abbrev pub ◌+ℤ◌ : ℤ → ℤ → ℤ
pos a +ℤ pos b = pos (a + b)
pos a +ℤ negsuc b = sub_ℕ a (b + 1)
negsuc a +ℤ pos b = sub_ℕ b (a + 1)
negsuc a +ℤ negsuc b = negsuc (a + b + 1)

infix 50 ◌==ℤ◌
abbrev pub ◌==ℤ◌ : ℤ → ℤ → Bool
pos a ==ℤ pos b = a == b
negsuc a ==ℤ negsuc b = a == b
pos a ==ℤ negsuc b = false
negsuc a ==ℤ pos b = false

-- |a - b|
abbrev pub distance : ℤ → ℤ → ℕ
distance (pos a) (pos b) = (a - b) + (b - a)
distance (negsuc a) (negsuc b) = (a - b) + (b - a)
distance (pos a) (negsuc b) = a + b + 1
distance (negsuc a) (pos b) = a + b + 1

abbrev pub ltb_ℤ : ℤ → ℤ → Bool
ltb_ℤ (pos a) (pos b) = ltb a b
ltb_ℤ (negsuc a) (negsuc b) = ltb b a
ltb_ℤ (pos a) (negsuc b) = false
ltb_ℤ (negsuc a) (pos b) = true

abbrev pub leb_ℤ : ℤ → ℤ → Bool
leb_ℤ a b = not (ltb_ℤ b a)

-- `std::abs(a - b)` of two 32-bit integers, which wraps around where the difference is out of range:
-- at 2^31 it is INT_MIN, whose absolute value is INT_MIN again.
abbrev pub abs_difference : ℤ → ℤ → ℤ
abs_difference a b =
    if ltb (distance a b) (2 ^ 31)
    then pos (distance a b)
    else if ltb (2 ^ 31) (distance a b)
    then pos (2 ^ 32 - distance a b)
    else negsuc (2 ^ 31 - 1)

-- A difference of at most `n` as the code computes it is one, or the exact one is out of range.
pub leb-abs_difference :
    (a b : ℤ) (n : ℕ)
    → leb_ℤ (abs_difference a b) (pos n) ≡ true
    → (distance a b ≤ n) ⊎ (2 ^ 31 ≤ distance a b)
leb-abs_difference a b n e = elim (Bool-cases (ltb (distance a b) (2 ^ 31))) [
  | inl l ↦ inl (ground arith)
  | inr g ↦ inr (ground arith)
]

pub eq_of_==ℤ : (a b : ℤ) → (a ==ℤ b) ≡ true → a ≡ b
eq_of_==ℤ (pos a) (pos b) e = ap pos (ground arith)
eq_of_==ℤ (negsuc a) (negsuc b) e = ap negsuc (ground arith)
eq_of_==ℤ (pos a) (negsuc b) e = ground arith
eq_of_==ℤ (negsuc a) (pos b) e = ground arith

pub ==ℤ_self : (a : ℤ) → (a ==ℤ a) ≡ true
==ℤ_self (pos a) = ground arith
==ℤ_self (negsuc a) = ground arith
