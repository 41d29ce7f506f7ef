-- ===== src/Prelude/Int.antt =====
-- Go's signed integers, over the native numbers. `negsuc n` is -(n + 1).
use Prim.Native.Nat.{ℕ, compare, Ordering}
use mathlib.Core.Path.{◌≡◌}
use mathlib.Core.Bool.{Bool, true, false}
use native.Mathlib.Omega.{arith}

pub data ℤ : Type 0 where
  pos : ℕ → ℤ
  negsuc : ℕ → ℤ

infix 50 ◌==ℤ◌
abbrev pub ◌==ℤ◌ : ℤ → ℤ → Bool
pos m ==ℤ pos n = elim (compare m n) [ Ordering.eq ↦ true | _ ↦ false ]
negsuc m ==ℤ negsuc n = elim (compare m n) [ Ordering.eq ↦ true | _ ↦ false ]
_ ==ℤ _ = false

pub eq_of_==ℤ : (a b : ℤ) → (a ==ℤ b) ≡ true → a ≡ b
eq_of_==ℤ (pos m) (pos n) h = ground arith
eq_of_==ℤ (negsuc m) (negsuc n) h = ground arith
eq_of_==ℤ (pos m) (negsuc n) h = ground arith
eq_of_==ℤ (negsuc m) (pos n) h = ground arith

pub ==ℤ_refl : (a : ℤ) → (a ==ℤ a) ≡ true
==ℤ_refl (pos m) = ground arith
==ℤ_refl (negsuc m) = ground arith
