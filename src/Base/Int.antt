-- ===== src/Base/Int.antt =====
-- `int` results of calls. `negsuc n` is -(n + 1).
use Prim.Native.Nat.{ℕ}
use mathlib.Core.Path.{◌≡◌}
use mathlib.Core.Logic.{◌≢◌}
use mathlib.Core.Bool.{Bool, true, false}
use native.Mathlib.Omega.{arith}
use cci_daemon.Base.Tests.{◌==◌}

pub data ℤ : Type 0 where
  pos : ℕ → ℤ
  negsuc : ℕ → ℤ

-- The -1 by which calls report an error.
abbrev pub minus_one : ℤ
minus_one = negsuc 0

abbrev pub int_eq : ℤ → ℤ → Bool
int_eq (pos m) (pos n) = m == n
int_eq (pos m) (negsuc n) = false
int_eq (negsuc m) (pos n) = false
int_eq (negsuc m) (negsuc n) = m == n

pub int_eq-true : (a b : ℤ) → int_eq a b ≡ true → a ≡ b
int_eq-true a b h = ground arith

pub int_eq_refl : (a : ℤ) → int_eq a a ≡ true
int_eq_refl (pos n) = ground arith
int_eq_refl (negsuc n) = ground arith

pub int_eq_ne : (a b : ℤ) → a ≢ b → int_eq a b ≡ false
int_eq_ne a b h = ground arith
