-- ===== src/Prelude/Int.antt =====
-- Signed integers; `negsuc n` is -(n + 1).
use Prim.Native.Nat.{ℕ, zero, suc, ◌^◌, ◌+◌, ◌-◌, ◌<◌}
use mathlib.Core.Path.{◌≡◌}
use mathlib.Core.Bool.{Bool, true, false}
use native.Mathlib.Omega.{arith}
use rockbase.Prelude.Tests.{◌==◌, if◌then◌else◌}

pub data ℤ : Type 0 where
  pos : ℕ → ℤ
  negsuc : ℕ → ℤ

-- the integer -n
abbrev pub negate : ℕ → ℤ
negate zero = pos 0
negate (suc n) = negsuc n

abbrev pub int_eq : ℤ → ℤ → Bool
int_eq (pos a) (pos b) = a == b
int_eq (negsuc a) (negsuc b) = a == b
int_eq _ _ = false

-- The magnitude that an `i64` stays below.
abbrev pub i64_half : ℕ
i64_half = 2 ^ 63

-- `n + 1` on `i64`, which wraps round at the top
unfoldable pub int_succ : ℤ → ℤ
int_succ (pos n) = if n + 1 == i64_half then negsuc (i64_half - 1) else pos (n + 1)
int_succ (negsuc zero) = pos 0
int_succ (negsuc (suc n)) = negsuc n

abbrev pub IsI64 : ℤ → Type 0
IsI64 (pos n) = n < i64_half
IsI64 (negsuc n) = n < i64_half

pub int_eq_iff : (a b : ℤ) → int_eq a b ≡ true → a ≡ b
int_eq_iff a b h = ground arith
