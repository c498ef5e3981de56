-- ===== src/Base/Words.antt =====
-- Go's 64-bit integers as bit patterns below 2 ^ 64. An `int` is read as two's complement where the
-- program compares it by `<` or `>`; `uint64` is the pattern itself.
use Prim.Native.Nat.{ℕ, ◌+◌, ◌-◌, ◌%◌, ◌^◌, ◌<◌}
use mathlib.Core.Path.{◌≡◌}
use mathlib.Core.Bool.{Bool}
use native.Mathlib.Omega.{arith}
use part_ii_project.Base.Tests.{ltb}

-- `-1` as an `int`.
abbrev pub minus_one : ℕ
minus_one = 0xffff_ffff_ffff_ffff

-- `x++` and `x--`, with the wrap-around of a 64-bit word.
unfoldable pub increment : ℕ → ℕ
increment x = (x + 1) % 2 ^ 64

unfoldable pub decrement : ℕ → ℕ
decrement x = (x + minus_one) % 2 ^ 64

-- `a < b` on `int`: flipping the sign bit turns the signed order into the order of patterns.
unfoldable pub int_ltb : ℕ → ℕ → Bool
int_ltb a b = ltb ((a + 2 ^ 63) % 2 ^ 64) ((b + 2 ^ 63) % 2 ^ 64)

-- `x > 0` on `int`.
unfoldable pub is_positive : ℕ → Bool
unfolding int_ltb
is_positive x = int_ltb 0 x

pub increment-eq-add : (x : ℕ) → x < minus_one → increment x ≡ x + 1
unfolding increment
increment-eq-add x h = omega arith

pub decrement-eq-sub : (x : ℕ) → 0 < x → x < 2 ^ 64 → decrement x ≡ x - 1
unfolding decrement
decrement-eq-sub x h k = omega arith
