-- ===== src/Prelude/Word.antt =====
-- `int` and `uint32` as bit patterns: a number below 2 ^ 32. An `int` is negative when its
-- pattern is 2 ^ 31 or more.
use my_test_files.Prelude.Tests.{leb, if◌then◌else◌}
use Prim.Native.Nat.{ℕ, ◌+◌, ◌-◌, ◌*◌, ◌/◌, ◌%◌, ◌^◌}
use mathlib.Core.Bool.{Bool}

abbrev pub add32 : ℕ → ℕ → ℕ
add32 a b = (a + b) % 2 ^ 32

abbrev pub sub32 : ℕ → ℕ → ℕ
sub32 a b = (a + 2 ^ 32 - b) % 2 ^ 32

abbrev pub mul32 : ℕ → ℕ → ℕ
mul32 a b = a * b % 2 ^ 32

-- `~x`
abbrev pub not32 : ℕ → ℕ
not32 x = 2 ^ 32 - 1 - x

abbrev pub is_neg : ℕ → Bool
is_neg w = leb (2 ^ 31) w

-- `int` division by a positive constant, towards zero
abbrev pub div_int : ℕ → ℕ → ℕ
div_int w k = if is_neg w then (2 ^ 32 - (2 ^ 32 - w) / k) % 2 ^ 32 else w / k

-- `int` remainder by a positive constant, with the sign of the dividend
abbrev pub mod_int : ℕ → ℕ → ℕ
mod_int w k = if is_neg w then (2 ^ 32 - (2 ^ 32 - w) % k) % 2 ^ 32 else w % k
