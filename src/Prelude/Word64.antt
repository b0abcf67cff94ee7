-- ===== src/Prelude/Word64.antt =====
-- `int64_t` and `uint64_t` as bit patterns: a number below 2 ^ 64. An `int64_t` is negative when
-- its pattern is 2 ^ 63 or more, and its overflow, which C leaves undefined, wraps around.
use my_test_files.Prelude.Tests.{leb, ltb, ◌==◌, if◌then◌else◌}
use my_test_files.Prelude.Word.{is_neg}
use Prim.Native.Nat.{ℕ, ◌+◌, ◌-◌, ◌*◌, ◌/◌, ◌%◌, ◌^◌}
use mathlib.Core.Bool.{Bool, true, false, ◌&&◌, ◌||◌, not}
use mathlib.Core.Option.{Option, none, some}

abbrev pub add64 : ℕ → ℕ → ℕ
add64 a b = (a + b) % 2 ^ 64

abbrev pub sub64 : ℕ → ℕ → ℕ
sub64 a b = (a + 2 ^ 64 - b) % 2 ^ 64

abbrev pub mul64 : ℕ → ℕ → ℕ
mul64 a b = a * b % 2 ^ 64

abbrev pub neg64 : ℕ → ℕ
neg64 a = (2 ^ 64 - a) % 2 ^ 64

abbrev pub is_neg64 : ℕ → Bool
is_neg64 w = leb (2 ^ 63) w

-- the absolute value, as an unsigned number
abbrev pub magnitude : ℕ → ℕ
magnitude w = if is_neg64 w then 2 ^ 64 - w else w

-- `a < b` on `int64_t`
abbrev pub slt64 : ℕ → ℕ → Bool
slt64 a b = ltb ((a + 2 ^ 63) % 2 ^ 64) ((b + 2 ^ 63) % 2 ^ 64)

-- a pattern of the given sign and magnitude
abbrev pub with_sign : Bool → ℕ → ℕ
with_sign negative m = if negative then neg64 m else m

abbrev pub differ : Bool → Bool → Bool
differ true b = not b
differ false b = b

-- `a / b` on `int64_t`, towards zero; a division by zero, and that of the least number by -1, stop
-- the program.
abbrev pub sdiv64 : ℕ → ℕ → Option ℕ
sdiv64 a b =
    if b == 0 || a == 2 ^ 63 && b == 2 ^ 64 - 1
    then none
    else some (with_sign (differ (is_neg64 a) (is_neg64 b)) (magnitude a / magnitude b))

-- the `int64_t` of an `int`
abbrev pub extend : ℕ → ℕ
extend w = if is_neg w then w + (2 ^ 64 - 2 ^ 32) else w

-- `w >> k` on `int64_t`, which keeps the sign, for `k` below 64
abbrev pub sar64 : ℕ → ℕ → ℕ
sar64 w k = if is_neg64 w then 2 ^ 64 - 1 - (2 ^ 64 - 1 - w) / 2 ^ k else w / 2 ^ k
