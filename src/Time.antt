-- ===== src/Time.antt =====
-- vam_time.h: absolute time, relative time and their conversions. `uint64_t` and `int64_t` are
-- 64-bit patterns. The macros TIME_MK_A, TIME_GET_A, TIME_CMP_A and their likes only spell the
-- names of these functions. The functions that read the clock, and those on `double`, are left out.
pub mod Relative
pub mod Arith
pub mod Ntp
pub mod Convert
pub mod Order
pub mod Sums
pub mod Quotients
pub mod Scale
pub mod Ticks
mod Tests
use my_test_files.Prelude.{ℕ, ◌/◌, Bool, not, ltb, leb, ◌==◌, ◌≡◌}
use my_test_files.Prelude.Word64.{add64, sub64, mul64}

-- `abs_time_t`: microseconds since the epoch
pub record AbsTime : Type 0 where
  pub usec : ℕ

-- `struct timeval`, both of its fields 64-bit
pub record Timeval : Type 0 where
  pub tv_sec : ℕ
  pub tv_usec : ℕ

pub AbsTime-ext : (a b : AbsTime) → a.usec ≡ b.usec → a ≡ b
AbsTime-ext a b e i = record { usec = e i }

pub Timeval-ext : (a b : Timeval) → a.tv_sec ≡ b.tv_sec → a.tv_usec ≡ b.tv_usec → a ≡ b
Timeval-ext a b e f i = record { tv_sec = e i; tv_usec = f i }

unfoldable pub sec_to_abs_time : ℕ → AbsTime
sec_to_abs_time sec = record { usec = mul64 1000000 sec }

unfoldable pub msec_to_abs_time : ℕ → AbsTime
msec_to_abs_time msec = record { usec = mul64 1000 msec }

unfoldable pub usec_to_abs_time : ℕ → AbsTime
usec_to_abs_time u = record { usec = u }

unfoldable pub nsec_to_abs_time : ℕ → AbsTime
nsec_to_abs_time nsec = record { usec = nsec / 1000 }

unfoldable pub timeval_to_abs_time : Timeval → AbsTime
timeval_to_abs_time tv = record { usec = add64 (mul64 tv.tv_sec 1000000) tv.tv_usec }

unfoldable pub abs_time_to_sec : AbsTime → ℕ
abs_time_to_sec t = t.usec / 1000000

unfoldable pub abs_time_to_msec : AbsTime → ℕ
abs_time_to_msec t = t.usec / 1000

unfoldable pub abs_time_to_usec : AbsTime → ℕ
abs_time_to_usec t = t.usec

unfoldable pub abs_time_to_nsec : AbsTime → ℕ
abs_time_to_nsec t = mul64 t.usec 1000

unfoldable pub abs_time_to_timeval : AbsTime → Timeval
abs_time_to_timeval t =
    let secs : ℕ = t.usec / 1000000 in
    record { tv_sec = secs; tv_usec = sub64 t.usec (mul64 secs 1000000) }

unfoldable pub abs_time_lt : AbsTime → AbsTime → Bool
abs_time_lt t0 t1 = ltb t0.usec t1.usec

unfoldable pub abs_time_gt : AbsTime → AbsTime → Bool
abs_time_gt t0 t1 = ltb t1.usec t0.usec

unfoldable pub abs_time_le : AbsTime → AbsTime → Bool
abs_time_le t0 t1 = leb t0.usec t1.usec

unfoldable pub abs_time_ge : AbsTime → AbsTime → Bool
abs_time_ge t0 t1 = leb t1.usec t0.usec

unfoldable pub abs_time_eq : AbsTime → AbsTime → Bool
abs_time_eq t0 t1 = t0.usec == t1.usec

unfoldable pub abs_time_ne : AbsTime → AbsTime → Bool
abs_time_ne t0 t1 = not (t0.usec == t1.usec)

-- ABS_TIME_0
abbrev pub abs_time_0 : AbsTime
abs_time_0 = record { usec = 0 }

-- IS_ABS_TIME_ZERO
unfoldable pub is_abs_time_zero : AbsTime → Bool
unfolding abs_time_eq
is_abs_time_zero t = abs_time_eq t abs_time_0
