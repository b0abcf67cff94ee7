-- ===== src/Time/Arith.antt =====
-- vam_time.h: sums, differences, multiples, quotients and shifts of times. A shift by 64 or more,
-- which C leaves undefined, is `none`.
use my_test_files.Prelude.{ℕ, ◌^◌, ◌%◌, Option, none, some, ◌>>=◌, ltb, if◌then◌else◌}
use my_test_files.Prelude.Word64.{add64, sub64, mul64, neg64, sdiv64, extend, sar64}
use my_test_files.Time.{AbsTime}
use my_test_files.Time.Relative.{RelTime, rel_time_lt, rel_time_0}

unfoldable pub abs_plus_rel_time : AbsTime → RelTime → AbsTime
abs_plus_rel_time time offset = record { usec = add64 time.usec offset.usec }

unfoldable pub abs_minus_rel_time : AbsTime → RelTime → AbsTime
abs_minus_rel_time time offset = record { usec = sub64 time.usec offset.usec }

unfoldable pub abs_minus_abs_time : AbsTime → AbsTime → RelTime
abs_minus_abs_time t0 t1 = record { usec = sub64 t0.usec t1.usec }

unfoldable pub rel_plus_rel_time : RelTime → RelTime → RelTime
rel_plus_rel_time t0 t1 = record { usec = add64 t0.usec t1.usec }

unfoldable pub rel_minus_rel_time : RelTime → RelTime → RelTime
rel_minus_rel_time t0 t1 = record { usec = sub64 t0.usec t1.usec }

unfoldable pub rel_time_neg : RelTime → RelTime
rel_time_neg t = record { usec = neg64 t.usec }

-- TIME_ABS_R
unfoldable pub time_abs_r : RelTime → RelTime
unfolding rel_time_lt rel_time_neg
time_abs_r t = if rel_time_lt t rel_time_0 then rel_time_neg t else t

unfoldable pub rel_time_mult_int : RelTime → ℕ → RelTime
rel_time_mult_int t factor = record { usec = mul64 t.usec (extend factor) }

unfoldable pub rel_time_div_int : RelTime → ℕ → Option RelTime
rel_time_div_int t divisor = do q ← sdiv64 t.usec (extend divisor); some (record { usec = q })

-- The quotient is returned as an `int`.
unfoldable pub rel_div_rel_time : RelTime → RelTime → Option ℕ
rel_div_rel_time t0 t1 = do q ← sdiv64 t0.usec t1.usec; some (q % 2 ^ 32)

unfoldable pub rel_mod_rel_time : RelTime → RelTime → Option RelTime
rel_mod_rel_time t0 t1 = do
  q ← sdiv64 t0.usec t1.usec
  some (record { usec = sub64 t0.usec (mul64 q t1.usec) })

unfoldable pub rel_time_lshift : RelTime → ℕ → Option RelTime
rel_time_lshift t shift =
    if ltb shift 64 then some (record { usec = mul64 t.usec (2 ^ shift) }) else none

unfoldable pub rel_time_rshift : RelTime → ℕ → Option RelTime
rel_time_rshift t shift = if ltb shift 64 then some (record { usec = sar64 t.usec shift }) else none
