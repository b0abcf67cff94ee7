-- ===== src/Time/Relative.antt =====
-- vam_time.h: relative time, its conversions and comparisons.
use my_test_files.Prelude.{ℕ, ◌*◌, ◌/◌, ◌^◌, Bool, not, ◌==◌}
use my_test_files.Prelude.Word64.{add64, sub64, mul64, is_neg64, with_sign, magnitude, slt64, sar64}
use my_test_files.Time.{Timeval}

-- `rel_time_t`: a number of microseconds, an `int64_t`
pub record RelTime : Type 0 where
  pub usec : ℕ

-- `w / k` on `int64_t` by a positive constant
abbrev pub over : ℕ → ℕ → ℕ
over w k = with_sign (is_neg64 w) (magnitude w / k)

-- also SEC and SECS
unfoldable pub sec_to_rel_time : ℕ → RelTime
sec_to_rel_time sec = record { usec = mul64 1000000 sec }

-- also MSEC and MSECS
unfoldable pub msec_to_rel_time : ℕ → RelTime
msec_to_rel_time msec = record { usec = mul64 1000 msec }

-- also USEC and USECS
unfoldable pub usec_to_rel_time : ℕ → RelTime
usec_to_rel_time u = record { usec = u }

unfoldable pub nsec_to_rel_time : ℕ → RelTime
nsec_to_rel_time nsec = record { usec = over nsec 1000 }

-- PCR_TO_USEC_MULT
abbrev pub pcr_to_usec_mult : ℕ
pcr_to_usec_mult = 100 * 2 ^ 25 / 9

unfoldable pub pcr_to_rel_time : ℕ → RelTime
pcr_to_rel_time pcr = record { usec = sar64 (mul64 pcr pcr_to_usec_mult) 25 }

unfoldable pub timeval_to_rel_time : Timeval → RelTime
timeval_to_rel_time tv = record { usec = add64 (mul64 tv.tv_sec 1000000) tv.tv_usec }

unfoldable pub rel_time_to_sec : RelTime → ℕ
rel_time_to_sec t = over t.usec 1000000

unfoldable pub rel_time_to_msec : RelTime → ℕ
rel_time_to_msec t = over t.usec 1000

unfoldable pub rel_time_to_usec : RelTime → ℕ
rel_time_to_usec t = t.usec

unfoldable pub rel_time_to_nsec : RelTime → ℕ
rel_time_to_nsec t = mul64 t.usec 1000

-- USEC_TO_PCR_MULT, which is unsigned, and so makes the product and its shift unsigned
abbrev pub usec_to_pcr_mult : ℕ
usec_to_pcr_mult = 9 * 2 ^ 27 / 100

unfoldable pub rel_time_to_pcr : RelTime → ℕ
rel_time_to_pcr t = mul64 t.usec usec_to_pcr_mult / 2 ^ 27

unfoldable pub rel_time_to_timeval : RelTime → Timeval
rel_time_to_timeval t =
    let secs : ℕ = over t.usec 1000000 in
    record { tv_sec = secs; tv_usec = sub64 t.usec (mul64 secs 1000000) }

unfoldable pub rel_time_lt : RelTime → RelTime → Bool
rel_time_lt t0 t1 = slt64 t0.usec t1.usec

unfoldable pub rel_time_gt : RelTime → RelTime → Bool
rel_time_gt t0 t1 = slt64 t1.usec t0.usec

unfoldable pub rel_time_le : RelTime → RelTime → Bool
rel_time_le t0 t1 = not (slt64 t1.usec t0.usec)

unfoldable pub rel_time_ge : RelTime → RelTime → Bool
rel_time_ge t0 t1 = not (slt64 t0.usec t1.usec)

unfoldable pub rel_time_eq : RelTime → RelTime → Bool
rel_time_eq t0 t1 = t0.usec == t1.usec

unfoldable pub rel_time_ne : RelTime → RelTime → Bool
rel_time_ne t0 t1 = not (t0.usec == t1.usec)

-- REL_TIME_0
abbrev pub rel_time_0 : RelTime
rel_time_0 = record { usec = 0 }
