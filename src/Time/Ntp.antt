-- ===== src/Time/Ntp.antt =====
-- vam_time.h: NTP time, seconds since 1900 and a binary fraction of a second. The source computes
-- the fraction with `double`. `lower * 15625 / 2 ^ 26` is exact there, since its product is below
-- 2 ^ 46. `tv_usec / 15625` is rounded to 53 bits: for `tv_usec` below 10 ^ 6 it is either whole or
-- 1/15625 or more away from every multiple of 2 ^ -26, in units of that multiple, which is more than
-- the error of the rounding, so that the conversion to `uint32_t` gives the whole part written here.
use my_test_files.Prelude.{ℕ, ◌*◌, ◌/◌, ◌%◌, ◌^◌}
use my_test_files.Prelude.Word.{add32, sub32}
use my_test_files.Time.{AbsTime, Timeval, timeval_to_abs_time, abs_time_to_timeval}

-- `ntp64_t`
pub record Ntp64 : Type 0 where
  pub upper : ℕ
  pub lower : ℕ

-- SYSTEM_EPOCH_TO_NTP_EPOCH
abbrev pub epoch_offset : ℕ
epoch_offset = 0x83AA7E80

-- for `tv_usec` below 10 ^ 6
unfoldable pub tod_to_ntp : Timeval → Ntp64
tod_to_ntp tod = record {
  upper = add32 (tod.tv_sec % 2 ^ 32) epoch_offset;
  lower = tod.tv_usec * 2 ^ 26 / 15625;
}

unfoldable pub ntp_to_tod : Ntp64 → Timeval
ntp_to_tod ntptime = record {
  tv_sec = sub32 ntptime.upper epoch_offset;
  tv_usec = ntptime.lower * 15625 / 2 ^ 26;
}

unfoldable pub ntp_to_abs_time : Ntp64 → AbsTime
ntp_to_abs_time ntp = timeval_to_abs_time (ntp_to_tod ntp)

unfoldable pub abs_time_to_ntp : AbsTime → Ntp64
abs_time_to_ntp t = tod_to_ntp (abs_time_to_timeval t)
