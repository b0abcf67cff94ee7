-- ===== src/Time/Convert.antt =====
-- vam_time.h: what the conversions of absolute time give back.
use my_test_files.Prelude.{ℕ, ◌+◌, ◌*◌, ◌^◌, ◌≤◌, ◌<◌, ◌≡◌, arith}
use my_test_files.Time.{
  AbsTime, Timeval, AbsTime-ext, Timeval-ext, sec_to_abs_time, msec_to_abs_time, nsec_to_abs_time,
  timeval_to_abs_time, abs_time_to_sec, abs_time_to_msec, abs_time_to_nsec, abs_time_to_timeval,
}

-- The `struct timeval` of an absolute time below 2 ^ 64 has less than 10 ^ 6 microseconds, and
-- gives the time back.
pub timeval_to_abs_time-timeval :
    (t : AbsTime)
    → t.usec < 2 ^ 64
    → ((abs_time_to_timeval t).tv_usec < 1000000)
      × (timeval_to_abs_time (abs_time_to_timeval t) ≡ t)
unfolding timeval_to_abs_time abs_time_to_timeval
timeval_to_abs_time-timeval t h = (omega (arith, h), AbsTime-ext _ _ (omega (arith, h)))

-- A `struct timeval` with less than 10 ^ 6 microseconds, and seconds that do not overflow, is what
-- its absolute time gives back.
pub abs_time_to_timeval-abs_time :
    (tv : Timeval)
    → tv.tv_usec < 1000000
    → tv.tv_sec * 1000000 + tv.tv_usec < 2 ^ 64
    → abs_time_to_timeval (timeval_to_abs_time tv) ≡ tv
unfolding timeval_to_abs_time abs_time_to_timeval
abs_time_to_timeval-abs_time tv hu hs = Timeval-ext _ _ (omega arith) (omega arith)

-- A number of seconds or milliseconds that does not overflow comes back from its absolute time. An
-- absolute time comes back from its nanoseconds when those do not overflow, and a number of
-- nanoseconds below 2 ^ 64 comes back rounded down to a multiple of 1000.
pub abs_time-units :
    (n : ℕ)
    → (n * 1000000 < 2 ^ 64 → abs_time_to_sec (sec_to_abs_time n) ≡ n)
      × (n * 1000 < 2 ^ 64 → abs_time_to_msec (msec_to_abs_time n) ≡ n)
      × (n < 2 ^ 64
          → (abs_time_to_nsec (nsec_to_abs_time n) ≤ n)
            × (n < abs_time_to_nsec (nsec_to_abs_time n) + 1000))
      × ((t : AbsTime) → t.usec * 1000 < 2 ^ 64 → nsec_to_abs_time (abs_time_to_nsec t) ≡ t)
unfolding sec_to_abs_time msec_to_abs_time nsec_to_abs_time abs_time_to_sec abs_time_to_msec
    abs_time_to_nsec
abs_time-units n = (
  (λ h. omega (arith, h)),
  (λ h. omega (arith, h)),
  (λ h. (omega (arith, h), omega (arith, h))),
  (λ t h. AbsTime-ext _ _ (omega (arith, h))),
)
