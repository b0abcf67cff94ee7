-- ===== src/Time/Ticks.antt =====
-- vam_time.h: the conversions between 90 kHz ticks and microseconds, and those with NTP time.
use my_test_files.Prelude.{ℕ, ◌+◌, ◌*◌, ◌^◌, ◌≤◌, ◌<◌, ◌≡◌, arith}
use my_test_files.Time.{AbsTime, Timeval, abs_time_to_timeval, timeval_to_abs_time}
use my_test_files.Time.Ntp.{tod_to_ntp, ntp_to_tod, ntp_to_abs_time, abs_time_to_ntp}
use my_test_files.Time.Relative.{RelTime, pcr_to_rel_time, rel_time_to_pcr}

-- For up to 2 ^ 34 ticks nothing overflows: the time is at most the exact `pcr * 100 / 9`
-- microseconds, and less than it by at most one microsecond and a part in 50 * 2 ^ 25.
pub pcr_to_rel_time_lem :
    (pcr : ℕ)
    → pcr ≤ 2 ^ 34
    → ((pcr_to_rel_time pcr).usec * 9 ≤ pcr * 100)
      × (pcr * 100 * 2 ^ 25 ≤ ((pcr_to_rel_time pcr).usec + 1) * 9 * 2 ^ 25 + pcr * 2)
unfolding pcr_to_rel_time
pcr_to_rel_time_lem pcr h = (ground arith, ground arith)

-- Ticks that were converted to microseconds, for up to 2 ^ 18 ticks, come back as the same number
-- or one less.
pub rel_time_to_pcr-pcr :
    (pcr : ℕ)
    → pcr ≤ 2 ^ 18
    → (rel_time_to_pcr (pcr_to_rel_time pcr) ≤ pcr)
      × (pcr ≤ rel_time_to_pcr (pcr_to_rel_time pcr) + 1)
unfolding pcr_to_rel_time rel_time_to_pcr
rel_time_to_pcr-pcr pcr h = (ground arith, ground arith)

-- The ticks of a time are less than 2 ^ 37 whatever the time is, so that they are never a negative
-- `int64_t`, not even for a negative time, and those of -k microseconds, for `k` from 1 to
-- 2 ^ 20, are more than 10 ^ 11.
pub rel_time_to_pcr_bound :
    (t : RelTime)
    → (rel_time_to_pcr t < 2 ^ 37)
      × ((k : ℕ) → 1 ≤ k → k ≤ 2 ^ 20 → t.usec + k ≡ 2 ^ 64 → 10 ^ 11 < rel_time_to_pcr t)
unfolding rel_time_to_pcr
rel_time_to_pcr_bound t = (omega arith, (λ k lo hi e. omega (arith, e)))

ntp_to_tod-tod :
    (tod : Timeval)
    → tod.tv_usec < 1000000
    → tod.tv_sec < 2 ^ 32
    → ((ntp_to_tod (tod_to_ntp tod)).tv_sec ≡ tod.tv_sec)
      × ((ntp_to_tod (tod_to_ntp tod)).tv_usec ≤ tod.tv_usec)
      × (tod.tv_usec ≤ (ntp_to_tod (tod_to_ntp tod)).tv_usec + 1)
unfolding tod_to_ntp ntp_to_tod
ntp_to_tod-tod tod hu hs = (omega arith, omega arith, omega arith)

-- An absolute time of less than 2 ^ 32 seconds that was converted to NTP time comes back as the same
-- time or one microsecond less.
pub ntp_to_abs_time-ntp :
    (t : AbsTime)
    → t.usec < 2 ^ 32 * 1000000
    → ((ntp_to_abs_time (abs_time_to_ntp t)).usec ≤ t.usec)
      × (t.usec ≤ (ntp_to_abs_time (abs_time_to_ntp t)).usec + 1)
unfolding ntp_to_abs_time abs_time_to_ntp abs_time_to_timeval timeval_to_abs_time
ntp_to_abs_time-ntp t h =
    let (sec, lo, hi) = ntp_to_tod-tod (abs_time_to_timeval t) (omega arith) (omega arith) in
    (omega (arith, sec, lo, hi), omega (arith, sec, lo, hi))
