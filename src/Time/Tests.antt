-- ===== src/Time/Tests.antt =====
-- Times at concrete inputs.
use my_test_files.Prelude.{
  ℕ, ◌+◌, ◌-◌, ◌*◌, ◌%◌, ◌≤◌, ◌<◌, ◌^◌, ◌≡◌, ◌≢◌, ◌↔◌, ◌⊎◌, refl, arith, true, some,
}
use my_test_files.Prelude.Int.{pos, ◌+ℤ◌, ◌-ℤ◌, ◌≤ℤ◌, ◌<ℤ◌, signed64}
use my_test_files.Prelude.Word64.{is_neg64, magnitude, differ}
use my_test_files.Time.{
  AbsTime, Timeval, sec_to_abs_time, msec_to_abs_time, nsec_to_abs_time, timeval_to_abs_time,
  abs_time_to_sec, abs_time_to_msec, abs_time_to_nsec, abs_time_to_timeval,
}
use my_test_files.Time.Arith.{
  abs_plus_rel_time, abs_minus_rel_time, abs_minus_abs_time, rel_plus_rel_time, rel_minus_rel_time,
  rel_time_neg, time_abs_r, rel_time_mult_int, rel_time_div_int, rel_div_rel_time, rel_mod_rel_time,
}
use my_test_files.Time.Convert.{
  timeval_to_abs_time-timeval, abs_time_to_timeval-abs_time, abs_time-units,
}
use my_test_files.Time.Ntp.{ntp_to_abs_time, abs_time_to_ntp}
use my_test_files.Time.Order.{rel_time_cmp_lem}
use my_test_files.Time.Quotients.{rel_div-rel_mod}
use my_test_files.Time.Relative.{
  RelTime, pcr_to_rel_time, rel_time_to_pcr, rel_time_lt, rel_time_gt, rel_time_le, rel_time_ge,
  rel_time_eq, rel_time_ne, rel_time_to_sec,
}
use my_test_files.Time.Scale.{rel_time_div_int-mult_int}
use my_test_files.Time.Sums.{Fits, plus-minus, rel_plus-rel_minus, neg-abs}
use my_test_files.Time.Ticks.{
  pcr_to_rel_time_lem, rel_time_to_pcr-pcr, rel_time_to_pcr_bound, ntp_to_abs_time-ntp,
}

-- a day in 2014, and a second later
abbrev now : AbsTime
now = record { usec = 1400000000250000 }

abbrev later : AbsTime
later = record { usec = 1400000001250000 }

abbrev second : RelTime
second = record { usec = 1000000 }

-- -2.5 seconds
abbrev back : RelTime
back = record { usec = 2 ^ 64 - 2500000 }

abbrev day : Timeval
day = record { tv_sec = 1400000000; tv_usec = 250000 }

-- -2.5 seconds are -2 seconds, and -225001 ticks read as an unsigned number
back-sec : rel_time_to_sec back ≡ 2 ^ 64 - 2
unfolding rel_time_to_sec
back-sec = refl

back-pcr : rel_time_to_pcr back ≡ 2 ^ 37 - 225000
unfolding rel_time_to_pcr
back-pcr = refl

timeval_to_abs_time-timeval_example :
    ((abs_time_to_timeval now).tv_usec < 1000000)
    × (timeval_to_abs_time (abs_time_to_timeval now) ≡ now)
timeval_to_abs_time-timeval_example = timeval_to_abs_time-timeval now (omega arith)

abs_time_to_timeval-abs_time_example : abs_time_to_timeval (timeval_to_abs_time day) ≡ day
abs_time_to_timeval-abs_time_example = abs_time_to_timeval-abs_time day (omega arith) (omega arith)

abs_time-units_example :
    (1400000001 * 1000000 < 2 ^ 64 → abs_time_to_sec (sec_to_abs_time 1400000001) ≡ 1400000001)
    × (1400000001 * 1000 < 2 ^ 64 → abs_time_to_msec (msec_to_abs_time 1400000001) ≡ 1400000001)
    × (1400000001 < 2 ^ 64
        → (abs_time_to_nsec (nsec_to_abs_time 1400000001) ≤ 1400000001)
          × (1400000001 < abs_time_to_nsec (nsec_to_abs_time 1400000001) + 1000))
    × ((t : AbsTime) → t.usec * 1000 < 2 ^ 64 → nsec_to_abs_time (abs_time_to_nsec t) ≡ t)
abs_time-units_example = abs_time-units 1400000001

rel_time_cmp_lem_example :
    ((rel_time_lt back second ≡ true) ↔ (signed64 back.usec <ℤ signed64 second.usec))
    × ((rel_time_gt back second ≡ true) ↔ (signed64 second.usec <ℤ signed64 back.usec))
    × ((rel_time_le back second ≡ true) ↔ (signed64 back.usec ≤ℤ signed64 second.usec))
    × ((rel_time_ge back second ≡ true) ↔ (signed64 second.usec ≤ℤ signed64 back.usec))
    × ((rel_time_eq back second ≡ true) ↔ (signed64 back.usec ≡ signed64 second.usec))
    × ((rel_time_ne back second ≡ true) ↔ (signed64 back.usec ≢ signed64 second.usec))
rel_time_cmp_lem_example = rel_time_cmp_lem back second (omega arith) (omega arith)

plus-minus_example :
    (abs_minus_rel_time (abs_plus_rel_time now back) back ≡ now)
    × (abs_plus_rel_time (abs_minus_rel_time now back) back ≡ now)
    × (abs_plus_rel_time now (abs_minus_abs_time later now) ≡ later)
    × (abs_minus_abs_time (abs_plus_rel_time now back) now ≡ back)
    × (abs_plus_rel_time now (rel_time_neg back) ≡ abs_minus_rel_time now back)
plus-minus_example = plus-minus now later back (omega arith) (omega arith) (omega arith)

rel_plus-rel_minus_example :
    (Fits (signed64 back.usec +ℤ signed64 second.usec)
      → signed64 (rel_plus_rel_time back second).usec ≡ signed64 back.usec +ℤ signed64 second.usec)
    × (Fits (signed64 back.usec -ℤ signed64 second.usec)
        → signed64 (rel_minus_rel_time back second).usec
          ≡ signed64 back.usec -ℤ signed64 second.usec)
rel_plus-rel_minus_example = rel_plus-rel_minus back second (omega arith) (omega arith)

neg-abs_example :
    (back.usec ≢ 2 ^ 63
      → (signed64 (rel_time_neg back).usec ≡ pos 0 -ℤ signed64 back.usec)
        × (signed64 (time_abs_r back).usec ≡ pos (magnitude back.usec)))
    × (back.usec ≡ 2 ^ 63 → (rel_time_neg back ≡ back) × (time_abs_r back ≡ back))
neg-abs_example = neg-abs back (omega arith)

pcr_to_rel_time_lem_example :
    ((pcr_to_rel_time 90000).usec * 9 ≤ 90000 * 100)
    × (90000 * 100 * 2 ^ 25 ≤ ((pcr_to_rel_time 90000).usec + 1) * 9 * 2 ^ 25 + 90000 * 2)
pcr_to_rel_time_lem_example = pcr_to_rel_time_lem 90000 (omega arith)

rel_time_to_pcr-pcr_example :
    (rel_time_to_pcr (pcr_to_rel_time 90000) ≤ 90000)
    × (90000 ≤ rel_time_to_pcr (pcr_to_rel_time 90000) + 1)
rel_time_to_pcr-pcr_example = rel_time_to_pcr-pcr 90000 (omega arith)

rel_time_to_pcr_bound_example :
    (rel_time_to_pcr back < 2 ^ 37)
    × ((k : ℕ) → 1 ≤ k → k ≤ 2 ^ 20 → back.usec + k ≡ 2 ^ 64 → 10 ^ 11 < rel_time_to_pcr back)
rel_time_to_pcr_bound_example = rel_time_to_pcr_bound back

ntp_to_abs_time-ntp_example :
    ((ntp_to_abs_time (abs_time_to_ntp now)).usec ≤ now.usec)
    × (now.usec ≤ (ntp_to_abs_time (abs_time_to_ntp now)).usec + 1)
ntp_to_abs_time-ntp_example = ntp_to_abs_time-ntp now (omega arith)

rel_div-rel_mod_example :
    (q : ℕ) × (r : RelTime) × (rel_div_rel_time back second ≡ some (q % 2 ^ 32))
    × (rel_mod_rel_time back second ≡ some r)
    × (magnitude q * magnitude second.usec + magnitude r.usec ≡ magnitude back.usec)
    × (magnitude r.usec < magnitude second.usec)
    × ((r.usec ≡ 0) ⊎ (is_neg64 r.usec ≡ is_neg64 back.usec))
    × ((q ≡ 0) ⊎ (is_neg64 q ≡ differ (is_neg64 back.usec) (is_neg64 second.usec)))
rel_div-rel_mod_example =
    rel_div-rel_mod back second (omega arith) (omega arith) (omega arith)
      (λ e. absurd (omega (arith, e)))

rel_time_div_int-mult_int_example :
    (magnitude (rel_time_mult_int back 3).usec ≡ magnitude back.usec * 3)
    × (rel_time_div_int (rel_time_mult_int back 3) 3 ≡ some back)
rel_time_div_int-mult_int_example =
    rel_time_div_int-mult_int back 3 (omega arith) (omega arith) (omega arith) (omega arith)
