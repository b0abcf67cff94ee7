-- ===== src/Time/Sums.antt =====
-- vam_time.h: sums and differences of times.
use my_test_files.Prelude.{ℕ, ◌-◌, ◌^◌, ◌<◌, ◌≡◌, ◌≢◌, arith}
use my_test_files.Prelude.Int.{ℤ, pos, negsuc, ◌+ℤ◌, ◌-ℤ◌, ◌≤ℤ◌, signed64}
use my_test_files.Prelude.Word64.{add64, sub64, magnitude}
use my_test_files.Time.{AbsTime, AbsTime-ext}
use my_test_files.Time.Arith.{
  abs_plus_rel_time, abs_minus_rel_time, abs_minus_abs_time, rel_plus_rel_time, rel_minus_rel_time,
  rel_time_neg, time_abs_r,
}
use my_test_files.Time.Relative.{RelTime, rel_time_lt}

pub RelTime-ext : (a b : RelTime) → a.usec ≡ b.usec → a ≡ b
RelTime-ext a b e i = record { usec = e i }

-- For times below 2 ^ 64, whether or not they overflow: to add a relative time and to subtract it
-- again gives the absolute time back, in either order; a time plus the difference from it to
-- another is the other, and the difference of a sum and its time is what was added. To subtract a
-- relative time is to add its negation.
pub plus-minus :
    (t t' : AbsTime) (d : RelTime)
    → t.usec < 2 ^ 64
    → t'.usec < 2 ^ 64
    → d.usec < 2 ^ 64
    → (abs_minus_rel_time (abs_plus_rel_time t d) d ≡ t)
      × (abs_plus_rel_time (abs_minus_rel_time t d) d ≡ t)
      × (abs_plus_rel_time t (abs_minus_abs_time t' t) ≡ t')
      × (abs_minus_abs_time (abs_plus_rel_time t d) t ≡ d)
      × (abs_plus_rel_time t (rel_time_neg d) ≡ abs_minus_rel_time t d)
unfolding abs_plus_rel_time abs_minus_rel_time abs_minus_abs_time rel_time_neg
plus-minus t t' d h h' hd = (
  AbsTime-ext _ _ (omega arith),
  AbsTime-ext _ _ (omega arith),
  AbsTime-ext _ _ (omega arith),
  RelTime-ext _ _ (omega arith),
  AbsTime-ext _ _ (omega arith),
)

-- an integer that an `int64_t` holds
abbrev pub Fits : ℤ → Type 0
Fits z = (negsuc (2 ^ 63 - 1) ≤ℤ z) × (z ≤ℤ pos (2 ^ 63 - 1))

signed64-add64 :
    (a b : ℕ)
    → a < 2 ^ 64
    → b < 2 ^ 64
    → Fits (signed64 a +ℤ signed64 b)
    → signed64 (add64 a b) ≡ signed64 a +ℤ signed64 b
signed64-add64 a b ha hb (lo, hi) = ground arith

signed64-sub64 :
    (a b : ℕ)
    → a < 2 ^ 64
    → b < 2 ^ 64
    → Fits (signed64 a -ℤ signed64 b)
    → signed64 (sub64 a b) ≡ signed64 a -ℤ signed64 b
signed64-sub64 a b ha hb (lo, hi) = ground arith

-- The sum and the difference of two relative times stand for the sum and the difference of their
-- integers, where those fit an `int64_t`.
pub rel_plus-rel_minus :
    (t0 t1 : RelTime)
    → t0.usec < 2 ^ 64
    → t1.usec < 2 ^ 64
    → (Fits (signed64 t0.usec +ℤ signed64 t1.usec)
        → signed64 (rel_plus_rel_time t0 t1).usec ≡ signed64 t0.usec +ℤ signed64 t1.usec)
      × (Fits (signed64 t0.usec -ℤ signed64 t1.usec)
          → signed64 (rel_minus_rel_time t0 t1).usec ≡ signed64 t0.usec -ℤ signed64 t1.usec)
unfolding rel_plus_rel_time rel_minus_rel_time
rel_plus-rel_minus t0 t1 h0 h1 =
    (signed64-add64 t0.usec t1.usec h0 h1, signed64-sub64 t0.usec t1.usec h0 h1)

-- The negation of a relative time other than the least one stands for the opposite integer, and its
-- absolute value for a number that is not negative, its magnitude. The least one is its own
-- negation and its own absolute value.
pub neg-abs :
    (t : RelTime)
    → t.usec < 2 ^ 64
    → (t.usec ≢ 2 ^ 63
        → (signed64 (rel_time_neg t).usec ≡ pos 0 -ℤ signed64 t.usec)
          × (signed64 (time_abs_r t).usec ≡ pos (magnitude t.usec)))
      × (t.usec ≡ 2 ^ 63 → (rel_time_neg t ≡ t) × (time_abs_r t ≡ t))
unfolding rel_time_neg time_abs_r rel_time_lt
neg-abs t h = (
  (λ n. (ground arith, ground arith)),
  (λ e. (RelTime-ext _ _ (ground arith), RelTime-ext _ _ (ground arith))),
)
