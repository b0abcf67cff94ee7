-- ===== src/Time/Order.antt =====
-- vam_time.h: the comparisons of relative times are those of their values, and those of absolute
-- times agree with those of their difference.
use my_test_files.Prelude.{
  ℕ, ◌+◌, ◌^◌, ◌<◌, ◌≡◌, ◌≢◌, ◌↔◌, true, arith, not, refl, ap, inl, inr, Bool-cases, ==_iff, ltb,
  leb, ◌==◌,
}
use my_test_files.Prelude.Int.{◌≤ℤ◌, ◌<ℤ◌, signed64}
use my_test_files.Prelude.Word64.{slt64, sub64}
use my_test_files.Time.{
  AbsTime, abs_time_lt, abs_time_gt, abs_time_le, abs_time_ge, abs_time_eq, abs_time_ne,
}
use my_test_files.Time.Arith.{abs_minus_abs_time}
use my_test_files.Time.Relative.{
  RelTime, rel_time_lt, rel_time_gt, rel_time_le, rel_time_ge, rel_time_eq, rel_time_ne, rel_time_0,
}

slt64_iff : (a b : ℕ) → a < 2 ^ 64 → b < 2 ^ 64 → (slt64 a b ≡ true) ↔ (signed64 a <ℤ signed64 b)
slt64_iff a b ha hb = ground arith

sge64_iff :
    (a b : ℕ) → a < 2 ^ 64 → b < 2 ^ 64 → (not (slt64 a b) ≡ true) ↔ (signed64 b ≤ℤ signed64 a)
sge64_iff a b ha hb = ground arith

signed64-injective : (a b : ℕ) → a < 2 ^ 64 → b < 2 ^ 64 → signed64 a ≡ signed64 b → a ≡ b
signed64-injective a b ha hb e = ground (arith, e)

eq64_iff : (a b : ℕ) → a < 2 ^ 64 → b < 2 ^ 64 → ((a == b) ≡ true) ↔ (signed64 a ≡ signed64 b)
eq64_iff a b ha hb =
    ((λ e. rw ((==_iff a b).0 e) refl), (λ e. (==_iff a b).1 (signed64-injective a b ha hb e)))

ne64_iff : (a b : ℕ) → a < 2 ^ 64 → b < 2 ^ 64 → (not (a == b) ≡ true) ↔ (signed64 a ≢ signed64 b)
ne64_iff a b ha hb = (
  (λ e f. ground (arith, signed64-injective a b ha hb f)),
  (λ f. elim (Bool-cases (a == b)) [
    | inl e ↦ absurd (f ((eq64_iff a b ha hb).0 e))
    | inr e ↦ rw e refl
  ]),
)

-- The six comparisons of relative times are the order and the equality of the integers that their
-- 64-bit patterns stand for.
pub rel_time_cmp_lem :
    (t0 t1 : RelTime)
    → t0.usec < 2 ^ 64
    → t1.usec < 2 ^ 64
    → ((rel_time_lt t0 t1 ≡ true) ↔ (signed64 t0.usec <ℤ signed64 t1.usec))
      × ((rel_time_gt t0 t1 ≡ true) ↔ (signed64 t1.usec <ℤ signed64 t0.usec))
      × ((rel_time_le t0 t1 ≡ true) ↔ (signed64 t0.usec ≤ℤ signed64 t1.usec))
      × ((rel_time_ge t0 t1 ≡ true) ↔ (signed64 t1.usec ≤ℤ signed64 t0.usec))
      × ((rel_time_eq t0 t1 ≡ true) ↔ (signed64 t0.usec ≡ signed64 t1.usec))
      × ((rel_time_ne t0 t1 ≡ true) ↔ (signed64 t0.usec ≢ signed64 t1.usec))
unfolding rel_time_lt rel_time_gt rel_time_le rel_time_ge rel_time_eq rel_time_ne
rel_time_cmp_lem t0 t1 h0 h1 = (
  slt64_iff t0.usec t1.usec h0 h1,
  slt64_iff t1.usec t0.usec h1 h0,
  sge64_iff t1.usec t0.usec h1 h0,
  sge64_iff t0.usec t1.usec h0 h1,
  eq64_iff t0.usec t1.usec h0 h1,
  ne64_iff t0.usec t1.usec h0 h1,
)

slt64-sub64 :
    (a b : ℕ)
    → a < 2 ^ 64
    → b < 2 ^ 64
    → a < b + 2 ^ 63
    → b < a + 2 ^ 63
    → (slt64 (sub64 a b) 0 ≡ ltb a b)
      × (slt64 0 (sub64 a b) ≡ ltb b a)
      × (not (slt64 0 (sub64 a b)) ≡ leb a b)
      × (not (slt64 (sub64 a b) 0) ≡ leb b a)
      × ((sub64 a b == 0) ≡ (a == b))
slt64-sub64 a b ha hb h1 h2 = (ground arith, ground arith, ground arith, ground arith, ground arith)

-- The comparisons of two absolute times below 2 ^ 64 that are less than 2 ^ 63 microseconds apart
-- are the comparisons of their difference with relative time zero.
pub abs_time_cmp_lem :
    (t0 t1 : AbsTime)
    → t0.usec < 2 ^ 64
    → t1.usec < 2 ^ 64
    → t0.usec < t1.usec + 2 ^ 63
    → t1.usec < t0.usec + 2 ^ 63
    → (rel_time_lt (abs_minus_abs_time t0 t1) rel_time_0 ≡ abs_time_lt t0 t1)
      × (rel_time_gt (abs_minus_abs_time t0 t1) rel_time_0 ≡ abs_time_gt t0 t1)
      × (rel_time_le (abs_minus_abs_time t0 t1) rel_time_0 ≡ abs_time_le t0 t1)
      × (rel_time_ge (abs_minus_abs_time t0 t1) rel_time_0 ≡ abs_time_ge t0 t1)
      × (rel_time_eq (abs_minus_abs_time t0 t1) rel_time_0 ≡ abs_time_eq t0 t1)
      × (rel_time_ne (abs_minus_abs_time t0 t1) rel_time_0 ≡ abs_time_ne t0 t1)
unfolding rel_time_lt rel_time_gt rel_time_le rel_time_ge rel_time_eq rel_time_ne abs_time_lt
    abs_time_gt abs_time_le abs_time_ge abs_time_eq abs_time_ne abs_minus_abs_time
abs_time_cmp_lem t0 t1 h0 h1 near0 near1 =
    let (lt, gt, le, ge, eq) = slt64-sub64 t0.usec t1.usec h0 h1 near0 near1 in
    (lt, gt, le, ge, eq, ap not eq)
