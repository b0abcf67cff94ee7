-- ===== src/Time/Scale.antt =====
-- vam_time.h: multiples, shifts and units of relative times.
use my_test_files.Prelude.{
  ℕ, zero, suc, ◌+◌, ◌-◌, ◌*◌, ◌/◌, ◌^◌, ◌≤◌, ◌<◌, ◌≡◌, refl, arith, Bool, true, false, ap, some,
  if◌then◌else◌, lt→ltb,
}
use native.Mathlib.Nat.{mul-div_cancel, add-mul-div_right, div-eq_of_lt, one-le-pow, zero-div}
use my_test_files.Prelude.Bits.{two_pow-lt}
use my_test_files.Prelude.Word64.{
  mul64, neg64, is_neg64, magnitude, with_sign, differ, extend, sar64,
}
use my_test_files.Time.Arith.{rel_time_div_int, rel_time_mult_int, rel_time_lshift, rel_time_rshift}
use my_test_files.Time.Quotients.{
  quotient, mul64-with_sign, mul64_comm, with_sign-magnitude, magnitude-with_sign, sdiv64-some,
}
use my_test_files.Time.Relative.{
  RelTime, over, sec_to_rel_time, msec_to_rel_time, nsec_to_rel_time, rel_time_to_sec,
  rel_time_to_msec, rel_time_to_nsec, rel_time_to_timeval, timeval_to_rel_time,
}
use my_test_files.Time.Sums.{RelTime-ext}

scaled :
    (s : Bool) (m k : ℕ)
    → k < 2 ^ 63
    → m * k < 2 ^ 63
    → m < 2 ^ 64
    → mul64 (with_sign s m) k ≡ with_sign s (m * k)
scaled true m k hk fits hm =
    let product : mul64 m k ≡ m * k = omega (arith, fits) in
    rw (mul64-with_sign true false m k hm (omega (arith, hk))) (rw product refl)
scaled false m k hk fits hm = omega (arith, fits)

sign-scaled :
    (s : Bool) (m k : ℕ)
    → 0 < k
    → m * k < 2 ^ 63
    → with_sign (is_neg64 (with_sign s (m * k))) m ≡ with_sign s m
sign-scaled false m k pos fits = ground (arith, fits)
sign-scaled true zero k pos fits = ground arith
sign-scaled true (suc m) k pos fits =
    let le : 1 ≤ suc m * k = grind arith in ground (arith, fits, le)

mul64-signed :
    (a k : ℕ)
    → a < 2 ^ 64
    → k < 2 ^ 63
    → magnitude a * k < 2 ^ 63
    → mul64 a k ≡ with_sign (is_neg64 a) (magnitude a * k)
mul64-signed a k ha hk fits =
    rw (with_sign-magnitude a ha) at (scaled (is_neg64 a) (magnitude a) k hk fits (ground arith))

magnitude-mul64 :
    (a k : ℕ)
    → a < 2 ^ 64
    → k < 2 ^ 63
    → magnitude a * k < 2 ^ 63
    → magnitude (mul64 a k) ≡ magnitude a * k
magnitude-mul64 a k ha hk fits = rw (mul64-signed a k ha hk fits) (
    magnitude-with_sign (is_neg64 a) (magnitude a * k) (omega (arith, fits))
      (λ e. absurd (omega (arith, e, fits))))

over-mul64 :
    (a k : ℕ) → a < 2 ^ 64 → 0 < k → k < 2 ^ 63 → magnitude a * k < 2 ^ 63 → over (mul64 a k) k ≡ a
over-mul64 a k ha pos hk fits = rw (magnitude-mul64 a k ha hk fits) (
    rw (mul-div_cancel (magnitude a) pos) (
      rw (mul64-signed a k ha hk fits)
        (rw (sign-scaled (is_neg64 a) (magnitude a) k pos fits) (with_sign-magnitude a ha))))

differ-false : (s : Bool) → differ s false ≡ s
differ-false true = refl
differ-false false = refl

quotient-positive : (a k : ℕ) → k < 2 ^ 63 → quotient a k ≡ over a k
quotient-positive a k hk =
    let s : is_neg64 k ≡ false = ground arith in
    let m : magnitude k ≡ k = ground arith in rw m (rw s (rw (differ-false (is_neg64 a)) refl))

-- A relative time below 2 ^ 64 times a positive `int`, whose product fits an `int64_t`, has the
-- product of the magnitudes as its magnitude, and divided by the `int` gives the time back.
pub rel_time_div_int-mult_int :
    (t : RelTime) (k : ℕ)
    → t.usec < 2 ^ 64
    → 0 < k
    → k < 2 ^ 31
    → magnitude t.usec * k < 2 ^ 63
    → (magnitude (rel_time_mult_int t k).usec ≡ magnitude t.usec * k)
      × (rel_time_div_int (rel_time_mult_int t k) k ≡ some t)
unfolding rel_time_mult_int rel_time_div_int
rel_time_div_int-mult_int t k h pos hk fits =
    let same : extend k ≡ k = ground arith in
    let back = over-mul64 t.usec k h pos (omega arith) fits in
    rw same (
      magnitude-mul64 t.usec k h (omega arith) fits,
      rw (sdiv64-some (mul64 t.usec k) k (omega (arith, pos)) (λ e f. omega (arith, f))) (
          rw (quotient-positive (mul64 t.usec k) k (omega arith)) (ap some (RelTime-ext _ _ back))),
    )

-- A number of seconds, milliseconds or microseconds, negative ones included, that fits an
-- `int64_t` as microseconds, or as nanoseconds, comes back from its relative time. Every relative
-- time below 2 ^ 64 comes back from its `struct timeval`, which has less than 10 ^ 6 microseconds
-- when the time is not negative.
pub rel_time-units :
    (n : ℕ) (t : RelTime)
    → n < 2 ^ 64
    → t.usec < 2 ^ 64
    → (magnitude n * 1000000 < 2 ^ 63 → rel_time_to_sec (sec_to_rel_time n) ≡ n)
      × (magnitude n * 1000 < 2 ^ 63 → rel_time_to_msec (msec_to_rel_time n) ≡ n)
      × (magnitude t.usec * 1000 < 2 ^ 63 → nsec_to_rel_time (rel_time_to_nsec t) ≡ t)
      × (timeval_to_rel_time (rel_time_to_timeval t) ≡ t)
      × (t.usec < 2 ^ 63 → (rel_time_to_timeval t).tv_usec < 1000000)
unfolding sec_to_rel_time msec_to_rel_time nsec_to_rel_time rel_time_to_sec rel_time_to_msec
    rel_time_to_nsec rel_time_to_timeval timeval_to_rel_time
rel_time-units n t h ht = (
  (λ fits. rw (mul64_comm 1000000 n) (over-mul64 n 1000000 h (omega arith) (omega arith) fits)),
  (λ fits. rw (mul64_comm 1000 n) (over-mul64 n 1000 h (omega arith) (omega arith) fits)),
  (λ fits. RelTime-ext _ _ (over-mul64 t.usec 1000 ht (omega arith) (omega arith) fits)),
  RelTime-ext _ _ (omega arith),
  (λ small. ground (arith, small)),
)

-- `w` divided by `b`, rounded down, which for a power of two is a shift to the right
abbrev floor_div : ℕ → ℕ → ℕ
floor_div w b = if is_neg64 w then 2 ^ 64 - 1 - (2 ^ 64 - 1 - w) / b else w / b

pred-div : (m b : ℕ) → 0 < b → (suc m * b - 1) / b ≡ m
pred-div m zero pos = elim pos [ ]
pred-div m (suc b) pos =
    let e : suc m * suc b - 1 ≡ b + m * suc b = grind arith in
    let small : b / suc b ≡ 0 = div-eq_of_lt (omega arith) in
    rw e (rw (add-mul-div_right b m pos) (rw small (omega arith)))

floor_div-scaled :
    (s : Bool) (m b : ℕ)
    → 0 < b
    → m * b < 2 ^ 63
    → floor_div (with_sign s (m * b)) b ≡ with_sign s m
floor_div-scaled false m b pos fits = let back = mul-div_cancel m pos in ground (arith, fits, back)
floor_div-scaled true zero b pos fits =
    let empty : 0 * b ≡ 0 = omega arith in
    let still : 0 / b ≡ 0 = zero-div b in rw empty (rw still refl)
floor_div-scaled true (suc m) b pos fits =
    let le : 1 ≤ suc m * b = grind arith in
    let neg : is_neg64 (neg64 (suc m * b)) ≡ true = ground (arith, fits, le) in
    let low : 2 ^ 64 - 1 - neg64 (suc m * b) ≡ suc m * b - 1 = omega (arith, fits, le) in
    let le' : m ≤ m * b = grind arith in
    rw neg (rw low (rw (pred-div m b pos) (omega (arith, fits, le'))))

-- A relative time below 2 ^ 64 that is shifted to the left by less than 64 bits, and fits an
-- `int64_t` after that, comes back when it is shifted to the right by as many.
pub rel_time_rshift-lshift :
    (t : RelTime) (k : ℕ)
    → t.usec < 2 ^ 64
    → k < 63
    → magnitude t.usec * 2 ^ k < 2 ^ 63
    → (u : RelTime) × (rel_time_lshift t k ≡ some u) × (rel_time_rshift u k ≡ some t)
unfolding rel_time_lshift rel_time_rshift
rel_time_rshift-lshift t k h hk fits =
    let small : 2 ^ k < 2 ^ 63 = two_pow-lt k 63 hk in
    let back : sar64 (mul64 t.usec (2 ^ k)) k ≡ t.usec =
      rw (mul64-signed t.usec (2 ^ k) h small fits) (
        rw
          (floor_div-scaled (is_neg64 t.usec) (magnitude t.usec) (2 ^ k)
            (one-le-pow k 2 (omega arith)) fits)
          (with_sign-magnitude t.usec h)) in
    (
      record { usec = mul64 t.usec (2 ^ k) },
      rw (lt→ltb k 64 (omega arith)) refl,
      rw (lt→ltb k 64 (omega arith)) (ap some (RelTime-ext _ _ back)),
    )
