-- ===== src/Time/Quotients.antt =====
-- vam_time.h: quotients and remainders of relative times.
use my_test_files.Prelude.{
  ap, ◌⊎◌, ℕ, zero, suc, ◌+◌, ◌-◌, ◌*◌, ◌/◌, ◌%◌, ◌^◌, ◌≤◌, ◌<◌, ◌≡◌, ◌≢◌, sym, refl, arith, Bool,
  true, false, some, Bool-cases, inl, inr, ◌==◌, ◌&&◌, ◌||◌,
}
use native.Mathlib.Nat.{div-add-mod'}
use my_test_files.Prelude.Word64.{
  sub64, mul64, neg64, is_neg64, magnitude, with_sign, differ, sdiv64,
}
use my_test_files.Time.Arith.{rel_div_rel_time, rel_mod_rel_time}
use my_test_files.Time.Relative.{RelTime}
use my_test_files.Time.Sums.{RelTime-ext}

sum-times : (n x y w : ℕ) → n + x ≡ w → n * y + x * y ≡ w * y
sum-times n x y w h = rw (sym h) (grind arith)

mul64-neg : (x y : ℕ) → x < 2 ^ 64 → mul64 (neg64 x) y ≡ neg64 (mul64 x y)
mul64-neg zero y h = omega arith
mul64-neg (suc x) y h =
    let same : neg64 (suc x) ≡ 2 ^ 64 - suc x = omega arith in
    rw same (omega (arith, sum-times (2 ^ 64 - suc x) (suc x) y (2 ^ 64) (omega arith)))

pub mul64_comm : (x y : ℕ) → mul64 x y ≡ mul64 y x
mul64_comm x y = grind arith

pub mul64-with_sign :
    (s t : Bool) (x y : ℕ)
    → x < 2 ^ 64
    → y < 2 ^ 64
    → mul64 (with_sign s x) (with_sign t y) ≡ with_sign (differ s t) (mul64 x y)
mul64-with_sign false false x y hx hy = refl
mul64-with_sign true false x y hx hy = mul64-neg x y hx
mul64-with_sign false true x y hx hy =
    rw (mul64_comm x (neg64 y)) (rw (mul64_comm x y) (mul64-neg y x hy))
mul64-with_sign true true x y hx hy =
    rw (mul64-neg x (neg64 y) hx)
      (rw (mul64_comm x (neg64 y)) (rw (mul64-neg y x hy) (rw (mul64_comm y x) (omega arith))))

pub with_sign-magnitude : (a : ℕ) → a < 2 ^ 64 → with_sign (is_neg64 a) (magnitude a) ≡ a
with_sign-magnitude a h = ground arith

sub64-with_sign :
    (s : Bool) (x y : ℕ)
    → y ≤ x
    → x < 2 ^ 64
    → sub64 (with_sign s x) (with_sign s y) ≡ with_sign s (x - y)
sub64-with_sign true x y le h = omega arith
sub64-with_sign false x y le h = omega arith

differ-differ : (s t : Bool) → differ (differ s t) t ≡ s
differ-differ true true = refl
differ-differ true false = refl
differ-differ false true = refl
differ-differ false false = refl

div-mod : (a b : ℕ) → b ≢ 0 → (a / b * b + a % b ≡ a) × (a % b < b) × (a / b ≤ a)
div-mod a zero h = absurd (h refl)
div-mod a (suc b) h =
    let e : a / suc b * suc b + a % suc b ≡ a = div-add-mod' a (suc b) in
    (e, grind arith, grind (arith, e))

sub64-product :
    (s t : Bool) (a b : ℕ)
    → a < 2 ^ 64
    → b < 2 ^ 64
    → b ≢ 0
    → sub64 (with_sign s a) (mul64 (with_sign (differ s t) (a / b)) (with_sign t b))
      ≡ with_sign s (a % b)
sub64-product s t a b ha hb nz =
    let (e, lt, le) = div-mod a b nz in
    let product : mul64 (a / b) b ≡ a / b * b = omega (arith, e) in
    let rest : a - a / b * b ≡ a % b = omega (arith, e) in
    rw (mul64-with_sign (differ s t) t (a / b) b (omega (arith, le)) hb) (
      rw (differ-differ s t)
        (rw product (rw (sub64-with_sign s a (a / b * b) (omega (arith, e)) ha) (rw rest refl))))

-- the quotient of two patterns that can be divided
abbrev pub quotient : ℕ → ℕ → ℕ
quotient a b = with_sign (differ (is_neg64 a) (is_neg64 b)) (magnitude a / magnitude b)

-- The remainder has the sign of the dividend.
sub64-quotient :
    (a b : ℕ)
    → a < 2 ^ 64
    → b < 2 ^ 64
    → b ≢ 0
    → sub64 a (mul64 (quotient a b) b) ≡ with_sign (is_neg64 a) (magnitude a % magnitude b)
sub64-quotient a b ha hb nz =
    let small : magnitude a < 2 ^ 64 = ground arith in
    let small' : magnitude b < 2 ^ 64 = ground arith in
    let e =
      sub64-product (is_neg64 a) (is_neg64 b) (magnitude a) (magnitude b) small small'
        (ground (arith, nz)) in
    rw (with_sign-magnitude a ha) at (rw (with_sign-magnitude b hb) at e)

pub sdiv64-some :
    (a b : ℕ) → b ≢ 0 → (a ≡ 2 ^ 63 → b ≢ 2 ^ 64 - 1) → sdiv64 a b ≡ some (quotient a b)
sdiv64-some a b nz fits = elim (Bool-cases (b == 0 || a == 2 ^ 63 && b == 2 ^ 64 - 1)) [
  | inl e ↦ absurd (ground (arith, e, nz, fits))
  | inr e ↦ rw e refl
]

pub magnitude-with_sign :
    (s : Bool) (m : ℕ) → m ≤ 2 ^ 63 → (m ≡ 2 ^ 63 → s ≡ true) → magnitude (with_sign s m) ≡ m
magnitude-with_sign true m le h = ground arith
magnitude-with_sign false m le h = ground (arith, h)

is_neg64-with_sign :
    (s : Bool) (m : ℕ)
    → m ≤ 2 ^ 63
    → (m ≡ 2 ^ 63 → s ≡ true)
    → (with_sign s m ≡ 0) ⊎ (is_neg64 (with_sign s m) ≡ s)
is_neg64-with_sign true zero le h = inl refl
is_neg64-with_sign false zero le h = inl refl
is_neg64-with_sign true (suc m) le h = inr (ground arith)
is_neg64-with_sign false (suc m) le h = inr (ground (arith, h))

-- Only the least number has a quotient of magnitude 2 ^ 63.
quotient-fits :
    (a b : ℕ)
    → a < 2 ^ 64
    → b < 2 ^ 64
    → b ≢ 0
    → (a ≡ 2 ^ 63 → b ≢ 2 ^ 64 - 1)
    → (magnitude a / magnitude b ≤ 2 ^ 63)
      × (magnitude a / magnitude b ≡ 2 ^ 63 → differ (is_neg64 a) (is_neg64 b) ≡ true)
quotient-fits a b ha hb nz fits =
    let (e, lt, le) = div-mod (magnitude a) (magnitude b) (ground (arith, nz)) in
    let top : magnitude a ≤ 2 ^ 63 = ground arith in
    (
      omega (arith, top, le),
      (λ h.
          let product = rw h at e in
          let whole : magnitude a ≡ 2 ^ 63 = omega (arith, top, le, h) in
          let unit : magnitude b ≡ 1 = omega (arith, product, whole, lt, top) in
          ground (arith, whole, unit, nz, fits)),
    )

-- For times below 2 ^ 64, a divisor that is not zero, and no division of the least time by -1: the
-- division and the remainder have results, the quotient `q`, returned as the low 32 bits, times the
-- divisor and the remainder add up to the dividend in magnitude, the remainder is less than the
-- divisor, and is zero or has the sign of the dividend, and the quotient is zero or is negative
-- when just one of the two times is.
pub rel_div-rel_mod :
    (t0 t1 : RelTime)
    → t0.usec < 2 ^ 64
    → t1.usec < 2 ^ 64
    → t1.usec ≢ 0
    → (t0.usec ≡ 2 ^ 63 → t1.usec ≢ 2 ^ 64 - 1)
    → (q : ℕ) × (r : RelTime) × (rel_div_rel_time t0 t1 ≡ some (q % 2 ^ 32))
      × (rel_mod_rel_time t0 t1 ≡ some r)
      × (magnitude q * magnitude t1.usec + magnitude r.usec ≡ magnitude t0.usec)
      × (magnitude r.usec < magnitude t1.usec)
      × ((r.usec ≡ 0) ⊎ (is_neg64 r.usec ≡ is_neg64 t0.usec))
      × ((q ≡ 0) ⊎ (is_neg64 q ≡ differ (is_neg64 t0.usec) (is_neg64 t1.usec)))
unfolding rel_div_rel_time rel_mod_rel_time
rel_div-rel_mod t0 t1 h0 h1 nz fits =
    let s = is_neg64 t0.usec in
    let t = differ (is_neg64 t0.usec) (is_neg64 t1.usec) in
    let a = magnitude t0.usec in
    let b = magnitude t1.usec in
    let (e, lt, le) = div-mod a b (ground (arith, nz)) in
    let (top, edge) = quotient-fits t0.usec t1.usec h0 h1 nz fits in
    let small : a % b < 2 ^ 63 = ground (arith, lt) in
    let edge' : a % b ≡ 2 ^ 63 → s ≡ true = λ h. absurd (omega (arith, small, h)) in
    let r : RelTime = record { usec = with_sign s (a % b) } in
    (
      quotient t0.usec t1.usec,
      r,
      rw (sdiv64-some t0.usec t1.usec nz fits) refl,
      rw (sdiv64-some t0.usec t1.usec nz fits)
          (ap some (RelTime-ext _ _ (sub64-quotient t0.usec t1.usec h0 h1 nz))),
      rw (magnitude-with_sign t (a / b) top edge)
          (rw (magnitude-with_sign s (a % b) (omega (arith, small)) edge') e),
      rw (magnitude-with_sign s (a % b) (omega (arith, small)) edge') lt,
      is_neg64-with_sign s (a % b) (omega (arith, small)) edge',
      is_neg64-with_sign t (a / b) top edge,
    )
