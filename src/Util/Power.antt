-- ===== src/Util/Power.antt =====
-- test_2pow.c: the least power of two that is not below a number.
use my_test_files.Prelude.{
  ℕ, zero, suc, ◌+◌, ◌-◌, ◌*◌, ◌/◌, ◌%◌, ◌^◌, ◌≤◌, ◌<◌, ◌≡◌, refl, sym, Bool, true, false, ◌||◌,
  ltb, ◌==◌, if◌then◌else◌, arith, Bool-cases, inl, inr, ltb→lt, ==_iff,
}
use my_test_files.Prelude.Bits.{
  test_bit, test_bit-bit_or, test_bit-mask, test_bit-outside, test_bit_ext, bit_or-lt,
}
use native.Mathlib.Nat.{pow-suc, div-div-eq-div-mul, div-le_self, pow-le-pow_right, one-le-pow}
use my_test_files.Util.{smear, next_highest_power_of_2, next_highest_power_of_2_short}

test_bit-shift : (s x j : ℕ) → test_bit (x / 2 ^ s) j ≡ test_bit x (j + s)
unfolding test_bit
test_bit-shift zero x j =
    let whole : x / 1 ≡ x = omega arith in
    let same : j + 0 ≡ j = omega arith in rw whole (rw same refl)
test_bit-shift (suc s) x j =
    let twice : 2 ^ suc s ≡ 2 * 2 ^ s = omega (arith, pow-suc 2 s) in
    let next : j + suc s ≡ suc (j + s) = omega arith in
    rw twice (rw (sym (div-div-eq-div-mul x 2 (2 ^ s))) (rw next (test_bit-shift s (x / 2) j)))

-- the highest bit of a number that is not zero
top_bit : (w x : ℕ) → 0 < x → x < 2 ^ w → (p : ℕ) × (p < w) × (2 ^ p ≤ x) × (x < 2 ^ suc p)
top_bit zero x pos lt = absurd (omega (arith, pos, lt))
top_bit (suc w) x pos lt = elim (Bool-cases (ltb x (2 ^ w))) [
  | inl e ↦ let (p, a, b, c) = top_bit w x pos (ltb→lt x (2 ^ w) e) in (p, omega (arith, a), b, c)
  | inr e ↦ (w, omega arith, ground (arith, e), lt)
]

test_bit-top : (p x : ℕ) → 2 ^ p ≤ x → x < 2 ^ suc p → test_bit x p ≡ true
unfolding test_bit
test_bit-top zero x lo hi = ground (arith, lo, hi, pow-suc 2 0)
test_bit-top (suc p) x lo hi =
    test_bit-top p (x / 2) (omega (arith, lo, pow-suc 2 p)) (omega (arith, hi, pow-suc 2 (suc p)))

-- no bit above `p` is set, and the `w` bits from `p` down are
record Fills (x p w : ℕ) : Type 0 where
  above : (j : ℕ) → p < j → test_bit x j ≡ false
  filled : (j : ℕ) → j ≤ p → p < j + w → test_bit x j ≡ true

or_true : (b : Bool) → (b || true) ≡ true
or_true true = refl
or_true false = refl

smear-Fills : (s x p w : ℕ) → s ≤ w → Fills x p w → Fills (smear s x) p (w + s)
smear-Fills s x p w le f = record {
  above = λ j h.
      rw (test_bit-bit_or j x (x / 2 ^ s))
        (rw (test_bit-shift s x j) (rw (f.above j h) (f.above (j + s) (omega (arith, h)))));
  filled = λ j a b. rw (test_bit-bit_or j x (x / 2 ^ s)) (
      rw (test_bit-shift s x j) (elim (Bool-cases (ltb p (j + w))) [
        | inl near ↦ rw (f.filled j a (ltb→lt p (j + w) near)) refl
        | inr far ↦
            let le' : j + w ≤ p = ground (arith, far) in
            rw (f.filled (j + s) (omega (arith, le, le')) (omega (arith, b)))
              (or_true (test_bit x j))
      ]));
}

start-Fills : (x p : ℕ) → 2 ^ p ≤ x → x < 2 ^ suc p → Fills x p 1
start-Fills x p lo hi = record {
  above = λ j h. test_bit-outside (suc p) x j hi (omega (arith, h));
  filled = λ j a b. let same : j ≡ p = omega (arith, a, b) in rw same (test_bit-top p x lo hi);
}

smear-lt : (s x w : ℕ) → x < 2 ^ w → smear s x < 2 ^ w
smear-lt s x w h = bit_or-lt w x (x / 2 ^ s) h (omega (arith, h, div-le_self x (2 ^ s)))

two_positive : 0 < 2
two_positive = omega arith

suc_le : (p w : ℕ) → p < w → suc p ≤ w
suc_le p w h = h

-- Enough bits make the number one less than a power of two.
Fills-mask : (x p w : ℕ) → x < 2 ^ w → p < w → Fills x p w → x ≡ 2 ^ suc p - 1
Fills-mask x p w lt h f =
    let bound : 2 ^ suc p - 1 < 2 ^ w =
      omega (
        arith,
        pow-le-pow_right (two_positive) (suc_le p w h),
        one-le-pow (suc p) 2 two_positive,
      ) in
    test_bit_ext w x (2 ^ suc p - 1) lt bound (λ j _.
      rw (test_bit-mask (suc p) j) (elim (Bool-cases (ltb j (suc p))) [
        | inl low ↦
            let le : j ≤ p = ground (arith, low) in rw low (f.filled j le (omega (arith, le, h)))
        | inr high ↦ rw high (f.above j (ground (arith, high)))
      ]))

smeared_32 :
    (x p : ℕ)
    → 2 ^ p ≤ x
    → x < 2 ^ suc p
    → x < 2 ^ 32
    → p < 32
    → smear 16 (smear 8 (smear 4 (smear 2 (smear 1 x)))) ≡ 2 ^ suc p - 1
smeared_32 x p lo hi small h =
    let f1 = smear-Fills 1 x p 1 (omega arith) (start-Fills x p lo hi) in
    let f2 = smear-Fills 2 _ p 2 (omega arith) f1 in
    let f4 = smear-Fills 4 _ p 4 (omega arith) f2 in
    let f8 = smear-Fills 8 _ p 8 (omega arith) f4 in
    let f16 = smear-Fills 16 _ p 16 (omega arith) f8 in
    let l1 = smear-lt 1 x 32 small in
    let l2 = smear-lt 2 _ 32 l1 in
    let l4 = smear-lt 4 _ 32 l2 in
    let l8 = smear-lt 8 _ 32 l4 in Fills-mask _ p 32 (smear-lt 16 _ 32 l8) h f16

smeared_16 :
    (x p : ℕ)
    → 2 ^ p ≤ x
    → x < 2 ^ suc p
    → x < 2 ^ 16
    → p < 16
    → smear 8 (smear 4 (smear 2 (smear 1 x))) ≡ 2 ^ suc p - 1
smeared_16 x p lo hi small h =
    let f1 = smear-Fills 1 x p 1 (omega arith) (start-Fills x p lo hi) in
    let f2 = smear-Fills 2 _ p 2 (omega arith) f1 in
    let f4 = smear-Fills 4 _ p 4 (omega arith) f2 in
    let f8 = smear-Fills 8 _ p 8 (omega arith) f4 in
    let l1 = smear-lt 1 x 16 small in
    let l2 = smear-lt 2 _ 16 l1 in
    let l4 = smear-lt 4 _ 16 l2 in Fills-mask _ p 16 (smear-lt 8 _ 16 l4) h f8

-- the least power of two that is not below `v`
abbrev pub IsLeastPower : ℕ → ℕ → Type 0
IsLeastPower v r = (k : ℕ) × (r ≡ 2 ^ k) × (v ≤ r) × (r < 2 * v)

carry_32 :
    (q : ℕ)
    → 1 ≤ q
    → q < 2 ^ 32
    → ((q - 1 + 1) % 2 ^ 32 + (if (q - 1 + 1) % 2 ^ 32 == 0 then 1 else 0)) % 2 ^ 32 ≡ q
carry_32 q lo hi = ground (arith, lo, hi)

value_32 :
    (v p : ℕ)
    → 2 ≤ v
    → v ≤ 2 ^ 31
    → 2 ^ p ≤ v - 1
    → v - 1 < 2 ^ suc p
    → p < 31
    → next_highest_power_of_2 v ≡ 2 ^ suc p
unfolding next_highest_power_of_2
value_32 v p lo hi a b lt =
    let low : (v + 2 ^ 32 - 1) % 2 ^ 32 ≡ v - 1 = omega (arith, lo, hi) in
    let smeared = smeared_32 (v - 1) p a b (omega (arith, hi)) (omega (arith, lt)) in
    let bound = pow-le-pow_right two_positive (suc_le p 31 lt) in
    rw low
      (rw smeared (carry_32 (2 ^ suc p) (one-le-pow (suc p) 2 two_positive) (omega (arith, bound))))

least_one_32 : IsLeastPower 1 (next_highest_power_of_2 1)
unfolding next_highest_power_of_2
least_one_32 = (0, refl, omega arith, omega arith)

least_32 : (v : ℕ) → 1 ≤ v → v ≤ 2 ^ 31 → IsLeastPower v (next_highest_power_of_2 v)
least_32 v pos hi = elim (Bool-cases (v == 1)) [
  | inl e ↦ let one : v ≡ 1 = (==_iff v 1).0 e in rw one (least_one_32)
  | inr e ↦
      let lo : 2 ≤ v = ground (arith, e, pos) in
      let (p, lt, a, b) = top_bit 31 (v - 1) (omega (arith, lo)) (omega (arith, lo, hi)) in
      let same = value_32 v p lo hi a b lt in
      (suc p, same, omega (arith, same, b, lo), omega (arith, same, a, lo, pow-suc 2 p))
]

carry_16 :
    (q : ℕ)
    → 1 ≤ q
    → q < 2 ^ 16
    → ((q - 1 + 1) % 2 ^ 16 + (if (q - 1 + 1) % 2 ^ 16 == 0 then 1 else 0)) % 2 ^ 16 ≡ q
carry_16 q lo hi = ground (arith, lo, hi)

value_16 :
    (v p : ℕ)
    → 2 ≤ v
    → v ≤ 2 ^ 15
    → 2 ^ p ≤ v - 1
    → v - 1 < 2 ^ suc p
    → p < 15
    → next_highest_power_of_2_short v ≡ 2 ^ suc p
unfolding next_highest_power_of_2_short
value_16 v p lo hi a b lt =
    let low : (v + 2 ^ 16 - 1) % 2 ^ 16 ≡ v - 1 = omega (arith, lo, hi) in
    let smeared = smeared_16 (v - 1) p a b (omega (arith, hi)) (omega (arith, lt)) in
    let bound = pow-le-pow_right two_positive (suc_le p 15 lt) in
    rw low
      (rw smeared (carry_16 (2 ^ suc p) (one-le-pow (suc p) 2 two_positive) (omega (arith, bound))))

least_one_16 : IsLeastPower 1 (next_highest_power_of_2_short 1)
unfolding next_highest_power_of_2_short
least_one_16 = (0, refl, omega arith, omega arith)

least_16 : (v : ℕ) → 1 ≤ v → v ≤ 2 ^ 15 → IsLeastPower v (next_highest_power_of_2_short v)
least_16 v pos hi = elim (Bool-cases (v == 1)) [
  | inl e ↦ let one : v ≡ 1 = (==_iff v 1).0 e in rw one (least_one_16)
  | inr e ↦
      let lo : 2 ≤ v = ground (arith, e, pos) in
      let (p, lt, a, b) = top_bit 15 (v - 1) (omega (arith, lo)) (omega (arith, lo, hi)) in
      let same = value_16 v p lo hi a b lt in
      (suc p, same, omega (arith, same, b, lo), omega (arith, same, a, lo, pow-suc 2 p))
]

over_32 : (v : ℕ) → 2 ^ 31 < v → v < 2 ^ 32 → next_highest_power_of_2 v ≡ 1
unfolding next_highest_power_of_2
over_32 v lo hi =
    let low : (v + 2 ^ 32 - 1) % 2 ^ 32 ≡ v - 1 = omega (arith, lo, hi) in
    let smeared =
      smeared_32 (v - 1) 31 (omega (arith, lo)) (omega (arith, hi)) (omega (arith, hi))
        (omega arith) in
    rw low (rw smeared refl)

zero_32 : next_highest_power_of_2 0 ≡ 1
unfolding next_highest_power_of_2
zero_32 = refl

over_16 : (v : ℕ) → 2 ^ 15 < v → v < 2 ^ 16 → next_highest_power_of_2_short v ≡ 1
unfolding next_highest_power_of_2_short
over_16 v lo hi =
    let low : (v + 2 ^ 16 - 1) % 2 ^ 16 ≡ v - 1 = omega (arith, lo, hi) in
    let smeared =
      smeared_16 (v - 1) 15 (omega (arith, lo)) (omega (arith, hi)) (omega (arith, hi))
        (omega arith) in
    rw low (rw smeared refl)

zero_16 : next_highest_power_of_2_short 0 ≡ 1
unfolding next_highest_power_of_2_short
zero_16 = refl

-- For a number from 1 to 2 ^ 31, `next_highest_power_of_2` is the least power of two that is not
-- below it, and for 0 and for a number from 2 ^ 31 + 1 to 2 ^ 32 - 1 it is 1. For a short the same
-- holds of `next_highest_power_of_2_short` with 2 ^ 15 and 2 ^ 16.
pub next_highest_power_of_2_lem :
    (v : ℕ)
    → (1 ≤ v → v ≤ 2 ^ 31 → IsLeastPower v (next_highest_power_of_2 v))
      × (2 ^ 31 < v → v < 2 ^ 32 → next_highest_power_of_2 v ≡ 1)
      × (next_highest_power_of_2 0 ≡ 1)
      × (1 ≤ v → v ≤ 2 ^ 15 → IsLeastPower v (next_highest_power_of_2_short v))
      × (2 ^ 15 < v → v < 2 ^ 16 → next_highest_power_of_2_short v ≡ 1)
      × (next_highest_power_of_2_short 0 ≡ 1)
next_highest_power_of_2_lem v = (least_32 v, over_32 v, zero_32, least_16 v, over_16 v, zero_16)
