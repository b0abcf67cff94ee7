-- ===== src/Prelude/Bits.antt =====
-- The binary digits of a number, and what `&`, `|`, `^` and masks do to them.
use Prim.Native.Nat.{
  ℕ, zero, suc, ◌+◌, ◌-◌, ◌*◌, ◌/◌, ◌%◌, ◌^◌, ◌≤◌, ◌<◌, min, max, bit_and, bit_or, bit_xor, digits,
  bitwise, bit_and-bitwise, bit_or-bitwise, bit_xor-bitwise, differ,
}
use mathlib.Core.Path.{◌≡◌, refl, sym, ap, ◌∙◌}
use mathlib.Core.Bool.{Bool, false, not, xor, ◌&&◌, ◌||◌}
use native.Mathlib.Nat.{le_refl, pow-suc, one-le-pow}
use native.Mathlib.Omega.{arith}
use my_test_files.Prelude.Tests.{ltb, ◌==◌, if◌then◌else◌}

-- What a native operation means is a recursion on the digits of its first number, with that number
-- itself for fuel. `settle`: any fuel that is enough gives the same.
module _ (rest : ℕ → ℕ) (join : ℕ → ℕ → ℕ) where
  settle :
      (bound fuel x y : ℕ)
      → x ≤ bound
      → x ≤ fuel
      → digits rest join fuel x y ≡ bitwise rest join x y
  settle bound zero zero y le enough = refl
  settle bound (suc fuel) zero y le enough = refl
  settle bound zero (suc x) y le enough = absurd (omega arith)
  settle zero (suc fuel) (suc x) y le enough = absurd (omega arith)
  settle (suc bound) (suc fuel) (suc x) y le enough =
      let here = settle bound fuel (suc x / 2) (y / 2) (omega arith) (omega arith) in
      let there = settle bound x (suc x / 2) (y / 2) (omega arith) (omega arith) in
      ap (λ t. t * 2 + join (suc x % 2) (y % 2)) (here ∙ sym there)

  -- One equation for the lowest digit, if it holds where the first number has run out.
  lowest :
      ((y : ℕ) → rest y ≡ rest (y / 2) * 2 + join 0 (y % 2))
      → (x y : ℕ)
      → bitwise rest join x y ≡ bitwise rest join (x / 2) (y / 2) * 2 + join (x % 2) (y % 2)
  lowest out zero y = out y
  lowest out (suc x) y =
      ap (λ t. t * 2 + join (suc x % 2) (y % 2))
        (settle x x (suc x / 2) (y / 2) (omega arith) (omega arith))

pub bit_or_step : (x y : ℕ) → bit_or x y ≡ bit_or (x / 2) (y / 2) * 2 + max (x % 2) (y % 2)
bit_or_step x y = simp bit_or-bitwise (lowest (λ d. d) max (λ d. omega arith) x y)

pub bit_and_step : (x y : ℕ) → bit_and x y ≡ bit_and (x / 2) (y / 2) * 2 + min (x % 2) (y % 2)
bit_and_step x y = simp bit_and-bitwise (lowest (λ _. 0) min (λ d. omega arith) x y)

bit_xor_step : (x y : ℕ) → bit_xor x y ≡ bit_xor (x / 2) (y / 2) * 2 + differ (x % 2) (y % 2)
bit_xor_step x y = simp bit_xor-bitwise (lowest (λ d. d) differ (λ d. omega arith) x y)

differ_digits : (a b : ℕ) → a < 2 → b < 2 → differ a b ≡ (if a == b then 0 else 1)
differ_digits zero zero p q = refl
differ_digits zero (suc zero) p q = refl
differ_digits (suc zero) zero p q = refl
differ_digits (suc zero) (suc zero) p q = refl
differ_digits (suc (suc a)) b p q = absurd (omega arith)
differ_digits a (suc (suc b)) p q = absurd (omega arith)

bit_xor_halves :
    (x y : ℕ)
    → (bit_xor x y / 2 ≡ bit_xor (x / 2) (y / 2))
      × (bit_xor x y % 2 ≡ (if x % 2 == y % 2 then 0 else 1))
bit_xor_halves x y =
    ground (arith, bit_xor_step x y, differ_digits (x % 2) (y % 2) (omega arith) (omega arith))

-- Digit `k` of `x`, from the lowest.
unfoldable pub test_bit : ℕ → ℕ → Bool
test_bit x zero = x % 2 == 1
test_bit x (suc k) = test_bit (x / 2) k

pub zero-test_bit : (k : ℕ) → test_bit 0 k ≡ false
unfolding test_bit
zero-test_bit zero = refl
zero-test_bit (suc k) = zero-test_bit k

pub bit_and-zero : (bound x : ℕ) → x ≤ bound → bit_and x 0 ≡ 0
bit_and-zero zero x le = let e : x ≡ 0 = omega arith in rw e
bit_and-zero (suc bound) x le =
    omega (arith, bit_and_step x 0, bit_and-zero bound (x / 2) (omega arith))

pub test_bit-bit_and : (k x y : ℕ) → test_bit (bit_and x y) k ≡ test_bit x k && test_bit y k
unfolding test_bit
test_bit-bit_and zero x y = ground (arith, bit_and_step x y)
test_bit-bit_and (suc k) x y =
    let half : bit_and x y / 2 ≡ bit_and (x / 2) (y / 2) = omega (arith, bit_and_step x y) in
    rw half (test_bit-bit_and k (x / 2) (y / 2))

pub test_bit-bit_or : (k x y : ℕ) → test_bit (bit_or x y) k ≡ test_bit x k || test_bit y k
unfolding test_bit
test_bit-bit_or zero x y = ground (arith, bit_or_step x y)
test_bit-bit_or (suc k) x y =
    let half : bit_or x y / 2 ≡ bit_or (x / 2) (y / 2) = omega (arith, bit_or_step x y) in
    rw half (test_bit-bit_or k (x / 2) (y / 2))

pub test_bit-bit_xor : (k x y : ℕ) → test_bit (bit_xor x y) k ≡ xor (test_bit x k) (test_bit y k)
unfolding test_bit xor
test_bit-bit_xor zero x y = ground (arith, (bit_xor_halves x y).1)
test_bit-bit_xor (suc k) x y = rw ((bit_xor_halves x y).0) (test_bit-bit_xor k (x / 2) (y / 2))

-- `1 << k` has the one digit `k`.
pub test_bit-two_pow : (k j : ℕ) → test_bit (2 ^ k) j ≡ (k == j)
unfolding test_bit
test_bit-two_pow zero zero = refl
test_bit-two_pow zero (suc j) = zero-test_bit j ∙ ground arith
test_bit-two_pow (suc k) zero = ground (arith, pow-suc 2 k)
test_bit-two_pow (suc k) (suc j) =
    let half : 2 ^ suc k / 2 ≡ 2 ^ k = omega (arith, pow-suc 2 k) in
    rw half (test_bit-two_pow k j ∙ ground arith)

-- `x & (1 << k)` tests digit `k`.
pub bit_and-two_pow : (k x : ℕ) → (bit_and x (2 ^ k) == 0) ≡ not (test_bit x k)
unfolding test_bit
bit_and-two_pow zero x = ground (arith, bit_and_step x 1, bit_and-zero (x / 2) (x / 2) (le_refl _))
bit_and-two_pow (suc k) x =
    ground (arith, bit_and_step x (2 ^ suc k), pow-suc 2 k, bit_and-two_pow k (x / 2), half)
  where
    half : bit_and (x / 2) (2 ^ suc k / 2) ≡ bit_and (x / 2) (2 ^ k)
    half = let e : 2 ^ suc k / 2 ≡ 2 ^ k = omega (arith, pow-suc 2 k) in rw e

-- `~x` in `w` bits.
pub test_bit-complement :
    (w x k : ℕ) → x < 2 ^ w → k < w → test_bit (2 ^ w - 1 - x) k ≡ not (test_bit x k)
unfolding test_bit
test_bit-complement zero x k h lt = absurd (omega arith)
test_bit-complement (suc w) x zero h lt = ground (arith, pow-suc 2 w)
test_bit-complement (suc w) x (suc k) h lt =
    let half : (2 ^ suc w - 1 - x) / 2 ≡ 2 ^ w - 1 - x / 2 = omega (arith, pow-suc 2 w) in
    rw half (test_bit-complement w (x / 2) k (omega (arith, pow-suc 2 w)) (omega arith))

-- A mask of the `w` low digits.
pub test_bit-mask : (w k : ℕ) → test_bit (2 ^ w - 1) k ≡ ltb k w
unfolding test_bit
test_bit-mask zero k = zero-test_bit k ∙ ground arith
test_bit-mask (suc w) zero = ground (arith, pow-suc 2 w, one-le-pow w 2)
test_bit-mask (suc w) (suc k) =
    let half : (2 ^ suc w - 1) / 2 ≡ 2 ^ w - 1 = omega (arith, pow-suc 2 w) in
    rw half (test_bit-mask w k ∙ ground arith)

pub test_bit-outside : (w x k : ℕ) → x < 2 ^ w → w ≤ k → test_bit x k ≡ false
unfolding test_bit
test_bit-outside zero x k h le = let e : x ≡ 0 = omega arith in rw e (zero-test_bit k)
test_bit-outside (suc w) x zero h le = absurd (omega arith)
test_bit-outside (suc w) x (suc k) h le =
    test_bit-outside w (x / 2) k (omega (arith, pow-suc 2 w)) (omega arith)

-- A number is its digits.
pub test_bit_ext :
    (w x y : ℕ) → x < 2 ^ w → y < 2 ^ w → ((k : ℕ) → k < w → test_bit x k ≡ test_bit y k) → x ≡ y
unfolding test_bit
test_bit_ext zero x y hx hy h = omega arith
test_bit_ext (suc w) x y hx hy h =
    let rest : x / 2 ≡ y / 2 =
      test_bit_ext w (x / 2) (y / 2) (omega (arith, pow-suc 2 w)) (omega (arith, pow-suc 2 w))
        (λ k lt. h (suc k) (omega arith)) in
    ground (arith, h 0 (omega arith), rest)

pub bit_and-le : (n x y : ℕ) → x ≤ n → bit_and x y ≤ x
bit_and-le n zero y h = omega (arith, bit_and-bitwise 0 y)
bit_and-le zero (suc x) y h = absurd (omega arith)
bit_and-le (suc n) (suc x) y h =
    omega (arith, bit_and_step (suc x) y, bit_and-le n (suc x / 2) (y / 2) (omega arith))

pub bit_or-lt : (w x y : ℕ) → x < 2 ^ w → y < 2 ^ w → bit_or x y < 2 ^ w
bit_or-lt zero x y hx hy =
    let ex : x ≡ 0 = omega arith in let ey : y ≡ 0 = omega arith in rw (ex, ey) (omega arith)
bit_or-lt (suc w) x y hx hy = omega (
  arith,
  pow-suc 2 w,
  bit_or_step x y,
  bit_or-lt w (x / 2) (y / 2) (omega (arith, pow-suc 2 w)) (omega (arith, pow-suc 2 w)),
)

pub bit_xor-lt : (w x y : ℕ) → x < 2 ^ w → y < 2 ^ w → bit_xor x y < 2 ^ w
bit_xor-lt zero x y hx hy =
    let ex : x ≡ 0 = omega arith in let ey : y ≡ 0 = omega arith in rw (ex, ey) (omega arith)
bit_xor-lt (suc w) x y hx hy = ground (
  arith,
  pow-suc 2 w,
  (bit_xor_halves x y).0,
  bit_xor-lt w (x / 2) (y / 2) (omega (arith, pow-suc 2 w)) (omega (arith, pow-suc 2 w)),
)

pub bit_and_low : (a : ℕ) → bit_and a 31 ≡ a % 32
bit_and_low a = omega (
  arith,
  bit_and_step a 31,
  bit_and_step (a / 2) 15,
  bit_and_step (a / 2 / 2) 7,
  bit_and_step (a / 2 / 2 / 2) 3,
  bit_and_step (a / 2 / 2 / 2 / 2) 1,
  bit_and-zero (a / 2 / 2 / 2 / 2 / 2) (a / 2 / 2 / 2 / 2 / 2) (le_refl _),
)

pub two_pow-lt : (k w : ℕ) → k < w → 2 ^ k < 2 ^ w
two_pow-lt k zero h = absurd (omega arith)
two_pow-lt zero (suc w) h = omega (arith, pow-suc 2 w, one-le-pow w 2)
two_pow-lt (suc k) (suc w) h = omega (arith, pow-suc 2 w, pow-suc 2 k, two_pow-lt k w (omega arith))
