-- ===== src/IpRange/Align.antt =====
-- Addresses that are multiples of a power of two, and the bit operations on them.
use my_test_files.Prelude.{
  ℕ, zero, suc, ◌+◌, ◌-◌, ◌/◌, ◌%◌, ◌^◌, ◌≤◌, ◌<◌, ◌≡◌, ◌∙◌, true, ◌==◌, bit_or, Bool-cases, inl,
  inr, arith,
}
use native.Mathlib.Nat.{pow-suc, one-le-pow}
use my_test_files.Prelude.Bits.{bit_or_step, two_pow-lt}
use my_test_files.Prelude.Word.{not32}
use my_test_files.IpRange.{set_bit, netmask, broadcast}

-- the last `k` binary digits are 0
abbrev pub IsAligned : ℕ → ℕ → Type 0
IsAligned zero a = Unit {0}
IsAligned (suc k) a = (a % 2 ≡ 0) × IsAligned k (a / 2)

pub IsAligned-weaken : (k a : ℕ) → IsAligned (suc k) a → IsAligned k a
IsAligned-weaken zero a h = tt
IsAligned-weaken (suc k) a h = (h.0, IsAligned-weaken k (a / 2) h.1)

pub IsAligned-upper : (k a : ℕ) → IsAligned (suc k) a → IsAligned k (a + 2 ^ k)
IsAligned-upper zero a h = tt
IsAligned-upper (suc k) a h =
    let e : (a + 2 ^ suc k) / 2 ≡ a / 2 + 2 ^ k = omega (arith, pow-suc 2 k) in
    (omega (arith, pow-suc 2 k, h.0), rw e (IsAligned-upper k (a / 2) h.1))

bit_or-zero : (bound x : ℕ) → x ≤ bound → bit_or x 0 ≡ x
bit_or-zero zero x le = let e : x ≡ 0 = omega arith in rw e
bit_or-zero (suc bound) x le = elim (Bool-cases (x == 0)) [
  | inl e ↦ let z : x ≡ 0 = ground arith in rw z
  | inr e ↦ omega (arith, bit_or_step x 0, bit_or-zero bound (x / 2) (ground arith))
]

-- `|` of an aligned address and ones below is a sum
bit_or_ones : (k a : ℕ) → IsAligned k a → bit_or a (2 ^ k - 1) ≡ a + (2 ^ k - 1)
bit_or_ones zero a h = bit_or-zero a a (omega arith) ∙ omega arith
bit_or_ones (suc k) a h =
    let half : (2 ^ suc k - 1) / 2 ≡ 2 ^ k - 1 = omega (arith, pow-suc 2 k) in
    omega (
      arith,
      rw half at (bit_or_step a (2 ^ suc k - 1)),
      bit_or_ones k (a / 2) h.1,
      pow-suc 2 k,
      one-le-pow k 2,
      h.0,
    )

bit_or_upper : (k a : ℕ) → IsAligned (suc k) a → bit_or a (2 ^ k) ≡ a + 2 ^ k
bit_or_upper zero a h =
    omega (arith, bit_or_step a 1, bit_or-zero (a / 2) (a / 2) (omega arith), h.0)
bit_or_upper (suc k) a h =
    let half : 2 ^ suc k / 2 ≡ 2 ^ k = omega (arith, pow-suc 2 k) in
    omega
      (arith, rw half at (bit_or_step a (2 ^ suc k)), bit_or_upper k (a / 2) h.1, pow-suc 2 k, h.0)

not_mask : (k p : ℕ) → p + k ≡ 32 → not32 (netmask p) ≡ 2 ^ k - 1
unfolding netmask
not_mask k p e = elim (Bool-cases (p == 0)) [
  | inl all ↦ let z : k ≡ 32 = ground arith in rw (all, z)
  | inr some_bits ↦
      let z : 32 - p ≡ k = omega arith in
      let lt : 2 ^ k < 2 ^ 32 = two_pow-lt k 32 (ground arith) in
      rw (some_bits, z) (omega (arith, lt, one-le-pow k 2))
]

-- `broadcast` is the last address of the block.
pub broadcast_lem : (k p a : ℕ) → p + k ≡ 32 → IsAligned k a → broadcast a p ≡ a + (2 ^ k - 1)
unfolding broadcast
broadcast_lem k p a e h = rw (not_mask k p e) (bit_or_ones k a h)

-- The upper half of a block begins in its middle.
pub set_bit_lem :
    (k p a : ℕ) → p + suc k ≡ 32 → IsAligned (suc k) a → set_bit a (p + 1) true ≡ a + 2 ^ k
unfolding set_bit
set_bit_lem k p a e h = let z : 32 - (p + 1) ≡ k = omega arith in rw z (bit_or_upper k a h)
