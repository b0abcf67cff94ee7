-- ===== src/Bitlist/View.antt =====
-- The bits of a bit list, counted from its base, and what makes one well formed.
use my_test_files.Prelude.{
  zero, suc, [], ◌∷◌, false, true, ◌↔◌, ◌*◌, ℕ, ◌+◌, ◌/◌, ◌%◌, ◌^◌, ◌≤◌, ◌<◌, ◌≡◌, Bool, ◌&&◌, List,
  arith, ltb, get_or, length,
}
use my_test_files.Prelude.Bits.{test_bit, bit_and-two_pow, bit_and_low}
use my_test_files.Prelude.Word.{sub32}
use my_test_files.Bitlist.{Bitlist, valid_bit, test}

-- Bit `i`, from 0: digit `i % 32` of element `i / 32`.
unfoldable pub bit_at : Bitlist → ℕ → Bool
bit_at bl i = test_bit (get_or bl.bits (i / 32) 0) (i % 32)

abbrev pub AreWords : List ℕ → Type 0
AreWords xs = (i : ℕ) → get_or xs i 0 < 2 ^ 32

-- `max_elems` elements are allocated and are enough for `max_bits` bits, the bits are few enough
-- for an `int`, and every element is a `uint32`.
pub record IsValid (bl : Bitlist) : Type 0 where
  pub elems : bl.state.max_elems ≡ (bl.state.max_bits + 31) / 32
  pub room : bl.state.max_elems ≤ length bl.bits
  pub small : bl.state.max_bits + 31 < 2 ^ 31
  pub base : bl.state.base_bit < 2 ^ 32
  pub words : AreWords bl.bits

pub valid_bit_iff_lt :
    (bl : Bitlist) (b : ℕ) → IsValid bl → valid_bit bl b ≡ ltb b bl.state.max_bits
unfolding valid_bit
valid_bit_iff_lt bl b v = ground (arith, v.small)

-- A valid bit lies inside the allocated elements.
pub elem-lt : (bl : Bitlist) (b : ℕ) → IsValid bl → b < bl.state.max_bits → b / 32 < length bl.bits
elem-lt bl b v h = omega (arith, v.room, v.elems)

-- `test` at the bit number `base_bit + i` reads bit `i` if that is below `max_bits`; any other
-- number reads as clear.
pub test-eq :
    (bl : Bitlist) (bit : ℕ)
    → IsValid bl
    → test bl bit ≡ (
        ltb (sub32 bit bl.state.base_bit) bl.state.max_bits
        && bit_at bl (sub32 bit bl.state.base_bit))
unfolding test bit_at
test-eq bl bit v =
    let b = sub32 bit bl.state.base_bit in
    let w = get_or bl.bits (b / 32) 0 in
    rw (valid_bit_iff_lt bl b v, bit_and_low b) (ground (arith, bit_and-two_pow (b % 32) w))

-- the bit numbers that the list holds: `base_bit` up to `base_bit + max_bits - 1`
abbrev pub has_bit : Bitlist → ℕ → Bool
has_bit bl bit = ltb (sub32 bit bl.state.base_bit) bl.state.max_bits

-- the bits of the last element that stand for no bit number are clear
abbrev pub IsTrimmed : Bitlist → Type 0
IsTrimmed bl = (i : ℕ) → bl.state.max_bits ≤ i → i < bl.state.max_elems * 32 → bit_at bl i ≡ false

pub test_outside :
    (bl : Bitlist) (bit : ℕ) → IsValid bl → has_bit bl bit ≡ false → test bl bit ≡ false
test_outside bl bit v out = rw (test-eq bl bit v, out)

-- In a list whose numbers do not wrap, these are the numbers of an interval.
pub has_bit_iff :
    (bl : Bitlist) (bit : ℕ)
    → bl.state.base_bit + bl.state.max_bits ≤ 2 ^ 32
    → bit < 2 ^ 32
    → (has_bit bl bit ≡ true)
      ↔ ((bl.state.base_bit ≤ bit) × (bit < bl.state.base_bit + bl.state.max_bits))
has_bit_iff bl bit h lt = ground arith

-- `AreWords` of a list that is written out
abbrev pub AllWords : List ℕ → Type 0
AllWords [] = Unit {0}
AllWords (x ∷ xs) = (x < 2 ^ 32) × AllWords xs

pub AllWords-AreWords : (xs : List ℕ) → AllWords xs → AreWords xs
AllWords-AreWords [] h i = omega arith
AllWords-AreWords (x ∷ xs) h zero = h.0
AllWords-AreWords (x ∷ xs) h (suc i) = AllWords-AreWords xs h.1 i
