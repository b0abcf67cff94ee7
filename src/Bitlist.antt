-- ===== src/Bitlist.antt =====
-- bitlist.c and bitlist.h: dynamic bit lists. An `int` or `uint32` is its 32-bit pattern, so the
-- mixed signed and unsigned arithmetic of the source is arithmetic modulo 2 ^ 32. The messages
-- that `bitlist_validbit` logs are left out. A read of `bits` out of range is 0 and a write there
-- does nothing: `View` shows that a valid bit lies inside the array.
pub mod View
pub mod Edit
pub mod Whole
pub mod Range
pub mod Find
pub mod Combine
pub mod Count
pub mod Copy
pub mod Parse
pub mod Print
mod Tests
use my_test_files.Prelude.{
  ℕ, ◌+◌, ◌-◌, ◌/◌, ◌%◌, ◌^◌, Bool, true, false, not, ◌||◌, List, ltb, leb, ◌==◌, if◌then◌else◌,
  get_or, bit_and, bit_or,
}
use my_test_files.Prelude.{set as store}
use my_test_files.Prelude.Word.{add32, sub32, not32, is_neg, div_int, mod_int}
use my_test_files.Prelude.Memory.{fill, blit}

-- `bitlist_state_t`
pub record State : Type 0 where
  pub max_elems : ℕ
  pub max_bits : ℕ
  pub base_bit : ℕ
  pub last_elem : ℕ
  pub last_bit : ℕ

-- `bitlist_t`
pub record Bitlist : Type 0 where
  pub state : State
  pub bits : List ℕ

-- BITLIST_INVALID, the pattern of -1
abbrev pub invalid : ℕ
invalid = 2 ^ 32 - 1

-- BITS_TO_ELEMS of an `int`
abbrev pub bits_to_elems : ℕ → ℕ
bits_to_elems bits = div_int (add32 bits 31) 32

-- BIT_TO_ELEM of an unsigned value, or of an `int` that is not negative
abbrev pub bit_to_elem : ℕ → ℕ
bit_to_elem bit = bit / 32

-- BIT_TO_BIT
abbrev pub bit_to_bit : ℕ → ℕ
bit_to_bit bit = bit_and bit 31

-- BIT_TO_MASK
abbrev pub bit_to_mask : ℕ → ℕ
bit_to_mask bit = 2 ^ bit_to_bit bit

pub valid_bit : Bitlist → ℕ → Bool
valid_bit bl bit = if is_neg bit || leb bl.state.max_bits bit then false else true

pub valid_range : Bitlist → ℕ → ℕ → Bool
unfolding valid_bit
valid_range bl bit bits =
    if not (valid_bit bl (sub32 bit bl.state.base_bit))
    then false
    else if not (valid_bit bl (sub32 (sub32 (add32 bit bits) bl.state.base_bit) 1))
    then false
    else true

pub test : Bitlist → ℕ → Bool
test bl bit =
    let b = sub32 bit bl.state.base_bit in
    if not (valid_bit bl b)
    then false
    else if bit_and (get_or bl.bits (bit_to_elem b) 0) (bit_to_mask b) == 0
    then false
    else true

pub set : Bitlist → ℕ → Bitlist
set bl bit =
    let b = sub32 bit bl.state.base_bit in
    let e = bit_to_elem b in
    if valid_bit bl b
    then record bl { bits = store bl.bits e (bit_or (get_or bl.bits e 0) (bit_to_mask b)) }
    else bl

pub clear : Bitlist → ℕ → Bitlist
clear bl bit =
    let b = sub32 bit bl.state.base_bit in
    let e = bit_to_elem b in
    if valid_bit bl b
    then record bl { bits = store bl.bits e (bit_and (get_or bl.bits e 0) (not32 (bit_to_mask b))) }
    else bl

-- the five assignments that `bitlist_setall` and `bitlist_clearall` begin with
abbrev pub fresh_state : ℕ → ℕ → State
fresh_state bits base = record {
  max_elems = bits_to_elems bits;
  max_bits = bits;
  base_bit = base;
  last_elem = 0;
  last_bit = 0;
}

-- `if (BIT_TO_BIT(bits)) bl->bits[max_elems - 1] &= BIT_TO_MASK(bits) - 1`
abbrev pub trim : List ℕ → ℕ → ℕ → List ℕ
trim xs elems bits =
    let last = sub32 elems 1 in
    if bit_to_bit bits == 0
    then xs
    else store xs last (bit_and (get_or xs last 0) (sub32 (bit_to_mask bits) 1))

pub setall : Bitlist → ℕ → ℕ → Bitlist
setall bl bits base =
    let st = fresh_state bits base in
    record { state = st; bits = trim (fill bl.bits 0 st.max_elems (2 ^ 32 - 1)) st.max_elems bits }

pub clearall : Bitlist → ℕ → ℕ → Bitlist
clearall bl bits base =
    let st = fresh_state bits base in record { state = st; bits = fill bl.bits 0 st.max_elems 0 }

pub clearall2 : Bitlist → Bitlist
clearall2 bl = record bl { bits = fill bl.bits 0 bl.state.max_elems 0 }

-- the guards of the two functions below: the range is valid, and both its start and its length
-- are multiples of 32
pub is_aligned_range : Bitlist → ℕ → ℕ → Bool
unfolding valid_range
is_aligned_range bl bit bits =
    if not (valid_range bl bit bits)
    then false
    else if not (sub32 bit bl.state.base_bit % 32 == 0)
    then false
    else if not (mod_int bits 32 == 0)
    then false
    else true

pub set_contiguous : Bitlist → ℕ → ℕ → Bitlist
set_contiguous bl bit bits =
    let first = bit_to_elem (sub32 bit bl.state.base_bit) in
    if is_aligned_range bl bit bits
    then record bl { bits = fill bl.bits first (bits_to_elems bits) (2 ^ 32 - 1) }
    else bl

pub clear_contiguous : Bitlist → ℕ → ℕ → Bitlist
clear_contiguous bl bit bits =
    let first = bit_to_elem (sub32 bit bl.state.base_bit) in
    if is_aligned_range bl bit bits
    then record bl { bits = fill bl.bits first (bits_to_elems bits) 0 }
    else bl

-- `bitlist_size`
pub size : Bitlist → ℕ
size bl = bl.state.max_bits
