-- ===== src/Bitlist/Copy.antt =====
-- `bitlist_copy`, the two copies between positions, `bitlist_alloc` and `bitlist_clone`. The source
-- and the target of a copy are different lists, as `memcpy` asks.
pub mod Laws
pub mod Alloc
use my_test_files.Prelude.{ℕ, ◌%◌, Bool, not, List, ◌==◌, if◌then◌else◌, Option, none, some, ◌>>=◌}
use my_test_files.Prelude.Word.{sub32, mod_int}
use my_test_files.Prelude.Memory.{blit}
use my_test_files.Bitlist.{Bitlist, valid_bit, valid_range, bit_to_elem, bits_to_elems, clearall}

unfoldable pub copy : Bitlist → Bitlist → Bitlist
copy from to = record { state = from.state; bits = blit to.bits 0 from.bits 0 from.state.max_elems }

-- Each guard that fails is an early return.
unfoldable pub copy_from_position : Bitlist → Bitlist → ℕ → ℕ → Bitlist
copy_from_position from to bit bits =
    let b = sub32 bit from.state.base_bit in
    if not (valid_range from bit bits)
    then to
    else if not (valid_bit to (sub32 bits 1))
    then to
    else if not (b % 32 == 0)
    then to
    else if not (mod_int bits 32 == 0)
    then to
    else record to { bits = blit to.bits 0 from.bits (bit_to_elem b) (bits_to_elems bits) }

-- The start is tested for alignment against the base of `from`, and used against that of `to`.
unfoldable pub copy_in_position : Bitlist → Bitlist → ℕ → ℕ → Bitlist
copy_in_position from to bit bits =
    if not (valid_bit from (sub32 bits 1))
    then to
    else if not (valid_range to bit bits)
    then to
    else if not (sub32 bit from.state.base_bit % 32 == 0)
    then to
    else if not (mod_int bits 32 == 0)
    then to
    else record to {
      bits =
          blit to.bits (bit_to_elem (sub32 bit to.state.base_bit)) from.bits 0 (bits_to_elems bits);
    }

-- `malloc` of a header and a number of elements: no block, or one with unknown contents.
module _ (malloc : ℕ → Option Bitlist) where
  unfoldable pub alloc : ℕ → ℕ → Option Bitlist
  alloc bits base = do bl ← malloc (bits_to_elems bits); some (clearall bl bits base)

  unfoldable pub clone : Bitlist → Bool → Option Bitlist
  unfolding alloc copy
  clone bl copy_bitlist = do
    new_bl ← alloc bl.state.max_bits bl.state.base_bit
    some (if copy_bitlist then copy bl new_bl else new_bl)
