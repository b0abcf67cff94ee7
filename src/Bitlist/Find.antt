-- ===== src/Bitlist/Find.antt =====
-- `bitlist_find_bit` and the three functions on top of it. A function returns the list with its
-- new search position beside the bit number that it found.
pub mod Scan
pub mod Laws
use my_test_files.Prelude.{
  ℕ, zero, suc, ◌+◌, ◌-◌, ◌*◌, ◌^◌, Bool, true, false, not, List, leb, ◌==◌, if◌then◌else◌, get_or,
  bit_and, Option, none, some,
}
use my_test_files.Prelude.Word.{sub32, add32}
use my_test_files.Bitlist.{State, Bitlist, invalid, valid_bit, bit_to_elem, bit_to_bit}

-- `while (bit < BITS_PER_ELEM)` on one element, with `left` rounds to go
find_in_word : ℕ → ℕ → ℕ → Option ℕ
find_in_word zero bits bit = none
find_in_word (suc left) bits bit =
    let rest = find_in_word left bits (bit + 1) in
    if not (bit_and bits (2 ^ bit) == 0) then some bit else rest

-- the `for` loop with `left` elements to go; its result is `elem` and `bit` at the label `found`
pub scan : List ℕ → ℕ → ℕ → ℕ → ℕ × ℕ
unfolding find_in_word
scan xs zero elem bit = (elem, bit)
scan xs (suc left) elem bit =
    let next = scan xs left (elem + 1) 0 in
    let bits = get_or xs elem 0 in
    if leb 32 bit
    then next
    else if bits == 0
    then next
    else elim (find_in_word (32 - bit) bits bit) [ some b ↦ (elem, b) | none ↦ next ]

abbrev pub position_at : Bitlist → ℕ → ℕ → Bitlist
position_at bl elem bit = record bl { state = record bl.state { last_elem = elem; last_bit = bit } }

-- what follows the label `found`
pub finish : Bitlist → ℕ × ℕ → Bitlist × ℕ
finish bl (elem, bit) =
    let n = elem * 32 + bit in
    if leb bl.state.max_elems elem
    then (position_at bl elem bit, invalid)
    else if leb bl.state.max_bits n
    then (position_at bl bl.state.max_elems bit, invalid)
    else (position_at bl elem bit, add32 n bl.state.base_bit)

unfoldable pub find_bit : Bitlist → Bool → Bitlist × ℕ
unfolding scan finish
find_bit bl first =
    let elem = bl.state.last_elem in
    let elems = bl.state.max_elems in
    if first
    then finish bl (scan bl.bits elems 0 0)
    else if leb elems elem
    then (bl, invalid)
    else finish bl (scan bl.bits (elems - elem) elem (bl.state.last_bit + 1))

unfoldable pub find_next : Bitlist → Bitlist × ℕ
unfolding find_bit
find_next bl = find_bit bl false

unfoldable pub find_first : Bitlist → Bitlist × ℕ
unfolding find_bit
find_first bl = find_bit bl true

unfoldable pub find_after : Bitlist → ℕ → Bitlist × ℕ
unfolding find_bit
find_after bl bit =
    let b = sub32 bit bl.state.base_bit in
    if not (valid_bit bl b)
    then (bl, invalid)
    else find_bit (position_at bl (bit_to_elem b) (bit_to_bit b)) false
