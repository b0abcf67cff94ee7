-- ===== src/Bitlist/Edit.antt =====
-- `bitlist_set` and `bitlist_clear`: one bit changes, and only if its number is valid.
use my_test_files.Prelude.{
  ℕ, ◌/◌, ◌%◌, ◌^◌, ◌<◌, ◌≡◌, true, false, not, ◌&&◌, ◌||◌, arith, ltb, ◌==◌, if◌then◌else◌, get_or,
  bit_and, bit_or, length-set, get_or-set_self, get_or-set_ne, Bool-cases, inl, inr,
}
use my_test_files.Prelude.{set as store}
use my_test_files.Prelude.Bits.{
  test_bit, bit_and_low, test_bit-bit_or, test_bit-bit_and, test_bit-two_pow, test_bit-complement,
  bit_or-lt, bit_and-le, two_pow-lt,
}
use my_test_files.Prelude.Word.{sub32, not32}
use my_test_files.Bitlist.{Bitlist, test, set, clear}
use my_test_files.Bitlist.View.{bit_at, IsValid, has_bit, valid_bit_iff_lt, elem-lt, test-eq}

module _ (bl : Bitlist) (v : IsValid bl) (b : ℕ) (in_range : b < bl.state.max_bits) where
  -- what storing a word over the one that holds bit `b` does to the other bits
  bit_at-store :
      (w i : ℕ)
      → bit_at (record bl { bits = store bl.bits (b / 32) w }) i
        ≡ (if b / 32 == i / 32 then test_bit w (i % 32) else bit_at bl i)
  unfolding bit_at
  bit_at-store w i = ground (
    arith,
    elem-lt bl b v in_range,
    get_or-set_self bl.bits (b / 32) w 0,
    get_or-set_ne bl.bits (b / 32) (i / 32) w 0,
  )

  store-IsValid : (w : ℕ) → w < 2 ^ 32 → IsValid (record bl { bits = store bl.bits (b / 32) w })
  store-IsValid w h = record {
    elems = v.elems;
    room = rw length-set v.room;
    small = v.small;
    base = v.base;
    words = λ i. ground (
      arith,
      elem-lt bl b v in_range,
      get_or-set_self bl.bits (b / 32) w 0,
      get_or-set_ne bl.bits (b / 32) i w 0,
      v.words i,
    );
  }

same_bit : (b i : ℕ) → (b == i) ≡ (b / 32 == i / 32 && b % 32 == i % 32)
same_bit b i = ground arith

same_word :
    (bl : Bitlist) (b i : ℕ)
    → (b / 32 == i / 32) ≡ true
    → test_bit (get_or bl.bits (b / 32) 0) (i % 32) ≡ bit_at bl i
unfolding bit_at
same_word bl b i h = let e : b / 32 ≡ i / 32 = ground arith in rw e

set_case :
    (bl : Bitlist) (b i : ℕ)
    → (if b / 32 == i / 32
        then test_bit (get_or bl.bits (b / 32) 0) (i % 32) || (b % 32 == i % 32)
        else bit_at bl i)
      ≡ (if b == i then true else bit_at bl i)
set_case bl b i = rw (same_bit b i) (elim (Bool-cases (b / 32 == i / 32)) [
  | inl e ↦ rw (e, same_word bl b i e) (ground arith)
  | inr e ↦ rw e
])

clear_case :
    (bl : Bitlist) (b i : ℕ)
    → (if b / 32 == i / 32
        then test_bit (get_or bl.bits (b / 32) 0) (i % 32) && not (b % 32 == i % 32)
        else bit_at bl i)
      ≡ (if b == i then false else bit_at bl i)
clear_case bl b i = rw (same_bit b i) (elim (Bool-cases (b / 32 == i / 32)) [
  | inl e ↦ rw (e, same_word bl b i e) (ground arith)
  | inr e ↦ rw e
])

bit_at-set :
    (bl : Bitlist) (bit i : ℕ)
    → IsValid bl
    → bit_at (set bl bit) i ≡ (
        let b = sub32 bit bl.state.base_bit in
        if ltb b bl.state.max_bits && b == i then true else bit_at bl i)
unfolding set
bit_at-set bl bit i v =
    let b = sub32 bit bl.state.base_bit in
    let w = get_or bl.bits (b / 32) 0 in
    rw (valid_bit_iff_lt bl b v, bit_and_low b)
      (elim (Bool-cases (ltb b bl.state.max_bits)) [
        | inr out ↦ rw out
        | inl inside ↦
            rw
              (
                inside,
                bit_at-store bl v b (ground arith) (bit_or w (2 ^ (b % 32))) i,
                test_bit-bit_or,
                test_bit-two_pow,
              )
              (set_case bl b i)
      ])

bit_at-clear :
    (bl : Bitlist) (bit i : ℕ)
    → IsValid bl
    → bit_at (clear bl bit) i ≡ (
        let b = sub32 bit bl.state.base_bit in
        if ltb b bl.state.max_bits && b == i then false else bit_at bl i)
unfolding clear
bit_at-clear bl bit i v =
    let b = sub32 bit bl.state.base_bit in
    let w = get_or bl.bits (b / 32) 0 in
    let m = two_pow-lt (b % 32) 32 (omega arith) in
    rw (valid_bit_iff_lt bl b v, bit_and_low b)
      (elim (Bool-cases (ltb b bl.state.max_bits)) [
        | inr out ↦ rw out
        | inl inside ↦
            rw
              (
                inside,
                bit_at-store bl v b (ground arith) (bit_and w (not32 (2 ^ (b % 32)))) i,
                test_bit-bit_and,
                test_bit-complement 32 (2 ^ (b % 32)) (i % 32) m (omega arith),
                test_bit-two_pow,
              )
              (clear_case bl b i)
      ])

pub set-IsValid : (bl : Bitlist) (bit : ℕ) → IsValid bl → IsValid (set bl bit)
unfolding set
set-IsValid bl bit v =
    let b = sub32 bit bl.state.base_bit in
    let w = get_or bl.bits (b / 32) 0 in
    let m = two_pow-lt (b % 32) 32 (omega arith) in
    rw (valid_bit_iff_lt bl b v, bit_and_low b)
      (elim (Bool-cases (ltb b bl.state.max_bits)) [
        | inr out ↦ rw out v
        | inl inside ↦ rw inside (
            store-IsValid bl v b (ground arith) (bit_or w (2 ^ (b % 32)))
              (bit_or-lt 32 w (2 ^ (b % 32)) (v.words (b / 32)) m))
      ])

clear-IsValid : (bl : Bitlist) (bit : ℕ) → IsValid bl → IsValid (clear bl bit)
unfolding clear
clear-IsValid bl bit v =
    let b = sub32 bit bl.state.base_bit in
    let w = get_or bl.bits (b / 32) 0 in
    let m = bit_and-le w w (not32 (2 ^ (b % 32))) (omega arith) in
    rw (valid_bit_iff_lt bl b v, bit_and_low b)
      (elim (Bool-cases (ltb b bl.state.max_bits)) [
        | inr out ↦ rw out v
        | inl inside ↦ rw inside (
            store-IsValid bl v b (ground arith) (bit_and w (not32 (2 ^ (b % 32))))
              (omega (arith, m, v.words (b / 32))))
      ])

pub state-set : (bl : Bitlist) (bit : ℕ) → (set bl bit).state ≡ bl.state
unfolding set
state-set bl bit = ground arith

state-clear : (bl : Bitlist) (bit : ℕ) → (clear bl bit).state ≡ bl.state
unfolding clear
state-clear bl bit = ground arith

same_number :
    (a b c : ℕ) → a < 2 ^ 32 → b < 2 ^ 32 → c < 2 ^ 32 → (sub32 a c == sub32 b c) ≡ (a == b)
same_number a b c ha hb hc = ground arith

-- After `bitlist_set` of a number that the list has, that number reads as set and every other one
-- as before. A set of a number that the list does not have changes no test.
pub test-set :
    (bl : Bitlist) (bit other : ℕ)
    → IsValid bl
    → bit < 2 ^ 32
    → other < 2 ^ 32
    → test (set bl bit) other ≡ (if has_bit bl bit && bit == other then true else test bl other)
unfolding bit_at
test-set bl bit other v hb ho =
    rw
      (
        test-eq (set bl bit) other (set-IsValid bl bit v),
        test-eq bl other v,
        state-set bl bit,
        bit_at-set bl bit (sub32 other bl.state.base_bit) v,
        same_number bit other bl.state.base_bit hb ho v.base,
      )
      (ground (arith, v.base))

-- After `bitlist_clear` of any number that number reads as clear, and every other one as before.
pub test-clear :
    (bl : Bitlist) (bit other : ℕ)
    → IsValid bl
    → bit < 2 ^ 32
    → other < 2 ^ 32
    → test (clear bl bit) other ≡ (if bit == other then false else test bl other)
unfolding bit_at
test-clear bl bit other v hb ho =
    rw
      (
        test-eq (clear bl bit) other (clear-IsValid bl bit v),
        test-eq bl other v,
        state-clear bl bit,
        bit_at-clear bl bit (sub32 other bl.state.base_bit) v,
        same_number bit other bl.state.base_bit hb ho v.base,
      )
      (ground (arith, v.base))

-- On a well-formed list and numbers below 2 ^ 32: after `bitlist_set` of a number that the list
-- has, that number reads as set and every other one as before, and a set of another number changes
-- no test. After `bitlist_clear` of any number, that number reads as clear and every other one
-- as before.
pub test-set-clear :
    (bl : Bitlist) (bit other : ℕ)
    → IsValid bl
    → bit < 2 ^ 32
    → other < 2 ^ 32
    → (test (set bl bit) other ≡ (if has_bit bl bit && bit == other then true else test bl other))
      × (test (clear bl bit) other ≡ (if bit == other then false else test bl other))
test-set-clear bl bit other v hb ho =
    (test-set bl bit other v hb ho, test-clear bl bit other v hb ho)
