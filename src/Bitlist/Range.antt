-- ===== src/Bitlist/Range.antt =====
-- `bitlist_set_contiguous` and `bitlist_clear_contiguous`: whole elements inside a valid range.
use my_test_files.Prelude.{
  ℕ, ◌+◌, ◌-◌, ◌*◌, ◌/◌, ◌%◌, ◌^◌, ◌≤◌, ◌<◌, ◌≡◌, refl, ◌∙◌, sym, Bool, true, false, ◌&&◌, arith,
  ltb, leb, ◌==◌, if◌then◌else◌, length, Bool-cases, inl, inr, lt→ltb,
}
use my_test_files.Prelude.Memory.{fill, length-fill, get_or-fill}
use my_test_files.Prelude.Bits.{test_bit, test_bit-mask, zero-test_bit}
use my_test_files.Prelude.Word.{sub32, add32}
use my_test_files.Bitlist.{
  Bitlist, test, valid_range, is_aligned_range, set_contiguous, clear_contiguous, bits_to_elems,
}
use my_test_files.Bitlist.View.{bit_at, IsValid, valid_bit_iff_lt, test-eq}
use my_test_files.Bitlist.Whole.{fill-AreWords}

-- the range lies inside the list, and starts and ends between two elements
abbrev pub is_block : Bitlist → ℕ → ℕ → Bool
is_block bl bit bits =
    let b = sub32 bit bl.state.base_bit in
    leb (b + bits) bl.state.max_bits && b % 32 == 0 && bits % 32 == 0

pub range_iff :
    (bl : Bitlist) (bit bits : ℕ)
    → IsValid bl
    → bit < 2 ^ 32
    → 0 < bits
    → bits < 2 ^ 31
    → valid_range bl bit bits ≡ leb (sub32 bit bl.state.base_bit + bits) bl.state.max_bits
unfolding valid_range
range_iff bl bit bits v h p k =
    let base = bl.state.base_bit in
    rw
      (
        valid_bit_iff_lt bl (sub32 bit base) v,
        valid_bit_iff_lt bl (sub32 (sub32 (add32 bit bits) base) 1) v,
      )
      (ground (arith, v.small, v.base))

block_iff :
    (bl : Bitlist) (bit bits : ℕ)
    → IsValid bl
    → bit < 2 ^ 32
    → 0 < bits
    → bits < 2 ^ 31
    → is_aligned_range bl bit bits ≡ is_block bl bit bits
unfolding is_aligned_range
block_iff bl bit bits v h p k = rw (range_iff bl bit bits v h p k) (ground arith)

-- `n` elements from `first` on become `w`
abbrev filled : Bitlist → ℕ → ℕ → ℕ → Bitlist
filled bl first n w = record bl { bits = fill bl.bits first n w }

module _ (bl : Bitlist) (v : IsValid bl) (first n w : ℕ) (room : first + n ≤ length bl.bits) where
  filled-IsValid : w < 2 ^ 32 → IsValid (filled bl first n w)
  filled-IsValid h = record {
    elems = v.elems;
    room = rw length-fill v.room;
    small = v.small;
    base = v.base;
    words = fill-AreWords bl.bits first n w room h v.words;
  }

  bit_at-filled :
      (c : Bool) (i : ℕ)
      → test_bit w (i % 32) ≡ c
      → bit_at (filled bl first n w) i
        ≡ (if leb (first * 32) i && ltb i ((first + n) * 32) then c else bit_at bl i)
  unfolding bit_at
  bit_at-filled c i e =
      rw (get_or-fill bl.bits first n w (i / 32) room)
        (elim (Bool-cases (leb first (i / 32) && ltb (i / 32) (first + n))) [
          | inl inside ↦ rw (inside, e) (ground arith)
          | inr outside ↦ rw outside (ground arith)
        ])

-- the list after a fill of the range with `w`
abbrev block : Bitlist → ℕ → ℕ → ℕ → Bitlist
block bl bit bits w = filled bl (sub32 bit bl.state.base_bit / 32) (bits / 32) w

module _ (bl : Bitlist) (v : IsValid bl) (bit bits : ℕ) (hb : bit < 2 ^ 32) where
  module _ (is : is_block bl bit bits ≡ true) where
    fits : sub32 bit bl.state.base_bit / 32 + bits / 32 ≤ length bl.bits
    fits = ground (arith, is, v.room, v.elems)

    block-IsValid : (w : ℕ) → w < 2 ^ 32 → IsValid (block bl bit bits w)
    block-IsValid w = filled-IsValid bl v (sub32 bit bl.state.base_bit / 32) (bits / 32) w fits

    test-block :
        (w : ℕ) (c : Bool) (other : ℕ)
        → w < 2 ^ 32
        → ((k : ℕ) → k < 32 → test_bit w k ≡ c)
        → other < 2 ^ 32
        → test (block bl bit bits w) other
          ≡ (if ltb (sub32 other bit) bits then c else test bl other)
    test-block w c other hw digits ho =
        let b = sub32 bit bl.state.base_bit in
        let o = sub32 other bl.state.base_bit in
        rw
          (
            test-eq bl other v,
            test-eq (block bl bit bits w) other (block-IsValid w hw),
            bit_at-filled bl v (b / 32) (bits / 32) w fits c o (digits (o % 32) (omega arith)),
          )
          (ground (arith, is, v.base, v.small))

ones_digits : (k : ℕ) → k < 32 → test_bit (2 ^ 32 - 1) k ≡ true
ones_digits k h = test_bit-mask 32 k ∙ lt→ltb k 32 h

either : (c : Bool) (bl : Bitlist) → (if c then bl else bl) ≡ bl
either true bl = refl
either false bl = refl

module _ (bl : Bitlist) (bit bits : ℕ) (v : IsValid bl) (hb : bit < 2 ^ 32)
    (hn : bits < 2 ^ 31) where
  elems_of_block : is_block bl bit bits ≡ true → bits_to_elems bits ≡ bits / 32
  elems_of_block is = ground arith

  -- A range of no bits is left alone, whether it passes the guards or not.
  set_contiguous_cases :
      set_contiguous bl bit bits
      ≡ (if is_block bl bit bits then block bl bit bits (2 ^ 32 - 1) else bl)
  unfolding set_contiguous fill
  set_contiguous_cases = elim (Bool-cases (bits == 0)) [
    | inl empty ↦ let e : bits ≡ 0 = ground arith in rw e (either _ bl ∙ sym (either _ bl))
    | inr more ↦
        rw (block_iff bl bit bits v hb (ground arith) hn)
          (elim (Bool-cases (is_block bl bit bits)) [
            | inl is ↦ rw (is, elems_of_block is)
            | inr is ↦ rw is
          ])
  ]

  clear_contiguous_cases :
      clear_contiguous bl bit bits ≡ (if is_block bl bit bits then block bl bit bits 0 else bl)
  unfolding clear_contiguous fill
  clear_contiguous_cases = elim (Bool-cases (bits == 0)) [
    | inl empty ↦ let e : bits ≡ 0 = ground arith in rw e (either _ bl ∙ sym (either _ bl))
    | inr more ↦
        rw (block_iff bl bit bits v hb (ground arith) hn)
          (elim (Bool-cases (is_block bl bit bits)) [
            | inl is ↦ rw (is, elems_of_block is)
            | inr is ↦ rw is
          ])
  ]

  -- On a well-formed list and a non-negative length, `bitlist_set_contiguous` sets the `bits`
  -- numbers from `bit` on if they lie inside the list and start and end between two elements, and
  -- else none. Every other number reads as before, and the list stays well formed.
  pub set_contiguous_lem :
      let r = set_contiguous bl bit bits in
      IsValid r
      × ((other : ℕ)
          → other < 2 ^ 32
          → test r other
            ≡ (if is_block bl bit bits && ltb (sub32 other bit) bits then true else test bl other))
  set_contiguous_lem = rw set_contiguous_cases (elim (Bool-cases (is_block bl bit bits)) [
    | inr out ↦ rw out (v, λ other ho. refl)
    | inl is ↦ rw is (
      block-IsValid bl v bit bits hb is (2 ^ 32 - 1) (omega arith),
      λ other ho.
          test-block bl v bit bits hb is (2 ^ 32 - 1) true other (omega arith) ones_digits ho,
    )
  ])

  -- `bitlist_clear_contiguous` clears the same numbers under the same conditions, leaves every
  -- other one, and keeps the list well formed.
  pub clear_contiguous_lem :
      let r = clear_contiguous bl bit bits in
      IsValid r
      × ((other : ℕ)
          → other < 2 ^ 32
          → test r other
            ≡ (if is_block bl bit bits && ltb (sub32 other bit) bits then false else test bl other))
  clear_contiguous_lem = rw clear_contiguous_cases (elim (Bool-cases (is_block bl bit bits)) [
    | inr out ↦ rw out (v, λ other ho. refl)
    | inl is ↦ rw is (
      block-IsValid bl v bit bits hb is 0 (omega arith),
      λ other ho.
          test-block bl v bit bits hb is 0 false other (omega arith) (λ k h. zero-test_bit k) ho,
    )
  ])

  -- On a well-formed list and a non-negative length, `bitlist_set_contiguous` sets the `bits`
  -- numbers from `bit` on if they lie inside the list and start and end between two elements, and
  -- else none, and `bitlist_clear_contiguous` clears the same numbers under the same conditions.
  -- Every other number reads as before, and the list stays well formed.
  pub contiguous_lem :
      (IsValid (set_contiguous bl bit bits)
        × ((other : ℕ)
            → other < 2 ^ 32
            → test (set_contiguous bl bit bits) other ≡ (
                if is_block bl bit bits && ltb (sub32 other bit) bits
                then true
                else test bl other)))
      × (IsValid (clear_contiguous bl bit bits)
          × ((other : ℕ)
              → other < 2 ^ 32
              → test (clear_contiguous bl bit bits) other ≡ (
                  if is_block bl bit bits && ltb (sub32 other bit) bits
                  then false
                  else test bl other)))
  contiguous_lem = (set_contiguous_lem, clear_contiguous_lem)
