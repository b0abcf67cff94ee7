-- ===== src/Bitlist/Whole.antt =====
-- `bitlist_setall`, `bitlist_clearall` and `bitlist_clearall2`: every bit at once.
use my_test_files.Prelude.{
  ◌≢◌, ℕ, ◌+◌, ◌-◌, ◌/◌, ◌%◌, ◌^◌, ◌≤◌, ◌<◌, ◌≡◌, refl, ◌∙◌, ap, false, List, arith, ltb, ◌==◌,
  if◌then◌else◌, get_or, length, bit_and, length-set, get_or-set_self, get_or-set_ne, set_outside,
  Bool-cases, inl, inr,
}
use my_test_files.Prelude.{set as store}
use my_test_files.Prelude.Memory.{fill, length-fill, get_or-fill}
use my_test_files.Prelude.Bits.{
  test_bit, bit_and_low, test_bit-bit_and, test_bit-mask, bit_and-le, zero-test_bit, two_pow-lt,
}
use native.Mathlib.Nat.{one-le-pow}
use my_test_files.Prelude.Word.{sub32}
use my_test_files.Bitlist.{Bitlist, test, setall, clearall, bits_to_elems, trim, fresh_state}
use my_test_files.Bitlist.View.{bit_at, IsValid, IsTrimmed, AreWords, test-eq}

-- Writes of words keep every element a word.
pub fill-AreWords :
    (xs : List ℕ) (i n w : ℕ)
    → i + n ≤ length xs
    → w < 2 ^ 32
    → AreWords xs
    → AreWords (fill xs i n w)
fill-AreWords xs i n w room hw words k = rw (get_or-fill xs i n w k room) (ground (arith, words k))

pub store-AreWords : (xs : List ℕ) (i w : ℕ) → w < 2 ^ 32 → AreWords xs → AreWords (store xs i w)
store-AreWords xs i w hw words k = ground (
  arith,
  get_or-set_self xs i w 0,
  get_or-set_ne xs i k w 0,
  set_outside xs i w,
  words k,
  words i,
)

-- what the two functions ask of the storage and of their arguments
pub record IsRoomy (bl : Bitlist) (bits base : ℕ) : Type 0 where
  pub small : bits + 31 < 2 ^ 31
  pub based : base < 2 ^ 32
  pub room : (bits + 31) / 32 ≤ length bl.bits
  pub words : AreWords bl.bits

bits_to_elems_lem : (bits : ℕ) → bits + 31 < 2 ^ 31 → bits_to_elems bits ≡ (bits + 31) / 32
bits_to_elems_lem bits h = ground arith

-- the element that `trim` cuts and the mask that it cuts it with
last_elem_lem : (n : ℕ) → 0 < n → n < 2 ^ 32 → sub32 n 1 ≡ n - 1
last_elem_lem n h k = omega arith

mask_lem : (k : ℕ) → k < 32 → sub32 (2 ^ k) 1 ≡ 2 ^ k - 1
mask_lem k h = omega (arith, two_pow-lt k 32 h, one-le-pow k 2)

module _ (xs : List ℕ) (bits : ℕ) (small : bits + 31 < 2 ^ 31) where
  abbrev elems : ℕ
  elems = (bits + 31) / 32

  trim_lem : trim xs elems bits ≡ (
      if bits % 32 == 0
      then xs
      else store xs (elems - 1) (bit_and (get_or xs (elems - 1) 0) (2 ^ (bits % 32) - 1)))
  trim_lem = rw (bit_and_low bits) (elim (Bool-cases (bits % 32 == 0)) [
    | inl e ↦ rw e
    | inr e ↦
        rw (e, mask_lem (bits % 32) (omega arith), last_elem_lem elems (ground arith) (omega arith))
  ])

  -- the digit of an element that is trimmed
  test_bit-store :
      (i : ℕ)
      → elems ≤ length xs
      → bits % 32 ≢ 0
      → ((j : ℕ) → j < elems → get_or xs j 0 ≡ 2 ^ 32 - 1)
      → i / 32 < elems
      → test_bit
          (get_or (store xs (elems - 1) (bit_and (2 ^ 32 - 1) (2 ^ (bits % 32) - 1))) (i / 32) 0)
          (i % 32)
        ≡ ltb i bits
  test_bit-store i room ne ones inside =
      let w = bit_and (2 ^ 32 - 1) (2 ^ (bits % 32) - 1) in
      elim (Bool-cases (i / 32 == elems - 1)) [
        | inl e ↦
            let last : i / 32 ≡ elems - 1 = ground arith in
            rw
              (
                last,
                get_or-set_self xs (elems - 1) w 0 (omega arith),
                test_bit-bit_and (i % 32) (2 ^ 32 - 1) (2 ^ (bits % 32) - 1),
                test_bit-mask 32 (i % 32),
                test_bit-mask (bits % 32) (i % 32),
              )
              (ground arith)
        | inr e ↦
            rw
              (
                get_or-set_ne xs (elems - 1) (i / 32) w 0 (ground arith),
                ones (i / 32) inside,
                test_bit-mask 32 (i % 32),
              )
              (ground arith)
      ]

  -- After the trimming an element of ones has a digit for each bit below `bits`.
  test_bit-trim :
      (i : ℕ)
      → elems ≤ length xs
      → ((j : ℕ) → j < elems → get_or xs j 0 ≡ 2 ^ 32 - 1)
      → i / 32 < elems
      → test_bit (get_or (trim xs elems bits) (i / 32) 0) (i % 32) ≡ ltb i bits
  test_bit-trim i room ones inside = rw trim_lem (elim (Bool-cases (bits % 32 == 0)) [
    | inl e ↦ rw (e, ones (i / 32) inside, test_bit-mask 32 (i % 32)) (ground arith)
    | inr e ↦
        rw (e, ones (elems - 1) (ground arith)) (test_bit-store i room (ground arith) ones inside)
  ])

  trim-AreWords : AreWords xs → AreWords (trim xs elems bits)
  trim-AreWords words =
      let w = get_or xs (elems - 1) 0 in
      let m = 2 ^ (bits % 32) - 1 in
      rw trim_lem (elim (Bool-cases (bits % 32 == 0)) [
        | inl e ↦ rw e words
        | inr e ↦ rw e (
            store-AreWords xs (elems - 1) (bit_and w m)
              (omega (arith, bit_and-le w w m, words (elems - 1))) words)
      ])

  length-trim : length (trim xs elems bits) ≡ length xs
  length-trim =
      rw trim_lem (elim (Bool-cases (bits % 32 == 0)) [ inl e ↦ rw e | inr e ↦ rw (e, length-set) ])

module _ (bl : Bitlist) (bits base : ℕ) (r : IsRoomy bl bits base) where
  ones : List ℕ
  ones = fill bl.bits 0 ((bits + 31) / 32) (2 ^ 32 - 1)

  bits-setall : (setall bl bits base).bits ≡ trim ones ((bits + 31) / 32) bits
  unfolding setall ones
  bits-setall = rw (bits_to_elems_lem bits r.small)

  get_or-ones : (j : ℕ) → j < (bits + 31) / 32 → get_or ones j 0 ≡ 2 ^ 32 - 1
  unfolding ones
  get_or-ones j h =
      get_or-fill bl.bits 0 ((bits + 31) / 32) (2 ^ 32 - 1) j (omega (arith, r.room)) ∙ ground arith

  ones-AreWords : AreWords ones
  unfolding ones
  ones-AreWords =
      fill-AreWords bl.bits 0 ((bits + 31) / 32) (2 ^ 32 - 1) (omega (arith, r.room)) (omega arith)
        r.words

  length-ones : length ones ≡ length bl.bits
  unfolding ones
  length-ones = length-fill bl.bits 0 ((bits + 31) / 32) (2 ^ 32 - 1)

  state-setall : (setall bl bits base).state ≡ fresh_state bits base
  unfolding setall
  state-setall = refl

  length_kept : length (setall bl bits base).bits ≡ length bl.bits
  length_kept = ap length bits-setall ∙ length-trim ones bits r.small ∙ length-ones

  setall-IsValid : IsValid (setall bl bits base)
  unfolding setall
  setall-IsValid = record {
    elems = bits_to_elems_lem bits r.small;
    room = omega (arith, bits_to_elems_lem bits r.small, length_kept, r.room);
    small = r.small;
    base = r.based;
    words = rw bits-setall (trim-AreWords ones bits r.small ones-AreWords);
  }

  bit_at-setall : (i : ℕ) → i / 32 < (bits + 31) / 32 → bit_at (setall bl bits base) i ≡ ltb i bits
  unfolding bit_at
  bit_at-setall i h =
      rw bits-setall (test_bit-trim ones bits r.small i (rw length-ones r.room) get_or-ones h)

  clearall-IsValid : IsValid (clearall bl bits base)
  unfolding clearall
  clearall-IsValid =
      let e = bits_to_elems_lem bits r.small in
      record {
        elems = e;
        room = rw length-fill (rw e r.room);
        small = r.small;
        base = r.based;
        words = rw e (
            fill-AreWords bl.bits 0 ((bits + 31) / 32) 0 (omega (arith, r.room)) (omega arith)
              r.words);
      }

  get_or-clearall : (j : ℕ) → j < (bits + 31) / 32 → get_or (clearall bl bits base).bits j 0 ≡ 0
  unfolding clearall
  get_or-clearall j h =
      rw (bits_to_elems_lem bits r.small)
        (get_or-fill bl.bits 0 ((bits + 31) / 32) 0 j (omega (arith, r.room)) ∙ ground arith)

  bit_at-clearall : (i : ℕ) → i / 32 < (bits + 31) / 32 → bit_at (clearall bl bits base) i ≡ false
  unfolding bit_at
  bit_at-clearall i h = rw (get_or-clearall (i / 32) h) (zero-test_bit (i % 32))

  setall-IsTrimmed : IsTrimmed (setall bl bits base)
  unfolding setall
  setall-IsTrimmed i lo hi =
      bit_at-setall i (omega (arith, bits_to_elems_lem bits r.small)) ∙ ground arith

  test-setall : (bit : ℕ) → test (setall bl bits base) bit ≡ ltb (sub32 bit base) bits
  unfolding setall
  test-setall bit =
      test-eq (setall bl bits base) bit setall-IsValid
      ∙ ground (arith, bit_at-setall (sub32 bit base))

  clearall-IsTrimmed : IsTrimmed (clearall bl bits base)
  unfolding clearall
  clearall-IsTrimmed i lo hi = bit_at-clearall i (omega (arith, bits_to_elems_lem bits r.small))

  test-clearall : (bit : ℕ) → test (clearall bl bits base) bit ≡ false
  unfolding clearall
  test-clearall bit =
      test-eq (clearall bl bits base) bit clearall-IsValid
      ∙ ground (arith, bit_at-clearall (sub32 bit base))

  -- On storage for `bits` bits, `bitlist_setall` makes a well-formed list with clear overflow bits
  -- in which exactly the numbers from `base` to `base + bits - 1` (modulo 2 ^ 32) read as set.
  pub setall_lem :
      IsValid (setall bl bits base)
      × IsTrimmed (setall bl bits base)
      × ((bit : ℕ) → test (setall bl bits base) bit ≡ ltb (sub32 bit base) bits)
  setall_lem = (setall-IsValid, setall-IsTrimmed, test-setall)

  -- On storage for `bits` bits, `bitlist_clearall` makes a well-formed list with clear overflow
  -- bits in which every number reads as clear.
  pub clearall_lem :
      IsValid (clearall bl bits base)
      × IsTrimmed (clearall bl bits base)
      × ((bit : ℕ) → test (clearall bl bits base) bit ≡ false)
  clearall_lem = (clearall-IsValid, clearall-IsTrimmed, test-clearall)

  -- On storage for `bits` bits, `bitlist_setall` and `bitlist_clearall` make well-formed lists with
  -- clear overflow bits. After the first exactly the numbers from `base` to `base + bits - 1`
  -- (modulo 2 ^ 32) read as set, after the second none.
  pub all_lem :
      (IsValid (setall bl bits base)
        × IsTrimmed (setall bl bits base)
        × ((bit : ℕ) → test (setall bl bits base) bit ≡ ltb (sub32 bit base) bits))
      × (IsValid (clearall bl bits base)
          × IsTrimmed (clearall bl bits base)
          × ((bit : ℕ) → test (clearall bl bits base) bit ≡ false))
  all_lem = (setall_lem, clearall_lem)
