-- ===== src/Bitlist/Copy/Laws.antt =====
-- Which bits a copy moves.
use my_test_files.Prelude.{
  ℕ, ◌+◌, ◌-◌, ◌*◌, ◌/◌, ◌%◌, ◌^◌, ◌≤◌, ◌<◌, ◌≡◌, refl, ◌∙◌, Bool, ◌&&◌, List, arith, ltb, leb,
  ltb→lt, ◌==◌, if◌then◌else◌, length, Bool-cases, inl, inr,
}
use my_test_files.Prelude.Word.{sub32}
use my_test_files.Prelude.Memory.{blit, get_or-blit, length-blit}
use my_test_files.Bitlist.{Bitlist, bits_to_elems, valid_bit}
use my_test_files.Bitlist.View.{bit_at, IsValid, AreWords, valid_bit_iff_lt}
use my_test_files.Bitlist.Range.{range_iff}
use my_test_files.Bitlist.Copy.{copy_from_position, copy_in_position}

pub blit-AreWords :
    (dst : List ℕ) (i : ℕ) (src : List ℕ) (j n : ℕ)
    → i + n ≤ length dst
    → AreWords dst
    → AreWords src
    → AreWords (blit dst i src j n)
blit-AreWords dst i src j n room hd hs k =
    rw (get_or-blit dst i src j n k room) (ground (arith, hd k, hs (j + (k - i))))

-- `n` elements of `from`, from element `j` on, go to the elements of `to` from `i` on
abbrev moved : Bitlist → Bitlist → ℕ → ℕ → ℕ → Bitlist
moved from to i j n = record to { bits = blit to.bits i from.bits j n }

module _ (from to : Bitlist) (i j n : ℕ) (room : i + n ≤ length to.bits) where
  bit_at-moved :
      (k : ℕ)
      → bit_at (moved from to i j n) k ≡ (
          if leb (i * 32) k && ltb k ((i + n) * 32)
          then bit_at from (j * 32 + (k - i * 32))
          else bit_at to k)
  unfolding bit_at
  bit_at-moved k =
      rw (get_or-blit to.bits i from.bits j n (k / 32) room)
        (elim (Bool-cases (leb i (k / 32) && ltb (k / 32) (i + n))) [
          | inr out ↦ rw out (ground arith)
          | inl inside ↦
              let lo : i ≤ k / 32 = ground arith in
              let e : (j * 32 + (k - i * 32)) / 32 ≡ j + (k / 32 - i) = omega arith in
              let r : (j * 32 + (k - i * 32)) % 32 ≡ k % 32 = omega arith in
              rw (inside, e, r) (ground arith)
        ])

  moved-IsValid : IsValid from → IsValid to → IsValid (moved from to i j n)
  moved-IsValid vf vt = record {
    elems = vt.elems;
    room = rw length-blit vt.room;
    small = vt.small;
    base = vt.base;
    words = blit-AreWords to.bits i from.bits j n room vt.words vf.words;
  }

-- the guards of both functions on non-negative lengths
length_iff :
    (bl : Bitlist) (bits : ℕ)
    → IsValid bl
    → bits < 2 ^ 31
    → valid_bit bl (sub32 bits 1) ≡ (ltb 0 bits && leb bits bl.state.max_bits)
length_iff bl bits v h = rw (valid_bit_iff_lt bl (sub32 bits 1) v) (ground (arith, v.small))

-- the bits from `bit` on lie in `from` and fit into `to`, and both ends are between elements
abbrev pub is_movable : Bitlist → Bitlist → ℕ → ℕ → Bool
is_movable from to bit bits =
    let b = sub32 bit from.state.base_bit in
    ltb 0 bits
    && leb (b + bits) from.state.max_bits
    && leb bits to.state.max_bits
    && b % 32 == 0
    && bits % 32 == 0

-- the same for the copy into a position, whose start is tested against the base of `from`
abbrev pub is_insertable : Bitlist → Bitlist → ℕ → ℕ → Bool
is_insertable from to bit bits =
    ltb 0 bits
    && leb bits from.state.max_bits
    && leb (sub32 bit to.state.base_bit + bits) to.state.max_bits
    && sub32 bit from.state.base_bit % 32 == 0
    && bits % 32 == 0

module _ (from to : Bitlist) (bit bits : ℕ) (vf : IsValid from) (vt : IsValid to)
    (hb : bit < 2 ^ 32) (hn : bits < 2 ^ 31) where
  elems_lem : bits % 32 ≡ 0 → bits_to_elems bits ≡ bits / 32
  elems_lem e = ground arith

  copy_from_cases : copy_from_position from to bit bits ≡ (
      if is_movable from to bit bits
      then moved from to 0 (sub32 bit from.state.base_bit / 32) (bits / 32)
      else to)
  unfolding copy_from_position
  copy_from_cases = rw (length_iff to bits vt hn) (elim (Bool-cases (ltb 0 bits)) [
    | inr none_left ↦ rw none_left (ground arith)
    | inl more ↦
        rw (range_iff from bit bits vf hb (ltb→lt 0 bits more) hn)
          (elim (Bool-cases (is_movable from to bit bits)) [
            | inr stay ↦ rw stay (ground arith)
            | inl go ↦ rw (go, elems_lem (ground arith)) (ground arith)
          ])
  ])

  -- On well-formed lists and a non-negative length `bitlist_copy_from_position` moves the bits from
  -- number `bit` of `from` on to the start of `to`, if they lie in `from`, fit into `to`, and start
  -- and end between two elements; else it moves none. The other bits and the state of `to` stay.
  pub copy_from_position_lem :
      let r = copy_from_position from to bit bits in
      IsValid r
      × (r.state ≡ to.state)
      × ((k : ℕ)
          → bit_at r k ≡ (
              if is_movable from to bit bits && ltb k bits
              then bit_at from (sub32 bit from.state.base_bit + k)
              else bit_at to k))
  copy_from_position_lem = rw copy_from_cases (elim (Bool-cases (is_movable from to bit bits)) [
    | inr stay ↦ rw stay (vt, refl, λ k. refl)
    | inl go ↦
        let b = sub32 bit from.state.base_bit in
        let room : 0 + bits / 32 ≤ length to.bits = ground (arith, vt.room, vt.elems) in
        rw go (
          moved-IsValid from to 0 (b / 32) (bits / 32) room vf vt,
          refl,
          λ k.
              bit_at-moved from to 0 (b / 32) (bits / 32) room k
              ∙ index k (b / 32 * 32 + (k - 0 * 32)) (ground arith) (ground arith),
        )
  ])
    where
      index :
          (k i : ℕ)
          → bits % 32 ≡ 0
          → i ≡ sub32 bit from.state.base_bit + k
          → (if leb (0 * 32) k && ltb k ((0 + bits / 32) * 32) then bit_at from i else bit_at to k)
            ≡ (if ltb k bits then bit_at from (sub32 bit from.state.base_bit + k) else bit_at to k)
      index k i e same = rw same (ground arith)

  copy_in_cases : copy_in_position from to bit bits ≡ (
      if is_insertable from to bit bits
      then moved from to (sub32 bit to.state.base_bit / 32) 0 (bits / 32)
      else to)
  unfolding copy_in_position
  copy_in_cases = rw (length_iff from bits vf hn) (elim (Bool-cases (ltb 0 bits)) [
    | inr none_left ↦ rw none_left (ground arith)
    | inl more ↦
        rw (range_iff to bit bits vt hb (ltb→lt 0 bits more) hn)
          (elim (Bool-cases (is_insertable from to bit bits)) [
            | inr stay ↦ rw stay (ground arith)
            | inl go ↦ rw (go, elems_lem (ground arith)) (ground arith)
          ])
  ])

  -- On well-formed lists and a non-negative length `bitlist_copy_in_position` moves the first
  -- `bits` bits of `from` into `to`, if its guards hold: they are in `from`, the range fits into
  -- `to`, the length is a multiple of 32, and so is `bit` counted from the base of `from`. They go
  -- to bit `start` on, which is `bit` counted from the base of `to` and rounded down to a multiple
  -- of 32. The other bits and the state of `to` stay.
  pub copy_in_position_lem :
      let r = copy_in_position from to bit bits in
      let start = sub32 bit to.state.base_bit / 32 * 32 in
      IsValid r
      × (r.state ≡ to.state)
      × ((k : ℕ)
          → bit_at r k ≡ (
              if is_insertable from to bit bits && leb start k && ltb k (start + bits)
              then bit_at from (k - start)
              else bit_at to k))
  copy_in_position_lem = rw copy_in_cases (elim (Bool-cases (is_insertable from to bit bits)) [
    | inr stay ↦ rw stay (vt, refl, λ k. refl)
    | inl go ↦
        let b = sub32 bit to.state.base_bit in
        let room : b / 32 + bits / 32 ≤ length to.bits = ground (arith, vt.room, vt.elems) in
        rw go (
          moved-IsValid from to (b / 32) 0 (bits / 32) room vf vt,
          refl,
          λ k.
              bit_at-moved from to (b / 32) 0 (bits / 32) room k
              ∙ index k (0 * 32 + (k - b / 32 * 32)) (ground arith) (omega arith),
        )
  ])
    where
      index :
          (k i : ℕ)
          → bits % 32 ≡ 0
          → i ≡ k - sub32 bit to.state.base_bit / 32 * 32
          → let start = sub32 bit to.state.base_bit / 32 in
            (if leb (start * 32) k && ltb k ((start + bits / 32) * 32)
              then bit_at from i
              else bit_at to k)
            ≡ (if leb (start * 32) k && ltb k (start * 32 + bits)
                then bit_at from (k - start * 32)
                else bit_at to k)
      index k i e same = rw same (ground arith)
