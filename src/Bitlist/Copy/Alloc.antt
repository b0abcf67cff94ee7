-- ===== src/Bitlist/Copy/Alloc.antt =====
-- A new list is well formed and clear; a clone is a copy or a clear list of the same numbers.
use my_test_files.Prelude.{
  ℕ, ◌+◌, ◌-◌, ◌/◌, ◌≤◌, ◌<◌, ◌≡◌, refl, ◌∙◌, ap, Bool, true, false, ◌&&◌, arith, ltb, leb,
  if◌then◌else◌, length, inl, inr, ◌⊎◌, Option, none, some, Option-cases,
}
use my_test_files.Prelude.Word.{sub32}
use my_test_files.Prelude.Memory.{get_or-blit, length-blit}
use my_test_files.Bitlist.{Bitlist, State, bits_to_elems, clearall, test}
use my_test_files.Bitlist.View.{bit_at, IsValid, AreWords, test-eq}
use my_test_files.Bitlist.Whole.{IsRoomy, clearall_lem}
use my_test_files.Bitlist.Copy.{copy, clone}
use my_test_files.Bitlist.Copy.Laws.{blit-AreWords}

module _ (from to : Bitlist) (v : IsValid from) (words : AreWords to.bits)
    (room : from.state.max_elems ≤ length to.bits) where
  copy-IsValid : IsValid (copy from to)
  unfolding copy
  copy-IsValid = record {
    elems = v.elems;
    room = rw length-blit room;
    small = v.small;
    base = v.base;
    words = blit-AreWords to.bits 0 from.bits 0 from.state.max_elems (omega arith) words v.words;
  }

  bit_at-copy : (i : ℕ) → i < from.state.max_bits → bit_at (copy from to) i ≡ bit_at from i
  unfolding copy bit_at
  bit_at-copy i lt =
      let n = from.state.max_elems in
      let inside : (leb 0 (i / 32) && ltb (i / 32) (0 + n)) ≡ true = ground (arith, v.elems) in
      let e : 0 + (i / 32 - 0) ≡ i / 32 = omega arith in
      rw (get_or-blit to.bits 0 from.bits 0 n (i / 32) (omega arith), inside, e)

  test-copy : (bit : ℕ) → test (copy from to) bit ≡ test from bit
  unfolding copy
  test-copy bit =
      test-eq (copy from to) bit copy-IsValid
      ∙ ground (arith, bit_at-copy (sub32 bit from.state.base_bit), test-eq from bit v)

  -- `bitlist_copy` of a well-formed list into storage with room for its elements gives a
  -- well-formed list with the same state, position included, in which every number reads as in the
  -- source.
  pub copy_lem :
      IsValid (copy from to)
      × ((copy from to).state ≡ from.state)
      × ((bit : ℕ) → test (copy from to) bit ≡ test from bit)
  copy_lem = (copy-IsValid, unfold copy in refl, test-copy)

-- what `malloc` does: a block that it gives has the elements that were asked for, with any
-- contents
abbrev pub Allocates : (ℕ → Option Bitlist) → Type 0
Allocates malloc =
    (n : ℕ) (bl : Bitlist) → malloc n ≡ some bl → (length bl.bits ≡ n) × AreWords bl.bits

-- a list with the same numbers as `bl`, in which `c` says whether they read as in `bl` or as clear
pub record IsCloned (bl : Bitlist) (c : Bool) (r : Bitlist) : Type 0 where
  pub valid : IsValid r
  pub max_bits : r.state.max_bits ≡ bl.state.max_bits
  pub base_bit : r.state.base_bit ≡ bl.state.base_bit
  pub reads : (bit : ℕ) → test r bit ≡ (if c then test bl bit else false)

module _ (malloc : ℕ → Option Bitlist) (allocates : Allocates malloc) (bl : Bitlist)
    (v : IsValid bl) where
  elems_lem : bits_to_elems bl.state.max_bits ≡ bl.state.max_elems
  elems_lem = ground (arith, v.small, v.elems)

  roomy :
      (new : Bitlist)
      → malloc bl.state.max_elems ≡ some new
      → IsRoomy new bl.state.max_bits bl.state.base_bit
  roomy new e = record {
    small = v.small;
    based = v.base;
    room = omega (arith, (allocates bl.state.max_elems new e).0, v.elems);
    words = (allocates bl.state.max_elems new e).1;
  }

  abbrev cleared : Bitlist → Bitlist
  cleared new = clearall new bl.state.max_bits bl.state.base_bit

  max_bits-cleared : (new : Bitlist) → (cleared new).state.max_bits ≡ bl.state.max_bits
  unfolding clearall
  max_bits-cleared new = refl

  base_bit-cleared : (new : Bitlist) → (cleared new).state.base_bit ≡ bl.state.base_bit
  unfolding clearall
  base_bit-cleared new = refl

  cloned :
      (new : Bitlist) (c : Bool)
      → malloc bl.state.max_elems ≡ some new
      → IsCloned bl c (if c then copy bl (cleared new) else cleared new)
  cloned new false e =
      let clear = clearall_lem new bl.state.max_bits bl.state.base_bit (roomy new e) in
      record {
        valid = clear.0;
        max_bits = max_bits-cleared new;
        base_bit = base_bit-cleared new;
        reads = clear.2;
      }
  cloned new true e =
      let clear = clearall_lem new bl.state.max_bits bl.state.base_bit (roomy new e) in
      let r =
        copy_lem bl (cleared new) v clear.0.words
          (omega (arith, clear.0.room, clear.0.elems, v.elems, max_bits-cleared new)) in
      record {
        valid = r.0;
        max_bits = ap (λ (s : State). s.max_bits) r.1;
        base_bit = ap (λ (s : State). s.base_bit) r.1;
        reads = r.2;
      }

  -- `bitlist_clone` of a well-formed list fails only where `malloc` does. Else it gives a
  -- well-formed list of the same numbers, which read as in the original if `copy_bitlist` is true
  -- and as clear if it is not.
  pub clone_lem :
      (c : Bool)
      → ((malloc bl.state.max_elems ≡ none) × (clone malloc bl c ≡ none))
        ⊎ ((r : Bitlist) × (clone malloc bl c ≡ some r) × IsCloned bl c r)
  unfolding clone
  clone_lem c = rw elems_lem (elim (Option-cases (malloc bl.state.max_elems)) [
    | inl out ↦ rw out (inl (refl, refl))
    | inr (new, e) ↦ rw e (inr (_, refl, cloned new c e))
  ])
