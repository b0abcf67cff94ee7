-- ===== src/Bitlist/Tests.antt =====
-- Bit lists at concrete inputs: runs of the code, and the theorems applied.
mod Whole
use my_test_files.Prelude.{
  ◌↔◌, ℕ, ◌+◌, ◌^◌, ◌≤◌, ◌<◌, ◌≡◌, refl, true, false, arith, ltb, if◌then◌else◌, [], ◌∷◌, ◌&&◌,
}
use my_test_files.Prelude.Word.{sub32}
use my_test_files.Bitlist.{
  Bitlist, State, invalid, test, set, clear, setall, clearall, set_contiguous, clear_contiguous,
}
use my_test_files.Bitlist.View.{IsValid, IsTrimmed, has_bit, has_bit_iff, AllWords-AreWords}
use my_test_files.Bitlist.Edit.{test-set-clear}
use my_test_files.Bitlist.Whole.{IsRoomy, all_lem}
use my_test_files.Bitlist.Range.{is_block, contiguous_lem}
use my_test_files.Bitlist.Find.{find_first, find_next, find_after}
use my_test_files.Bitlist.Find.Laws.{Finds, find_lem}

-- 40 bits numbered from 1, of which 3 and 35 are set
abbrev sample : Bitlist
sample = record {
  state = record { max_elems = 2; max_bits = 40; base_bit = 1; last_elem = 0; last_bit = 2 };
  bits = 4 ∷ 4 ∷ [];
}

sample-IsValid : IsValid sample
sample-IsValid = record {
  elems = refl;
  room = omega arith;
  small = omega arith;
  base = omega arith;
  words = AllWords-AreWords (4 ∷ 4 ∷ []) (omega arith);
}

test-sample : (test sample 3 ≡ true) × (test sample 4 ≡ false) × (test sample 41 ≡ false)
unfolding test my_test_files.Bitlist.valid_bit
test-sample = (refl, refl, refl)

find_sample :
    ((find_first sample).1 ≡ 3) × ((find_next sample).1 ≡ 35) × ((find_after sample 35).1 ≡ invalid)
unfolding find_first find_next find_after my_test_files.Bitlist.valid_bit
find_sample = (refl, refl, refl)

has_bit_iff_example : (has_bit sample 40 ≡ true) ↔ ((1 ≤ 40) × (40 < 1 + 40))
has_bit_iff_example = has_bit_iff sample 40 (omega arith) (omega arith)

roomy : IsRoomy sample 33 5
roomy = record {
  small = omega arith;
  based = omega arith;
  room = omega arith;
  words = AllWords-AreWords (4 ∷ 4 ∷ []) (omega arith);
}

find_lem_example :
    Finds sample 0 (find_first sample)
    × Finds sample 3 (find_next sample)
    × (has_bit sample 3 ≡ true → Finds sample 3 (find_after sample 3))
    × (has_bit sample 3 ≡ false → find_after sample 3 ≡ (sample, invalid))
find_lem_example = find_lem sample 3 sample-IsValid (omega arith) (omega arith)

test-set-clear_example : (test (set sample 7) 7 ≡ true) × (test (clear sample 7) 7 ≡ false)
test-set-clear_example = test-set-clear sample 7 7 sample-IsValid (omega arith) (omega arith)

all_lem_example :
    (IsValid (setall sample 33 5)
      × IsTrimmed (setall sample 33 5)
      × ((bit : ℕ) → test (setall sample 33 5) bit ≡ ltb (sub32 bit 5) 33))
    × (IsValid (clearall sample 33 5)
        × IsTrimmed (clearall sample 33 5)
        × ((bit : ℕ) → test (clearall sample 33 5) bit ≡ false))
all_lem_example = all_lem sample 33 5 roomy
