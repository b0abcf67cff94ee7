-- ===== src/Bitlist/Print/Tests.antt =====
-- The printing of bit lists at concrete inputs.
use my_test_files.Prelude.{
  ℕ, ◌+◌, ◌-◌, ◌^◌, ◌<◌, ◌≡◌, refl, Bool, true, false, ◌||◌, leb, List, [], ◌∷◌, length, Option,
  none, some, arith,
}
use my_test_files.Bitlist.{Bitlist, State, invalid, test}
use my_test_files.Bitlist.Print.{dump, to_string, nv_write}
use my_test_files.Bitlist.Print.Dump.{dump_lem}
use my_test_files.Bitlist.Print.Ranges.{AreApart, in_ranges}
use my_test_files.Bitlist.Print.Numbers.{IsSame}
use my_test_files.Bitlist.Print.Lines.{AllShorter, nv_write_lem}
use my_test_files.Bitlist.Print.Text.{Ends, to_string_lem}
use my_test_files.Bitlist.Print.Rounds.{standing}
use my_test_files.Bitlist.View.{IsValid, AllWords-AreWords}

-- 40 bits numbered from 1, of which 2, 3, 4 and 35 are set
abbrev sample : Bitlist
sample = record {
  state = record { max_elems = 2; max_bits = 40; base_bit = 1; last_elem = 0; last_bit = 2 };
  bits = 14 ∷ 4 ∷ [];
}

sample-IsValid : IsValid sample
sample-IsValid = record {
  elems = refl;
  room = omega arith;
  small = omega arith;
  base = omega arith;
  words = AllWords-AreWords (14 ∷ 4 ∷ []) (omega arith);
}

-- the ranges 0x2-0x4 and 0x23, and the string "2-4,35"
abbrev ranges_of : Option (Bitlist × List (ℕ × ℕ)) → List (ℕ × ℕ)
ranges_of none = []
ranges_of (some r) = r.1

abbrev text_of : Option (Bitlist × List ℕ × ℕ) → List ℕ
text_of none = []
text_of (some r) = r.1

dump-sample : ranges_of (dump sample) ≡ (2, 4) ∷ (35, 35) ∷ []
unfolding dump my_test_files.Bitlist.Print.dump_loop my_test_files.Bitlist.Find.find_after
    my_test_files.Bitlist.valid_bit my_test_files.Bitlist.Print.shown
dump-sample = refl

to_string-sample : text_of (to_string sample 20 true) ≡ 50 ∷ 45 ∷ 52 ∷ 44 ∷ 51 ∷ 53 ∷ []
unfolding to_string my_test_files.Bitlist.Print.string_loop my_test_files.Bitlist.Find.find_bit
    my_test_files.Bitlist.Print.show_int my_test_files.Bitlist.Print.digits
    my_test_files.Bitlist.Print.skip_range
to_string-sample = refl

dump_lem_example :
    (bl' : Bitlist) × (ranges : List (ℕ × ℕ)) × (dump sample ≡ some (bl', ranges))
    × IsSame sample bl'
    × AreApart ranges
    × ((n : ℕ) → n < 2 ^ 32 → in_ranges n ranges ≡ test sample n)
dump_lem_example = dump_lem sample sample-IsValid (omega arith)

to_string_lem_example :
    Ends sample 20 0 (to_string sample 20 true)
    × Ends sample 20 2 (to_string (standing sample 1) 20 false)
to_string_lem_example = to_string_lem sample sample-IsValid (omega arith) 20 1 (omega arith)

abbrev before : List ℕ
before = 97 ∷ []

abbrev behind : List ℕ
behind = 98 ∷ []

nv_write_lem_example :
    (answer : Bool) × (bl' : Bitlist) × (lines : List (List ℕ)) × (nv_write true sample before
        behind 8
      ≡ some (answer, bl', lines))
    × (answer ≡ (leb (8 - (length before + 1 + length behind)) 80 || true))
    × (answer ≡ false → lines ≡ [])
    × AllShorter 8 lines
nv_write_lem_example = nv_write_lem sample sample-IsValid (omega arith) true before behind 8
