-- ===== src/Bitlist/Print/Ranges.antt =====
-- The ranges that `bitlist_dump` prints, and which numbers they have.
use my_test_files.Prelude.{
  ℕ, suc, ◌+◌, ◌^◌, ◌≤◌, ◌<◌, ◌≡◌, refl, Bool, true, false, ◌&&◌, ◌||◌, List, [], ◌∷◌, ltb, leb,
  ◌==◌, arith, Bool-cases, inl, inr,
}
use my_test_files.Bitlist.Print.{shown}
use my_test_files.Bitlist.Parse.{lt_int}

-- whether a number is in one of the ranges
unfoldable pub in_ranges : ℕ → List (ℕ × ℕ) → Bool
in_ranges n [] = false
in_ranges n ((begin, end) ∷ rs) = (leb begin n && leb n end) || in_ranges n rs

-- The ranges are not empty, and between two of them a number is left out.
unfoldable pub AreApart : List (ℕ × ℕ) → Type 0
AreApart [] = Unit {0}
AreApart ((begin, end) ∷ []) = begin ≤ end
AreApart ((begin, end) ∷ (begin', end') ∷ rs) =
    (begin ≤ end) × (end + 1 < begin') × AreApart ((begin', end') ∷ rs)

pub shown-one : (b e : ℕ) → b ≤ e → e < 2 ^ 31 → shown b e ≡ (b, e) ∷ []
unfolding shown
shown-one b e le small = elim (Bool-cases (lt_int b e)) [
  | inl lt ↦ rw lt refl
  | inr ge ↦ let same : b == e ≡ true = ground (arith, ge, le, small) in rw ge (rw same refl)
]

pub covers_end :
    (b e n : ℕ) (t : Bool)
    → (e < n → t ≡ false)
    → ((leb b n && leb n e) || false) ≡ ((leb b n && leb n e) || (ltb e n && t))
covers_end b e n false h = ground arith
covers_end b e n true h = ground (arith, h)

pub covers_joined :
    (b e bit n : ℕ) (t : Bool)
    → b ≤ e
    → bit ≡ suc e
    → (n ≡ bit → t ≡ true)
    → ((leb b n && leb n bit) || (ltb bit n && t)) ≡ ((leb b n && leb n e) || (ltb e n && t))
covers_joined b e bit n false le next h = ground (arith, h)
covers_joined b e bit n true le next h = ground arith

pub covers_split :
    (e bit n : ℕ) (t : Bool)
    → e < bit
    → (n ≡ bit → t ≡ true)
    → (e < n → n < bit → t ≡ false)
    → ((leb bit n && leb n bit) || (ltb bit n && t)) ≡ (ltb e n && t)
covers_split e bit n false lt h k = ground (arith, h)
covers_split e bit n true lt h k = ground (arith, k)
