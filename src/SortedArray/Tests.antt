-- ===== src/SortedArray/Tests.antt =====
-- Sorted arrays at concrete inputs: runs of the code, and the theorems applied.
use my_test_files.Prelude.{
  if◌then◌else◌, ℕ, ◌+◌, ◌≤◌, ◌<◌, ◌≡◌, refl, true, false, ◌||◌, arith, ◌==◌, List, [], ◌∷◌, get_or,
  length, zero, suc, some, none, Bool, ◌&&◌, leb, Bool-cases, inl, inr,
}
use my_test_files.SortedArray.{Array, PairArray, add, get_index, get_index_2, add_2}
use my_test_files.SortedArray.Insert.{insert}
use my_test_files.SortedArray.Add.{contents, IsIncreasing, has, add_lem}
use my_test_files.SortedArray.Search.{IsSorted, IsPlace, get_index-IsPlace}
use my_test_files.SortedArray.Compare.{Compares}
use my_test_files.SortedArray.Pairs.{AreSorted, IsPairPlace, Added, add_2_lem}

-- room for 4 numbers, of which the first 3 are used
abbrev sample : Array
sample = record { cells = 2 ∷ 5 ∷ 9 ∷ 0 ∷ []; count = 3 }

add-sample :
    (contents (add sample 7) ≡ 2 ∷ 5 ∷ 7 ∷ 9 ∷ []) × (contents (add sample 5) ≡ contents sample)
unfolding add
add-sample = (refl, refl)

sample-IsIncreasing : IsIncreasing (contents sample)
sample-IsIncreasing = ((omega arith, (omega arith, tt)), ((omega arith, tt), (tt, tt)))

-- 12 numbers, for a search that halves
abbrev long : List ℕ
long = 1 ∷ 3 ∷ 4 ∷ 4 ∷ 4 ∷ 4 ∷ 4 ∷ 4 ∷ 4 ∷ 6 ∷ 8 ∷ 8 ∷ 0 ∷ []

get_index-long : (get_index long 12 4 ≡ some (true, 2)) × (get_index long 12 7 ≡ some (false, 10))
unfolding get_index
get_index-long = (refl, refl)

-- neighbours are enough for an order
abbrev ascends : List ℕ → ℕ → Bool
ascends (x ∷ (y ∷ ys)) (suc n) = leb x y && ascends (y ∷ ys) n
ascends _ _ = true

neighbours :
    (xs : List ℕ) (n i : ℕ)
    → ascends xs n ≡ true
    → i < n
    → i + 1 < length xs
    → get_or xs i 0 ≤ get_or xs (i + 1) 0
neighbours [] n i e lt room = absurd (omega arith)
neighbours (x ∷ []) n i e lt room = absurd (omega arith)
neighbours (x ∷ (y ∷ ys)) zero i e lt room = absurd (omega arith)
neighbours (x ∷ (y ∷ ys)) (suc n) zero e lt room = ground arith
neighbours (x ∷ (y ∷ ys)) (suc n) (suc i) e lt room =
    let t : suc i + 1 ≡ suc (i + 1) = omega arith in
    rw t (neighbours (y ∷ ys) n i (ground arith) (omega arith) (omega arith))

ascends-IsSorted : (xs : List ℕ) (n : ℕ) → ascends xs n ≡ true → n < length xs → IsSorted xs (n + 1)
ascends-IsSorted xs n e room i zero le lt = let s : i ≡ 0 = omega arith in rw s (omega arith)
ascends-IsSorted xs n e room i (suc j) le lt = elim (Bool-cases (i == suc j)) [
  | inl here ↦ let s : i ≡ suc j = ground arith in rw s (omega arith)
  | inr before ↦
      let t : suc j ≡ j + 1 = omega arith in
      rw t (
        omega (
          arith,
          ascends-IsSorted xs n e room i j (ground arith) (omega arith),
          neighbours xs n j e (omega arith) (omega arith),
        ))
]

long-IsSorted : IsSorted long 12
long-IsSorted = ascends-IsSorted long 11 refl (omega arith)

get_index-IsPlace_example :
    (found : Bool) × (p : ℕ) × (get_index long 12 4 ≡ some (found, p)) × IsPlace long 12 4 found p
get_index-IsPlace_example = get_index-IsPlace long 12 4 long-IsSorted (omega arith)

-- what goes with the numbers of `long`
abbrev second : List ℕ
second = 0 ∷ 1 ∷ 2 ∷ 4 ∷ 6 ∷ 8 ∷ 10 ∷ 12 ∷ 14 ∷ 16 ∷ 17 ∷ 18 ∷ 0 ∷ []

abbrev pairs : PairArray
pairs = record { first = long; second = second; count = 12 }

-- Where the second array is sorted too, the pairs are.
pairs-AreSorted : AreSorted long second 12
pairs-AreSorted = record {
  first = long-IsSorted;
  second = λ i j le lt _. ascends-IsSorted second 11 refl (omega arith) i j le lt;
}

add_2_lem_example :
    (found : Bool) × (p : ℕ) × (b : PairArray) × (add_2 pairs 4 7 ≡ some b)
    × IsPairPlace long second 12 4 7 found p
    × Added pairs 4 7 found p b
add_2_lem_example = add_2_lem pairs 4 7 pairs-AreSorted (omega arith) (omega arith) (omega arith)

-- Without storage after the last pair the search reads past the first array.
over_read : get_index_2 (1 ∷ 2 ∷ []) (1 ∷ 2 ∷ []) 2 2 3 ≡ none
unfolding get_index_2 get_index
over_read = refl

-- a comparison as `bcmp` does it
differs : List ℕ → List ℕ → ℕ → Bool
differs xs ys zero = false
differs xs ys (suc n) =
    let rest = differs xs ys n in if get_or xs n 0 == get_or ys n 0 then rest else true

differs-Compares : Compares differs
unfolding differs
differs-Compares xs ys zero = (λ _ i lt. absurd (omega arith), λ _. refl)
differs-Compares xs ys (suc n) = elim (Bool-cases (get_or xs n 0 == get_or ys n 0)) [
  | inl same ↦ rw same (
    λ e i lt. elim (Bool-cases (n == i)) [
      | inl last ↦ let s : i ≡ n = ground arith in rw s (ground arith)
      | inr before ↦ (differs-Compares xs ys n).0 e i (ground arith)
    ],
    λ h. (differs-Compares xs ys n).1 (λ i lt. h i (omega arith)),
  )
  | inr other ↦
      rw other
        (λ e. absurd (ground (arith, e)), λ h. absurd (ground (arith, other, h n (omega arith))))
]

add_lem_example :
    (contents (add sample 7) ≡ insert 7 (contents sample))
    × IsIncreasing (contents (add sample 7))
    × ((m : ℕ) → has (contents (add sample 7)) m ≡ (7 == m || has (contents sample) m))
add_lem_example = add_lem sample 7 (omega arith) (omega arith) sample-IsIncreasing
