-- ===== src/SortedArray/Compare.antt =====
-- `sorted_array_partial_compare`. Whether `bcmp(array1, array2, ltob(n))` is not 0 is a parameter:
-- `ltob` comes from the headers of the build.
use my_test_files.Prelude.{
  ℕ, zero, suc, ◌+◌, ◌≤◌, ◌<◌, ◌≡◌, refl, sym, Bool, true, false, List, ltb, ◌==◌, ==_iff,
  if◌then◌else◌, get_or, Bool-cases, inl, inr, ◌↔◌, arith,
}

-- the inner loop, with `left` for `count2 - j`: whether it breaks
pub is_in : List ℕ → ℕ → ℕ → ℕ → Bool
is_in ys zero j x = false
is_in ys (suc left) j x =
    let rest = is_in ys left (j + 1) x in if x == get_or ys j 0 then true else rest

-- the outer loop, with `left` for `count1 - i`
pub all_in : List ℕ → List ℕ → ℕ → ℕ → ℕ → Bool
unfolding is_in
all_in xs ys count2 zero i = true
all_in xs ys count2 (suc left) i =
    let rest = all_in xs ys count2 left (i + 1) in
    if is_in ys count2 0 (get_or xs i 0) then rest else false

unfoldable pub partial_compare : (List ℕ → List ℕ → ℕ → Bool) → List ℕ → ℕ → List ℕ → ℕ → Bool
unfolding all_in
partial_compare differ xs count1 ys count2 =
    if ltb count2 count1
    then false
    else if count1 == count2
    then (if differ xs ys count1 then false else true)
    else all_in xs ys count2 count1 0

-- what `bcmp` does on `n` elements
abbrev pub Compares : (List ℕ → List ℕ → ℕ → Bool) → Type 0
Compares differ =
    (xs ys : List ℕ) (n : ℕ)
    → (differ xs ys n ≡ false) ↔ ((i : ℕ) → i < n → get_or xs i 0 ≡ get_or ys i 0)

is_in_iff :
    (ys : List ℕ) (left j x : ℕ)
    → (is_in ys left j x ≡ true) ↔ ((k : ℕ) × (j ≤ k) × (k < j + left) × (get_or ys k 0 ≡ x))
unfolding is_in
is_in_iff ys zero j x = (λ e. absurd (ground (arith, e)), λ (k, lo, hi, e). absurd (omega arith))
is_in_iff ys (suc left) j x = elim (Bool-cases (x == get_or ys j 0)) [
  | inl here ↦
      rw here
        (λ _. (j, omega arith, omega arith, sym ((==_iff x (get_or ys j 0)).0 here)), λ _. refl)
  | inr later ↦ rw later (
    λ e.
        let (k, lo, hi, same) = (is_in_iff ys left (j + 1) x).0 e in
        (k, omega arith, omega arith, same),
    λ (k, lo, hi, same). elim (Bool-cases (j == k)) [
      | inl at_j ↦ let s : k ≡ j = ground arith in absurd (ground (arith, later, rw s at same))
      | inr past ↦ (is_in_iff ys left (j + 1) x).1 (k, ground arith, omega arith, same)
    ],
  )
]

all_in_iff :
    (xs ys : List ℕ) (count2 left i : ℕ)
    → (all_in xs ys count2 left i ≡ true)
      ↔ ((k : ℕ) → i ≤ k → k < i + left → is_in ys count2 0 (get_or xs k 0) ≡ true)
unfolding all_in
all_in_iff xs ys count2 zero i = (λ e k lo hi. absurd (omega arith), λ h. refl)
all_in_iff xs ys count2 (suc left) i = elim (Bool-cases (is_in ys count2 0 (get_or xs i 0))) [
  | inl found ↦ rw found (
    λ e k lo hi. elim (Bool-cases (i == k)) [
      | inl here ↦ let s : k ≡ i = ground arith in rw s found
      | inr there ↦ (all_in_iff xs ys count2 left (i + 1)).0 e k (ground arith) (omega arith)
    ],
    λ h. (all_in_iff xs ys count2 left (i + 1)).1 (λ k lo hi. h k (omega arith) (omega arith)),
  )
  | inr missing ↦ rw missing (
    λ e. absurd (ground (arith, e)),
    λ h. absurd (ground (arith, missing, h i (omega arith) (omega arith))),
  )
]

-- every one of the first `count1` elements of `xs` is among the first `count2` of `ys`
abbrev pub IsWithin : List ℕ → ℕ → List ℕ → ℕ → Type 0
IsWithin xs count1 ys count2 =
    (i : ℕ) → i < count1 → (j : ℕ) × (j < count2) × (get_or ys j 0 ≡ get_or xs i 0)

-- `sorted_array_partial_compare` of arrays of different lengths returns TRUE exactly if the first
-- is shorter and each of its elements is in the second; of arrays of one length, exactly if they
-- are equal element by element, if `bcmp` compares them so.
pub partial_compare_lem :
    (differ : List ℕ → List ℕ → ℕ → Bool) (xs ys : List ℕ) (count1 count2 : ℕ)
    → Compares differ
    → (count2 < count1 → partial_compare differ xs count1 ys count2 ≡ false)
      × (count1 < count2
          → (partial_compare differ xs count1 ys count2 ≡ true) ↔ IsWithin xs count1 ys count2)
      × (count1 ≡ count2
          → (partial_compare differ xs count1 ys count2 ≡ true)
            ↔ ((i : ℕ) → i < count1 → get_or xs i 0 ≡ get_or ys i 0))
unfolding partial_compare
partial_compare_lem differ xs ys count1 count2 compares = (
  λ more. let e : ltb count2 count1 ≡ true = ground arith in rw e,
  λ less.
      let e : ltb count2 count1 ≡ false = ground arith in
      let e' : (count1 == count2) ≡ false = ground arith in
      rw (e, e')
        (
          λ yes_all i lt.
              let (j, lo, hi, same) =
                (is_in_iff ys count2 0 (get_or xs i 0)).0
                  ((all_in_iff xs ys count2 count1 0).0 yes_all i (omega arith) (omega arith)) in
              (j, omega arith, same),
          λ within. (all_in_iff xs ys count2 count1 0).1 λ i lo hi.
              let (j, lt, same) = within i (omega arith) in
              (is_in_iff ys count2 0 (get_or xs i 0)).1 (j, omega arith, omega arith, same),
        ),
  λ equal.
      let e : ltb count2 count1 ≡ false = ground arith in
      let e' : (count1 == count2) ≡ true = ground arith in
      rw (e, e')
        (
          λ yes_equal. (compares xs ys count1).0 (ground arith),
          λ same. rw ((compares xs ys count1).1 same),
        ),
)
