-- ===== src/SortedArray/Search.antt =====
-- `sorted_array_get_index`: the binary search ends, and finds the first place for the number.
use my_test_files.Prelude.{
  ℕ, zero, suc, ◌+◌, ◌-◌, ◌/◌, ◌^◌, ◌≤◌, ◌<◌, ◌≡◌, refl, Bool, true, false, ◌&&◌, List, arith, ltb,
  ltb→lt, ◌==◌, get_or, Bool-cases, inl, inr, some,
}
use my_test_files.SortedArray.{linear, back, search_loop, get_index}

-- the first `count` elements do not decrease
abbrev pub IsSorted : List ℕ → ℕ → Type 0
IsSorted xs count = (i j : ℕ) → i ≤ j → j < count → get_or xs i 0 ≤ get_or xs j 0

-- `p` is the first index whose element is not below the number, `found` tells whether it holds it
pub record IsPlace (xs : List ℕ) (count number : ℕ) (found : Bool) (p : ℕ) : Type 0 where
  pub within : p ≤ count
  pub below : (i : ℕ) → i < p → get_or xs i 0 < number
  pub above : (i : ℕ) → p ≤ i → i < count → number ≤ get_or xs i 0
  pub hit : found ≡ (ltb p count && get_or xs p 0 == number)

module _ (xs : List ℕ) (count number : ℕ) (sorted : IsSorted xs count)
    (small : count ≤ 2 ^ 30) where
  -- a place, from its neighbours
  from_neighbours :
      (found : Bool) (p : ℕ)
      → p ≤ count
      → ((i : ℕ) → i < p → get_or xs i 0 < number)
      → (p < count → number ≤ get_or xs p 0)
      → found ≡ (ltb p count && get_or xs p 0 == number)
      → IsPlace xs count number found p
  from_neighbours found p le below next hit = record {
    within = le;
    below = below;
    above = λ i lo hi. omega (arith, sorted p i lo hi, next (omega arith));
    hit = hit;
  }

  linear-IsPlace :
      (left i end : ℕ)
      → i + left ≡ end
      → end ≤ count
      → ((m : ℕ) → m < i → get_or xs m 0 < number)
      → ((m : ℕ) → end ≤ m → m < count → number < get_or xs m 0)
      → IsPlace xs count number (linear xs left i number).0 (linear xs left i number).1
  unfolding linear
  linear-IsPlace zero i end e le below above =
      from_neighbours false i (omega arith) below (λ lt. omega (arith, above i (omega arith) lt))
        (ground (arith, above i))
  linear-IsPlace (suc left) i end e le below above =
      let x = get_or xs i 0 in
      elim (Bool-cases (ltb x number)) [
        | inl less ↦ rw less (
            linear-IsPlace left (i + 1) end (omega arith) le
              (λ m lt. elim (Bool-cases (i == m)) [
                | inl here ↦ let s : m ≡ i = ground arith in rw s (ground arith)
                | inr there ↦ below m (ground arith)
              ])
              above)
        | inr more ↦ rw more (elim (Bool-cases (ltb number x)) [
          | inl greater ↦
              rw greater
                (from_neighbours false i (omega arith) below (λ _. ground arith) (ground arith))
          | inr same ↦
              rw same
                (from_neighbours true i (omega arith) below (λ _. ground arith) (ground arith))
        ])
      ]

  back-IsPlace :
      (k : ℕ) → k < count → get_or xs k 0 ≡ number → IsPlace xs count number true (back xs number k)
  unfolding back
  back-IsPlace zero lt e =
      from_neighbours true 0 (omega arith) (λ i h. absurd (omega arith)) (λ _. omega arith)
        (ground arith)
  back-IsPlace (suc k) lt e = elim (Bool-cases (get_or xs k 0 == number)) [
    | inl more ↦ rw more (back-IsPlace k (omega arith) (ground arith))
    | inr stop ↦ rw stop (
        from_neighbours true (suc k) (omega arith)
          (λ i h. ground (arith, sorted i k, sorted k (suc k))) (λ _. omega arith) (ground arith))
  ]

  -- the loop, with enough fuel
  search_loop-IsPlace :
      (fuel i end : ℕ)
      → end < i + fuel
      → i ≤ end
      → end ≤ count
      → ((m : ℕ) → m < i → get_or xs m 0 < number)
      → ((m : ℕ) → end ≤ m → m < count → number < get_or xs m 0)
      → (found : Bool) × (p : ℕ) × (search_loop fuel xs number i end ≡ some (found, p))
        × IsPlace xs count number found p
  unfolding search_loop
  search_loop-IsPlace zero i end h lo le below above = absurd (omega arith)
  search_loop-IsPlace (suc fuel) i end h lo le below above =
      let k = (i + (end - 1)) / 2 in
      let x = get_or xs k 0 in
      elim (Bool-cases (ltb end (i + 5))) [
        | inl near ↦
            rw near (_, _, refl, linear-IsPlace (end - i) i end (omega arith) le below above)
        | inr far ↦
            let sum : ltb (i + (end - 1)) (2 ^ 31) ≡ true = ground (arith, far, le, lo, small) in
            rw (far, sum)
              (elim (Bool-cases (ltb x number)) [
                | inl less ↦ rw less (
                    search_loop-IsPlace fuel (k + 1) end (ground arith) (ground arith) le
                      (λ m lt.
                        omega
                          (arith, sorted m k (omega arith) (ground arith), ltb→lt x number less))
                      above)
                | inr more ↦ rw more (elim (Bool-cases (ltb number x)) [
                  | inl greater ↦ rw greater (
                      search_loop-IsPlace fuel i k (ground arith) (ground arith) (ground arith)
                        below
                        (λ m lo' hi'. omega (arith, sorted k m lo' hi', ltb→lt number x greater)))
                  | inr same ↦ rw same (_, _, refl, back-IsPlace k (ground arith) (ground arith))
                ])
              ])
      ]

  -- On a sorted array of at most 2 ^ 30 elements, where the sum of two indices is an `int`, the
  -- search ends. The index that it gives is the first whose element is not
  -- below the number, or `count`, and it returns TRUE exactly when that element is the number.
  pub get_index-IsPlace :
      (found : Bool) × (p : ℕ) × (get_index xs count number ≡ some (found, p))
      × IsPlace xs count number found p
  unfolding get_index
  get_index-IsPlace =
      search_loop-IsPlace (count + 1) 0 count (omega arith) (omega arith) (omega arith)
        (λ m lt. absurd (omega arith)) (λ m lo hi. absurd (omega arith))
