-- ===== src/SortedArray/Pairs.antt =====
-- `sorted_array_get_index_2` and `sorted_array_add_2`: pairs in lexicographic order.
use my_test_files.Prelude.{
  ℕ, zero, suc, ◌+◌, ◌-◌, ◌^◌, ◌≤◌, ◌<◌, ◌≡◌, refl, Bool, true, false, ◌&&◌, ◌||◌, List, arith, ltb,
  ◌==◌, get_or, get_elem?-eq-get_or, length, take, Bool-cases, inl, inr, some,
}
use my_test_files.SortedArray.{PairArray, scan_2, get_index_2, add_2, insert_2}
use my_test_files.SortedArray.Insert.{insert_at, shifted}
use my_test_files.SortedArray.Search.{IsSorted, get_index-IsPlace}

-- element `i` comes before the pair
abbrev pub before : List ℕ → List ℕ → ℕ → ℕ → ℕ → Bool
before xs ys m n i = ltb (get_or xs i 0) m || get_or xs i 0 == m && ltb (get_or ys i 0) n

-- the first `count` pairs are in lexicographic order
pub record AreSorted (xs ys : List ℕ) (count : ℕ) : Type 0 where
  pub first : IsSorted xs count
  pub second :
      (i j : ℕ) → i ≤ j → j < count → get_or xs i 0 ≡ get_or xs j 0 → get_or ys i 0 ≤ get_or ys j 0

-- `p` is the first index that does not come before the pair, `found` tells whether it holds it
pub record IsPairPlace (xs ys : List ℕ) (count m n : ℕ) (found : Bool) (p : ℕ) : Type 0 where
  pub within : p ≤ count
  pub below : (i : ℕ) → i < p → before xs ys m n i ≡ true
  pub above : (i : ℕ) → p ≤ i → i < count → before xs ys m n i ≡ false
  pub hit : found ≡ (ltb p count && get_or xs p 0 == m && get_or ys p 0 == n)

module _ (xs ys : List ℕ) (count m n : ℕ) (sorted : AreSorted xs ys count)
    (small : count ≤ 2 ^ 30) where
  from_next :
      (found : Bool) (p : ℕ)
      → p ≤ count
      → ((i : ℕ) → i < p → before xs ys m n i ≡ true)
      → (p < count → before xs ys m n p ≡ false)
      → found ≡ (ltb p count && get_or xs p 0 == m && get_or ys p 0 == n)
      → IsPairPlace xs ys count m n found p
  from_next found p le below next hit = record {
    within = le;
    below = below;
    above = λ i lo hi. ground (arith, sorted.first p i, sorted.second p i, next (omega arith));
    hit = hit;
  }

  scan_2-IsPairPlace :
      (left p : ℕ)
      → p + left ≡ count
      → count < length xs
      → ((i : ℕ) → i < p → before xs ys m n i ≡ true)
      → ((i : ℕ) → p ≤ i → i < count → m ≤ get_or xs i 0)
      → (found : Bool) × (q : ℕ) × (scan_2 xs ys left p m n ≡ some (found, q))
        × IsPairPlace xs ys count m n found q
  unfolding scan_2
  scan_2-IsPairPlace zero p e room below least = rw (get_elem?-eq-get_or xs p 0 (omega arith)) (
    false,
    p,
    refl,
    from_next false p (omega arith) below (λ lt. absurd (omega arith)) (ground arith),
  )
  scan_2-IsPairPlace (suc left) p e room below least =
      let x = get_or xs p 0 in
      let y = get_or ys p 0 in
      rw (get_elem?-eq-get_or xs p 0 (omega arith)) (elim (Bool-cases (x == m)) [
        | inr other ↦ rw other (
          false,
          p,
          refl,
          from_next false p (omega arith) below (λ lt. ground (arith, least p)) (ground arith),
        )
        | inl same ↦ rw same (elim (Bool-cases (ltb y n)) [
          | inl less ↦ rw less (
              scan_2-IsPairPlace left (p + 1) (omega arith) room
                (λ i lt. elim (Bool-cases (p == i)) [
                  | inl here ↦ let s : i ≡ p = ground arith in rw s (ground arith)
                  | inr there ↦ below i (ground arith)
                ])
                (λ i lo hi. least i (omega arith) hi))
          | inr more ↦ rw more (elim (Bool-cases (ltb n y)) [
            | inl greater ↦ rw greater (
              false,
              p,
              refl,
              from_next false p (omega arith) below (λ lt. ground arith) (ground arith),
            )
            | inr hit ↦ rw hit (
              true,
              p,
              refl,
              from_next true p (omega arith) below (λ lt. ground arith) (ground arith),
            )
          ])
        ])
      ])

  -- On lexicographically sorted arrays of at most 2 ^ 30 pairs, the first with storage for one more element, the search
  -- for a pair ends. The index that it gives is the first that does not come before the pair, and
  -- it returns TRUE exactly when the pair stands there.
  pub get_index_2-IsPairPlace :
      count < length xs
      → (found : Bool) × (p : ℕ) × (get_index_2 xs ys count m n ≡ some (found, p))
        × IsPairPlace xs ys count m n found p
  unfolding get_index_2
  get_index_2-IsPairPlace room =
      let (found, p, run, place) = get_index-IsPlace xs count m sorted.first small in
      rw run (elim (Bool-cases found) [
        | inr missing ↦ rw missing (
          false,
          p,
          refl,
          from_next false p place.within (λ i lt. ground (arith, place.below i))
              (λ lt. ground (arith, place.above p, place.hit)) (ground (arith, place.hit)),
        )
        | inl hit ↦ rw hit (
            scan_2-IsPairPlace (count - p) p (omega (arith, place.within)) room
              (λ i lt. ground (arith, place.below i)) place.above)
      ])

-- what the code makes of the arrays after the search
abbrev pub Added : PairArray → ℕ → ℕ → Bool → ℕ → PairArray → Type 0
Added a m n found p b =
    (found ≡ true → b ≡ a)
    × (found ≡ false
        → (b.count ≡ a.count + 1)
          × (take b.count b.first ≡ insert_at p m (take a.count a.first))
          × (take b.count b.second ≡ insert_at p n (take a.count a.second)))

-- On lexicographically sorted arrays of at most 2 ^ 30 pairs, both with storage for one more element,
-- `sorted_array_add_2` ends. It changes nothing when the pair is there, and otherwise inserts the
-- two numbers at the same index, the first whose pair does not come before the new one.
pub add_2_lem :
    (a : PairArray) (m n : ℕ)
    → AreSorted a.first a.second a.count
    → a.count ≤ 2 ^ 30
    → a.count < length a.first
    → a.count < length a.second
    → (found : Bool) × (p : ℕ) × (b : PairArray) × (add_2 a m n ≡ some b)
      × IsPairPlace a.first a.second a.count m n found p
      × Added a m n found p b
unfolding add_2 insert_2
add_2_lem a m n sorted small room room_2 =
    let (found, p, run, place) =
      get_index_2-IsPairPlace a.first a.second a.count m n sorted small room in
    let counted : ltb (a.count + 1) (2 ^ 31) ≡ true = ground (arith, small) in
    rw run (elim (Bool-cases found) [
      | inl hit ↦
          (found, p, a, rw hit refl, place, (λ _. refl, λ no. absurd (ground (arith, hit, no))))
      | inr missing ↦ (
        found,
        p,
        _,
        rw (missing, counted) refl,
        place,
        (
          λ yes. absurd (ground (arith, missing, yes)),
          λ _. (
            refl,
            shifted a.first a.count p m place.within room,
            shifted a.second a.count p n place.within room_2,
          ),
        ),
      )
    ])
