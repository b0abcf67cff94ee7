-- ===== src/SortedArray/Add.antt =====
-- `sorted_array_add` inserts into the contents, whatever they are.
use my_test_files.Prelude.{
  ℕ, suc, ◌+◌, ◌%◌, ◌^◌, ◌≤◌, ◌<◌, ◌≡◌, refl, ap, Bool, false, ◌||◌, List, [], ◌∷◌, arith, ltb,
  ◌==◌, length, take, Bool-cases, inl, inr, length-take,
}
use my_test_files.SortedArray.{Array, Slot, present, at, put_at, add}
use my_test_files.SortedArray.Insert.{
  insert, raise, slot_of, place, insert-place, find_slot_lem, window-take, shifted,
}

abbrev pub contents : Array → List ℕ
contents a = take a.count a.cells

abbrev InRange : ℕ → Slot → Type 0
InRange m present = Unit {0}
InRange m (at p) = p ≤ m

raise-InRange : (m : ℕ) (s : Slot) → InRange m s → InRange (suc m) (raise 1 s)
unfolding raise
raise-InRange m present h = tt
raise-InRange m (at p) h = omega arith

slot_of-InRange : (n : ℕ) (xs : List ℕ) → InRange (length xs) (slot_of n xs)
unfolding slot_of
slot_of-InRange n [] = omega arith
slot_of-InRange n (x ∷ xs) = elim (Bool-cases (ltb x n)) [
  | inl less ↦ rw less (raise-InRange (length xs) (slot_of n xs) (slot_of-InRange n xs))
  | inr more ↦
      rw more
        (elim (Bool-cases (x == n)) [ inl here ↦ rw here tt | inr above ↦ rw above (omega arith) ])
]

raise_zero : (s : Slot) → raise 0 s ≡ s
unfolding raise
raise_zero present = refl
raise_zero (at p) = ap at (omega arith)

-- With room for one more element and a count that stays below 2 ^ 16, the contents after
-- `sorted_array_add` are those before it with the number inserted before the first element that is
-- not smaller, or unchanged where that element is the number itself.
pub add-insert :
    (a : Array) (n : ℕ)
    → a.count < length a.cells
    → a.count + 1 < 2 ^ 16
    → contents (add a n) ≡ insert n (contents a)
unfolding add
add-insert a n room small =
    rw (find_slot_lem, raise_zero, window-take a.cells a.count (omega arith), insert-place)
      (result (slot_of n (take a.count a.cells)) (slot_of-InRange n (take a.count a.cells)))
  where
    result :
        (s : Slot)
        → InRange (length (take a.count a.cells)) s
        → contents (put_at a n s) ≡ place n (take a.count a.cells) s
    result present h = unfold place in refl
    result (at p) h =
        let e : (a.count + 1) % 2 ^ 16 ≡ a.count + 1 = omega arith in
        let le : p ≤ a.count = omega (arith, length-take a.count a.cells) in
        unfold place in rw e (shifted a.cells a.count p n le room)

abbrev AllAbove : ℕ → List ℕ → Type 0
AllAbove n [] = Unit {0}
AllAbove n (x ∷ xs) = (n < x) × AllAbove n xs

-- strictly increasing
abbrev pub IsIncreasing : List ℕ → Type 0
IsIncreasing [] = Unit {0}
IsIncreasing (x ∷ xs) = AllAbove x xs × IsIncreasing xs

abbrev pub has : List ℕ → ℕ → Bool
has [] m = false
has (x ∷ xs) m = x == m || has xs m

AllAbove-trans : (m n : ℕ) (xs : List ℕ) → m < n → AllAbove n xs → AllAbove m xs
AllAbove-trans m n [] lt h = tt
AllAbove-trans m n (x ∷ xs) lt h = (omega arith, AllAbove-trans m n xs lt h.1)

AllAbove-insert : (m n : ℕ) (xs : List ℕ) → m < n → AllAbove m xs → AllAbove m (insert n xs)
unfolding insert
AllAbove-insert m n [] lt h = (lt, tt)
AllAbove-insert m n (x ∷ xs) lt h = elim (Bool-cases (ltb x n)) [
  | inl less ↦ rw less (h.0, AllAbove-insert m n xs lt h.1)
  | inr more ↦
      rw more (elim (Bool-cases (x == n)) [ inl here ↦ rw here h | inr above ↦ rw above (lt, h) ])
]

insert-IsIncreasing : (n : ℕ) (xs : List ℕ) → IsIncreasing xs → IsIncreasing (insert n xs)
unfolding insert
insert-IsIncreasing n [] h = (tt, tt)
insert-IsIncreasing n (x ∷ xs) h = elim (Bool-cases (ltb x n)) [
  | inl less ↦ rw less (AllAbove-insert x n xs (ground arith) h.0, insert-IsIncreasing n xs h.1)
  | inr more ↦ rw more (elim (Bool-cases (x == n)) [
    | inl here ↦ rw here h
    | inr above ↦ let lt : n < x = ground arith in rw above ((lt, AllAbove-trans n x xs lt h.0), h)
  ])
]

has-insert : (n m : ℕ) (xs : List ℕ) → has (insert n xs) m ≡ (n == m || has xs m)
unfolding insert
has-insert n m [] = refl
has-insert n m (x ∷ xs) = ground (arith, has-insert n m xs)

-- Under the same conditions `sorted_array_add` keeps an array strictly increasing, and afterwards
-- the array holds the number and what it held before.
pub add-IsIncreasing :
    (a : Array) (n : ℕ)
    → a.count < length a.cells
    → a.count + 1 < 2 ^ 16
    → IsIncreasing (contents a)
    → IsIncreasing (contents (add a n))
      × ((m : ℕ) → has (contents (add a n)) m ≡ (n == m || has (contents a) m))
add-IsIncreasing a n room small h =
    rw (add-insert a n room small)
      (insert-IsIncreasing n (contents a) h, λ m. has-insert n m (contents a))

-- With room for one more element and a count that stays below 2 ^ 16, `sorted_array_add` inserts the
-- number before the first element that is not smaller, or changes nothing where that element is
-- the number itself. It keeps an array strictly increasing, which afterwards holds the number and
-- what it held before.
pub add_lem :
    (a : Array) (n : ℕ)
    → a.count < length a.cells
    → a.count + 1 < 2 ^ 16
    → IsIncreasing (contents a)
    → (contents (add a n) ≡ insert n (contents a))
      × IsIncreasing (contents (add a n))
      × ((m : ℕ) → has (contents (add a n)) m ≡ (n == m || has (contents a) m))
add_lem a n room small up = (
  add-insert a n room small,
  (add-IsIncreasing a n room small up).0,
  (add-IsIncreasing a n room small up).1,
)
