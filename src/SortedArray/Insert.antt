-- ===== src/SortedArray/Insert.antt =====
-- Insertion into a list, and the search and the shift of `sorted_array_add` as one.
use my_test_files.Prelude.{
  ℕ, zero, suc, ◌+◌, ◌-◌, ◌≤◌, ◌<◌, ◌≡◌, refl, ◌∙◌, ap, sym, ◌&&◌, List, [], ◌∷◌, arith, ltb, leb,
  ◌==◌, if◌then◌else◌, get_or, set, length, take, Bool-cases, inl, inr, length-set, get_or-set_self,
  get_or-set_ne, get_or_ext, length-take,
}
use my_test_files.SortedArray.{Slot, present, at, find_slot, shift}

-- insertion into a list: before the first element that is not smaller, unless it is there
unfoldable pub insert : ℕ → List ℕ → List ℕ
insert n [] = n ∷ []
insert n (x ∷ xs) =
    let rest = insert n xs in if ltb x n then x ∷ rest else if x == n then x ∷ xs else n ∷ x ∷ xs

unfoldable pub raise : ℕ → Slot → Slot
raise i present = present
raise i (at p) = at (i + p)

-- where `insert` puts the number
unfoldable pub slot_of : ℕ → List ℕ → Slot
unfolding raise
slot_of n [] = at 0
slot_of n (x ∷ xs) =
    let rest = raise 1 (slot_of n xs) in if ltb x n then rest else if x == n then present else at 0

pub insert_at : ℕ → ℕ → List ℕ → List ℕ
insert_at zero n xs = n ∷ xs
insert_at (suc p) n [] = n ∷ []
insert_at (suc p) n (x ∷ xs) = x ∷ insert_at p n xs

-- what the code does to a list with the slot that it found
unfoldable pub place : ℕ → List ℕ → Slot → List ℕ
unfolding insert_at
place n xs present = xs
place n xs (at p) = insert_at p n xs

place-raise : (n x : ℕ) (xs : List ℕ) (s : Slot) → place n (x ∷ xs) (raise 1 s) ≡ x ∷ place n xs s
unfolding place raise
place-raise n x xs present = refl
place-raise n x xs (at p) = let e : 1 + p ≡ suc p = omega arith in rw e

pub insert-place : (n : ℕ) (xs : List ℕ) → insert n xs ≡ place n xs (slot_of n xs)
unfolding insert slot_of place
insert-place n [] = refl
insert-place n (x ∷ xs) = elim (Bool-cases (ltb x n)) [
  | inl less ↦ rw (less, insert-place n xs) (sym (place-raise n x xs (slot_of n xs)))
  | inr more ↦ rw more (elim (Bool-cases (x == n)) [ inl here ↦ rw here | inr above ↦ rw above ])
]

-- the `n` elements from `i` on
pub window : List ℕ → ℕ → ℕ → List ℕ
window xs i zero = []
window xs i (suc n) = get_or xs i 0 ∷ window xs (i + 1) n

raise-raise : (i : ℕ) (s : Slot) → raise (i + 1) s ≡ raise i (raise 1 s)
unfolding raise
raise-raise i present = refl
raise-raise i (at p) = ap at (omega arith)

pub find_slot_lem :
    (xs : List ℕ) (left i n : ℕ) → find_slot xs left i n ≡ raise i (slot_of n (window xs i left))
unfolding find_slot slot_of window
find_slot_lem xs zero i n = ap at (omega arith)
find_slot_lem xs (suc left) i n =
    let x = get_or xs i 0 in
    elim (Bool-cases (ltb x n)) [
      | inl less ↦ rw less (find_slot_lem xs left (i + 1) n ∙ raise-raise i _)
      | inr more ↦ rw more (elim (Bool-cases (x == n)) [
        | inl here ↦ rw here
        | inr above ↦ rw above (ap at (omega arith))
      ])
    ]

take-window : (x : ℕ) (xs : List ℕ) (i n : ℕ) → window (x ∷ xs) (suc i) n ≡ window xs i n
unfolding window
take-window x xs i zero = refl
take-window x xs i (suc n) =
    let e : suc i + 1 ≡ suc (i + 1) = omega arith in
    ap (λ t. get_or xs i 0 ∷ t) (rw e (take-window x xs (i + 1) n))

pub window-take : (xs : List ℕ) (n : ℕ) → n ≤ length xs → window xs 0 n ≡ take n xs
unfolding window
window-take xs zero h = refl
window-take [] (suc n) h = absurd (omega arith)
window-take (x ∷ xs) (suc n) h =
    ap (λ t. x ∷ t) (take-window x xs 0 n ∙ window-take xs n (omega arith))

-- element by element
get_or-take :
    (n : ℕ) (xs : List ℕ) (i : ℕ) → get_or (take n xs) i 0 ≡ (if ltb i n then get_or xs i 0 else 0)
get_or-take zero xs i = ground arith
get_or-take (suc n) [] i = ground arith
get_or-take (suc n) (x ∷ xs) zero = ground arith
get_or-take (suc n) (x ∷ xs) (suc i) = get_or-take n xs i ∙ ground arith

get_or-insert_at :
    (p n : ℕ) (xs : List ℕ) (i : ℕ)
    → p ≤ length xs
    → get_or (insert_at p n xs) i 0
      ≡ (if ltb i p then get_or xs i 0 else if i == p then n else get_or xs (i - 1) 0)
unfolding insert_at
get_or-insert_at zero n xs zero h = ground arith
get_or-insert_at zero n xs (suc i) h = let e : suc i - 1 ≡ i = omega arith in rw e (ground arith)
get_or-insert_at (suc p) n [] i h = absurd (omega arith)
get_or-insert_at (suc p) n (x ∷ xs) zero h = ground arith
get_or-insert_at (suc p) n (x ∷ xs) (suc zero) h =
    get_or-insert_at p n xs 0 (omega arith) ∙ ground arith
get_or-insert_at (suc p) n (x ∷ xs) (suc (suc i)) h =
    let e : suc (suc i) - 1 ≡ suc i = omega arith in
    let e' : suc i - 1 ≡ i = omega arith in
    get_or-insert_at p n xs (suc i) (omega arith) ∙ rw (e, e') (ground arith)

pub length-shift : (xs : List ℕ) (left j : ℕ) → length (shift xs left j) ≡ length xs
unfolding shift
length-shift xs zero j = refl
length-shift xs (suc left) j =
    let v = get_or xs (j - 1) 0 in length-shift (set xs j v) left (j - 1) ∙ length-set xs j v

get_or-shift :
    (xs : List ℕ) (left j i : ℕ)
    → left ≤ j
    → j < length xs
    → get_or (shift xs left j) i 0
      ≡ (if ltb (j - left) i && leb i j then get_or xs (i - 1) 0 else get_or xs i 0)
unfolding shift
get_or-shift xs zero j i h k = ground arith
get_or-shift xs (suc left) j i h k =
    let v = get_or xs (j - 1) 0 in
    get_or-shift (set xs j v) left (j - 1) i (omega arith) (rw length-set (omega arith))
    ∙ ground
        (arith, get_or-set_self xs j v 0, get_or-set_ne xs j i v 0, get_or-set_ne xs j (i - 1) v 0)

length-insert_at : (p n : ℕ) (xs : List ℕ) → length (insert_at p n xs) ≡ suc (length xs)
unfolding insert_at
length-insert_at zero n xs = refl
length-insert_at (suc p) n [] = refl
length-insert_at (suc p) n (x ∷ xs) = ap suc (length-insert_at p n xs)

-- the shift and the write make the insertion
pub shifted :
    (xs : List ℕ) (count p n : ℕ)
    → p ≤ count
    → count < length xs
    → take (count + 1) (set (shift xs (count - p) count) p n) ≡ insert_at p n (take count xs)
shifted xs count p n h k = get_or_ext 0 _ _ same_length λ i.
    let moved = shift xs (count - p) count in
    rw (get_or-take, get_or-insert_at p n (take count xs) i (rw length-take (omega arith)))
      (ground (
        arith,
        get_or-set_self moved p n 0,
        get_or-set_ne moved p i n 0,
        get_or-shift xs (count - p) count i,
        get_or-take count xs i,
        get_or-take count xs (i - 1),
        length-shift xs (count - p) count,
      ))
  where
    same_length :
        length (take (count + 1) (set (shift xs (count - p) count) p n))
        ≡ length (insert_at p n (take count xs))
    same_length =
        rw (length-insert_at, length-take, length-take, length-set, length-shift) (omega arith)
