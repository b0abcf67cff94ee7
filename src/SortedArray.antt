-- ===== src/SortedArray.antt =====
-- sorted_array.c: arrays of `ulong` kept in increasing order. The functions do no bounds checking:
-- a write past the storage does nothing here, and the theorems say how much storage is wanted.
-- A count is an `int` that is not negative; a sum of two `int` that overflows is undefined, and `none`.
pub mod Insert
pub mod Add
pub mod Search
pub mod Pairs
pub mod Compare
mod Tests
use my_test_files.Prelude.{
  ℕ, zero, suc, ◌+◌, ◌-◌, ◌/◌, ◌%◌, ◌^◌, Bool, true, false, not, List, ltb, ◌==◌, if◌then◌else◌,
  get_or, get_elem?, set, Option, none, some, ◌>>=◌,
}

-- an array and its `count`
pub record Array : Type 0 where
  pub cells : List ℕ
  pub count : ℕ

-- where the first loop of `sorted_array_add` ends
pub data Slot : Type 0 where
  present : Slot
  at : ℕ → Slot

-- `for (index = 0; index < *count; ++index)` with `left` rounds to go, up to the shift
pub find_slot : List ℕ → ℕ → ℕ → ℕ → Slot
find_slot xs zero index number = at index
find_slot xs (suc left) index number =
    let next = find_slot xs left (index + 1) number in
    let x = get_or xs index 0 in
    if ltb x number then next else if x == number then present else at index

-- `for (j = *count; j > index; --j) array[j] = array[j-1]` with `left` rounds to go
pub shift : List ℕ → ℕ → ℕ → List ℕ
shift xs zero j = xs
shift xs (suc left) j = shift (set xs j (get_or xs (j - 1) 0)) left (j - 1)

-- what follows the search; `*count` is a `ushort`
put_at : Array → ℕ → Slot → Array
unfolding shift
put_at a number present = a
put_at a number (at index) = record {
  cells = set (shift a.cells (a.count - index) a.count) index number;
  count = (a.count + 1) % 2 ^ 16;
}

unfoldable pub add : Array → ℕ → Array
unfolding find_slot put_at
add a number = put_at a number (find_slot a.cells a.count 0 number)

-- `for (; i <= j; i++)` with `left` rounds to go; the result is the one returned and `*pindex`
linear : List ℕ → ℕ → ℕ → ℕ → Bool × ℕ
linear xs zero i number = (false, i)
linear xs (suc left) i number =
    let next = linear xs left (i + 1) number in
    let x = get_or xs i 0 in
    if ltb x number then next else if ltb number x then (false, i) else (true, i)

-- `while (k > 0 && array[k - 1] == number) k--`
back : List ℕ → ℕ → ℕ → ℕ
back xs number zero = zero
back xs number (suc k) =
    let next = back xs number k in if get_or xs k 0 == number then next else suc k

-- `while (TRUE)`, with `end` for `j + 1`, since `j` may be -1. `none` is the fuel run out, or a sum
-- `i + j` that is no `int`.
search_loop : ℕ → List ℕ → ℕ → ℕ → ℕ → Option (Bool × ℕ)
unfolding linear back
search_loop zero xs number i end = none
search_loop (suc fuel) xs number i end =
    let k = (i + (end - 1)) / 2 in
    let x = get_or xs k 0 in
    let right = search_loop fuel xs number (k + 1) end in
    let left = search_loop fuel xs number i k in
    if ltb end (i + 5)
    then some (linear xs (end - i) i number)
    else if not (ltb (i + (end - 1)) (2 ^ 31))
    then none
    else if ltb x number
    then right
    else if ltb number x
    then left
    else some (true, back xs number k)

unfoldable pub get_index : List ℕ → ℕ → ℕ → Option (Bool × ℕ)
unfolding search_loop
get_index xs count number = search_loop (count + 1) xs number 0 count

-- the `for` loop of `sorted_array_get_index_2` with `left` for `count - *pindex`. The test reads
-- `array_1[*pindex]` before it compares `*pindex` with `count`; a read outside the storage is
-- `none`.
scan_2 : List ℕ → List ℕ → ℕ → ℕ → ℕ → ℕ → Option (Bool × ℕ)
scan_2 xs ys zero index number_1 number_2 = do x ← get_elem? xs index; some (false, index)
scan_2 xs ys (suc left) index number_1 number_2 =
    let next = scan_2 xs ys left (index + 1) number_1 number_2 in
    let y = get_or ys index 0 in
    do
      x ← get_elem? xs index
      if not (x == number_1)
          then some (false, index)
          else if ltb y number_2
          then next
          else if ltb number_2 y
          then some (false, index)
          else some (true, index)

unfoldable pub get_index_2 : List ℕ → List ℕ → ℕ → ℕ → ℕ → Option (Bool × ℕ)
unfolding scan_2
get_index_2 xs ys count number_1 number_2 = do
  (found, index) ← get_index xs count number_1
  if not found then some (false, index) else scan_2 xs ys (count - index) index number_1 number_2

-- two parallel arrays and their count
pub record PairArray : Type 0 where
  pub first : List ℕ
  pub second : List ℕ
  pub count : ℕ

-- what `sorted_array_add_2` does with the result of the search; `*pcount` is an `int`
insert_2 : PairArray → ℕ → ℕ → Bool × ℕ → Option PairArray
unfolding shift
insert_2 a number_1 number_2 (found, index) =
    let inserted : PairArray = record {
      first = set (shift a.first (a.count - index) a.count) index number_1;
      second = set (shift a.second (a.count - index) a.count) index number_2;
      count = a.count + 1;
    } in
    if found then some a else if ltb (a.count + 1) (2 ^ 31) then some inserted else none

unfoldable pub add_2 : PairArray → ℕ → ℕ → Option PairArray
unfolding insert_2
add_2 a number_1 number_2 = do
  r ← get_index_2 a.first a.second a.count number_1 number_2
  insert_2 a number_1 number_2 r
