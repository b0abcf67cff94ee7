-- ===== src/Bitlist/Tests/Whole.antt =====
-- Copies, counts and the operations on whole lists, at concrete inputs.
use my_test_files.Prelude.{
  ℕ, ◌+◌, ◌*◌, ◌/◌, ◌%◌, ◌^◌, ◌<◌, ◌≡◌, ◌≢◌, refl, true, not, arith, ltb, leb, if◌then◌else◌, [],
  ◌∷◌, List, ◌&&◌, ◌||◌, Option, none, some, replicate, length-replicate, length, zero, suc, ◌-◌,
  subst,
}
use mathlib.Core.Bool.{Bool, false, xor}
use my_test_files.Prelude.Word.{sub32}
use my_test_files.Bitlist.{Bitlist}
use my_test_files.Bitlist.View.{bit_at, IsValid, AreWords, AllWords-AreWords}
use my_test_files.Bitlist.Whole.{IsRoomy}
use my_test_files.Bitlist.Combine.{
  Store, bitlist_or, bitlist_and, bitlist_not, bitlist_and_not, bitlist_xor,
}
use my_test_files.Bitlist.Combine.Laws.{AreFit, Applies}
use my_test_files.Bitlist.Combine.Results.{binary_Applies}
use my_test_files.Bitlist.Count.{count}
use my_test_files.Bitlist.Count.Complement.{count-not}
use my_test_files.Bitlist.Parse.{Fault, from_string}
use my_test_files.Bitlist.Parse.Items.{
  Item, one_number, range, value, AreDigits, digits_text, item_rest, first_digit, IsItem, Gains,
}
use my_test_files.Bitlist.Parse.Accept.{text, more_text, AreItems, are_holding}
use my_test_files.Bitlist.Parse.Laws.{IsGrown, from_string_lem}
use my_test_files.Bitlist.Copy.{copy_in_position}
use my_test_files.Bitlist.Copy.Laws.{copy_in_position_lem, is_insertable}
use my_test_files.Bitlist.Copy.Alloc.{Allocates}

-- a list of 40 bits numbered from 1, with the given elements
abbrev forty : ℕ → ℕ → Bitlist
forty x y = record {
  state = record { max_elems = 2; max_bits = 40; base_bit = 1; last_elem = 0; last_bit = 0 };
  bits = x ∷ y ∷ [];
}

forty-IsValid : (x y : ℕ) → x < 2 ^ 32 → y < 2 ^ 32 → IsValid (forty x y)
forty-IsValid x y hx hy = record {
  elems = refl;
  room = omega arith;
  small = omega arith;
  base = omega arith;
  words = AllWords-AreWords (x ∷ y ∷ []) (hx, (hy, tt));
}

-- list 0 holds 12 and 5, list 1 holds 10 and 3, every other pointer an empty list of that size
abbrev heap : Store
heap zero = forty 12 5
heap (suc zero) = forty 10 3
heap (suc (suc _)) = forty 0 0

heap-AreFit : AreFit heap 0 1 0
heap-AreFit = record {
  left = forty-IsValid 12 5 (omega arith) (omega arith);
  right = forty-IsValid 10 3 (omega arith) (omega arith);
  words = (forty-IsValid 12 5 (omega arith) (omega arith)).words;
  room_b = omega arith;
  room_c = omega arith;
}

binary_Applies_example :
    Applies (λ x y. x || y) heap 0 1 0 (bitlist_or heap 0 1 0)
    × Applies (λ x y. x && y) heap 0 1 0 (bitlist_and heap 0 1 0)
    × Applies (λ x y. x && not y) heap 0 1 0 (bitlist_and_not heap 0 1 0)
    × Applies xor heap 0 1 0 (bitlist_xor heap 0 1 0)
binary_Applies_example = binary_Applies heap 0 1 0 heap-AreFit

complement-AreFit : AreFit heap 0 0 1
complement-AreFit = record {
  left = heap-AreFit.left;
  right = heap-AreFit.left;
  words = heap-AreFit.right.words;
  room_b = omega arith;
  room_c = omega arith;
}

count-not_example :
    (count (heap 0) + count (bitlist_not heap 0 1 1) ≡ 64)
    × ((heap 0).state.max_bits % 32 ≢ 0
        → (heap 0).state.max_bits < count (heap 0) + count (bitlist_not heap 0 1 1))
count-not_example = count-not heap 0 1 complement-AreFit

abbrev one : Bitlist
one = forty 12 5

one-IsValid : IsValid one
one-IsValid = heap-AreFit.left

abbrev other : Bitlist
other = forty 10 3

other-IsValid : IsValid other
other-IsValid = heap-AreFit.right

full-IsRoomy : IsRoomy one 33 5
full-IsRoomy = record {
  small = omega arith;
  based = omega arith;
  room = omega arith;
  words = one-IsValid.words;
}

copy_in_position_lem_example :
    let r = copy_in_position one other 1 32 in
    let start = sub32 1 1 / 32 * 32 in
    IsValid r
    × (r.state ≡ other.state)
    × ((k : ℕ)
        → bit_at r k ≡ (
            if is_insertable one other 1 32 && leb start k && ltb k (start + 32)
            then bit_at one (k - start)
            else bit_at other k))
copy_in_position_lem_example =
    copy_in_position_lem one other 1 32 one-IsValid other-IsValid (omega arith) (omega arith)

-- an allocator that never fails and leaves 7 in every element
abbrev sevens : ℕ → Bitlist
sevens n = record {
  state = record { max_elems = 0; max_bits = 0; base_bit = 0; last_elem = 0; last_bit = 0 };
  bits = replicate n 7;
}

sevens-AreWords : (n : ℕ) → AreWords (replicate n 7)
sevens-AreWords zero i = omega arith
sevens-AreWords (suc n) zero = omega arith
sevens-AreWords (suc n) (suc i) = sevens-AreWords n i

IsBlock : ℕ → Option Bitlist → Type 0
IsBlock n none = Unit {0}
IsBlock n (some b) = (length b.bits ≡ n) × AreWords b.bits

sevens-Allocates : Allocates (λ n. some (sevens n))
unfolding IsBlock
sevens-Allocates n bl e = subst (IsBlock n) e (length-replicate n 7, sevens-AreWords n)

-- "2,5-7"
abbrev items : List Item
items = one_number 2 [] ∷ (range 5 [] 7 [] ∷ [])

items-AreItems : AreItems one items
unfolding AreItems IsItem AreDigits value
items-AreItems = (
  ((omega arith, tt), (omega arith, omega arith)),
  (
    (
      (omega arith, tt),
      (omega arith, tt),
      (omega arith, omega arith),
      (omega arith, omega arith),
      omega arith,
    ),
    tt,
  ),
)

text-items : text items ≡ 50 ∷ 44 ∷ 53 ∷ 45 ∷ 55 ∷ []
unfolding text more_text item_rest first_digit digits_text
text-items = refl

-- "2,5-7," sets 2, 5, 6 and 7, and the comma at the end is an error
from_string_lem_example :
    ((b : Bitlist) × (accepted : Bool) × (error : Option Fault) × (from_string true one
          (50 ∷ 44 ∷ 53 ∷ 45 ∷ 55 ∷ 44 ∷ [])
        ≡ some (b, accepted, error))
      × IsGrown one b
      × (accepted ≡ true → error ≡ none)
      × (accepted ≡ false → true ≡ true → error ≢ none))
    × ((b : Bitlist) × (from_string true one (text items) ≡ some (b, true, none))
        × Gains one b (are_holding items))
from_string_lem_example =
    from_string_lem true one (50 ∷ 44 ∷ 53 ∷ 45 ∷ 55 ∷ 44 ∷ []) items one-IsValid (omega arith)
      items-AreItems
