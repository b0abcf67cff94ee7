-- ===== src/Bitlist/Count.antt =====
-- `bitlist_count`, `bitlist_equal` and `bitlist_anybit_set`.
pub mod Laws
pub mod Compare
pub mod Complement
use my_test_files.Prelude.{
  ℕ, zero, suc, ◌+◌, ◌^◌, Bool, true, false, not, List, ◌==◌, if◌then◌else◌, get_or, bit_and,
}
use my_test_files.Bitlist.{Bitlist}

-- the inner loop, with `left` rounds to go
count_word : ℕ → ℕ → ℕ → ℕ → ℕ
count_word zero bits bit count = count
count_word (suc left) bits bit count =
    count_word left bits (bit + 1) (count + (if not (bit_and bits (2 ^ bit) == 0) then 1 else 0))

count_elems : List ℕ → ℕ → ℕ → ℕ → ℕ
unfolding count_word
count_elems xs zero elem count = count
count_elems xs (suc left) elem count =
    count_elems xs left (elem + 1) (count_word 32 (get_or xs elem 0) 0 count)

unfoldable pub count : Bitlist → ℕ
unfolding count_elems
count bl = count_elems bl.bits bl.state.max_elems 0 0

any_elem : List ℕ → ℕ → ℕ → Bool
any_elem xs zero elem = false
any_elem xs (suc left) elem =
    let rest = any_elem xs left (elem + 1) in if not (get_or xs elem 0 == 0) then true else rest

unfoldable pub anybit_set : Bitlist → Bool
unfolding any_elem
anybit_set bl = any_elem bl.bits bl.state.max_elems 0

equal_elems : List ℕ → List ℕ → ℕ → ℕ → Bool
equal_elems xs ys zero elem = true
equal_elems xs ys (suc left) elem =
    let rest = equal_elems xs ys left (elem + 1) in
    if not (get_or xs elem 0 == get_or ys elem 0) then false else rest

unfoldable pub equal : Bitlist → Bitlist → Bool
unfolding equal_elems
equal a b = equal_elems a.bits b.bits a.state.max_elems 0
