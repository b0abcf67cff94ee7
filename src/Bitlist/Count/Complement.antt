-- ===== src/Bitlist/Count/Complement.antt =====
-- `bitlist_not` and then `bitlist_count`.
use my_test_files.Prelude.{
  ℕ, ◌+◌, ◌*◌, ◌%◌, ◌<◌, ◌≡◌, ◌∙◌, ap, not, arith, ◌==◌, Bool-cases, inl, inr, ◌≢◌,
}
use my_test_files.Bitlist.{State}
use my_test_files.Bitlist.View.{bit_at}
use my_test_files.Bitlist.Combine.{Store, bitlist_not}
use my_test_files.Bitlist.Combine.Laws.{AreFit}
use my_test_files.Bitlist.Combine.Results.{not-Applies}
use my_test_files.Bitlist.Count.{count}
use my_test_files.Bitlist.Count.Laws.{ones, ones_congr, ones-not, count-ones}

state-not : (h : Store) (a b : ℕ) → AreFit h a a b → (bitlist_not h a b b).state ≡ (h a).state
state-not h a b fit = (not-Applies h a b fit).state ∙ elim (Bool-cases (b == a)) [
  | inl e ↦ let s : b ≡ a = ground arith in rw s (ground arith)
  | inr e ↦ rw e
]

-- After `bitlist_not` of `a` into `b` the counts of the two lists add up to 32 times the number of
-- elements. So where `max_bits` is no multiple of 32, a list and its complement together count
-- more bits than they have numbers.
pub count-not :
    (h : Store) (a b : ℕ)
    → AreFit h a a b
    → (count (h a) + count (bitlist_not h a b b) ≡ (h a).state.max_elems * 32)
      × ((h a).state.max_bits % 32 ≢ 0
          → (h a).state.max_bits < count (h a) + count (bitlist_not h a b b))
count-not h a b fit =
    let total = (h a).state.max_elems * 32 in
    let st = ap (λ (s : State). s.max_elems * 32) (state-not h a b fit) in
    let c : count (bitlist_not h a b b) ≡ ones (bit_at (bitlist_not h a b b)) 0 total =
      count-ones (bitlist_not h a b b) ∙ ap (λ n. ones (bit_at (bitlist_not h a b b)) 0 n) st in
    let flip =
      ones_congr (bit_at (bitlist_not h a b b)) (λ k. not (bit_at (h a) k)) 0 0 total
        (λ k lt. (not-Applies h a b fit).bits (0 + k) (omega arith)) in
    let sum : count (h a) + count (bitlist_not h a b b) ≡ total =
      omega (arith, count-ones (h a), c, flip, ones-not (bit_at (h a)) 0 total) in
    (sum, λ ragged. omega (arith, sum, fit.left.elems))
