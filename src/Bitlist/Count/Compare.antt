-- ===== src/Bitlist/Count/Compare.antt =====
-- `bitlist_anybit_set` and `bitlist_equal` against the bits.
use my_test_files.Prelude.{
  ℕ, zero, suc, ◌+◌, ◌*◌, ◌/◌, ◌%◌, ◌^◌, ◌≤◌, ◌<◌, ◌≡◌, refl, ◌∙◌, ap, sym, Bool, true, false, not,
  List, arith, ltb, ◌==◌, ==_iff, if◌then◌else◌, get_or, Bool-cases, inl, inr, ◌↔◌,
}
use native.Mathlib.Nat.{add-zero}
use my_test_files.Prelude.Bits.{test_bit, test_bit_ext, zero-test_bit}
use my_test_files.Bitlist.{Bitlist}
use my_test_files.Bitlist.View.{bit_at, IsValid, AreWords}
use my_test_files.Bitlist.Count.{count, any_elem, anybit_set, equal_elems, equal}
use my_test_files.Bitlist.Count.Laws.{ones, ones_none, ones_word, ones_split, count-ones}
use my_test_files.Bitlist.Find.Scan.{digit}

ones_zero : (f : ℕ → Bool) (i n : ℕ) → ones f i n ≡ 0 → (k : ℕ) → k < n → f (i + k) ≡ false
ones_zero f i zero e k lt = absurd (omega arith)
ones_zero f i (suc n) e zero lt = rw add-zero (ground arith)
ones_zero f i (suc n) e (suc k) lt =
    let s : i + suc k ≡ i + 1 + k = omega arith in
    rw s (ones_zero f (i + 1) n (omega arith) k (omega arith))

not_zero : {w : ℕ} → (w == 0) ≡ false → w ≡ 0 → ⊥
not_zero e z = ground arith

-- a word is 0 if and only if it has no set digit
ones_word_zero : (w : ℕ) → w < 2 ^ 32 → (w == 0) ≡ (ones (test_bit w) 0 32 == 0)
ones_word_zero w h = elim (Bool-cases (w == 0)) [
  | inl e ↦
      let z : w ≡ 0 = ground arith in
      let none = ones_none (test_bit w) 0 32 (λ k lo hi. rw z (zero-test_bit k)) in rw (e, none)
  | inr e ↦ elim (Bool-cases (ones (test_bit w) 0 32 == 0)) [
    | inr some_digit ↦ rw (e, some_digit)
    | inl no_digit ↦
        let all = (==_iff (ones (test_bit w) 0 32) 0).0 no_digit in
        let z : w ≡ 0 = test_bit_ext 32 w 0 h (omega arith) (λ k lt.
          let s : 0 + k ≡ k = omega arith in
          (rw s at (ones_zero (test_bit w) 0 32 all k lt)) ∙ sym (zero-test_bit k)) in
        absurd (not_zero e z)
  ]
]

positive_sum : (m n : ℕ) → (if not (m == 0) then true else ltb 0 n) ≡ ltb 0 (m + n)
positive_sum m n = ground arith

any_elem_lem :
    (xs : List ℕ) (left elem : ℕ)
    → AreWords xs
    → any_elem xs left elem ≡ ltb 0 (ones (digit xs) (elem * 32) (left * 32))
unfolding any_elem
any_elem_lem xs zero elem words = ground arith
any_elem_lem xs (suc left) elem words =
    let next : (elem + 1) * 32 ≡ elem * 32 + 32 = omega arith in
    let ih = any_elem_lem xs left (elem + 1) words in
    let split = ones_split (digit xs) (elem * 32) 32 (left * 32) (suc left * 32) (omega arith) in
    rw (ones_word_zero (get_or xs elem 0) (words elem), ones_word xs elem, split, ih, next)
      (positive_sum _ _)

-- `bitlist_anybit_set` tells whether `bitlist_count` is positive, overflow bits included.
pub anybit_set-count : (bl : Bitlist) → IsValid bl → anybit_set bl ≡ ltb 0 (count bl)
unfolding anybit_set
anybit_set-count bl v =
    rw (count-ones bl) (any_elem_lem bl.bits bl.state.max_elems 0 v.words ∙ same)
  where
    same :
        ltb 0 (ones (digit bl.bits) (0 * 32) (bl.state.max_elems * 32))
        ≡ ltb 0 (ones (bit_at bl) 0 (bl.state.max_elems * 32))
    same = unfold bit_at in refl

equal_elems_iff :
    (xs ys : List ℕ) (left elem : ℕ)
    → (equal_elems xs ys left elem ≡ true)
      ↔ ((j : ℕ) → elem ≤ j → j < elem + left → get_or xs j 0 ≡ get_or ys j 0)
unfolding equal_elems
equal_elems_iff xs ys zero elem = (λ e j lo hi. absurd (omega arith), λ h. refl)
equal_elems_iff xs ys (suc left) elem = (
  λ e j lo hi. elim (Bool-cases (elem == j)) [
    | inl here ↦ let s : j ≡ elem = ground arith in rw s (ground arith)
    | inr there ↦
        (equal_elems_iff xs ys left (elem + 1)).0 (ground arith) j (ground arith) (omega arith)
  ],
  λ h.
      let first = h elem (omega arith) (omega arith) in
      let rest =
        (equal_elems_iff xs ys left (elem + 1)).1 (λ j lo hi. h j (omega arith) (omega arith)) in
      ground (arith, first, rest),
)

-- `bitlist_equal` of two lists of words tells whether all the bits of the elements of the first,
-- overflow bits included, are the same in the second. It does not look at sizes or bases.
pub equal_iff :
    (a b : Bitlist)
    → IsValid a
    → IsValid b
    → (equal a b ≡ true) ↔ ((i : ℕ) → i < a.state.max_elems * 32 → bit_at a i ≡ bit_at b i)
unfolding equal bit_at
equal_iff a b va vb =
    let words = equal_elems_iff a.bits b.bits a.state.max_elems 0 in
    (
      λ e i lt. ap (λ w. test_bit w (i % 32)) (words.0 e (i / 32) (omega arith) (omega arith)),
      λ h. words.1 λ j lo hi.
          test_bit_ext 32 (get_or a.bits j 0) (get_or b.bits j 0) (va.words j) (vb.words j) λ k lt.
            let e : (j * 32 + k) / 32 ≡ j = omega arith in
            let r : (j * 32 + k) % 32 ≡ k = omega arith in
            rw (e, r) at (h (j * 32 + k) (omega arith)),
    )
