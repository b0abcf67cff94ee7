-- ===== src/Bitlist/Combine/Results.antt =====
-- The five operations on whole lists, in terms of bits.
use my_test_files.Prelude.{
  ℕ, ◌^◌, ◌<◌, ◌≡◌, ◌∙◌, ap, true, false, not, ◌&&◌, ◌||◌, arith, ◌==◌, if◌then◌else◌, Bool-cases,
  inl, inr, bit_and, bit_or, bit_xor,
}
use mathlib.Core.Bool.{xor}
use my_test_files.Prelude.Word.{not32}
use my_test_files.Prelude.Bits.{
  test_bit, test_bit-bit_and, test_bit-bit_or, test_bit-bit_xor, test_bit-complement, bit_and-le,
  bit_or-lt, bit_xor-lt,
}
use my_test_files.Bitlist.Combine.{
  Store, update, copy_state, bitlist_or, bitlist_and, bitlist_not, bitlist_and_not, bitlist_xor,
}
use my_test_files.Bitlist.Combine.Laws.{AreFit, Applies, Applies_lem}

bit_and-lt : (x y : ℕ) → x < 2 ^ 32 → bit_and x y < 2 ^ 32
bit_and-lt x y h = omega (arith, bit_and-le x x y (omega arith))

module _ (h : Store) (a b c : ℕ) (fit : AreFit h a b c) where
  or-Applies : Applies (λ x y. x || y) h a b c (bitlist_or h a b c)
  unfolding bitlist_or
  or-Applies =
      Applies_lem bit_or (λ x y. x || y) (λ x y p q. bit_or-lt 32 x y p q)
        (λ x y k p q lt. test_bit-bit_or k x y) h a b c fit

  and-Applies : Applies (λ x y. x && y) h a b c (bitlist_and h a b c)
  unfolding bitlist_and
  and-Applies =
      Applies_lem bit_and (λ x y. x && y) (λ x y p q. bit_and-lt x y p)
        (λ x y k p q lt. test_bit-bit_and k x y) h a b c fit

  and_not-Applies : Applies (λ x y. x && not y) h a b c (bitlist_and_not h a b c)
  unfolding bitlist_and_not
  and_not-Applies =
      Applies_lem (λ x y. bit_and x (not32 y)) (λ x y. x && not y)
        (λ x y p q. bit_and-lt x (not32 y) p)
        (λ x y k p q lt.
          test_bit-bit_and k x (not32 y)
          ∙ ap (λ t. test_bit x k && t) (test_bit-complement 32 y k q lt))
        h a b c fit

  xor-Applies : Applies xor h a b c (bitlist_xor h a b c)
  unfolding bitlist_xor
  xor-Applies =
      Applies_lem bit_xor xor (λ x y p q. bit_xor-lt 32 x y p q)
        (λ x y k p q lt. test_bit-bit_xor k x y) h a b c fit

  -- On fitting lists, whichever of the three pointers are equal, `bitlist_or`, `bitlist_and`,
  -- `bitlist_and_not` and `bitlist_xor` give `c` the bits that they are named for, taken from the
  -- operands as they were before the call, in the sense of `Applies`.
  pub binary_Applies :
      Applies (λ x y. x || y) h a b c (bitlist_or h a b c)
      × Applies (λ x y. x && y) h a b c (bitlist_and h a b c)
      × Applies (λ x y. x && not y) h a b c (bitlist_and_not h a b c)
      × Applies xor h a b c (bitlist_xor h a b c)
  binary_Applies = (or-Applies, and-Applies, and_not-Applies, xor-Applies)

guard_lem :
    (h : Store) (a b : ℕ)
    → (if not (a == b) then update h b (record (h b) { state = (h a).state }) else h)
      ≡ copy_state h a a b
unfolding copy_state
guard_lem h a b = elim (Bool-cases (a == b)) [
  | inl e ↦ let e' : (b == a) ≡ true = ground arith in rw (e, e')
  | inr e ↦ let e' : (b == a) ≡ false = ground arith in rw (e, e')
]

-- On fitting lists, equal or not, `bitlist_not` gives `b` the complement of every bit of the
-- elements of `a`, the overflow bits included.
pub not-Applies :
    (h : Store) (a b : ℕ) → AreFit h a a b → Applies (λ x _. not x) h a a b (bitlist_not h a b)
unfolding bitlist_not
not-Applies h a b fit = rw (guard_lem h a b) (
    Applies_lem (λ x _. not32 x) (λ x _. not x) (λ x y p q. omega arith)
      (λ x y k p q lt. test_bit-complement 32 x k p lt) h a a b fit)
