-- ===== src/Bitlist/Print/Rounds.antt =====
-- The steps of `bitlist_to_string`, and the searches between them.
use my_test_files.Prelude.{
  ℕ, zero, suc, ◌+◌, ◌*◌, ◌/◌, ◌%◌, ◌^◌, ◌≤◌, ◌<◌, ◌≡◌, refl, ◌∙◌, true, false, List, ◌∷◌, ◌++◌,
  length, ltb, leb, ◌==◌, some, arith, Bool-cases, inl, inr, ◌⊎◌,
}
use my_test_files.Prelude.Word.{add32, sub32}
use my_test_files.Bitlist.{Bitlist, invalid}
use my_test_files.Bitlist.Find.{find_first, find_next, find_bit, position_at}
use my_test_files.Bitlist.Find.Laws.{
  Finds, find_first-Finds, find_next-Finds, moved, position_at-IsValid,
}
use my_test_files.Bitlist.Print.{
  show_int, comma, result_of, reset_position, skip_range, string_loop,
}
use my_test_files.Bitlist.Print.Numbers.{IsSame}
use my_test_files.Bitlist.View.{IsValid}

-- the position is bit `i`
abbrev pub standing : Bitlist → ℕ → Bitlist
standing bl i = position_at bl (i / 32) (i % 32)

-- a search from bit `p` on found bit `i` and stands there, or it found none
unfoldable pub Comes : Bitlist → ℕ → Bitlist × ℕ → Type 0
Comes bl p r =
    ((i : ℕ) × (p ≤ i) × (i < bl.state.max_bits) × (r ≡ (standing bl i, bl.state.base_bit + i)))
    ⊎ (IsSame bl r.0 × (r.1 ≡ invalid))

pub comes : (bl : Bitlist) (p : ℕ) (r : Bitlist × ℕ) → Finds bl p r → Comes bl p r
unfolding Comes IsSame
comes bl p r f = elim f.outcome [
  | inl (i, h) ↦ inl (
    i,
    h.from,
    h.below,
    (λ k. (
      record {
        state = record {
          max_elems = f.max_elems k;
          max_bits = f.max_bits k;
          base_bit = f.base_bit k;
          last_elem = h.elem k;
          last_bit = h.bit k;
        };
        bits = f.bits k;
      },
      h.number k,
    )),
  )
  | inr h ↦ inr (
    (
      r.0.state.last_elem,
      r.0.state.last_bit,
      (λ k. record {
        state = record {
          max_elems = f.max_elems k;
          max_bits = f.max_bits k;
          base_bit = f.base_bit k;
          last_elem = r.0.state.last_elem;
          last_bit = r.0.state.last_bit;
        };
        bits = f.bits k;
      }),
    ),
    h.number,
  )
]

weaken : (bl : Bitlist) (p q : ℕ) (r : Bitlist × ℕ) → p ≤ q → Comes bl q r → Comes bl p r
unfolding Comes
weaken bl p q r le (inl (i, lo, hi, e)) = inl (i, omega (arith, le, lo), hi, e)
weaken bl p q r le (inr h) = inr h

skip_range-apart :
    (left : ℕ) (bl : Bitlist) (next : ℕ)
    → (add32 next 1 == (find_bit bl false).1) ≡ false
    → skip_range (suc left) bl next ≡ some ((find_bit bl false).0, next, (find_bit bl false).1)
unfolding skip_range
skip_range-apart left bl next e = rw (e, skip_range) refl

skip_range-joined :
    (left : ℕ) (bl : Bitlist) (next : ℕ)
    → (add32 next 1 == (find_bit bl false).1) ≡ true
    → skip_range (suc left) bl next ≡ skip_range left (find_bit bl false).0 (find_bit bl false).1
unfolding skip_range
skip_range-joined left bl next e = rw (e, skip_range) refl

module _ (left : ℕ) (bl : Bitlist) (size : ℕ) (text sep : List ℕ) (next : ℕ) where
  pub string_loop-end :
      next == invalid ≡ true
      → string_loop (suc left) bl size text sep next ≡ some (bl, text, result_of text next)
  unfolding string_loop
  string_loop-end e = rw (e, string_loop) refl

  pub string_loop-full :
      next == invalid ≡ false
      → leb size (length text + length (sep ++ show_int next)) ≡ true
      → string_loop (suc left) bl size text sep next
        ≡ some
            (reset_position bl (sub32 (sub32 next bl.state.base_bit) 1), text, result_of text next)
  unfolding string_loop
  string_loop-full e f = rw (e, string_loop) (rw f refl)

  pub string_loop-apart :
      next == invalid ≡ false
      → leb size (length text + length (sep ++ show_int next)) ≡ false
      → (add32 next 1 == (find_bit bl false).1) ≡ false
      → string_loop (suc left) bl size text sep next
        ≡ string_loop left
            (find_bit bl false).0
            size
            (text ++ (sep ++ show_int next))
            comma
            (find_bit bl false).1
  unfolding string_loop
  string_loop-apart e f g = rw (e, string_loop) (rw f (rw g refl))

  pub string_loop-range :
      (r : Bitlist × ℕ × ℕ)
      → next == invalid ≡ false
      → leb size (length text + length (sep ++ show_int next)) ≡ false
      → (add32 next 1 == (find_bit bl false).1) ≡ true
      → skip_range left (find_bit bl false).0 (find_bit bl false).1 ≡ some r
      → ltb (length (text ++ (sep ++ show_int next)) + length (45 ∷ show_int r.1)) size ≡ true
      → string_loop (suc left) bl size text sep next
        ≡ string_loop left r.0 size
            ((text ++ (sep ++ show_int next)) ++ (45 ∷ show_int r.1))
            comma
            r.2
  unfolding string_loop
  string_loop-range r e f g h k = rw (e, string_loop) (rw f (rw g (rw h (rw k refl))))

  pub string_loop-reset :
      (r : Bitlist × ℕ × ℕ)
      → next == invalid ≡ false
      → leb size (length text + length (sep ++ show_int next)) ≡ false
      → (add32 next 1 == (find_bit bl false).1) ≡ true
      → skip_range left (find_bit bl false).0 (find_bit bl false).1 ≡ some r
      → ltb (length (text ++ (sep ++ show_int next)) + length (45 ∷ show_int r.1)) size ≡ false
      → string_loop (suc left) bl size text sep next
        ≡ some (
          reset_position r.0 (sub32 next bl.state.base_bit),
          text ++ (sep ++ show_int next),
          result_of (text ++ (sep ++ show_int next)) (add32 next 1),
        )
  unfolding string_loop
  string_loop-reset r e f g h k = rw (e, string_loop) (rw f (rw g (rw h (rw k refl))))

module _ (bl : Bitlist) (v : IsValid bl)
    (fits : bl.state.base_bit + bl.state.max_bits < 2 ^ 31) where
  -- the next search from bit `i`
  pub forward : (i : ℕ) → Comes bl (suc i) (find_bit (standing bl i) false)
  unfolding find_next
  forward i =
      let at : Bitlist = standing bl i in
      let from : i / 32 * 32 + (i % 32 + 1) ≡ suc i = omega arith in
      let f : Finds at (i / 32 * 32 + (i % 32 + 1)) (find_bit at false) =
        find_next-Finds at (position_at-IsValid bl (i / 32) (i % 32) v) (omega (arith, fits))
          (omega arith) in
      rw from at (
        comes bl (i / 32 * 32 + (i % 32 + 1)) (find_bit at false)
          (moved bl (i / 32) (i % 32) (i / 32 * 32 + (i % 32 + 1)) (find_bit at false) f))

  pub first : Comes bl 0 (find_bit bl true)
  unfolding find_first
  first = comes bl 0 (find_bit bl true) (find_first-Finds bl v (omega (arith, fits)))

  -- what `skip_range` comes to from bit `i`
  pub skip_range_lem :
      (left i : ℕ)
      → bl.state.max_bits ≤ left + i
      → i < bl.state.max_bits
      → (r : Bitlist × ℕ × ℕ) × (skip_range left (standing bl i) (bl.state.base_bit + i) ≡ some r)
        × Comes bl (suc i) (r.0, r.2)
  unfolding Comes
  skip_range_lem zero i fuel lt = absurd (omega (arith, fuel, lt))
  skip_range_lem (suc left) i fuel lt =
      let at : Bitlist = standing bl i in
      let number : ℕ = bl.state.base_bit + i in
      elim (Bool-cases (add32 number 1 == (find_bit at false).1)) [
        | inr apart ↦ (
          ((find_bit at false).0, number, (find_bit at false).1),
          skip_range-apart left at number apart,
          forward i,
        )
        | inl joined ↦ elim (forward i) [
          | inl (k, lo, hi, e) ↦
              let (r, same, next) = skip_range_lem left k (omega (arith, fuel, lo)) hi in
              (
                r,
                skip_range-joined left at number joined ∙ rw e same,
                weaken bl (suc i) (suc k) (r.0, r.2) (omega (arith, lo)) next,
              )
          | inr (same, e) ↦ absurd (ground (arith, joined, e, lt, fits))
        ]
      ]
