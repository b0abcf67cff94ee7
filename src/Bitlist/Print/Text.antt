-- ===== src/Bitlist/Print/Text.antt =====
-- `bitlist_to_string` ends, stays inside its buffer, and leaves the position where the next call
-- goes on.
use my_test_files.Prelude.{
  ℕ, zero, suc, ◌+◌, ◌-◌, ◌/◌, ◌%◌, ◌^◌, ◌≤◌, ◌<◌, ◌≡◌, refl, true, false, List, [], ◌∷◌, ◌++◌,
  length, length-append, ltb, leb, ◌==◌, Option, some, arith, Bool-cases, inl, inr, ◌⊎◌, ==_iff,
}
use my_test_files.Prelude.Word.{add32, sub32, div_int}
use my_test_files.Prelude.Bits.{bit_and_low}
use my_test_files.Bitlist.{Bitlist, invalid, bit_to_bit}
use my_test_files.Bitlist.Find.{find_bit}
use my_test_files.Bitlist.Print.{
  show_int, comma, result_of, reset_position, skip_range, string_loop, to_string,
}
use my_test_files.Bitlist.Print.Numbers.{IsSame}
use my_test_files.Bitlist.View.{IsValid}
use my_test_files.Bitlist.Print.Rounds.{
  standing, Comes, string_loop-end, string_loop-full, string_loop-apart, string_loop-range,
  string_loop-reset, forward, first, skip_range_lem,
}

-- what `bitlist_to_string` comes to, when its search starts from bit `p`: a string that fits, and
-- BITLIST_INVALID or a position that is not before `p`
pub record Ends (bl : Bitlist) (size p : ℕ) (r : Option (Bitlist × List ℕ × ℕ)) : Type 0 where
  pub last : Bitlist
  pub text : List ℕ
  pub answer : ℕ
  pub result : r ≡ some (last, text, answer)
  pub room : (text ≡ []) ⊎ (length text < size)
  pub go_on :
      (answer ≡ invalid) ⊎ ((i : ℕ) × (p ≤ i) × (i < bl.state.max_bits) × (last ≡ standing bl i))

result_of-invalid : (text : List ℕ) → result_of text invalid ≡ invalid
unfolding result_of
result_of-invalid [] = refl
result_of-invalid (c ∷ text) = ground arith

module _ (bl : Bitlist) (v : IsValid bl)
    (fits : bl.state.base_bit + bl.state.max_bits < 2 ^ 31) where
  reset_position-standing :
      (bl' : Bitlist) (i curr : ℕ)
      → IsSame bl bl'
      → curr ≡ i
      → i < bl.state.max_bits
      → reset_position bl' curr ≡ standing bl i
  unfolding IsSame reset_position
  reset_position-standing bl' i curr (e, b, same) at lt =
      let elem : div_int i 32 ≡ i / 32 = ground (arith, lt, fits) in
      let bit : bit_to_bit i ≡ i % 32 = bit_and_low i in rw at (rw same (rw elem (rw bit refl)))

  standing-IsSame : (i : ℕ) → IsSame bl (standing bl i)
  unfolding IsSame
  standing-IsSame i = (i / 32, i % 32, refl)

  Comes-IsSame : (p : ℕ) (r : Bitlist × ℕ) → Comes bl p r → IsSame bl r.0
  unfolding Comes IsSame
  Comes-IsSame p r (inl (i, lo, hi, e)) = rw e (i / 32, i % 32, refl)
  Comes-IsSame p r (inr (same, _)) = same

  -- The string is full before the number of bit `i`.
  full-Ends :
      (size p i : ℕ) (text : List ℕ)
      → i < bl.state.max_bits
      → (text ≡ []) ⊎ (p < i)
      → (text ≡ []) ⊎ (length text < size)
      → Ends bl size p (
          some (
            reset_position
                (standing bl i)
                (sub32 (sub32 (bl.state.base_bit + i) bl.state.base_bit) 1),
            text,
            result_of text (bl.state.base_bit + i),
          ))
  unfolding result_of
  full-Ends size p i text hi (inl empty) room = record {
    last =
        reset_position (standing bl i) (sub32 (sub32 (bl.state.base_bit + i) bl.state.base_bit) 1);
    text = text;
    answer = result_of text (bl.state.base_bit + i);
    result = refl;
    room = room;
    go_on = inl (rw empty refl);
  }
  full-Ends size p i text hi (inr past) room = record {
    last =
        reset_position (standing bl i) (sub32 (sub32 (bl.state.base_bit + i) bl.state.base_bit) 1);
    text = text;
    answer = result_of text (bl.state.base_bit + i);
    result = refl;
    room = room;
    go_on = inr (
      i - 1,
      omega (arith, past),
      omega (arith, hi),
      reset_position-standing (standing bl i) (i - 1)
          (sub32 (sub32 (bl.state.base_bit + i) bl.state.base_bit) 1) (standing-IsSame i)
          (omega (arith, past, hi, fits)) (omega (arith, hi)),
    );
  }

  shift_past : {p q i : ℕ} (text : List ℕ) → (text ≡ []) ⊎ (p < q) → q ≤ i → (text ≡ []) ⊎ (p < i)
  shift_past text (inl e) le = inl e
  shift_past text (inr lt) le = inr (omega (arith, lt, le))

  string_loop-Ends :
      (left size p q : ℕ) (text sep : List ℕ) (r : Bitlist × ℕ)
      → bl.state.max_bits + 1 ≤ left + q
      → q ≤ bl.state.max_bits
      → Comes bl q r
      → p ≤ q
      → (text ≡ []) ⊎ (p < q)
      → (text ≡ []) ⊎ (length text < size)
      → Ends bl size p (string_loop left r.0 size text sep r.1)
  unfolding Comes
  string_loop-Ends zero size p q text sep r fuel top c pq past room =
      absurd (omega (arith, fuel, top))
  string_loop-Ends (suc left) size p q text sep r fuel top (inr (same, gone)) pq past room =
      record {
        last = r.0;
        text = text;
        answer = result_of text r.1;
        result = string_loop-end left r.0 size text sep r.1 ((==_iff r.1 invalid).1 gone);
        room = room;
        go_on = inl (rw gone (result_of-invalid text));
      }
  string_loop-Ends (suc left) size p q text sep r fuel top (inl (i, lo, hi, e)) pq past room =
      let at : Bitlist = standing bl i in
      let next : ℕ = bl.state.base_bit + i in
      let piece : List ℕ = sep ++ show_int next in
      let valid : next == invalid ≡ false = ground (arith, hi, fits) in
      rw e (elim (Bool-cases (leb size (length text + length piece))) [
        | inl full ↦
            rw (string_loop-full left at size text sep next valid full)
              (full-Ends size p i text hi (shift_past text past lo) room)
        | inr small ↦
            let len = length-append text piece in
            let room' : length (text ++ piece) < size = ground (arith, small, len) in
            elim (Bool-cases (add32 next 1 == (find_bit at false).1)) [
              | inr apart ↦
                  let rest =
                    string_loop-Ends left size p (suc i) (text ++ piece) comma (find_bit at false)
                      (omega (arith, fuel, lo)) (omega (arith, hi)) (forward bl v fits i)
                      (omega (arith, pq, lo)) (inr (omega (arith, pq, lo))) (inr room') in
                  rw (string_loop-apart left at size text sep next valid small apart) rest
              | inl joined ↦ elim (forward bl v fits i) [
                | inr (same, gone) ↦ absurd (ground (arith, joined, gone, hi, fits))
                | inl (k, lo', hi', e') ↦
                    let (t, eq, next') =
                      skip_range_lem bl v fits left k (omega (arith, fuel, lo, lo')) hi' in
                    let skipped : skip_range left (find_bit at false).0 (find_bit at false).1
                        ≡ some t =
                      rw e' eq in
                    let tail : List ℕ = 45 ∷ show_int t.1 in
                    elim (Bool-cases (ltb (length (text ++ piece) + length tail) size)) [
                      | inl wide ↦
                          let len' = length-append (text ++ piece) tail in
                          let room'' : length ((text ++ piece) ++ tail) < size =
                            ground (arith, wide, len') in
                          let rest =
                            string_loop-Ends left size p (suc k) ((text ++ piece) ++ tail) comma
                              (t.0, t.2) (omega (arith, fuel, lo, lo')) (omega (arith, hi')) next'
                              (omega (arith, pq, lo, lo')) (inr (omega (arith, pq, lo, lo')))
                              (inr room'') in
                          rw
                            (string_loop-range left at size text sep next t valid small joined
                              skipped wide)
                            rest
                      | inr tight ↦
                          rw
                            (string_loop-reset left at size text sep next t valid small joined
                              skipped tight)
                            (record {
                              last = reset_position t.0 (sub32 next bl.state.base_bit);
                              text = text ++ piece;
                              answer = result_of (text ++ piece) (add32 next 1);
                              result = refl;
                              room = inr room';
                              go_on = inr (
                                i,
                                omega (arith, pq, lo),
                                hi,
                                reset_position-standing t.0 i (sub32 next bl.state.base_bit)
                                    (Comes-IsSame (suc k) (t.0, t.2) next')
                                    (omega (arith, hi, fits)) hi,
                              );
                            })
                    ]
              ]
            ]
      ])

  pub to_string-first : (size : ℕ) → Ends bl size 0 (to_string bl size true)
  unfolding to_string
  to_string-first size =
      string_loop-Ends (bl.state.max_bits + 1) size 0 0 [] [] (find_bit bl true) (omega arith)
        (omega arith) (first bl v fits) (omega arith) (inl refl) (inl refl)

  pub to_string-next :
      (size i : ℕ)
      → i < bl.state.max_bits
      → Ends bl size (suc i) (to_string (standing bl i) size false)
  unfolding to_string
  to_string-next size i lt =
      string_loop-Ends (bl.state.max_bits + 1) size (suc i) (suc i) [] []
        (find_bit (standing bl i) false) (omega arith) (omega (arith, lt)) (forward bl v fits i)
        (omega arith) (inl refl) (inl refl)

  -- On a well-formed list whose numbers stay below 2 ^ 31 - 1, `bitlist_to_string` ends, whether it
  -- searches from the start or from the position at bit `i`. The string that it writes is empty or,
  -- with its 0, fits into the buffer. It returns BITLIST_INVALID, or it leaves the position at
  -- a bit that is not before the one where its search started, so that the next call goes on.
  pub to_string_lem :
      (size i : ℕ)
      → i < bl.state.max_bits
      → Ends bl size 0 (to_string bl size true)
        × Ends bl size (suc i) (to_string (standing bl i) size false)
  to_string_lem size i lt = (to_string-first size, to_string-next size i lt)
