-- ===== src/Bitlist/Print/Dump.antt =====
-- `bitlist_dump` prints the set bits as maximal ranges.
use my_test_files.Prelude.{
  ℕ, zero, suc, ◌+◌, ◌^◌, ◌≤◌, ◌<◌, ◌≡◌, refl, ◌∙◌, sym, ap, Bool, true, false, ◌&&◌, ◌||◌, List,
  [], ◌∷◌, ◌++◌, ltb, leb, ◌==◌, Option, some, arith, Bool-cases, inl, inr, ltb→lt,
}
use my_test_files.Prelude.Word.{add32, sub32}
use my_test_files.Bitlist.{Bitlist, invalid, test}
use my_test_files.Bitlist.Find.{find_first, find_after}
use my_test_files.Bitlist.Find.Laws.{find_first-Finds}
use my_test_files.Bitlist.Print.{shown, dump_loop, dump}
use my_test_files.Bitlist.Parse.{lt_int}
use my_test_files.Bitlist.View.{IsValid, test_outside}
use my_test_files.Bitlist.Print.Numbers.{IsSame, Next, found, again}
use my_test_files.Bitlist.Print.Ranges.{
  in_ranges, AreApart, shown-one, covers_end, covers_joined, covers_split,
}

-- the rest of a dump, when the range from `begin` to `end` is not printed yet
record Rest (bl : Bitlist) (begin end : ℕ) (r : Option (Bitlist × List (ℕ × ℕ))) : Type 0 where
  last : Bitlist
  stop : ℕ
  ranges : List (ℕ × ℕ)
  result : r ≡ some (last, (begin, stop) ∷ ranges)
  same : IsSame bl last
  apart : AreApart ((begin, stop) ∷ ranges)
  covers :
      (n : ℕ)
      → n < 2 ^ 32
      → in_ranges n ((begin, stop) ∷ ranges)
        ≡ ((leb begin n && leb n end) || (ltb end n && test bl n))

loop-end :
    (left : ℕ) (bl : Bitlist) (bit begin end : ℕ)
    → bit ≡ invalid
    → begin ≤ end
    → end < 2 ^ 31
    → dump_loop (suc left) bl bit end begin end ≡ some (bl, (begin, end) ∷ [])
unfolding dump_loop
loop-end left bl bit begin end gone le small = rw gone (rw (shown-one begin end le small) refl)

loop-joined :
    (left : ℕ) (bl last : Bitlist) (bit begin end : ℕ) (rs : List (ℕ × ℕ))
    → bit == invalid ≡ false
    → bit == add32 end 1 ≡ true
    → dump_loop left (find_after bl bit).0 (find_after bl bit).1 bit begin bit ≡ some (last, rs)
    → dump_loop (suc left) bl bit end begin end ≡ some (last, rs)
unfolding dump_loop
loop-joined left bl last bit begin end rs valid joined rest = rw valid (rw joined (rw rest refl))

loop-split :
    (left : ℕ) (bl last : Bitlist) (bit previous begin end : ℕ) (rs : List (ℕ × ℕ))
    → bit == invalid ≡ false
    → bit == add32 previous 1 ≡ false
    → dump_loop left (find_after bl bit).0 (find_after bl bit).1 bit bit bit ≡ some (last, rs)
    → dump_loop (suc left) bl bit previous begin end ≡ some (last, shown begin end ++ rs)
unfolding dump_loop
loop-split left bl last bit previous begin end rs valid split rest =
    rw valid (rw split (rw rest refl))

dump_loop-Rest :
    (left : ℕ) (bl bl' : Bitlist) (bit begin end : ℕ)
    → IsValid bl
    → bl.state.base_bit + bl.state.max_bits < 2 ^ 31
    → IsSame bl bl'
    → begin ≤ end
    → bl.state.base_bit ≤ begin
    → end < bl.state.base_bit + bl.state.max_bits
    → Next bl (suc end) bit
    → bl.state.base_bit + bl.state.max_bits ≤ left + end
    → Rest bl begin end (dump_loop left bl' bit end begin end)
unfolding Next AreApart in_ranges
dump_loop-Rest zero bl bl' bit begin end v fits same le lo hi next fuel =
    absurd (omega (arith, hi, fuel))
dump_loop-Rest (suc left) bl bl' bit begin end v fits same le lo hi (inl (clear, gone)) fuel =
    record {
      last = bl';
      stop = end;
      ranges = [];
      result = loop-end left bl' bit begin end gone le (omega (arith, hi, fits));
      same = same;
      apart = le;
      covers = λ n small. covers_end begin end n (test bl n) (λ h. clear n h small);
    }
dump_loop-Rest (suc left) bl bl' bit begin end v fits same le lo hi
      (inr (after, below, is_set, clear)) fuel =
    let (same', next') = again bl bl' bit v fits same (omega (arith, after, lo, le)) below in
    let valid : bit == invalid ≡ false = ground (arith, below, fits) in
    let one = shown-one begin end le (omega (arith, hi, fits)) in
    elim (Bool-cases (bit == add32 end 1)) [
      | inl joined ↦
          let e : bit ≡ suc end = ground (arith, joined, hi, fits) in
          let r : Rest bl begin bit
              (dump_loop left (find_after bl' bit).0 (find_after bl' bit).1 bit begin bit) =
            dump_loop-Rest left bl (find_after bl' bit).0 (find_after bl' bit).1 begin bit v fits
              same' (omega (arith, le, after)) lo below next' (omega (arith, fuel, after)) in
          record {
            last = r.last;
            stop = r.stop;
            ranges = r.ranges;
            result =
                loop-joined left bl' r.last bit begin end ((begin, r.stop) ∷ r.ranges) valid joined
                  r.result;
            same = r.same;
            apart = r.apart;
            covers = λ n small.
                r.covers n small
                ∙ covers_joined begin end bit n (test bl n) le e (λ h. rw h is_set);
          }
      | inr split ↦
          let gap : end + 1 < bit = ground (arith, split, after, below, fits) in
          let r : Rest bl bit bit
              (dump_loop left (find_after bl' bit).0 (find_after bl' bit).1 bit bit bit) =
            dump_loop-Rest left bl (find_after bl' bit).0 (find_after bl' bit).1 bit bit v fits
              same' (omega arith) (omega (arith, after, lo, le)) below next'
              (omega (arith, fuel, after)) in
          let all =
            loop-split left bl' r.last bit end begin end ((bit, r.stop) ∷ r.ranges) valid split
              r.result in
          record {
            last = r.last;
            stop = end;
            ranges = (bit, r.stop) ∷ r.ranges;
            result = rw one at all;
            same = r.same;
            apart = (le, gap, r.apart);
            covers = λ n small.
                ap (λ t. (leb begin n && leb n end) || t)
                  (r.covers n small
                    ∙ covers_split end bit n (test bl n) after (λ h. rw h is_set)
                        (λ lt gt. clear n lt gt));
          }
    ]

covers_all :
    (bit n : ℕ) (t : Bool)
    → (n ≡ bit → t ≡ true)
    → (n < bit → t ≡ false)
    → ((leb bit n && leb n bit) || (ltb bit n && t)) ≡ t
covers_all bit n false h k = ground (arith, h)
covers_all bit n true h k = ground (arith, k)

shown-none : (b : ℕ) → b < 2 ^ 31 → shown b (sub32 b 1) ≡ []
unfolding shown
shown-none b small =
    let less : lt_int b (sub32 b 1) ≡ false = ground (arith, small) in
    let same : b == sub32 b 1 ≡ false = ground (arith, small) in rw less (rw same refl)

below_base :
    (bl : Bitlist) (n : ℕ)
    → IsValid bl
    → bl.state.base_bit + bl.state.max_bits < 2 ^ 31
    → n < bl.state.base_bit
    → test bl n ≡ false
below_base bl n v fits lt = test_outside bl n v (ground (arith, lt, fits))

loop-empty :
    (left : ℕ) (bl : Bitlist) (bit previous : ℕ)
    → bit ≡ invalid
    → dump_loop (suc left) bl bit previous bit (sub32 bit 1) ≡ some (bl, [])
unfolding dump_loop shown
loop-empty left bl bit previous gone = rw gone refl

clear_below :
    (bl : Bitlist) (bit n : ℕ)
    → IsValid bl
    → bl.state.base_bit + bl.state.max_bits < 2 ^ 31
    → (bl.state.base_bit ≤ n → n < bit → test bl n ≡ false)
    → n < bit
    → test bl n ≡ false
clear_below bl bit n v fits clear lt = elim (Bool-cases (ltb n bl.state.base_bit)) [
  | inl low ↦ below_base bl n v fits (ltb→lt n bl.state.base_bit low)
  | inr high ↦ clear (ground (arith, high)) lt
]

-- On a well-formed list whose numbers stay below 2 ^ 31 - 1, `bitlist_dump` ends, and the ranges
-- that it prints are in ascending order, not empty and each apart from the next, and cover exactly
-- the numbers that read as set. It changes nothing but the position of the search.
pub dump_lem :
    (bl : Bitlist)
    → IsValid bl
    → bl.state.base_bit + bl.state.max_bits < 2 ^ 31
    → (bl' : Bitlist) × (ranges : List (ℕ × ℕ)) × (dump bl ≡ some (bl', ranges))
      × IsSame bl bl'
      × AreApart ranges
      × ((n : ℕ) → n < 2 ^ 32 → in_ranges n ranges ≡ test bl n)
unfolding dump Next AreApart in_ranges
dump_lem bl v fits =
    let (same, next) =
      found bl 0 (find_first bl) v fits (find_first-Finds bl v (omega (arith, fits))) in
    let bl' : Bitlist = (find_first bl).0 in
    let bit : ℕ = (find_first bl).1 in
    let rounds : bl.state.max_bits + 1 ≡ suc bl.state.max_bits = omega arith in
    elim next [
      | inl (clear, gone) ↦ (
        bl',
        [],
        rw rounds (loop-empty bl.state.max_bits bl' bit (sub32 bit 2) gone),
        same,
        tt,
        (λ n small.
            sym (
              clear_below bl (2 ^ 32) n v fits (λ lo lt. clear n (omega (arith, lo)) small) small)),
      )
      | inr (from, below, is_set, clear) ↦
          let (same', next') = again bl bl' bit v fits same (omega (arith, from)) below in
          let r : Rest bl bit bit (
              dump_loop bl.state.max_bits (find_after bl' bit).0 (find_after bl' bit).1 bit bit
                bit) =
            dump_loop-Rest bl.state.max_bits bl (find_after bl' bit).0 (find_after bl' bit).1 bit
              bit v fits same' (omega arith) (omega (arith, from)) below next'
              (omega (arith, from)) in
          let valid : bit == invalid ≡ false = ground (arith, below, fits) in
          let apart : bit == add32 (sub32 bit 2) 1 ≡ false = ground (arith, below, fits) in
          let all =
            loop-split bl.state.max_bits bl' r.last bit (sub32 bit 2) bit (sub32 bit 1)
              ((bit, r.stop) ∷ r.ranges) valid apart r.result in
          (
            r.last,
            (bit, r.stop) ∷ r.ranges,
            rw rounds (rw (shown-none bit (omega (arith, below, fits))) at all),
            r.same,
            r.apart,
            (λ n small.
                r.covers n small
                ∙ covers_all bit n (test bl n) (λ h. rw h is_set)
                    (clear_below bl bit n v fits (λ lo lt. clear n (omega (arith, lo)) lt))),
          )
    ]
