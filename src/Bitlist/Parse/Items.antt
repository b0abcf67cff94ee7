-- ===== src/Bitlist/Parse/Items.antt =====
-- Strings of numbers and ranges, and what `bitlist_from_string` makes of one number or range.
use my_test_files.Prelude.{
  ℕ, zero, suc, ◌+◌, ◌*◌, ◌^◌, ◌≤◌, ◌<◌, ◌≡◌, refl, ◌∙◌, Bool, true, false, ◌&&◌, ◌||◌, List, [],
  ◌∷◌, leb, ◌==◌, if◌then◌else◌, some, Bool-cases, inl, inr, arith,
}
use my_test_files.Prelude.Word.{add32, sub32, mul32}
use my_test_files.Bitlist.{Bitlist, set, test}
use my_test_files.Bitlist.View.{IsValid, has_bit, has_bit_iff}
use my_test_files.Bitlist.Edit.{set-IsValid, state-set, test-set}
use my_test_files.Bitlist.Parse.{lt_int, is_digit, read_number, set_from}

-- a number, or a range of two, with the digits of each: the first one and the others
pub data Item : Type 0 where
  one_number : ℕ → List ℕ → Item
  range : ℕ → List ℕ → ℕ → List ℕ → Item

-- the number that digits stand for, after others that stand for `acc`
unfoldable pub value : ℕ → List ℕ → ℕ
value acc [] = acc
value acc (d ∷ ds) = value (acc * 10 + d) ds

unfoldable pub AreDigits : List ℕ → Type 0
AreDigits [] = Unit {0}
AreDigits (d ∷ ds) = (d < 10) × AreDigits ds

-- the characters of digits, in front of `rest`
unfoldable pub digits_text : List ℕ → List ℕ → List ℕ
digits_text [] rest = rest
digits_text (d ∷ ds) rest = (d + 48) ∷ digits_text ds rest

-- what follows the first character of an item
unfoldable pub item_rest : Item → List ℕ → List ℕ
item_rest (one_number d ds) rest = digits_text ds rest
item_rest (range d ds e es) rest = digits_text ds (45 ∷ ((e + 48) ∷ digits_text es rest))

unfoldable pub first_digit : Item → ℕ
first_digit (one_number d ds) = d
first_digit (range d ds e es) = d

-- the numbers of an item that is written out
unfoldable pub holds : Item → ℕ → Bool
holds (one_number d ds) n = n == value 0 (d ∷ ds)
holds (range d ds e es) n = leb (value 0 (d ∷ ds)) n && leb n (value 0 (e ∷ es))

-- the number is one of the list's
abbrev pub IsIn : Bitlist → ℕ → Type 0
IsIn a n = (a.state.base_bit ≤ n) × (n < a.state.base_bit + a.state.max_bits)

-- digits of numbers that the list has, those of a range in order
unfoldable pub IsItem : Bitlist → Item → Type 0
IsItem a (one_number d ds) = AreDigits (d ∷ ds) × IsIn a (value 0 (d ∷ ds))
IsItem a (range d ds e es) =
    AreDigits (d ∷ ds)
    × AreDigits (e ∷ es)
    × IsIn a (value 0 (d ∷ ds))
    × IsIn a (value 0 (e ∷ es))
    × (value 0 (d ∷ ds) < value 0 (e ∷ es))

-- the second list is well formed, has the same numbers, and has the bits of the first and those in
-- addition that `more` tells
pub record Gains (a b : Bitlist) (more : ℕ → Bool) : Type 0 where
  pub valid : IsValid b
  pub state : b.state ≡ a.state
  pub exact : (n : ℕ) → n < 2 ^ 32 → test b n ≡ (more n || test a n)

-- no digit stands here
unfoldable pub IsEnd : List ℕ → Type 0
IsEnd [] = Unit {0}
IsEnd (c ∷ cs) = is_digit c ≡ false

value-le : (acc : ℕ) (ds : List ℕ) → acc ≤ value acc ds
unfolding value
value-le acc [] = omega arith
value-le acc (d ∷ ds) = omega (arith, value-le (acc * 10 + d) ds)

pub read_number-digits :
    (ds rest : List ℕ) (charno acc : ℕ)
    → AreDigits ds
    → value acc ds < 2 ^ 31
    → IsEnd rest
    → (k : ℕ) × (read_number (digits_text ds rest) charno acc
        ≡ record { list = rest; charno = k; number = value acc ds })
unfolding value AreDigits digits_text IsEnd read_number
read_number-digits [] [] charno acc digits small end = (charno, refl)
read_number-digits [] (c ∷ cs) charno acc digits small end = (charno, rw end refl)
read_number-digits (d ∷ ds) rest charno acc (digit, digits) small end =
    let bound = value-le (acc * 10 + d) ds in
    let is : is_digit (d + 48) ≡ true = ground (arith, digit) in
    let step : sub32 (add32 (mul32 acc 10) (d + 48)) 48 ≡ acc * 10 + d =
      omega (arith, bound, small, digit) in
    let (k, run) = read_number-digits ds rest (charno + 1) (acc * 10 + d) digits small end in
    (k, rw (is, step) run)

-- A number that the list has is set.
pub set-Gains :
    (a : Bitlist)
    → a.state.base_bit + a.state.max_bits < 2 ^ 31
    → (n : ℕ) → IsValid a
    → IsIn a n
    → Gains a (set a n) (λ m. m == n)
set-Gains a fits n v h =
    let has : has_bit a n ≡ true =
      (has_bit_iff a n (omega (arith, fits)) (omega (arith, fits, h.1))).1 h in
    record {
      valid = set-IsValid a n v;
      state = state-set a n;
      exact = λ m lt.
          rw (test-set a n m v (omega (arith, fits, h.1)) lt, has) (by_number m n (test a m));
    }
  where
    by_number : (m n : ℕ) (t : Bool) → (if true && n == m then true else t) ≡ (m == n || t)
    by_number m n t = ground arith

module _ (a : Bitlist) (fits : a.state.base_bit + a.state.max_bits < 2 ^ 31) where
  -- So is a range of such numbers.
  pub set_from-Gains :
      (left : ℕ) (b : Bitlist) (i number : ℕ)
      → IsValid b
      → b.state ≡ a.state
      → a.state.base_bit ≤ i
      → number < a.state.base_bit + a.state.max_bits
      → i ≤ number + 1
      → number + 2 ≤ i + left
      → (c : Bitlist) × (set_from b left i number ≡ some c)
        × Gains b c (λ n. leb i n && leb n number)
  unfolding set_from
  set_from-Gains zero b i number v same lo hi le fuel = absurd (omega (arith, le, fuel))
  set_from-Gains (suc left) b i number v same lo hi le fuel = elim (Bool-cases (lt_int number i)) [
    | inl past ↦
        let after : number < i = ground (arith, past, fits, lo, hi, le) in
        rw past (
          b,
          refl,
          record { valid = v; state = refl; exact = λ n lt. none_left i number n (test b n) after },
        )
    | inr inside ↦
        let within : i ≤ number = ground (arith, inside, fits, lo, hi, le) in
        let next : add32 i 1 ≡ i + 1 = omega (arith, within, fits, hi) in
        let first = set_one b i v same lo (omega (arith, within, hi)) in
        let (c, run, gains) =
          set_from-Gains left (set b i) (i + 1) number first.valid (first.state ∙ same)
            (omega (arith, lo)) hi (omega (arith, within)) (omega (arith, fuel)) in
        rw (inside, next)
          (
            c,
            run,
            record {
              valid = gains.valid;
              state = gains.state ∙ first.state;
              exact = λ n lt.
                  gains.exact n lt ∙ rw (first.exact n lt) (join i number n (test b n) within);
            },
          )
  ]
    where
      none_left : (i number n : ℕ) (t : Bool) → number < i → t ≡ ((leb i n && leb n number) || t)
      none_left i number n t lt = ground (arith, lt)

      join :
          (i number n : ℕ) (t : Bool)
          → i ≤ number
          → ((leb (i + 1) n && leb n number) || (n == i || t)) ≡ ((leb i n && leb n number) || t)
      join i number n t le = ground (arith, le)

      set_one :
          (b : Bitlist) (i : ℕ)
          → IsValid b
          → b.state ≡ a.state
          → a.state.base_bit ≤ i
          → i < a.state.base_bit + a.state.max_bits
          → Gains b (set b i) (λ m. m == i)
      set_one b i v same lo hi = set-Gains b (rw same fits) i v (rw same (lo, hi))
