-- ===== src/Bitlist/Parse/Laws.antt =====
-- Parsing ends on every string, if no range can end at INT_MAX, and only ever sets bits.
use my_test_files.Prelude.{
  ℕ, zero, suc, ◌+◌, ◌-◌, ◌^◌, ◌≤◌, ◌<◌, ◌≡◌, ◌≢◌, refl, ◌∙◌, Bool, true, false, List, [], ◌∷◌,
  length, ◌==◌, if◌then◌else◌, Option, none, some, Bool-cases, inl, inr, arith,
}
use my_test_files.Prelude.Word.{add32, sub32, mul32}
use my_test_files.Bitlist.{Bitlist, set, test}
use my_test_files.Bitlist.Parse.Items.{Item, Gains}
use my_test_files.Bitlist.Parse.Accept.{text, AreItems, are_holding, from_string-text}
use my_test_files.Bitlist.View.{IsValid}
use my_test_files.Bitlist.Edit.{set-IsValid, state-set, test-set}
use my_test_files.Bitlist.Parse.{
  Fault, Progress, undefined, stop, go, lt_int, is_digit, is_out, read_number, set_from, range_end,
  after_number, item, separator, parse, from_string,
}

-- the second list is well formed, has the same numbers, and every bit that is set in the first
pub record IsGrown (a b : Bitlist) : Type 0 where
  pub valid : IsValid b
  pub state : b.state ≡ a.state
  pub grown : (n : ℕ) → n < 2 ^ 32 → test a n ≡ true → test b n ≡ true

IsGrown-refl : (a : Bitlist) → IsValid a → IsGrown a a
IsGrown-refl a v = record { valid = v; state = refl; grown = λ n lt e. e }

IsGrown-trans : (a b c : Bitlist) → IsGrown a b → IsGrown b c → IsGrown a c
IsGrown-trans a b c g h = record {
  valid = h.valid;
  state = h.state ∙ g.state;
  grown = λ n lt e. h.grown n lt (g.grown n lt e);
}

IsGrown-set : (a : Bitlist) (bit : ℕ) → IsValid a → bit < 2 ^ 32 → IsGrown a (set a bit)
IsGrown-set a bit v lt = record {
  valid = set-IsValid a bit v;
  state = state-set a bit;
  grown = λ n lt' e. rw (test-set a bit n v lt lt', e) (ground arith);
}

-- the place of an `int` in their order
abbrev rank : ℕ → ℕ
rank i = add32 i (2 ^ 31)

-- A range that ends below INT_MAX is set in as many rounds as it has numbers, and one more.
set_from-IsGrown :
    (left : ℕ) (a : Bitlist) (i number : ℕ)
    → IsValid a
    → i < 2 ^ 32
    → rank number + 1 < 2 ^ 32
    → rank i ≤ rank number + 1
    → rank number + 2 ≤ rank i + left
    → (b : Bitlist) × (set_from a left i number ≡ some b) × IsGrown a b
unfolding set_from
set_from-IsGrown zero a i number v lt top le fuel = absurd (omega (arith, le, fuel))
set_from-IsGrown (suc left) a i number v lt top le fuel = elim (Bool-cases (lt_int number i)) [
  | inl past ↦ rw past (a, refl, IsGrown-refl a v)
  | inr inside ↦
      let first = IsGrown-set a i v lt in
      let within : rank i ≤ rank number = ground (arith, inside) in
      let next : rank (add32 i 1) ≡ rank i + 1 = omega (arith, within, top, lt) in
      let (b, run, grown) =
        set_from-IsGrown left (set a i) (add32 i 1) number first.valid (omega arith) top
          (omega (arith, next, within)) (omega (arith, next, fuel)) in
      rw inside (b, run, IsGrown-trans a (set a i) b first grown)
]

-- A range up to INT_MAX has no end, whatever the fuel.
set_from-endless : (left : ℕ) (a : Bitlist) (i : ℕ) → set_from a left i (2 ^ 31 - 1) ≡ none
unfolding set_from
set_from-endless zero a i = refl
set_from-endless (suc left) a i =
    let inside : lt_int (2 ^ 31 - 1) i ≡ false = ground arith in
    rw inside (set_from-endless left (set a i) (add32 i 1))

read_number_lem :
    (list : List ℕ) (charno number : ℕ)
    → number < 2 ^ 32
    → ((read_number list charno number).number < 2 ^ 32)
      × (length (read_number list charno number).list ≤ length list)
unfolding read_number
read_number_lem [] charno number lt = (lt, omega arith)
read_number_lem (c ∷ cs) charno number lt = elim (Bool-cases (is_digit c)) [
  | inr other ↦ rw other (lt, omega arith)
  | inl digit ↦
      let rest =
        read_number_lem cs (charno + 1) (sub32 (add32 (mul32 number 10) c) 48) (omega arith) in
      rw digit (rest.0, omega (arith, rest.1))
]

-- progress from a list, with at most `len` characters left
abbrev IsFine : Bitlist → ℕ → Progress → Type 0
IsFine a len undefined = ⊥
IsFine a len (stop bl f) = IsGrown a bl
IsFine a len (go bl list charno) = IsGrown a bl × (length list ≤ len)

range_end-IsFine :
    (min max : ℕ) (a : Bitlist) (begin : ℕ) (list : List ℕ) (charno len : ℕ)
    → rank max + 1 < 2 ^ 32
    → IsValid a
    → begin < 2 ^ 32
    → length list ≤ len
    → IsFine a len (range_end min max a begin list charno)
unfolding range_end
range_end-IsFine min max a begin [] charno len top v lt le = IsGrown-refl a v
range_end-IsFine min max a begin (c ∷ cs) charno len top v lt le =
    let n = read_number (c ∷ cs) charno 0 in
    let known = read_number_lem (c ∷ cs) charno 0 (omega arith) in
    let same = IsGrown-refl a v in
    elim (Bool-cases (is_digit c)) [
      | inr other ↦ rw other same
      | inl digit ↦ rw digit (elim (Bool-cases (is_out min max n.number)) [
        | inl out ↦ rw out same
        | inr inside ↦ rw inside (elim (Bool-cases (lt_int begin n.number)) [
          | inr back ↦ rw back same
          | inl fwd ↦
              let below : rank n.number ≤ rank max = ground (arith, inside) in
              let up : rank begin < rank n.number = ground (arith, fwd) in
              let (b, run, grown) =
                set_from-IsGrown (sub32 n.number begin + 2) a begin n.number v lt
                  (omega (arith, below, top)) (omega (arith, up))
                  (omega (arith, up, lt, known.0)) in
              rw (fwd, run) (grown, omega (arith, known.1))
        ])
      ])
    ]

after_number-IsFine :
    (min max : ℕ) (a : Bitlist) (number : ℕ) (list : List ℕ) (charno len : ℕ)
    → rank max + 1 < 2 ^ 32
    → IsValid a
    → number < 2 ^ 32
    → length list ≤ len
    → IsFine a len (after_number min max a number list charno)
unfolding after_number
after_number-IsFine min max a number [] charno len top v lt le = (IsGrown-set a number v lt, le)
after_number-IsFine min max a number (c ∷ cs) charno len top v lt le = elim (Bool-cases (c == 45)) [
  | inl dash ↦
      rw dash (range_end-IsFine min max a number cs (charno + 1) len top v lt (omega arith))
  | inr other ↦ rw other (IsGrown-set a number v lt, le)
]

item-IsFine :
    (min max : ℕ) (a : Bitlist) (c : ℕ) (cs : List ℕ) (charno : ℕ)
    → rank max + 1 < 2 ^ 32
    → IsValid a
    → IsFine a (length cs) (item min max a c cs charno)
unfolding item
item-IsFine min max a c cs charno top v =
    let n = read_number (c ∷ cs) charno 0 in
    let known = read_number_lem (c ∷ cs) charno 0 (omega arith) in
    let same = IsGrown-refl a v in
    elim (Bool-cases (is_digit c)) [
      | inr other ↦ rw other same
      | inl digit ↦
          let shorter : length n.list ≤ length cs = first_read c cs charno digit in
          rw digit (elim (Bool-cases (is_out min max n.number)) [
            | inl out ↦ rw out same
            | inr inside ↦ rw inside (
                after_number-IsFine min max a n.number n.list n.charno (length cs) top v known.0
                  shorter)
          ])
    ]
  where
    first_read :
        (c : ℕ) (cs : List ℕ) (charno : ℕ)
        → is_digit c ≡ true
        → length (read_number (c ∷ cs) charno 0).list ≤ length cs
    first_read c cs charno digit =
        unfold read_number in
        rw digit
          ((read_number_lem cs (charno + 1) (sub32 (add32 (mul32 0 10) c) 48) (omega arith)).1)

separator-IsFine :
    (a : Bitlist) (len : ℕ) (p : Progress) → IsFine a len p → IsFine a len (separator p)
unfolding separator
separator-IsFine a len undefined h = h
separator-IsFine a len (stop bl f) h = h
separator-IsFine a len (go bl [] charno) h = h
separator-IsFine a len (go bl (c ∷ []) charno) h = elim (Bool-cases (c == 44)) [
  | inl comma ↦ rw comma (h.0)
  | inr other ↦ rw other (h.0)
]
separator-IsFine a len (go bl (c ∷ (d ∷ cs)) charno) h = elim (Bool-cases (c == 44)) [
  | inl comma ↦ rw comma (h.0, omega (arith, h.1))
  | inr other ↦ rw other (h.0)
]

parse_lem :
    (fuel min max : ℕ) (a : Bitlist) (p : Progress)
    → rank max + 1 < 2 ^ 32
    → IsFine a fuel p
    → (b : Bitlist) × (e : Option Fault) × (parse fuel min max p ≡ some (b, e)) × IsGrown a b
unfolding parse
parse_lem fuel min max a undefined top h = absurd h
parse_lem fuel min max a (stop bl f) top h = (bl, some f, refl, h)
parse_lem fuel min max a (go bl [] charno) top h = (bl, none, refl, h.0)
parse_lem zero min max a (go bl (c ∷ cs) charno) top h = absurd (omega (arith, h.1))
parse_lem (suc fuel) min max a (go bl (c ∷ cs) charno) top h =
    let next = separator (item min max bl c cs charno) in
    let (b, e, run, g) = parse_lem fuel min max bl next top (
      shrink (length cs) fuel bl next (omega (arith, h.1)) (
        separator-IsFine bl (length cs) (item min max bl c cs charno)
          (item-IsFine min max bl c cs charno top h.0.valid))) in
    (b, e, run, IsGrown-trans a bl b h.0 g)
  where
    shrink : (m n : ℕ) (a : Bitlist) (p : Progress) → m ≤ n → IsFine a m p → IsFine a n p
    shrink m n a undefined le h = h
    shrink m n a (stop bl f) le h = h
    shrink m n a (go bl list charno) le h = (h.0, omega (arith, h.1))

from_string-IsGrown :
    (has_memory : Bool) (bl : Bitlist) (list : List ℕ)
    → IsValid bl
    → sub32 (add32 bl.state.base_bit bl.state.max_bits) 1 ≢ 2 ^ 31 - 1
    → (b : Bitlist) × (accepted : Bool) × (error : Option Fault) × (from_string has_memory bl list
        ≡ some (b, accepted, error))
      × IsGrown bl b
      × (accepted ≡ true → error ≡ none)
      × (accepted ≡ false → has_memory ≡ true → error ≢ none)
unfolding from_string
from_string-IsGrown has_memory bl list v ends =
    let min = bl.state.base_bit in
    let max = sub32 (add32 min bl.state.max_bits) 1 in
    let top : rank max + 1 < 2 ^ 32 = ground (arith, ends) in
    let (b, e, run, g) =
      parse_lem (length list) min max bl (go bl list 1) top (IsGrown-refl bl v, omega arith) in
    let errors = by_error has_memory e in rw run (b, _, _, refl, g, errors.0, errors.1)
  where
    by_error :
        (m : Bool) (e : Option Fault)
        → ((elim e as (λ _. Bool) [ none ↦ true | some _ ↦ false ]) ≡ true
            → (if m then e else none) ≡ none)
          × ((elim e as (λ _. Bool) [ none ↦ true | some _ ↦ false ]) ≡ false
              → m ≡ true
              → (if m then e else none) ≢ none)
    by_error m none = (λ _. ground arith, λ f. absurd (ground (arith, f)))
    by_error m (some f) = (λ t. absurd (ground (arith, t)), λ _ y. rw y (λ q. absurd (cc q)))

-- On a well-formed list whose numbers are not negative and stay below INT_MAX,
-- `bitlist_from_string` ends for every string, where an `int` that overflows in the reading of a
-- number wraps. The list stays well formed and keeps its numbers and its position, and no bit
-- that was set is cleared, not even where the string is refused. There is no error where the
-- result is TRUE, and there is one where it is FALSE and memory for the message is given. A string
-- of numbers and ranges that are separated by commas, with numbers of the list and ascending
-- ranges, is accepted, and the bits that are set afterwards are those of the numbers in the
-- string and those that were set before.
pub from_string_lem :
    (has_memory : Bool) (bl : Bitlist) (list : List ℕ) (its : List Item)
    → IsValid bl
    → bl.state.base_bit + bl.state.max_bits < 2 ^ 31
    → AreItems bl its
    → ((b : Bitlist) × (accepted : Bool) × (error : Option Fault) × (from_string has_memory bl list
          ≡ some (b, accepted, error))
        × IsGrown bl b
        × (accepted ≡ true → error ≡ none)
        × (accepted ≡ false → has_memory ≡ true → error ≢ none))
      × ((b : Bitlist) × (from_string has_memory bl (text its) ≡ some (b, true, none))
          × Gains bl b (are_holding its))
from_string_lem has_memory bl list its v fits are = (
  from_string-IsGrown has_memory bl list v (omega (arith, fits)),
  from_string-text has_memory bl its v fits are,
)
