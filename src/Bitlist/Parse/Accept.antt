-- ===== src/Bitlist/Parse/Accept.antt =====
-- A string of numbers and ranges that the list has is accepted, and sets exactly these.
use my_test_files.Prelude.{
  ℕ, zero, suc, ◌+◌, ◌^◌, ◌≤◌, ◌<◌, ◌≡◌, refl, ◌∙◌, Bool, true, false, ◌||◌, List, [], ◌∷◌, length,
  none, some, Bool-cases, inl, inr, arith,
}
use my_test_files.Bitlist.{Bitlist, test}
use my_test_files.Bitlist.View.{IsValid}
use my_test_files.Bitlist.Parse.{go, item, separator, parse, from_string}
use my_test_files.Bitlist.Parse.Items.{
  Item, one_number, range, digits_text, item_rest, first_digit, holds, IsItem, Gains,
}
use my_test_files.Bitlist.Parse.Step.{IsStop, max_number, item-go}

-- the string of the items after the first, and that of all
unfoldable pub more_text : List Item → List ℕ
more_text [] = []
more_text (it ∷ its) = 44 ∷ ((first_digit it + 48) ∷ item_rest it (more_text its))

unfoldable pub text : List Item → List ℕ
unfolding more_text
text [] = []
text (it ∷ its) = (first_digit it + 48) ∷ item_rest it (more_text its)

unfoldable pub AreItems : Bitlist → List Item → Type 0
AreItems a [] = Unit {0}
AreItems a (it ∷ its) = IsItem a it × AreItems a its

-- whether a number is in an item
unfoldable pub are_holding : List Item → ℕ → Bool
are_holding [] n = false
are_holding (it ∷ its) n = holds it n || are_holding its n

more_text-IsStop : (its : List Item) → IsStop (more_text its)
unfolding more_text IsStop
more_text-IsStop [] = tt
more_text-IsStop (it ∷ its) = refl

separator-text :
    (b : Bitlist) (its : List Item) (k : ℕ)
    → (k' : ℕ) × (separator (go b (more_text its) k) ≡ go b (text its) k')
unfolding separator more_text text
separator-text b [] k = (k, refl)
separator-text b (it ∷ its) k = (k + 1, refl)

parse-step :
    (fuel min max : ℕ) (b c : Bitlist) (d : ℕ) (cs : List ℕ) (charno k k' : ℕ) (its : List Item)
    → item min max b d cs charno ≡ go c (more_text its) k
    → separator (go c (more_text its) k) ≡ go c (text its) k'
    → parse (suc fuel) min max (go b (d ∷ cs) charno) ≡ parse fuel min max (go c (text its) k')
unfolding parse
parse-step fuel min max b c d cs charno k k' its run next = rw (run, parse) (rw next refl)

module _ (a : Bitlist) (fits : a.state.base_bit + a.state.max_bits < 2 ^ 31) where
  pub parse-text :
      (its : List Item) (fuel : ℕ) (b : Bitlist) (charno : ℕ)
      → IsValid b
      → b.state ≡ a.state
      → AreItems a its
      → length its ≤ fuel
      → (c : Bitlist) × (parse fuel a.state.base_bit (max_number a fits) (go b (text its) charno)
          ≡ some (c, none))
        × Gains b c (are_holding its)
  unfolding AreItems are_holding text parse
  parse-text [] fuel b charno v same are le =
      (b, refl, record { valid = v; state = refl; exact = λ n lt. refl })
  parse-text (it ∷ its) zero b charno v same are le = absurd (omega (arith, le))
  parse-text (it ∷ its) (suc fuel) b charno v same (is, are) le =
      let (c, k, run, gains) =
        item-go a fits it b (more_text its) charno v same is (more_text-IsStop its) in
      let (k', next) = separator-text c its k in
      let (e, more, later) =
        parse-text its fuel c k' gains.valid (gains.state ∙ same) are (omega (arith, le)) in
      (
        e,
        parse-step fuel a.state.base_bit (max_number a fits) b c (first_digit it + 48)
              (item_rest it (more_text its)) charno k k' its run next
            ∙ more,
        record {
          valid = later.valid;
          state = later.state ∙ gains.state;
          exact = λ n lt.
              later.exact n lt
              ∙ rw (gains.exact n lt) (or_swap (holds it n) (are_holding its n) (test b n));
        },
      )
    where
      or_swap : (x y z : Bool) → (y || (x || z)) ≡ ((x || y) || z)
      or_swap x y z = ground arith

length-digits_text : (ds rest : List ℕ) → length rest ≤ length (digits_text ds rest)
unfolding digits_text
length-digits_text [] rest = omega arith
length-digits_text (d ∷ ds) rest = omega (arith, length-digits_text ds rest)

length-item_rest : (it : Item) (rest : List ℕ) → length rest ≤ length (item_rest it rest)
unfolding item_rest
length-item_rest (one_number d ds) rest = length-digits_text ds rest
length-item_rest (range d ds e es) rest = omega (
  arith,
  length-digits_text es rest,
  length-digits_text ds (45 ∷ ((e + 48) ∷ digits_text es rest)),
)

length-more_text : (its : List Item) → length its ≤ length (more_text its)
unfolding more_text
length-more_text [] = omega arith
length-more_text (it ∷ its) =
    omega (arith, length-item_rest it (more_text its), length-more_text its)

pub length-text : (its : List Item) → length its ≤ length (text its)
unfolding text
length-text [] = omega arith
length-text (it ∷ its) = omega (arith, length-item_rest it (more_text its), length-more_text its)

pub from_string-text :
    (has_memory : Bool) (bl : Bitlist) (its : List Item)
    → IsValid bl
    → bl.state.base_bit + bl.state.max_bits < 2 ^ 31
    → AreItems bl its
    → (b : Bitlist) × (from_string has_memory bl (text its) ≡ some (b, true, none))
      × Gains bl b (are_holding its)
unfolding from_string
from_string-text has_memory bl its v fits are =
    let (b, run, gains) =
      parse-text bl fits its (length (text its)) bl 1 v refl are (length-text its) in
    (
      b,
      rw run (elim (Bool-cases has_memory) [
        | inl given ↦ rw given refl
        | inr refused ↦ rw refused refl
      ]),
      gains,
    )
