-- ===== src/Bitlist/Parse/Step.antt =====
-- What `bitlist_from_string` makes of one number or range of the list.
use my_test_files.Prelude.{
  ℕ, ◌+◌, ◌-◌, ◌^◌, ◌<◌, ◌≡◌, refl, true, false, ◌&&◌, List, [], ◌∷◌, leb, ◌==◌, some, arith,
}
use my_test_files.Prelude.Word.{add32, sub32}
use my_test_files.Bitlist.{Bitlist, set}
use my_test_files.Bitlist.View.{IsValid}
use my_test_files.Bitlist.Parse.{
  go, lt_int, is_digit, is_out, read_number, set_from, range_end, after_number, item,
}
use my_test_files.Bitlist.Parse.Items.{
  Item, one_number, range, value, AreDigits, digits_text, item_rest, first_digit, holds, IsIn,
  IsItem, Gains, IsEnd, read_number-digits, set-Gains, set_from-Gains,
}

-- what follows an item: nothing, or a comma
unfoldable pub IsStop : List ℕ → Type 0
IsStop [] = Unit {0}
IsStop (c ∷ cs) = c ≡ 44

stop-IsEnd : (rest : List ℕ) → IsStop rest → IsEnd rest
unfolding IsStop IsEnd
stop-IsEnd [] s = tt
stop-IsEnd (c ∷ cs) s = ground (arith, s)

dash-IsEnd : (rest : List ℕ) → IsEnd (45 ∷ rest)
unfolding IsEnd
dash-IsEnd rest = refl

after_number-stop :
    (min max : ℕ) (b : Bitlist) (v : ℕ) (rest : List ℕ) (k : ℕ)
    → IsStop rest
    → after_number min max b v rest k ≡ go (set b v) rest k
unfolding IsStop after_number
after_number-stop min max b v [] k s = refl
after_number-stop min max b v (c ∷ cs) k s =
    let other : (c == 45) ≡ false = ground (arith, s) in rw other refl

is_digit-add : (d : ℕ) → d < 10 → is_digit (d + 48) ≡ true
is_digit-add d lt = ground (arith, lt)

range_end-run :
    (min max : ℕ) (b b' : Bitlist) (begin c : ℕ) (cs rest : List ℕ) (charno k number : ℕ)
    → is_digit c ≡ true
    → read_number (c ∷ cs) charno 0 ≡ record { list = rest; charno = k; number = number }
    → is_out min max number ≡ false
    → lt_int begin number ≡ true
    → set_from b (sub32 number begin + 2) begin number ≡ some b'
    → range_end min max b begin (c ∷ cs) charno ≡ go b' rest k
unfolding range_end
range_end-run min max b b' begin c cs rest charno k number digit run out up set_run =
    rw (digit, run) (rw out (rw up (rw set_run (rw run refl))))

module _ (a : Bitlist) (fits : a.state.base_bit + a.state.max_bits < 2 ^ 31) where
  abbrev pub max_number : ℕ
  max_number = sub32 (add32 a.state.base_bit a.state.max_bits) 1

  inside : (v : ℕ) → IsIn a v → is_out a.state.base_bit max_number v ≡ false
  inside v h = ground (arith, fits, h)

  range_end-go :
      (b : Bitlist) (begin e : ℕ) (es rest : List ℕ) (charno : ℕ)
      → IsValid b
      → b.state ≡ a.state
      → AreDigits (e ∷ es)
      → IsIn a begin
      → IsIn a (value 0 (e ∷ es))
      → begin < value 0 (e ∷ es)
      → IsStop rest
      → (c : Bitlist) × (k : ℕ) × (range_end a.state.base_bit max_number b begin
            ((e + 48) ∷ digits_text es rest)
            charno
          ≡ go c rest k)
        × Gains b c (λ n. leb begin n && leb n (value 0 (e ∷ es)))
  unfolding AreDigits digits_text
  range_end-go b begin e es rest charno v same digits lo hi lt s =
      let number : ℕ = value 0 (e ∷ es) in
      let (k, run) =
        read_number-digits (e ∷ es) rest charno 0 digits (omega (arith, hi.1, fits))
          (stop-IsEnd rest s) in
      let rounds : sub32 number begin + 2 ≡ number - begin + 2 = omega (arith, hi.1, fits, lt) in
      let up : lt_int begin number ≡ true = ground (arith, hi.1, fits, lt) in
      let (c, set_run, gains) =
        set_from-Gains a fits (number - begin + 2) b begin number v same lo.0 hi.1
          (omega (arith, lt)) (omega (arith, lt)) in
      (
        c,
        k,
        range_end-run a.state.base_bit max_number b c begin (e + 48) (digits_text es rest) rest
            charno k number (is_digit-add e digits.0) run (inside number hi) up (rw rounds set_run),
        gains,
      )

  pub item-go :
      (it : Item) (b : Bitlist) (rest : List ℕ) (charno : ℕ)
      → IsValid b
      → b.state ≡ a.state
      → IsItem a it
      → IsStop rest
      → (c : Bitlist) × (k : ℕ) × (item a.state.base_bit max_number b
            (first_digit it + 48)
            (item_rest it rest)
            charno
          ≡ go c rest k)
        × Gains b c (holds it)
  unfolding item IsItem AreDigits digits_text item_rest first_digit holds after_number
  item-go (one_number d ds) b rest charno v same (digits, h) s =
      let number : ℕ = value 0 (d ∷ ds) in
      let (k, run) =
        read_number-digits (d ∷ ds) rest charno 0 digits (omega (arith, h.1, fits))
          (stop-IsEnd rest s) in
      rw (is_digit-add d digits.0, run)
        (rw (inside number h) (
          set b number,
          k,
          after_number-stop a.state.base_bit max_number b number rest k s,
          set-Gains b (rw same fits) number v (rw same h),
        ))
  item-go (range d ds e es) b rest charno v same (digits, digits', h, h', lt) s =
      let number : ℕ = value 0 (d ∷ ds) in
      let later : List ℕ = 45 ∷ ((e + 48) ∷ digits_text es rest) in
      let (k, run) =
        read_number-digits (d ∷ ds) later charno 0 digits (omega (arith, h.1, fits))
          (dash-IsEnd _) in
      let (c, k', go_run, gains) =
        range_end-go b number e es rest (k + 1) v same digits' h h' lt s in
      rw (is_digit-add d digits.0, run) (rw (inside number h) (c, k', go_run, gains))
