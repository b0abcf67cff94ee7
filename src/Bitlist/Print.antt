-- ===== src/Bitlist/Print.antt =====
-- `bitlist_dump`, `bitlist_to_string` and `bitlist_nv_write`. A dump is the list of the ranges
-- printed, a single number as a range of one, separated by commas. A string is the list of its
-- characters before the 0.
pub mod Numbers
pub mod Ranges
pub mod Dump
pub mod Rounds
pub mod Text
pub mod Lines
mod Tests
use my_test_files.Prelude.{
  ℕ, zero, suc, ◌+◌, ◌-◌, ◌*◌, ◌/◌, ◌%◌, ◌^◌, Bool, true, false, not, ◌&&◌, List, [], ◌∷◌, ◌++◌,
  length, ltb, leb, ◌==◌, if◌then◌else◌, Option, none, some, ◌>>=◌, bit_and,
}
use my_test_files.Prelude.Word.{add32, sub32, is_neg, div_int}
use my_test_files.Bitlist.{State, Bitlist, invalid, bit_to_bit}
use my_test_files.Bitlist.Parse.{lt_int}
use my_test_files.Bitlist.Find.{position_at, find_bit, find_first, find_after}

-- what is printed for the range from `begin` to `end`
pub shown : ℕ → ℕ → List (ℕ × ℕ)
shown begin end =
    if lt_int begin end then (begin, end) ∷ [] else if begin == end then (begin, end) ∷ [] else []

-- The loop of `bitlist_dump`, with `left` rounds to go, one for each bit that is found.
pub dump_loop : ℕ → Bitlist → ℕ → ℕ → ℕ → ℕ → Option (Bitlist × List (ℕ × ℕ))
dump_loop zero bl bit previous begin end = none
dump_loop (suc left) bl bit previous begin end =
    let joined : Bool = bit == add32 previous 1 in
    let begin' : ℕ = if joined then begin else bit in
    let printed : List (ℕ × ℕ) = if joined then [] else shown begin end in
    let (bl', next) = find_after bl bit in
    let rest = dump_loop left bl' next bit begin' bit in
    if bit == invalid then some (bl, shown begin end) else (do r ← rest; some (r.0, printed ++ r.1))

pub dump : Bitlist → Option (Bitlist × List (ℕ × ℕ))
unfolding find_first
dump bl =
    let (bl', bit) = find_first bl in
    dump_loop (bl.state.max_bits + 1) bl' bit (sub32 bit 2) bit (sub32 bit 1)

-- the decimal digits of `n` in front of `chars`, with `left` more of them at most
pub digits : ℕ → ℕ → List ℕ → List ℕ
digits zero n chars = chars
digits (suc left) n chars =
    let chars' : List ℕ = (48 + n % 10) ∷ chars in
    let more = digits left (n / 10) chars' in if n / 10 == 0 then chars' else more

-- "%d" of an `int`, which has at most ten digits
pub show_int : ℕ → List ℕ
show_int w = if is_neg w then 45 ∷ digits 10 (2 ^ 32 - w) [] else digits 10 w []

abbrev pub comma : List ℕ
comma = 44 ∷ []

-- `(len != 0) ? next : BITLIST_INVALID`
pub result_of : List ℕ → ℕ → ℕ
result_of text next = if length text == 0 then invalid else next

-- "just reset our position"
pub reset_position : Bitlist → ℕ → Bitlist
reset_position bl curr = position_at bl (div_int curr 32) (bit_to_bit curr)

-- "skip to the end of this range", with `left` rounds to go: the end, and what was found after it
pub skip_range : ℕ → Bitlist → ℕ → Option (Bitlist × ℕ × ℕ)
skip_range zero bl next = none
skip_range (suc left) bl next =
    let (bl', next') = find_bit bl false in
    elim (add32 next 1 == next') [
      | true ↦ skip_range left bl' next'
      | false ↦ some (bl', next, next')
    ]

-- The loop of `bitlist_to_string`, with `left` rounds to go, `text` in the buffer and `sep` the
-- string `comma`. A size that is not positive has room for nothing, just like 0.
pub string_loop : ℕ → Bitlist → ℕ → List ℕ → List ℕ → ℕ → Option (Bitlist × List ℕ × ℕ)
string_loop zero bl size text sep next = none
string_loop (suc left) bl size text sep next =
    let piece : List ℕ = sep ++ show_int next in
    let text' : List ℕ = text ++ piece in
    elim (next == invalid) [
      | true ↦ some (bl, text, result_of text next)
      | false ↦ elim (leb size (length text + length piece)) [
        | true ↦
            some (
              reset_position bl (sub32 (sub32 next bl.state.base_bit) 1),
              text,
              result_of text next,
            )
        | false ↦
            let (bl', next') = find_bit bl false in
            elim (add32 next 1 == next') [
              | false ↦ string_loop left bl' size text' comma next'
              | true ↦ elim (skip_range left bl' next') [
                | none ↦ none
                | some (bl'', curr, next'') ↦
                    let tail : List ℕ = 45 ∷ show_int curr in
                    elim (ltb (length text' + length tail) size) [
                      | true ↦ string_loop left bl'' size (text' ++ tail) comma next''
                      | false ↦ some (
                        reset_position bl'' (sub32 next bl.state.base_bit),
                        text',
                        result_of text' (add32 next 1),
                      )
                    ]
              ]
            ]
      ]
    ]

-- the list with its position, the string, and what is returned
pub to_string : Bitlist → ℕ → Bool → Option (Bitlist × List ℕ × ℕ)
to_string bl size begin =
    let (bl', next) = find_bit bl begin in string_loop (bl.state.max_bits + 1) bl' size [] [] next

-- the loop of `bitlist_nv_write`, with `left` rounds to go: the strings that are written
pub write_loop : ℕ → Bitlist → ℕ → Bool → Option (Bitlist × List (List ℕ))
write_loop zero bl size begin = none
write_loop (suc left) bl size begin = elim (to_string bl size begin) [
  | none ↦ none
  | some (bl', text, i) ↦
      let line : List (List ℕ) = if length text == 0 then [] else text ∷ [] in
      elim (i == invalid) [
        | true ↦ some (bl', line)
        | false ↦ (do r ← write_loop left bl' size false; some (r.0, line ++ r.1))
      ]
]

pub decorate : List ℕ → List ℕ → List (List ℕ) → List (List ℕ)
decorate prefix suffix [] = []
decorate prefix suffix (text ∷ texts) =
    (prefix ++ (32 ∷ (text ++ suffix))) ∷ decorate prefix suffix texts

-- TRUE and the lines given to `nv_write`, or FALSE when `malloc` fails for a buffer of more than
-- 80. A length below 0 is 0 here, which has room for nothing either.
pub nv_write : Bool → Bitlist → List ℕ → List ℕ → ℕ → Option (Bool × Bitlist × List (List ℕ))
nv_write malloc bl prefix suffix maxlen =
    let len : ℕ = maxlen - (length prefix + 1 + length suffix) in
    if not (leb len 80) && not malloc then some (false, bl, []) else (do
      r ← write_loop (bl.state.max_bits + 1) bl len true
      some (true, r.0, decorate prefix suffix r.1))
