-- ===== src/Bitlist/Parse.antt =====
-- `bitlist_from_string`. A string is the list of its characters before the 0. The text of an error
-- message is left out: the error stands for it, with the position and the numbers that it names.
-- An `int` that overflows wraps.
pub mod Items
pub mod Step
pub mod Accept
pub mod Laws
use my_test_files.Prelude.{
  ℕ, zero, suc, ◌+◌, ◌^◌, Bool, true, false, not, ◌&&◌, ◌||◌, List, [], ◌∷◌, length, ltb, leb, ◌==◌,
  if◌then◌else◌, Option, none, some, ◌>>=◌,
}
use my_test_files.Prelude.Word.{add32, sub32, mul32}
use my_test_files.Bitlist.{Bitlist, set}

-- the values of `error`, with the numbers that the message gives
pub data Problem : Type 0 where
  non_numeric : Problem
  out_of_bounds : ℕ → ℕ → Problem
  inv_range : ℕ → ℕ → Problem
  exp_comma : Problem
  unexpected_eol : Problem

-- an error, `charno` and what `list` points to
pub record Fault : Type 0 where
  pub problem : Problem
  pub charno : ℕ
  pub list : List ℕ

-- the loop breaks, or goes on at `list`, or a range that goes up to INT_MAX is undefined
pub data Progress : Type 0 where
  undefined : Progress
  stop : Bitlist → Fault → Progress
  go : Bitlist → List ℕ → ℕ → Progress

-- `a < b` of two `int`
abbrev pub lt_int : ℕ → ℕ → Bool
lt_int a b = ltb (add32 a (2 ^ 31)) (add32 b (2 ^ 31))

abbrev pub is_digit : ℕ → Bool
is_digit c = leb 48 c && leb c 57

-- where a number ends
pub record Cursor : Type 0 where
  pub list : List ℕ
  pub charno : ℕ
  pub number : ℕ

-- `while ((*list >= '0') && (*list <= '9'))`
pub read_number : List ℕ → ℕ → ℕ → Cursor
read_number [] charno number = record { list = []; charno = charno; number = number }
read_number (c ∷ cs) charno number =
    let rest = read_number cs (charno + 1) (sub32 (add32 (mul32 number 10) c) 48) in
    if is_digit c then rest else record { list = c ∷ cs; charno = charno; number = number }

-- `for (i = begin; i <= number; i++)`. `none` is the fuel run out: up to INT_MAX the loop does not
-- end, or it is undefined, since `i++` overflows.
pub set_from : Bitlist → ℕ → ℕ → ℕ → Option Bitlist
set_from bl zero i number = none
set_from bl (suc left) i number =
    let more = set_from (set bl i) left (add32 i 1) number in
    if lt_int number i then some bl else more

abbrev pub is_out : ℕ → ℕ → ℕ → Bool
is_out min max number = lt_int number min || lt_int max number

-- what follows a '-'
pub range_end : ℕ → ℕ → Bitlist → ℕ → List ℕ → ℕ → Progress
range_end min max bl begin [] charno =
    stop bl (record { problem = unexpected_eol; charno = charno; list = [] })
range_end min max bl begin (c ∷ cs) charno =
    let n = read_number (c ∷ cs) charno 0 in
    if not (is_digit c)
    then stop bl (record { problem = non_numeric; charno = charno; list = c ∷ cs })
    else if is_out min max n.number
    then stop bl (record { problem = out_of_bounds min max; charno = n.charno; list = n.list })
    else if not (lt_int begin n.number)
    then stop bl (record { problem = inv_range n.number begin; charno = n.charno; list = n.list })
    else elim (set_from bl (sub32 n.number begin + 2) begin n.number) [
      | none ↦ undefined
      | some bl' ↦ go bl' n.list n.charno
    ]

-- what follows the first number of an item
pub after_number : ℕ → ℕ → Bitlist → ℕ → List ℕ → ℕ → Progress
after_number min max bl number [] charno = go (set bl number) [] charno
after_number min max bl number (c ∷ cs) charno =
    if c == 45
    then range_end min max bl number cs (charno + 1)
    else go (set bl number) (c ∷ cs) charno

-- an item, up to what separates it from the next one
pub item : ℕ → ℕ → Bitlist → ℕ → List ℕ → ℕ → Progress
item min max bl c cs charno =
    let n = read_number (c ∷ cs) charno 0 in
    if not (is_digit c)
    then stop bl (record { problem = non_numeric; charno = charno; list = c ∷ cs })
    else if is_out min max n.number
    then stop bl (record { problem = out_of_bounds min max; charno = n.charno; list = n.list })
    else after_number min max bl n.number n.list n.charno

-- the end of the string, or a comma with something behind it
pub separator : Progress → Progress
separator undefined = undefined
separator (stop bl f) = stop bl f
separator (go bl [] charno) = go bl [] charno
separator (go bl (c ∷ []) charno) =
    if c == 44
    then stop bl (record { problem = unexpected_eol; charno = charno + 1; list = [] })
    else stop bl (record { problem = exp_comma; charno = charno; list = c ∷ [] })
separator (go bl (c ∷ (d ∷ cs)) charno) =
    if c == 44
    then go bl (d ∷ cs) (charno + 1)
    else stop bl (record { problem = exp_comma; charno = charno; list = c ∷ (d ∷ cs) })

-- `while (*list)`: the list and the error, if there is one. `none` is the fuel run out, or undefined.
pub parse : ℕ → ℕ → ℕ → Progress → Option (Bitlist × Option Fault)
parse fuel min max undefined = none
parse fuel min max (stop bl f) = some (bl, some f)
parse fuel min max (go bl [] charno) = some (bl, none)
parse zero min max (go bl (c ∷ cs) charno) = none
parse (suc fuel) min max (go bl (c ∷ cs) charno) =
    parse fuel min max (separator (item min max bl c cs charno))

-- the list, whether there was no error, and `*errmsg`, which is NULL without one, or without
-- memory for it
pub from_string : Bool → Bitlist → List ℕ → Option (Bitlist × Bool × Option Fault)
from_string has_memory bl list =
    let min = bl.state.base_bit in
    let max = sub32 (add32 min bl.state.max_bits) 1 in
    do
      (bl', error) ← parse (length list) min max (go bl list 1)
      some (bl', elim error [ none ↦ true | some _ ↦ false ], if has_memory then error else none)
