-- ===== src/IpRange.antt =====
-- ip_range.c: blocks of IPv4 addresses and the split of a range into blocks. An address is a number
-- below 2 ^ 32, a prefix a number from 0 to 32, and `int` arithmetic is on 32-bit patterns. What is
-- printed is returned; `none` is `exit(1)`, after one of the two messages.
pub mod Align
pub mod Split
pub mod Join
mod Tests
use my_test_files.Prelude.{
  leb, true, ℕ, zero, suc, ◌+◌, ◌-◌, ◌^◌, Bool, ◌&&◌, ◌||◌, List, [], ◌∷◌, ◌++◌, ltb, ◌==◌,
  if◌then◌else◌, bit_and, bit_or, Option, none, some, ◌>>=◌,
}
use my_test_files.Prelude.Word.{add32, sub32, not32}

-- `1 << (32 - n)`, for `n` from 1 to 32
abbrev pub shifted : ℕ → ℕ
shifted n = 2 ^ (32 - n)

pub set_bit : ℕ → ℕ → Bool → ℕ
set_bit addr bitno val =
    if val then bit_or addr (shifted bitno) else bit_and addr (not32 (shifted bitno))

-- `~((in_addr_t) -1)` is 0
pub netmask : ℕ → ℕ
netmask prefix = if prefix == 0 then 0 else not32 (sub32 (shifted prefix) 1)

pub broadcast : ℕ → ℕ → ℕ
unfolding netmask
broadcast addr prefix = bit_or addr (not32 (netmask prefix))

pub network : ℕ → ℕ → ℕ
unfolding netmask
network addr prefix = bit_and addr (netmask prefix)

-- The function calls itself with a longer prefix, at most up to 33: `left` is 33 less the prefix.
-- The blocks are those that it prints, in order.
unfoldable pub split_range : ℕ → ℕ → ℕ → ℕ → ℕ → Option (List (ℕ × ℕ))
split_range zero addr prefix lo hi = none
split_range (suc left) addr prefix lo hi =
    let bc = broadcast addr prefix in
    let upper_half = set_bit addr (prefix + 1) true in
    let lower = split_range left addr (prefix + 1) lo hi in
    let upper = split_range left upper_half (prefix + 1) lo hi in
    let both = (do
      xs ← split_range left addr (prefix + 1) lo (broadcast addr (prefix + 1))
      ys ← split_range left upper_half (prefix + 1) upper_half hi
      some (xs ++ ys)) in
    if ltb 32 prefix || ltb lo addr || ltb bc hi
    then none
    else if lo == addr && hi == bc
    then some ((addr, prefix) ∷ [])
    else if ltb hi upper_half
    then lower
    else if ltb lo upper_half
    then both
    else upper

-- `network_addr_t`
pub record NetworkAddr : Type 0 where
  pub addr : ℕ
  pub pfx : ℕ

-- the result of a comparison for `qsort`: -1, 0 or 1
pub data Comparison : Type 0 where
  below : Comparison
  same : Comparison
  above : Comparison

pub compar_netaddr : NetworkAddr → NetworkAddr → Comparison
compar_netaddr na1 na2 =
    if ltb na1.addr na2.addr
    then below
    else if ltb na2.addr na1.addr
    then above
    else if ltb na1.pfx na2.pfx
    then below
    else if ltb na2.pfx na1.pfx
    then above
    else same

-- the loop of `netaddr_to_range`: the ranges that it prints, from `lo` and `hi` on
pub join : ℕ → ℕ → List NetworkAddr → List (ℕ × ℕ)
unfolding broadcast
join lo hi [] = (lo, hi) ∷ []
join lo hi (n ∷ ns) =
    let bc = broadcast n.addr n.pfx in
    let same_range = join lo hi ns in
    let longer_range = join lo bc ns in
    let next_range = join n.addr bc ns in
    if leb bc hi
    then same_range
    else if n.addr == add32 hi 1
    then longer_range
    else (lo, hi) ∷ next_range

-- what follows the call of `qsort`
pub join_sorted : List NetworkAddr → List (ℕ × ℕ)
unfolding broadcast join
join_sorted [] = []
join_sorted (n ∷ ns) = join n.addr (broadcast n.addr n.pfx) ns
