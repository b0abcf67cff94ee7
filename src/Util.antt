-- ===== src/Util.antt =====
-- The functions of four short programs: baseconv.c, test_2pow.c, test_seqnum.c and
-- test_avsm_hash.c. An unsigned number is below 2 ^ 32, an unsigned short below 2 ^ 16, a `char` its
-- code.
pub mod Digits
pub mod Power
pub mod Sequence
mod Tests
use my_test_files.Prelude.{
  ℕ, zero, suc, ◌+◌, ◌-◌, ◌/◌, ◌%◌, ◌^◌, Bool, ◌||◌, List, [], ◌∷◌, Option, none, some, ltb, ◌==◌,
  if◌then◌else◌, bit_and, bit_or,
}

-- "0123456789abcdef"[d]
pub digit : ℕ → ℕ
digit d = if ltb d 10 then 48 + d else 87 + d

-- The loop of `baseconv`, with `left` cells of `retbuf` in front of `p`, and the characters from `p`
-- on. A write in front of the buffer is `none`.
pub convert : ℕ → ℕ → ℕ → List ℕ → Option (List ℕ)
convert zero num base chars = none
convert (suc left) num base chars =
    let chars' : List ℕ = digit (num % base) ∷ chars in
    let rest = convert left (num / base) base chars' in
    if num / base == 0 then some chars' else rest

-- the size of `retbuf`: sizeof(int) * CHAR_BIT + 1
abbrev pub retbuf_size : ℕ
retbuf_size = 33

-- `some none` is NULL, `some (some s)` the string.
pub baseconv : ℕ → ℕ → Option (Option (List ℕ))
baseconv num base =
    if ltb base 2 || ltb 16 base
    then some none
    else elim (convert (retbuf_size - 1) num base []) [ none ↦ none | some s ↦ some (some s) ]

-- `v |= v >> s`
abbrev pub smear : ℕ → ℕ → ℕ
smear s v = bit_or v (v / 2 ^ s)

pub next_highest_power_of_2 : ℕ → ℕ
next_highest_power_of_2 v =
    let low : ℕ = (v + 2 ^ 32 - 1) % 2 ^ 32 in
    let high : ℕ = (smear 16 (smear 8 (smear 4 (smear 2 (smear 1 low)))) + 1) % 2 ^ 32 in
    (high + (if high == 0 then 1 else 0)) % 2 ^ 32

pub next_highest_power_of_2_short : ℕ → ℕ
next_highest_power_of_2_short s =
    let low : ℕ = (s + 2 ^ 16 - 1) % 2 ^ 16 in
    let high : ℕ = (smear 8 (smear 4 (smear 2 (smear 1 low))) + 1) % 2 ^ 16 in
    (high + (if high == 0 then 1 else 0)) % 2 ^ 16

-- `cm_seq_num_t`
pub record SeqNum : Type 0 where
  pub num : ℕ

pub cm_seq_num_make : ℕ → SeqNum
cm_seq_num_make val = record { num = val }

-- 1 when `s0` is before `s1`, else 0
pub cm_seq_num_lt : SeqNum → SeqNum → ℕ
cm_seq_num_lt s0 s1 = (s0.num + 2 ^ 32 - s1.num) % 2 ^ 32 / 2 ^ 31

pub u16_seq_num_lt : ℕ → ℕ → ℕ
u16_seq_num_lt u0 u1 = let diff : ℕ = (u0 + 2 ^ 16 - u1) % 2 ^ 16 in diff / 2 ^ 15

-- the fields of `avsm_fa_flow_id_ipv4_t` that `hash` reads
pub record FlowId : Type 0 where
  pub dest_addr : ℕ
  pub src_addr : ℕ
  pub dest_port : ℕ
  pub src_port : ℕ

-- `hash`
pub flow_hash : FlowId → ℕ
flow_hash f =
    bit_and (((f.src_port + f.dest_port + f.src_addr) % 2 ^ 64 + f.dest_addr) % 2 ^ 64) (0x400 - 1)
