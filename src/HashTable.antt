-- ===== src/HashTable.antt =====
-- bsd_hash/hash.c and hash.h: a hash table with chained buckets. A key is a pointer to bytes and a
-- length; an entry keeps the pointer, so the bytes are those that the caller leaves there. Data
-- pointers are numbers, NULL is 0. `errno` and the messages are left out. The use of a table that
-- is not there, an access outside the buckets, a division by zero and a shift by too much are
-- undefined, and `none`.
pub mod Key
pub mod Chain
pub mod Map
pub mod Size
mod Tests
use my_test_files.Prelude.{
  ℕ, zero, suc, ◌+◌, ◌-◌, ◌/◌, ◌%◌, ◌^◌, Bool, true, false, ◌&&◌, List, [], ◌∷◌, ltb, ◌==◌,
  if◌then◌else◌, get_or, get_elem?, set, length, replicate, bit_and, Option, none, some, ◌>>=◌, max,
  min,
}

-- `struct internal_entry`
pub record Entry : Type 0 where
  pub key : List ℕ
  pub key_len : ℕ
  pub value : ℕ

-- `struct hsearch_data`, with `htable` NULL or an array of chains
pub record Table : Type 0 where
  pub htable : Option (List (List Entry))
  pub htablesize : ℕ

-- `while (accum > 255)`. `none` is the fuel run out.
pub fold_carry : ℕ → ℕ → Option ℕ
fold_carry zero accum = none
fold_carry (suc fuel) accum =
    let again = fold_carry fuel (bit_and accum 255 + accum / 256) in
    if ltb 255 accum then again else some accum

-- `while (i--)` with `left` rounds to go, from byte `i` on
pub add_bytes : List ℕ → ℕ → ℕ → ℕ → Option ℕ
unfolding fold_carry
add_bytes key zero i accum = some accum
add_bytes key (suc left) i accum = do
  folded ← fold_carry 2 (accum + get_or key i 0)
  add_bytes key left (i + 1) folded

-- the absolute value of an `int`, of which `n` has the bits
abbrev pub magnitude : ℕ → ℕ
magnitude n = let low = n % 2 ^ 32 in if ltb low (2 ^ 31) then low else 2 ^ 32 - low

-- `htbl_size` is an `int`, so that of a size its low 32 bits are taken. `accum` is not negative,
-- and its remainder has the sign of `accum`.
pub hash : List ℕ → ℕ → ℕ → Option ℕ
unfolding add_bytes
hash key key_len htbl_size =
    let divisor = magnitude htbl_size in
    do accum ← add_bytes key key_len 0 0; if divisor == 0 then none else some (accum % divisor)

-- `strlen`: the bytes before the first 0
abbrev pub strlen : List ℕ → ℕ
strlen [] = 0
strlen (x ∷ xs) = let rest = strlen xs in if x == 0 then 0 else rest + 1

-- `if (!key_len) key_len = strlen(key)`
abbrev pub length_of : List ℕ → ℕ → ℕ
length_of key key_len = if key_len == 0 then strlen key else key_len

-- `memcmp(a, b, n) == 0`, with `n` bytes to go from byte `i` on
pub mem_equal : List ℕ → List ℕ → ℕ → ℕ → Bool
mem_equal a b zero i = true
mem_equal a b (suc n) i =
    let rest = mem_equal a b n (i + 1) in if get_or a i 0 == get_or b i 0 then rest else false

-- `key_len == ie->key_len && (memcmp(ie->key, key, key_len) == 0)`
abbrev pub matches : List ℕ → ℕ → Entry → Bool
matches key key_len ie = key_len == ie.key_len && mem_equal ie.key key key_len 0

-- `hashval & (htablesize - 1)`
pub bucket : Table → List ℕ → ℕ → Option ℕ
unfolding hash
bucket t key key_len = do
  hashval ← hash key key_len t.htablesize
  some (bit_and hashval (t.htablesize - 1))

-- the table with another chain in bucket `i`
abbrev pub put_chain : Table → List (List Entry) → ℕ → List Entry → Table
put_chain t buckets i chain = record t { htable = some (set buckets i chain) }

-- `htab` may be NULL, and `malloc` of the entry gives a block or not. The result is the one
-- returned beside what `htab` points to afterwards.
pub add_hash_entry : Bool → Option Table → List ℕ → ℕ → ℕ → Option (ℕ × Option Table)
unfolding bucket
add_hash_entry has_memory none key key_len value = some (0, none)
add_hash_entry has_memory (some t) key key_len value =
    let n = length_of key key_len in
    do
      i ← bucket t key n
      buckets ← t.htable
      head ← get_elem? buckets i
      if has_memory
          then some (
            1,
            some (put_chain t buckets i (record { key = key; key_len = n; value = value } ∷ head)),
          )
          else some (0, some t)

-- the loop of `delete_hash_entry`: the chain without the first entry that matches
pub unlink : List ℕ → ℕ → List Entry → List Entry
unlink key n [] = []
unlink key n (ie ∷ rest) =
    let rest' = unlink key n rest in if matches key n ie then rest else ie ∷ rest'

pub delete_hash_entry : Option Table → List ℕ → ℕ → Option (Option Table)
unfolding bucket unlink
delete_hash_entry none key key_len = some none
delete_hash_entry (some t) key key_len =
    let n = length_of key key_len in
    do
      i ← bucket t key n
      buckets ← t.htable
      head ← get_elem? buckets i
      some (some (put_chain t buckets i (unlink key n head)))

-- the loop of `hash_lookup`
pub search : List ℕ → ℕ → List Entry → ℕ
search key n [] = 0
search key n (ie ∷ rest) =
    let later = search key n rest in if matches key n ie then ie.value else later

pub hash_lookup : Option Table → List ℕ → ℕ → Option ℕ
unfolding bucket search
hash_lookup none key key_len = some 0
hash_lookup (some t) key key_len =
    let n = length_of key key_len in
    do i ← bucket t key n; buckets ← t.htable; head ← get_elem? buckets i; some (search key n head)

-- `for (p2 = 0; nel != 0; p2++) nel >>= 1`. `none` is the fuel run out.
pub count_shifts : ℕ → ℕ → ℕ → Option ℕ
count_shifts zero nel p2 = none
count_shifts (suc fuel) nel p2 =
    let next = count_shifts fuel (nel / 2) (p2 + 1) in if nel == 0 then some p2 else next

-- `1 << p2` of an `int`, which is undefined where bit 31 is reached
abbrev pub shift_one : ℕ → Option ℕ
shift_one p2 = if ltb p2 31 then some (2 ^ p2) else none

-- what is not a power of two, rounded up
pub round_up : ℕ → Option ℕ
unfolding count_shifts
round_up n = do p2 ← count_shifts 65 n 0; shift_one p2

-- the size of the table, with MIN_BUCKETS and, for a 64-bit `size_t`, MAX_BUCKETS
pub table_size : ℕ → Option ℕ
table_size nel =
    let n = min (max nel 16) (2 ^ 58) in if bit_and n (n - 1) == 0 then some n else round_up n

-- whether `malloc` gives the buckets is `has_memory`
pub new_hash_table : Bool → ℕ → Table → Option (ℕ × Table)
new_hash_table has_memory nel htab = elim htab.htable [
  | some _ ↦ some (0, htab)
  | none ↦ (do
    size ← table_size nel
    if has_memory
        then some (1, record { htable = some (replicate size []); htablesize = size })
        else some (0, record { htable = none; htablesize = size }))
]

-- The entries are not freed.
pub free_hash_table : Table → Table
free_hash_table htab = elim htab.htable [ none ↦ htab | some _ ↦ record htab { htable = none } ]
