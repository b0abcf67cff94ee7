-- ===== src/HashTable/Key.antt =====
-- The hash of a key depends only on its bytes: it is their end-around sum.
use my_test_files.Prelude.{
  ap, ℕ, zero, suc, ◌+◌, ◌-◌, ◌/◌, ◌%◌, ◌^◌, ◌≤◌, ◌<◌, ◌≡◌, refl, sym, Bool, true, false, ◌&&◌,
  List, ltb, ◌==◌, if◌then◌else◌, get_or, bit_and, some, Bool-cases, inl, inr, ◌↔◌, arith,
}
use my_test_files.Prelude.Bits.{bit_and_step, bit_and_low}
use my_test_files.HashTable.{fold_carry, add_bytes, magnitude, hash, mem_equal}

bit_and_byte : (a : ℕ) → bit_and a 255 ≡ a % 256
bit_and_byte a = omega (
  arith,
  bit_and_step a 255,
  bit_and_step (a / 2) 127,
  bit_and_step (a / 2 / 2) 63,
  bit_and_low (a / 2 / 2 / 2),
)

zero-add : (s : ℕ) → 0 + s ≡ s
zero-add s = omega arith

fold_carry_lem : (x : ℕ) → x ≤ 510 → fold_carry 2 x ≡ some (if ltb 255 x then x - 255 else x)
unfolding fold_carry
fold_carry_lem x le = elim (Bool-cases (ltb 255 x)) [
  | inr small ↦ rw small
  | inl large ↦
      let y : bit_and x 255 + x / 256 ≡ x - 255 = omega (arith, bit_and_byte x, ltb-lt x large) in
      let stop : ltb 255 (x - 255) ≡ false = ground arith in rw (large, y, stop)
]
  where
    ltb-lt : (x : ℕ) → ltb 255 x ≡ true → 255 < x
    ltb-lt x h = ground arith

-- the end-around sum of bytes that add up to `s`: 0 if they are all 0, else from 1 to 255
abbrev pub checksum : ℕ → ℕ
checksum s = if s == 0 then 0 else (s - 1) % 255 + 1

checksum_step :
    (s b : ℕ)
    → b < 256
    → (if ltb 255 (checksum s + b) then checksum s + b - 255 else checksum s + b) ≡ checksum (s + b)
checksum_step s b lt = ground arith

abbrev pub AreBytes : List ℕ → Type 0
AreBytes key = (i : ℕ) → get_or key i 0 < 256

-- the sum of `n` bytes from byte `i` on
abbrev pub sum_bytes : List ℕ → ℕ → ℕ → ℕ
sum_bytes key zero i = 0
sum_bytes key (suc n) i = get_or key i 0 + sum_bytes key n (i + 1)

checksum-le : (s : ℕ) → checksum s ≤ 255
checksum-le s = ground arith

add_bytes_lem :
    (key : List ℕ) (left i s : ℕ)
    → AreBytes key
    → add_bytes key left i (checksum s) ≡ some (checksum (s + sum_bytes key left i))
unfolding add_bytes
add_bytes_lem key zero i s bytes = let e : s + 0 ≡ s = omega arith in rw e
add_bytes_lem key (suc left) i s bytes =
    let b = get_or key i 0 in
    let e : s + (b + sum_bytes key left (i + 1)) ≡ s + b + sum_bytes key left (i + 1) =
      omega arith in
    rw
      (
        fold_carry_lem (checksum s + b) (omega (arith, bytes i, checksum-le s)),
        checksum_step s b (bytes i),
        e,
      )
      (add_bytes_lem key left (i + 1) (s + b) bytes)

-- For a table that has buckets, at most 2 ^ 31 of them, the hash of a key is the end-around sum
-- of its bytes modulo the size.
pub hash_lem :
    (key : List ℕ) (n size : ℕ)
    → AreBytes key
    → 0 < size
    → size ≤ 2 ^ 31
    → hash key n size ≡ some (checksum (sum_bytes key n 0) % size)
unfolding hash
hash_lem key n size bytes positive small =
    let e : (size == 0) ≡ false = ground (arith, positive) in
    let same : magnitude size ≡ size = ground (arith, small) in
    rw (add_bytes_lem key n 0 0 bytes, same, e)
      (ap (λ t. some (checksum t % size)) (zero-add (sum_bytes key n 0)))

-- whether two keys are the same bytes
abbrev pub same_key : List ℕ → ℕ → List ℕ → ℕ → Bool
same_key a m b n = m == n && mem_equal a b m 0

pub mem_equal_iff :
    (a b : List ℕ) (n i : ℕ)
    → (mem_equal a b n i ≡ true) ↔ ((j : ℕ) → i ≤ j → j < i + n → get_or a j 0 ≡ get_or b j 0)
unfolding mem_equal
mem_equal_iff a b zero i = (λ e j lo hi. absurd (omega arith), λ h. refl)
mem_equal_iff a b (suc n) i = (
  λ e j lo hi. elim (Bool-cases (i == j)) [
    | inl here ↦ let s : j ≡ i = ground arith in rw s (ground arith)
    | inr there ↦ (mem_equal_iff a b n (i + 1)).0 (ground arith) j (ground arith) (omega arith)
  ],
  λ h.
      let first = h i (omega arith) (omega arith) in
      let rest = (mem_equal_iff a b n (i + 1)).1 (λ j lo hi. h j (omega arith) (omega arith)) in
      ground (arith, first, rest),
)

sum_bytes_congr :
    (a b : List ℕ) (n i : ℕ) → mem_equal a b n i ≡ true → sum_bytes a n i ≡ sum_bytes b n i
unfolding mem_equal
sum_bytes_congr a b zero i e = refl
sum_bytes_congr a b (suc n) i e =
    let rest = sum_bytes_congr a b n (i + 1) (ground arith) in
    let first : get_or a i 0 ≡ get_or b i 0 = ground arith in omega (arith, rest, first)

-- the same key has the same sum
pub same_key-sum_bytes :
    (a b : List ℕ) (m n : ℕ) → same_key a m b n ≡ true → sum_bytes a m 0 ≡ sum_bytes b n 0
same_key-sum_bytes a b m n e =
    let s : n ≡ m = ground arith in rw s (sum_bytes_congr a b m 0 (ground arith))

pub Bool-ext : (a b : Bool) → (a ≡ true → b ≡ true) → (b ≡ true → a ≡ true) → a ≡ b
Bool-ext true b f g = sym (f refl)
Bool-ext false true f g = g refl
Bool-ext false false f g = refl
