-- ===== src/HashTable/Size.antt =====
-- `new_hash_table` rounds the size up to a power of two, so that a mask can index the buckets.
use my_test_files.Prelude.{
  List, [], replicate, length-replicate, ==_iff, get_or, ℕ, zero, suc, ◌+◌, ◌-◌, ◌*◌, ◌/◌, ◌%◌, ◌^◌,
  ◌≤◌, ◌<◌, ◌≡◌, refl, ◌∙◌, ap, none, true, false, ltb, ◌==◌, bit_and, min, max, some, Bool-cases,
  inl, inr, arith,
}
use native.Mathlib.Nat.{pow-suc}
use my_test_files.Prelude.Bits.{bit_and_step, two_pow-lt}
use my_test_files.HashTable.{Entry, new_hash_table, Table, count_shifts, round_up, table_size}
use my_test_files.HashTable.Chain.{values}
use my_test_files.HashTable.Map.{IsTable, index, stack}

bit_and-same : (bound m : ℕ) → m ≤ bound → bit_and m m ≡ m
bit_and-same zero m le = let e : m ≡ 0 = omega arith in rw e
bit_and-same (suc bound) m le = elim (Bool-cases (m == 0)) [
  | inl e ↦ let z : m ≡ 0 = ground arith in rw z
  | inr e ↦ omega (arith, bit_and_step m m, bit_and-same bound (m / 2) (ground arith))
]

-- A number is a power of two if it shares no digit with the one below it.
power_of_two : (bound n : ℕ) → n ≤ bound → 0 < n → bit_and n (n - 1) ≡ 0 → (k : ℕ) × (n ≡ 2 ^ k)
power_of_two zero n le lt e = absurd (omega arith)
power_of_two (suc bound) n le lt e = elim (Bool-cases (n % 2 == 0)) [
  | inl even ↦
      let two : n % 2 ≡ 0 = ground arith in
      let half : (n - 1) / 2 ≡ n / 2 - 1 = omega arith in
      let rest : bit_and (n / 2) (n / 2 - 1) ≡ 0 =
        omega (arith, rw half at (bit_and_step n (n - 1)), e) in
      let (k, p) = power_of_two bound (n / 2) (omega arith) (omega arith) rest in
      (suc k, omega (arith, pow-suc 2 k, p))
  | inr odd ↦
      let one : n % 2 ≡ 1 = ground arith in
      let half : (n - 1) / 2 ≡ n / 2 = omega arith in
      let same = bit_and-same (n / 2) (n / 2) (omega arith) in
      (0, omega (arith, rw half at (bit_and_step n (n - 1)), e, same))
]

-- the loop gives the number of digits
count_shifts_lem :
    (fuel n p : ℕ)
    → n < 2 ^ fuel
    → (k : ℕ) × (count_shifts (suc fuel) n p ≡ some (p + k))
      × (n < 2 ^ k)
      × (0 < n → 2 ^ k ≤ 2 * n)
      × (n ≡ 0 → k ≡ 0)
unfolding count_shifts
count_shifts_lem zero n p lt =
    let z : (n == 0) ≡ true = ground (arith, lt) in
    rw z (0, ap some (omega arith), lt, λ pos. omega (arith, lt), λ _. refl)
count_shifts_lem (suc fuel) n p lt = elim (Bool-cases (n == 0)) [
  | inl z ↦
      rw z
        (0, ap some (omega arith), ground arith, λ pos. omega (arith, (==_iff n 0).0 z), λ _. refl)
  | inr more ↦
      let (k, e, below, above, nil) =
        count_shifts_lem fuel (n / 2) (p + 1) (omega (arith, pow-suc 2 fuel)) in
      let s : p + 1 + k ≡ p + suc k = omega arith in
      rw more (
        suc k,
        e ∙ ap some s,
        omega (arith, pow-suc 2 k, below),
        λ lt'. twice k lt' above nil,
        λ z. absurd (ground arith),
      )
]
  where
    twice :
        (k : ℕ)
        → 0 < n
        → (0 < n / 2 → 2 ^ k ≤ 2 * (n / 2))
        → (n / 2 ≡ 0 → k ≡ 0)
        → 2 ^ suc k ≤ 2 * n
    twice k pos above nil = elim (Bool-cases (n / 2 == 0)) [
      | inl one ↦ let e : k ≡ 0 = nil (ground arith) in rw e (omega arith)
      | inr more' ↦ omega (arith, pow-suc 2 k, above (ground arith))
    ]

-- the power of two that the size is rounded to: at least `n`, and at most twice as much
abbrev pub Rounds : ℕ → ℕ → Type 0
Rounds n size = (k : ℕ) × (size ≡ 2 ^ k) × (n ≤ size) × (size ≤ 2 * n)

below_shift : (k n : ℕ) → 2 ^ k ≤ 2 * n → n < 2 ^ 30 → k < 31
below_shift k n le lt = elim (Bool-cases (ltb k 31)) [
  | inl yes_below ↦ ground arith
  | inr above ↦ elim (Bool-cases (k == 31)) [
    | inl e ↦ let s : k ≡ 31 = ground arith in absurd (omega (arith, rw s at le))
    | inr e ↦ absurd (omega (arith, two_pow-lt 31 k (ground arith)))
  ]
]

round_up_lem : (n : ℕ) → 0 < n → n < 2 ^ 30 → (size : ℕ) × (round_up n ≡ some size) × Rounds n size
unfolding round_up
round_up_lem n lo hi =
    let (k, run, below, above, nil) = count_shifts_lem 64 n 0 (omega arith) in
    let small : ltb (0 + k) 31 ≡ true = ground (arith, below_shift k n (above lo) hi) in
    let z : 0 + k ≡ k = omega arith in
    rw (run, small, z) (2 ^ k, refl, (k, refl, omega (arith, below), above lo))

ragged-lt : (n : ℕ) → n ≤ 2 ^ 30 → (bit_and n (n - 1) == 0) ≡ false → n < 2 ^ 30
ragged-lt n le ragged = elim (Bool-cases (n == 2 ^ 30)) [
  | inr other ↦ ground arith
  | inl top ↦ let e : n ≡ 2 ^ 30 = ground arith in absurd (true-ne-false (rw e at ragged))
]
  where
    true-ne-false : true ≡ false → ⊥
    true-ne-false e = ground (arith, e)

-- A table for at most 2 ^ 30 elements has as its size a power of two, not below their number or
-- 16, and at most twice the larger of these.
pub table_size_lem :
    (nel : ℕ) → nel ≤ 2 ^ 30 → (size : ℕ) × (table_size nel ≡ some size) × Rounds (max nel 16) size
unfolding table_size
table_size_lem nel le =
    let n = max nel 16 in
    let e : min n (2 ^ 58) ≡ n = omega arith in
    rw e (elim (Bool-cases (bit_and n (n - 1) == 0)) [
      | inl power ↦
          let (k, p) = power_of_two n n (omega arith) (omega arith) (ground arith) in
          rw power (n, refl, (k, p, omega arith, omega arith))
      | inr ragged ↦ rw ragged (round_up_lem n (omega arith) (ragged-lt n (omega arith) ragged))
    ])

get_or-replicate : (n i : ℕ) → get_or {A = List Entry} (replicate n []) i [] ≡ []
get_or-replicate zero i = refl
get_or-replicate (suc n) zero = refl
get_or-replicate (suc n) (suc i) = get_or-replicate n i

-- Where there is no table yet, `new_hash_table` for at most 2 ^ 30 elements returns 1 if `malloc`
-- gives the buckets, and the table then has a size as above and no value for any key; else it
-- returns 0 and there is no table. Where there is one, it returns 0 and leaves it.
pub new_hash_table_lem :
    (nel size_before : ℕ) (buckets : List (List Entry))
    → nel ≤ 2 ^ 30
    → let t : Table = record { htable = none; htablesize = size_before } in
      let present : Table = record { htable = some buckets; htablesize = size_before } in
      (size : ℕ) × Rounds (max nel 16) size
      × (new_hash_table true nel t
          ≡ some (1, record { htable = some (replicate size []); htablesize = size }))
      × IsTable
          (record { htable = some (replicate size []); htablesize = size })
          (replicate size [])
      × ((key : List ℕ) (n : ℕ) → stack size (replicate size []) key n ≡ [])
      × (new_hash_table false nel t ≡ some (0, record { htable = none; htablesize = size }))
      × (new_hash_table true nel present ≡ some (0, present))
unfolding new_hash_table
new_hash_table_lem nel size_before buckets le =
    let (size, run, rounds) = table_size_lem nel le in
    rw run (
      size,
      rounds,
      refl,
      record {
        there = refl;
        size = length-replicate size [];
        positive = omega (arith, rounds.2);
        small = omega (arith, rounds.3, le);
      },
      λ key n. ap (values key n) (get_or-replicate size (index size key n)),
      refl,
      refl,
    )
