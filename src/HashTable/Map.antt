-- ===== src/HashTable/Map.antt =====
-- The table is a map from keys to stacks of values.
use my_test_files.Prelude.{
  ℕ, ◌-◌, ◌%◌, ◌^◌, ◌≤◌, ◌<◌, ◌≡◌, ◌≢◌, refl, ◌∙◌, ap, true, false, List, [], ◌∷◌, ◌==◌,
  if◌then◌else◌, get_or, get_elem?, get_elem?-eq-get_or, set, length, length-set, get_or-set_self,
  get_or-set_ne, bit_and, some, Bool-cases, inl, inr, arith,
}
use native.Mathlib.Nat.{mod-lt}
use my_test_files.Prelude.Bits.{bit_and-le}
use my_test_files.HashTable.{
  Table, Entry, length_of, bucket, put_chain, add_hash_entry, delete_hash_entry, hash_lookup,
}
use my_test_files.HashTable.Key.{
  checksum, sum_bytes, AreBytes, same_key, hash_lem, same_key-sum_bytes,
}
use my_test_files.HashTable.Chain.{values, head, tail, values-unlink, values-cons, search-values}

-- the table has these buckets, at least one and at most 2 ^ 31, which the hash
-- takes as an `int`
pub record IsTable (t : Table) (buckets : List (List Entry)) : Type 0 where
  pub there : t.htable ≡ some buckets
  pub size : length buckets ≡ t.htablesize
  pub positive : 0 < t.htablesize
  pub small : t.htablesize ≤ 2 ^ 31

-- the bucket of a key
abbrev pub index : ℕ → List ℕ → ℕ → ℕ
index size key n = bit_and (checksum (sum_bytes key n 0) % size) (size - 1)

-- the values that the table holds for a key, newest first
abbrev pub stack : ℕ → List (List Entry) → List ℕ → ℕ → List ℕ
stack size buckets key n = values key n (get_or buckets (index size key n) [])

index-lt : (size : ℕ) (key : List ℕ) (n : ℕ) → 0 < size → index size key n < size
index-lt size key n positive =
    let h = checksum (sum_bytes key n 0) % size in
    omega (
      arith,
      bit_and-le h h (size - 1) (omega arith),
      mod-lt (checksum (sum_bytes key n 0)) positive,
    )

module _ (t : Table) (buckets : List (List Entry)) (is : IsTable t buckets) where
  bucket_lem :
      (key : List ℕ) (n : ℕ) → AreBytes key → bucket t key n ≡ some (index t.htablesize key n)
  unfolding bucket
  bucket_lem key n bytes = rw (hash_lem key n t.htablesize bytes is.positive is.small)

  chain_lem :
      (key : List ℕ) (n : ℕ)
      → get_elem? buckets (index t.htablesize key n)
        ≡ some (get_or buckets (index t.htablesize key n) [])
  chain_lem key n =
      get_elem?-eq-get_or buckets (index t.htablesize key n) []
        (omega (arith, is.size, index-lt t.htablesize key n is.positive))

  put_chain-IsTable :
      (i : ℕ) (chain : List Entry) → IsTable (put_chain t buckets i chain) (set buckets i chain)
  put_chain-IsTable i chain = record {
    there = refl;
    size = length-set buckets i chain ∙ is.size;
    positive = is.positive;
    small = is.small;
  }

  -- What another chain in the bucket of one key does to the stack of any key: if it has the stack
  -- `f` for the keys that are the same and the old one for the others, so has the table.
  stack_put :
      (key : List ℕ) (n : ℕ) (chain : List Entry) (f : List ℕ → List ℕ)
      → ((other : List ℕ) (m : ℕ)
          → values other m chain ≡ (
              let old = values other m (get_or buckets (index t.htablesize key n) []) in
              if same_key key n other m then f old else old))
      → (other : List ℕ) (m : ℕ)
      → stack t.htablesize (set buckets (index t.htablesize key n) chain) other m ≡ (
          let old = stack t.htablesize buckets other m in
          if same_key key n other m then f old else old)
  stack_put key n chain f h other m =
      let size = t.htablesize in
      elim (Bool-cases (index size key n == index size other m)) [
        | inl together ↦
            let e : index size other m ≡ index size key n = ground arith in
            rw
              (
                e,
                get_or-set_self buckets (index size key n) chain []
                    (omega (arith, is.size, index-lt size key n is.positive)),
              )
              (h other m)
        | inr apart ↦
            let ne : index size key n ≢ index size other m = ground arith in
            let differ : same_key key n other m ≡ false =
              elim (Bool-cases (same_key key n other m)) [
                | inr other_key ↦ other_key
                | inl same ↦
                    let sum = same_key-sum_bytes key other n m same in
                    absurd (ne (ap (λ s. bit_and (checksum s % size) (size - 1)) sum))
              ] in
            rw (differ, get_or-set_ne buckets (index size key n) (index size other m) chain [] ne)
      ]

-- `add_hash_entry` of a key in a table with buckets, at most 2 ^ 31, where `malloc` gives an entry, returns 1 and
-- pushes the value on the stack of the key and of no other; without the entry it returns 0 and
-- changes nothing. A length of 0 stands for that of the string.
pub add_hash_entry_lem :
    (t : Table) (buckets : List (List Entry)) (key : List ℕ) (key_len value : ℕ)
    → IsTable t buckets
    → AreBytes key
    → let n = length_of key key_len in
      ((t' : Table) × (buckets' : List (List Entry)) × (add_hash_entry true
            (some t)
            key
            key_len
            value
          ≡ some (1, some t'))
        × IsTable t' buckets'
        × (t'.htablesize ≡ t.htablesize)
        × ((other : List ℕ) (m : ℕ)
            → stack t.htablesize buckets' other m ≡ (
                let old = stack t.htablesize buckets other m in
                if same_key key n other m then value ∷ old else old)))
      × (add_hash_entry false (some t) key key_len value ≡ some (0, some t))
unfolding add_hash_entry
add_hash_entry_lem t buckets key key_len value is bytes =
    let n = length_of key key_len in
    let i = index t.htablesize key n in
    rw (bucket_lem t buckets is key n bytes, is.there, chain_lem t buckets is key n)
      (
        (
          _,
          _,
          refl,
          put_chain-IsTable t buckets is i _,
          refl,
          stack_put t buckets is key n _ (λ vs. value ∷ vs)
              (λ other m. values-cons key n value other m (get_or buckets i [])),
        ),
        refl,
      )

-- `delete_hash_entry` of a key in a table with buckets, at most 2 ^ 31, pops the newest value from the stack of the
-- key, if there is one, and touches no other stack: a value that it hid is seen again.
pub delete_hash_entry_lem :
    (t : Table) (buckets : List (List Entry)) (key : List ℕ) (key_len : ℕ)
    → IsTable t buckets
    → AreBytes key
    → let n = length_of key key_len in
      (t' : Table) × (buckets' : List (List Entry)) × (delete_hash_entry (some t) key key_len
        ≡ some (some t'))
      × IsTable t' buckets'
      × (t'.htablesize ≡ t.htablesize)
      × ((other : List ℕ) (m : ℕ)
          → stack t.htablesize buckets' other m ≡ (
              let old = stack t.htablesize buckets other m in
              if same_key key n other m then tail old else old))
unfolding delete_hash_entry
delete_hash_entry_lem t buckets key key_len is bytes =
    let n = length_of key key_len in
    let i = index t.htablesize key n in
    rw (bucket_lem t buckets is key n bytes, is.there, chain_lem t buckets is key n)
      (
        _,
        _,
        refl,
        put_chain-IsTable t buckets is i _,
        refl,
        stack_put t buckets is key n _ tail
            (λ other m. values-unlink key n other m (get_or buckets i [])),
      )

-- `hash_lookup` of a key in a table with buckets, at most 2 ^ 31, gives the newest value of the stack of the key, or
-- NULL.
pub hash_lookup_lem :
    (t : Table) (buckets : List (List Entry)) (key : List ℕ) (key_len : ℕ)
    → IsTable t buckets
    → AreBytes key
    → hash_lookup (some t) key key_len
      ≡ some (head (stack t.htablesize buckets key (length_of key key_len)))
unfolding hash_lookup
hash_lookup_lem t buckets key key_len is bytes =
    let n = length_of key key_len in
    rw (
      bucket_lem t buckets is key n bytes,
      is.there,
      chain_lem t buckets is key n,
      search-values key n (get_or buckets (index t.htablesize key n) []),
    )
