-- ===== src/HashTable/Tests.antt =====
-- The hash table at concrete inputs.
use my_test_files.Prelude.{
  ℕ, ◌+◌, zero, suc, ◌^◌, ◌≡◌, refl, true, false, List, [], ◌∷◌, if◌then◌else◌, replicate, max,
  none, some, arith,
}
use my_test_files.HashTable.{
  Entry, Table, length_of, add_hash_entry, delete_hash_entry, hash_lookup, table_size,
  new_hash_table,
}
use my_test_files.HashTable.Key.{AreBytes, same_key}
use my_test_files.HashTable.Chain.{head, tail}
use my_test_files.HashTable.Map.{
  IsTable, stack, add_hash_entry_lem, delete_hash_entry_lem, hash_lookup_lem,
}
use my_test_files.HashTable.Size.{Rounds, new_hash_table_lem}

-- two buckets, one of which holds two values for the key "a"
abbrev chains : List (List Entry)
chains =
    []
    ∷ (record { key = 97 ∷ []; key_len = 1; value = 8 }
        ∷ (record { key = 97 ∷ []; key_len = 1; value = 7 } ∷ []))
    ∷ []

abbrev sample : Table
sample = record { htable = some chains; htablesize = 2 }

sample-IsTable : IsTable sample chains
sample-IsTable = record { there = refl; size = refl; positive = omega arith; small = omega arith }

-- "a" and "b", with the 0 that ends a string
abbrev a : List ℕ
a = 97 ∷ 0 ∷ []

abbrev b : List ℕ
b = 98 ∷ 0 ∷ []

a-AreBytes : AreBytes a
a-AreBytes zero = omega arith
a-AreBytes (suc zero) = omega arith
a-AreBytes (suc (suc i)) = omega arith

lookups : (hash_lookup (some sample) a 0 ≡ some 8) × (hash_lookup (some sample) b 0 ≡ some 0)
unfolding hash_lookup my_test_files.HashTable.mem_equal
lookups = (refl, refl)

-- A size of 2 ^ 32 is 0 as an `int`, by which the hash divides.
no_remainder : hash_lookup (some (record { htable = some []; htablesize = 2 ^ 32 })) [] 0 ≡ none
unfolding hash_lookup my_test_files.HashTable.bucket my_test_files.HashTable.hash
no_remainder = refl

-- A shift into the sign bit of an `int` is reached above 2 ^ 30.
over_shift : table_size (2 ^ 30 + 1) ≡ none
unfolding table_size my_test_files.HashTable.round_up
over_shift = refl

add_hash_entry_lem_example :
    ((t' : Table) × (buckets' : List (List Entry)) × (add_hash_entry true (some sample) a 0 9
        ≡ some (1, some t'))
      × IsTable t' buckets'
      × (t'.htablesize ≡ 2)
      × ((other : List ℕ) (m : ℕ)
          → stack 2 buckets' other m ≡ (
              let old = stack 2 chains other m in
              if same_key a (length_of a 0) other m then 9 ∷ old else old)))
    × (add_hash_entry false (some sample) a 0 9 ≡ some (0, some sample))
add_hash_entry_lem_example = add_hash_entry_lem sample chains a 0 9 sample-IsTable a-AreBytes

delete_hash_entry_lem_example :
    (t' : Table) × (buckets' : List (List Entry)) × (delete_hash_entry (some sample) a 0
      ≡ some (some t'))
    × IsTable t' buckets'
    × (t'.htablesize ≡ 2)
    × ((other : List ℕ) (m : ℕ)
        → stack 2 buckets' other m ≡ (
            let old = stack 2 chains other m in
            if same_key a (length_of a 0) other m then tail old else old))
delete_hash_entry_lem_example = delete_hash_entry_lem sample chains a 0 sample-IsTable a-AreBytes

hash_lookup_lem_example :
    hash_lookup (some sample) a 0 ≡ some (head (stack 2 chains a (length_of a 0)))
hash_lookup_lem_example = hash_lookup_lem sample chains a 0 sample-IsTable a-AreBytes

new_hash_table_lem_example :
    let t : Table = record { htable = none; htablesize = 0 } in
    let present : Table = record { htable = some chains; htablesize = 0 } in
    (size : ℕ) × Rounds (max 100 16) size
    × (new_hash_table true 100 t
        ≡ some (1, record { htable = some (replicate size []); htablesize = size }))
    × IsTable (record { htable = some (replicate size []); htablesize = size }) (replicate size [])
    × ((key : List ℕ) (n : ℕ) → stack size (replicate size []) key n ≡ [])
    × (new_hash_table false 100 t ≡ some (0, record { htable = none; htablesize = size }))
    × (new_hash_table true 100 present ≡ some (0, present))
new_hash_table_lem_example = new_hash_table_lem 100 0 chains (omega arith)
