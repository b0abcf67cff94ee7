-- ===== src/HashTable/Chain.antt =====
-- A chain holds, for each key, a stack of values.
use my_test_files.Prelude.{
  ℕ, ◌<◌, ◌≡◌, refl, sym, ◌∙◌, true, false, List, [], ◌∷◌, if◌then◌else◌, get_or, Bool-cases, inl,
  inr, ◌↔◌, arith,
}
use my_test_files.HashTable.{matches, Entry, unlink, search}
use my_test_files.HashTable.Key.{same_key, mem_equal_iff, Bool-ext}

-- the values that the chain holds for a key, newest first
abbrev pub values : List ℕ → ℕ → List Entry → List ℕ
values key n [] = []
values key n (ie ∷ rest) =
    let later = values key n rest in if matches key n ie then ie.value ∷ later else later

abbrev pub head : List ℕ → ℕ
head [] = 0
head (v ∷ vs) = v

abbrev pub tail : List ℕ → List ℕ
tail [] = []
tail (v ∷ vs) = vs

same_key_iff :
    (a : List ℕ) (m : ℕ) (b : List ℕ) (n : ℕ)
    → (same_key a m b n ≡ true) ↔ ((m ≡ n) × ((j : ℕ) → j < m → get_or a j 0 ≡ get_or b j 0))
same_key_iff a m b n = (
  λ e. (
    ground arith,
    λ j lt. (mem_equal_iff a b m 0).0 (ground arith) j (omega arith) (omega arith),
  ),
  λ (e, h).
      let bytes = (mem_equal_iff a b m 0).1 (λ j lo hi. h j (omega arith)) in
      ground (arith, bytes, e),
)

matches_iff :
    (key : List ℕ) (n : ℕ) (ie : Entry)
    → (matches key n ie ≡ true)
      ↔ ((n ≡ ie.key_len) × ((j : ℕ) → j < n → get_or ie.key j 0 ≡ get_or key j 0))
matches_iff key n ie = (
  λ e. (
    ground arith,
    λ j lt. (mem_equal_iff ie.key key n 0).0 (ground arith) j (omega arith) (omega arith),
  ),
  λ (e, h).
      let bytes = (mem_equal_iff ie.key key n 0).1 (λ j lo hi. h j (omega arith)) in
      ground (arith, bytes, e),
)

-- An entry that matches one key matches another exactly if the keys are the same.
matches-same_key :
    (a : List ℕ) (m : ℕ) (b : List ℕ) (n : ℕ) (ie : Entry)
    → matches a m ie ≡ true
    → matches b n ie ≡ same_key a m b n
matches-same_key a m b n ie hit =
    let (len, bytes) = (matches_iff a m ie).0 hit in
    Bool-ext (matches b n ie) (same_key a m b n)
      (λ e.
        let (len', bytes') = (matches_iff b n ie).0 e in
        (same_key_iff a m b n).1
          (len ∙ sym len', λ j lt. sym (bytes j lt) ∙ bytes' j (omega arith)))
      (λ e.
        let (len', bytes') = (same_key_iff a m b n).0 e in
        (matches_iff b n ie).1
          (sym len' ∙ len, λ j lt. bytes j (omega arith) ∙ bytes' j (omega arith)))

-- Where the keys are the same, an entry matches both or none.
matches_congr :
    (a : List ℕ) (m : ℕ) (b : List ℕ) (n : ℕ) (ie : Entry)
    → same_key a m b n ≡ true
    → matches a m ie ≡ matches b n ie
matches_congr a m b n ie same =
    let (len, bytes) = (same_key_iff a m b n).0 same in
    Bool-ext (matches a m ie) (matches b n ie) (λ e. matches-same_key a m b n ie e ∙ same)
      (λ e.
        let (len', bytes') = (matches_iff b n ie).0 e in
        (matches_iff a m ie).1 (len ∙ len', λ j lt. bytes' j (omega arith) ∙ sym (bytes j lt)))

-- what unlinking does to the stack of any key
pub values-unlink :
    (a : List ℕ) (m : ℕ) (b : List ℕ) (n : ℕ) (chain : List Entry)
    → values b n (unlink a m chain)
      ≡ (if same_key a m b n then tail (values b n chain) else values b n chain)
unfolding unlink
values-unlink a m b n [] = ground arith
values-unlink a m b n (ie ∷ rest) = elim (Bool-cases (matches a m ie)) [
  | inl hit ↦
      rw (hit, matches-same_key a m b n ie hit)
        (elim (Bool-cases (same_key a m b n)) [ inl same ↦ rw same | inr other ↦ rw other ])
  | inr miss ↦
      rw (miss, values-unlink a m b n rest)
        (elim (Bool-cases (same_key a m b n)) [
          | inl same ↦
              let miss' : matches b n ie ≡ false = sym (matches_congr a m b n ie same) ∙ miss in
              rw (same, miss')
          | inr other ↦ rw other
        ])
]

pub values-cons :
    (a : List ℕ) (m v : ℕ) (b : List ℕ) (n : ℕ) (chain : List Entry)
    → values b n (record { key = a; key_len = m; value = v } ∷ chain)
      ≡ (if same_key a m b n then v ∷ values b n chain else values b n chain)
values-cons a m v b n chain =
    let ie : Entry = record { key = a; key_len = m; value = v } in
    let own : matches a m ie ≡ true = (matches_iff a m ie).1 (refl, λ j lt. refl) in
    rw (matches-same_key a m b n ie own)

pub search-values :
    (key : List ℕ) (n : ℕ) (chain : List Entry) → search key n chain ≡ head (values key n chain)
unfolding search
search-values key n [] = refl
search-values key n (ie ∷ rest) = elim (Bool-cases (matches key n ie)) [
  | inl hit ↦ rw hit
  | inr miss ↦ rw miss (search-values key n rest)
]
