-- ===== src/Bitlist/Find/Scan.antt =====
-- The two loops of `bitlist_find_bit` stop at the first digit that is set.
use my_test_files.Prelude.{
  ℕ, zero, suc, ◌+◌, ◌-◌, ◌*◌, ◌/◌, ◌%◌, ◌≤◌, ◌<◌, ◌≡◌, ◌∙◌, Bool, true, false, List, arith, ltb,
  leb, ◌==◌, get_or, Bool-cases, inl, inr, Option, none, some,
}
use my_test_files.Prelude.Bits.{test_bit, bit_and-two_pow, zero-test_bit}
use my_test_files.Bitlist.Find.{find_in_word, scan}

-- `o` is the first digit of `w` from `bit` on that is set, below digit 32
abbrev IsFirstDigit : ℕ → ℕ → Option ℕ → Type 0
IsFirstDigit w bit none = (k : ℕ) → bit ≤ k → k < 32 → test_bit w k ≡ false
IsFirstDigit w bit (some b) =
    (bit ≤ b)
    × (b < 32)
    × (test_bit w b ≡ true)
    × ((k : ℕ) → bit ≤ k → k < b → test_bit w k ≡ false)

later :
    (w bit : ℕ) (o : Option ℕ)
    → test_bit w bit ≡ false
    → IsFirstDigit w (bit + 1) o
    → IsFirstDigit w bit o
later w bit none clear h = λ k lo hi. elim (Bool-cases (bit == k)) [
  | inl e ↦ let e' : k ≡ bit = ground arith in rw e' clear
  | inr e ↦ h k (ground arith) hi
]
later w bit (some b) clear h = (
  omega arith,
  h.1,
  h.2,
  λ k lo hi. elim (Bool-cases (bit == k)) [
    | inl e ↦ let e' : k ≡ bit = ground arith in rw e' clear
    | inr e ↦ h.3 k (ground arith) hi
  ],
)

find_in_word_lem : (left w bit : ℕ) → left + bit ≡ 32 → IsFirstDigit w bit (find_in_word left w bit)
unfolding find_in_word
find_in_word_lem zero w bit e = λ k lo hi. absurd (omega arith)
find_in_word_lem (suc left) w bit e =
    rw (bit_and-two_pow bit w) (elim (Bool-cases (test_bit w bit)) [
      | inl is ↦ rw is (omega arith, omega arith, is, λ k lo hi. absurd (omega arith))
      | inr clear ↦ rw clear (later w bit _ clear (find_in_word_lem left w (bit + 1) (omega arith)))
    ])

-- bit `i` of an array of words
abbrev pub digit : List ℕ → ℕ → Bool
digit xs i = test_bit (get_or xs (i / 32) 0) (i % 32)

-- from bit `p` on, the loop over `elems` elements found a set bit first at `e` and `b`, or none
pub record IsFirst (xs : List ℕ) (elems p : ℕ) (at : ℕ × ℕ) : Type 0 where
  pub within : at.0 ≤ elems
  pub digit_in : at.0 < elems → at.1 < 32
  pub from : p ≤ at.0 * 32 + at.1
  pub is_set : at.0 < elems → digit xs (at.0 * 32 + at.1) ≡ true
  pub clear : (i : ℕ) → p ≤ i → i < at.0 * 32 + at.1 → i < elems * 32 → digit xs i ≡ false

extend :
    (xs : List ℕ) (elems p q : ℕ) (at : ℕ × ℕ)
    → p ≤ q
    → ((i : ℕ) → p ≤ i → i < q → digit xs i ≡ false)
    → IsFirst xs elems q at
    → IsFirst xs elems p at
extend xs elems p q at le gap f = record {
  within = f.within;
  digit_in = f.digit_in;
  from = omega (arith, f.from);
  is_set = f.is_set;
  clear = λ i lo hi room. elim (Bool-cases (ltb i q)) [
    | inl below ↦ gap i lo (ground arith)
    | inr above ↦ f.clear i (ground arith) hi room
  ];
}

-- a digit of element `elem`, as a digit of the array
digit_of :
    (xs : List ℕ) (elem i : ℕ) → i / 32 ≡ elem → digit xs i ≡ test_bit (get_or xs elem 0) (i % 32)
digit_of xs elem i e = rw e

module _ (xs : List ℕ) (elems elem bit : ℕ) (small : bit ≤ 32) where
  -- an element with no set digit from `bit` on is passed over
  skip :
      (at : ℕ × ℕ)
      → ((k : ℕ) → bit ≤ k → k < 32 → test_bit (get_or xs elem 0) k ≡ false)
      → IsFirst xs elems ((elem + 1) * 32 + 0) at
      → IsFirst xs elems (elem * 32 + bit) at
  skip at none_set f =
      extend xs elems (elem * 32 + bit) ((elem + 1) * 32 + 0) at (omega arith)
        (λ i lo hi.
          digit_of xs elem i (omega arith) ∙ none_set (i % 32) (omega arith) (omega arith))
        f

  stop :
      (b : ℕ)
      → elem < elems
      → IsFirstDigit (get_or xs elem 0) bit (some b)
      → IsFirst xs elems (elem * 32 + bit) (elem, b)
  stop b inside h = record {
    within = omega arith;
    digit_in = λ _. h.1;
    from = omega (arith, h.0);
    is_set = λ _.
        let e : (elem * 32 + b) % 32 ≡ b = omega (arith, h.1) in
        digit_of xs elem (elem * 32 + b) (omega (arith, h.1)) ∙ rw e h.2;
    clear = λ i lo hi room.
        digit_of xs elem i (omega (arith, h.1))
        ∙ h.3 (i % 32) (omega (arith, h.1)) (omega (arith, h.1));
  }

pub scan_lem :
    (xs : List ℕ) (elems left elem bit : ℕ)
    → left + elem ≡ elems
    → bit ≤ 32
    → IsFirst xs elems (elem * 32 + bit) (scan xs left elem bit)
unfolding scan
scan_lem xs elems zero elem bit e small = record {
  within = omega arith;
  digit_in = λ h. absurd (omega arith);
  from = omega arith;
  is_set = λ h. absurd (omega arith);
  clear = λ i lo hi room. absurd (omega arith);
}
scan_lem xs elems (suc left) elem bit e small =
    let w = get_or xs elem 0 in
    let rest = scan_lem xs elems left (elem + 1) 0 (omega arith) (omega arith) in
    let pass = skip xs elems elem bit small (scan xs left (elem + 1) 0) in
    elim (Bool-cases (leb 32 bit)) [
      | inl full ↦ rw full (pass (λ k lo hi. absurd (ground arith)) rest)
      | inr more ↦ rw more (elim (Bool-cases (w == 0)) [
        | inl zero_word ↦
            rw zero_word
              (pass (λ k lo hi. let z : w ≡ 0 = ground arith in rw z (zero-test_bit k)) rest)
        | inr some_word ↦ rw some_word (
            found (find_in_word (32 - bit) w bit) (find_in_word_lem (32 - bit) w bit (omega arith))
              pass rest)
      ])
    ]
  where
    found :
        (o : Option ℕ)
        → IsFirstDigit (get_or xs elem 0) bit o
        → (((k : ℕ) → bit ≤ k → k < 32 → test_bit (get_or xs elem 0) k ≡ false)
            → IsFirst xs elems ((elem + 1) * 32 + 0) (scan xs left (elem + 1) 0)
            → IsFirst xs elems (elem * 32 + bit) (scan xs left (elem + 1) 0))
        → IsFirst xs elems ((elem + 1) * 32 + 0) (scan xs left (elem + 1) 0)
        → IsFirst xs elems
            (elem * 32 + bit)
            (elim o [ some b ↦ (elem, b) | none ↦ scan xs left (elem + 1) 0 ])
    found none h pass rest = pass h rest
    found (some b) h pass rest = stop xs elems elem bit small b (omega arith) h
