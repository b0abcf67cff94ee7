-- ===== src/Util/Digits.antt =====
-- baseconv.c: the string reads back as the number.
use my_test_files.Prelude.{
  ℕ, zero, suc, ◌+◌, ◌-◌, ◌*◌, ◌/◌, ◌%◌, ◌^◌, ◌≤◌, ◌<◌, ◌≡◌, refl, ◌∙◌, true, false, ◌||◌, List, [],
  ◌∷◌, none, some, ltb, ◌==◌, if◌then◌else◌, arith, Bool-cases, inl, inr, length, ◌⊎◌,
}
use native.Mathlib.Nat.{pow-suc, div-add-mod', mod-lt}
use my_test_files.Util.{digit, convert, baseconv}

-- the value of a digit's character
pub digit_value : ℕ → ℕ
digit_value c = if ltb c 58 then c - 48 else c - 87

-- the number that a string denotes, after `acc`
pub read : ℕ → ℕ → List ℕ → ℕ
read base acc [] = acc
read base acc (c ∷ cs) = read base (acc * base + digit_value c) cs

digit_value-digit : (d : ℕ) → d < 16 → digit_value (digit d) ≡ d
unfolding digit_value digit
digit_value-digit d h = ground (arith, h)

double : (q b : ℕ) → 2 ≤ b → q * 2 ≤ q * b
double q b h = grind arith

positive : (l q : ℕ) → 0 < q → q < 2 ^ l → 0 < l
positive zero q more lt = absurd (omega (arith, more, lt))
positive (suc l) q more lt = omega arith

-- Enough cells, and what is read from the string.
convert_lem :
    (left num base : ℕ) (chars : List ℕ)
    → 2 ≤ base
    → base ≤ 16
    → num < 2 ^ left
    → 0 < left
    → (s : List ℕ) × (convert left num base chars ≡ some s)
      × (read base 0 s ≡ read base num chars)
      × (length s ≤ left + length chars)
unfolding convert read
convert_lem zero num base chars lo hi small pos = absurd (omega (arith, pos))
convert_lem (suc left) num base chars lo hi small pos =
    let split : num / base * base + num % base ≡ num = div-add-mod' num base in
    let lt : num % base < base = mod-lt num (omega (arith, lo)) in
    let value = digit_value-digit (num % base) (omega (arith, lt, hi)) in
    let again : read base (num / base) (digit (num % base) ∷ chars) ≡ read base num chars =
      rw value (rw split refl) in
    elim (Bool-cases (num / base == 0)) [
      | inl e ↦
          let none_left : num / base ≡ 0 = ground (arith, e) in
          rw e (
            digit (num % base) ∷ chars,
            refl,
            rw value (rw (rw none_left at split) refl),
            omega arith,
          )
      | inr e ↦
          let more : 0 < num / base = ground (arith, e) in
          let half : num / base < 2 ^ left =
            omega (arith, pow-suc 2 left, double (num / base) base lo, split) in
          let (s, eq, val, len) =
            convert_lem left (num / base) base (digit (num % base) ∷ chars) lo hi half
              (positive left (num / base) more half) in
          rw e (s, eq, val ∙ again, omega (arith, len))
    ]

-- For a number below 2 ^ 32 and a base from 2 to 16, `baseconv` returns a string of at most 32
-- characters, so that it stays inside its buffer, which read in that base gives the number. For
-- another base it returns NULL.
pub baseconv_lem :
    (num base : ℕ)
    → num < 2 ^ 32
    → (2 ≤ base
        → base ≤ 16
        → (s : List ℕ) × (baseconv num base ≡ some (some s))
          × (read base 0 s ≡ num)
          × (length s ≤ 32))
      × ((base < 2) ⊎ (16 < base) → baseconv num base ≡ some none)
unfolding baseconv read
baseconv_lem num base small = (
  (λ lo hi.
      let (s, e, val, len) = convert_lem 32 num base [] lo hi small (omega arith) in
      let inside : (ltb base 2 || ltb 16 base) ≡ false = ground (arith, lo, hi) in
      (s, rw inside (rw e refl), val, omega (arith, len))),
  (λ out.
      let outside : (ltb base 2 || ltb 16 base) ≡ true = ground (arith, out) in rw outside refl),
)
