-- ===== src/Bitlist/Count/Laws.antt =====
-- Counting is counting the set bits of all the elements, overflow bits included.
use my_test_files.Prelude.{
  ℕ, zero, suc, ◌+◌, ◌-◌, ◌*◌, ◌/◌, ◌%◌, ◌≤◌, ◌<◌, ◌≡◌, refl, ◌∙◌, Bool, false, not, List, arith,
  if◌then◌else◌, get_or,
}
use native.Mathlib.Nat.{add-zero}
use my_test_files.Prelude.Bits.{test_bit, bit_and-two_pow}
use my_test_files.Bitlist.{Bitlist}
use my_test_files.Bitlist.View.{bit_at, IsValid, IsTrimmed}
use my_test_files.Bitlist.Count.{count_word, count_elems, count}
use my_test_files.Bitlist.Find.Scan.{digit}

-- how many of the `n` values of `f` from `i` on are true
abbrev pub ones : (ℕ → Bool) → ℕ → ℕ → ℕ
ones f i zero = 0
ones f i (suc n) = (if f i then 1 else 0) + ones f (i + 1) n

pub ones_congr :
    (f g : ℕ → Bool) (i j n : ℕ)
    → ((k : ℕ) → k < n → f (i + k) ≡ g (j + k))
    → ones f i n ≡ ones g j n
ones_congr f g i j zero h = refl
ones_congr f g i j (suc n) h =
    let first : f i ≡ g j = rw (add-zero, add-zero) at (h 0 (omega arith)) in
    rw (first, ones_congr f g (i + 1) (j + 1) n (λ k lt. step k (h (k + 1) (omega arith))))
  where
    step : (k : ℕ) → f (i + (k + 1)) ≡ g (j + (k + 1)) → f (i + 1 + k) ≡ g (j + 1 + k)
    step k e =
        let l : i + 1 + k ≡ i + (k + 1) = omega arith in
        let r : j + 1 + k ≡ j + (k + 1) = omega arith in rw (l, r) e

pub ones_split :
    (f : ℕ → Bool) (i m n k : ℕ) → m + n ≡ k → ones f i k ≡ ones f i m + ones f (i + m) n
ones_split f i zero n k e =
    let e' : k ≡ n = omega arith in let z : i + 0 ≡ i = omega arith in rw (e', z) (omega arith)
ones_split f i (suc m) n k e =
    let e' : k ≡ suc (m + n) = omega arith in
    let s : i + suc m ≡ i + 1 + m = omega arith in
    rw (e', s) (omega (arith, ones_split f (i + 1) m n (m + n) refl))

pub ones_none :
    (f : ℕ → Bool) (i n : ℕ) → ((k : ℕ) → i ≤ k → k < i + n → f k ≡ false) → ones f i n ≡ 0
ones_none f i zero h = refl
ones_none f i (suc n) h = rw (
  h i (omega arith) (omega arith),
  ones_none f (i + 1) n (λ k lo hi. h k (omega arith) (omega arith)),
)

pub ones-not : (f : ℕ → Bool) (i n : ℕ) → ones f i n + ones (λ k. not (f k)) i n ≡ n
ones-not f i zero = refl
ones-not f i (suc n) = ground (arith, ones-not f (i + 1) n)

count_word_lem : (left w bit n : ℕ) → count_word left w bit n ≡ n + ones (test_bit w) bit left
unfolding count_word
count_word_lem zero w bit n = omega arith
count_word_lem (suc left) w bit n =
    rw (bit_and-two_pow bit w) (count_word_lem left w (bit + 1) _ ∙ ground arith)

-- the digits of one element
pub ones_word :
    (xs : List ℕ) (elem : ℕ)
    → ones (test_bit (get_or xs elem 0)) 0 32 ≡ ones (digit xs) (elem * 32) 32
ones_word xs elem = ones_congr (test_bit (get_or xs elem 0)) (digit xs) 0 (elem * 32) 32 λ k lt.
    let e : (elem * 32 + k) / 32 ≡ elem = omega arith in
    let r : (elem * 32 + k) % 32 ≡ k = omega arith in
    let z : 0 + k ≡ k = omega arith in rw (e, r, z)

count_elems_lem :
    (xs : List ℕ) (left elem n : ℕ)
    → count_elems xs left elem n ≡ n + ones (digit xs) (elem * 32) (left * 32)
unfolding count_elems
count_elems_lem xs zero elem n = omega arith
count_elems_lem xs (suc left) elem n =
    let next : (elem + 1) * 32 ≡ elem * 32 + 32 = omega arith in
    let ih = count_elems_lem xs left (elem + 1) (count_word 32 (get_or xs elem 0) 0 n) in
    omega (
      arith,
      rw next at ih,
      count_word_lem 32 (get_or xs elem 0) 0 n,
      ones_word xs elem,
      ones_split (digit xs) (elem * 32) 32 (left * 32) (suc left * 32) (omega arith),
    )

-- `bitlist_count` counts the set bits of all the elements.
pub count-ones : (bl : Bitlist) → count bl ≡ ones (bit_at bl) 0 (bl.state.max_elems * 32)
unfolding count bit_at
count-ones bl = count_elems_lem bl.bits bl.state.max_elems 0 0 ∙ omega arith

-- On a well-formed list with clear overflow bits, `bitlist_count` is the number of set bits among
-- the `max_bits` bits that have a number.
pub count-ones_trimmed :
    (bl : Bitlist) → IsValid bl → IsTrimmed bl → count bl ≡ ones (bit_at bl) 0 bl.state.max_bits
count-ones_trimmed bl v t =
    let total = bl.state.max_elems * 32 in
    let max = bl.state.max_bits in
    omega (
      arith,
      count-ones bl,
      ones_split (bit_at bl) 0 max (total - max) total (omega (arith, v.elems)),
      ones_none (bit_at bl) (0 + max) (total - max)
          (λ k lo hi. t k (omega arith) (omega (arith, v.elems))),
    )
