-- ===== src/Bitlist/Print/Numbers.antt =====
-- What a search from a number on comes to, for `bitlist_dump`.
use my_test_files.Prelude.{
  ℕ, suc, ◌+◌, ◌-◌, ◌^◌, ◌≤◌, ◌<◌, ◌≡◌, refl, Bool, true, false, ◌&&◌, ltb, arith, Bool-cases, inl,
  inr, ◌⊎◌, lt→ltb, ltb→lt,
}
use my_test_files.Prelude.Word.{sub32}
use my_test_files.Bitlist.{Bitlist, invalid, test}
use my_test_files.Bitlist.Find.{find_after, position_at}
use my_test_files.Bitlist.Find.Laws.{Finds, find_after-Finds, moved, position_at-IsValid}
use my_test_files.Bitlist.View.{bit_at, IsValid, has_bit, test-eq, has_bit_iff}

-- the lists differ in the position of the search at most
unfoldable pub IsSame : Bitlist → Bitlist → Type 0
IsSame bl bl' = (e : ℕ) × (b : ℕ) × (bl' ≡ position_at bl e b)

-- what a search from number `q` on comes to
unfoldable pub Next : Bitlist → ℕ → ℕ → Type 0
Next bl q r =
    (((n : ℕ) → q ≤ n → n < 2 ^ 32 → test bl n ≡ false) × (r ≡ invalid))
    ⊎ ((q ≤ r)
        × (r < bl.state.base_bit + bl.state.max_bits)
        × (test bl r ≡ true)
        × ((n : ℕ) → q ≤ n → n < r → test bl n ≡ false))

-- the test of a number that the list has, and of another one
test_number :
    (bl : Bitlist) (n : ℕ)
    → IsValid bl
    → bl.state.base_bit + bl.state.max_bits < 2 ^ 31
    → bl.state.base_bit ≤ n
    → n < 2 ^ 32
    → test bl n
      ≡ (ltb (n - bl.state.base_bit) bl.state.max_bits && bit_at bl (n - bl.state.base_bit))
test_number bl n v fits lo hi =
    let same : sub32 n bl.state.base_bit ≡ n - bl.state.base_bit = omega (arith, lo, hi) in
    rw (test-eq bl n v) (rw same refl)

and_false : (b : Bool) → (b && false) ≡ false
and_false true = refl
and_false false = refl

pub found :
    (bl : Bitlist) (p : ℕ) (r : Bitlist × ℕ)
    → IsValid bl
    → bl.state.base_bit + bl.state.max_bits < 2 ^ 31
    → Finds bl p r
    → IsSame bl r.0 × Next bl (bl.state.base_bit + p) r.1
unfolding Next IsSame
found bl p r v fits f = (
  (
    r.0.state.last_elem,
    r.0.state.last_bit,
    (λ i. record {
      state = record {
        max_elems = f.max_elems i;
        max_bits = f.max_bits i;
        base_bit = f.base_bit i;
        last_elem = r.0.state.last_elem;
        last_bit = r.0.state.last_bit;
      };
      bits = f.bits i;
    }),
  ),
  elim f.outcome [
    | inl (i, h) ↦
        let small = h.below in
        let offset : bl.state.base_bit + i - bl.state.base_bit ≡ i = omega arith in
        let is_set : test bl (bl.state.base_bit + i) ≡ true =
          rw
            (test_number bl (bl.state.base_bit + i) v fits (omega arith)
              (omega (arith, small, fits)))
            (rw offset (rw (lt→ltb i bl.state.max_bits h.below) (rw (h.is_set) refl))) in
        inr (
          omega (arith, h.number, h.from),
          omega (arith, h.number, h.below),
          rw (h.number) is_set,
          (λ n lo hi.
              rw
                (test_number bl n v fits (omega (arith, lo))
                  (omega (arith, hi, h.number, small, fits)))
                (rw
                  (h.first (n - bl.state.base_bit) (omega (arith, lo))
                    (omega (arith, hi, h.number, lo)))
                  (and_false (ltb (n - bl.state.base_bit) bl.state.max_bits)))),
        )
    | inr h ↦ inl (
      (λ n lo hi.
          rw (test_number bl n v fits (omega (arith, lo)) hi)
            (elim (Bool-cases (ltb (n - bl.state.base_bit) bl.state.max_bits)) [
              | inl lt ↦
                  rw lt
                    (rw (h.clear (n - bl.state.base_bit) (omega (arith, lo)) (ltb→lt _ _ lt)) refl)
              | inr ge ↦ rw ge refl
            ])),
      h.number,
    )
  ],
)

pub again :
    (bl bl' : Bitlist) (n : ℕ)
    → IsValid bl
    → bl.state.base_bit + bl.state.max_bits < 2 ^ 31
    → IsSame bl bl'
    → bl.state.base_bit ≤ n
    → n < bl.state.base_bit + bl.state.max_bits
    → IsSame bl (find_after bl' n).0 × Next bl (suc n) (find_after bl' n).1
unfolding IsSame
again bl bl' n v fits (e, b, same) lo hi =
    let at : Bitlist = position_at bl e b in
    let inside : has_bit bl n ≡ true =
      (has_bit_iff bl n (omega (arith, fits)) (omega (arith, hi, fits))).1 (lo, hi) in
    let finds =
      (find_after-Finds at n (position_at-IsValid bl e b v) (omega (arith, fits))).0 inside in
    let sum : bl.state.base_bit + (sub32 n bl.state.base_bit + 1) ≡ suc n =
      omega (arith, lo, hi, fits) in
    let result =
      found bl (sub32 n bl.state.base_bit + 1) (find_after at n) v fits
        (moved bl e b (sub32 n bl.state.base_bit + 1) (find_after at n) finds) in
    rw same (result.0, rw sum at (result.1))
