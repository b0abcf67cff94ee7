-- ===== src/Bitlist/Find/Laws.antt =====
-- `bitlist_find_first`, `bitlist_find_next` and `bitlist_find_after` find the first set bit from
-- where they start, and leave the position there.
use my_test_files.Prelude.{
  ℕ, ◌+◌, ◌-◌, ◌*◌, ◌/◌, ◌%◌, ◌^◌, ◌≤◌, ◌<◌, ◌≡◌, refl, true, false, arith, leb, Bool-cases, inl,
  inr, ◌⊎◌,
}
use my_test_files.Prelude.Word.{sub32}
use my_test_files.Prelude.Bits.{bit_and_low}
use my_test_files.Bitlist.{Bitlist, invalid}
use my_test_files.Bitlist.View.{bit_at, IsValid, has_bit, valid_bit_iff_lt}
use my_test_files.Bitlist.Find.{finish, find_first, find_next, find_after, position_at}
use my_test_files.Bitlist.Find.Scan.{IsFirst, scan_lem}

-- `i` is the first set bit from `p` on; its number is returned and it is the new position
pub record IsFound (bl : Bitlist) (p i : ℕ) (r : Bitlist × ℕ) : Type 0 where
  pub from : p ≤ i
  pub below : i < bl.state.max_bits
  pub is_set : bit_at bl i ≡ true
  pub first : (j : ℕ) → p ≤ j → j < i → bit_at bl j ≡ false
  pub number : r.1 ≡ bl.state.base_bit + i
  pub elem : r.0.state.last_elem ≡ i / 32
  pub bit : r.0.state.last_bit ≡ i % 32

-- no bit from `p` on is set; BITLIST_INVALID is returned and the position is past the end
pub record IsExhausted (bl : Bitlist) (p : ℕ) (r : Bitlist × ℕ) : Type 0 where
  pub clear : (j : ℕ) → p ≤ j → j < bl.state.max_bits → bit_at bl j ≡ false
  pub number : r.1 ≡ invalid
  pub past : bl.state.max_elems ≤ r.0.state.last_elem

-- what a search from bit `p` on returns: it changes the position only
pub record Finds (bl : Bitlist) (p : ℕ) (r : Bitlist × ℕ) : Type 0 where
  pub bits : r.0.bits ≡ bl.bits
  pub max_elems : r.0.state.max_elems ≡ bl.state.max_elems
  pub max_bits : r.0.state.max_bits ≡ bl.state.max_bits
  pub base_bit : r.0.state.base_bit ≡ bl.state.base_bit
  pub outcome : ((i : ℕ) × IsFound bl p i r) ⊎ IsExhausted bl p r

module _ (bl : Bitlist) (v : IsValid bl)
    (fits : bl.state.base_bit + bl.state.max_bits < 2 ^ 32) where
  finish_lem :
      (p : ℕ) (at : ℕ × ℕ) → IsFirst bl.bits bl.state.max_elems p at → Finds bl p (finish bl at)
  unfolding finish bit_at
  finish_lem p (elem, bit) f = elim (Bool-cases (leb bl.state.max_elems elem)) [
    | inl end ↦ rw end (record {
      bits = refl;
      max_elems = refl;
      max_bits = refl;
      base_bit = refl;
      outcome = inr (record {
        clear = λ j lo hi. f.clear j lo (ground (arith, v.elems)) (omega (arith, v.elems));
        number = refl;
        past = ground arith;
      });
    })
    | inr inside ↦ rw inside (elim (Bool-cases (leb bl.state.max_bits (elem * 32 + bit))) [
      | inl over ↦ rw over (record {
        bits = refl;
        max_elems = refl;
        max_bits = refl;
        base_bit = refl;
        outcome = inr (record {
          clear = λ j lo hi. f.clear j lo (ground arith) (omega (arith, v.elems));
          number = refl;
          past = omega arith;
        });
      })
      | inr below ↦
          let small = f.digit_in (ground arith) in
          rw below (record {
            bits = refl;
            max_elems = refl;
            max_bits = refl;
            base_bit = refl;
            outcome = inl (
              elem * 32 + bit,
              record {
                from = f.from;
                below = ground arith;
                is_set = f.is_set (ground arith);
                first = λ j lo hi. f.clear j lo hi (ground (arith, v.elems));
                number = ground arith;
                elem = omega arith;
                bit = omega arith;
              },
            );
          })
    ])
  ]

  -- On a well-formed list whose numbers stay below 2 ^ 32 - 1, `bitlist_find_first` returns the
  -- number of the first set bit and stands there, or BITLIST_INVALID if no bit is set. It changes
  -- nothing but the position.
  pub find_first-Finds : Finds bl 0 (find_first bl)
  unfolding find_first
  find_first-Finds =
      finish_lem 0 _
        (scan_lem bl.bits bl.state.max_elems bl.state.max_elems 0 0 (omega arith) (omega arith))

  -- `bitlist_find_next` does so for the bits after the position, wherever that stands.
  pub find_next-Finds :
      bl.state.last_bit < 32
      → Finds bl (bl.state.last_elem * 32 + (bl.state.last_bit + 1)) (find_next bl)
  unfolding find_next
  find_next-Finds h =
      let elem = bl.state.last_elem in
      let elems = bl.state.max_elems in
      elim (Bool-cases (leb elems elem)) [
        | inl end ↦ rw end (record {
          bits = refl;
          max_elems = refl;
          max_bits = refl;
          base_bit = refl;
          outcome = inr (record {
            clear = λ j lo hi. absurd (ground (arith, v.elems));
            number = refl;
            past = ground arith;
          });
        })
        | inr more ↦ rw more (
            finish_lem (elem * 32 + (bl.state.last_bit + 1)) _ (
              scan_lem bl.bits elems (elems - elem) elem (bl.state.last_bit + 1) (ground arith)
                (omega arith)))
      ]

-- Where a search starts from does not show in what it finds.
pub moved :
    (bl : Bitlist) (e b p : ℕ) (r : Bitlist × ℕ) → Finds (position_at bl e b) p r → Finds bl p r
unfolding bit_at
moved bl e b p r f = record {
  bits = f.bits;
  max_elems = f.max_elems;
  max_bits = f.max_bits;
  base_bit = f.base_bit;
  outcome = elim f.outcome [
    | inl (i, h) ↦ inl (
      i,
      record {
        from = h.from;
        below = h.below;
        is_set = h.is_set;
        first = h.first;
        number = h.number;
        elem = h.elem;
        bit = h.bit;
      },
    )
    | inr h ↦ inr (record { clear = h.clear; number = h.number; past = h.past })
  ];
}

pub position_at-IsValid : (bl : Bitlist) (e b : ℕ) → IsValid bl → IsValid (position_at bl e b)
position_at-IsValid bl e b v = record {
  elems = v.elems;
  room = v.room;
  small = v.small;
  base = v.base;
  words = v.words;
}

-- `bitlist_find_after` of a number that the list has finds the first set bit after it, in the
-- sense of `Finds`. Of any other number it returns BITLIST_INVALID and leaves the list alone.
pub find_after-Finds :
    (bl : Bitlist) (bit : ℕ)
    → IsValid bl
    → bl.state.base_bit + bl.state.max_bits < 2 ^ 32
    → (has_bit bl bit ≡ true → Finds bl (sub32 bit bl.state.base_bit + 1) (find_after bl bit))
      × (has_bit bl bit ≡ false → find_after bl bit ≡ (bl, invalid))
unfolding find_after find_next
find_after-Finds bl bit v fits =
    let b = sub32 bit bl.state.base_bit in
    rw (valid_bit_iff_lt bl b v, bit_and_low b)
      (
        λ has.
            let start = position_at bl (b / 32) (b % 32) in
            let p : b / 32 * 32 + (b % 32 + 1) ≡ b + 1 = omega arith in
            rw has (
              moved bl (b / 32) (b % 32) (b + 1) _ (
                rw p at (
                  find_next-Finds start (position_at-IsValid bl (b / 32) (b % 32) v) fits
                    (omega arith)))),
        λ out. rw out,
      )

-- On a well-formed list whose numbers stay below 2 ^ 32 - 1, and whose `last_bit` is below
-- 32, `bitlist_find_first` finds the first
-- set bit, `bitlist_find_next` the first one after the position, wherever that stands, and
-- `bitlist_find_after` the first one after a number that the list has. Each returns the number of
-- the bit and stands there, or BITLIST_INVALID if there is none, and changes nothing but the
-- position. After a number that the list does not have, BITLIST_INVALID is returned and nothing
-- changes.
pub find_lem :
    (bl : Bitlist) (bit : ℕ)
    → IsValid bl
    → bl.state.base_bit + bl.state.max_bits < 2 ^ 32
    → bl.state.last_bit < 32
    → Finds bl 0 (find_first bl)
      × Finds bl (bl.state.last_elem * 32 + (bl.state.last_bit + 1)) (find_next bl)
      × (has_bit bl bit ≡ true → Finds bl (sub32 bit bl.state.base_bit + 1) (find_after bl bit))
      × (has_bit bl bit ≡ false → find_after bl bit ≡ (bl, invalid))
find_lem bl bit v fits h =
    let (hit, miss) = find_after-Finds bl bit v fits in
    (find_first-Finds bl v fits, find_next-Finds bl v fits h, hit, miss)
