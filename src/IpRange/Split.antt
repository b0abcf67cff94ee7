-- ===== src/IpRange/Split.antt =====
-- `split_range` covers a range exactly.
use my_test_files.Prelude.{
  ℕ, zero, suc, ◌+◌, ◌-◌, ◌^◌, ◌≤◌, ◌<◌, ◌≡◌, refl, sym, ◌∙◌, true, false, ◌&&◌, List, [], ◌∷◌,
  ◌++◌, ltb, ◌==◌, Bool-cases, inl, inr, arith, Option, some, ◌>>=◌,
}
use native.Mathlib.Nat.{pow-suc, one-le-pow}
use my_test_files.IpRange.{broadcast, split_range}
use my_test_files.IpRange.Align.{
  IsAligned, IsAligned-weaken, IsAligned-upper, broadcast_lem, set_bit_lem,
}

-- the blocks, each an aligned address with a prefix of at most 32, follow each other without gap
-- or overlap from `lo` on, and `next` is the first address after them
abbrev pub Tiles : ℕ → List (ℕ × ℕ) → ℕ → Type 0
Tiles lo [] next = lo ≡ next
Tiles lo (block ∷ rest) next =
    (block.0 ≡ lo)
    × (block.1 ≤ 32)
    × IsAligned (32 - block.1) block.0
    × Tiles (block.0 + 2 ^ (32 - block.1)) rest next

Tiles-append :
    (xs ys : List (ℕ × ℕ)) (lo mid next : ℕ)
    → Tiles lo xs mid
    → Tiles mid ys next
    → Tiles lo (xs ++ ys) next
Tiles-append [] ys lo mid next h k = rw h k
Tiles-append (x ∷ xs) ys lo mid next (a, b, c, d) k =
    (a, b, c, Tiles-append xs ys (x.0 + 2 ^ (32 - x.1)) mid next d k)

-- what a call gives
Covers : ℕ → ℕ → Option (List (ℕ × ℕ)) → Type 0
Covers lo hi o = (blocks : List (ℕ × ℕ)) × (o ≡ some blocks) × Tiles lo blocks (hi + 1)

-- one block
Covers_one :
    (k p a lo hi : ℕ)
    → p + k ≡ 32
    → IsAligned k a
    → lo ≡ a
    → hi ≡ a + (2 ^ k - 1)
    → Covers lo hi (some ((a, p) ∷ []))
unfolding Covers
Covers_one k p a lo hi e h l r =
    let z : 32 - p ≡ k = omega arith in
    ((a, p) ∷ [], refl, (sym l, omega arith, rw z h, rw z (omega (arith, one-le-pow k 2))))

-- two halves
Covers-both :
    (lo mid hi : ℕ) (x y : Option (List (ℕ × ℕ)))
    → Covers lo mid x
    → Covers (mid + 1) hi y
    → Covers lo hi (x >>= (λ xs. y >>= (λ ys. some (xs ++ ys))))
unfolding Covers
Covers-both lo mid hi x y (xs, e, h) (ys, e', h') =
    rw (e, e') (xs ++ ys, refl, Tiles-append xs ys lo (mid + 1) (hi + 1) h h')

-- what a call for a block of 2 ^ k addresses needs
record IsInside (k p a lo hi : ℕ) : Type 0 where
  prefix : p + k ≡ 32
  aligned : IsAligned k a
  low : a ≤ lo
  order : lo ≤ hi
  high : hi ≤ a + (2 ^ k - 1)

step :
    (left k p a lo hi : ℕ)
    → ((p a lo hi : ℕ) → IsInside k p a lo hi → Covers lo hi (split_range left a p lo hi))
    → IsInside (suc k) p a lo hi
    → Covers lo hi (split_range (suc left) a p lo hi)
unfolding split_range
step left k p a lo hi ih i =
    let bc = broadcast_lem (suc k) p a i.prefix i.aligned in
    let upper = set_bit_lem k p a i.prefix i.aligned in
    let next : p + 1 + k ≡ 32 = omega (arith, i.prefix) in
    let aligned = IsAligned-weaken k a i.aligned in
    let lower_bc = broadcast_lem k (p + 1) a next aligned in
    let mask : ltb 32 p ≡ false = ground (arith, i.prefix) in
    let low : ltb lo a ≡ false = ground (arith, i.low) in
    let high : ltb (a + (2 ^ suc k - 1)) hi ≡ false = ground (arith, i.high) in
    let facts = pow-suc 2 k in
    let one = one-le-pow k 2 in
    rw (bc, upper, lower_bc, mask, low, high)
      (elim (Bool-cases (lo == a && hi == a + (2 ^ suc k - 1))) [
        | inl whole ↦
            rw whole (Covers_one (suc k) p a lo hi i.prefix i.aligned (ground arith) (ground arith))
        | inr part ↦ rw part (elim (Bool-cases (ltb hi (a + 2 ^ k))) [
          | inl in_lower ↦ rw in_lower (
              ih (p + 1) a lo hi (record {
                prefix = next;
                aligned = aligned;
                low = i.low;
                order = i.order;
                high = ground (arith, one);
              }))
          | inr above ↦ rw above (elim (Bool-cases (ltb lo (a + 2 ^ k))) [
            | inr in_upper ↦ rw in_upper (
                ih (p + 1) (a + 2 ^ k) lo hi (record {
                  prefix = next;
                  aligned = IsAligned-upper k a i.aligned;
                  low = ground arith;
                  order = i.order;
                  high = omega (arith, i.high, facts, one);
                }))
            | inl split ↦
                let mid = a + (2 ^ k - 1) in
                let e : mid + 1 ≡ a + 2 ^ k = omega (arith, one) in
                let first = ih (p + 1) a lo mid (record {
                  prefix = next;
                  aligned = aligned;
                  low = i.low;
                  order = ground (arith, one);
                  high = omega arith;
                }) in
                let second = ih (p + 1) (a + 2 ^ k) (a + 2 ^ k) hi (record {
                  prefix = next;
                  aligned = IsAligned-upper k a i.aligned;
                  low = omega arith;
                  order = ground arith;
                  high = omega (arith, i.high, facts, one);
                }) in
                rw split (Covers-both lo mid hi _ _ first (rw e second))
          ])
        ])
      ])

single : (p a lo hi : ℕ) → IsInside 0 p a lo hi → Covers lo hi (split_range 1 a p lo hi)
unfolding split_range
single p a lo hi i =
    let bc : broadcast a p ≡ a = broadcast_lem 0 p a i.prefix tt ∙ omega arith in
    let mask : ltb 32 p ≡ false = ground (arith, i.prefix) in
    let l : lo ≡ a = omega (arith, i.low, i.order, i.high) in
    let r : hi ≡ a = omega (arith, i.low, i.order, i.high) in
    let same : (a == a) ≡ true = ground arith in
    let less : ltb a a ≡ false = ground arith in
    rw (bc, l, r, mask, same, less) (Covers_one 0 p a a a i.prefix tt refl (omega arith))

covers : (k p a lo hi : ℕ) → IsInside k p a lo hi → Covers lo hi (split_range (suc k) a p lo hi)
covers zero p a lo hi i = single p a lo hi i
covers (suc k) p a lo hi i = step (suc k) k p a lo hi (covers k) i

zero-IsAligned : (k : ℕ) → IsAligned k 0
zero-IsAligned zero = tt
zero-IsAligned (suc k) = (refl, zero-IsAligned k)

-- The call that the program makes for a range from `lo` to `hi` never exits: it prints blocks that
-- are aligned, have prefixes of at most 32 and follow each other without gap or overlap from `lo`
-- to `hi`.
pub split_range_lem :
    (lo hi : ℕ)
    → lo ≤ hi
    → hi < 2 ^ 32
    → (blocks : List (ℕ × ℕ)) × (split_range 33 0 0 lo hi ≡ some blocks) × Tiles lo blocks (hi + 1)
split_range_lem lo hi le lt =
    unfold Covers in
    covers 32 0 0 lo hi (record {
      prefix = refl;
      aligned = zero-IsAligned 32;
      low = omega arith;
      order = le;
      high = omega arith;
    })
