-- ===== src/Prelude/Memory.antt =====
-- `memset` and `memcpy` on whole array elements.
use Prim.Native.Nat.{ℕ, zero, suc, ◌+◌, ◌-◌, ◌≤◌, ◌<◌}
use mathlib.Core.Path.{◌≡◌, refl, ◌∙◌}
use mathlib.Core.Bool.{◌&&◌}
use mathlib.Core.List.{List}
use native.Mathlib.Omega.{arith}
use my_test_files.Prelude.Tests.{ltb, leb, if◌then◌else◌}
use my_test_files.Prelude.Lists.{length, get_or, set, length-set, get_or-set_self, get_or-set_ne}

-- `n` elements from index `i` on become `v`.
unfoldable pub fill : List ℕ → ℕ → ℕ → ℕ → List ℕ
fill xs i zero v = xs
fill xs i (suc n) v = fill (set xs i v) (i + 1) n v

-- `n` elements of `src` from index `j` on go to `dst` from index `i` on.
unfoldable pub blit : List ℕ → ℕ → List ℕ → ℕ → ℕ → List ℕ
blit dst i src j zero = dst
blit dst i src j (suc n) = blit (set dst i (get_or src j 0)) (i + 1) src (j + 1) n

pub length-fill : (xs : List ℕ) (i n v : ℕ) → length (fill xs i n v) ≡ length xs
unfolding fill
length-fill xs i zero v = refl
length-fill xs i (suc n) v = length-fill (set xs i v) (i + 1) n v ∙ length-set xs i v

pub length-blit :
    (dst : List ℕ) (i : ℕ) (src : List ℕ) (j n : ℕ) → length (blit dst i src j n) ≡ length dst
unfolding blit
length-blit dst i src j zero = refl
length-blit dst i src j (suc n) =
    length-blit (set dst i (get_or src j 0)) (i + 1) src (j + 1) n
    ∙ length-set dst i (get_or src j 0)

pub get_or-fill :
    (xs : List ℕ) (i n v k : ℕ)
    → i + n ≤ length xs
    → get_or (fill xs i n v) k 0 ≡ (if leb i k && ltb k (i + n) then v else get_or xs k 0)
unfolding fill
get_or-fill xs i zero v k h = ground arith
get_or-fill xs i (suc n) v k h =
    get_or-fill (set xs i v) (i + 1) n v k (rw length-set (omega arith))
    ∙ ground (arith, get_or-set_self xs i v 0, get_or-set_ne xs i k v 0)

pub get_or-blit :
    (dst : List ℕ) (i : ℕ) (src : List ℕ) (j n k : ℕ)
    → i + n ≤ length dst
    → get_or (blit dst i src j n) k 0
      ≡ (if leb i k && ltb k (i + n) then get_or src (j + (k - i)) 0 else get_or dst k 0)
unfolding blit
get_or-blit dst i src j zero k h = ground arith
get_or-blit dst i src j (suc n) k h =
    let v = get_or src j 0 in
    get_or-blit (set dst i v) (i + 1) src (j + 1) n k (rw length-set (omega arith))
    ∙ ground (arith, get_or-set_self dst i v 0, get_or-set_ne dst i k v 0, shift)
  where
    shift : i < k → get_or src (j + 1 + (k - (i + 1))) 0 ≡ get_or src (j + (k - i)) 0
    shift lt = let e : j + 1 + (k - (i + 1)) ≡ j + (k - i) = omega arith in rw e
