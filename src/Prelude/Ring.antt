-- ===== src/Prelude/Ring.antt =====
-- Circular arrays: which list the cells from one index on hold, going around at the end.
use Prim.Native.Nat.{ℕ, suc, ◌+◌, ◌-◌, ◌≤◌, ◌<◌}
use mathlib.Core.Path.{◌≡◌, ◌∙◌}
use mathlib.Core.Logic.{◌≢◌, inl, inr}
use mathlib.Core.List.{List, [], ◌∷◌, ◌++◌}
use native.Mathlib.Omega.{arith}
use my_test_files.Prelude.Tests.{ltb, ◌==◌, if◌then◌else◌, Bool-cases}
use my_test_files.Prelude.Lists.{
  length, get_or, set, length-set, length-append, get_or-set_self, get_or-set_ne, get_or-append,
  get_or-append_last,
}

-- an index below twice the capacity, brought back below it
abbrev pub wrap : ℕ → ℕ → ℕ
wrap capacity i = if ltb i capacity then i else i - capacity

wrap_ne :
    (capacity front i j : ℕ)
    → front < capacity
    → i < j
    → j < capacity
    → wrap capacity (front + j) ≢ wrap capacity (front + i)
wrap_ne capacity front i j lt less inside = ground arith

-- the cells from `front` on hold the list
pub record Holds (cells : List ℕ) (capacity front : ℕ) (xs : List ℕ) : Type 0 where
  pub size : length cells ≡ capacity
  pub inside : front < capacity
  pub room : length xs ≤ capacity
  pub at : (i : ℕ) → i < length xs → get_or cells (wrap capacity (front + i)) 0 ≡ get_or xs i 0

pub Holds-empty :
    (cells : List ℕ) (capacity front : ℕ)
    → length cells ≡ capacity
    → front < capacity
    → Holds cells capacity front []
Holds-empty cells capacity front size lt = record {
  size = size;
  inside = lt;
  room = omega arith;
  at = λ i out. absurd (omega arith);
}

module _ (cells : List ℕ) (capacity front : ℕ) where
  pub Holds-push :
      (xs : List ℕ) (v : ℕ)
      → Holds cells capacity front xs
      → length xs < capacity
      → Holds (set cells (wrap capacity (front + length xs)) v) capacity front (xs ++ v ∷ [])
  Holds-push xs v h less =
      let tail = wrap capacity (front + length xs) in
      let n : length (xs ++ v ∷ []) ≡ length xs + 1 = length-append xs (v ∷ []) in
      record {
        size = length-set cells tail v ∙ h.size;
        inside = h.inside;
        room = omega (arith, n);
        at = λ i le. elim (Bool-cases (i == length xs)) [
          | inl last ↦
              let e : i ≡ length xs = ground arith in
              rw (e, get_or-append_last)
                (get_or-set_self cells tail v 0 (ground (arith, h.size, h.inside)))
          | inr before ↦
              let lt : i < length xs = ground (arith, n) in
              get_or-set_ne cells tail (wrap capacity (front + i)) v 0
                (wrap_ne capacity front i (length xs) h.inside lt less)
              ∙ h.at i lt
              ∙ rw (get_or-append xs i v 0 lt)
        ];
      }

  pub Holds-peek :
      (x : ℕ) (xs : List ℕ) → Holds cells capacity front (x ∷ xs) → get_or cells front 0 ≡ x
  Holds-peek x xs h =
      let e : wrap capacity (front + 0) ≡ front = ground (arith, h.inside) in
      rw e at (h.at 0 (omega arith))

  pub Holds-pop :
      (x : ℕ) (xs : List ℕ)
      → Holds cells capacity front (x ∷ xs)
      → Holds cells capacity (wrap capacity (front + 1)) xs
  Holds-pop x xs h = record {
    size = h.size;
    inside = ground (arith, h.inside);
    room = omega (arith, h.room);
    at = λ i lt.
        let e : wrap capacity (wrap capacity (front + 1) + i) ≡ wrap capacity (front + suc i) =
          ground (arith, h.inside, h.room) in
        rw e (h.at (suc i) (omega arith));
  }
