-- ===== src/CircBuffer/Laws.antt =====
-- A circular buffer is a bounded first-in first-out queue of one element less than its cells.
use my_test_files.Prelude.{
  ℕ, suc, ◌+◌, ◌≤◌, ◌<◌, ◌≡◌, ◌∙◌, true, false, ◌&&◌, List, [], ◌∷◌, ◌++◌, leb, ◌==◌, if◌then◌else◌,
  get_or, length, length-append, arith,
}
use my_test_files.Prelude.Ring.{wrap, Holds, Holds-push, Holds-peek, Holds-pop}
use my_test_files.CircBuffer.{
  Header, Event, cleanup, flag_valid, flag_overwrite, has_flag, store, advance, put,
}

abbrev pub head : List ℕ → ℕ
head [] = 0
head (x ∷ xs) = x

abbrev pub tail : List ℕ → List ℕ
tail [] = []
tail (x ∷ xs) = xs

-- the header is valid and holds the list, oldest element first
pub record Represents (h : Header) (xs : List ℕ) : Type 0 where
  pub valid : has_flag h.flags flag_valid ≡ true
  pub count : h.count ≡ length xs
  pub room : length xs < h.max
  pub curr : h.curr ≡ wrap h.max (h.base + length xs)
  pub cells : Holds h.buffer h.max h.base xs

-- no field changes but those that the operations write
pub record IsSame (h h' : Header) : Type 0 where
  pub flags : h'.flags ≡ h.flags
  pub max : h'.max ≡ h.max
  pub has_cleanup : h'.has_cleanup ≡ h.has_cleanup

pub push_next :
    (max base n : ℕ)
    → base < max
    → n < max
    → (if leb max (wrap max (base + n) + 1) then 0 else wrap max (base + n) + 1)
      ≡ wrap max (base + (n + 1))
push_next max base n lt room = ground arith

pub base_next :
    (max base : ℕ) → base < max → (if leb max (base + 1) then 0 else base + 1) ≡ wrap max (base + 1)
base_next max base lt = ground arith

pub pop_next :
    (max base n : ℕ)
    → base < max
    → suc n ≤ max
    → wrap max (base + suc n) ≡ wrap max (wrap max (base + 1) + n)
pop_next max base n lt room = ground arith

-- the list that is left, and what is cleaned up
abbrev pub kept : Header → List ℕ → ℕ → List ℕ
kept h xs v =
    if length xs + 1 == h.max
    then (if has_flag h.flags flag_overwrite then tail (xs ++ v ∷ []) else xs)
    else xs ++ v ∷ []

abbrev pub cleaned : Header → List ℕ → ℕ → List Event
cleaned h xs v =
    if (length xs + 1 == h.max) && has_flag h.flags flag_overwrite && h.has_cleanup
    then cleanup (head (xs ++ v ∷ [])) ∷ []
    else []

length-tail : (xs : List ℕ) → 0 < length xs → length (tail xs) + 1 ≡ length xs
length-tail [] h = absurd (omega arith)
length-tail (x ∷ xs) h = omega arith

Holds-tail :
    (cells : List ℕ) (max base : ℕ) (xs : List ℕ)
    → 0 < length xs
    → Holds cells max base xs
    → Holds cells max (wrap max (base + 1)) (tail xs)
Holds-tail cells max base [] h holds = absurd (omega arith)
Holds-tail cells max base (x ∷ xs) h holds = Holds-pop cells max base x xs holds

head_lem :
    (cells : List ℕ) (max base : ℕ) (xs : List ℕ)
    → 0 < length xs
    → Holds cells max base xs
    → get_or cells base 0 ≡ head xs
head_lem cells max base [] h holds = absurd (omega arith)
head_lem cells max base (x ∷ xs) h holds = Holds-peek cells max base x xs holds

-- removing the oldest element of what a header holds
module _ (h : Header) (xs : List ℕ) (valid : has_flag h.flags flag_valid ≡ true)
    (count : h.count ≡ length xs) (curr : h.curr ≡ wrap h.max (h.base + length xs))
    (cells : Holds h.buffer h.max h.base xs) (some_left : 0 < length xs) where
  pub advance-Represents : Represents (advance h) (tail xs)
  advance-Represents =
      let n = length-tail xs some_left in
      let size : length xs ≡ suc (length (tail xs)) = omega arith in
      record {
        valid = valid;
        count = omega (arith, count);
        room = omega (arith, cells.room);
        curr = rw (base_next h.max h.base cells.inside) (
            curr
            ∙ rw size (
                pop_next h.max h.base (length (tail xs)) cells.inside (omega (arith, cells.room))));
        cells =
            rw (base_next h.max h.base cells.inside)
              (Holds-tail h.buffer h.max h.base xs some_left cells);
      }

module _ (h : Header) (xs : List ℕ) (r : Represents h xs) (v : ℕ) where
  pub grown : length (xs ++ v ∷ []) ≡ length xs + 1
  grown = length-append xs (v ∷ [])

  cells-store : Holds (store h v).buffer h.max h.base (xs ++ v ∷ [])
  cells-store = rw (r.curr) (Holds-push h.buffer h.max h.base xs v r.cells r.room)

  curr-store : (store h v).curr ≡ wrap h.max (h.base + (length xs + 1))
  curr-store = rw (r.curr) (push_next h.max h.base (length xs) r.cells.inside r.room)

  pub put_keep : length xs + 1 < h.max → put h v ≡ (store h v, [])
  unfolding put
  put_keep room =
      let e : ((store h v).curr == h.base) ≡ false = ground (arith, curr-store, r.cells.inside) in
      rw e

  pub store-Represents : length xs + 1 < h.max → Represents (store h v) (xs ++ v ∷ [])
  store-Represents room = record {
    valid = r.valid;
    count = omega (arith, grown, r.count);
    room = omega (arith, grown);
    curr = rw grown curr-store;
    cells = cells-store;
  }

  pub put_drop :
      length xs + 1 ≡ h.max
      → put h v
        ≡ (advance (store h v), if h.has_cleanup then cleanup (head (xs ++ v ∷ [])) ∷ [] else [])
  unfolding put
  put_drop full =
      let e : ((store h v).curr == h.base) ≡ true = ground (arith, curr-store, r.cells.inside) in
      let first =
        head_lem (store h v).buffer h.max h.base (xs ++ v ∷ []) (omega (arith, grown))
          cells-store in
      rw (e, first)

  pub drop-Represents :
      length xs + 1 ≡ h.max → Represents (advance (store h v)) (tail (xs ++ v ∷ []))
  drop-Represents full =
      advance-Represents (store h v) (xs ++ v ∷ []) r.valid (omega (arith, grown, r.count))
        (rw grown curr-store) cells-store (omega (arith, grown))
