-- ===== src/CircBuffer/Drain.antt =====
-- The loops over the elements: `cbuf_reset_default` and `cbuf_lookup_default`.
use my_test_files.Prelude.{
  ℕ, zero, suc, ◌+◌, ◌<◌, ◌≡◌, refl, ◌∙◌, Bool, true, false, not, ◌||◌, List, [], ◌∷◌, map, ◌==◌,
  if◌then◌else◌, length, Bool-cases, inl, inr, arith, some,
}
use my_test_files.Prelude.Ring.{wrap, Holds, Holds-empty, Holds-peek, Holds-pop}
use my_test_files.CircBuffer.{Header, cleanup, Outcome, next, walk, find, rewound, reset, lookup}
use my_test_files.CircBuffer.Laws.{Represents, IsSame, base_next, pop_next}
use my_test_files.CircBuffer.Queue.{locked, locked_lem}

-- the first element that matches, or NULL
abbrev pub first_match : (ℕ → ℕ → ℕ) → ℕ → List ℕ → ℕ
first_match func v [] = 0
first_match func v (x ∷ xs) = let rest = first_match func v xs in if func x v == 0 then x else rest

abbrev pub is_nil : List ℕ → Bool
is_nil [] = true
is_nil (x ∷ xs) = false

-- the runner stands at the oldest of the elements that are left
pub record IsAt (h : Header) (runner : ℕ) (xs : List ℕ) : Type 0 where
  pub cells : Holds h.buffer h.max runner xs
  pub room : length xs < h.max
  pub curr : h.curr ≡ wrap h.max (runner + length xs)

IsAt-stop : (h : Header) (runner : ℕ) → IsAt h runner [] → (runner == h.curr) ≡ true
IsAt-stop h runner a = ground (arith, a.curr, a.cells.inside)

IsAt-go :
    (h : Header) (runner x : ℕ) (xs : List ℕ) → IsAt h runner (x ∷ xs) → (runner == h.curr) ≡ false
IsAt-go h runner x xs a = ground (arith, a.curr, a.cells.inside, a.room)

IsAt-next :
    (h : Header) (runner x : ℕ) (xs : List ℕ) → IsAt h runner (x ∷ xs) → IsAt h (next h runner) xs
IsAt-next h runner x xs a = rw (base_next h.max runner a.cells.inside) (record {
  cells = Holds-pop h.buffer h.max runner x xs a.cells;
  room = omega (arith, a.room);
  curr = a.curr ∙ pop_next h.max runner (length xs) a.cells.inside (omega (arith, a.room));
})

-- With one unit of fuel more than there are elements, the loop reads them all, in order.
pub walk_lem :
    (h : Header) (xs : List ℕ) (fuel runner : ℕ)
    → IsAt h runner xs
    → length xs < fuel
    → walk fuel h runner ≡ some xs
unfolding walk
walk_lem h xs zero runner a lt = absurd (omega arith)
walk_lem h [] (suc fuel) runner a lt = rw (IsAt-stop h runner a)
walk_lem h (x ∷ xs) (suc fuel) runner a lt = rw (
  IsAt-go h runner x xs a,
  walk_lem h xs fuel (next h runner) (IsAt-next h runner x xs a) (omega arith),
  Holds-peek h.buffer h.max runner x xs a.cells,
)

find_lem :
    (func : ℕ → ℕ → ℕ) (v : ℕ) (h : Header) (xs : List ℕ) (fuel runner : ℕ)
    → IsAt h runner xs
    → length xs < fuel
    → find fuel func v h runner ≡ some (first_match func v xs)
unfolding find
find_lem func v h xs zero runner a lt = absurd (omega arith)
find_lem func v h [] (suc fuel) runner a lt = rw (IsAt-stop h runner a)
find_lem func v h (x ∷ xs) (suc fuel) runner a lt =
    rw
      (
        IsAt-go h runner x xs a,
        find_lem func v h xs fuel (next h runner) (IsAt-next h runner x xs a) (omega arith),
        Holds-peek h.buffer h.max runner x xs a.cells,
      )
      (elim (Bool-cases (func x v == 0)) [ inl hit ↦ rw hit | inr miss ↦ rw miss ])

pub IsAt-base : (h : Header) (xs : List ℕ) → Represents h xs → IsAt h h.base xs
IsAt-base h xs r = record { cells = r.cells; room = r.room; curr = r.curr }

-- a buffer that holds the list is empty if the list is
pub count-is_nil : (h : Header) (xs : List ℕ) → Represents h xs → (h.count == 0) ≡ is_nil xs
count-is_nil h [] r = ground (arith, r.count)
count-is_nil h (x ∷ xs) r = ground (arith, r.count)

rewound-Represents : (h : Header) (xs : List ℕ) → Represents h xs → Represents (rewound h) []
rewound-Represents h xs r = record {
  valid = r.valid;
  count = refl;
  room = omega (arith, r.room);
  curr = ground (arith, r.room);
  cells = Holds-empty h.buffer h.max 0 r.cells.size (omega (arith, r.room));
}

-- On a valid buffer that holds a list, `cbuf_reset_default` ends, returns TRUE and leaves it
-- empty. It cleans up the elements, oldest first, if there are any and the cleanup function is
-- set, with the interrupt level raised where CB_FLAGS_INTERRUPT_SAFE is set; else it makes no call.
pub reset_lem :
    (h : Header) (xs : List ℕ)
    → Represents h xs
    → (r : Outcome Bool) × (reset h ≡ some r)
      × (r.result ≡ true)
      × Represents r.header []
      × IsSame h r.header
      × (r.trace ≡ (if is_nil xs || not h.has_cleanup then [] else locked h (map cleanup xs)))
unfolding reset
reset_lem h xs r =
    let empty = rewound-Represents h xs r in
    let same : IsSame h (rewound h) = record { flags = refl; max = refl; has_cleanup = refl } in
    rw (r.valid, count-is_nil h xs r, walk_lem h xs h.max h.base (IsAt-base h xs r) r.room)
      (elim (Bool-cases (is_nil xs || not h.has_cleanup)) [
        | inl quick ↦ rw quick (_, refl, refl, empty, same, refl)
        | inr slow ↦ rw slow (_, refl, refl, empty, same, locked_lem h (map cleanup xs))
      ])

-- On a valid buffer that holds a list, `cbuf_lookup_default` ends, gives the oldest element that
-- matches, or NULL, and changes nothing.
pub lookup_lem :
    (func : ℕ → ℕ → ℕ) (v : ℕ) (h : Header) (xs : List ℕ)
    → Represents h xs
    → (r : Outcome ℕ) × (lookup func v h ≡ some r)
      × (r.result ≡ first_match func v xs)
      × (r.header ≡ h)
      × (r.trace ≡ (if is_nil xs then [] else locked h []))
unfolding lookup
lookup_lem func v h [] r = rw (r.valid, count-is_nil h [] r) (_, refl, refl, refl, refl)
lookup_lem func v h (x ∷ xs) r =
    rw
      (
        r.valid,
        count-is_nil h (x ∷ xs) r,
        find_lem func v h (x ∷ xs) h.max h.base (IsAt-base h (x ∷ xs) r) r.room,
      )
      (_, refl, refl, refl, locked_lem h [])
