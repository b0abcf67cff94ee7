-- ===== src/CircBuffer/Tests.antt =====
-- Circular buffers at concrete inputs: runs of the code, and the theorems applied.
use my_test_files.Prelude.{
  ℕ, ◌+◌, ◌^◌, ◌<◌, ◌≡◌, refl, Bool, true, false, List, [], ◌∷◌, map, if◌then◌else◌, length, get_or,
  Option, none, some, arith, replicate, length-replicate, ◌==◌, subst, zero, suc,
}
use my_test_files.Prelude.Ring.{wrap}
use my_test_files.CircBuffer.{
  Header, cleanup, p_enqueue, free_header, Outcome, enqueue, dequeue, peekqueue, reset,
}
use my_test_files.CircBuffer.Laws.{Represents, IsSame, kept, cleaned}
use my_test_files.CircBuffer.Queue.{locked, enqueue_lem, dequeue_lem, invalid_lem}
use my_test_files.CircBuffer.Drain.{reset_lem}
use my_test_files.CircBuffer.Life.{Action, zeroed, create}
use my_test_files.CircBuffer.Life.Laws.{IsCreated, cleared, allocated, create_lem}

-- a full buffer for two elements that overwrites and cleans up, with the interrupt level raised
abbrev full : Header
full = record {
  buffer = 8 ∷ 0 ∷ 9 ∷ [];
  curr = 1;
  base = 2;
  flags = 2 ^ 15 + 3;
  count = 2;
  max = 3;
  has_cleanup = true;
}

full-Represents : Represents full (9 ∷ 8 ∷ [])
full-Represents = record {
  valid = refl;
  count = refl;
  room = omega arith;
  curr = refl;
  cells = record { size = refl; inside = omega arith; room = omega arith; at = at };
}
  where
    at :
        (i : ℕ)
        → i < 2
        → get_or full.buffer (wrap full.max (full.base + i)) 0 ≡ get_or {A = ℕ} (9 ∷ 8 ∷ []) i 0
    at zero lt = refl
    at (suc zero) lt = refl
    at (suc (suc i)) lt = absurd (omega arith)

-- The oldest element makes room and is cleaned up.
enqueue-full :
    ((enqueue full 7).header.buffer ≡ 8 ∷ 7 ∷ 9 ∷ [])
    × ((enqueue full 7).trace ≡ locked full (cleanup 9 ∷ []))
unfolding enqueue locked
enqueue-full = (refl, refl)

enqueue_lem_example :
    ((enqueue full 7).result ≡ true)
    × Represents (enqueue full 7).header (kept full (9 ∷ 8 ∷ []) 7)
    × IsSame full (enqueue full 7).header
    × ((enqueue full 7).trace ≡ locked full (cleaned full (9 ∷ 8 ∷ []) 7))
enqueue_lem_example = enqueue_lem full (9 ∷ 8 ∷ []) 7 full-Represents

dequeue_lem_example :
    ((dequeue full).result ≡ 9)
    × Represents (dequeue full).header (8 ∷ [])
    × IsSame full (dequeue full).header
    × ((dequeue full).trace ≡ locked full [])
    × ((peekqueue full).result ≡ 9)
    × ((peekqueue full).header ≡ full)
    × ((peekqueue full).trace ≡ locked full [])
dequeue_lem_example = dequeue_lem full (9 ∷ 8 ∷ []) full-Represents

invalid_lem_example :
    (((enqueue zeroed 7).result ≡ false) × ((enqueue zeroed 7).header ≡ zeroed))
    × (((dequeue zeroed).result ≡ 0) × ((dequeue zeroed).header ≡ zeroed))
    × (((peekqueue zeroed).result ≡ 0) × ((peekqueue zeroed).header ≡ zeroed))
invalid_lem_example = invalid_lem zeroed 7 refl

reset_lem_example :
    (r : Outcome Bool) × (reset full ≡ some r)
    × (r.result ≡ true)
    × Represents r.header []
    × IsSame full r.header
    × (r.trace ≡ locked full (map cleanup (9 ∷ 8 ∷ [])))
reset_lem_example = reset_lem full (9 ∷ 8 ∷ []) full-Represents

-- a comparison that matches equal numbers
abbrev compare : ℕ → ℕ → ℕ
compare x y = if x == y then 0 else 1

-- a `malloc` that always gives cells
abbrev zeros : ℕ → Option (List ℕ)
zeros n = some (replicate n 0)

HasLength : ℕ → Option (List ℕ) → Type 0
HasLength n none = Unit {0}
HasLength n (some cells) = length cells ≡ n

allocates : (n : ℕ) (cells : List ℕ) → zeros n ≡ some cells → length cells ≡ n
unfolding HasLength
allocates n cells e = subst (HasLength n) e (length-replicate n 0)

-- a header in memory that has the flag CB_FLAGS_OVERWRITE by chance
abbrev found : Header
found = record zeroed { flags = 1 }

create_lem_example :
    let r = λ (given : Bool). create (some found) zeros given 5 2 false in
    (some found ≡ none → r false ≡ (none, []))
    × (zeros 6 ≡ none
        → (r true ≡ (none, free_header ∷ []))
          × ((start : Header) → some found ≡ some start → r false ≡ (none, free_header ∷ [])))
    × ((cells : List ℕ)
        → zeros 6 ≡ some cells
        → ((h : Header) × (r true ≡ (some h, p_enqueue ∷ [])) × IsCreated cleared 5 2 false h)
          × ((start : Header)
              → some found ≡ some start
              → (h : Header) × (r false ≡ (some h, p_enqueue ∷ []))
                × IsCreated (allocated start) 5 2 false h))
create_lem_example = create_lem (some found) zeros 5 2 false allocates (omega arith)

abbrev numbered : Action
numbered = record { enqueue = 1; dequeue = 2; pqueue = 3; reset = 4; lookup = 5 }

-- a vector with one function
abbrev own : Action
own = record { enqueue = 6; dequeue = 0; pqueue = 0; reset = 0; lookup = 0 }
