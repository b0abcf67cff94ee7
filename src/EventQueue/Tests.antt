-- ===== src/EventQueue/Tests.antt =====
-- The event queue at concrete inputs.
use my_test_files.Prelude.{
  ℕ, ◌≡◌, refl, List, [], ◌∷◌, length, replicate, length-replicate, Option, none, some, false,
  arith,
}
use mathlib.Core.Path.{subst}
use my_test_files.EventQueue.{
  Queue, new_queue, queue_empty, queue_make_empty, queue_enqueue, queue_front,
}
use my_test_files.EventQueue.Laws.{Represents, front_of, queue_make_empty_lem}
use my_test_files.EventQueue.Runs.{Call, enqueue, dequeue, run, fifo, run-fifo, front-outside}

-- an empty queue for three elements
abbrev three : Queue
three = new_queue 3 (0 ∷ 0 ∷ 0 ∷ [])

empty-Represents : Represents (queue_make_empty three) []
empty-Represents = queue_make_empty_lem three (omega arith) refl

-- going around the end, and dropping the element that does not fit
abbrev calls : List Call
calls = enqueue 5 ∷ enqueue 6 ∷ dequeue ∷ enqueue 7 ∷ enqueue 8 ∷ enqueue 9 ∷ dequeue ∷ []

fifo-calls : fifo 3 calls [] ≡ 7 ∷ 8 ∷ []
unfolding fifo
fifo-calls = refl

run-fifo_example :
    (q' : Queue) × (run calls (queue_make_empty three) ≡ some q')
    × Represents q' (fifo (queue_make_empty three).capacity calls [])
    × (queue_front q' ≡ some (front_of (fifo (queue_make_empty three).capacity calls [])))
run-fifo_example = run-fifo calls (queue_make_empty three) [] empty-Represents

HasLength : ℕ → Option (List ℕ) → Type 0
HasLength n none = Unit {0}
HasLength n (some cells) = length cells ≡ n

allocates : (n : ℕ) (cells : List ℕ) → some (replicate n 0) ≡ some cells → length cells ≡ n
unfolding HasLength
allocates n cells e = subst (HasLength n) e (length-replicate n 0)

-- a `malloc` that always gives a block
abbrev zeros : ℕ → Option (List ℕ)
zeros n = some (replicate n 0)

front-outside_example :
    (q : Queue) × (queue_enqueue 4 (queue_make_empty (new_queue 1 (0 ∷ []))) ≡ some q)
    × (queue_empty q ≡ false)
    × (queue_front q ≡ none)
front-outside_example = front-outside (0 ∷ []) 4 refl
