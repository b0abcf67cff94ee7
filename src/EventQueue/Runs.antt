-- ===== src/EventQueue/Runs.antt =====
-- Any sequence of operations on an event queue, and the queue with one element.
use my_test_files.Prelude.{
  ℕ, ◌≡◌, refl, List, [], ◌∷◌, ltb, get_elem?-eq-none, set, length, length-set, Option, none, some,
  ◌>>=◌, true, false, arith,
}
use my_test_files.EventQueue.{
  Queue, new_queue, queue_empty, queue_full, queue_make_empty, next_position, queue_enqueue,
  queue_front, queue_dequeue,
}
use my_test_files.EventQueue.Laws.{
  Represents, enqueued, front_of, dequeued, queue_make_empty_lem, queue_enqueue_lem,
  queue_front_lem, queue_dequeue_lem,
}

-- a call that changes the queue
pub data Call : Type 0 where
  enqueue : ℕ → Call
  dequeue : Call
  make_empty : Call

step : Call → Queue → Option Queue
step (enqueue d) q = queue_enqueue d q
step dequeue q = some (queue_dequeue q)
step make_empty q = some (queue_make_empty q)

-- the calls from first to last
pub run : List Call → Queue → Option Queue
unfolding step
run [] q = some q
run (c ∷ cs) q = do q' ← step c q; run cs q'

-- what a bounded first-in first-out queue makes of them
unfoldable pub fifo : ℕ → List Call → List ℕ → List ℕ
fifo capacity [] xs = xs
fifo capacity (enqueue d ∷ cs) xs = fifo capacity cs (enqueued capacity d xs)
fifo capacity (dequeue ∷ cs) xs = fifo capacity cs (dequeued xs)
fifo capacity (make_empty ∷ cs) xs = fifo capacity cs []

pub capacity-dequeue : (q : Queue) → (queue_dequeue q).capacity ≡ q.capacity
unfolding queue_dequeue
capacity-dequeue q = ground arith

capacity-make_empty : (q : Queue) → (queue_make_empty q).capacity ≡ q.capacity
unfolding queue_make_empty
capacity-make_empty q = refl

-- Any sequence of calls on a queue with room for two or more elements that holds a list runs
-- without an access outside the array, and ends in a queue that holds what a bounded first-in
-- first-out queue makes of the list, and gives its oldest element, or NULL, as its front.
pub run-fifo :
    (cs : List Call) (q : Queue) (xs : List ℕ)
    → Represents q xs
    → (q' : Queue) × (run cs q ≡ some q')
      × Represents q' (fifo q.capacity cs xs)
      × (queue_front q' ≡ some (front_of (fifo q.capacity cs xs)))
unfolding run fifo queue_dequeue queue_make_empty
run-fifo [] q xs r = (q, refl, r, queue_front_lem q xs r)
run-fifo (enqueue d ∷ cs) q xs r =
    let (q', e, same, r') = queue_enqueue_lem q xs d r in
    rw e (rw same at (run-fifo cs q' (enqueued q.capacity d xs) r'))
run-fifo (dequeue ∷ cs) q xs r =
    rw (capacity-dequeue q) at
      (run-fifo cs (queue_dequeue q) (dequeued xs) (queue_dequeue_lem q xs r))
run-fifo (make_empty ∷ cs) q xs r =
    rw (capacity-make_empty q) at
      (run-fifo cs (queue_make_empty q) [] (queue_make_empty_lem q r.large r.cells.size))

-- In a queue that is made for one element, the front of a queue with an element is outside the
-- array: `queue_make_empty` sets it to 1.
pub front-outside :
    (cells : List ℕ) (d : ℕ)
    → length cells ≡ 1
    → (q : Queue) × (queue_enqueue d (queue_make_empty (new_queue 1 cells)) ≡ some q)
      × (queue_empty q ≡ false)
      × (queue_front q ≡ none)
unfolding queue_make_empty queue_enqueue queue_full next_position queue_front queue_empty
front-outside cells d e =
    let inside : ltb 0 (length cells) ≡ true = ground (arith, e) in
    rw (inside)
      (_, refl, refl, get_elem?-eq-none (set cells 0 d) 1 (omega (arith, length-set cells 0 d)))
