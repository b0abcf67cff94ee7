-- ===== src/EventQueue/Laws.antt =====
-- The event queue is a bounded first-in first-out queue, if it has room for two elements.
use my_test_files.Prelude.{
  ℕ, suc, ◌+◌, ◌-◌, ◌≤◌, ◌<◌, ◌≡◌, refl, ◌∙◌, ap, Bool, true, false, List, [], ◌∷◌, ◌++◌, ltb, ◌==◌,
  if◌then◌else◌, get_elem?-eq-get_or, length, length-append, Option, none, some, Bool-cases, inl,
  inr, ◌⊎◌, arith,
}
use my_test_files.Prelude.Ring.{wrap, Holds, Holds-empty, Holds-push, Holds-peek, Holds-pop}
use my_test_files.EventQueue.{
  Queue, new_queue, queue_empty, queue_full, queue_make_empty, queue_create, next_position,
  queue_enqueue, queue_front, queue_dequeue,
}

-- the queue holds the list, oldest element first
pub record Represents (q : Queue) (xs : List ℕ) : Type 0 where
  pub large : 2 ≤ q.capacity
  pub size : q.size ≡ length xs
  pub last : q.rear < q.capacity
  pub tail :
      (if q.rear + 1 == q.capacity then 0 else q.rear + 1) ≡ wrap q.capacity (q.front + q.size)
  pub cells : Holds q.array q.capacity q.front xs

-- what the operations do to the list
abbrev pub enqueued : ℕ → ℕ → List ℕ → List ℕ
enqueued capacity d xs = if length xs == capacity then xs else xs ++ d ∷ []

abbrev pub front_of : List ℕ → ℕ
front_of [] = 0
front_of (x ∷ xs) = x

abbrev pub dequeued : List ℕ → List ℕ
dequeued [] = []
dequeued (x ∷ xs) = xs

abbrev pub is_nil : List ℕ → Bool
is_nil [] = true
is_nil (x ∷ xs) = false

-- `queue_make_empty` empties any queue that has an array of at least two elements.
pub queue_make_empty_lem :
    (q : Queue) → 2 ≤ q.capacity → length q.array ≡ q.capacity → Represents (queue_make_empty q) []
unfolding queue_make_empty
queue_make_empty_lem q large size = record {
  large = large;
  size = refl;
  last = omega arith;
  tail = ground arith;
  cells = Holds-empty q.array q.capacity 1 size (omega arith);
}

-- If both blocks are given, the second with the number of elements that it is asked for, a queue
-- that is created for two or more elements is empty; if one is not, the program exits.
pub queue_create_lem :
    (has_header : Bool) (malloc : ℕ → Option (List ℕ)) (n : ℕ)
    → ((cells : List ℕ) → malloc n ≡ some cells → length cells ≡ n)
    → 2 ≤ n
    → ((cells : List ℕ)
        → has_header ≡ true
        → malloc n ≡ some cells
        → (q : Queue) × (queue_create has_header malloc n ≡ some q)
          × (q.capacity ≡ n)
          × Represents q [])
      × ((has_header ≡ false) ⊎ (malloc n ≡ none) → queue_create has_header malloc n ≡ none)
unfolding queue_create
queue_create_lem has_header malloc n allocates large = (
  λ cells yes given.
      rw (yes, given)
        (
          queue_make_empty (new_queue n cells),
          refl,
          unfold queue_make_empty in refl,
          queue_make_empty_lem (new_queue n cells) large (allocates cells given),
        ),
  λ out. elim out [ inl no_header ↦ rw no_header | inr no_array ↦ rw no_array (ground arith) ],
)

step_lem :
    (capacity front size : ℕ)
    → front < capacity
    → size < capacity
    → let tail = wrap capacity (front + size) in
      (if tail + 1 == capacity then 0 else tail + 1) ≡ wrap capacity (front + (size + 1))
step_lem capacity front size lt room = ground arith

pub queue_enqueue_lem :
    (q : Queue) (xs : List ℕ) (d : ℕ)
    → Represents q xs
    → (q' : Queue) × (queue_enqueue d q ≡ some q')
      × (q'.capacity ≡ q.capacity)
      × Represents q' (enqueued q.capacity d xs)
unfolding queue_enqueue queue_full next_position
queue_enqueue_lem q xs d r = elim (Bool-cases (q.size == q.capacity)) [
  | inl full ↦
      let full' : (length xs == q.capacity) ≡ true = ground (arith, r.size) in
      rw (full, full') (q, refl, refl, r)
  | inr room ↦
      let room' : (length xs == q.capacity) ≡ false = ground (arith, r.size) in
      let lt : length xs < q.capacity = ground (arith, r.cells.room) in
      let tail = wrap q.capacity (q.front + q.size) in
      let inside : ltb tail (length q.array) ≡ true =
        ground (arith, r.cells.size, r.cells.inside, r.size) in
      rw (room, room', r.tail, inside)
        (
          _,
          refl,
          refl,
          record {
            large = r.large;
            size = omega (arith, r.size, length-append xs (d ∷ []));
            last = ground (arith, r.cells.inside, r.size);
            tail = step_lem q.capacity q.front q.size r.cells.inside (omega (arith, r.size));
            cells = rw (r.size) (Holds-push q.array q.capacity q.front xs d r.cells lt);
          },
        )
]

pub queue_front_lem :
    (q : Queue) (xs : List ℕ) → Represents q xs → queue_front q ≡ some (front_of xs)
unfolding queue_front queue_empty
queue_front_lem q [] r = let e : (q.size == 0) ≡ true = ground (arith, r.size) in rw e
queue_front_lem q (x ∷ xs) r =
    let e : (q.size == 0) ≡ false = ground (arith, r.size) in
    let lt : q.front < length q.array = omega (arith, r.cells.size, r.cells.inside) in
    rw (
      e,
      get_elem?-eq-get_or q.array q.front 0 lt,
      Holds-peek q.array q.capacity q.front x xs r.cells,
    )

pop_lem :
    (capacity front size : ℕ)
    → front < capacity
    → suc size ≤ capacity
    → wrap capacity (front + suc size) ≡ wrap capacity (wrap capacity (front + 1) + (suc size - 1))
pop_lem capacity front size lt room = ground arith

pub queue_dequeue_lem :
    (q : Queue) (xs : List ℕ) → Represents q xs → Represents (queue_dequeue q) (dequeued xs)
unfolding queue_dequeue queue_empty next_position
queue_dequeue_lem q [] r = let e : (q.size == 0) ≡ true = ground (arith, r.size) in rw e r
queue_dequeue_lem q (x ∷ xs) r =
    let e : (q.size == 0) ≡ false = ground (arith, r.size) in
    let next : (if q.front + 1 == q.capacity then 0 else q.front + 1)
        ≡ wrap q.capacity (q.front + 1) =
      ground (arith, r.cells.inside) in
    rw (e, next)
      (record {
        large = r.large;
        size = omega (arith, r.size);
        last = r.last;
        tail =
            r.tail
            ∙ (rw (r.size) (pop_lem q.capacity q.front (length xs) r.cells.inside r.cells.room));
        cells = Holds-pop q.array q.capacity q.front x xs r.cells;
      })

queue_empty_lem : (q : Queue) (xs : List ℕ) → Represents q xs → queue_empty q ≡ is_nil xs
unfolding queue_empty
queue_empty_lem q [] r = ground (arith, r.size)
queue_empty_lem q (x ∷ xs) r = ground (arith, r.size)

-- On a queue with room for two or more elements that holds a list, every access is inside the
-- array. `queue_enqueue` appends to the list, or drops the element if the queue is full;
-- `queue_front` gives the oldest element, or NULL; `queue_dequeue` drops it, if there is one; and
-- `queue_empty` and `queue_full` tell whether the list is empty or as long as the capacity.
pub queue_Represents :
    (q : Queue) (xs : List ℕ) (d : ℕ)
    → Represents q xs
    → ((q' : Queue) × (queue_enqueue d q ≡ some q')
        × (q'.capacity ≡ q.capacity)
        × Represents q' (enqueued q.capacity d xs))
      × (queue_front q ≡ some (front_of xs))
      × Represents (queue_dequeue q) (dequeued xs)
      × (queue_empty q ≡ is_nil xs)
      × (queue_full q ≡ (length xs == q.capacity))
queue_Represents q xs d r = (
  queue_enqueue_lem q xs d r,
  queue_front_lem q xs r,
  queue_dequeue_lem q xs r,
  queue_empty_lem q xs r,
  unfold queue_full in ap (λ n. n == q.capacity) r.size,
)
