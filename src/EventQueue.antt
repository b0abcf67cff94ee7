-- ===== src/EventQueue.antt =====
-- inotify-sample/event_queue.c: a queue of pointers in a circular array. A pointer is a number, NULL
-- is 0. An access outside the array is undefined behaviour, and `none` here.
pub mod Laws
pub mod Runs
mod Tests
use my_test_files.Prelude.{
  ℕ, zero, suc, ◌+◌, ◌-◌, Bool, true, false, List, ltb, ◌==◌, if◌then◌else◌, get_elem?, set, length,
  Option, none, some, ◌>>=◌,
}

-- `struct queue_struct`
pub record Queue : Type 0 where
  pub capacity : ℕ
  pub front : ℕ
  pub rear : ℕ
  pub size : ℕ
  pub array : List ℕ

unfoldable pub queue_empty : Queue → Bool
queue_empty q = q.size == 0

pub queue_full : Queue → Bool
queue_full q = q.size == q.capacity

unfoldable pub queue_make_empty : Queue → Queue
queue_make_empty q = record q { size = 0; front = 1; rear = 0 }

-- the queue before it is made empty; the fields that are not set yet are 0
abbrev pub new_queue : ℕ → List ℕ → Queue
new_queue num_elements cells = record {
  capacity = num_elements;
  front = 0;
  rear = 0;
  size = 0;
  array = cells;
}

-- The two calls of `malloc`: whether the first gives a block, and what the second gives for a
-- number of elements. `none` is `exit (-1)`.
pub queue_create : Bool → (ℕ → Option (List ℕ)) → ℕ → Option Queue
unfolding queue_make_empty
queue_create has_header malloc num_elements =
    let created = (do
      cells ← malloc num_elements
      some (queue_make_empty (new_queue num_elements cells))) in
    if has_header then created else none

pub next_position : ℕ → Queue → ℕ
next_position v q = if v + 1 == q.capacity then 0 else v + 1

-- `a[i] = v`
abbrev pub write : List ℕ → ℕ → ℕ → Option (List ℕ)
write a i v = if ltb i (length a) then some (set a i v) else none

pub queue_enqueue : ℕ → Queue → Option Queue
unfolding queue_full next_position
queue_enqueue d q =
    let rear = next_position q.rear q in
    let added = (do
      cells ← write q.array rear d
      some (record q { size = q.size + 1; rear = rear; array = cells })) in
    if queue_full q then some q else added

pub queue_front : Queue → Option ℕ
unfolding queue_empty
queue_front q = if queue_empty q then some 0 else get_elem? q.array q.front

pub queue_dequeue : Queue → Queue
unfolding queue_empty next_position
queue_dequeue q =
    if queue_empty q then q else record q { size = q.size - 1; front = next_position q.front q }
