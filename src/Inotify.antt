-- ===== src/Inotify.antt =====
-- inotify-sample/inotify_utils.c: events are read from a descriptor into the event queue and then
-- reported. A pointer into the buffer is the bytes from there on, numbers are little-endian and
-- `size_t` has 64 bits. An event that `malloc` gave is a place in `heap`, which grows, and its
-- pointer is that place plus 1. A report stands for what is printed. What `read` and `select` return
-- is given. `none` is an access outside the buffer, the heap or the array of the queue.
pub mod Format
pub mod Message
pub mod Pending
pub mod Reading
pub mod Flow
mod Tests
use my_test_files.Prelude.{
  ℕ, zero, suc, ◌+◌, ◌-◌, ◌*◌, Bool, true, false, List, [], ◌∷◌, ◌++◌, length, get_elem?, ◌==◌,
  if◌then◌else◌, Option, none, some, ◌>>=◌,
}
use my_test_files.EventQueue.{Queue, queue_empty, queue_enqueue, queue_front, queue_dequeue}

-- `struct inotify_event`, with the `len` bytes of `filename`; `wd` is given by its 32 bits
pub record Event : Type 0 where
  pub wd : ℕ
  pub mask : ℕ
  pub cookie : ℕ
  pub len : ℕ
  pub filename : List ℕ

-- what a message tells
pub data Kind : Type 0 where
  access : Kind
  modify : Kind
  attrib : Kind
  close : Kind
  open_file : Kind
  moved_from : Kind
  moved_to : Kind
  delete_subdir : Kind
  delete_file : Kind
  create_subdir : Kind
  create_file : Kind
  delete_self : Kind
  unmount : Kind
  q_overflow : Kind
  ignored : Kind
  unknown : Kind

-- `cur_event_filename`, `none` for NULL, and `cur_event_wd`; the messages of an overflow and of
-- an ignored event name neither
pub record Report : Type 0 where
  pub kind : Kind
  pub filename : Option (List ℕ)
  pub wd : ℕ

-- the values of the masks, in the order of the `switch`; IN_CLOSE is two bits
abbrev pub cases : List (ℕ × Kind)
cases =
    (0x1, access)
    ∷ (0x2, modify)
    ∷ (0x4, attrib)
    ∷ (0x18, close)
    ∷ (0x20, open_file)
    ∷ (0x40, moved_from)
    ∷ (0x80, moved_to)
    ∷ (0x100, delete_subdir)
    ∷ (0x200, delete_file)
    ∷ (0x400, create_subdir)
    ∷ (0x800, create_file)
    ∷ (0x1000, delete_self)
    ∷ (0x2000, unmount)
    ∷ (0x4000, q_overflow)
    ∷ (0x8000, ignored)
    ∷ []

pub choose : ℕ → List (ℕ × Kind) → Kind
choose mask [] = unknown
choose mask ((value, kind) ∷ rest) =
    let other = choose mask rest in if mask == value then kind else other

pub handle_event : Event → Report
handle_event event = record {
  kind = choose event.mask cases;
  filename = if event.len == 0 then none else some event.filename;
  wd = event.wd;
}

-- the queue, the events that `malloc` gave, and the pointers that were freed
pub record Sample : Type 0 where
  pub queue : Queue
  pub heap : List Event
  pub freed : List ℕ

-- The loop of `handle_events`, with `left` rounds to go, one for each element of the queue.
pub handle_events : ℕ → Sample → Option (Sample × List Report)
handle_events zero s = if queue_empty s.queue then some (s, []) else none
handle_events (suc left) s = elim (queue_empty s.queue) [
  | true ↦ some (s, [])
  | false ↦ elim (queue_front s.queue) [
    | none ↦ none
    | some zero ↦ none
    | some (suc place) ↦ elim (get_elem? s.heap place) [
      | none ↦ none
      | some event ↦ (do
        r ← handle_events left (record {
          queue = queue_dequeue s.queue;
          heap = s.heap;
          freed = s.freed ++ (suc place ∷ []);
        })
        some (r.0, handle_event event ∷ r.1))
    ]
  ]
]

-- a number of `n` bytes, and the bytes after it
pub number_at : ℕ → List ℕ → Option (ℕ × List ℕ)
number_at zero bytes = some (0, bytes)
number_at (suc n) [] = none
number_at (suc n) (b ∷ bytes) = do r ← number_at n bytes; some (b + 256 * r.0, r.1)

-- `n` bytes, and those after them
pub bytes_at : ℕ → List ℕ → Option (List ℕ × List ℕ)
bytes_at zero bytes = some ([], bytes)
bytes_at (suc n) [] = none
bytes_at (suc n) (b ∷ bytes) = do r ← bytes_at n bytes; some (b ∷ r.0, r.1)

-- the copy of an event at `pevent`, and the bytes after it; `len` is at offset 16
pub event_at : List ℕ → Option (Event × List ℕ)
event_at bytes = do
  wd ← number_at 4 bytes
  mask ← number_at 4 wd.1
  cookie ← number_at 4 mask.1
  padding ← number_at 4 cookie.1
  len ← number_at 8 padding.1
  name ← bytes_at len.0 len.1
  some (
    record { wd = wd.0; mask = mask.0; cookie = cookie.0; len = len.0; filename = name.0 },
    name.1,
  )

-- The loop of `read_events`, with `left` rounds to go. `bytes` is the buffer from `buffer_i` to `r`.
pub read_loop : ℕ → List ℕ → Sample → ℕ → Option (Sample × ℕ)
read_loop left [] s count = some (s, count)
read_loop zero (b ∷ bytes) s count = none
read_loop (suc left) (b ∷ bytes) s count = elim (event_at (b ∷ bytes)) [
  | none ↦ none
  | some r ↦ (do
    q ← queue_enqueue (suc (length s.heap)) s.queue
    read_loop left r.1 (record { queue = q; heap = s.heap ++ (r.0 ∷ []); freed = s.freed })
        (count + 1))
]

-- What `read` gives: `none` for a negative result, which is returned, or the bytes read. Every event
-- has some bytes, so that their number is enough rounds.
pub read_events : Option (List ℕ) → Sample → Option (Sample × Option ℕ)
read_events none s = some (s, none)
read_events (some bytes) s = do r ← read_loop (length bytes) bytes s 0; some (r.0, some r.1)

-- a round of `process_inotify_events`: the result of `select` and that of `read`
pub record Round : Type 0 where
  pub ready : Bool
  pub input : Option (List ℕ)

-- the events that are pending, when a round begins
pub handle_pending : Sample → Option (Sample × List Report)
handle_pending s =
    let handled = handle_events s.queue.size s in
    if queue_empty s.queue then some (s, []) else handled

-- The loop of `process_inotify_events` over the rounds given, and whether it came to its end: the
-- reports of all rounds, in order.
pub process_inotify_events : List Round → Sample → Option (Sample × List Report × Bool)
process_inotify_events [] s = some (s, [], false)
process_inotify_events (round ∷ rounds) s = elim (handle_pending s) [
  | none ↦ none
  | some (s', reports) ↦ elim round.ready [
    | false ↦ (do r ← process_inotify_events rounds s'; some (r.0, reports ++ r.1, r.2))
    | true ↦ elim (read_events round.input s') [
      | none ↦ none
      | some (s'', none) ↦ some (s'', reports, true)
      | some (s'', some n) ↦ (do
        r ← process_inotify_events rounds s''
        some (r.0, reports ++ r.1, r.2))
    ]
  ]
]
