-- ===== src/CircBuffer/Life.antt =====
-- `cbuf_set_action`, `cbuf_create` and `cbuf_destroy`.
pub mod Laws
use my_test_files.Prelude.{
  ℕ, ◌+◌, ◌-◌, ◌^◌, Bool, true, false, not, ◌&&◌, ◌||◌, List, [], ◌∷◌, ◌++◌, map, ◌==◌,
  if◌then◌else◌, bit_and, bit_or, Option, none, some, ◌>>=◌,
}
use my_test_files.CircBuffer.{
  Header, Event, cleanup, p_enqueue, p_unqueue, free_buffer, free_header, Outcome, has_flag,
  flags_user, flag_malloc, flag_valid, is_empty, interrupt_lock, interrupt_unlock, walk,
}

-- `cbuf_action_t`, functions being numbers
pub record Action : Type 0 where
  pub enqueue : ℕ
  pub dequeue : ℕ
  pub pqueue : ℕ
  pub reset : ℕ
  pub lookup : ℕ

-- `if (!p) p = d`
abbrev or_default : ℕ → ℕ → ℕ
or_default p d = if p == 0 then d else p

-- The result is FALSE without a header, which `has_header` tells, and otherwise the vector that
-- is set; a given one is changed in place.
pub set_action : Action → Bool → Option Action → Option Action
set_action defaults false action = none
set_action defaults true none = some defaults
set_action defaults true (some action) = some (record action {
  enqueue = or_default action.enqueue defaults.enqueue;
  dequeue = or_default action.dequeue defaults.dequeue;
  lookup = or_default action.lookup defaults.lookup;
})

-- the header after `memset`
abbrev pub zeroed : Header
zeroed = record {
  buffer = [];
  curr = 0;
  base = 0;
  flags = 0;
  count = 0;
  max = 0;
  has_cleanup = false;
}

-- the fields set before the buffer is allocated
abbrev prepared : Header → ℕ → ℕ → Bool → Header
prepared h max flags has_cleanup = record h {
  max = max + 1;
  count = 0;
  flags = bit_or h.flags (bit_and flags flags_user);
  has_cleanup = has_cleanup;
}

-- and after it; the action vector, which is the default one, is left out
abbrev finished : Header → List ℕ → Header
finished h cells = record h {
  buffer = cells;
  curr = 0;
  base = 0;
  flags = bit_or h.flags flag_valid;
}

-- what is returned, and the calls made, with and without a block for the buffer
pub with_buffer : Header → Option (List ℕ) → Option Header × List Event
with_buffer h none = (none, free_header ∷ [])
with_buffer h (some cells) = (some (finished h cells), p_enqueue ∷ [])

-- The header to start from: the caller's, cleared, if it passes one, which `given` tells; else what
-- `malloc` gives, with unknown contents, of which the flags are kept.
pub start_header : Bool → Option Header → Option Header
start_header true malloc_header = some zeroed
start_header false none = none
start_header false (some h) = some (record h { flags = bit_or h.flags flag_malloc })

pub with_header : (ℕ → Option (List ℕ)) → Option Header → ℕ → ℕ → Bool → Option Header × List Event
unfolding with_buffer
with_header malloc none max flags has_cleanup = (none, [])
with_header malloc (some h) max flags has_cleanup =
    with_buffer (prepared h max flags has_cleanup) (malloc (max + 1))

pub create :
    Option Header → (ℕ → Option (List ℕ)) → Bool → ℕ → ℕ → Bool → Option Header × List Event
unfolding with_header start_header
create malloc_header malloc given max flags has_cleanup =
    let made = with_header malloc (start_header given malloc_header) max flags has_cleanup in
    if max == 0 then (none, []) else made

-- what `cbuf_destroy` does after its loop, which read `xs`; the result is always TRUE
pub destroyed : Header → List ℕ → Outcome Bool
unfolding interrupt_lock interrupt_unlock
destroyed h xs =
    let flags = bit_and h.flags (2 ^ 16 - 1 - flag_valid) in
    let freed = if has_flag flags flag_malloc then free_header ∷ [] else [] in
    record {
      result = true;
      header = record h { flags = flags; buffer = [] };
      trace =
          interrupt_lock h.flags
          ++ (map cleanup xs ++ (p_unqueue ∷ (free_buffer ∷ (freed ++ interrupt_unlock h.flags))));
    }

-- The header that is left is freed if it was allocated.
pub destroy : Header → Option (Outcome Bool)
unfolding walk destroyed
destroy h =
    let drained = (do xs ← walk h.max h h.base; some (destroyed h xs)) in
    if not (is_empty h) && h.has_cleanup then drained else some (destroyed h [])
