-- ===== src/CircBuffer.antt =====
-- circ_buffer.c and circ_buffer.h: circular buffers of pointers. A pointer is a number, NULL is 0; a
-- pointer into `buffer` is its index there. The calls that leave the module, which are those of
-- the cleanup function, of the interrupt level, of the global queue and of `free`, are listed in
-- order in a trace. The messages of `cbuf_state_buginf`, `name` and `link` are left out. A read of
-- `buffer` out of range is 0 and a write there does nothing: `Laws` shows that none is made.
pub mod Laws
pub mod Queue
pub mod Drain
pub mod Life
mod Tests
use my_test_files.Prelude.{
  ℕ, zero, suc, ◌+◌, ◌-◌, ◌^◌, Bool, true, false, not, ◌&&◌, ◌||◌, List, [], ◌∷◌, ◌++◌, map, leb,
  ◌==◌, if◌then◌else◌, get_or, set, bit_and, bit_or, Option, none, some, ◌>>=◌,
}

abbrev pub flag_overwrite : ℕ
flag_overwrite = 1

abbrev pub flag_interrupt_safe : ℕ
flag_interrupt_safe = 2

-- CB_FLAGS_USER
abbrev pub flags_user : ℕ
flags_user = 15

abbrev pub flag_malloc : ℕ
flag_malloc = 16

abbrev pub flag_valid : ℕ
flag_valid = 2 ^ 15

-- `cbuf_header`; `has_cleanup` tells whether `cleanup_func` is set
pub record Header : Type 0 where
  pub buffer : List ℕ
  pub curr : ℕ
  pub base : ℕ
  pub flags : ℕ
  pub count : ℕ
  pub max : ℕ
  pub has_cleanup : Bool

-- a call that leaves the module
pub data Event : Type 0 where
  raise_interrupt_level : Event
  reset_interrupt_level : Event
  cleanup : ℕ → Event
  p_enqueue : Event
  p_unqueue : Event
  free_buffer : Event
  free_header : Event

-- what a function returns, the header that it leaves, and the calls that it made
pub record Outcome (A : Type 0) : Type 0 where
  pub result : A
  pub header : Header
  pub trace : List Event

abbrev pub has_flag : ℕ → ℕ → Bool
has_flag flags flag = not (bit_and flags flag == 0)

-- CB_EMPTY
abbrev pub is_empty : Header → Bool
is_empty h = h.count == 0

-- CB_FULL, which compares `count` with `max - 1`, for a `max` that is not 0
abbrev pub is_full : Header → Bool
is_full h = h.count + 1 == h.max

pub interrupt_lock : ℕ → List Event
interrupt_lock flags = if has_flag flags flag_interrupt_safe then raise_interrupt_level ∷ [] else []

pub interrupt_unlock : ℕ → List Event
interrupt_unlock flags =
    if has_flag flags flag_interrupt_safe then reset_interrupt_level ∷ [] else []

-- `p++; if (p >= &buffer[max]) p = buffer`
abbrev pub next : Header → ℕ → ℕ
next h p = if leb h.max (p + 1) then 0 else p + 1

-- `CB_SET_DATA(curr, data); count++; curr++` and going around the end
abbrev pub store : Header → ℕ → Header
store h item = record h {
  buffer = set h.buffer h.curr item;
  count = h.count + 1;
  curr = next h h.curr;
}

-- `base++; count--` and going around the end
abbrev pub advance : Header → Header
advance h = record h { base = next h h.base; count = h.count - 1 }

-- the body of the `if` in `cbuf_enqueue_default`
pub put : Header → ℕ → Header × List Event
put h item =
    let s = store h item in
    if s.curr == s.base
    then (advance s, if s.has_cleanup then cleanup (get_or s.buffer s.base 0) ∷ [] else [])
    else (s, [])

unfoldable pub enqueue : Header → ℕ → Outcome Bool
unfolding interrupt_lock interrupt_unlock put
enqueue h item =
    let lock = interrupt_lock h.flags in
    let unlock = interrupt_unlock h.flags in
    let (h', calls) = put h item in
    if not (has_flag h.flags flag_valid)
    then record { result = false; header = h; trace = lock ++ unlock }
    else if is_full h && has_flag h.flags flag_overwrite || not (is_full h)
    then record { result = true; header = h'; trace = lock ++ (calls ++ unlock) }
    else record { result = true; header = h; trace = lock ++ unlock }

-- `if (base == curr && count != 0) count = 0`
abbrev pub check_count : Header → Header
check_count h =
    if h.base == h.curr then if not (h.count == 0) then record h { count = 0 } else h else h

pub dequeue : Header → Outcome ℕ
unfolding interrupt_lock interrupt_unlock
dequeue h =
    let calls = interrupt_lock h.flags ++ interrupt_unlock h.flags in
    if not (has_flag h.flags flag_valid)
    then record { result = 0; header = h; trace = calls }
    else if is_empty h
    then record { result = 0; header = h; trace = calls }
    else record {
      result = get_or h.buffer h.base 0;
      header = check_count (advance h);
      trace = calls;
    }

pub peekqueue : Header → Outcome ℕ
unfolding interrupt_lock interrupt_unlock
peekqueue h =
    if not (has_flag h.flags flag_valid)
    then record { result = 0; header = h; trace = [] }
    else if is_empty h
    then record { result = 0; header = h; trace = [] }
    else record {
      result = get_or h.buffer h.base 0;
      header = h;
      trace = interrupt_lock h.flags ++ interrupt_unlock h.flags;
    }

-- `while (runner != curr)`: what it reads, in order. `none` is the fuel run out.
pub walk : ℕ → Header → ℕ → Option (List ℕ)
walk zero h runner = none
walk (suc fuel) h runner =
    let rest = walk fuel h (next h runner) in
    if runner == h.curr then some [] else (do xs ← rest; some (get_or h.buffer runner 0 ∷ xs))

-- `base = curr = buffer; count = 0`
abbrev pub rewound : Header → Header
rewound h = record h { base = 0; curr = 0; count = 0 }

pub reset : Header → Option (Outcome Bool)
unfolding walk interrupt_lock interrupt_unlock
reset h =
    let lock = interrupt_lock h.flags in
    let unlock = interrupt_unlock h.flags in
    let cleaned = (do
      xs ← walk h.max h h.base
      some (record {
        result = true;
        header = rewound h;
        trace = lock ++ (map cleanup xs ++ unlock);
      })) in
    if not (has_flag h.flags flag_valid)
    then some (record { result = false; header = h; trace = [] })
    else if is_empty h || not h.has_cleanup
    then some (record { result = true; header = rewound h; trace = [] })
    else cleaned

-- the loop of `cbuf_lookup_default`; `func` compares, and 0 is a match
pub find : ℕ → (ℕ → ℕ → ℕ) → ℕ → Header → ℕ → Option ℕ
find zero func item h runner = none
find (suc fuel) func item h runner =
    let rest = find fuel func item h (next h runner) in
    let cbdata = get_or h.buffer runner 0 in
    if runner == h.curr then some 0 else if func cbdata item == 0 then some cbdata else rest

pub lookup : (ℕ → ℕ → ℕ) → ℕ → Header → Option (Outcome ℕ)
unfolding find interrupt_lock interrupt_unlock
lookup func item h =
    let found = (do
      r ← find h.max func item h h.base
      some (record {
        result = r;
        header = h;
        trace = interrupt_lock h.flags ++ interrupt_unlock h.flags;
      })) in
    if not (has_flag h.flags flag_valid)
    then some (record { result = 0; header = h; trace = [] })
    else if is_empty h
    then some (record { result = 0; header = h; trace = [] })
    else found
