-- ===== src/CircBuffer/Life/Laws.antt =====
-- A new buffer is empty and valid, a destroyed one is invalid and its elements are cleaned up.
use my_test_files.Prelude.{
  ℕ, ◌+◌, ◌-◌, ◌^◌, ◌<◌, ◌≡◌, ◌≢◌, refl, ◌∙◌, Bool, true, false, not, ◌&&◌, ◌||◌, List, [], ◌∷◌,
  ◌++◌, map, ltb, ◌==◌, if◌then◌else◌, length, Bool-cases, inl, inr, arith, Option, none, some,
  bit_and, bit_or,
}
use my_test_files.Prelude.Bits.{
  test_bit, zero-test_bit, test_bit-bit_and, test_bit-bit_or, test_bit-two_pow, test_bit-mask,
  test_bit-complement, bit_and-two_pow,
}
use my_test_files.Prelude.Ring.{Holds-empty}
use my_test_files.CircBuffer.{
  Header, Event, cleanup, p_enqueue, p_unqueue, free_buffer, free_header, flag_valid, flag_malloc,
  flags_user, has_flag, Outcome, interrupt_lock, interrupt_unlock,
}
use my_test_files.CircBuffer.Laws.{Represents}
use my_test_files.CircBuffer.Drain.{walk_lem, IsAt-base, count-is_nil}
use my_test_files.CircBuffer.Life.{
  Action, or_default, set_action, zeroed, start_header, with_header, with_buffer, create, destroyed,
  destroy,
}

has_flag-test_bit : (k x : ℕ) → has_flag x (2 ^ k) ≡ test_bit x k
has_flag-test_bit k x = rw (bit_and-two_pow k x) (ground arith)

-- the flags of a new header: those that it had, those of the caller below bit 4, and the valid one
new_flags :
    (k start flags : ℕ)
    → has_flag (bit_or (bit_or start (bit_and flags flags_user)) flag_valid) (2 ^ k)
      ≡ (has_flag start (2 ^ k) || has_flag flags (2 ^ k) && ltb k 4 || 15 == k)
new_flags k start flags =
    has_flag-test_bit k _
    ∙ test_bit-bit_or k (bit_or start (bit_and flags flags_user)) flag_valid
    ∙ rw (
      test_bit-bit_or k start (bit_and flags flags_user),
      test_bit-bit_and k flags flags_user,
      test_bit-mask 4 k,
      test_bit-two_pow 15 k,
      has_flag-test_bit k start,
      has_flag-test_bit k flags,
    )

-- the buffer is empty, has room for `max` elements, and its flags are those that `start` tells, the
-- caller's below bit 4 and the valid one
pub record IsCreated (start : ℕ → Bool) (max flags : ℕ) (has_cleanup : Bool) (h : Header)
    : Type 0 where
  pub empty : Represents h []
  pub max_lem : h.max ≡ max + 1
  pub cleanup_lem : h.has_cleanup ≡ has_cleanup
  pub flags_lem :
      (k : ℕ) → has_flag h.flags (2 ^ k) ≡ (start k || has_flag flags (2 ^ k) && ltb k 4 || 15 == k)

-- the start of a cleared header, and that of one that `malloc` gave
abbrev pub cleared : ℕ → Bool
cleared k = false

abbrev pub allocated : Header → ℕ → Bool
allocated h k = has_flag h.flags (2 ^ k) || 4 == k

cleared-has_flag : (k : ℕ) → has_flag 0 (2 ^ k) ≡ cleared k
cleared-has_flag k = has_flag-test_bit k 0 ∙ zero-test_bit k

allocated-has_flag :
    (h : Header) (k : ℕ) → has_flag (bit_or h.flags flag_malloc) (2 ^ k) ≡ allocated h k
allocated-has_flag h k =
    has_flag-test_bit k (bit_or h.flags flag_malloc)
    ∙ test_bit-bit_or k h.flags flag_malloc
    ∙ rw (test_bit-two_pow 4 k, has_flag-test_bit k h.flags)

-- what comes of a header with these flags and of cells
with_header-IsCreated :
    (malloc : ℕ → Option (List ℕ)) (start : Header) (known : ℕ → Bool) (cells : List ℕ)
    (max flags : ℕ) (has_cleanup : Bool)
    → ((k : ℕ) → has_flag start.flags (2 ^ k) ≡ known k)
    → malloc (max + 1) ≡ some cells
    → length cells ≡ max + 1
    → 0 < max
    → (h : Header) × (with_header malloc (some start) max flags has_cleanup
        ≡ (some h, p_enqueue ∷ []))
      × IsCreated known max flags has_cleanup h
unfolding with_header with_buffer
with_header-IsCreated malloc start known cells max flags has_cleanup same block size positive =
    rw block (
      _,
      refl,
      record {
        empty = record {
          valid = new_flags 15 start.flags flags ∙ ground arith;
          count = refl;
          room = omega arith;
          curr = ground arith;
          cells = Holds-empty cells (max + 1) 0 size (omega arith);
        };
        max_lem = refl;
        cleanup_lem = refl;
        flags_lem = λ k. rw (same k) at (new_flags k start.flags flags);
      },
    )

-- Where the caller passes a header, or `malloc` gives one, and `malloc` gives the cells,
-- `cbuf_create` for one or more elements gives a buffer that is valid and empty, with room for
-- `max` elements, and puts it into the global queue. Its flags are the caller's first four and
-- the valid one, and in a header that `malloc` gave also CB_FLAGS_MALLOC and whatever flags its
-- memory had. Without a header the result is NULL; without cells it is NULL too, and the header
-- is freed, even if it is the caller's.
pub create_lem :
    (malloc_header : Option Header) (malloc : ℕ → Option (List ℕ)) (max flags : ℕ)
    (has_cleanup : Bool)
    → ((n : ℕ) (cells : List ℕ) → malloc n ≡ some cells → length cells ≡ n)
    → 0 < max
    → let r = λ (given : Bool). create malloc_header malloc given max flags has_cleanup in
      (malloc_header ≡ none → r false ≡ (none, []))
      × (malloc (max + 1) ≡ none
          → (r true ≡ (none, free_header ∷ []))
            × ((start : Header) → malloc_header ≡ some start → r false ≡ (none, free_header ∷ [])))
      × ((cells : List ℕ)
          → malloc (max + 1) ≡ some cells
          → ((h : Header) × (r true ≡ (some h, p_enqueue ∷ []))
              × IsCreated cleared max flags has_cleanup h)
            × ((start : Header)
                → malloc_header ≡ some start
                → (h : Header) × (r false ≡ (some h, p_enqueue ∷ []))
                  × IsCreated (allocated start) max flags has_cleanup h))
unfolding create with_header with_buffer start_header
create_lem malloc_header malloc max flags has_cleanup allocates positive =
    let e : (max == 0) ≡ false = ground (arith, positive) in
    rw e (
      λ none_left. rw none_left refl,
      λ out. (rw out refl, λ start begun. rw (begun, out) refl),
      λ cells block.
          let size = allocates (max + 1) cells block in
          (
            with_header-IsCreated malloc zeroed cleared cells max flags has_cleanup cleared-has_flag
                block size positive,
            λ start begun. rw begun (
                with_header-IsCreated malloc
                  (record start { flags = bit_or start.flags flag_malloc }) (allocated start) cells
                  max flags has_cleanup (allocated-has_flag start) block size positive),
          ),
    )

-- what is cleaned up, and what is freed at the end
abbrev pub doomed : Header → List ℕ → List ℕ
doomed h xs = if h.has_cleanup then xs else []

abbrev pub freed : Header → List Event
freed h = if has_flag h.flags flag_malloc then free_header ∷ [] else []

kept_flags :
    (k flags : ℕ)
    → k < 16
    → has_flag (bit_and flags (2 ^ 16 - 1 - flag_valid)) (2 ^ k)
      ≡ (has_flag flags (2 ^ k) && not (15 == k))
kept_flags k flags lt =
    has_flag-test_bit k _
    ∙ test_bit-bit_and k flags (2 ^ 16 - 1 - flag_valid)
    ∙ rw (
      test_bit-complement 16 flag_valid k (omega arith) lt,
      test_bit-two_pow 15 k,
      has_flag-test_bit k flags,
    )

and_true : (b : Bool) → (b && true) ≡ b
and_true b = ground arith

destroy-destroyed :
    (h : Header) (xs : List ℕ) → Represents h xs → destroy h ≡ some (destroyed h (doomed h xs))
unfolding destroy
destroy-destroyed h [] r =
    rw (count-is_nil h [] r) (elim (Bool-cases h.has_cleanup) [ inl c ↦ rw c | inr c ↦ rw c ])
destroy-destroyed h (x ∷ xs) r =
    rw (count-is_nil h (x ∷ xs) r, walk_lem h (x ∷ xs) h.max h.base (IsAt-base h (x ∷ xs) r) r.room)
      (elim (Bool-cases h.has_cleanup) [ inl c ↦ rw c | inr c ↦ rw c ])

-- `cbuf_destroy` on a valid buffer that holds a list ends and returns TRUE. With the interrupt
-- level raised, where CB_FLAGS_INTERRUPT_SAFE is set, it cleans up the elements, oldest first, if the cleanup function is set, takes the
-- buffer from the global queue, and frees the cells, and the header if it was allocated. The
-- buffer that is left is not valid.
pub destroy_lem :
    (h : Header) (xs : List ℕ)
    → Represents h xs
    → (r : Outcome Bool) × (destroy h ≡ some r)
      × (r.result ≡ true)
      × (has_flag r.header.flags flag_valid ≡ false)
      × (r.trace
          ≡ interrupt_lock h.flags
            ++ (map cleanup (doomed h xs)
                ++ (p_unqueue ∷ (free_buffer ∷ (freed h ++ interrupt_unlock h.flags)))))
unfolding destroyed
destroy_lem h xs r = (
  destroyed h (doomed h xs),
  destroy-destroyed h xs r,
  refl,
  kept_flags 15 h.flags (omega arith) ∙ ground arith,
  rw (kept_flags 4 h.flags (omega arith), and_true (has_flag h.flags flag_malloc)),
)

filled : (p d : ℕ) → d ≢ 0 → or_default p d ≢ 0
filled p d set = ground (arith, set)

given : (p d : ℕ) → p ≢ 0 → or_default p d ≡ p
given p d set = ground (arith, set)

-- `cbuf_set_action` on a header with a vector, where the three functions that it fills in are
-- there by default: afterwards they are set, to the given ones where these were set, and the other
-- two are as given, which may be NULL.
pub set_action_lem :
    (defaults a : Action)
    → defaults.enqueue ≢ 0
    → defaults.dequeue ≢ 0
    → defaults.lookup ≢ 0
    → (b : Action) × (set_action defaults true (some a) ≡ some b)
      × (b.enqueue ≢ 0)
      × (b.dequeue ≢ 0)
      × (b.lookup ≢ 0)
      × ((a.enqueue ≢ 0 → b.enqueue ≡ a.enqueue)
          × (a.dequeue ≢ 0 → b.dequeue ≡ a.dequeue)
          × (a.lookup ≢ 0 → b.lookup ≡ a.lookup))
      × (b.pqueue ≡ a.pqueue)
      × (b.reset ≡ a.reset)
unfolding set_action
set_action_lem defaults a e d l = (
  _,
  refl,
  filled a.enqueue defaults.enqueue e,
  filled a.dequeue defaults.dequeue d,
  filled a.lookup defaults.lookup l,
  (
    given a.enqueue defaults.enqueue,
    given a.dequeue defaults.dequeue,
    given a.lookup defaults.lookup,
  ),
  refl,
  refl,
)
