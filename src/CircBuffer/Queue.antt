-- ===== src/CircBuffer/Queue.antt =====
-- `cbuf_enqueue_default`, `cbuf_dequeue_default` and `cbuf_peekqueue_default` on a buffer that holds
-- a list.
use my_test_files.Prelude.{
  ℕ, suc, ◌+◌, ◌<◌, ◌≡◌, refl, true, false, List, [], ◌∷◌, ◌++◌, ◌==◌, if◌then◌else◌, length,
  Bool-cases, inl, inr, arith,
}
use mathlib.Core.List.{append-nil}
use my_test_files.Prelude.Ring.{Holds-peek}
use my_test_files.CircBuffer.{
  Header, Event, flag_valid, flag_overwrite, has_flag, interrupt_lock, interrupt_unlock,
  flag_interrupt_safe, raise_interrupt_level, reset_interrupt_level, advance, enqueue, dequeue,
  peekqueue, check_count,
}
use my_test_files.CircBuffer.Laws.{
  Represents, IsSame, head, tail, kept, cleaned, put_keep, put_drop, store-Represents,
  drop-Represents, advance-Represents,
}

-- the calls, with the interrupt level raised around them where the flags ask for it
unfoldable pub locked : Header → List Event → List Event
locked h calls =
    if has_flag h.flags flag_interrupt_safe
    then raise_interrupt_level ∷ (calls ++ reset_interrupt_level ∷ [])
    else calls

pub locked_lem :
    (h : Header) (calls : List Event)
    → interrupt_lock h.flags ++ (calls ++ interrupt_unlock h.flags) ≡ locked h calls
unfolding locked interrupt_lock interrupt_unlock
locked_lem h calls = elim (Bool-cases (has_flag h.flags flag_interrupt_safe)) [
  | inl safe ↦ rw safe refl
  | inr other ↦ rw other (append-nil calls)
]

-- On a valid buffer that holds a list, `cbuf_enqueue_default` returns TRUE. If there is room it
-- appends to the list. If there is none, it drops the new element, or, where the buffer is to be
-- overwritten, appends it and drops the oldest one, for which it calls the cleanup function that
-- is set. Nothing else is cleaned up. Where CB_FLAGS_INTERRUPT_SAFE is set, the interrupt level is
-- raised before and reset after; else it is left alone.
pub enqueue_lem :
    (h : Header) (xs : List ℕ) (v : ℕ)
    → Represents h xs
    → ((enqueue h v).result ≡ true)
      × Represents (enqueue h v).header (kept h xs v)
      × IsSame h (enqueue h v).header
      × ((enqueue h v).trace ≡ locked h (cleaned h xs v))
unfolding enqueue
enqueue_lem h xs v r = rw (r.valid) (elim (Bool-cases (h.count + 1 == h.max)) [
  | inr room ↦
      let lt : length xs + 1 < h.max = ground (arith, r.count, r.room) in
      let room' : (length xs + 1 == h.max) ≡ false = ground (arith, lt) in
      rw (room, room', put_keep h xs r v lt)
        (
          refl,
          store-Represents h xs r v lt,
          record { flags = refl; max = refl; has_cleanup = refl },
          locked_lem h _,
        )
  | inl full ↦
      let e : length xs + 1 ≡ h.max = ground (arith, r.count) in
      let full' : (length xs + 1 == h.max) ≡ true = ground (arith, e) in
      rw (full, full')
        (elim (Bool-cases (has_flag h.flags flag_overwrite)) [
          | inr keep ↦
              rw keep
                (refl, r, record { flags = refl; max = refl; has_cleanup = refl }, locked_lem h _)
          | inl over ↦
              rw (over, put_drop h xs r v e)
                (
                  refl,
                  drop-Represents h xs r v e,
                  record { flags = refl; max = refl; has_cleanup = refl },
                  locked_lem h _,
                )
        ])
])

-- The check of `cbuf_dequeue_default` finds nothing to mend.
check_count_lem : (h : Header) (xs : List ℕ) → Represents h xs → check_count h ≡ h
check_count_lem h xs r = elim (Bool-cases (h.base == h.curr)) [
  | inr apart ↦ rw apart
  | inl together ↦
      let e : (h.count == 0) ≡ true = ground (arith, r.curr, r.count, r.room, r.cells.inside) in
      rw (together, e)
]

-- On a valid buffer that holds a list, `cbuf_dequeue_default` gives its oldest element, or NULL,
-- and takes it out, and `cbuf_peekqueue_default` gives the same and changes nothing. The first
-- raises and resets the interrupt level, the second only if there is an element, and both only
-- where CB_FLAGS_INTERRUPT_SAFE is set.
pub dequeue_lem :
    (h : Header) (xs : List ℕ)
    → Represents h xs
    → ((dequeue h).result ≡ head xs)
      × Represents (dequeue h).header (tail xs)
      × IsSame h (dequeue h).header
      × ((dequeue h).trace ≡ locked h [])
      × ((peekqueue h).result ≡ head xs)
      × ((peekqueue h).header ≡ h)
      × ((peekqueue h).trace ≡ (if length xs == 0 then [] else locked h []))
unfolding dequeue peekqueue
dequeue_lem h [] r =
    let e : (h.count == 0) ≡ true = ground (arith, r.count) in
    rw (r.valid, e)
      (
        refl,
        r,
        record { flags = refl; max = refl; has_cleanup = refl },
        locked_lem h [],
        refl,
        refl,
        refl,
      )
dequeue_lem h (x ∷ xs) r =
    let e : (h.count == 0) ≡ false = ground (arith, r.count) in
    let first = Holds-peek h.buffer h.max h.base x xs r.cells in
    let rest = advance-Represents h (x ∷ xs) r.valid r.count r.curr r.cells (omega arith) in
    let some_left : (suc (length xs) == 0) ≡ false = ground arith in
    rw (r.valid, e, check_count_lem (advance h) xs rest, first, some_left)
      (
        refl,
        rest,
        record { flags = refl; max = refl; has_cleanup = refl },
        locked_lem h [],
        refl,
        refl,
        locked_lem h [],
      )

-- On a buffer that is not valid the three functions change nothing and return FALSE or NULL.
pub invalid_lem :
    (h : Header) (v : ℕ)
    → has_flag h.flags flag_valid ≡ false
    → (((enqueue h v).result ≡ false) × ((enqueue h v).header ≡ h))
      × (((dequeue h).result ≡ 0) × ((dequeue h).header ≡ h))
      × (((peekqueue h).result ≡ 0) × ((peekqueue h).header ≡ h))
unfolding enqueue dequeue peekqueue
invalid_lem h v e = rw e ((refl, refl), (refl, refl), (refl, refl))
