-- ===== src/Timer/Fire.antt =====
-- multimer.c: what an expired timer leaves.
use my_test_files.Prelude.{
  ℕ, ◌≡◌, ◌≢◌, refl, false, List, [], ◌∷◌, none, some, arith, Bool-cases, inl, inr, ◌==◌,
  if◌then◌else◌,
}
use my_test_files.Timer.{
  Tqe, Timers, timeradd, remove, insert, timer_set, allocate, zero_time, is_periodic, fire,
}
use my_test_files.Timer.Laws.{IsWellFormed, start_lem, timeradd-IsNormal}
use my_test_files.Timer.Order.{
  AreNormal, All, AreDistinct, IsSorted, insert-IsSorted, insert-AreDistinct, All-insert,
}

remove-none : (c : ℕ) (xs : List Tqe) → All (λ y. y.client ≢ c) xs → remove c xs ≡ (none, xs)
unfolding All remove
remove-none c [] all = refl
remove-none c (x ∷ xs) (p, all) =
    let other : x.client == c ≡ false = ground (arith, p) in
    rw other (rw (remove-none c xs all) refl)

-- a timer that is set again after it expired
abbrev pub restarted : Tqe → Tqe
restarted tp = record {
  time = timeradd tp.interval tp.time;
  interval = tp.interval;
  func = tp.func;
  client = tp.client;
}

-- the timers that an expired head leaves: with an interval it is back in the queue, and the free
-- elements are as before; without one its element is free
unfoldable pub fired : Tqe → List Tqe → List Tqe → Timers
fired tp queue free =
    if is_periodic tp
    then record { queue = insert (restarted tp) queue; free = free }
    else record { queue = queue; free = tp ∷ free }

-- `timer_set` in `timer_get` takes the very element that was freed just before.
pub fire_lem :
    (tp : Tqe) (queue free : List Tqe)
    → IsWellFormed (record { queue = tp ∷ queue; free = free })
    → fire tp queue free ≡ some (fired tp queue free)
unfolding fire fired timer_set allocate AreDistinct All
fire_lem tp queue free wf =
    let absent = remove-none tp.client queue wf.distinct.0 in
    let (ht, hi) = wf.normal.0 in
    let next = timeradd-IsNormal tp.interval tp.time hi ht in
    elim (Bool-cases (is_periodic tp)) [
      | inl e ↦ rw e (
          rw (absent, timer_set)
            (rw absent (
              rw
                (start_lem (timeradd tp.interval tp.time) tp.func tp.client false zero_time
                  (restarted tp) queue free next (omega arith, omega arith) hi wf.normal.1)
                refl)))
      | inr e ↦ rw e refl
    ]

pub fired-IsWellFormed :
    (tp : Tqe) (queue free : List Tqe)
    → IsWellFormed (record { queue = tp ∷ queue; free = free })
    → IsWellFormed (fired tp queue free)
unfolding fired IsSorted AreDistinct All
fired-IsWellFormed tp queue free wf =
    let (ht, hi) = wf.normal.0 in
    let next = timeradd-IsNormal tp.interval tp.time hi ht in
    elim (Bool-cases (is_periodic tp)) [
      | inl e ↦ rw e (
          let r : IsWellFormed (record { queue = insert (restarted tp) queue; free = free }) =
            record {
              sorted = insert-IsSorted (restarted tp) queue (next, hi) wf.normal.1 wf.sorted.1;
              distinct = insert-AreDistinct (restarted tp) queue wf.distinct.0 wf.distinct.1;
              normal = All-insert AreNormal (restarted tp) queue (next, hi) wf.normal.1;
              normal_free = wf.normal_free;
            } in
          r)
      | inr e ↦ rw e (
          let r : IsWellFormed (record { queue = queue; free = tp ∷ free }) = record {
            sorted = wf.sorted.1;
            distinct = wf.distinct.1;
            normal = wf.normal.1;
            normal_free = (hi, wf.normal_free);
          } in
          r)
    ]
