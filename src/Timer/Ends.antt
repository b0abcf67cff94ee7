-- ===== src/Timer/Ends.antt =====
-- multimer.c: the loop of `timer_get` comes to an end.
use my_test_files.Prelude.{
  ℕ, ◌+◌, ◌-◌, ◌*◌, ◌^◌, ◌≤◌, ◌<◌, ◌≡◌, refl, true, false, List, [], ◌∷◌, Option, none, some, arith,
  Bool-cases, inl, inr, length,
}
use my_test_files.Time.{Timeval}
use my_test_files.Timer.{
  gap, Tqe, Timers, timeradd, timerless, Got, returned, after, get_loop, timer_get, insert,
  is_periodic,
}
use my_test_files.Timer.Fire.{fired, fired-IsWellFormed, restarted}
use my_test_files.Timer.Get.{get_loop-unexpired, get_loop-expired, AllNormal}
use my_test_files.Timer.Laws.{IsWellFormed, timer_check-normal}
use my_test_files.Timer.Order.{IsNormal, AreNormal, All, All-insert}

-- a `struct timeval` in microseconds
abbrev pub microseconds : Timeval → ℕ
microseconds tv = tv.tv_sec * 1000000 + tv.tv_usec

-- the microseconds from the time of each timer to `limit`, both counted, added up
unfoldable pub behind : ℕ → List Tqe → ℕ
behind limit [] = 0
behind limit (t ∷ ts) = (limit + 1 - microseconds t.time) + behind limit ts

behind-insert :
    (limit : ℕ) (t : Tqe) (xs : List Tqe) → behind limit (insert t xs) ≡ behind limit (t ∷ xs)
unfolding behind insert
behind-insert limit t [] = refl
behind-insert limit t (x ∷ xs) = elim (Bool-cases (timerless t.time x.time)) [
  | inl e ↦ rw e refl
  | inr e ↦ rw e (rw (behind-insert limit t xs) (omega arith))
]

-- times that do not overflow when an interval is added
abbrev pub IsSmall : Tqe → Type 0
IsSmall t = (t.time.tv_sec < 2 ^ 63) × (t.interval.tv_sec < 2 ^ 61)

expired-le :
    (a b : Timeval)
    → IsNormal a
    → IsNormal b
    → a.tv_sec < 2 ^ 63
    → b.tv_sec < 2 ^ 63
    → timerless a b ≡ false
    → microseconds b ≤ microseconds a
unfolding timerless
expired-le a b ha hb la lb h = ground (arith, h, ha, hb)

timeradd-microseconds :
    (a b : Timeval)
    → IsNormal a
    → IsNormal b
    → a.tv_sec < 2 ^ 61
    → b.tv_sec < 2 ^ 62
    → (microseconds (timeradd a b) ≡ microseconds a + microseconds b)
      × ((timeradd a b).tv_sec < 2 ^ 63)
unfolding timeradd
timeradd-microseconds a b (_, ha) (_, hb) la lb = (ground (arith, ha, hb), ground (arith, ha, hb))

periodic-positive : (t : Tqe) → is_periodic t ≡ true → 0 < microseconds t.interval
unfolding is_periodic
periodic-positive t h = ground (arith, h)

unfoldable pub Bounded : ℕ → List Timeval → Type 0
Bounded limit [] = Unit {0}
Bounded limit (now ∷ later) = (microseconds now ≤ limit) × Bounded limit later

-- A round with a handler leaves the timers less far behind.
fired-behind :
    (limit : ℕ) (now : Timeval) (tp : Tqe) (rest free : List Tqe)
    → limit < 2 ^ 62 * 1000000
    → microseconds now ≤ limit
    → IsNormal now
    → AreNormal tp
    → IsSmall tp
    → All IsSmall rest
    → timerless now tp.time ≡ false
    → (behind limit (fired tp rest free).queue < behind limit (tp ∷ rest))
      × All IsSmall (fired tp rest free).queue
unfolding fired behind
fired-behind limit now tp rest free bound le hn (ht, hi) (st, si) all e =
    let late = expired-le now tp.time hn ht (omega (arith, le)) st e in
    elim (Bool-cases (is_periodic tp)) [
      | inl p ↦
          let (sum, small) =
            timeradd-microseconds tp.interval tp.time hi ht si (omega (arith, late, le)) in
          let more = periodic-positive tp p in
          rw p (
            rw (behind-insert limit (restarted tp) rest) (omega (arith, sum, more, late, le)),
            All-insert IsSmall (restarted tp) rest (small, si) all,
          )
      | inr p ↦ rw p (omega (arith, late, le), all)
    ]

-- a return, whatever it returns
abbrev pub Returns : Got → Type 0
Returns got =
    (timeout : Option Timeval) × (ts : Timers) × (calls : List (ℕ × ℕ)) × (got
      ≡ returned timeout ts calls)

after-Returns : (call : ℕ × ℕ) (got : Got) → Returns got → Returns (after call got)
unfolding after
after-Returns call got (timeout, ts, calls, e) = rw e (timeout, ts, call ∷ calls, refl)

get_loop-Returns :
    (handle : ℕ → ℕ → Timers → Timers) (limit : ℕ) (readings : List Timeval) (queue free : List Tqe)
    → ((func client : ℕ) (ts : Timers) → handle func client ts ≡ ts)
    → limit < 2 ^ 62 * 1000000
    → AllNormal readings
    → Bounded limit readings
    → IsWellFormed (record { queue = queue; free = free })
    → All IsSmall queue
    → behind limit queue < length readings
    → Returns (get_loop handle readings (record { queue = queue; free = free }))
unfolding get_loop AllNormal Bounded All
get_loop-Returns handle limit [] queue free quiet bound ns bs wf small h = absurd (omega (arith, h))
get_loop-Returns handle limit (now ∷ later) [] free quiet bound ns bs wf small h =
    (none, record { queue = []; free = free }, [], refl)
get_loop-Returns handle limit (now ∷ later) (tp ∷ rest) free quiet bound (hn, ns) (le, bs) wf
      (st, small) h =
    elim (Bool-cases (timerless now tp.time)) [
      | inl e ↦ (
        some (gap tp.time now),
        record { queue = tp ∷ rest; free = free },
        [],
        get_loop-unexpired handle now later tp rest free hn wf.normal.0.0 e,
      )
      | inr e ↦
          let (less, small') =
            fired-behind limit now tp rest free bound le hn wf.normal.0 st small e in
          let next =
            get_loop-Returns handle limit later (fired tp rest free).queue (fired tp rest free).free
              quiet bound ns bs (fired-IsWellFormed tp rest free wf) small'
              (omega (arith, less, h)) in
          rw (get_loop-expired handle now later tp rest free wf e) (
            rw (quiet tp.func tp.client (fired tp rest free)) (
              after-Returns (tp.func, tp.client) (get_loop handle later (fired tp rest free)) next))
    ]

-- On well-formed timers, with handlers that leave the timers alone, `timer_get` returns when there
-- are enough readings of the clock: the restarts of periodic timers catch up. `limit`, below
-- 2 ^ 62 seconds, is not before any reading; every reading has less than 10 ^ 6 microseconds,
-- every timer a time below 2 ^ 63 seconds and an interval below 2 ^ 61 seconds. There are enough
-- readings when they are more than the sum, over the timers that are not after `limit`, of 1
-- and the microseconds from the time of the timer to `limit`.
pub timer_get-Returns :
    (handle : ℕ → ℕ → Timers → Timers) (limit : ℕ) (readings : List Timeval) (ts : Timers)
    → ((func client : ℕ) (ts : Timers) → handle func client ts ≡ ts)
    → limit < 2 ^ 62 * 1000000
    → AllNormal readings
    → Bounded limit readings
    → IsWellFormed ts
    → All IsSmall ts.queue
    → behind limit ts.queue < length readings
    → Returns (timer_get handle readings ts)
unfolding timer_get
timer_get-Returns handle limit readings ts quiet bound ns bs wf small h =
    rw (timer_check-normal ts.queue wf.normal)
      (get_loop-Returns handle limit readings ts.queue ts.free quiet bound ns bs wf small h)
