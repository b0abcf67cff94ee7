-- ===== src/Timer/Calls.antt =====
-- multimer.c: the handlers that `timer_get` calls for timers without an interval.
use my_test_files.Prelude.{
  ℕ, zero, suc, ◌<◌, ◌≡◌, refl, true, false, List, [], ◌∷◌, map, Option, none, some, arith,
  Bool-cases, inl, inr, if◌then◌else◌, length, replicate,
}
use my_test_files.Time.{Timeval}
use my_test_files.Timer.{
  Tqe, Timers, timerless, gap, returned, after, get_loop, timer_get, is_periodic,
}
use my_test_files.Timer.Fire.{fired, fired-IsWellFormed}
use my_test_files.Timer.Get.{get_loop-unexpired, get_loop-expired}
use my_test_files.Timer.Laws.{IsWellFormed, timer_check-normal}
use my_test_files.Timer.Order.{IsNormal, AreNormal, All, IsSorted, Precedes}

-- the timers that are expired at `now`, and the others
pub due : Timeval → List Tqe → List Tqe
due now [] = []
due now (t ∷ ts) = let rest = due now ts in if timerless now t.time then rest else t ∷ rest

pub ahead : Timeval → List Tqe → List Tqe
ahead now [] = []
ahead now (t ∷ ts) = let rest = ahead now ts in if timerless now t.time then t ∷ rest else rest

abbrev pub call : Tqe → ℕ × ℕ
call t = (t.func, t.client)

-- the timeout for the head of a queue
pub timeout_of : Timeval → List Tqe → Option Timeval
timeout_of now [] = none
timeout_of now (t ∷ ts) = some (gap t.time now)

ahead_trans :
    (now a b : Timeval)
    → IsNormal now
    → IsNormal a
    → IsNormal b
    → timerless now a ≡ true
    → Precedes a b
    → timerless now b ≡ true
unfolding timerless
ahead_trans now a b (hn, _) (ha, _) (hb, _) h k = ground (arith, h, k, hn, ha, hb)

-- In a queue in time order, nothing after an unexpired timer is expired.
All-ahead :
    (now a : Timeval) (xs : List Tqe)
    → IsNormal now
    → IsNormal a
    → All AreNormal xs
    → timerless now a ≡ true
    → All (λ y. Precedes a y.time) xs
    → (due now xs ≡ []) × (ahead now xs ≡ xs)
unfolding due ahead All
All-ahead now a [] hn ha ns e ps = (refl, refl)
All-ahead now a (x ∷ xs) hn ha (nx, ns) e (p, ps) =
    let (d, l) = All-ahead now a xs hn ha ns e ps in
    rw (ahead_trans now a x.time hn ha nx.0 e p) (d, rw l refl)

fired-once :
    (t : Tqe) (ts free : List Tqe)
    → is_periodic t ≡ false
    → fired t ts free ≡ record { queue = ts; free = t ∷ free }
unfolding fired
fired-once t ts free o = rw o refl

get_loop-calls :
    (handle : ℕ → ℕ → Timers → Timers) (now : Timeval) (n : ℕ) (queue free : List Tqe)
    → ((func client : ℕ) (ts : Timers) → handle func client ts ≡ ts)
    → IsNormal now
    → IsWellFormed (record { queue = queue; free = free })
    → All (λ t. is_periodic t ≡ false) queue
    → length queue < n
    → (free' : List Tqe) × (get_loop handle
          (replicate n now)
          (record { queue = queue; free = free })
        ≡ returned
            (timeout_of now (ahead now queue))
            (record { queue = ahead now queue; free = free' })
            (map call (due now queue)))
unfolding due ahead All IsSorted timeout_of get_loop after
get_loop-calls handle now zero queue free quiet hn wf once h = absurd (omega (arith, h))
get_loop-calls handle now (suc n) [] free quiet hn wf once h = (free, refl)
get_loop-calls handle now (suc n) (t ∷ ts) free quiet hn wf (o, once) h =
    elim (Bool-cases (timerless now t.time)) [
      | inl e ↦
          let (d, l) = All-ahead now t.time ts hn wf.normal.0.0 wf.normal.1 e wf.sorted.0 in
          let step = get_loop-unexpired handle now (replicate n now) t ts free hn wf.normal.0.0 e in
          (free, rw e (rw d (rw l step)))
      | inr e ↦
          let gone : fired t ts free ≡ record { queue = ts; free = t ∷ free } =
            fired-once t ts free o in
          let wf' : IsWellFormed (record { queue = ts; free = t ∷ free }) =
            rw gone at (fired-IsWellFormed t ts free wf) in
          let (free', next) =
            get_loop-calls handle now n ts (t ∷ free) quiet hn wf' once (omega (arith, h)) in
          let step = get_loop-expired handle now (replicate n now) t ts free wf e in
          (
            free',
            rw e (rw step (rw (quiet t.func t.client (fired t ts free)) (rw gone (rw next refl)))),
          )
    ]

-- On well-formed timers without intervals, with handlers that leave the timers alone and a clock
-- that stands still, read more often than there are timers, `timer_get` calls the handlers of
-- just those timers that are expired, in the order of the queue, leaves the others, and returns the
-- time left for the first of them, or NULL when there is none.
pub timer_get-calls :
    (handle : ℕ → ℕ → Timers → Timers) (now : Timeval) (n : ℕ) (ts : Timers)
    → ((func client : ℕ) (ts : Timers) → handle func client ts ≡ ts)
    → IsNormal now
    → IsWellFormed ts
    → All (λ t. is_periodic t ≡ false) ts.queue
    → length ts.queue < n
    → (free' : List Tqe) × (timer_get handle (replicate n now) ts
        ≡ returned
            (timeout_of now (ahead now ts.queue))
            (record { queue = ahead now ts.queue; free = free' })
            (map call (due now ts.queue)))
unfolding timer_get
timer_get-calls handle now n ts quiet hn wf once h =
    rw (timer_check-normal ts.queue wf.normal)
      (get_loop-calls handle now n ts.queue ts.free quiet hn wf once h)
