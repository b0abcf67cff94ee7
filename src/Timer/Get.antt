-- ===== src/Timer/Get.antt =====
-- multimer.c: what `timer_get` returns.
use my_test_files.Prelude.{
  ℕ, ◌+◌, ◌<◌, ◌≡◌, refl, true, false, List, [], ◌∷◌, none, some, arith, Bool-cases, inl, inr,
  get_elem?, length,
}
use my_test_files.Time.{Timeval, Timeval-ext}
use my_test_files.Timer.{
  Tqe, Timers, timeradd, timerless, gap, Got, aborted, unread, returned, after, get_loop, timer_get,
}
use my_test_files.Timer.Fire.{fired, fire_lem, fired-IsWellFormed}
use my_test_files.Timer.Laws.{IsWellFormed, timer_check-normal, normal-slt64}
use my_test_files.Timer.Order.{IsNormal, All}

gap-IsNormal : (time now : Timeval) → IsNormal time → IsNormal now → IsNormal (gap time now)
unfolding gap
gap-IsNormal time now (hs, hu) (ns, nu) = (ground arith, ground arith)

timeradd-gap :
    (time now : Timeval) → IsNormal time → IsNormal now → timeradd now (gap time now) ≡ time
unfolding gap timeradd
timeradd-gap time now (hs, hu) (ns, nu) = Timeval-ext _ _ (ground arith) (ground arith)

gap-positive :
    (time now : Timeval)
    → IsNormal time
    → IsNormal now
    → timerless now time ≡ true
    → 0 < (gap time now).tv_sec + (gap time now).tv_usec
unfolding gap timerless
gap-positive time now (hs, hu) (ns, nu) h = ground (arith, h)

-- What a call on the readings of the clock has to come to. It aborts never. It returns NULL when no
-- timer is left. Otherwise the head of the queue left is not expired at the last reading, the one
-- after as many as handlers were called, and the timeout is what is left from then on.
pub Answers : List Timeval → Got → Type 0
Answers readings aborted = ⊥
Answers readings unread = Unit {0}
Answers readings (returned none ts calls) = IsWellFormed ts × (ts.queue ≡ [])
Answers readings (returned (some timeout) ts calls) =
    IsWellFormed ts
    × ((now : Timeval) × (tp : Tqe) × (rest : List Tqe) × (get_elem? readings (length calls)
          ≡ some now)
        × (ts.queue ≡ tp ∷ rest)
        × (timerless now tp.time ≡ true)
        × IsNormal timeout
        × (0 < timeout.tv_sec + timeout.tv_usec)
        × (timeradd now timeout ≡ tp.time))

after-Answers :
    (now : Timeval) (later : List Timeval) (call : ℕ × ℕ) (got : Got)
    → Answers later got
    → Answers (now ∷ later) (after call got)
unfolding Answers after
after-Answers now later call aborted a = a
after-Answers now later call unread a = a
after-Answers now later call (returned none ts calls) a = a
after-Answers now later call (returned (some timeout) ts calls) a = a

unfoldable pub AllNormal : List Timeval → Type 0
AllNormal [] = Unit {0}
AllNormal (x ∷ xs) = IsNormal x × AllNormal xs

-- A handler may change the timers in any way that keeps them well-formed.
unfoldable pub Keeps : (ℕ → ℕ → Timers → Timers) → Type 0
Keeps handle =
    (func client : ℕ) (ts : Timers) → IsWellFormed ts → IsWellFormed (handle func client ts)

unexpired :
    (tp : Tqe) (rest free : List Tqe) (now : Timeval) (later : List Timeval)
    → IsWellFormed (record { queue = tp ∷ rest; free = free })
    → IsNormal now
    → timerless now tp.time ≡ true
    → Answers
        (now ∷ later)
        (returned (some (gap tp.time now)) (record { queue = tp ∷ rest; free = free }) [])
unfolding Answers All
unexpired tp rest free now later wf hn e =
    let ht = wf.normal.0.0 in
    (
      wf,
      (
        now,
        tp,
        rest,
        refl,
        refl,
        e,
        gap-IsNormal tp.time now ht hn,
        gap-positive tp.time now ht hn e,
        timeradd-gap tp.time now ht hn,
      ),
    )

pub get_loop-unexpired :
    (handle : ℕ → ℕ → Timers → Timers) (now : Timeval) (later : List Timeval) (tp : Tqe)
    (rest free : List Tqe)
    → IsNormal now
    → IsNormal tp.time
    → timerless now tp.time ≡ true
    → get_loop handle (now ∷ later) (record { queue = tp ∷ rest; free = free })
      ≡ returned (some (gap tp.time now)) (record { queue = tp ∷ rest; free = free }) []
unfolding get_loop
get_loop-unexpired handle now later tp rest free hn ht e =
    let small = normal-slt64 (gap tp.time now).tv_usec (gap-IsNormal tp.time now ht hn).1 in
    rw (e, get_loop) (rw small refl)

pub get_loop-expired :
    (handle : ℕ → ℕ → Timers → Timers) (now : Timeval) (later : List Timeval) (tp : Tqe)
    (rest free : List Tqe)
    → IsWellFormed (record { queue = tp ∷ rest; free = free })
    → timerless now tp.time ≡ false
    → get_loop handle (now ∷ later) (record { queue = tp ∷ rest; free = free })
      ≡ after
          (tp.func, tp.client)
          (get_loop handle later (handle tp.func tp.client (fired tp rest free)))
unfolding get_loop
get_loop-expired handle now later tp rest free wf e =
    rw (e, get_loop) (rw (fire_lem tp rest free wf) refl)

get_loop-Answers :
    (handle : ℕ → ℕ → Timers → Timers) (readings : List Timeval) (queue free : List Tqe)
    → Keeps handle
    → AllNormal readings
    → IsWellFormed (record { queue = queue; free = free })
    → Answers readings (get_loop handle readings (record { queue = queue; free = free }))
unfolding get_loop Answers AllNormal Keeps All
get_loop-Answers handle [] [] free keeps all wf = (wf, refl)
get_loop-Answers handle [] (tp ∷ rest) free keeps all wf = tt
get_loop-Answers handle (now ∷ later) [] free keeps all wf = (wf, refl)
get_loop-Answers handle (now ∷ later) (tp ∷ rest) free keeps (hn, all) wf =
    elim (Bool-cases (timerless now tp.time)) [
      | inl e ↦
          rw (get_loop-unexpired handle now later tp rest free hn wf.normal.0.0 e)
            (unexpired tp rest free now later wf hn e)
      | inr e ↦
          let ts : Timers = handle tp.func tp.client (fired tp rest free) in
          let wf' : IsWellFormed ts =
            keeps tp.func tp.client (fired tp rest free) (fired-IsWellFormed tp rest free wf) in
          rw (get_loop-expired handle now later tp rest free wf e) (
            after-Answers now later (tp.func, tp.client) (get_loop handle later ts)
              (get_loop-Answers handle later ts.queue ts.free keeps all wf'))
    ]

-- On well-formed timers, with handlers that keep them well-formed and clock readings with less than
-- 10 ^ 6 microseconds, `timer_get` fails no assertion, and either the readings given are used up,
-- or it returns well-formed timers: with NULL when no timer is left, else with a timeout that is
-- not zero and has less than 10 ^ 6 microseconds, and that added to the last reading is the time of
-- the first timer, which is not expired at that reading.
pub timer_get_lem :
    (handle : ℕ → ℕ → Timers → Timers) (readings : List Timeval) (ts : Timers)
    → Keeps handle
    → AllNormal readings
    → IsWellFormed ts
    → Answers readings (timer_get handle readings ts)
unfolding timer_get
timer_get_lem handle readings ts keeps all wf =
    rw (timer_check-normal ts.queue wf.normal)
      (get_loop-Answers handle readings ts.queue ts.free keeps all wf)
