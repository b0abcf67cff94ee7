-- ===== src/Timer/Tests.antt =====
-- Timers at concrete inputs.
use my_test_files.Prelude.{
  ℕ, ◌≡◌, ◌≢◌, ◌↔◌, refl, true, false, List, [], ◌∷◌, map, Option, none, some, arith, replicate,
}
use my_test_files.Time.{Timeval}
use my_test_files.Timer.{
  Tqe, Timers, timer_set, timer_get, returned, timerless, timer_pending, is_periodic, zero_time,
  insert, remove,
}
use my_test_files.Timer.Calls.{due, ahead, call, timeout_of, timer_get-calls}
use my_test_files.Timer.Clients.{find, kept, timer_set-find, timer_set-cancel}
use my_test_files.Timer.Ends.{Returns, behind, Bounded, IsSmall, timer_get-Returns}
use my_test_files.Timer.Get.{Answers, AllNormal, Keeps, timer_get_lem}
use my_test_files.Timer.Laws.{IsWellFormed, expiry, Valid, timer_set_lem}
use my_test_files.Timer.Order.{IsNormal, All, IsSorted, AreDistinct}

-- client 1 at 100.5 seconds, once, and client 2 at 200 seconds and then every second
abbrev once : Tqe
once = record {
  time = record { tv_sec = 100; tv_usec = 500000 };
  interval = zero_time;
  func = 7;
  client = 1;
}

abbrev every_second : Tqe
every_second = record {
  time = record { tv_sec = 200; tv_usec = 0 };
  interval = record { tv_sec = 1; tv_usec = 0 };
  func = 8;
  client = 2;
}

abbrev two_timers : Timers
two_timers = record { queue = once ∷ every_second ∷ []; free = [] }

abbrev one_timer : Timers
one_timer = record { queue = once ∷ []; free = every_second ∷ [] }

two_timers-IsWellFormed : IsWellFormed two_timers
unfolding IsSorted AreDistinct All timerless
two_timers-IsWellFormed = record {
  sorted = ((refl, tt), (tt, tt));
  distinct = (((λ e. absurd (omega (arith, e))), tt), (tt, tt));
  normal = (
    ((omega arith, omega arith), (omega arith, omega arith)),
    (((omega arith, omega arith), (omega arith, omega arith)), tt),
  );
  normal_free = tt;
}

one_timer-IsWellFormed : IsWellFormed one_timer
unfolding IsSorted AreDistinct All
one_timer-IsWellFormed = record {
  sorted = (tt, tt);
  distinct = (tt, tt);
  normal = (((omega arith, omega arith), (omega arith, omega arith)), tt);
  normal_free = ((omega arith, omega arith), tt);
}

abbrev at_150 : Timeval
at_150 = record { tv_sec = 150; tv_usec = 250000 }

abbrev half : Timeval
half = record { tv_sec = 0; tv_usec = 500000 }

-- a handler that does nothing to the timers, and one that sets its client's timer again
abbrev idle : ℕ → ℕ → Timers → Timers
idle func client ts = ts

rearm : ℕ → ℕ → Timers → Timers
rearm func client ts = elim (timer_set (some half) func client true at_150 ts) [
  | none ↦ ts
  | some r ↦ r.1
]

rearm-Keeps : Keeps rearm
unfolding rearm Keeps Valid
rearm-Keeps func client ts wf =
    let (p, ts', e, wf', _) =
      timer_set_lem (some half) func client true at_150 ts (omega arith, omega arith)
        (omega arith, omega arith) wf in
    rw (e, rearm) wf'

-- The interval of a cancelled timer is that of the next timer that is set.
stale :
    (timer_set (some half) 9 3 true at_150 one_timer)
    ≡ some (
      some (record { tv_sec = 1; tv_usec = 0 }),
      record {
        queue =
            once
            ∷ record {
              time = record { tv_sec = 150; tv_usec = 750000 };
              interval = record { tv_sec = 1; tv_usec = 0 };
              func = 9;
              client = 3;
            }
            ∷ [];
        free = [];
      },
    )
unfolding timer_set my_test_files.Timer.start my_test_files.Timer.timeradd timerless insert remove
    my_test_files.Timer.allocate my_test_files.Timer.timer_check
stale = refl

abbrev normal_150 : IsNormal at_150
normal_150 = (omega arith, omega arith)

three_readings : AllNormal (at_150 ∷ at_150 ∷ at_150 ∷ [])
unfolding AllNormal
three_readings = (normal_150, (normal_150, (normal_150, tt)))

-- the periodic timer alone, a microsecond before the clock
abbrev due_timer : Timers
due_timer = record { queue = every_second ∷ []; free = [] }

due_timer-IsWellFormed : IsWellFormed due_timer
unfolding IsSorted AreDistinct All
due_timer-IsWellFormed = record {
  sorted = (tt, tt);
  distinct = (tt, tt);
  normal = (((omega arith, omega arith), (omega arith, omega arith)), tt);
  normal_free = tt;
}

abbrev at_200 : Timeval
at_200 = record { tv_sec = 200; tv_usec = 1 }

abbrev late_readings : List Timeval
late_readings = at_200 ∷ at_200 ∷ at_200 ∷ []

late_readings-AllNormal : AllNormal late_readings
unfolding AllNormal
late_readings-AllNormal =
    ((omega arith, omega arith), ((omega arith, omega arith), ((omega arith, omega arith), tt)))

late_readings-Bounded : Bounded 200000001 late_readings
unfolding Bounded
late_readings-Bounded = (omega arith, (omega arith, (omega arith, tt)))

due_timer-IsSmall : All IsSmall due_timer.queue
unfolding All
due_timer-IsSmall = ((omega arith, omega arith), tt)

behind-due_timer : behind 200000001 due_timer.queue ≡ 2
unfolding behind
behind-due_timer = refl

once-once : All (λ t. is_periodic t ≡ false) one_timer.queue
unfolding All my_test_files.Timer.is_periodic
once-once = (refl, tt)

half-Valid : Valid (some half)
unfolding Valid
half-Valid = (omega arith, omega arith)

timer_set_lem_example :
    (p : Option Timeval) × (ts' : Timers) × (timer_set (some half) 9 2 true at_150 two_timers
      ≡ some (p, ts'))
    × IsWellFormed ts'
    × ((p ≡ none) ↔ ((some half) ≡ none))
timer_set_lem_example =
    timer_set_lem (some half) 9 2 true at_150 two_timers half-Valid normal_150
      two_timers-IsWellFormed

timer_set-find_example :
    (t : Tqe) × (ts' : Timers) × (timer_set (some half) 9 3 true at_150 one_timer
      ≡ some (some t.interval, ts'))
    × (find 3 ts'.queue ≡ some t)
    × (t.time ≡ expiry half true at_150)
    × (t.func ≡ 9)
    × (t.interval ≡ kept (find 3 one_timer.queue) one_timer.free)
    × ((d : ℕ) → d ≢ 3 → find d ts'.queue ≡ find d one_timer.queue)
timer_set-find_example =
    timer_set-find half 9 3 true at_150 one_timer (omega arith, omega arith) normal_150
      one_timer-IsWellFormed

timer_set-cancel_example :
    (ts' : Timers) × (timer_set none 9 2 false at_150 two_timers ≡ some (none, ts'))
    × (find 2 ts'.queue ≡ none)
    × ((d : ℕ) → d ≢ 2 → find d ts'.queue ≡ find d two_timers.queue)
    × (find 2 two_timers.queue ≡ none → ts'.free ≡ two_timers.free)
    × ((t : Tqe) → find 2 two_timers.queue ≡ some t → ts'.free ≡ t ∷ two_timers.free)
timer_set-cancel_example = timer_set-cancel 9 2 false at_150 two_timers two_timers-IsWellFormed

timer_get_lem_example :
    Answers
      (at_150 ∷ at_150 ∷ at_150 ∷ [])
      (timer_get rearm (at_150 ∷ at_150 ∷ at_150 ∷ []) two_timers)
timer_get_lem_example =
    timer_get_lem rearm (at_150 ∷ at_150 ∷ at_150 ∷ []) two_timers rearm-Keeps three_readings
      two_timers-IsWellFormed

timer_get-Returns_example : Returns (timer_get idle late_readings due_timer)
timer_get-Returns_example =
    timer_get-Returns idle 200000001 late_readings due_timer (λ func client ts. refl) (omega arith)
      late_readings-AllNormal late_readings-Bounded due_timer-IsWellFormed due_timer-IsSmall
      (omega (arith, behind-due_timer))

timer_get-calls_example :
    (free' : List Tqe) × (timer_get idle (replicate 2 at_150) one_timer
      ≡ returned
          (timeout_of at_150 (ahead at_150 one_timer.queue))
          (record { queue = ahead at_150 one_timer.queue; free = free' })
          (map call (due at_150 one_timer.queue)))
timer_get-calls_example =
    timer_get-calls idle at_150 2 one_timer (λ func client ts. refl) normal_150
      one_timer-IsWellFormed once-once (omega arith)
