-- ===== src/Timer/Laws.antt =====
-- multimer.c: `timer_set` keeps the queue well-formed, and fails no assertion.
use my_test_files.Prelude.{
  ℕ, ◌<◌, ◌≡◌, ◌↔◌, refl, Bool, true, false, List, [], ◌∷◌, Option, none, some, arith, inl, inr,
  ◌&&◌, if◌then◌else◌, Option-cases,
}
use my_test_files.Prelude.Word64.{slt64}
use my_test_files.Time.{Timeval}
use my_test_files.Timer.{
  Tqe, Timers, timeradd, timer_check, remove, insert, start, timer_set, allocate,
}
use my_test_files.Timer.Order.{
  IsNormal, AreNormal, All, IsSorted, AreDistinct, All-insert, All-remove, insert-IsSorted,
  remove-IsSorted, remove-AreDistinct, remove-absent, insert-AreDistinct, remove-found,
}

-- The queue is in time order, no client has two timers, and the microseconds of all times and
-- intervals, and of the intervals that are kept in free elements, are below 10 ^ 6.
pub record IsWellFormed (ts : Timers) : Type 0 where
  pub sorted : IsSorted ts.queue
  pub distinct : AreDistinct ts.queue
  pub normal : All AreNormal ts.queue
  pub normal_free : All (λ t. IsNormal t.interval) ts.free

pub timeradd-IsNormal : (a b : Timeval) → IsNormal a → IsNormal b → IsNormal (timeradd a b)
unfolding timeradd
timeradd-IsNormal a b (_, ha) (_, hb) = (ground (arith, ha, hb), ground (arith, ha, hb))

pub normal-slt64 : (u : ℕ) → u < 1000000 → slt64 u 1000000 ≡ true
normal-slt64 u h = ground (arith, h)

pub timer_check-normal : (xs : List Tqe) → All AreNormal xs → timer_check xs ≡ true
unfolding All timer_check
timer_check-normal [] all = refl
timer_check-normal (x ∷ xs) (((_, h), (_, k)), all) =
    rw (normal-slt64 x.time.tv_usec h)
      (rw (normal-slt64 x.interval.tv_usec k) (rw (timer_check-normal xs all) refl))

-- the time at which a timer is set to expire
abbrev pub expiry : Timeval → Bool → Timeval → Timeval
expiry interval relative now = if relative then timeradd now interval else interval

expiry-IsNormal :
    (interval : Timeval) (relative : Bool) (now : Timeval)
    → IsNormal interval
    → IsNormal now
    → IsNormal (expiry interval relative now)
expiry-IsNormal interval true now hi hn = timeradd-IsNormal now interval hn hi
expiry-IsNormal interval false now hi hn = hi

-- the element that `start` puts into the queue
abbrev pub started : Timeval → ℕ → ℕ → Bool → Timeval → Tqe → Tqe
started interval func client relative now tp = record {
  time = expiry interval relative now;
  interval = tp.interval;
  func = func;
  client = client;
}

and_false : (b : Bool) → (b && false) ≡ false
and_false true = refl
and_false false = refl

pub start_lem :
    (interval : Timeval) (func client : ℕ) (relative : Bool) (now : Timeval) (tp : Tqe)
    (queue free : List Tqe)
    → IsNormal interval
    → IsNormal now
    → IsNormal tp.interval
    → All AreNormal queue
    → start interval func client relative now tp queue free
      ≡ some (
        some tp.interval,
        record { queue = insert (started interval func client relative now tp) queue; free = free },
      )
unfolding start
start_lem interval func client relative now tp queue free hi hn ht all =
    let nt = expiry-IsNormal interval relative now hi hn in
    let check =
      timer_check-normal (insert (started interval func client relative now tp) queue)
        (All-insert AreNormal (started interval func client relative now tp) queue (nt, ht) all) in
    let e = normal-slt64 (expiry interval relative now).tv_usec nt.1 in
    rw e (rw check (rw (and_false relative) refl))

-- the element that a client gets, and the free ones left: its own, a free one or a new one
unfoldable pub element : Option Tqe → List Tqe → Tqe × List Tqe
element none free = allocate free
element (some np) free = (np, free)

pub allocate-normal :
    (free : List Tqe)
    → All (λ t. IsNormal t.interval) free
    → IsNormal (allocate free).0.interval × All (λ t. IsNormal t.interval) (allocate free).1
unfolding All allocate
allocate-normal [] all = ((omega arith, omega arith), tt)
allocate-normal (t ∷ ts) all = all

-- the timers after a client was set
abbrev pub set_timers : Timeval → ℕ → ℕ → Bool → Timeval → Timers → Timers
set_timers interval func client relative now ts =
    let (tp, free) = element (remove client ts.queue).0 ts.free in
    record {
      queue = insert (started interval func client relative now tp) (remove client ts.queue).1;
      free = free;
    }

pub element-normal :
    (client : ℕ) (ts : Timers)
    → IsWellFormed ts
    → IsNormal (element (remove client ts.queue).0 ts.free).0.interval
      × All (λ t. IsNormal t.interval) (element (remove client ts.queue).0 ts.free).1
unfolding element
element-normal client ts wf = elim (Option-cases (remove client ts.queue).0) [
  | inl e ↦ rw e (allocate-normal ts.free wf.normal_free)
  | inr (np, e) ↦ rw e ((remove-found AreNormal client ts.queue np wf.normal e).0.1, wf.normal_free)
]

pub timer_set-some :
    (interval : Timeval) (func client : ℕ) (relative : Bool) (now : Timeval) (ts : Timers)
    → IsNormal interval
    → IsNormal now
    → IsWellFormed ts
    → timer_set (some interval) func client relative now ts
      ≡ some (
        some (element (remove client ts.queue).0 ts.free).0.interval,
        set_timers interval func client relative now ts,
      )
unfolding timer_set element
timer_set-some interval func client relative now ts hi hn wf =
    let (ht, _) = element-normal client ts wf in
    let rest = All-remove AreNormal client ts.queue wf.normal in
    elim (Option-cases (remove client ts.queue).0) [
      | inl e ↦
          let ht' : IsNormal (allocate ts.free).0.interval = rw e at ht in
          rw (e, timer_set)
            (start_lem interval func client relative now (allocate ts.free).0
              (remove client ts.queue).1 (allocate ts.free).1 hi hn ht' rest)
      | inr (np, e) ↦
          let ht' : IsNormal np.interval = rw e at ht in
          rw (e, timer_set)
            (start_lem interval func client relative now np (remove client ts.queue).1 ts.free hi hn
              ht' rest)
    ]

set_timers-IsWellFormed :
    (interval : Timeval) (func client : ℕ) (relative : Bool) (now : Timeval) (ts : Timers)
    → IsNormal interval
    → IsNormal now
    → IsWellFormed ts
    → IsWellFormed (set_timers interval func client relative now ts)
set_timers-IsWellFormed interval func client relative now ts hi hn wf =
    let (ht, hf) = element-normal client ts wf in
    let t : Tqe =
      started interval func client relative now (element (remove client ts.queue).0 ts.free).0 in
    let nt : AreNormal t = (expiry-IsNormal interval relative now hi hn, ht) in
    let rest = All-remove AreNormal client ts.queue wf.normal in
    record {
      sorted =
          insert-IsSorted t (remove client ts.queue).1 nt rest
            (remove-IsSorted client ts.queue wf.sorted);
      distinct =
          insert-AreDistinct t (remove client ts.queue).1
            (remove-absent client ts.queue wf.distinct)
            (remove-AreDistinct client ts.queue wf.distinct);
      normal = All-insert AreNormal t (remove client ts.queue).1 nt rest;
      normal_free = hf;
    }

cancelled-IsWellFormed :
    (client : ℕ) (ts : Timers) (free : List Tqe)
    → IsWellFormed ts
    → All (λ t. IsNormal t.interval) free
    → IsWellFormed (record { queue = (remove client ts.queue).1; free = free })
cancelled-IsWellFormed client ts free wf hf = record {
  sorted = remove-IsSorted client ts.queue wf.sorted;
  distinct = remove-AreDistinct client ts.queue wf.distinct;
  normal = All-remove AreNormal client ts.queue wf.normal;
  normal_free = hf;
}

-- what an interval has to be, when there is one
unfoldable pub Valid : Option Timeval → Type 0
Valid none = Unit {0}
Valid (some interval) = IsNormal interval

-- On well-formed timers, for an interval and a clock reading with less than 10 ^ 6 microseconds,
-- `timer_set` fails no assertion, and leaves well-formed timers: one timer for each client,
-- in time order. It returns a pointer exactly when an interval is given.
pub timer_set_lem :
    (interval : Option Timeval) (func client : ℕ) (relative : Bool) (now : Timeval) (ts : Timers)
    → Valid interval
    → IsNormal now
    → IsWellFormed ts
    → (p : Option Timeval) × (ts' : Timers) × (timer_set interval func client relative now ts
        ≡ some (p, ts'))
      × IsWellFormed ts'
      × ((p ≡ none) ↔ (interval ≡ none))
unfolding Valid timer_set All
timer_set_lem none func client relative now ts v hn wf =
    elim (Option-cases (remove client ts.queue).0) [
      | inl e ↦ (
        none,
        record { queue = (remove client ts.queue).1; free = ts.free },
        rw (e, timer_set) refl,
        cancelled-IsWellFormed client ts ts.free wf wf.normal_free,
        ((λ h. refl), (λ h. refl)),
      )
      | inr (np, e) ↦ (
        none,
        record { queue = (remove client ts.queue).1; free = np ∷ ts.free },
        rw (e, timer_set) refl,
        cancelled-IsWellFormed client ts (np ∷ ts.free) wf
            ((remove-found AreNormal client ts.queue np wf.normal e).0.1, wf.normal_free),
        ((λ h. refl), (λ h. refl)),
      )
    ]
timer_set_lem (some interval) func client relative now ts v hn wf = (
  some (element (remove client ts.queue).0 ts.free).0.interval,
  set_timers interval func client relative now ts,
  timer_set-some interval func client relative now ts v hn wf,
  set_timers-IsWellFormed interval func client relative now ts v hn wf,
  ((λ h. absurd (cc h)), (λ h. absurd (cc h))),
)
