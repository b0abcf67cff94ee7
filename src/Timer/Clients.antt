-- ===== src/Timer/Clients.antt =====
-- multimer.c: the timers as a map from clients.
use my_test_files.Prelude.{
  ℕ, ◌≡◌, ◌≢◌, refl, sym, ap, ◌∙◌, Bool, false, List, [], ◌∷◌, Option, none, some, arith,
  Bool-cases, Option-cases, inl, inr, ◌==◌, if◌then◌else◌, ==_iff,
}
use my_test_files.Time.{Timeval}
use my_test_files.Timer.{Tqe, Timers, timerless, remove, insert, timer_set, allocate, zero_time}
use my_test_files.Timer.Laws.{IsWellFormed, expiry, started, element, set_timers, timer_set-some}
use my_test_files.Timer.Order.{IsNormal, All, remove-absent}

-- the pending timer of a client
pub find : ℕ → List Tqe → Option Tqe
find c [] = none
find c (x ∷ xs) = if x.client == c then some x else find c xs

find-absent : (c : ℕ) (xs : List Tqe) → All (λ y. y.client ≢ c) xs → find c xs ≡ none
unfolding All find
find-absent c [] all = refl
find-absent c (x ∷ xs) (p, all) = elim (Bool-cases (x.client == c)) [
  | inl e ↦ absurd (p ((==_iff x.client c).0 e))
  | inr e ↦ rw e (find-absent c xs all)
]

-- The search of `timer_set` finds the client's timer.
remove-find : (c : ℕ) (xs : List Tqe) → (remove c xs).0 ≡ find c xs
unfolding remove find
remove-find c [] = refl
remove-find c (x ∷ xs) = elim (Bool-cases (x.client == c)) [
  | inl e ↦ rw e refl
  | inr e ↦ rw e (remove-find c xs)
]

find-remove : (c d : ℕ) (xs : List Tqe) → d ≢ c → find d (remove c xs).1 ≡ find d xs
unfolding remove find
find-remove c d [] ne = refl
find-remove c d (x ∷ xs) ne = elim (Bool-cases (x.client == c)) [
  | inl e ↦ let other : x.client == d ≡ false = ground (arith, e, ne) in rw e (rw other refl)
  | inr e ↦ rw e (rw (find-remove c d xs ne) refl)
]

find-insert_same :
    (t : Tqe) (c : ℕ) (xs : List Tqe)
    → t.client ≡ c
    → All (λ y. y.client ≢ c) xs
    → find c (insert t xs) ≡ some t
unfolding All find insert
find-insert_same t c [] e all = rw ((==_iff t.client c).1 e) refl
find-insert_same t c (x ∷ xs) e (p, all) = elim (Bool-cases (timerless t.time x.time)) [
  | inl le ↦ rw le (rw ((==_iff t.client c).1 e) refl)
  | inr le ↦
      let other : x.client == c ≡ false = ground (arith, p) in
      rw le (rw other (find-insert_same t c xs e all))
]

find-insert_other :
    (t : Tqe) (d : ℕ) (xs : List Tqe) → t.client ≢ d → find d (insert t xs) ≡ find d xs
unfolding find insert
find-insert_other t d [] ne =
    let other : t.client == d ≡ false = ground (arith, ne) in rw other refl
find-insert_other t d (x ∷ xs) ne =
    let other : t.client == d ≡ false = ground (arith, ne) in
    elim (Bool-cases (timerless t.time x.time)) [
      | inl le ↦ rw le (rw other refl)
      | inr le ↦ rw le (rw (find-insert_other t d xs ne) refl)
    ]

-- the interval of the element that a client gets
pub kept : Option Tqe → List Tqe → Timeval
kept (some old) free = old.interval
kept none [] = zero_time
kept none (t ∷ rest) = t.interval

kept-element : (o : Option Tqe) (free : List Tqe) → (element o free).0.interval ≡ kept o free
unfolding kept element allocate
kept-element (some np) free = refl
kept-element none [] = refl
kept-element none (t ∷ rest) = refl

-- On well-formed timers, for an interval and a clock reading with less than 10 ^ 6 microseconds:
-- after `timer_set` with an interval the client has a pending timer with the handler given, that
-- expires at the interval, or at the interval after the clock reading when the call is relative.
-- The timers of the other clients are as they were. The interval with which the timer starts again
-- is not set: it is that of the client's pending timer before the call, or else that of the first
-- free element, or zero when no element is free.
pub timer_set-find :
    (interval : Timeval) (func client : ℕ) (relative : Bool) (now : Timeval) (ts : Timers)
    → IsNormal interval
    → IsNormal now
    → IsWellFormed ts
    → (t : Tqe) × (ts' : Timers) × (timer_set (some interval) func client relative now ts
        ≡ some (some t.interval, ts'))
      × (find client ts'.queue ≡ some t)
      × (t.time ≡ expiry interval relative now)
      × (t.func ≡ func)
      × (t.interval ≡ kept (find client ts.queue) ts.free)
      × ((d : ℕ) → d ≢ client → find d ts'.queue ≡ find d ts.queue)
timer_set-find interval func client relative now ts hi hn wf =
    let tp : Tqe = (element (remove client ts.queue).0 ts.free).0 in
    let t : Tqe = started interval func client relative now tp in
    let others = (remove client ts.queue).1 in
    (
      t,
      set_timers interval func client relative now ts,
      timer_set-some interval func client relative now ts hi hn wf,
      find-insert_same t client others refl (remove-absent client ts.queue wf.distinct),
      refl,
      refl,
      kept-element (remove client ts.queue).0 ts.free
          ∙ ap (λ o. kept o ts.free) (remove-find client ts.queue),
      (λ d ne. find-insert_other t d others (λ e. ne (sym e)) ∙ find-remove client d ts.queue ne),
    )

-- On well-formed timers `timer_set` without an interval leaves the client without a pending timer,
-- the other clients' timers as they were, and puts the element of the client's timer, if it had
-- one, at the head of the free ones.
pub timer_set-cancel :
    (func client : ℕ) (relative : Bool) (now : Timeval) (ts : Timers)
    → IsWellFormed ts
    → (ts' : Timers) × (timer_set none func client relative now ts ≡ some (none, ts'))
      × (find client ts'.queue ≡ none)
      × ((d : ℕ) → d ≢ client → find d ts'.queue ≡ find d ts.queue)
      × (find client ts.queue ≡ none → ts'.free ≡ ts.free)
      × ((t : Tqe) → find client ts.queue ≡ some t → ts'.free ≡ t ∷ ts.free)
unfolding timer_set
timer_set-cancel func client relative now ts wf =
    let gone =
      find-absent client (remove client ts.queue).1 (remove-absent client ts.queue wf.distinct) in
    elim (Option-cases (remove client ts.queue).0) [
      | inl e ↦
          let e' = rw (remove-find client ts.queue) at e in
          (
            record { queue = (remove client ts.queue).1; free = ts.free },
            rw (e, timer_set) refl,
            gone,
            (λ d ne. find-remove client d ts.queue ne),
            (λ h. refl),
            (λ t h. absurd (cc (h, e'))),
          )
      | inr (np, e) ↦
          let e' = rw (remove-find client ts.queue) at e in
          (
            record { queue = (remove client ts.queue).1; free = np ∷ ts.free },
            rw (e, timer_set) refl,
            gone,
            (λ d ne. find-remove client d ts.queue ne),
            (λ h. absurd (cc (h, e'))),
            (λ t h. let same : np ≡ t = cc (h, e') in rw same refl),
          )
    ]
