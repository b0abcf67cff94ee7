-- ===== src/Timer.antt =====
-- multimer.c: timers multiplexed in one queue. `time_t` and `suseconds_t` are `int64_t`, 64-bit
-- patterns. The queue and the list of free elements are lists of elements, in order; `which`, which
-- is never read, is left out. `malloc` is taken to succeed. Each call of `gettimeofday` takes the
-- next of the readings given. A handler is client code: `handle func client` is what it does to the
-- timers. A failed assertion is `none` in `timer_set`.
pub mod Order
pub mod Laws
pub mod Clients
pub mod Fire
pub mod Get
pub mod Ends
pub mod Calls
mod Tests
use my_test_files.Prelude.{
  ℕ, Bool, true, false, not, ◌&&◌, ◌||◌, ◌==◌, List, [], ◌∷◌, Option, none, some, ◌>>=◌,
  if◌then◌else◌,
}
use my_test_files.Prelude.Word64.{add64, sub64, slt64}
use my_test_files.Time.{Timeval}

-- `TQE`
pub record Tqe : Type 0 where
  pub time : Timeval
  pub interval : Timeval
  pub func : ℕ
  pub client : ℕ

-- `timerQ` and `freeTQEQ`
pub record Timers : Type 0 where
  pub queue : List Tqe
  pub free : List Tqe

abbrev pub zero_time : Timeval
zero_time = record { tv_sec = 0; tv_usec = 0 }

pub timeradd : Timeval → Timeval → Timeval
timeradd a b =
    let usec : ℕ = add64 a.tv_usec b.tv_usec in
    if slt64 usec 1000000
    then record { tv_sec = add64 a.tv_sec b.tv_sec; tv_usec = usec }
    else record { tv_sec = add64 (add64 a.tv_sec b.tv_sec) 1; tv_usec = sub64 usec 1000000 }

pub timerless : Timeval → Timeval → Bool
timerless a b = slt64 a.tv_sec b.tv_sec || ((a.tv_sec == b.tv_sec) && slt64 a.tv_usec b.tv_usec)

-- whether the assertions hold
pub timer_check : List Tqe → Bool
timer_check [] = true
timer_check (np ∷ rest) =
    slt64 np.time.tv_usec 1000000 && (slt64 np.interval.tv_usec 1000000 && timer_check rest)

-- the first loop of `timer_set`: the client's element, if it has one, and the queue without it
pub remove : ℕ → List Tqe → Option Tqe × List Tqe
remove client [] = (none, [])
remove client (np ∷ rest) =
    let (found, others) = remove client rest in
    if np.client == client then (some np, rest) else (found, np ∷ others)

-- a new element, of which only the interval is set
abbrev pub fresh : Tqe
fresh = record { time = zero_time; interval = zero_time; func = 0; client = 0 }

-- an element from the list of free ones, or a new one, and the free ones left
pub allocate : List Tqe → Tqe × List Tqe
allocate [] = (fresh, [])
allocate (tp ∷ rest) = (tp, rest)

-- the last loop of `timer_set`
pub insert : Tqe → List Tqe → List Tqe
insert tp [] = tp ∷ []
insert tp (np ∷ rest) = if timerless tp.time np.time then tp ∷ np ∷ rest else np ∷ insert tp rest

-- `timer_set` from the calculation of the expiration time on, with the element to use. What is
-- returned is what the pointer returned points at, and the timers.
pub start :
    Timeval → ℕ → ℕ → Bool → Timeval → Tqe → List Tqe → List Tqe → Option (Option Timeval × Timers)
start interval func client relative now tp queue free =
    let time : Timeval = if relative then timeradd now interval else interval in
    let tp' : Tqe = record { time = time; interval = tp.interval; func = func; client = client } in
    let queue' : List Tqe = insert tp' queue in
    if relative && not (slt64 time.tv_usec 1000000)
    then none
    else if timer_check queue'
    then some (some tp.interval, record { queue = queue'; free = free })
    else none

-- `now` is what the clock reads, if the call reads it.
pub timer_set : Option Timeval → ℕ → ℕ → Bool → Timeval → Timers → Option (Option Timeval × Timers)
timer_set none func client relative now ts =
    let (found, queue) = remove client ts.queue in
    elim found [
      | none ↦ some (none, record { queue = queue; free = ts.free })
      | some np ↦ some (none, record { queue = queue; free = np ∷ ts.free })
    ]
timer_set (some interval) func client relative now ts =
    let (found, queue) = remove client ts.queue in
    elim found [
      | none ↦
          let (tp, free) = allocate ts.free in start interval func client relative now tp queue free
      | some np ↦ start interval func client relative now np queue ts.free
    ]

-- the time from `now` to `time`
pub gap : Timeval → Timeval → Timeval
gap time now =
    let sec : ℕ = sub64 time.tv_sec now.tv_sec in
    let usec : ℕ = sub64 time.tv_usec now.tv_usec in
    if slt64 usec 0
    then record { tv_sec = sub64 sec 1; tv_usec = add64 usec 1000000 }
    else record { tv_sec = sec; tv_usec = usec }

-- whether an interval is not zero
unfoldable pub is_periodic : Tqe → Bool
is_periodic tp = not (tp.interval.tv_sec == 0) || not (tp.interval.tv_usec == 0)

-- An expired head is freed, and set again when it has an interval.
pub fire : Tqe → List Tqe → List Tqe → Option Timers
fire tp queue free =
    let next : Timeval = timeradd tp.interval tp.time in
    let tp' : Tqe = record {
      time = next;
      interval = tp.interval;
      func = tp.func;
      client = tp.client;
    } in
    if is_periodic tp
    then (do
      r ←
          timer_set (some next) tp.func tp.client false zero_time
            (record { queue = queue; free = tp' ∷ free })
      some r.1)
    else some (record { queue = queue; free = tp ∷ free })

-- what `timer_get` comes to: a failed assertion, a wait for the next reading of the clock, when
-- those given are used up, or a return, with the timeout or NULL, the timers left, and the handlers
-- called with their clients, in order
pub data Got : Type 0 where
  aborted : Got
  unread : Got
  returned : Option Timeval → Timers → List (ℕ × ℕ) → Got

-- the result of a round after one that called a handler
pub after : ℕ × ℕ → Got → Got
after call aborted = aborted
after call unread = unread
after call (returned timeout ts calls) = returned timeout ts (call ∷ calls)

pub get_loop : (ℕ → ℕ → Timers → Timers) → List Timeval → Timers → Got
get_loop handle [] ts = elim ts.queue [ [] ↦ returned none ts [] | _ ∷ _ ↦ unread ]
get_loop handle (now ∷ later) ts = elim ts.queue [
  | [] ↦ returned none ts []
  | tp ∷ queue ↦ elim (timerless now tp.time) [
    | true ↦
        if slt64 (gap tp.time now).tv_usec 1000000
        then returned (some (gap tp.time now)) ts []
        else aborted
    | false ↦ elim (fire tp queue ts.free) [
      | none ↦ aborted
      | some ts' ↦ after (tp.func, tp.client) (get_loop handle later (handle tp.func tp.client ts'))
    ]
  ]
]

pub timer_get : (ℕ → ℕ → Timers → Timers) → List Timeval → Timers → Got
timer_get handle readings ts = if timer_check ts.queue then get_loop handle readings ts else aborted

pub timer_pending : Timers → Bool
timer_pending ts = elim ts.queue [ [] ↦ false | _ ∷ _ ↦ true ]
