-- ===== src/Inotify/Pending.antt =====
-- inotify_utils.c: the events that the queue points to, and their handling.
use my_test_files.Prelude.{
  ℕ, zero, suc, ◌≤◌, ◌≡◌, refl, ◌∙◌, sym, ap, true, false, List, [], ◌∷◌, ◌++◌, map, length,
  get_elem?, ◌==◌, some, arith, Bool-cases, inl, inr,
}
use mathlib.Core.List.{append-nil, append_assoc}
use my_test_files.EventQueue.{queue_empty, queue_front, queue_dequeue}
use my_test_files.EventQueue.Laws.{Represents, queue_front_lem, queue_dequeue_lem}
use my_test_files.EventQueue.Runs.{capacity-dequeue}
use my_test_files.Inotify.{Event, Report, Sample, handle_pending, handle_event, handle_events}

-- The pointers point to the events.
unfoldable pub Points : List Event → List ℕ → List Event → Type 0
Points heap [] [] = Unit {0}
Points heap (suc p ∷ xs) (e ∷ es) = (get_elem? heap p ≡ some e) × Points heap xs es
Points heap _ _ = ⊥

get_elem?-append :
    (heap more : List Event) (p : ℕ) (e : Event)
    → get_elem? heap p ≡ some e
    → get_elem? (heap ++ more) p ≡ some e
get_elem?-append [] more p e h = absurd (cc h)
get_elem?-append (x ∷ heap) more zero e h = h
get_elem?-append (x ∷ heap) more (suc p) e h = get_elem?-append heap more p e h

get_elem?-append_last :
    (heap : List Event) (e : Event) → get_elem? (heap ++ (e ∷ [])) (length heap) ≡ some e
get_elem?-append_last [] e = refl
get_elem?-append_last (x ∷ heap) e = get_elem?-append_last heap e

pub Points-append :
    (heap : List Event) (xs : List ℕ) (es : List Event) (e : Event)
    → Points heap xs es
    → Points (heap ++ (e ∷ [])) (xs ++ (suc (length heap) ∷ [])) (es ++ (e ∷ []))
unfolding Points
Points-append heap [] [] e h = (get_elem?-append_last heap e, tt)
Points-append heap [] (x ∷ es) e h = elim h [ ]
Points-append heap (zero ∷ xs) [] e h = elim h [ ]
Points-append heap (zero ∷ xs) (x ∷ es) e h = elim h [ ]
Points-append heap (suc p ∷ xs) [] e h = elim h [ ]
Points-append heap (suc p ∷ xs) (x ∷ es) e (h, hs) =
    (get_elem?-append heap (e ∷ []) p x h, Points-append heap xs es e hs)

pub length-Points :
    (heap : List Event) (xs : List ℕ) (es : List Event) → Points heap xs es → length xs ≡ length es
unfolding Points
length-Points heap [] [] h = refl
length-Points heap [] (x ∷ es) h = elim h [ ]
length-Points heap (zero ∷ xs) [] h = elim h [ ]
length-Points heap (zero ∷ xs) (x ∷ es) h = elim h [ ]
length-Points heap (suc p ∷ xs) [] h = elim h [ ]
length-Points heap (suc p ∷ xs) (x ∷ es) (_, hs) = ap suc (length-Points heap xs es hs)

pub empty-Points : (heap : List Event) (xs : List ℕ) → Points heap xs [] → xs ≡ []
unfolding Points
empty-Points heap [] h = refl
empty-Points heap (zero ∷ xs) h = elim h [ ]
empty-Points heap (suc p ∷ xs) h = elim h [ ]

-- the queue holds pointers to the events that are pending
pub record Holding (capacity : ℕ) (pending : List Event) (s : Sample) : Type 0 where
  pub pointers : List ℕ
  pub queue : Represents s.queue pointers
  pub points : Points s.heap pointers pending
  pub room : s.queue.capacity ≡ capacity

handle_events-front :
    (left place : ℕ) (s : Sample) (event : Event)
    → queue_empty s.queue ≡ false
    → queue_front s.queue ≡ some (suc place)
    → get_elem? s.heap place ≡ some event
    → (r : Sample × List Report)
    → handle_events left (record {
      queue = queue_dequeue s.queue;
      heap = s.heap;
      freed = s.freed ++ (suc place ∷ []);
    })
      ≡ some r
    → handle_events (suc left) s ≡ some (r.0, handle_event event ∷ r.1)
unfolding handle_events
handle_events-front left place s event e f g r h = rw (e, handle_events) (rw f (rw g (rw h refl)))

handle_events-empty :
    (left : ℕ) (s : Sample) → queue_empty s.queue ≡ true → handle_events left s ≡ some (s, [])
unfolding handle_events
handle_events-empty zero s e = rw e refl
handle_events-empty (suc left) s e = rw (e, handle_events) refl

-- The handling of what is pending.
pub handled :
    (capacity left : ℕ) (xs : List ℕ) (es : List Event) (s : Sample)
    → Represents s.queue xs
    → Points s.heap xs es
    → s.queue.capacity ≡ capacity
    → length xs ≤ left
    → (s' : Sample) × (handle_events left s ≡ some (s', map handle_event es))
      × Holding capacity [] s'
      × (s'.freed ≡ s.freed ++ xs)
unfolding Points queue_empty
handled capacity left [] [] s r h room le =
    let empty : (s.queue.size == 0) ≡ true = ground (arith, r.size) in
    (
      s,
      handle_events-empty left s empty,
      record { pointers = []; queue = r; points = tt; room = room },
      sym (append-nil s.freed),
    )
handled capacity left [] (x ∷ es) s r h room le = elim h [ ]
handled capacity left (zero ∷ xs) [] s r h room le = elim h [ ]
handled capacity left (zero ∷ xs) (x ∷ es) s r h room le = elim h [ ]
handled capacity left (suc p ∷ xs) [] s r h room le = elim h [ ]
handled capacity zero (suc p ∷ xs) (x ∷ es) s r h room le = absurd (omega (arith, le))
handled capacity (suc left) (suc p ∷ xs) (x ∷ es) s r (h, hs) room le =
    let full : (s.queue.size == 0) ≡ false = ground (arith, r.size) in
    let next : Sample = record {
      queue = queue_dequeue s.queue;
      heap = s.heap;
      freed = s.freed ++ (suc p ∷ []);
    } in
    let (s', eq, holding, freed) =
      handled capacity left xs es next (queue_dequeue_lem s.queue (suc p ∷ xs) r) hs
        (capacity-dequeue s.queue ∙ room) (omega (arith, le)) in
    (
      s',
      handle_events-front left p s x full (queue_front_lem s.queue (suc p ∷ xs) r) h
          (s', map handle_event es) eq,
      holding,
      freed ∙ append_assoc s.freed (suc p ∷ []) xs,
    )

pub handle_pending_lem :
    (s : Sample) (r : Sample × List Report)
    → handle_events s.queue.size s ≡ some r
    → handle_pending s ≡ some r
unfolding handle_pending
handle_pending_lem s r h = elim (Bool-cases (queue_empty s.queue)) [
  | inl e ↦ rw e (sym (handle_events-empty s.queue.size s e) ∙ h)
  | inr e ↦ rw e h
]
