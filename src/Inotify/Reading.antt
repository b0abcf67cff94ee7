-- ===== src/Inotify/Reading.antt =====
-- inotify_utils.c: the reading of events into the queue.
use my_test_files.Prelude.{
  ℕ, zero, suc, ◌+◌, ◌≤◌, ◌≡◌, refl, ◌∙◌, ap, false, List, [], ◌∷◌, ◌++◌, length, ◌==◌, some, arith,
  length-append,
}
use mathlib.Core.List.{append-nil, append_assoc}
use my_test_files.EventQueue.{Queue, queue_enqueue}
use my_test_files.EventQueue.Laws.{Represents, queue_enqueue_lem}
use my_test_files.Inotify.{Event, Sample, event_at, read_loop, read_events}
use my_test_files.Inotify.Format.{IsEvent, bytes_of, encode, event_at-encode}
use my_test_files.Inotify.Pending.{Points-append, length-Points, Holding}

-- the bytes of several events
unfoldable pub encode_all : List Event → List ℕ
encode_all [] = []
encode_all (e ∷ es) = encode e (encode_all es)

unfoldable pub AllEvents : List Event → Type 0
AllEvents [] = Unit {0}
AllEvents (e ∷ es) = IsEvent e × AllEvents es

read_loop-event :
    (left count : ℕ) (bytes : List ℕ) (b : ℕ) (s : Sample) (e : Event) (rest : List ℕ) (q : Queue)
    → event_at (b ∷ bytes) ≡ some (e, rest)
    → queue_enqueue (suc (length s.heap)) s.queue ≡ some q
    → read_loop (suc left) (b ∷ bytes) s count
      ≡ read_loop left rest
          (record { queue = q; heap = s.heap ++ (e ∷ []); freed = s.freed })
          (count + 1)
unfolding read_loop
read_loop-event left count bytes b s e rest q f g = rw (f, read_loop) (rw g refl)

length-encode : (e : Event) (rest : List ℕ) → length rest + 1 ≤ length (encode e rest)
unfolding encode bytes_of
length-encode e rest = omega (arith, length-append e.filename rest)

length-encode_all : (es : List Event) → length es ≤ length (encode_all es)
unfolding encode_all
length-encode_all [] = omega arith
length-encode_all (e ∷ es) = omega (arith, length-encode e (encode_all es), length-encode_all es)

-- The reading of events that the queue has room for.
read_loop_lem :
    (capacity left count : ℕ) (evs pending : List Event) (s : Sample)
    → AllEvents evs
    → Holding capacity pending s
    → length pending + length evs ≤ capacity
    → length evs ≤ left
    → (s' : Sample) × (read_loop left (encode_all evs) s count ≡ some (s', count + length evs))
      × Holding capacity (pending ++ evs) s'
      × (s'.freed ≡ s.freed)
unfolding AllEvents encode_all encode bytes_of read_loop
read_loop_lem capacity left count [] pending s all holding fits le =
    let same : count + 0 ≡ count = omega arith in
    (s, rw same refl, rw (append-nil pending) holding, refl)
read_loop_lem capacity zero count (e ∷ evs) pending s all holding fits le =
    absurd (omega (arith, le))
read_loop_lem capacity (suc left) count (e ∷ evs) pending s (h, all) holding fits le =
    let pointer : ℕ = suc (length s.heap) in
    let (q, eq, cap, r) = queue_enqueue_lem s.queue holding.pointers pointer holding.queue in
    let len = length-Points s.heap holding.pointers pending holding.points in
    let room : (length holding.pointers == s.queue.capacity) ≡ false =
      ground (arith, len, fits, holding.room) in
    let next : Sample = record { queue = q; heap = s.heap ++ (e ∷ []); freed = s.freed } in
    let queued : Represents q (holding.pointers ++ (pointer ∷ [])) = rw room at r in
    let holding' : Holding capacity (pending ++ (e ∷ [])) next = record {
      pointers = holding.pointers ++ (pointer ∷ []);
      queue = queued;
      points = Points-append s.heap holding.pointers pending e holding.points;
      room = cap ∙ holding.room;
    } in
    let (s', rest, last, freed) =
      read_loop_lem capacity left (count + 1) evs (pending ++ (e ∷ [])) next all holding'
        (omega (arith, fits, length-append pending (e ∷ []))) (omega (arith, le)) in
    let sum : count + 1 + length evs ≡ count + suc (length evs) = omega arith in
    (
      s',
      read_loop-event left count _ _ s e (encode_all evs) q (event_at-encode e (encode_all evs) h)
            eq
          ∙ rest
          ∙ ap (λ n. some (s', n)) sum,
      rw (append_assoc pending (e ∷ []) evs) at last,
      freed,
    )

pub read_events_lem :
    (capacity : ℕ) (evs : List Event) (s : Sample)
    → AllEvents evs
    → Holding capacity [] s
    → length evs ≤ capacity
    → (s' : Sample) × (n : ℕ) × (read_events (some (encode_all evs)) s ≡ some (s', some n))
      × Holding capacity evs s'
unfolding read_events
read_events_lem capacity evs s all holding fits =
    let (s', eq, last, _) =
      read_loop_lem capacity (length (encode_all evs)) 0 evs [] s all holding (omega (arith, fits))
        (length-encode_all evs) in
    (s', 0 + length evs, rw eq refl, last)
