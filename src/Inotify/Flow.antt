-- ===== src/Inotify/Flow.antt =====
-- inotify_utils.c: what is read is reported, in order, through the event queue.
use my_test_files.Prelude.{ℕ, ◌≤◌, true, List, [], ◌∷◌, ◌++◌, length, some, none}
use my_test_files.Inotify.{Event, Round}
use my_test_files.Inotify.Reading.{AllEvents, encode_all}

-- rounds in which `select` and `read` give the bytes of a batch of events each, and a last one in
-- which `read` fails
unfoldable pub rounds : List (List Event) → List Round
rounds [] = record { ready = true; input = none } ∷ []
rounds (batch ∷ batches) = record { ready = true; input = some (encode_all batch) } ∷ rounds batches

-- the events of all batches
unfoldable pub all_of : List (List Event) → List Event
all_of [] = []
all_of (batch ∷ batches) = batch ++ all_of batches

-- every batch has events that the struct holds, and at most as many as the queue
unfoldable pub Fit : ℕ → List (List Event) → Type 0
Fit capacity [] = Unit {0}
Fit capacity (batch ∷ batches) = AllEvents batch × (length batch ≤ capacity) × Fit capacity batches
