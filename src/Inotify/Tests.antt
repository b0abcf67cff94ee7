-- ===== src/Inotify/Tests.antt =====
-- inotify_utils.c at concrete inputs.
use my_test_files.Prelude.{◌≡◌, refl, List, [], ◌∷◌, none, some}
use my_test_files.EventQueue.{new_queue, queue_make_empty}
use my_test_files.Inotify.{Event, Sample, choose, close, create_file, unknown, handle_event}

-- a file is created, and closed
abbrev created : Event
created = record { wd = 1; mask = 0x800; cookie = 0; len = 2; filename = 97 ∷ 0 ∷ [] }

abbrev closed : Event
closed = record { wd = 1; mask = 0x18; cookie = 0; len = 0; filename = [] }

handle_event-created :
    handle_event created ≡ record { kind = create_file; filename = some (97 ∷ 0 ∷ []); wd = 1 }
unfolding handle_event choose
handle_event-created = refl

handle_event-closed : handle_event closed ≡ record { kind = close; filename = none; wd = 1 }
unfolding handle_event choose
handle_event-closed = refl

-- IN_CLOSE_WRITE alone is not a case of the `switch`.
handle_event-close_write :
    handle_event (record { wd = 1; mask = 0x8; cookie = 0; len = 0; filename = [] })
    ≡ record { kind = unknown; filename = none; wd = 1 }
unfolding handle_event choose
handle_event-close_write = refl

-- two rounds of events, and the last one
abbrev batches : List (List Event)
batches = (created ∷ closed ∷ []) ∷ (created ∷ []) ∷ []

abbrev sample : Sample
sample = record { queue = queue_make_empty (new_queue 2 (0 ∷ 0 ∷ [])); heap = []; freed = [] }
