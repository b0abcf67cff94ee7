-- ===== src/Inotify/Message.antt =====
-- inotify_utils.c: what `handle_event` tells of an event.
use my_test_files.Prelude.{
  ℕ, zero, suc, ◌≡◌, ◌≢◌, refl, List, [], ◌∷◌, map, get_elem?, ◌==◌, Option, none, some, true,
  false, arith, Bool-cases, inl, inr, ◌⊎◌,
}
use my_test_files.Inotify.{
  Event, Kind, access, modify, attrib, close, open_file, moved_from, moved_to, delete_subdir,
  delete_file, create_subdir, create_file, delete_self, unmount, q_overflow, ignored, unknown,
  Report, cases, choose, handle_event,
}

-- the mask that a message is for
unfoldable pub mask_of : Kind → Option ℕ
mask_of access = some 0x1
mask_of modify = some 0x2
mask_of attrib = some 0x4
mask_of close = some 0x18
mask_of open_file = some 0x20
mask_of moved_from = some 0x40
mask_of moved_to = some 0x80
mask_of delete_subdir = some 0x100
mask_of delete_file = some 0x200
mask_of create_subdir = some 0x400
mask_of create_file = some 0x800
mask_of delete_self = some 0x1000
mask_of unmount = some 0x2000
mask_of q_overflow = some 0x4000
mask_of ignored = some 0x8000
mask_of unknown = none

-- The report tells the event: the message for its mask, or the one for an unknown event where no
-- message is for that mask, the name if there is one, and the watch descriptor.
pub record Tells (e : Event) (r : Report) : Type 0 where
  pub kind :
      (mask_of r.kind ≡ some e.mask) ⊎ ((r.kind ≡ unknown) × ((k : Kind) → mask_of k ≢ some e.mask))
  pub named : e.len ≢ 0 → r.filename ≡ some e.filename
  pub unnamed : e.len ≡ 0 → r.filename ≡ none
  pub wd : r.wd ≡ e.wd

-- every value of the list belongs to its message
AreRight : List (ℕ × Kind) → Type 0
AreRight [] = Unit {0}
AreRight ((value, kind) ∷ rest) = (mask_of kind ≡ some value) × AreRight rest

-- the list has the mask
Misses : ℕ → List (ℕ × Kind) → Type 0
Misses mask list =
    (i value : ℕ) (kind : Kind) → get_elem? list i ≡ some (value, kind) → value ≢ mask

choose_lem :
    (mask : ℕ) (list : List (ℕ × Kind))
    → AreRight list
    → (mask_of (choose mask list) ≡ some mask) ⊎ ((choose mask list ≡ unknown) × Misses mask list)
unfolding AreRight choose Misses
choose_lem mask [] right = inr (refl, λ i value kind e. absurd (cc e))
choose_lem mask ((value, kind) ∷ rest) (right, later) = elim (Bool-cases (mask == value)) [
  | inl same ↦ let s : value ≡ mask = ground (arith, same) in rw same (inl (rw s at right))
  | inr other ↦ rw other (elim (choose_lem mask rest later) [
    | inl found ↦ inl found
    | inr (none_left, misses) ↦ inr (none_left, apart value kind rest other misses)
  ])
]
  where
    apart :
        (value : ℕ) (kind : Kind) (rest : List (ℕ × Kind))
        → (mask == value) ≡ false
        → Misses mask rest
        → Misses mask ((value, kind) ∷ rest)
    apart value kind rest other misses zero v k e same =
        let first : value ≡ v = cc e in absurd (ground (arith, other, first, same))
    apart value kind rest other misses (suc i) v k e same = misses i v k e same

cases-AreRight : AreRight cases
unfolding AreRight mask_of
cases-AreRight = (
  refl,
  (
    refl,
    (
      refl,
      (
        refl,
        (refl, (refl, (refl, (refl, (refl, (refl, (refl, (refl, (refl, (refl, (refl, tt))))))))))),
      ),
    ),
  ),
)

-- Every message for a mask is in the `switch`.
no_message : (mask : ℕ) → Misses mask cases → (k : Kind) → mask_of k ≢ some mask
unfolding mask_of Misses
no_message mask misses access e = misses 0 0x1 access refl (cc e)
no_message mask misses modify e = misses 1 0x2 modify refl (cc e)
no_message mask misses attrib e = misses 2 0x4 attrib refl (cc e)
no_message mask misses close e = misses 3 0x18 close refl (cc e)
no_message mask misses open_file e = misses 4 0x20 open_file refl (cc e)
no_message mask misses moved_from e = misses 5 0x40 moved_from refl (cc e)
no_message mask misses moved_to e = misses 6 0x80 moved_to refl (cc e)
no_message mask misses delete_subdir e = misses 7 0x100 delete_subdir refl (cc e)
no_message mask misses delete_file e = misses 8 0x200 delete_file refl (cc e)
no_message mask misses create_subdir e = misses 9 0x400 create_subdir refl (cc e)
no_message mask misses create_file e = misses 10 0x800 create_file refl (cc e)
no_message mask misses delete_self e = misses 11 0x1000 delete_self refl (cc e)
no_message mask misses unmount e = misses 12 0x2000 unmount refl (cc e)
no_message mask misses q_overflow e = misses 13 0x4000 q_overflow refl (cc e)
no_message mask misses ignored e = misses 14 0x8000 ignored refl (cc e)
no_message mask misses unknown e = absurd (cc e)

pub handle_event-Tells : (e : Event) → Tells e (handle_event e)
unfolding handle_event
handle_event-Tells e = record {
  kind = elim (choose_lem e.mask cases cases-AreRight) [
    | inl found ↦ inl found
    | inr (none_left, misses) ↦ inr (none_left, no_message e.mask misses)
  ];
  named = λ ne. let long : (e.len == 0) ≡ false = ground (arith, ne) in rw long refl;
  unnamed = λ z. let short : (e.len == 0) ≡ true = ground (arith, z) in rw short refl;
  wd = refl;
}

-- the reports tell the events, one each and in the same order
unfoldable pub Tell : List Event → List Report → Type 0
Tell [] [] = Unit {0}
Tell (e ∷ es) (r ∷ rs) = Tells e r × Tell es rs
Tell _ _ = ⊥

pub map-Tell : (es : List Event) → Tell es (map handle_event es)
unfolding Tell
map-Tell [] = tt
map-Tell (e ∷ es) = (handle_event-Tells e, map-Tell es)
