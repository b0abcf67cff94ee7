-- ===== src/Bitlist/Print/Lines.antt =====
-- `bitlist_nv_write` ends, and every line that it writes fits.
use my_test_files.Prelude.{
  length-append, ℕ, zero, suc, ◌+◌, ◌-◌, ◌^◌, ◌≤◌, ◌<◌, ◌≡◌, refl, Bool, true, false, ◌||◌, List,
  [], ◌∷◌, ◌++◌, length, leb, ◌==◌, if◌then◌else◌, Option, some, arith, Bool-cases, inl, inr, ◌⊎◌,
}
use my_test_files.Bitlist.{Bitlist, invalid}
use my_test_files.Bitlist.Print.{to_string, write_loop, decorate, nv_write}
use my_test_files.Bitlist.Print.Text.{Ends, to_string-first, to_string-next}
use my_test_files.Bitlist.Print.Rounds.{standing}
use my_test_files.Bitlist.View.{IsValid}

-- the strings that a round writes
abbrev line : List ℕ → List (List ℕ)
line text = if length text == 0 then [] else text ∷ []

write_loop-stop :
    (left : ℕ) (bl last : Bitlist) (size : ℕ) (begin : Bool) (text : List ℕ) (i : ℕ)
    → to_string bl size begin ≡ some (last, text, i)
    → (i == invalid) ≡ true
    → write_loop (suc left) bl size begin ≡ some (last, line text)
unfolding write_loop
write_loop-stop left bl last size begin text i e f = rw (e, write_loop) (rw f refl)

write_loop-go :
    (left : ℕ) (bl last : Bitlist) (size : ℕ) (begin : Bool) (text : List ℕ) (i : ℕ)
    (r : Bitlist × List (List ℕ))
    → to_string bl size begin ≡ some (last, text, i)
    → (i == invalid) ≡ false
    → write_loop left last size false ≡ some r
    → write_loop (suc left) bl size begin ≡ some (r.0, line text ++ r.1)
unfolding write_loop
write_loop-go left bl last size begin text i r e f g = rw (e, write_loop) (rw f (rw g refl))

-- every string is shorter than `size`
pub AllShorter : ℕ → List (List ℕ) → Type 0
AllShorter size [] = Unit {0}
AllShorter size (text ∷ texts) = (length text < size) × AllShorter size texts

AllShorter-line :
    (size : ℕ) (text : List ℕ) (texts : List (List ℕ))
    → (text ≡ []) ⊎ (length text < size)
    → AllShorter size texts
    → AllShorter size (line text ++ texts)
unfolding AllShorter
AllShorter-line size [] texts room all = all
AllShorter-line size (c ∷ text) texts (inl e) all = absurd (cc e)
AllShorter-line size (c ∷ text) texts (inr lt) all =
    let more : (length (c ∷ text) == 0) ≡ false = ground arith in rw more (lt, all)

AllShorter-one :
    (size : ℕ) (text : List ℕ) → (text ≡ []) ⊎ (length text < size) → AllShorter size (line text)
unfolding AllShorter
AllShorter-one size [] room = tt
AllShorter-one size (c ∷ text) (inl e) = absurd (cc e)
AllShorter-one size (c ∷ text) (inr lt) =
    let more : (length (c ∷ text) == 0) ≡ false = ground arith in rw more (lt, tt)

AllShorter-decorate :
    (prefix suffix : List ℕ) (size maxlen : ℕ) (texts : List (List ℕ))
    → size ≡ maxlen - (length prefix + 1 + length suffix)
    → AllShorter size texts
    → AllShorter maxlen (decorate prefix suffix texts)
unfolding AllShorter decorate
AllShorter-decorate prefix suffix size maxlen [] e all = tt
AllShorter-decorate prefix suffix size maxlen (text ∷ texts) e (lt, all) = (
  omega (arith, length-append prefix (32 ∷ (text ++ suffix)), length-append text suffix, e, lt),
  AllShorter-decorate prefix suffix size maxlen texts e all,
)

module _ (bl : Bitlist) (v : IsValid bl)
    (fits : bl.state.base_bit + bl.state.max_bits < 2 ^ 31) where
  -- the loop ends with strings that fit
  Written : ℕ → Option (Bitlist × List (List ℕ)) → Type 0
  Written size o = (r : Bitlist × List (List ℕ)) × (o ≡ some r) × AllShorter size r.1

  -- a round, when the later ones are written
  round :
      (left p size : ℕ) (bl' : Bitlist) (begin : Bool)
      → Ends bl size p (to_string bl' size begin)
      → ((i : ℕ)
          → p ≤ i
          → i < bl.state.max_bits
          → Written size (write_loop left (standing bl i) size false))
      → Written size (write_loop (suc left) bl' size begin)
  unfolding Written
  round left p size bl' begin ends later = elim (Bool-cases (ends.answer == invalid)) [
    | inl stop ↦ (
      (ends.last, line ends.text),
      write_loop-stop left bl' ends.last size begin ends.text ends.answer ends.result stop,
      AllShorter-one size ends.text ends.room,
    )
    | inr go ↦ elim ends.go_on [
      | inl e ↦ absurd (ground (arith, go, e))
      | inr (i, lo, hi, same) ↦
          let (r, eq, all) = later i lo hi in
          (
            (r.0, line ends.text ++ r.1),
            write_loop-go left bl' ends.last size begin ends.text ends.answer r ends.result go
                (rw same eq),
            AllShorter-line size ends.text r.1 ends.room all,
          )
    ]
  ]

  written :
      (left p size : ℕ) (bl' : Bitlist) (begin : Bool)
      → bl.state.max_bits < suc left + p
      → Ends bl size p (to_string bl' size begin)
      → Written size (write_loop (suc left) bl' size begin)
  written zero p size bl' begin fuel ends =
      round zero p size bl' begin ends (λ i lo hi. absurd (omega (arith, fuel, lo, hi)))
  written (suc left) p size bl' begin fuel ends = round (suc left) p size bl' begin ends (λ i lo hi.
      written left (suc i) size (standing bl i) false (omega (arith, fuel, lo))
        (to_string-next bl v fits size i hi))

  Written-whole : (size : ℕ) → Written size (write_loop (bl.state.max_bits + 1) bl size true)
  Written-whole size =
      let rounds : bl.state.max_bits + 1 ≡ suc bl.state.max_bits = omega arith in
      rw rounds
        (written bl.state.max_bits 0 size bl true (omega arith) (to_string-first bl v fits size))

  -- On a well-formed list whose numbers stay below 2 ^ 31 - 1, `bitlist_nv_write` ends, for any
  -- prefix, suffix and length. It returns FALSE and writes nothing when
  -- maxlen - (strlen(prefix) + 1 + strlen(suffix)) is more than 80 and `malloc` fails, and else
  -- TRUE, and every line that it writes is shorter than the length.
  pub nv_write_lem :
      (malloc : Bool) (prefix suffix : List ℕ) (maxlen : ℕ)
      → (answer : Bool) × (bl' : Bitlist) × (lines : List (List ℕ)) × (nv_write malloc bl prefix
            suffix maxlen
          ≡ some (answer, bl', lines))
        × (answer ≡ (leb (maxlen - (length prefix + 1 + length suffix)) 80 || malloc))
        × (answer ≡ false → lines ≡ [])
        × AllShorter maxlen lines
  unfolding nv_write Written AllShorter
  nv_write_lem malloc prefix suffix maxlen =
      let len : ℕ = maxlen - (length prefix + 1 + length suffix) in
      let (r, eq, all) = Written-whole len in
      let short = AllShorter-decorate prefix suffix len maxlen r.1 refl all in
      let done : Bitlist × List (List ℕ) = (r.0, decorate prefix suffix r.1) in
      elim (Bool-cases (leb len 80)) [
        | inl local ↦ rw local (true, done.0, done.1, rw eq refl, refl, (λ e. absurd (cc e)), short)
        | inr large ↦ elim (Bool-cases malloc) [
          | inl given ↦
              rw large
                (rw given (true, done.0, done.1, rw eq refl, refl, (λ e. absurd (cc e)), short))
          | inr refused ↦ rw large (rw refused (false, bl, [], refl, refl, (λ e. refl), tt))
        ]
      ]
