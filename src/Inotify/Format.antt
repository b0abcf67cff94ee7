-- ===== src/Inotify/Format.antt =====
-- inotify_utils.c: the bytes of an event are read back as the event.
use my_test_files.Prelude.{
  ℕ, zero, suc, ◌+◌, ◌*◌, ◌/◌, ◌%◌, ◌^◌, ◌<◌, ◌≡◌, refl, List, [], ◌∷◌, ◌++◌, length, some, arith,
}
use native.Mathlib.Nat.{pow-suc}
use my_test_files.Inotify.{Event, number_at, bytes_at, event_at}

-- the `n` bytes of a number, the lowest first, in front of `rest`
unfoldable pub bytes_of : ℕ → ℕ → List ℕ → List ℕ
bytes_of zero v rest = rest
bytes_of (suc n) v rest = v % 256 ∷ bytes_of n (v / 256) rest

number_at-bytes_of :
    (n v : ℕ) (rest : List ℕ) → v < 256 ^ n → number_at n (bytes_of n v rest) ≡ some (v, rest)
unfolding number_at bytes_of
number_at-bytes_of zero v rest h = let none_left : 0 ≡ v = omega (arith, h) in rw none_left refl
number_at-bytes_of (suc n) v rest h =
    let low : v / 256 < 256 ^ n = omega (arith, h, pow-suc 256 n) in
    let whole : v % 256 + 256 * (v / 256) ≡ v = omega arith in
    rw (number_at-bytes_of n (v / 256) rest low) (rw whole refl)

bytes_at-append : (xs rest : List ℕ) → bytes_at (length xs) (xs ++ rest) ≡ some (xs, rest)
unfolding bytes_at
bytes_at-append [] rest = refl
bytes_at-append (x ∷ xs) rest = rw (bytes_at-append xs rest) refl

-- an event that the fields of the struct hold
pub record IsEvent (e : Event) : Type 0 where
  pub wd : e.wd < 256 ^ 4
  pub mask : e.mask < 256 ^ 4
  pub cookie : e.cookie < 256 ^ 4
  pub small : e.len < 256 ^ 8
  pub len : e.len ≡ length e.filename

-- the bytes of an event, with four bytes of padding in front of `len`
unfoldable pub encode : Event → List ℕ → List ℕ
unfolding bytes_of
encode e rest =
    bytes_of 4 e.wd (
      bytes_of 4 e.mask
        (bytes_of 4 e.cookie (bytes_of 4 0 (bytes_of 8 e.len (e.filename ++ rest)))))

pub event_at-encode :
    (e : Event) (rest : List ℕ) → IsEvent e → event_at (encode e rest) ≡ some (e, rest)
unfolding event_at encode
event_at-encode e rest h =
    let name : bytes_at e.len (e.filename ++ rest) ≡ some (e.filename, rest) =
      rw (h.len) (bytes_at-append e.filename rest) in
    rw (number_at-bytes_of 4 e.wd _ h.wd) (
      rw (number_at-bytes_of 4 e.mask _ h.mask) (
        rw (number_at-bytes_of 4 e.cookie _ h.cookie) (
          rw (number_at-bytes_of 4 0 (bytes_of 8 e.len (e.filename ++ rest)) (omega arith))
            (rw (number_at-bytes_of 8 e.len (e.filename ++ rest) h.small) (rw name refl)))))
