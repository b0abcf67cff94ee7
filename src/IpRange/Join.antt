-- ===== src/IpRange/Join.antt =====
-- The ranges that are printed for sorted networks hold the same addresses.
use my_test_files.Prelude.{
  ℕ, zero, suc, ◌+◌, ◌/◌, ◌^◌, ◌≤◌, ◌<◌, ◌≡◌, refl, ◌∙◌, ap, Bool, false, ◌&&◌, ◌||◌, List, [], ◌∷◌,
  ltb, leb, ◌==◌, Bool-cases, inl, inr, arith, bit_or, ◌≢◌,
}
use my_test_files.Prelude.Word.{add32, not32}
use my_test_files.Prelude.Bits.{bit_or-lt, bit_or_step}
use my_test_files.IpRange.{
  NetworkAddr, above, compar_netaddr, broadcast, netmask, join, join_sorted,
}

-- the address is in a range
abbrev pub is_between : ℕ → ℕ → ℕ → Bool
is_between x lo hi = leb lo x && leb x hi

abbrev pub in_ranges : ℕ → List (ℕ × ℕ) → Bool
in_ranges x [] = false
in_ranges x (r ∷ rs) = is_between x r.0 r.1 || in_ranges x rs

-- the address is in a network
abbrev pub in_networks : ℕ → List NetworkAddr → Bool
in_networks x [] = false
in_networks x (n ∷ ns) = is_between x n.addr (broadcast n.addr n.pfx) || in_networks x ns

-- no address is below `lo` or not of 32 bits, and the networks are in the order of the comparison
abbrev pub AreSorted : NetworkAddr → List NetworkAddr → Type 0
AreSorted n [] = Unit {0}
AreSorted n (m ∷ ms) = (m.addr < 2 ^ 32) × (compar_netaddr n m ≢ above) × AreSorted m ms

addr-le : (n m : NetworkAddr) → compar_netaddr n m ≢ above → n.addr ≤ m.addr
unfolding compar_netaddr
addr-le n m h = elim (Bool-cases (ltb m.addr n.addr)) [
  | inr fine ↦ ground arith
  | inl worse ↦ let e : ltb n.addr m.addr ≡ false = ground arith in absurd (h (rw (e, worse) refl))
]

broadcast-lt : (a p : ℕ) → a < 2 ^ 32 → broadcast a p < 2 ^ 32
unfolding broadcast
broadcast-lt a p h = bit_or-lt 32 a (not32 (netmask p)) h (omega arith)

le-bit_or : (bound a y : ℕ) → a ≤ bound → a ≤ bit_or a y
le-bit_or zero a y le = omega arith
le-bit_or (suc bound) a y le = elim (Bool-cases (a == 0)) [
  | inl none_set ↦ ground arith
  | inr some_set ↦ omega (arith, bit_or_step a y, le-bit_or bound (a / 2) (y / 2) (ground arith))
]

le-broadcast : (a p : ℕ) → a ≤ broadcast a p
unfolding broadcast
le-broadcast a p = le-bit_or a a (not32 (netmask p)) (omega arith)

-- the three ways to go on, for one address
nested :
    (x lo hi a bc : ℕ) (r : Bool)
    → lo ≤ a
    → bc ≤ hi
    → (is_between x lo hi || r) ≡ (is_between x lo hi || (is_between x a bc || r))
nested x lo hi a bc r h k = ground arith

adjacent :
    (x lo hi a bc : ℕ) (r : Bool)
    → lo ≤ hi
    → a ≡ hi + 1
    → hi < bc
    → (is_between x lo bc || r) ≡ (is_between x lo hi || (is_between x a bc || r))
adjacent x lo hi a bc r h e k = ground arith

join-in_ranges :
    (ns : List NetworkAddr) (n : NetworkAddr) (x lo hi : ℕ)
    → lo ≤ n.addr
    → lo ≤ hi
    → hi < 2 ^ 32
    → AreSorted n ns
    → in_ranges x (join lo hi ns) ≡ (is_between x lo hi || in_networks x ns)
unfolding join
join-in_ranges [] n x lo hi first order fits sorted = refl
join-in_ranges (m ∷ ms) n x lo hi first order fits (wide, ordered, sorted) =
    let bc = broadcast m.addr m.pfx in
    let le : lo ≤ m.addr = omega (arith, first, addr-le n m ordered) in
    let small = broadcast-lt m.addr m.pfx wide in
    let rest = in_networks x ms in
    elim (Bool-cases (leb bc hi)) [
      | inl inside ↦ rw inside (
          join-in_ranges ms m x lo hi le order fits sorted
          ∙ nested x lo hi m.addr bc rest le (ground arith))
      | inr beyond ↦ rw beyond (elim (Bool-cases (m.addr == add32 hi 1)) [
        | inl next ↦
            let e : m.addr ≡ hi + 1 = ground (arith, small, beyond, next) in
            rw next (
              join-in_ranges ms m x lo bc le (ground (arith, beyond, order)) small sorted
              ∙ adjacent x lo hi m.addr bc rest order e (ground (arith, beyond)))
        | inr gap ↦ rw gap (
            ap (λ t. is_between x lo hi || t)
              (join-in_ranges ms m x m.addr bc (omega arith) (le-broadcast m.addr m.pfx) small
                sorted))
      ])
    ]

-- For networks with addresses of 32 bits in the order of `compar_netaddr`, an address is in one
-- of the ranges that are printed exactly if it is in one of the networks.
pub join_sorted_lem :
    (n : NetworkAddr) (ns : List NetworkAddr) (x : ℕ)
    → n.addr < 2 ^ 32
    → AreSorted n ns
    → in_ranges x (join_sorted (n ∷ ns)) ≡ in_networks x (n ∷ ns)
unfolding join_sorted
join_sorted_lem n ns x wide sorted =
    join-in_ranges ns n x n.addr (broadcast n.addr n.pfx) (omega arith) (le-broadcast n.addr n.pfx)
      (broadcast-lt n.addr n.pfx wide) sorted
