-- ===== src/IpRange/Tests.antt =====
-- The split of ranges at concrete inputs.
use my_test_files.Prelude.{ℕ, ◌≡◌, refl, List, [], ◌∷◌, some, arith}
use my_test_files.IpRange.{
  split_range, NetworkAddr, Comparison, below, above, compar_netaddr, join_sorted,
}
use my_test_files.IpRange.Join.{AreSorted, in_ranges, in_networks, join_sorted_lem}
use my_test_files.IpRange.Split.{Tiles, split_range_lem}

-- from 0.0.0.3 to 0.0.0.9
split-small : split_range 33 0 0 3 9 ≡ some ((3, 32) ∷ (4, 30) ∷ (8, 31) ∷ [])
unfolding split_range my_test_files.IpRange.broadcast my_test_files.IpRange.set_bit
split-small = refl

split_range_lem_example :
    (blocks : List (ℕ × ℕ)) × (split_range 33 0 0 3 9 ≡ some blocks) × Tiles 3 blocks 10
split_range_lem_example = split_range_lem 3 9 (omega arith) (omega arith)

-- 10.0.0.0/31 and 10.0.0.2/31
abbrev first : NetworkAddr
first = record { addr = 167772160; pfx = 31 }

abbrev second : NetworkAddr
second = record { addr = 167772162; pfx = 31 }

join_sorted-two : join_sorted (first ∷ second ∷ []) ≡ (167772160, 167772163) ∷ []
unfolding join_sorted
join_sorted-two = refl

are_sorted : AreSorted first (second ∷ [])
unfolding compar_netaddr
are_sorted = (omega arith, (λ e. absurd (cc e)), tt)

join_sorted_lem_example :
    in_ranges 167772161 (join_sorted (first ∷ second ∷ []))
    ≡ in_networks 167772161 (first ∷ second ∷ [])
join_sorted_lem_example = join_sorted_lem first (second ∷ []) 167772161 (omega arith) are_sorted
