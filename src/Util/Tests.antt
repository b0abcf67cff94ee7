-- ===== src/Util/Tests.antt =====
-- The short programs at concrete inputs.
use my_test_files.Prelude.{
  ℕ, ◌^◌, ◌≤◌, ◌<◌, ◌≡◌, ◌⊎◌, refl, List, [], ◌∷◌, none, some, length, arith,
}
use my_test_files.Util.{
  baseconv, next_highest_power_of_2, next_highest_power_of_2_short, cm_seq_num_make, cm_seq_num_lt,
  u16_seq_num_lt, flow_hash, FlowId,
}
use my_test_files.Util.Digits.{read, baseconv_lem}
use my_test_files.Util.Power.{IsLeastPower, next_highest_power_of_2_lem}

-- 1234 is 4d2 in base 16
baseconv-hex : baseconv 1234 16 ≡ some (some (52 ∷ 100 ∷ 50 ∷ []))
unfolding baseconv my_test_files.Util.convert my_test_files.Util.digit
baseconv-hex = refl

-- the first flow of the program
flow_hash-first :
    flow_hash
      (record { dest_addr = 0xd010302; src_addr = 0x10040402; dest_port = 7778; src_port = 7778 })
    ≡ 968
unfolding flow_hash
flow_hash-first = refl

baseconv_lem_example :
    (2 ≤ 16
      → 16 ≤ 16
      → (s : List ℕ) × (baseconv 1234 16 ≡ some (some s)) × (read 16 0 s ≡ 1234) × (length s ≤ 32))
    × ((16 < 2) ⊎ (16 < 16) → baseconv 1234 16 ≡ some none)
baseconv_lem_example = baseconv_lem 1234 16 (omega arith)

next_highest_power_of_2_lem_example :
    (1 ≤ 123 → 123 ≤ 2 ^ 31 → IsLeastPower 123 (next_highest_power_of_2 123))
    × (2 ^ 31 < 123 → 123 < 2 ^ 32 → next_highest_power_of_2 123 ≡ 1)
    × (next_highest_power_of_2 0 ≡ 1)
    × (1 ≤ 123 → 123 ≤ 2 ^ 15 → IsLeastPower 123 (next_highest_power_of_2_short 123))
    × (2 ^ 15 < 123 → 123 < 2 ^ 16 → next_highest_power_of_2_short 123 ≡ 1)
    × (next_highest_power_of_2_short 0 ≡ 1)
next_highest_power_of_2_lem_example = next_highest_power_of_2_lem 123
