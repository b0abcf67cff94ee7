-- ===== src/Util/Sequence.antt =====
-- test_seqnum.c and test_avsm_hash.c: the order of sequence numbers, and the hash of a flow.
use my_test_files.Prelude.{ℕ, ◌+◌, ◌-◌, ◌%◌, ◌^◌, ◌≤◌, ◌<◌, ◌≡◌, ◌↔◌, ap, arith, bit_and}
use my_test_files.Util.{cm_seq_num_make, cm_seq_num_lt, u16_seq_num_lt, FlowId, flow_hash}

-- A sequence number is before the one that is `d` further on, modulo 2 ^ 32, exactly for `d` from
-- 1 to 2 ^ 31, and the same for 16 bits with 2 ^ 15. The result is 0 or 1, and at the distance
-- 2 ^ 31 each of two numbers is before the other.
pub seq_num_lt_lem :
    (s d : ℕ)
    → d < 2 ^ 32
    → ((cm_seq_num_lt (cm_seq_num_make (s % 2 ^ 32)) (cm_seq_num_make ((s + d) % 2 ^ 32)) ≡ 1)
        ↔ ((1 ≤ d) × (d ≤ 2 ^ 31)))
      × (d < 2 ^ 16
          → (u16_seq_num_lt (s % 2 ^ 16) ((s + d) % 2 ^ 16) ≡ 1) ↔ ((1 ≤ d) × (d ≤ 2 ^ 15)))
      × (cm_seq_num_lt (cm_seq_num_make (s % 2 ^ 32)) (cm_seq_num_make ((s + 2 ^ 31) % 2 ^ 32)) ≡ 1)
      × (cm_seq_num_lt (cm_seq_num_make ((s + 2 ^ 31) % 2 ^ 32)) (cm_seq_num_make (s % 2 ^ 32)) ≡ 1)
unfolding cm_seq_num_lt cm_seq_num_make u16_seq_num_lt
seq_num_lt_lem s d h = (
  ((λ e. (omega (arith, e), omega (arith, e))), (λ p. omega (arith, p.0, p.1))),
  (λ h'. ((λ e. (omega (arith, e), omega (arith, e))), (λ p. omega (arith, p.0, p.1)))),
  omega arith,
  omega arith,
)

-- The two directions of a flow have the same hash.
flow_hash_lem :
    (f : FlowId)
    → flow_hash (record {
      dest_addr = f.src_addr;
      src_addr = f.dest_addr;
      dest_port = f.src_port;
      src_port = f.dest_port;
    })
      ≡ flow_hash f
unfolding flow_hash
flow_hash_lem f = ap (λ x. bit_and x (0x400 - 1)) (omega arith)
