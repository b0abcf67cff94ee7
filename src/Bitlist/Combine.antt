-- ===== src/Bitlist/Combine.antt =====
-- `bitlist_or`, `bitlist_and`, `bitlist_not`, `bitlist_and_not` and `bitlist_xor`. Their arguments
-- are pointers, any two of which may be equal, so a store holds the lists.
pub mod Laws
pub mod Results
use my_test_files.Prelude.{
  ℕ, zero, suc, ◌+◌, Bool, not, ◌&&◌, List, ◌==◌, if◌then◌else◌, get_or, bit_and, bit_or, bit_xor,
}
use my_test_files.Prelude.{set as store}
use my_test_files.Prelude.Word.{not32}
use my_test_files.Bitlist.{Bitlist}

abbrev pub Store : Type 0
Store = ℕ → Bitlist

abbrev pub update : Store → ℕ → Bitlist → Store
update h p bl q = if p == q then bl else h q

-- `x->bits[i]`
abbrev pub word : Store → ℕ → ℕ → ℕ
word h x i = get_or (h x).bits i 0

-- `*cp++ = *ap++ op *bp++` with `left` rounds to go
pub loop : (ℕ → ℕ → ℕ) → ℕ → ℕ → Store → ℕ → ℕ → ℕ → Store
loop op zero i h a b c = h
loop op (suc left) i h a b c =
    loop op left (i + 1)
      (update h c (record (h c) { bits = store (h c).bits i (op (word h a i) (word h b i)) })) a b c

-- `if (c != a && c != b) c->state = a->state`
pub copy_state : Store → ℕ → ℕ → ℕ → Store
copy_state h a b c =
    if not (c == a) && not (c == b) then update h c (record (h c) { state = (h a).state }) else h

pub bitlist_or : Store → ℕ → ℕ → ℕ → Store
unfolding loop copy_state
bitlist_or h a b c = let h' = copy_state h a b c in loop bit_or (h' a).state.max_elems 0 h' a b c

pub bitlist_and : Store → ℕ → ℕ → ℕ → Store
unfolding loop copy_state
bitlist_and h a b c = let h' = copy_state h a b c in loop bit_and (h' a).state.max_elems 0 h' a b c

-- here the guard is `a != b`, and there is one operand
pub bitlist_not : Store → ℕ → ℕ → Store
unfolding loop
bitlist_not h a b =
    let h' = if not (a == b) then update h b (record (h b) { state = (h a).state }) else h in
    loop (λ x _. not32 x) (h' a).state.max_elems 0 h' a a b

pub bitlist_and_not : Store → ℕ → ℕ → ℕ → Store
unfolding loop copy_state
bitlist_and_not h a b c =
    let h' = copy_state h a b c in
    loop (λ x y. bit_and x (not32 y)) (h' a).state.max_elems 0 h' a b c

pub bitlist_xor : Store → ℕ → ℕ → ℕ → Store
unfolding loop copy_state
bitlist_xor h a b c = let h' = copy_state h a b c in loop bit_xor (h' a).state.max_elems 0 h' a b c
