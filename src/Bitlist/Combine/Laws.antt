-- ===== src/Bitlist/Combine/Laws.antt =====
-- What the operations on whole lists write, whichever pointers are equal.
use my_test_files.Prelude.{
  ℕ, zero, suc, ◌+◌, ◌*◌, ◌/◌, ◌%◌, ◌^◌, ◌≤◌, ◌<◌, ◌≡◌, refl, ◌∙◌, ap, sym, subst, Bool, true,
  false, not, ◌&&◌, arith, ltb, ◌==◌, if◌then◌else◌, Bool-cases, inl, inr, ◌⊎◌, ◌≢◌, length,
  length-set, get_or-set_self, get_or-set_ne,
}
use my_test_files.Prelude.{set as store}
use my_test_files.Prelude.Bits.{test_bit}
use my_test_files.Bitlist.{Bitlist, State}
use my_test_files.Bitlist.View.{bit_at, IsValid, AreWords}
use my_test_files.Bitlist.Combine.{Store, update, word, loop, copy_state}

-- what the loop does from element `i` to element `n`
record IsCombined (op : ℕ → ℕ → ℕ) (i n : ℕ) (h : Store) (a b c : ℕ) (r : Store) : Type 0 where
  others : (p : ℕ) → p ≢ c → r p ≡ h p
  state : (r c).state ≡ (h c).state
  room : length (r c).bits ≡ length (h c).bits
  inside : (j : ℕ) → i ≤ j → j < n → word r c j ≡ op (word h a j) (word h b j)
  outside : (j : ℕ) → (j < i) ⊎ (n ≤ j) → word r c j ≡ word h c j

update_self : (h : Store) (p : ℕ) (bl : Bitlist) → update h p bl p ≡ bl
update_self h p bl = let e : (p == p) ≡ true = ground arith in rw e

update_ne : (h : Store) (p q : ℕ) (bl : Bitlist) → q ≢ p → update h p bl q ≡ h q
update_ne h p q bl ne = let e : (p == q) ≡ false = ground arith in rw e

module _ (op : ℕ → ℕ → ℕ) (a b c : ℕ) where
  abbrev after : ℕ → Store → Store
  after i h = update h c (record (h c) { bits = store (h c).bits i (op (word h a i) (word h b i)) })

  word-after_ne : (h : Store) (p i j : ℕ) → i ≢ j → word (after i h) p j ≡ word h p j
  word-after_ne h p i j ne =
      let w = op (word h a i) (word h b i) in
      elim (Bool-cases (c == p)) [
        | inl e ↦
            let same : c ≡ p = ground arith in rw e (get_or-set_ne (h c).bits i j w 0 ne ∙ rw same)
        | inr e ↦ rw e
      ]

  loop-IsCombined :
      (left i n : ℕ) (h : Store)
      → left + i ≡ n
      → n ≤ length (h c).bits
      → IsCombined op i n h a b c (loop op left i h a b c)
  unfolding loop
  loop-IsCombined zero i n h e room = record {
    others = λ p ne. refl;
    state = refl;
    room = refl;
    inside = λ j lo hi. absurd (omega arith);
    outside = λ j out. refl;
  }
  loop-IsCombined (suc left) i n h e room =
      let w = op (word h a i) (word h b i) in
      let self = update_self h c (record (h c) { bits = store (h c).bits i w }) in
      let rest =
        loop-IsCombined left (i + 1) n (after i h) (omega arith) (rw (self, length-set) room) in
      record {
        others = λ p ne. rest.others p ne ∙ update_ne h c p _ ne;
        state = rest.state ∙ rw self;
        room = rest.room ∙ rw (self, length-set);
        inside = λ j lo hi. elim (Bool-cases (i == j)) [
          | inl here ↦
              let same : j ≡ i = ground arith in
              rw same (
                rest.outside i (inl (omega arith))
                ∙ rw (self) (get_or-set_self (h c).bits i w 0 (omega arith)))
          | inr there ↦
              rest.inside j (ground arith) hi
              ∙ rw (word-after_ne h a i j (ground arith), word-after_ne h b i j (ground arith))
        ];
        outside = λ j out. rest.outside j (grind arith) ∙ word-after_ne h c i j (grind arith);
      }

-- what the operations ask: `a` and `b` are well formed, and `b` and `c` have storage for as many
-- elements as `a`
pub record AreFit (h : Store) (a b c : ℕ) : Type 0 where
  pub left : IsValid (h a)
  pub right : IsValid (h b)
  pub words : AreWords (h c).bits
  pub room_b : (h a).state.max_elems ≤ length (h b).bits
  pub room_c : (h a).state.max_elems ≤ length (h c).bits

-- `c` becomes well formed, takes the state of `a` unless it is one of the operands, and has as
-- bits `f` of the operands' bits; no other list changes
pub record Applies (f : Bool → Bool → Bool) (h : Store) (a b c : ℕ) (r : Store) : Type 0 where
  pub others : (p : ℕ) → p ≢ c → r p ≡ h p
  pub state : (r c).state ≡ (if not (c == a) && not (c == b) then (h a).state else (h c).state)
  pub valid : IsValid (r c)
  pub bits :
      (i : ℕ)
      → i < (h a).state.max_elems * 32
      → bit_at (r c) i ≡ f (bit_at (h a) i) (bit_at (h b) i)

module _ (h : Store) (a b c : ℕ) where
  abbrev is_copied : Bool
  is_copied = not (c == a) && not (c == b)

  copied_other : (p : ℕ) → p ≢ c → copy_state h a b c p ≡ h p
  unfolding copy_state
  copied_other p ne = elim (Bool-cases is_copied) [
    | inl yes_copied ↦ rw yes_copied (update_ne h c p _ ne)
    | inr not_copied ↦ rw not_copied
  ]

  copied_bits : (p : ℕ) → (copy_state h a b c p).bits ≡ (h p).bits
  unfolding copy_state
  copied_bits p = ground arith

  copied_left : copy_state h a b c a ≡ h a
  unfolding copy_state
  copied_left = ground arith

  copied_right : copy_state h a b c b ≡ h b
  unfolding copy_state
  copied_right = ground arith

  copied_state : (copy_state h a b c c).state ≡ (if is_copied then (h a).state else (h c).state)
  unfolding copy_state
  copied_state = ground arith

-- the part of `IsValid` that is about the state, for an array of `len` elements
abbrev IsSized : State → ℕ → Type 0
IsSized st len =
    (st.max_elems ≡ (st.max_bits + 31) / 32)
    × (st.max_elems ≤ len)
    × (st.max_bits + 31 < 2 ^ 31)
    × (st.base_bit < 2 ^ 32)

IsSized-of : (bl : Bitlist) → IsValid bl → IsSized bl.state (length bl.bits)
IsSized-of bl v = (v.elems, v.room, v.small, v.base)

IsValid-of :
    (bl : Bitlist) (st : State) (len : ℕ)
    → bl.state ≡ st
    → length bl.bits ≡ len
    → IsSized st len
    → AreWords bl.bits
    → IsValid bl
IsValid-of bl st len e l sized words =
    let s = subst (λ k. IsSized bl.state k) (sym l) (subst (λ t. IsSized t len) (sym e) sized) in
    record { elems = s.0; room = s.1; small = s.2; base = s.3; words = words }

module _ (op : ℕ → ℕ → ℕ) (f : Bool → Bool → Bool)
    (op_word : (x y : ℕ) → x < 2 ^ 32 → y < 2 ^ 32 → op x y < 2 ^ 32)
    (op_digit : (x y k : ℕ)
      → x < 2 ^ 32
      → y < 2 ^ 32
      → k < 32
      → test_bit (op x y) k ≡ f (test_bit x k) (test_bit y k))
    (h : Store) (a b c : ℕ) (fit : AreFit h a b c) where
  abbrev pub n : ℕ
  n = (h a).state.max_elems

  abbrev pub r : Store
  r = loop op (copy_state h a b c a).state.max_elems 0 (copy_state h a b c) a b c

  combined : IsCombined op 0 n (copy_state h a b c) a b c r
  combined = rw copied_left (
      loop-IsCombined op a b c n 0 n (copy_state h a b c) (omega arith) (rw copied_bits fit.room_c))

  word-r : (j : ℕ) → j < n → word r c j ≡ op (word h a j) (word h b j)
  word-r j lt =
      combined.inside j (omega arith) lt ∙ rw (copied_bits h a b c a, copied_bits h a b c b)

  word-r_outside : (j : ℕ) → n ≤ j → word r c j ≡ word h c j
  word-r_outside j le = combined.outside j (inr le) ∙ rw (copied_bits h a b c c)

  r-AreWords : AreWords (r c).bits
  r-AreWords j = elim (Bool-cases (ltb j n)) [
    | inl inside ↦
        rw (word-r j (ground arith))
          (op_word (word h a j) (word h b j) (fit.left.words j) (fit.right.words j))
    | inr outside ↦ rw (word-r_outside j (ground arith)) (fit.words j)
  ]

  r_room : length (r c).bits ≡ length (h c).bits
  r_room = combined.room ∙ ap length (copied_bits h a b c c)

  r_state : (r c).state ≡ (if is_copied h a b c then (h a).state else (h c).state)
  r_state = combined.state ∙ copied_state h a b c

  r-IsValid : IsValid (r c)
  r-IsValid = IsValid-of (r c) _ (length (h c).bits) r_state r_room sized r-AreWords
    where
      sized : IsSized (if is_copied h a b c then (h a).state else (h c).state) (length (h c).bits)
      sized = elim (Bool-cases (is_copied h a b c)) [
        | inl fresh ↦ rw fresh (fit.left.elems, fit.room_c, fit.left.small, fit.left.base)
        | inr same ↦ rw same (elim (Bool-cases (c == a)) [
          | inl is_a ↦ let e : c ≡ a = ground arith in rw e (IsSized-of (h a) fit.left)
          | inr is_b ↦ let e : c ≡ b = ground arith in rw e (IsSized-of (h b) fit.right)
        ])
      ]

  pub Applies_lem : Applies f h a b c r
  unfolding bit_at
  Applies_lem = record {
    others = λ p ne. combined.others p ne ∙ copied_other h a b c p ne;
    state = r_state;
    valid = r-IsValid;
    bits = λ i lt. rw (word-r (i / 32) (omega arith)) (
        op_digit (word h a (i / 32)) (word h b (i / 32)) (i % 32) (fit.left.words (i / 32))
          (fit.right.words (i / 32)) (omega arith));
  }
