-- ===== src/Timer/Order.antt =====
-- multimer.c: the order of the queue, and what insertion and removal make of it.
use my_test_files.Prelude.{
  ℕ, ◌^◌, ◌<◌, ◌≡◌, ◌≢◌, sym, true, false, List, [], ◌∷◌, some, arith, Bool-cases, inl, inr, ◌==◌,
  ==_iff,
}
use my_test_files.Time.{Timeval}
use my_test_files.Timer.{Tqe, timerless, remove, insert}

-- a `struct timeval` as the assertions want it
abbrev pub IsNormal : Timeval → Type 0
IsNormal tv = (tv.tv_sec < 2 ^ 64) × (tv.tv_usec < 1000000)

-- `a` is not after `b`.
abbrev pub Precedes : Timeval → Timeval → Type 0
Precedes a b = timerless b a ≡ false

unfoldable pub All : (Tqe → Type 0) → List Tqe → Type 0
All P [] = Unit {0}
All P (x ∷ xs) = P x × All P xs

pub Precedes-asym : (a b : Timeval) → timerless a b ≡ true → Precedes a b
unfolding timerless
Precedes-asym a b h = ground (arith, h)

pub Precedes-trans :
    (a b c : Timeval)
    → IsNormal a
    → IsNormal b
    → IsNormal c
    → Precedes a b
    → Precedes b c
    → Precedes a c
unfolding timerless
Precedes-trans a b c (na, _) (nb, _) (nc, _) h k = ground (arith, h, k, na, nb, nc)

abbrev pub AreNormal : Tqe → Type 0
AreNormal t = IsNormal t.time × IsNormal t.interval

unfoldable pub IsSorted : List Tqe → Type 0
unfolding All
IsSorted [] = Unit {0}
IsSorted (x ∷ xs) = All (λ y. Precedes x.time y.time) xs × IsSorted xs

-- no two elements have the same client
unfoldable pub AreDistinct : List Tqe → Type 0
unfolding All
AreDistinct [] = Unit {0}
AreDistinct (x ∷ xs) = All (λ y. y.client ≢ x.client) xs × AreDistinct xs

pub All-insert : (P : Tqe → Type 0) (t : Tqe) (xs : List Tqe) → P t → All P xs → All P (insert t xs)
unfolding All insert
All-insert P t [] p all = (p, tt)
All-insert P t (x ∷ xs) p (px, all) = elim (Bool-cases (timerless t.time x.time)) [
  | inl e ↦ rw e (p, (px, all))
  | inr e ↦ rw e (px, All-insert P t xs p all)
]

pub All-remove : (P : Tqe → Type 0) (c : ℕ) (xs : List Tqe) → All P xs → All P (remove c xs).1
unfolding All remove
All-remove P c [] all = tt
All-remove P c (x ∷ xs) (px, all) = elim (Bool-cases (x.client == c)) [
  | inl e ↦ rw e all
  | inr e ↦ rw e (px, All-remove P c xs all)
]

All-Precedes :
    (a b : Timeval) (xs : List Tqe)
    → IsNormal a
    → IsNormal b
    → Precedes a b
    → All AreNormal xs
    → All (λ y. Precedes b y.time) xs
    → All (λ y. Precedes a y.time) xs
unfolding All
All-Precedes a b [] na nb h _ _ = tt
All-Precedes a b (x ∷ xs) na nb h (nx, ns) (p, ps) =
    (Precedes-trans a b x.time na nb nx.0 h p, All-Precedes a b xs na nb h ns ps)

pub insert-IsSorted :
    (t : Tqe) (xs : List Tqe)
    → AreNormal t
    → All AreNormal xs
    → IsSorted xs
    → IsSorted (insert t xs)
unfolding IsSorted insert All
insert-IsSorted t [] nt ns sorted = (tt, tt)
insert-IsSorted t (x ∷ xs) nt (nx, ns) (ps, sorted) = elim (Bool-cases (timerless t.time x.time)) [
  | inl e ↦
      let first = Precedes-asym t.time x.time e in
      rw e ((first, All-Precedes t.time x.time xs nt.0 nx.0 first ns ps), (ps, sorted))
  | inr e ↦
      rw e (All-insert (λ y. Precedes x.time y.time) t xs e ps, insert-IsSorted t xs nt ns sorted)
]

pub remove-IsSorted : (c : ℕ) (xs : List Tqe) → IsSorted xs → IsSorted (remove c xs).1
unfolding IsSorted remove
remove-IsSorted c [] sorted = tt
remove-IsSorted c (x ∷ xs) (ps, sorted) = elim (Bool-cases (x.client == c)) [
  | inl e ↦ rw e sorted
  | inr e ↦ rw e (All-remove (λ y. Precedes x.time y.time) c xs ps, remove-IsSorted c xs sorted)
]

pub remove-AreDistinct : (c : ℕ) (xs : List Tqe) → AreDistinct xs → AreDistinct (remove c xs).1
unfolding AreDistinct remove
remove-AreDistinct c [] distinct = tt
remove-AreDistinct c (x ∷ xs) (ps, distinct) = elim (Bool-cases (x.client == c)) [
  | inl e ↦ rw e distinct
  | inr e ↦ rw e (All-remove (λ y. y.client ≢ x.client) c xs ps, remove-AreDistinct c xs distinct)
]

-- The queue that is left has no element of the client.
pub remove-absent :
    (c : ℕ) (xs : List Tqe) → AreDistinct xs → All (λ y. y.client ≢ c) (remove c xs).1
unfolding AreDistinct remove All
remove-absent c [] distinct = tt
remove-absent c (x ∷ xs) (ps, distinct) = elim (Bool-cases (x.client == c)) [
  | inl e ↦ rw e (rw ((==_iff x.client c).0 e) at ps)
  | inr e ↦ rw e ((λ f. ground (arith, e, f)), remove-absent c xs distinct)
]

pub insert-AreDistinct :
    (t : Tqe) (xs : List Tqe)
    → All (λ y. y.client ≢ t.client) xs
    → AreDistinct xs
    → AreDistinct (insert t xs)
unfolding AreDistinct insert All
insert-AreDistinct t [] ps distinct = (tt, tt)
insert-AreDistinct t (x ∷ xs) (p, ps) (qs, distinct) = elim (Bool-cases (timerless t.time x.time)) [
  | inl e ↦ rw e ((p, ps), (qs, distinct))
  | inr e ↦ rw e (
    All-insert (λ y. y.client ≢ x.client) t xs (λ f. p (sym f)) qs,
    insert-AreDistinct t xs ps distinct,
  )
]

-- what is found
pub remove-found :
    (P : Tqe → Type 0) (c : ℕ) (xs : List Tqe) (t : Tqe)
    → All P xs
    → (remove c xs).0 ≡ some t
    → P t × (t.client ≡ c)
unfolding remove All
remove-found P c [] t all h = absurd (cc h)
remove-found P c (x ∷ xs) t (px, all) h = elim (Bool-cases (x.client == c)) [
  | inl e ↦
      let same : some x ≡ some t = rw e at h in
      let same' : x ≡ t = cc same in (rw same' at px, rw same' at ((==_iff x.client c).0 e))
  | inr e ↦ remove-found P c xs t all (rw e at h)
]
