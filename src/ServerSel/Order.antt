-- ===== src/ServerSel/Order.antt =====
-- The shuffle and the sort of serversel.cc: they keep the candidates, and the first has the least
-- priority number.
use powermail.Base.{
  ℕ, zero, suc, ◌≡◌, inl, inr, true, false, List, [], ◌∷◌, arith, if◌then◌else◌, Bool-cases, All,
}
use powermail.Base.Int.{ℤ, pos, negsuc, ◌≤ℤ◌}
use powermail.Backend.{TargetData}
use powermail.ServerSel.{Spread, by_prio, eq_ℤ, Slot, extract, shuffle, insert_slot, stable_sort}

pub eq_ℤ→eq : (a b : ℤ) → eq_ℤ a b ≡ true → a ≡ b
unfolding eq_ℤ
eq_ℤ→eq (pos a) (pos b) h = ground arith
eq_ℤ→eq (negsuc a) (negsuc b) h = ground arith
eq_ℤ→eq (pos a) (negsuc b) h = ground arith
eq_ℤ→eq (negsuc a) (pos b) h = ground arith

pub eq_ℤ_refl : (a : ℤ) → eq_ℤ a a ≡ true
unfolding eq_ℤ
eq_ℤ_refl (pos a) = ground arith
eq_ℤ_refl (negsuc a) = ground arith

module _ (P : Slot → Type 0) where
  extract-All :
      (k : ℕ) (x : Slot) (xs : List Slot)
      → P x
      → All P xs
      → P (extract k x xs).0 × All P (extract k x xs).1
  unfolding extract
  extract-All k x [] h a = (h, tt)
  extract-All zero x (y ∷ ys) h a = (h, a)
  extract-All (suc k) x (y ∷ ys) h a = let (p, q) = extract-All k y ys a.0 a.1 in (p, (h, q))

  pub shuffle-All : (n : ℕ) (rs : List ℕ) (xs : List Slot) → All P xs → All P (shuffle n rs xs)
  unfolding shuffle
  shuffle-All zero rs xs a = a
  shuffle-All (suc n) rs [] a = a
  shuffle-All (suc n) [] (x ∷ xs) a = a
  shuffle-All (suc n) (r ∷ rs) (x ∷ xs) a =
      let (p, q) = extract-All r x xs a.0 a.1 in (p, shuffle-All n rs _ q)

  All-extract :
      (k : ℕ) (x : Slot) (xs : List Slot)
      → P (extract k x xs).0
      → All P (extract k x xs).1
      → P x × All P xs
  unfolding extract
  All-extract k x [] h a = (h, tt)
  All-extract zero x (y ∷ ys) h a = (h, a)
  All-extract (suc k) x (y ∷ ys) h a = (a.0, All-extract k y ys h a.1)

  pub All-shuffle : (n : ℕ) (rs : List ℕ) (xs : List Slot) → All P (shuffle n rs xs) → All P xs
  unfolding shuffle
  All-shuffle zero rs xs a = a
  All-shuffle (suc n) rs [] a = a
  All-shuffle (suc n) [] (x ∷ xs) a = a
  All-shuffle (suc n) (r ∷ rs) (x ∷ xs) a =
      All-extract r x xs a.0 (All-shuffle n rs (extract r x xs).1 a.1)

  module _ (f : Spread) where
    insert_slot-All : (s : Slot) (us : List Slot) → P s → All P us → All P (insert_slot f s us)
    unfolding insert_slot
    insert_slot-All s [] h a = (h, tt)
    insert_slot-All s (u ∷ us) h a = elim (Bool-cases (by_prio f u.1 s.1)) [
      | inl e ↦ rw e (a.0, insert_slot-All s us h a.1)
      | inr e ↦ rw e (h, a)
    ]

    All-insert_slot : (s : Slot) (us : List Slot) → All P (insert_slot f s us) → P s × All P us
    unfolding insert_slot
    All-insert_slot s [] a = a
    All-insert_slot s (u ∷ us) a =
        (elim (by_prio f u.1 s.1)
            as (λ b.
              All P (if b then u ∷ insert_slot f s us else s ∷ (u ∷ us)) → P s × All P (u ∷ us)) [
                | true ↦ λ a. let (p, q) = All-insert_slot s us a.1 in (p, (a.0, q))
                | false ↦ λ a. a
              ])
          a

    pub stable_sort-All : (xs : List Slot) → All P xs → All P (stable_sort f xs)
    unfolding stable_sort
    stable_sort-All [] a = a
    stable_sort-All (x ∷ xs) a = insert_slot-All x (stable_sort f xs) a.0 (stable_sort-All xs a.1)

    pub All-stable_sort : (xs : List Slot) → All P (stable_sort f xs) → All P xs
    unfolding stable_sort
    All-stable_sort [] a = a
    All-stable_sort (x ∷ xs) a =
        let (p, q) = All-insert_slot x (stable_sort f xs) a in (p, All-stable_sort xs q)

-- No candidate has a smaller priority number than the slot.
abbrev pub Least : Slot → List Slot → Type 0
Least s us = All (λ u. s.1.priority ≤ℤ u.1.priority) us

abbrev HeadLeast : List Slot → Type 0
HeadLeast [] = Unit
HeadLeast (s ∷ us) = Least s us

by_prio-le : (f : Spread) (a b : TargetData) → by_prio f a b ≡ true → a.priority ≤ℤ b.priority
unfolding by_prio
by_prio-le f a b h = ground (arith, eq_ℤ→eq a.priority b.priority)

not-by_prio-le : (f : Spread) (a b : TargetData) → by_prio f a b ≡ false → b.priority ≤ℤ a.priority
unfolding by_prio
not-by_prio-le f a b h = ground arith

Least-le : (s u : Slot) (xs : List Slot) → s.1.priority ≤ℤ u.1.priority → Least u xs → Least s xs
Least-le s u [] h a = tt
Least-le s u (x ∷ xs) h a = (omega arith, Least-le s u xs h a.1)

insert_slot-HeadLeast :
    (f : Spread) (s : Slot) (us : List Slot) → HeadLeast us → HeadLeast (insert_slot f s us)
unfolding insert_slot
insert_slot-HeadLeast f s [] h = tt
insert_slot-HeadLeast f s (u ∷ us) h = elim (Bool-cases (by_prio f u.1 s.1)) [
  | inl e ↦
      rw e (insert_slot-All (λ x. u.1.priority ≤ℤ x.1.priority) f s us (by_prio-le f u.1 s.1 e) h)
  | inr e ↦ let le = not-by_prio-le f u.1 s.1 e in rw e (le, Least-le s u us le h)
]

pub stable_sort-HeadLeast : (f : Spread) (xs : List Slot) → HeadLeast (stable_sort f xs)
unfolding stable_sort
stable_sort-HeadLeast f [] = tt
stable_sort-HeadLeast f (x ∷ xs) =
    insert_slot-HeadLeast f x (stable_sort f xs) (stable_sort-HeadLeast f xs)
