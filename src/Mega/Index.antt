-- ===== src/Mega/Index.antt =====
-- The `map<string,int>` of `getMsgs` in megatalker.cc: a list in the order of its keys.
use powermail.Base.{
  ℕ, ◌≡◌, refl, inl, inr, Bool, true, false, ◌&&◌, ◌||◌, List, [], ◌∷◌, Option, none, some, arith,
  ltb, ◌==◌, if◌then◌else◌, Bool-cases, All,
}
use powermail.Text.{Text, eq, eq_iff}

-- The order of std::string.
unfoldable pub lt_text : Text → Text → Bool
lt_text [] [] = false
lt_text [] (y ∷ ys) = true
lt_text (x ∷ xs) [] = false
lt_text (x ∷ xs) (y ∷ ys) = ltb x y || (x == y && lt_text xs ys)

abbrev pub Msgs : Type 0
Msgs = List (Text × ℕ)

-- `msgs[k]=v`
unfoldable pub insert : Text → ℕ → Msgs → Msgs
unfolding lt_text
insert k v [] = (k, v) ∷ []
insert k v ((j, w) ∷ m) =
    if eq k j
    then (j, v) ∷ m
    else if lt_text k j
    then (k, v) ∷ ((j, w) ∷ m)
    else (j, w) ∷ insert k v m

unfoldable pub lookup : Text → Msgs → Option ℕ
lookup k [] = none
lookup k ((j, w) ∷ m) = if eq k j then some w else lookup k m

-- Each key comes before all that follow.
abbrev pub IsSorted : Msgs → Type 0
IsSorted [] = Unit
IsSorted ((k, v) ∷ m) = All (λ e. lt_text k e.0 ≡ true) m × IsSorted m

lt_text_trans : (a b c : Text) → lt_text a b ≡ true → lt_text b c ≡ true → lt_text a c ≡ true
unfolding lt_text
lt_text_trans [] [] c p q = cc
lt_text_trans [] (y ∷ b) [] p q = cc
lt_text_trans [] (y ∷ b) (z ∷ c) p q = refl
lt_text_trans (x ∷ a) [] c p q = cc
lt_text_trans (x ∷ a) (y ∷ b) [] p q = cc
lt_text_trans (x ∷ a) (y ∷ b) (z ∷ c) p q = ground (arith, lt_text_trans a b c)

lt_text_total : (a b : Text) → eq a b ≡ false → lt_text a b ≡ false → lt_text b a ≡ true
unfolding lt_text eq
lt_text_total [] [] e p = cc
lt_text_total [] (y ∷ b) e p = cc
lt_text_total (x ∷ a) [] e p = refl
lt_text_total (x ∷ a) (y ∷ b) e p = ground (arith, lt_text_total a b)

above_trans :
    (a b : Text) (m : Msgs)
    → lt_text a b ≡ true
    → All (λ e. lt_text b e.0 ≡ true) m
    → All (λ e. lt_text a e.0 ≡ true) m
above_trans a b [] h s = tt
above_trans a b ((k, v) ∷ m) h s = (lt_text_trans a b k h s.0, above_trans a b m h s.1)

insert-above :
    (a k : Text) (v : ℕ) (m : Msgs)
    → lt_text a k ≡ true
    → All (λ e. lt_text a e.0 ≡ true) m
    → All (λ e. lt_text a e.0 ≡ true) (insert k v m)
unfolding insert
insert-above a k v [] h s = (h, tt)
insert-above a k v ((j, w) ∷ m) h s = elim (Bool-cases (eq k j)) [
  | inl e ↦ rw e s
  | inr e ↦ elim (Bool-cases (lt_text k j)) [
    | inl l ↦ rw (e, l) (h, s)
    | inr l ↦ rw (e, l) (s.0, insert-above a k v m h s.1)
  ]
]

pub insert-IsSorted : (k : Text) (v : ℕ) (m : Msgs) → IsSorted m → IsSorted (insert k v m)
unfolding insert
insert-IsSorted k v [] s = (tt, tt)
insert-IsSorted k v ((j, w) ∷ m) s = elim (Bool-cases (eq k j)) [
  | inl e ↦ rw e s
  | inr e ↦ elim (Bool-cases (lt_text k j)) [
    | inl l ↦ rw (e, l) ((l, above_trans k j m l s.0), s)
    | inr l ↦
        rw (e, l) (insert-above j k v m (lt_text_total k j e l) s.0, insert-IsSorted k v m s.1)
  ]
]

pub lookup-insert :
    (j k : Text) (v : ℕ) (m : Msgs)
    → lookup j (insert k v m) ≡ (if eq j k then some v else lookup j m)
unfolding insert lookup
lookup-insert j k v [] = refl
lookup-insert j k v ((i, w) ∷ m) =
    ground (arith, eq_iff j k, eq_iff j i, eq_iff k i, lookup-insert j k v m)
