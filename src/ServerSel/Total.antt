-- ===== src/ServerSel/Total.antt =====
-- `getServer` of serversel.cc finds a server wherever there is one.
use powermail.Base.{
  ℕ, zero, suc, ◌+◌, ◌%◌, ◌<◌, ◌≡◌, ◌≢◌, refl, sym, ap, ◌∙◌, ◌⊎◌, inl, inr, true, false, List, [],
  ◌∷◌, some, arith, Bool-cases, length, All, get_elem?,
}
use powermail.Base.Int.{ℤ, ltb_ℤ}
use powermail.Backend.{TargetData}
use powermail.ServerSel.{
  Spread, eq_ℤ, Slot, slots, eligible, insert_group, group_keys, per_group, shuffle, stable_sort,
  insert_slot, by_prio, no_server, first_of_sorted, group_at, get_server,
}
use powermail.ServerSel.Order.{eq_ℤ_refl}

-- The keys of `perGroup`: each has an eligible server, and they are none only if there is none.
abbrev HasEligible : List TargetData → List Slot → ℤ → Type 0
HasEligible td [] g = ⊥
HasEligible td (s ∷ ss) g = ((eligible td s.1 ≡ true) × (s.1.group ≡ g)) ⊎ HasEligible td ss g

insert_group-All :
    (P : ℤ → Type 0) (g : ℤ) (hs : List ℤ) → P g → All P hs → All P (insert_group g hs)
unfolding insert_group
insert_group-All P g [] p a = (p, tt)
insert_group-All P g (h ∷ hs) p a = elim (Bool-cases (eq_ℤ g h)) [
  | inl e ↦ rw e a
  | inr e ↦ elim (Bool-cases (ltb_ℤ g h)) [
    | inl l ↦ rw (e, l) (p, a)
    | inr l ↦ rw (e, l) (a.0, insert_group-All P g hs p a.1)
  ]
]

insert_group-pos : (g : ℤ) (hs : List ℤ) → 0 < length (insert_group g hs)
unfolding insert_group
insert_group-pos g [] = omega arith
insert_group-pos g (h ∷ hs) = ground arith

All-weaken : (P Q : ℤ → Type 0) (xs : List ℤ) → ((g : ℤ) → P g → Q g) → All P xs → All Q xs
All-weaken P Q [] h a = tt
All-weaken P Q (x ∷ xs) h a = (h x a.0, All-weaken P Q xs h a.1)

group_keys-All :
    (td : List TargetData) (ss : List Slot) → All (HasEligible td ss) (group_keys td ss)
unfolding group_keys
group_keys-All td [] = tt
group_keys-All td ((i, t) ∷ ss) =
    let later : All (HasEligible td ((i, t) ∷ ss)) (group_keys td ss) =
      All-weaken (HasEligible td ss) (HasEligible td ((i, t) ∷ ss)) (group_keys td ss)
        (λ g h. inr h) (group_keys-All td ss) in
    elim (Bool-cases (eligible td t)) [
      | inl e ↦ rw e (
          insert_group-All (HasEligible td ((i, t) ∷ ss)) t.group (group_keys td ss) (inl (e, refl))
            later)
      | inr e ↦ rw e later
    ]

per_group-pos :
    (td : List TargetData) (g : ℤ) (ss : List Slot)
    → HasEligible td ss g
    → 0 < length (per_group td g ss)
unfolding per_group
per_group-pos td g [] h = elim h [ ]
per_group-pos td g ((i, t) ∷ ss) (inl (e, q)) =
    rw (e, ap (λ x. eq_ℤ x g) q ∙ eq_ℤ_refl g) (omega arith)
per_group-pos td g ((i, t) ∷ ss) (inr h) = ground (arith, per_group-pos td g ss h)

shuffle-pos : (n : ℕ) (rs : List ℕ) (ss : List Slot) → 0 < length ss → 0 < length (shuffle n rs ss)
unfolding shuffle
shuffle-pos zero rs ss h = h
shuffle-pos (suc n) rs [] h = h
shuffle-pos (suc n) [] (s ∷ ss) h = omega arith
shuffle-pos (suc n) (r ∷ rs) (s ∷ ss) h = omega arith

insert_slot-pos : (f : Spread) (s : Slot) (us : List Slot) → 0 < length (insert_slot f s us)
unfolding insert_slot
insert_slot-pos f s [] = omega arith
insert_slot-pos f s (u ∷ us) = elim (Bool-cases (by_prio f u.1 s.1)) [
  | inl e ↦ rw e (omega arith)
  | inr e ↦ rw e (omega arith)
]

stable_sort-pos : (f : Spread) (ss : List Slot) → 0 < length ss → 0 < length (stable_sort f ss)
unfolding stable_sort
stable_sort-pos f [] h = h
stable_sort-pos f (s ∷ ss) h = insert_slot-pos f s (stable_sort f ss)

first_of_sorted-ne :
    (td : List TargetData) (ss : List Slot) → 0 < length ss → first_of_sorted td ss ≢ no_server
first_of_sorted-ne td [] h = absurd (omega arith)
first_of_sorted-ne td (s ∷ ss) h = λ e. cc

get_elem?-All :
    (P : ℤ → Type 0) (xs : List ℤ) (i : ℕ)
    → All P xs
    → i < length xs
    → (x : ℤ) × (get_elem? xs i ≡ some x) × P x
get_elem?-All P [] i a h = absurd (omega arith)
get_elem?-All P (x ∷ xs) zero a h = (x, refl, a.0)
get_elem?-All P (x ∷ xs) (suc i) a h = get_elem?-All P xs i a.1 (omega arith)

group_at-ne :
    (f : Spread) (rs : List ℕ) (td : List TargetData) (g : ℤ)
    → HasEligible td (slots 0 td) g
    → group_at f rs td (some g) ≢ no_server
group_at-ne f rs td g h =
    let here = per_group td g (slots 0 td) in
    first_of_sorted-ne td (stable_sort f (shuffle (length here) rs here)) (
      stable_sort-pos f (shuffle (length here) rs here)
        (shuffle-pos (length here) rs here (per_group-pos td g (slots 0 td) h)))

group_keys-nil :
    (td : List TargetData) (i : ℕ) (ts : List TargetData)
    → length (group_keys td (slots i ts)) ≡ 0
    → All (λ t. eligible td t ≡ false) ts
unfolding group_keys slots
group_keys-nil td i [] h = tt
group_keys-nil td i (t ∷ ts) h = elim (Bool-cases (eligible td t)) [
  | inl e ↦
      absurd (omega (arith, rw e at h, insert_group-pos t.group (group_keys td (slots (i + 1) ts))))
  | inr e ↦ (e, group_keys-nil td (i + 1) ts (rw e at h))
]

get_server-keys :
    (f : Spread) (r : ℕ) (rs : List ℕ) (td : List TargetData) (keys : List ℤ)
    → keys ≡ group_keys td (slots 0 td)
    → All (HasEligible td (slots 0 td)) keys
    → group_at f rs td (get_elem? keys (r % length keys)) ≡ no_server
    → All (λ t. eligible td t ≡ false) td
get_server-keys f r rs td [] k a e = group_keys-nil td 0 td (ap length (sym k))
get_server-keys f r rs td (g ∷ gs) k a e =
    let (x, p, h) =
      get_elem?-All (HasEligible td (slots 0 td)) (g ∷ gs) (r % length (g ∷ gs)) a (omega arith) in
    absurd (group_at-ne f rs td x h (ap (group_at f rs td) (sym p) ∙ e))

-- `getServer` returns no server only if none is eligible. An empty group, for which it would exit,
-- counts as no server here.
pub get_server_none :
    (f : Spread) (r : ℕ) (rs : List ℕ) (td : List TargetData)
    → get_server f r rs td ≡ no_server
    → All (λ t. eligible td t ≡ false) td
unfolding get_server
get_server_none f r rs td e =
    get_server-keys f r rs td (group_keys td (slots 0 td)) refl (group_keys-All td (slots 0 td)) e
