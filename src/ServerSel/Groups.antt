-- ===== src/ServerSel/Groups.antt =====
-- Which server `getServer` of serversel.cc returns.
use powermail.Base.{
  ℕ, suc, ◌+◌, ◌%◌, ◌≡◌, refl, ap, ◌∙◌, inl, inr, true, ◌&&◌, List, [], ◌∷◌, Option, none, some,
  arith, Bool-cases, length, All, set, get_elem?,
}
use powermail.Base.Int.{ℤ, ◌≤ℤ◌}
use powermail.Backend.{TargetData}
use powermail.ServerSel.{
  Spread, eq_ℤ, Slot, slots, eligible, group_keys, per_group, shuffle, stable_sort, server,
  first_of_sorted, group_at, get_server,
}
use powermail.ServerSel.Order.{
  eq_ℤ→eq, eq_ℤ_refl, shuffle-All, All-shuffle, stable_sort-All, All-stable_sort,
  stable_sort-HeadLeast, Least,
}

-- The slot is a position of the vector, and the backend there.
abbrev Holds : List TargetData → Slot → Type 0
Holds td s = get_elem? td s.0 ≡ some s.1

slots-Holds :
    (i : ℕ) (td ts : List TargetData)
    → ((k : ℕ) → get_elem? td (i + k) ≡ get_elem? ts k)
    → All (Holds td) (slots i ts)
unfolding slots
slots-Holds i td [] h = tt
slots-Holds i td (t ∷ ts) h = (
  ap (get_elem? td) (omega arith) ∙ h 0,
  slots-Holds (i + 1) td ts (λ k. ap (get_elem? td) (omega arith) ∙ h (suc k)),
)

abbrev InGroup : List TargetData → ℤ → Slot → Type 0
InGroup td g s = Holds td s × (eligible td s.1 ≡ true) × (s.1.group ≡ g)

per_group-InGroup :
    (td : List TargetData) (g : ℤ) (ss : List Slot)
    → All (Holds td) ss
    → All (InGroup td g) (per_group td g ss)
unfolding per_group
per_group-InGroup td g [] a = tt
per_group-InGroup td g ((i, t) ∷ ss) a = elim (Bool-cases (eligible td t)) [
  | inr e ↦ rw e (per_group-InGroup td g ss a.1)
  | inl e ↦ elim (Bool-cases (eq_ℤ t.group g)) [
    | inl q ↦ rw (e, q) ((a.0, e, eq_ℤ→eq t.group g q), per_group-InGroup td g ss a.1)
    | inr q ↦ rw (e, q) (per_group-InGroup td g ss a.1)
  ]
]

-- What holds of a group's candidates holds of each eligible backend of the group.
per_group-All :
    (P : TargetData → Type 0) (td : List TargetData) (g : ℤ) (i : ℕ) (ts : List TargetData)
    → All (λ s. P s.1) (per_group td g (slots i ts))
    → All (λ t. eligible td t ≡ true → t.group ≡ g → P t) ts
unfolding per_group slots
per_group-All P td g i [] a = tt
per_group-All P td g i (t ∷ ts) a = elim (Bool-cases (eligible td t && eq_ℤ t.group g)) [
  | inl e ↦
      let a' : P t × All (λ s. P s.1) (per_group td g (slots (i + 1) ts)) = rw e at a in
      (λ _ _. a'.0, per_group-All P td g (i + 1) ts a'.1)
  | inr e ↦ (
    λ el gr. absurd (ground (arith, ap (λ x. eq_ℤ x g) gr, eq_ℤ_refl g)),
    per_group-All P td g (i + 1) ts (rw e at a),
  )
]

-- A server that was chosen: an eligible backend of its group with the least priority number there,
-- and the vector with this backend marked.
pub record Chosen (td : List TargetData) (t : TargetData) (td' : List TargetData) : Type 0 where
  pub position : ℕ
  pub backend : TargetData
  pub stands : get_elem? td position ≡ some backend
  pub may : eligible td backend ≡ true
  pub result : t ≡ record backend { used = true }
  pub after : td' ≡ set td position t
  pub least :
      All (λ u. eligible td u ≡ true → u.group ≡ backend.group → backend.priority ≤ℤ u.priority) td

abbrev candidates : List TargetData → ℤ → List Slot
candidates td g = per_group td g (slots 0 td)

abbrev mixed : List TargetData → List ℕ → ℤ → List Slot
mixed td rs g = shuffle (length (candidates td g)) rs (candidates td g)

least_of_sorted :
    (f : Spread) (rs : List ℕ) (td : List TargetData) (g : ℤ) (s : Slot) (ss : List Slot)
    → stable_sort f (mixed td rs g) ≡ s ∷ ss
    → All (λ u. eligible td u ≡ true → u.group ≡ g → s.1.priority ≤ℤ u.priority) td
least_of_sorted f rs td g s ss e =
    per_group-All (λ u. s.1.priority ≤ℤ u.priority) td g 0 td
      (All-shuffle P (length (candidates td g)) rs (candidates td g)
        (All-stable_sort P f (mixed td rs g) (rw e (omega arith, sorted))))
  where
    P : Slot → Type 0
    P u = s.1.priority ≤ℤ u.1.priority

    sorted : Least s ss
    sorted = rw e at (stable_sort-HeadLeast f (mixed td rs g))

All-slots : (td : List TargetData) → All (Holds td) (slots 0 td)
All-slots td = slots-Holds 0 td td (λ k. ap (get_elem? td) (omega arith))

choose-Chosen :
    (f : Spread) (rs : List ℕ) (td : List TargetData) (g : ℤ) (xs : List Slot)
    → stable_sort f (mixed td rs g) ≡ xs
    → {t : TargetData} {td' : List TargetData} → first_of_sorted td xs ≡ server t td'
    → Chosen td t td'
choose-Chosen f rs td g [] e h = cc
choose-Chosen f rs td g (s ∷ ss) e {t} {td'} h = record {
  position = s.0;
  backend = s.1;
  stands = held.0.0;
  may = held.0.1;
  result = ground arith;
  after = ground arith;
  least = rw held.0.2 (least_of_sorted f rs td g s ss e);
}
  where
    held : All (InGroup td g) (s ∷ ss)
    held = rw e at (
        stable_sort-All (InGroup td g) f (mixed td rs g) (
          shuffle-All (InGroup td g) (length (candidates td g)) rs (candidates td g)
            (per_group-InGroup td g (slots 0 td) (All-slots td))))

group_at-Chosen :
    (f : Spread) (rs : List ℕ) (td : List TargetData) (k : Option ℤ)
    → {t : TargetData} {td' : List TargetData} → group_at f rs td k ≡ server t td'
    → Chosen td t td'
group_at-Chosen f rs td none h = cc
group_at-Chosen f rs td (some g) h = choose-Chosen f rs td g (stable_sort f (mixed td rs g)) refl h

-- What `getServer` returns is up, not readonly, in a group none of whose servers was used, and has
-- the least priority number of such servers in its group; only its own `used` flag changes.
pub get_server-Chosen :
    (f : Spread) (r : ℕ) (rs : List ℕ) (td : List TargetData)
    → {t : TargetData} {td' : List TargetData} → get_server f r rs td ≡ server t td'
    → Chosen td t td'
unfolding get_server
get_server-Chosen f r rs td h =
    group_at-Chosen f rs td
      (get_elem? (group_keys td (slots 0 td)) (r % length (group_keys td (slots 0 td)))) h
