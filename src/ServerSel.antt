-- ===== src/ServerSel.antt =====
-- serversel.cc: which backend is to store the next copy of a message.
pub mod Order
pub mod Groups
pub mod Total
use powermail.Base.{
  ℕ, zero, suc, ◌+◌, ◌-◌, ◌%◌, Bool, true, false, not, ◌&&◌, ◌||◌, List, [], ◌∷◌, Option, none,
  some, ltb, ◌==◌, if◌then◌else◌, length, set, get_elem?, map,
}
use powermail.Base.Int.{ℤ, pos, negsuc, ltb_ℤ}
use powermail.Backend.{TargetData}

unfoldable pub eq_ℤ : ℤ → ℤ → Bool
eq_ℤ (pos a) (pos b) = a == b
eq_ℤ (negsuc a) (negsuc b) = a == b
eq_ℤ (pos a) (negsuc b) = false
eq_ℤ (negsuc a) (pos b) = false

-- The switches spread-disk and spread-load.
pub record Spread : Type 0 where
  pub favor_empty : Bool
  pub favor_load : Bool

unfoldable pub by_prio : Spread → TargetData → TargetData → Bool
unfolding eq_ℤ
by_prio f a b =
    if ltb_ℤ a.priority b.priority
    then true
    else if eq_ℤ a.priority b.priority && (f.favor_empty && ltb_ℤ b.kbfree a.kbfree)
    then true
    else if eq_ℤ a.priority b.priority && (f.favor_load && ltb a.load b.load)
    then true
    else false

-- A backend and its position in the vector, which stands for the pointer to it.
abbrev pub Slot : Type 0
Slot = ℕ × TargetData

unfoldable pub slots : ℕ → List TargetData → List Slot
slots i [] = []
slots i (t ∷ ts) = (i, t) ∷ slots (i + 1) ts

-- `usedGroup[g]`
unfoldable pub used_group : ℤ → List TargetData → Bool
used_group g [] = false
used_group g (t ∷ ts) = (t.used && eq_ℤ t.group g) || used_group g ts

unfoldable pub eligible : List TargetData → TargetData → Bool
eligible ts t = t.up && (not t.readonly && not (used_group t.group ts))

-- The keys of `perGroup`, in the map's order.
unfoldable pub insert_group : ℤ → List ℤ → List ℤ
unfolding eq_ℤ
insert_group g [] = g ∷ []
insert_group g (h ∷ hs) =
    if eq_ℤ g h then h ∷ hs else if ltb_ℤ g h then g ∷ (h ∷ hs) else h ∷ insert_group g hs

unfoldable pub group_keys : List TargetData → List Slot → List ℤ
group_keys all [] = []
group_keys all ((i, t) ∷ ss) =
    let rest = group_keys all ss in if eligible all t then insert_group t.group rest else rest

-- `perGroup[g]`
unfoldable pub per_group : List TargetData → ℤ → List Slot → List Slot
per_group all g [] = []
per_group all g ((i, t) ∷ ss) =
    let rest = per_group all g ss in
    if eligible all t && eq_ℤ t.group g then (i, t) ∷ rest else rest

-- Takes the element at a position out of a list that is not empty.
unfoldable pub extract : ℕ → Slot → List Slot → Slot × List Slot
extract k x [] = (x, [])
extract zero x (y ∷ ys) = (x, y ∷ ys)
extract (suc k) x (y ∷ ys) = let (z, zs) = extract k y ys in (z, x ∷ zs)

-- `random_shuffle`, whose order the library does not promise: every order comes out for some
-- numbers. It stops with the candidates; the rounds are as many as these.
unfoldable pub shuffle : ℕ → List ℕ → List Slot → List Slot
unfolding extract
shuffle zero rs ss = ss
shuffle (suc n) rs [] = []
shuffle (suc n) [] (s ∷ ss) = s ∷ ss
shuffle (suc n) (r ∷ rs) (s ∷ ss) = let (z, zs) = extract r s ss in z ∷ shuffle n rs zs

-- `stable_sort` by `byPrio`: a later element comes before an earlier one only if it is less.
unfoldable pub insert_slot : Spread → Slot → List Slot → List Slot
unfolding by_prio
insert_slot f s [] = s ∷ []
insert_slot f s (u ∷ us) = if by_prio f u.1 s.1 then u ∷ insert_slot f s us else s ∷ (u ∷ us)

unfoldable pub stable_sort : Spread → List Slot → List Slot
unfolding insert_slot
stable_sort f [] = []
stable_sort f (s ∷ ss) = insert_slot f s (stable_sort f ss)

abbrev marked : TargetData → TargetData
marked t = record t { used = true }

-- The server that a call of `getServer` returns, and the vector after it.
pub data Choice : Type 0 where
  no_server : Choice
  server : TargetData → List TargetData → Choice

abbrev pub first_of_sorted : List TargetData → List Slot → Choice
first_of_sorted td [] = no_server
first_of_sorted td ((i, t) ∷ ss) = server (marked t) (set td i (marked t))

abbrev pub choose : Spread → List ℕ → List TargetData → List Slot → Choice
choose f rs td candidates =
    first_of_sorted td (stable_sort f (shuffle (length candidates) rs candidates))

abbrev pub group_at : Spread → List ℕ → List TargetData → Option ℤ → Choice
group_at f rs td none = no_server
group_at f rs td (some g) = choose f rs td (per_group td g (slots 0 td))

-- `r` is what `random()` gives, and `rs` are the numbers of the shuffle.
unfoldable pub get_server : Spread → ℕ → List ℕ → List TargetData → Choice
unfolding used_group eligible eq_ℤ insert_group group_keys per_group slots shuffle stable_sort
get_server f r rs td =
    let keys = group_keys td (slots 0 td) in group_at f rs td (get_elem? keys (r % length keys))

-- The constructor: a copy of the vector with no server used.
unfoldable pub select : List TargetData → List TargetData
select [] = []
select (t ∷ ts) = record t { used = false } ∷ select ts
