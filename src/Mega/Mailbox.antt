-- ===== src/Mega/Mailbox.antt =====
-- `getMsgs` of megatalker.cc: the messages of a mailbox, over all backends that are up.
pub mod Union
use powermail.Base.{
  ℕ, ◌+◌, ◌<◌, ◌≡◌, ◌≢◌, ◌↔◌, refl, ap, ◌∙◌, sym, ◌⊎◌, inl, inr, Bool, true, false, List, [], ◌∷◌,
  ◌++◌, map, Option, none, some, arith, ◌==◌, if◌then◌else◌, Bool-cases, All,
}
use powermail.Base.Int.{to_int32, to_size}
use powermail.Text.{Text, lit, eq, eq_iff}
use powermail.Net.{Result, ok, throws}
use powermail.Talker.Ppt.{PpTalker, MsgInfo}
use powermail.Talker.Ppt
use powermail.Backend.{TargetData}
use powermail.Mega.Shared.{MegaTalker}
use powermail.Mega.Index.{Msgs, insert, lookup, IsSorted, insert-IsSorted, lookup-insert}

-- The listings that came in, the backends behind the calls, and the exception that ended the loop.
pub record Gathered : Type 0 where
  pub listings : List (TargetData × List MsgInfo)
  pub targets : List TargetData
  pub failure : Option Text

abbrev pub got :
    TargetData → List TargetData → Gathered → Result (List MsgInfo) × PpTalker → Gathered
got t ts g (ok infos, p) = record {
  listings = (t, infos) ∷ g.listings;
  targets = record t { pp_talker = p } ∷ g.targets;
  failure = g.failure;
}
got t ts g (throws e, p) = record {
  listings = [];
  targets = record t { pp_talker = p } ∷ ts;
  failure = some e;
}

unfoldable pub gather : Text → List TargetData → Gathered
gather mbox [] = record { listings = []; targets = []; failure = none }
gather mbox (t ∷ ts) =
    if t.up
    then got t ts (gather mbox ts) (Ppt.get_msgs mbox t.pp_talker)
    else record (gather mbox ts) { targets = t ∷ (gather mbox ts).targets }

-- `msgs[j->index]=j->size`, an int.
unfoldable pub add_infos : List MsgInfo → Msgs → Msgs
add_infos [] m = m
add_infos (j ∷ js) m = add_infos js (insert j.index (to_size (to_int32 j.size)) m)

unfoldable pub add_listings : List (TargetData × List MsgInfo) → Msgs → Msgs
add_listings [] m = m
add_listings ((t, infos) ∷ ls) m = add_listings ls (add_infos infos m)

abbrev pub gathered :
    Text → MegaTalker → Gathered → Option Text → Result Msgs × MegaTalker × List TargetData
gathered mbox m g none =
    (ok (add_listings g.listings []), record m { mbox = mbox; mega_data = g.listings }, g.targets)
gathered mbox m g (some e) = (
  throws (lit "Unable to list mailbox: " ++ e),
  record m { mbox = mbox; mega_data = g.listings },
  g.targets,
)

unfoldable pub get_msgs :
    Text → MegaTalker → List TargetData → Result Msgs × MegaTalker × List TargetData
get_msgs mbox m targets = gathered mbox m (gather mbox targets) (gather mbox targets).failure

-- A listing has the index.
abbrev pub Lists : Text → List MsgInfo → Type 0
Lists i [] = ⊥
Lists i (j ∷ js) = (i ≡ j.index) ⊎ Lists i js

abbrev pub SomeLists : Text → List (TargetData × List MsgInfo) → Type 0
SomeLists i [] = ⊥
SomeLists i ((t, infos) ∷ ls) = Lists i infos ⊎ SomeLists i ls

add_infos-IsSorted : (js : List MsgInfo) (m : Msgs) → IsSorted m → IsSorted (add_infos js m)
unfolding add_infos
add_infos-IsSorted [] m s = s
add_infos-IsSorted (j ∷ js) m s =
    add_infos-IsSorted js (insert j.index (to_size (to_int32 j.size)) m)
      (insert-IsSorted j.index (to_size (to_int32 j.size)) m s)

add_listings-IsSorted :
    (ls : List (TargetData × List MsgInfo)) (m : Msgs) → IsSorted m → IsSorted (add_listings ls m)
unfolding add_listings
add_listings-IsSorted [] m s = s
add_listings-IsSorted ((t, infos) ∷ ls) m s =
    add_listings-IsSorted ls (add_infos infos m) (add_infos-IsSorted infos m s)

-- The mailbox has a message with the index.
abbrev pub Has : Text → Msgs → Type 0
Has i m = lookup i m ≢ none

Has-insert : (i k : Text) (v : ℕ) (m : Msgs) → Has i (insert k v m) ↔ ((i ≡ k) ⊎ Has i m)
Has-insert i k v m = (to, fro)
  where
    to : Has i (insert k v m) → (i ≡ k) ⊎ Has i m
    to h = elim (Bool-cases (eq i k)) [
      | inl e ↦ inl ((eq_iff i k).0 e)
      | inr e ↦ inr (λ n. h (lookup-insert i k v m ∙ rw e n))
    ]

    fro : (i ≡ k) ⊎ Has i m → Has i (insert k v m)
    fro (inl e) = λ n. ground (arith, lookup-insert i k v m, eq_iff i k)
    fro (inr h) = λ n. h (ground (arith, lookup-insert i k v m))
