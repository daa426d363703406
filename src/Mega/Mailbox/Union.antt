-- ===== src/Mega/Mailbox/Union.antt =====
-- A mailbox as `getMsgs` of megatalker.cc returns it is the union of the backends' listings.
use powermail.Base.{
  ◌≡◌, ◌↔◌, refl, ap, ◌∙◌, sym, ◌⊎◌, inl, inr, true, false, List, [], ◌∷◌, Option, none, some,
  arith, Bool-cases,
}
use powermail.Base.Int.{to_int32, to_size}
use powermail.Text.{Text}
use powermail.Net.{Result, ok, throws}
use powermail.Talker.Ppt.{PpTalker, MsgInfo}
use powermail.Talker.Ppt
use powermail.Backend.{TargetData}
use powermail.Mega.Shared.{MegaTalker}
use powermail.Mega.Index.{Msgs, insert, lookup, IsSorted}
use powermail.Mega.Mailbox.{
  Gathered, got, gather, add_infos, add_listings, gathered, get_msgs, Lists, SomeLists, Has,
  Has-insert, add_listings-IsSorted,
}

Has-add_infos :
    (i : Text) (js : List MsgInfo) (m : Msgs) → Has i (add_infos js m) ↔ (Lists i js ⊎ Has i m)
unfolding add_infos
Has-add_infos i [] m = (inr, λ h. drop_left h)
  where
    drop_left : ⊥ ⊎ Has i m → Has i m
    drop_left (inl e) = absurd e
    drop_left (inr h) = h
Has-add_infos i (j ∷ js) m =
    let v = to_size (to_int32 j.size) in
    let (later, back) = Has-add_infos i js (insert j.index v m) in
    let (here, fro) = Has-insert i j.index v m in
    (λ h. first (later h) here, λ h. back (last h fro))
  where
    first :
        Lists i js ⊎ Has i (insert j.index (to_size (to_int32 j.size)) m)
        → (Has i (insert j.index (to_size (to_int32 j.size)) m) → (i ≡ j.index) ⊎ Has i m)
        → ((i ≡ j.index) ⊎ Lists i js) ⊎ Has i m
    first (inl l) f = inl (inr l)
    first (inr h) f = elim (f h) [ inl e ↦ inl (inl e) | inr k ↦ inr k ]

    last :
        ((i ≡ j.index) ⊎ Lists i js) ⊎ Has i m
        → ((i ≡ j.index) ⊎ Has i m → Has i (insert j.index (to_size (to_int32 j.size)) m))
        → Lists i js ⊎ Has i (insert j.index (to_size (to_int32 j.size)) m)
    last (inl (inl e)) f = inr (f (inl e))
    last (inl (inr l)) f = inl l
    last (inr h) f = inr (f (inr h))

Has-add_listings :
    (i : Text) (ls : List (TargetData × List MsgInfo)) (m : Msgs)
    → Has i (add_listings ls m) ↔ (SomeLists i ls ⊎ Has i m)
unfolding add_listings
Has-add_listings i [] m = (inr, λ h. drop_left h)
  where
    drop_left : ⊥ ⊎ Has i m → Has i m
    drop_left (inl e) = absurd e
    drop_left (inr h) = h
Has-add_listings i ((t, infos) ∷ ls) m =
    let (later, back) = Has-add_listings i ls (add_infos infos m) in
    let (here, fro) = Has-add_infos i infos m in (λ h. first (later h) here, λ h. back (last h fro))
  where
    first :
        SomeLists i ls ⊎ Has i (add_infos infos m)
        → (Has i (add_infos infos m) → Lists i infos ⊎ Has i m)
        → (Lists i infos ⊎ SomeLists i ls) ⊎ Has i m
    first (inl l) f = inl (inr l)
    first (inr h) f = elim (f h) [ inl e ↦ inl (inl e) | inr k ↦ inr k ]

    last :
        (Lists i infos ⊎ SomeLists i ls) ⊎ Has i m
        → (Lists i infos ⊎ Has i m → Has i (add_infos infos m))
        → SomeLists i ls ⊎ Has i (add_infos infos m)
    last (inl (inl e)) f = inr (f (inl e))
    last (inl (inr l)) f = inl l
    last (inr h) f = inr (f (inr h))

-- A backend that is up answers with a listing that has the index.
abbrev pub BackendLists : Text → Text → List TargetData → Type 0
BackendLists mbox i [] = ⊥
BackendLists mbox i (t ∷ ts) =
    ((infos : List MsgInfo) × (t.up ≡ true)
      × ((Ppt.get_msgs mbox t.pp_talker).0 ≡ ok infos)
      × Lists i infos)
    ⊎ BackendLists mbox i ts

got-SomeLists :
    (mbox i : Text) (t : TargetData) (ts : List TargetData) (g : Gathered)
    (r : Result (List MsgInfo) × PpTalker)
    → (got t ts g r).failure ≡ none
    → (infos : List MsgInfo) × (r.0 ≡ ok infos)
      × (g.failure ≡ none)
      × ((got t ts g r).listings ≡ (t, infos) ∷ g.listings)
got-SomeLists mbox i t ts g (ok infos, p) h = (infos, refl, h, refl)
got-SomeLists mbox i t ts g (throws e, p) h = cc

ok-injective : {a b : List MsgInfo} → ◌≡◌ {A = Result (List MsgInfo)} (ok a) (ok b) → a ≡ b
ok-injective h = cc

gather_down :
    (mbox : Text) (t : TargetData) (ts : List TargetData)
    → t.up ≡ false
    → ((gather mbox (t ∷ ts)).listings ≡ (gather mbox ts).listings)
      × ((gather mbox (t ∷ ts)).failure ≡ (gather mbox ts).failure)
unfolding gather
gather_down mbox t ts e = (ground arith, ground arith)

gather_up :
    (mbox : Text) (t : TargetData) (ts : List TargetData)
    → t.up ≡ true
    → gather mbox (t ∷ ts) ≡ got t ts (gather mbox ts) (Ppt.get_msgs mbox t.pp_talker)
unfolding gather
gather_up mbox t ts e = elim (Bool-cases t.up) [ inl u ↦ rw (u, gather) | inr u ↦ cc ]

gather-SomeLists :
    (mbox i : Text) (ts : List TargetData)
    → (gather mbox ts).failure ≡ none
    → SomeLists i (gather mbox ts).listings ↔ BackendLists mbox i ts
gather-SomeLists mbox i [] h = unfold gather in (λ e. e, λ e. e)
gather-SomeLists mbox i (t ∷ ts) h = elim (Bool-cases t.up) [
  | inr down ↦
      let (same, fails) = gather_down mbox t ts down in
      let (to, fro) = gather-SomeLists mbox i ts (sym fails ∙ h) in
      (
        λ s. inr (to (rw same at s)),
        λ b. elim b [ inl (infos, up, e, l) ↦ cc | inr k ↦ rw same (fro k) ],
      )
  | inl up ↦
      let whole = gather_up mbox t ts up in
      let (infos, e, f, l) =
        got-SomeLists mbox i t ts (gather mbox ts) (Ppt.get_msgs mbox t.pp_talker)
          (ap (λ g. g.failure) (sym whole) ∙ h) in
      let same : (gather mbox (t ∷ ts)).listings ≡ (t, infos) ∷ (gather mbox ts).listings =
        ap (λ g. g.listings) whole ∙ l in
      let (to, fro) = gather-SomeLists mbox i ts f in
      (
        λ s.
            elim (let s' : Lists i infos ⊎ SomeLists i (gather mbox ts).listings = rw same at s in
              s') [ inl x ↦ inl (infos, up, e, x) | inr y ↦ inr (to y) ],
        λ b. elim b [
          | inl (infos', up', e', x) ↦ rw same (inl (rw (ok-injective (sym e' ∙ e)) at x))
          | inr k ↦ rw same (inr (fro k))
        ],
      )
]

msgs-injective : {a b : Msgs} → ◌≡◌ {A = Result Msgs} (ok a) (ok b) → a ≡ b
msgs-injective h = cc

throws-ne-ok : {e : Text} {a : Msgs} → ¬ (◌≡◌ {A = Result Msgs} (throws e) (ok a))
throws-ne-ok h = cc

lookup-nil : (i : Text) → lookup i [] ≡ none
unfolding lookup
lookup-nil i = refl

gathered-ok :
    (mbox : Text) (m m' : MegaTalker) (g : Gathered) (o : Option Text) (msgs : Msgs)
    (ts' : List TargetData)
    → gathered mbox m g o ≡ (ok msgs, m', ts')
    → (o ≡ none) × (add_listings g.listings [] ≡ msgs)
gathered-ok mbox m m' g none msgs ts' h = (refl, msgs-injective (ap (λ p. p.0) h))
gathered-ok mbox m m' g (some e) msgs ts' h = absurd (throws-ne-ok (ap (λ p. p.0) h))

-- Where `getMsgs` returns, the messages are sorted by their index with no index twice, and an index
-- is there exactly when a backend that is up lists it.
pub get_msgs_lem :
    (mbox : Text) (m m' : MegaTalker) (ts ts' : List TargetData) (msgs : Msgs)
    → get_msgs mbox m ts ≡ (ok msgs, m', ts')
    → IsSorted msgs × ((i : Text) → Has i msgs ↔ BackendLists mbox i ts)
unfolding get_msgs
get_msgs_lem mbox m m' ts ts' msgs h =
    let g = gather mbox ts in
    let (n, e) = gathered-ok mbox m m' g g.failure msgs ts' h in
    (
      rw e at (add_listings-IsSorted g.listings [] tt),
      λ i. rw (← e) (union i g.listings (gather-SomeLists mbox i ts n)),
    )
  where
    union :
        (i : Text) (ls : List (TargetData × List MsgInfo))
        → SomeLists i ls ↔ BackendLists mbox i ts
        → Has i (add_listings ls []) ↔ BackendLists mbox i ts
    union i ls (to, fro) =
        let (there, back) = Has-add_listings i ls [] in
        (
          λ h. elim (there h) [ inl l ↦ to l | inr n ↦ absurd (n (lookup-nil i)) ],
          λ b. back (inl (fro b)),
        )
