-- ===== src/Smtp/Session/DataSteps.antt =====
-- What DATA of smtpsession.cc leaves of a session, step by step.
use powermail.Base.{
  ◌≡◌, refl, inl, inr, true, false, not, ◌&&◌, List, [], ◌∷◌, Option, none, some, if-rule,
  Bool-cases,
}
use powermail.Base.Int.{pos, ltb_ℤ}
use powermail.Text.{Text, lit, eq}
use powermail.Net.{Result, ok, throws}
use powermail.Backend.{TargetData}
use powermail.UserBase.{MboxData}
use powermail.Mega.Shared.{MegaTalker}
use powermail.Mega.Storage.{Run, open_storage}
use powermail.Mega.Storage.Intact.{open_storage-Sound}
use powermail.Mega.Deliver.{add_recipient, start_data, msg_add_line}
use powermail.Mega.Deliver.Redundancy.{Sound, recipient, begin, line, apply, apply-Sound}
use powermail.Mega.Index.{Msgs}
use powermail.Mega.Mailbox.{Gathered, gather, gathered, get_msgs}
use powermail.Smtp.{Config, Smtp, Outcome, Step}
use powermail.Smtp.Envelope.{run_of}
use powermail.Smtp.Data.{
  take_recipient, take_recipients, recipient_added, quota_known, and_then, open_for, storage_opened,
  unless_degraded, data_started, prepare, too_large, no_destination, invited, finish_data, eat_data,
  received_line,
}
use powermail.Smtp.Session.Steps.{Idle, Inv, mega_of-Sound}

-- A step of DATA, whether it ends the command or not.
abbrev pub Going : Step → Type 0
Going r = Sound r.1 × (r.2.indata ≡ false) × (r.2.fromset ≡ true)

and_then-Going :
    (r : Step) (f : MegaTalker → Smtp → Step)
    → Going r
    → ((m : MegaTalker) (s : Smtp) → Going (none, m, s) → Going (f m s))
    → Going (and_then r f)
and_then-Going (none, m, s) f g h = h m s g
and_then-Going (some e, m, s) f g h = g

recipient_added-Going :
    (s : Smtp) (r : Result (Unit {0}) × MegaTalker)
    → Going (none, r.1, s)
    → Going (recipient_added s r)
recipient_added-Going s (ok a, m) g = g
recipient_added-Going s (throws e, m) g = g

add_recipient-Sound :
    (to index : Text) (m : MegaTalker) → Sound m → Sound (add_recipient to index m).1
unfolding apply
add_recipient-Sound to index m q = apply-Sound (recipient to index) m q

gathered-Sound :
    (mbox : Text) (m : MegaTalker) (g : Gathered) (o : Option Text)
    → Sound m
    → Sound (gathered mbox m g o).1
gathered-Sound mbox m g none q = q
gathered-Sound mbox m g (some e) q = q

-- `getMsgs` leaves the talkers alone.
get_msgs-Sound :
    (mbox : Text) (m : MegaTalker) (ts : List TargetData) → Sound m → Sound (get_msgs mbox m ts).1
unfolding get_msgs
get_msgs-Sound mbox m ts q = gathered-Sound mbox m (gather mbox ts) (gather mbox ts).failure q

quota_known-Going :
    (i : MboxData) (s : Smtp) (r : Result Msgs × MegaTalker × List TargetData)
    → Going (none, r.1, s)
    → Going (quota_known i s r)
quota_known-Going i s (throws e, m, ts) g = g
quota_known-Going i s (ok ms, m, ts) g =
    recipient_added-Going _ (add_recipient i.canonical_mbox s.index m)
      (add_recipient-Sound i.canonical_mbox s.index m g.0, g.1, g.2)

take_recipient-Going :
    (i : MboxData) (m : MegaTalker) (s : Smtp) → Going (none, m, s) → Going (take_recipient i m s)
unfolding take_recipient
take_recipient-Going i m s g =
    let h = add_recipient-Sound i.canonical_mbox s.index m g.0 in
    if-rule Going (not i.is_forward && not (ltb_ℤ (pos 0) i.mb_quota))
      (recipient_added-Going (record s { quotaneeded = false })
        (add_recipient i.canonical_mbox s.index m) (h, g.1, g.2))
      (if-rule Going s.quotaneeded
        (quota_known-Going i s (get_msgs i.canonical_mbox m s.shared.targets)
          (get_msgs-Sound i.canonical_mbox m s.shared.targets g.0, g.1, g.2))
        (recipient_added-Going s (add_recipient i.canonical_mbox s.index m) (h, g.1, g.2)))

take_recipients-Going :
    (is : List MboxData) (m : MegaTalker) (s : Smtp)
    → Going (none, m, s)
    → Going (take_recipients is m s)
unfolding take_recipients
take_recipients-Going [] m s g = g
take_recipients-Going (i ∷ is) m s g =
    and_then-Going (take_recipient i m s) (take_recipients is) (take_recipient-Going i m s g)
      (take_recipients-Going is)

storage_opened-Going :
    (s : Smtp) (r : Result (Unit {0}) × Run)
    → Going (none, r.1.mega, s)
    → Going (storage_opened s r)
storage_opened-Going s (ok a, r) g = g
storage_opened-Going s (throws e, r) g = g

open_for-Going : (is : List MboxData) (s : Smtp) → Idle s → s.fromset ≡ true → Going (open_for is s)
open_for-Going [] s q f = (mega_of-Sound s q.0, q.1, f)
open_for-Going (i ∷ is) s q f =
    storage_opened-Going s (open_storage (run_of s))
      (open_storage-Sound (run_of s) (mega_of-Sound s q.0), q.1, f)

unless_degraded-Going :
    (m : MegaTalker) (s : Smtp) → Going (none, m, s) → Going (unless_degraded m s)
unless_degraded-Going m s g = if-rule Going m.degraded g g

data_started-Going :
    (s : Smtp) (r : Result (Unit {0}) × MegaTalker)
    → Going (none, r.1, s)
    → Going (data_started s r)
data_started-Going s (ok a, m) g = g
data_started-Going s (throws e, m) g = g

start_data-Sound : (m : MegaTalker) → Sound m → Sound (start_data m).1
unfolding apply
start_data-Sound m q = apply-Sound begin m q

pub prepare-Going : (s : Smtp) → Idle s → s.fromset ≡ true → Going (prepare s)
unfolding prepare
prepare-Going s q f =
    let opened : MegaTalker → Smtp → Step = λ m t. unless_degraded m (record t { databytes = 0 }) in
    let begun : MegaTalker → Smtp → Step = λ m t. data_started t (start_data m) in
    let one = and_then (open_for s.recipients s) opened in
    let two = and_then one (take_recipients s.recipients) in
    let first : Going one =
      and_then-Going (open_for s.recipients s) opened (open_for-Going s.recipients s q f)
        (λ m t g. unless_degraded-Going m (record t { databytes = 0 }) g) in
    let second : Going two =
      and_then-Going one (take_recipients s.recipients) first
        (take_recipients-Going s.recipients) in
    and_then-Going (and_then two begun) unless_degraded
      (and_then-Going two begun second
        (λ m t g. data_started-Going t (start_data m) (start_data-Sound m g.0, g.1, g.2)))
      unless_degraded-Going

pub msg_add_line-Sound : (l : Text) (m : MegaTalker) → Sound m → Sound (msg_add_line l m)
unfolding apply
msg_add_line-Sound l m q = apply-Sound (line l) m q

invited-Inv :
    (c : Config) (o : Option Text) (m : MegaTalker) (s : Smtp)
    → Going (none, m, s)
    → Inv (invited c o m s).1
invited-Inv c (some r) m s g = inl (g.0, g.1)
invited-Inv c none m s g = inr (refl, (_, refl, msg_add_line-Sound (received_line c s) m g.0, g.2))

finish_data-Inv : (c : Config) (r : Step) → Going r → Inv (finish_data c r).1
finish_data-Inv c (some r, m, s) g = inl (g.0, g.1)
finish_data-Inv c (none, m, s) g = invited-Inv c (too_large c s) m s g

pub eat_data-Inv : (c : Config) (l : Text) (s : Smtp) → Idle s → Inv (eat_data c l s).1
unfolding eat_data
eat_data-Inv c l s q =
    let Q : Outcome × Smtp → Type 0 = λ r. Inv r.1 in
    if-rule Q (eq l (lit "DATA"))
      (elim (Bool-cases s.fromset) [
        | inr f ↦ simp f (inl q)
        | inl f ↦ if-rule Q (not s.fromset) (inl q) (
            if-rule Q (no_destination s.recipients s.megatalker) (inl q)
              (finish_data-Inv c (prepare s) (prepare-Going s q f)))
      ])
      (inl q)
