-- ===== src/Smtp/Session/Recipients/Opening.antt =====
-- The recipients of a session of smtpsession.cc, over the steps of DATA.
use powermail.Base.{false, not, ◌&&◌, List, [], ◌∷◌, Option, none, some, if-rule}
use powermail.Base.Int.{pos, ltb_ℤ}
use powermail.Text.{Text, lit, eq}
use powermail.Net.{Result, ok, throws}
use powermail.Backend.{TargetData}
use powermail.UserBase.{MboxData}
use powermail.Mega.Shared.{MegaTalker}
use powermail.Mega.Storage.{Run, open_storage}
use powermail.Mega.Deliver.{add_recipient, start_data}
use powermail.Mega.Index.{Msgs}
use powermail.Mega.Mailbox.{get_msgs}
use powermail.Smtp.{Config, Smtp, Outcome, Step}
use powermail.Smtp.Envelope.{run_of}
use powermail.Smtp.Data.{
  take_recipient, take_recipients, recipient_added, quota_known, and_then, open_for, storage_opened,
  unless_degraded, data_started, prepare, too_large, invited, finish_data, eat_data, no_destination,
}
use powermail.Smtp.Session.Recipients.{AllKnown}

-- A step of DATA leaves the recipients alone.
abbrev Kept : Config → Step → Type 0
Kept c r = AllKnown c r.2

and_then-Kept :
    (c : Config) (r : Step) (f : MegaTalker → Smtp → Step)
    → Kept c r
    → ((m : MegaTalker) (s : Smtp) → AllKnown c s → Kept c (f m s))
    → Kept c (and_then r f)
and_then-Kept c (none, m, s) f g h = h m s g
and_then-Kept c (some e, m, s) f g h = g

recipient_added-Kept :
    (c : Config) (s : Smtp) (r : Result (Unit {0}) × MegaTalker)
    → AllKnown c s
    → Kept c (recipient_added s r)
recipient_added-Kept c s (ok a, m) q = q
recipient_added-Kept c s (throws e, m) q = q

quota_known-Kept :
    (c : Config) (i : MboxData) (s : Smtp) (r : Result Msgs × MegaTalker × List TargetData)
    → AllKnown c s
    → Kept c (quota_known i s r)
quota_known-Kept c i s (throws e, m, ts) q = q
quota_known-Kept c i s (ok ms, m, ts) q =
    recipient_added-Kept c _ (add_recipient i.canonical_mbox s.index m) q

take_recipient-Kept :
    (c : Config) (i : MboxData) (m : MegaTalker) (s : Smtp)
    → AllKnown c s
    → Kept c (take_recipient i m s)
unfolding take_recipient
take_recipient-Kept c i m s q =
    let r = add_recipient i.canonical_mbox s.index m in
    if-rule (Kept c) (not i.is_forward && not (ltb_ℤ (pos 0) i.mb_quota))
      (recipient_added-Kept c (record s { quotaneeded = false }) r q)
      (if-rule (Kept c) s.quotaneeded
        (quota_known-Kept c i s (get_msgs i.canonical_mbox m s.shared.targets) q)
        (recipient_added-Kept c s r q))

take_recipients-Kept :
    (c : Config) (is : List MboxData) (m : MegaTalker) (s : Smtp)
    → AllKnown c s
    → Kept c (take_recipients is m s)
unfolding take_recipients
take_recipients-Kept c [] m s q = q
take_recipients-Kept c (i ∷ is) m s q =
    and_then-Kept c (take_recipient i m s) (take_recipients is) (take_recipient-Kept c i m s q)
      (take_recipients-Kept c is)

storage_opened-Kept :
    (c : Config) (s : Smtp) (r : Result (Unit {0}) × Run)
    → AllKnown c s
    → Kept c (storage_opened s r)
storage_opened-Kept c s (ok a, r) q = q
storage_opened-Kept c s (throws e, r) q = q

open_for-Kept : (c : Config) (is : List MboxData) (s : Smtp) → AllKnown c s → Kept c (open_for is s)
open_for-Kept c [] s q = q
open_for-Kept c (i ∷ is) s q = storage_opened-Kept c s (open_storage (run_of s)) q

unless_degraded-Kept :
    (c : Config) (m : MegaTalker) (s : Smtp) → AllKnown c s → Kept c (unless_degraded m s)
unless_degraded-Kept c m s q = if-rule (Kept c) m.degraded q q

data_started-Kept :
    (c : Config) (s : Smtp) (r : Result (Unit {0}) × MegaTalker)
    → AllKnown c s
    → Kept c (data_started s r)
data_started-Kept c s (ok a, m) q = q
data_started-Kept c s (throws e, m) q = q

prepare-Kept : (c : Config) (s : Smtp) → AllKnown c s → Kept c (prepare s)
unfolding prepare
prepare-Kept c s q =
    let opened : MegaTalker → Smtp → Step = λ m t. unless_degraded m (record t { databytes = 0 }) in
    let begun : MegaTalker → Smtp → Step = λ m t. data_started t (start_data m) in
    let one = and_then (open_for s.recipients s) opened in
    let two = and_then one (take_recipients s.recipients) in
    let first : Kept c one =
      and_then-Kept c (open_for s.recipients s) opened (open_for-Kept c s.recipients s q)
        (λ m t g. unless_degraded-Kept c m (record t { databytes = 0 }) g) in
    let second : Kept c two =
      and_then-Kept c one (take_recipients s.recipients) first
        (take_recipients-Kept c s.recipients) in
    and_then-Kept c (and_then two begun) unless_degraded
      (and_then-Kept c two begun second (λ m t g. data_started-Kept c t (start_data m) g))
      (unless_degraded-Kept c)

invited-AllKnown :
    (c : Config) (o : Option Text) (m : MegaTalker) (s : Smtp)
    → AllKnown c s
    → AllKnown c (invited c o m s).1
invited-AllKnown c (some r) m s q = q
invited-AllKnown c none m s q = q

finish_data-AllKnown : (c : Config) (r : Step) → Kept c r → AllKnown c (finish_data c r).1
finish_data-AllKnown c (some r, m, s) q = q
finish_data-AllKnown c (none, m, s) q = invited-AllKnown c (too_large c s) m s q

pub eat_data-AllKnown :
    (c : Config) (l : Text) (s : Smtp) → AllKnown c s → AllKnown c (eat_data c l s).1
unfolding eat_data
eat_data-AllKnown c l s q =
    let Q : Outcome × Smtp → Type 0 = λ r. AllKnown c r.1 in
    if-rule Q (eq l (lit "DATA"))
      (if-rule Q (not s.fromset) q (
        if-rule Q (no_destination s.recipients s.megatalker) q
          (finish_data-AllKnown c (prepare s) (prepare-Kept c s q))))
      q
