-- ===== src/Smtp/Data.antt =====
-- `eatData`, `determineKbUsage` and `sendReceivedLine` of smtpsession.cc: the start of a message.
use powermail.Base.{
  ℕ, ◌+◌, ◌-◌, ◌/◌, ◌%◌, ◌^◌, max, Bool, true, false, not, ◌&&◌, List, [], ◌∷◌, ◌++◌, Option, none,
  some, if◌then◌else◌, ◌==◌,
}
use powermail.Base.Int.{ℤ, pos, ◌*ℤ◌, ltb_ℤ, max_ℤ, to_int32, to_size}
use powermail.Text.{Text, lit, eq}
use powermail.Text.Number.{itoa}
use powermail.Net.{Result, ok, throws}
use powermail.Backend.{TargetData}
use powermail.UserBase.{MboxData}
use powermail.Mega.Shared.{MegaTalker}
use powermail.Mega.Storage.{Run, open_storage}
use powermail.Mega.Deliver.{add_recipient, start_data, msg_add_line}
use powermail.Mega.Index.{Msgs}
use powermail.Mega.Mailbox.{get_msgs}
use powermail.Smtp.{Config, Smtp, Outcome, pass, say, Step, max_msg}
use powermail.Smtp.Commands.{is_zero}
use powermail.Smtp.Envelope.{mega_of, run_of}

-- The kbytes that a mailbox uses, 4 at least for a message. `i->size/1024` goes to 32 bits.
unfoldable pub kb_usage : Msgs → ℕ
kb_usage [] = 0
kb_usage ((i, size) ∷ ms) = (max 4 (size / 1024 % 2 ^ 32) + kb_usage ms) % 2 ^ 64

-- `(signed int)(i->mbQuota*1000-kbUsage)`: the product is an int, the difference a size_t.
unfoldable pub room : ℤ → ℕ → ℤ
room quota usage = to_int32 (to_size (to_int32 (to_size (quota *ℤ pos 1000))) + (2 ^ 64 - usage))

abbrev pub with_targets : List TargetData → Smtp → Smtp
with_targets ts s = record s { shared = record s.shared { targets = ts } }

abbrev pub recipient_added : Smtp → Result (Unit {0}) × MegaTalker → Step
recipient_added s (ok _, m) = (none, m, s)
recipient_added s (throws e, m) = (some (lit "450 Backend error: " ++ e), m, s)

abbrev pub quota_known : MboxData → Smtp → Result Msgs × MegaTalker × List TargetData → Step
quota_known i s (throws e, m, ts) =
    (some (lit "450 Unable to determine quota: " ++ e), m, with_targets ts s)
quota_known i s (ok msgs, m, ts) =
    recipient_added
      (record (with_targets ts s) { kbroom = max_ℤ (room i.mb_quota (kb_usage msgs)) s.kbroom })
      (add_recipient i.canonical_mbox s.index m)

-- One round of the loop over the recipients.
unfoldable pub take_recipient : MboxData → MegaTalker → Smtp → Step
unfolding kb_usage room
take_recipient i m s =
    if not i.is_forward && not (ltb_ℤ (pos 0) i.mb_quota)
    then recipient_added (record s { quotaneeded = false })
        (add_recipient i.canonical_mbox s.index m)
    else if s.quotaneeded
    then quota_known i s (get_msgs i.canonical_mbox m s.shared.targets)
    else recipient_added s (add_recipient i.canonical_mbox s.index m)

abbrev pub and_then : Step → (MegaTalker → Smtp → Step) → Step
and_then (none, m, s) f = f m s
and_then (some r, m, s) f = (some r, m, s)

unfoldable pub take_recipients : List MboxData → MegaTalker → Smtp → Step
unfolding take_recipient
take_recipients [] m s = (none, m, s)
take_recipients (i ∷ is) m s = and_then (take_recipient i m s) (take_recipients is)

abbrev pub degraded_reply : Text
degraded_reply = lit "450 Operating in degraded (read-only) mode, try again later"

abbrev pub storage_opened : Smtp → Result (Unit {0}) × Run → Step
storage_opened s (throws e, r) =
    (some (lit "450 Backend error: " ++ e), r.mega, record s { shared = r.shared })
storage_opened s (ok _, r) = (none, r.mega, record s { shared = r.shared })

abbrev pub open_for : List MboxData → Smtp → Step
open_for [] s = (none, mega_of s, record s { quotaneeded = false })
open_for (i ∷ is) s = storage_opened s (open_storage (run_of s))

abbrev pub unless_degraded : MegaTalker → Smtp → Step
unless_degraded m s = if m.degraded then (some degraded_reply, m, s) else (none, m, s)

abbrev pub data_started : Smtp → Result (Unit {0}) × MegaTalker → Step
data_started s (throws e, m) = (some (lit "450 Backend error: " ++ e), m, s)
data_started s (ok _, m) = (none, m, s)

abbrev pub size_text : Smtp → Text
size_text s = itoa (to_int32 s.esmtpkbsize)

-- The message's announced size does not fit, with the response.
unfoldable pub too_large : Config → Smtp → Option Text
too_large c s =
    if not s.quotaneeded
    then none
    else if not (ltb_ℤ (pos 0) s.kbroom)
    then some (lit "552 Recipient(s) over quota, no space available")
    else if not (s.esmtpkbsize == 0) && ltb_ℤ s.kbroom (to_int32 s.esmtpkbsize)
    then some (
        lit "552 A message of that size ("
        ++ (size_text s
            ++ (lit "kbytes) exceeds remaining quota (" ++ (itoa s.kbroom ++ lit "kb)"))))
    else if not (s.esmtpkbsize == 0)
        && not (is_zero (max_msg c))
        && ltb_ℤ (max_msg c) (to_int32 s.esmtpkbsize)
    then some (
        lit "552 A message of "
        ++ (size_text s
            ++ (lit "kbytes exceeds maximum message size (" ++ (c.max_msg_kb ++ lit "kb)"))))
    else none

abbrev pub invitation : Smtp → Text
invitation s =
    lit "354 Enter message, ending with '.' on a line by itself"
    ++ (if s.quotaneeded
        then lit ". Quota available: " ++ (itoa s.kbroom ++ lit " kilobytes")
        else [])

unfoldable pub received_line : Config → Smtp → Text
received_line c s =
    lit "Received: from "
    ++ (s.remote
        ++ (lit " by "
            ++ (c.own_name
                ++ (lit " (PowerMail) with id <"
                    ++ (s.index ++ (lit ">; " ++ (c.date ++ lit "\r\n")))))))

abbrev pub enter_data : Smtp → Smtp
enter_data s = record s { indata = true; inheaders = true; multipart = false; boundary = [] }

abbrev pub invited : Config → Option Text → MegaTalker → Smtp → Outcome × Smtp
invited c (some r) m s = say r (record s { megatalker = some m })
invited c none m s =
    say (invitation s)
      (record (enter_data s) { megatalker = some (msg_add_line (received_line c s) m) })

abbrev pub finish_data : Config → Step → Outcome × Smtp
finish_data c (some r, m, s) = say r (record s { megatalker = some m })
finish_data c (none, m, s) = invited c (too_large c s) m s

-- The `try` block: each step is taken where the one before did not end it.
unfoldable pub prepare : Smtp → Step
unfolding take_recipients
prepare s =
    and_then
      (and_then
        (and_then
          (and_then (open_for s.recipients s)
            (λ m t. unless_degraded m (record t { databytes = 0 })))
          (take_recipients s.recipients))
        (λ m t. data_started t (start_data m)))
      unless_degraded

abbrev pub no_destination : List MboxData → Option MegaTalker → Bool
no_destination [] none = true
no_destination _ _ = false

unfoldable pub eat_data : Config → Text → Smtp → Outcome × Smtp
unfolding prepare too_large received_line
eat_data c line s =
    if eq line (lit "DATA")
    then (if not s.fromset
        then say (lit "503 Please specify MAIL From: first") s
        else if no_destination s.recipients s.megatalker
        then say (lit "503 Please specify destination(s) first") s
        else finish_data c (prepare s))
    else (pass, s)
