-- ===== src/Smtp/Session/Recipients.antt =====
-- Whom a session of smtpsession.cc stores mail for: mailboxes that the user base has.
pub mod Opening
pub mod Runs
use powermail.Base.{
  ℕ, ◌+◌, ◌≡◌, refl, ◌∙◌, sym, ◌⊎◌, inl, inr, Bool, true, false, not, ◌&&◌, List, [], ◌∷◌, ◌++◌,
  Option, none, some, if◌then◌else◌, ◌==◌, if-rule, if-true, if-false, Bool-cases, drop, All,
}
use powermail.Base.Int.{ℤ, pos, ltb_ℤ}
use powermail.Text.{Text, lit, eq, starts_with}
use powermail.Text.Tokens.{stringtok}
use powermail.Text.Clean.{strip_line}
use powermail.Net.{Result, ok, throws}
use powermail.Backend.{TargetData}
use powermail.UserBase.{UserBase, MboxData, Lookup, unavailable, absent, present}
use powermail.Mega.Shared.{Shared, MegaTalker}
use powermail.Mega.Storage.{Run, open_storage, add_remote}
use powermail.Mega.Deliver.{add_recipient, start_data, msg_add_line, msg_done, msg_rollback}
use powermail.Mega.Index.{Msgs}
use powermail.Mega.Mailbox.{get_msgs}
use powermail.Smtp.{Config, Smtp, Outcome, pass, reply, crash, Step, start, rset_session, say}
use powermail.Smtp.Commands.{blanks, control_commands, greet, top_commands, first_word_uc}
use powermail.Smtp.Envelope.{
  run_of, forwarded, recipient_known, lookup_again, catch_all, lookup_recipient, extract_address,
  eat_from, eat_to, sized, begun, esmtp_size,
}
use powermail.Smtp.Data.{
  take_recipient, take_recipients, recipient_added, quota_known, and_then, open_for, storage_opened,
  unless_degraded, data_started, prepare, too_large, invited, finish_data, eat_data, no_destination,
}
use powermail.Smtp.Lines.{
  is_end, fits, read_header, ends_headers, end_headers, body_line, dropped, delivered, over_quota,
  over_limit, end_message, data_line, eat_data_line,
}
use powermail.Smtp.Session.{or_else, command, give_line, run}

-- The user base has an account for the mailbox, and the account is no forward.
abbrev pub Known : Config → MboxData → Type 0
Known c md =
    (dest : Text) × (pw : Bool) × (c.users.mbox_data dest [] [] ≡ present md pw)
    × (md.is_forward ≡ false)

abbrev pub AllKnown : Config → Smtp → Type 0
AllKnown c s = All (Known c) s.recipients

All-append :
    (c : Config) (ms : List MboxData) (m : MboxData)
    → All (Known c) ms
    → Known c m
    → All (Known c) (ms ++ (m ∷ []))
All-append c [] m a k = (k, tt)
All-append c (x ∷ ms) m a k = (a.0, All-append c ms m a.1 k)

greet-AllKnown :
    (c : Config) (l : Text) (ws : List Text) (s : Smtp)
    → AllKnown c s
    → AllKnown c (greet c l ws s).1
unfolding rset_session
greet-AllKnown c l [] s q =
    let Q : Outcome × Smtp → Type 0 = λ r. AllKnown c r.1 in
    if-rule Q (starts_with (lit "RSET") l) tt q
greet-AllKnown c l (w ∷ []) s q =
    let Q : Outcome × Smtp → Type 0 = λ r. AllKnown c r.1 in
    if-rule Q (starts_with (lit "RSET") l) tt q
greet-AllKnown c l (w ∷ a ∷ ws) s q =
    let Q : Outcome × Smtp → Type 0 = λ r. AllKnown c r.1 in
    if-rule Q (eq w (lit "HELO")) q
      (if-rule Q (eq w (lit "EHLO")) q (if-rule Q (starts_with (lit "RSET") l) tt q))

pub top_commands-AllKnown :
    (c : Config) (l : Text) (s : Smtp) → AllKnown c s → AllKnown c (top_commands c l s).1
unfolding top_commands
top_commands-AllKnown c l s q =
    let Q : Outcome × Smtp → Type 0 = λ r. AllKnown c r.1 in
    if-rule Q (eq l (lit "HELP")) q (
      if-rule Q (eq l (lit "NOOP")) q (
        if-rule Q (eq l (lit "QUIT")) q
          (if-rule Q (eq l (lit "HELO")) q (greet-AllKnown c l (stringtok blanks l) s q))))

sized-AllKnown : (c : Config) (k : Option ℕ) (s : Smtp) → AllKnown c s → AllKnown c (sized k s).1
sized-AllKnown c none s q = q
sized-AllKnown c (some n) s q = q

pub eat_from-AllKnown :
    (c : Config) (l : Text) (s : Smtp) → AllKnown c s → AllKnown c (eat_from c l s).1
unfolding eat_from
eat_from-AllKnown c l s q =
    let Q : Outcome × Smtp → Type 0 = λ r. AllKnown c r.1 in
    if-rule Q (starts_with (lit "MAIL FROM:") l)
      (if-rule Q s.fromset q (sized-AllKnown c (esmtp_size l) (begun c l s) q)) q

-- The account that the two tries find is one of the user base's.
abbrev Found : Config → MboxData → Type 0
Found c md = (dest : Text) × (pw : Bool) × (c.users.mbox_data dest [] [] ≡ present md pw)

lookup_again-Found :
    (c : Config) (to dest : Text) (r : Lookup) (md : MboxData) (pw : Bool)
    → c.users.mbox_data to [] [] ≡ r
    → lookup_again c.users dest r ≡ present md pw
    → Found c md
lookup_again-Found c to dest (unavailable e) md pw h k = cc
lookup_again-Found c to dest (absent e) md pw h k = (dest, pw, k)
lookup_again-Found c to dest (present m b) md pw h k = (to, pw, h ∙ k)

lookup_recipient-Found :
    (c : Config) (to : Text) (md : MboxData) (pw : Bool)
    → lookup_recipient c.users to ≡ present md pw
    → Found c md
unfolding lookup_recipient
lookup_recipient-Found c to md pw h =
    lookup_again-Found c to (catch_all to) (c.users.mbox_data to [] []) md pw refl h

forwarded-AllKnown :
    (c : Config) (to dest : Text) (s : Smtp) (r : Result (Unit {0}) × Run)
    → AllKnown c s
    → AllKnown c (forwarded to dest s r).1
forwarded-AllKnown c to dest s (ok a, r) q = q
forwarded-AllKnown c to dest s (throws e, r) q = q

recipient_known-AllKnown :
    (c : Config) (to : Text) (s : Smtp) (r : Lookup)
    → ((md : MboxData) (pw : Bool) → r ≡ present md pw → Found c md)
    → AllKnown c s
    → AllKnown c (recipient_known to s r).1
recipient_known-AllKnown c to s (unavailable e) f q = q
recipient_known-AllKnown c to s (absent e) f q = q
recipient_known-AllKnown c to s (present md pw) f q =
    let Q : Outcome × Smtp → Type 0 = λ r. AllKnown c r.1 in
    let (dest, b, k) = f md pw refl in
    elim (Bool-cases md.is_forward) [
      | inl e ↦ if-true Q md.is_forward _ e (
          forwarded-AllKnown c to md.fwd_dest s (add_remote s.sender md.fwd_dest s.index (run_of s))
            q)
      | inr e ↦ if-false Q md.is_forward _ e (All-append c s.recipients md q (dest, b, k, e))
    ]

pub eat_to-AllKnown :
    (c : Config) (l : Text) (s : Smtp) → AllKnown c s → AllKnown c (eat_to c l s).1
unfolding eat_to
eat_to-AllKnown c l s q =
    let Q : Outcome × Smtp → Type 0 = λ r. AllKnown c r.1 in
    let to = extract_address (drop 8 l) in
    if-rule Q (starts_with (lit "RCPT TO:") l)
      (if-rule Q s.fromset
        (recipient_known-AllKnown c to s (lookup_recipient c.users to) (lookup_recipient-Found c to)
          q)
        q)
      q
