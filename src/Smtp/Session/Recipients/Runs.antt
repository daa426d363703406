-- ===== src/Smtp/Session/Recipients/Runs.antt =====
-- The recipients of a session of smtpsession.cc, over all its lines.
use powermail.Base.{ℕ, false, ◌&&◌, List, [], ◌∷◌, Option, none, some, if◌then◌else◌, if-rule}
use powermail.Text.{Text, lit, starts_with}
use powermail.Text.Clean.{strip_line}
use powermail.Net.{Result, ok, throws}
use powermail.Mega.Shared.{Shared, MegaTalker}
use powermail.Mega.Deliver.{msg_done}
use powermail.Smtp.{Config, Smtp, Outcome, pass, reply, crash, start, rset_session, say}
use powermail.Smtp.Commands.{control_commands, top_commands, first_word_uc}
use powermail.Smtp.Envelope.{eat_from, eat_to}
use powermail.Smtp.Data.{eat_data}
use powermail.Smtp.Lines.{
  is_end, read_header, ends_headers, body_line, delivered, over_quota, over_limit, end_message,
  data_line, eat_data_line,
}
use powermail.Smtp.Session.{or_else, command, give_line, run}
use powermail.Smtp.Session.Recipients.{
  AllKnown, top_commands-AllKnown, eat_from-AllKnown, eat_to-AllKnown,
}
use powermail.Smtp.Session.Recipients.Opening.{eat_data-AllKnown}

read_header-AllKnown :
    (c : Config) (l : Text) (s : Smtp) → AllKnown c s → AllKnown c (read_header l s)
unfolding read_header
read_header-AllKnown c l s q =
    if-rule (AllKnown c) (starts_with (lit "Subject: ") l) q
      (if-rule (AllKnown c) (starts_with (lit "Content-Type: multipart/mixed") l) q q)

body_line-AllKnown :
    (c : Config) (l : Text) (m : MegaTalker) (s : Smtp)
    → AllKnown c s
    → AllKnown c (body_line c l m s)
unfolding body_line
body_line-AllKnown c l m s q =
    let s' = if s.inheaders then read_header l s else s in
    let h : AllKnown c s' = if-rule (AllKnown c) s.inheaders (read_header-AllKnown c l s q) q in
    if-rule (AllKnown c) (s.inheaders && ends_headers l) h h

delivered-AllKnown :
    (c : Config) (s : Smtp) (r : Result (Unit {0}) × MegaTalker)
    → AllKnown c s
    → AllKnown c (delivered s r).1
unfolding rset_session
delivered-AllKnown c s (throws e, m) q = q
delivered-AllKnown c s (ok a, m) q =
    let Q : Outcome × Smtp → Type 0 = λ r. AllKnown c r.1 in if-rule Q m.degraded tt tt

end_message-AllKnown :
    (c : Config) (m : MegaTalker) (s : Smtp) → AllKnown c s → AllKnown c (end_message c m s).1
unfolding end_message rset_session
end_message-AllKnown c m s q =
    let Q : Outcome × Smtp → Type 0 = λ r. AllKnown c r.1 in
    if-rule Q (over_quota s) tt
      (if-rule Q (over_limit c s) tt (delivered-AllKnown c s (msg_done m) q))

data_line-AllKnown :
    (c : Config) (l : Text) (o : Option MegaTalker) (s : Smtp)
    → AllKnown c s
    → AllKnown c (data_line c l o s).1
data_line-AllKnown c l none s q = q
data_line-AllKnown c l (some m) s q =
    let Q : Outcome × Smtp → Type 0 = λ r. AllKnown c r.1 in
    if-rule Q (is_end l) (end_message-AllKnown c m (record s { indata = false }) q)
      (body_line-AllKnown c l m s q)

or_else-AllKnown :
    (c : Config) (m : Outcome × Smtp) (f : Smtp → Outcome × Smtp)
    → AllKnown c m.1
    → ((s : Smtp) → AllKnown c s → AllKnown c (f s).1)
    → AllKnown c (or_else m f).1
or_else-AllKnown c (pass, s) f q h = h s q
or_else-AllKnown c (reply r k, s) f q h = q
or_else-AllKnown c (crash, s) f q h = q

command-AllKnown : (c : Config) (l : Text) (s : Smtp) → AllKnown c s → AllKnown c (command c l s).1
unfolding command control_commands
command-AllKnown c l s q =
    let a = control_commands c l s in
    let b = or_else a (top_commands c l) in
    let d = or_else b (eat_from c l) in
    let e = or_else d (eat_to c l) in
    or_else-AllKnown c (or_else e (eat_data c l)) (say (lit "502 Not Implemented"))
      (or_else-AllKnown c e (eat_data c l)
        (or_else-AllKnown c d (eat_to c l)
          (or_else-AllKnown c b (eat_from c l)
            (or_else-AllKnown c a (top_commands c l) q (top_commands-AllKnown c l))
            (eat_from-AllKnown c l))
          (eat_to-AllKnown c l))
        (eat_data-AllKnown c l))
      (λ t k. k)

run-AllKnown : (c : Config) (ls : List Text) (s : Smtp) → AllKnown c s → AllKnown c (run c ls s)
unfolding run give_line eat_data_line
run-AllKnown c [] s q = q
run-AllKnown c (l ∷ ls) s q =
    let Q : Outcome × Smtp → Type 0 = λ r. AllKnown c r.1 in
    run-AllKnown c ls (give_line c l s).1 (
      if-rule Q s.indata (data_line-AllKnown c l s.megatalker s q)
        (command-AllKnown c (first_word_uc (strip_line l)) s q))

-- Whatever lines a new session is fed with, each recipient that it keeps is an account which the
-- user base reported for some address, and which is not a forward.
pub run-start-AllKnown :
    (c : Config) (remote : Text) (sh : Shared) (times : List Text) (counter : ℕ) (ls : List Text)
    → AllKnown c (run c ls (start remote sh times counter))
unfolding start
run-start-AllKnown c remote sh times counter ls =
    run-AllKnown c ls (start remote sh times counter) tt
