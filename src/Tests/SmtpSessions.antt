-- ===== src/Tests/SmtpSessions.antt =====
-- An SMTP session on concrete lines.
use powermail.Base.{◌≡◌, refl, true, false, List, [], ◌∷◌, some}
use powermail.Base.Int.{pos}
use powermail.Text.{Text, lit}
use powermail.Net.{Io, done}
use powermail.Talker.Ppt.{PpTalker}
use powermail.ServerSel.{Spread}
use powermail.Mega.Shared.{create}
use powermail.Mega.Deliver.{msg_done}
use powermail.Smtp.{Config, Smtp, start}
use powermail.Smtp.Data.{eat_data}
use powermail.Smtp.Lines.{kilobytes, over_limit, body_line, end_message, delivered}
use powermail.Smtp.Lines.Limits.{at_quota_lem}
use powermail.Smtp.Session.{give_line, run}
use powermail.Smtp.Session.Steps.{Inv, Idle}
use powermail.Smtp.Session.Delivery.{run-start-Inv}
use powermail.Smtp.Session.Gate.{LetIn, eat_data-LetIn}
use powermail.Smtp.Session.Recipients.{AllKnown}
use powermail.Smtp.Session.Recipients.Runs.{run-start-AllKnown}
use powermail.Smtp.Session.Stored.{Positive, Delivers, run-Delivers}
use powermail.Tests.Mail.{account, users, shared}

abbrev config : Config
config = record {
  users = users;
  own_name = lit "mail";
  hostname = [];
  listen_address = lit "10.0.0.1";
  max_msg_kb = lit "1000";
  advertisement = [];
  greetings_banner = [];
  version = lit "1.7";
  date = lit "Wed, 21 Nov 2001 17:32:44 +0100 (CET)";
}

abbrev remote : Text
remote = lit "10.0.0.9:4000"

abbrev times : List Text
times = lit "1006360364:1" ∷ []

abbrev message : List Text
message =
    lit "MAIL FROM:<ann@example.org>\r\n"
    ∷ lit "RCPT TO:<bob>\r\n"
    ∷ lit "DATA\r\n"
    ∷ lit "hello\r\n"
    ∷ []

run-start-AllKnown_example : AllKnown config (run config message (start remote shared times 0))
run-start-AllKnown_example = run-start-AllKnown config remote shared times 0 message

run-start-Inv_example : Inv (run config message (start remote shared times 0))
run-start-Inv_example = run-start-Inv config remote shared times 0 message

message-lines :
    ((run config message (start remote shared times 0)).indata ≡ true)
    × Positive (give_line config (lit ".\r\n") (run config message (start remote shared times 0))).0
unfolding start lit powermail.Text.eq powermail.Text.starts_with powermail.Mega.Storage.open_storage
    powermail.ServerSel.get_server powermail.ServerSel.select powermail.Talker.Ppt.connect
    powermail.Net.get_line powermail.Net.put_line create eat_data powermail.Mega.Storage.open_rounds
    powermail.Smtp.Data.take_recipients powermail.Mega.Deliver.add_recipient
    powermail.Mega.Deliver.start_data powermail.Mega.Deliver.msg_add_line
    powermail.Mega.Deliver.round powermail.Talker.add_recipient powermail.Talker.start_data
    powermail.Talker.msg_add_line powermail.Talker.Ppt.add_recipient powermail.Talker.Ppt.start_data
    powermail.Talker.Ppt.msg_add_line powermail.Talker.Ppt.put powermail.Talker.Ppt.get
    powermail.Text.Number.utoa run give_line powermail.Smtp.Commands.control_commands
    powermail.Text.Tokens.stringtok powermail.Smtp.Commands.first_word_uc
    powermail.Text.Clean.strip_line powermail.Text.to_upper powermail.Smtp.Commands.top_commands
    powermail.Smtp.Envelope.eat_from powermail.Smtp.Envelope.eat_to powermail.Text.is_space
    powermail.Smtp.Lines.eat_data_line powermail.Smtp.Lines.is_end powermail.Text.char_at
    powermail.Smtp.Lines.fits powermail.Smtp.Lines.read_header powermail.Smtp.Lines.ends_headers
    powermail.Smtp.Lines.end_headers body_line end_message over_limit
    powermail.Smtp.Lines.over_quota kilobytes msg_done powermail.Talker.msg_done
    powermail.Talker.Ppt.msg_done powermail.Text.Number.atoi powermail.Talker.Ppt.ensure_data
message-lines = (refl, refl)

run-Delivers_example :
    Delivers config
      (lit ".\r\n")
      (run config message (start remote shared times 0))
      (give_line config (lit ".\r\n") (run config message (start remote shared times 0))).1
run-Delivers_example =
    run-Delivers config remote shared times 0 message (lit ".\r\n") message-lines.0 message-lines.1

abbrev addressed : Smtp
addressed = record (start remote shared times 0) {
  fromset = true;
  quotaneeded = true;
  sender = lit "ann@example.org";
  index = lit "1:1:mail.0";
  recipients = account (lit "bob") ∷ [];
}

addressed-Idle : Idle addressed
unfolding start
addressed-Idle = (tt, refl)

addressed-indata : (eat_data config (lit "DATA") addressed).1.indata ≡ true
unfolding start lit powermail.Text.eq powermail.Text.starts_with powermail.Mega.Storage.open_storage
    powermail.ServerSel.get_server powermail.ServerSel.select powermail.Talker.Ppt.connect
    powermail.Net.get_line powermail.Net.put_line create eat_data powermail.Mega.Storage.open_rounds
    powermail.Smtp.Data.take_recipients powermail.Mega.Deliver.add_recipient
    powermail.Mega.Deliver.start_data powermail.Mega.Deliver.msg_add_line
    powermail.Mega.Deliver.round powermail.Talker.add_recipient powermail.Talker.start_data
    powermail.Talker.msg_add_line powermail.Talker.Ppt.add_recipient powermail.Talker.Ppt.start_data
    powermail.Talker.Ppt.msg_add_line powermail.Talker.Ppt.put powermail.Talker.Ppt.get
    powermail.Text.Number.utoa
addressed-indata = refl

eat_data-LetIn_example :
    LetIn config (lit "DATA") addressed (eat_data config (lit "DATA") addressed).1
eat_data-LetIn_example =
    eat_data-LetIn config (lit "DATA") addressed addressed-Idle addressed-indata

-- A session that has taken in two kbytes of a quota of two.
abbrev full : Smtp
full = record (start remote shared times 0) {
  quotaneeded = true;
  kbroom = pos 2;
  databytes = 2000;
  indata = true;
}

full-limits :
    (full.inheaders ≡ false) × (kilobytes full ≡ full.kbroom) × (over_limit config full ≡ false)
unfolding start kilobytes over_limit powermail.Text.Number.atoi lit
full-limits = (refl, refl, refl)

at_quota_example :
    ((body_line config (lit "hello\r\n") create full).megatalker ≡ some create)
    × (end_message config create full ≡ delivered full (msg_done create))
at_quota_example =
    at_quota_lem config (lit "hello\r\n") create full refl full-limits.0 full-limits.1 full-limits.2
