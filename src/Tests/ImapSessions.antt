-- ===== src/Tests/ImapSessions.antt =====
-- An IMAP session on concrete lines.
use powermail.Base.{List, [], ◌∷◌}
use powermail.Text.{Text, lit}
use powermail.Imap.{Config, run, start}
use powermail.Imap.Account.{Guarded, run-start-Guarded}
use powermail.Tests.Mail.{users, shared}

abbrev imap_config : Config
imap_config = record { users = users; now = 1000 }

abbrev imap_lines : List Text
imap_lines = lit "a CAPABILITY\r\n" ∷ lit "b LOGIN bob secret\r\n" ∷ lit "c SELECT INBOX\r\n" ∷ []

run-start-Guarded_example : Guarded imap_config shared (run imap_config imap_lines (start shared))
run-start-Guarded_example = run-start-Guarded imap_config shared imap_lines
