-- ===== src/Smtp/Session.antt =====
-- `giveLine` of smtpsession.cc, and the histories of a session.
pub mod Steps
pub mod DataSteps
pub mod Delivery
pub mod Stored
pub mod Gate
pub mod Recipients
use powermail.Base.{ℕ, Bool, true, false, List, [], ◌∷◌, if◌then◌else◌}
use powermail.Text.{Text, lit}
use powermail.Text.Clean.{strip_line}
use powermail.Smtp.{Config, Smtp, Outcome, pass, reply, crash, Quit, say}
use powermail.Smtp.Commands.{control_commands, top_commands, first_word_uc}
use powermail.Smtp.Envelope.{eat_from, eat_to}
use powermail.Smtp.Data.{eat_data}
use powermail.Smtp.Lines.{eat_data_line}

-- The next group of commands, where the one before returned false.
abbrev pub or_else : Outcome × Smtp → (Smtp → Outcome × Smtp) → Outcome × Smtp
or_else (pass, s) f = f s
or_else (reply r q, s) f = (reply r q, s)
or_else (crash, s) f = (crash, s)

-- A line outside a message.
unfoldable pub command : Config → Text → Smtp → Outcome × Smtp
command c line s =
    or_else
      (or_else
        (or_else
          (or_else (or_else (control_commands c line s) (top_commands c line)) (eat_from c line))
          (eat_to c line))
        (eat_data c line))
      (say (lit "502 Not Implemented"))

unfoldable pub give_line : Config → Text → Smtp → Outcome × Smtp
unfolding command
give_line c line s =
    if s.indata then eat_data_line c line s else command c (first_word_uc (strip_line line)) s

unfoldable pub run : Config → List Text → Smtp → Smtp
run c [] s = s
run c (l ∷ ls) s = run c ls (give_line c l s).1
