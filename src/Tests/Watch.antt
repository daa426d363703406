-- ===== src/Tests/Watch.antt =====
-- A round of the thread that watches the backends.
use powermail.Base.{true, false, List, [], ◌∷◌}
use powermail.Base.Int.{pos}
use powermail.Text.{Text, lit}
use powermail.Net.{done}
use powermail.Talker.Ppt.{PpTalker}
use powermail.Backend.{TargetData}
use powermail.Mega.Shared.{Dial, refused, opened}
use powermail.Mega.Failures.{Files}
use powermail.Mega.Watch.{Round, check_all}
use powermail.Mega.Watch.Answers.{AllAnswered, check_all-Answered}

abbrev nobody : PpTalker
nobody = record { conn = record { script = []; sent = [] }; inmsg = false; ppname = [] }

abbrev target : Text → TargetData
target address = record {
  address = address;
  port = 1101;
  group = pos 1;
  priority = pos 1;
  up = false;
  readonly = false;
  password = lit "pw";
  used = false;
  kbfree = pos 0;
  load = 0;
  error = [];
  pp_talker = nobody;
}

-- The first backend accepts the connection, the password and the ping; the second refuses.
abbrev round_targets : List (Dial × TargetData)
round_targets =
    (
      opened (
          done (lit "+OK host\n")
          ∷ done []
          ∷ done (lit "+OK\n")
          ∷ done []
          ∷ done (lit "+OK READONLY\n")
          ∷ []),
      target (lit "10.0.0.1"),
    )
    ∷ (refused (lit "timeout"), target (lit "10.0.0.2"))
    ∷ []

abbrev first_round : Round
first_round = record { statedir = true; number = 0; strtod = λ t. 0 }

abbrev no_logs : Files
no_logs = record { logs = []; opens = λ n. true }

check_all-Answered_example :
    AllAnswered round_targets (check_all first_round round_targets no_logs).0
check_all-Answered_example = check_all-Answered first_round round_targets no_logs
