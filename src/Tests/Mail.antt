-- ===== src/Tests/Mail.antt =====
-- One backend and its answers, for the runs of sessions.
use powermail.Base.{true, false, List, [], ◌∷◌}
use powermail.Base.Int.{pos}
use powermail.Text.{Text, lit}
use powermail.Net.{Io, done}
use powermail.Backend.{TargetData}
use powermail.UserBase.{UserBase, MboxData, present}
use powermail.Mega.Shared.{opened, Shared}

abbrev pub okay : Text
okay = lit "+OK\n"

-- The account of any name, with no limit, and the password is right.
abbrev pub account : Text → MboxData
account name = record { canonical_mbox = name; mb_quota = pos 0; is_forward = false; fwd_dest = [] }

abbrev pub users : UserBase
users = record { mbox_data = λ name password challenge. present (account name) true }

abbrev pub target : TargetData
target = record {
  address = lit "store";
  port = 1101;
  group = pos 1;
  priority = pos 10;
  up = true;
  readonly = false;
  password = lit "pw";
  used = false;
  kbfree = pos 0;
  load = 0;
  error = [];
  pp_talker = record {
    conn = record {
      script = done [] ∷ (done okay ∷ (done (lit "17 2048\n") ∷ (done (lit ".\n") ∷ [])));
      sent = [];
    };
    inmsg = false;
    ppname = lit "store:1101";
  };
}

-- What the backend answers to a delivery: to the greeting and the password, to RCPT, PUT, two
-- lines, the dot and the commit.
abbrev pub answers : List Io
answers =
    done okay
    ∷ (done []
        ∷ (done okay
            ∷ (done []
                ∷ (done okay
                    ∷ (done []
                        ∷ (done okay
                            ∷ (done []
                                ∷ (done []
                                    ∷ (done [] ∷ (done okay ∷ (done [] ∷ (done okay ∷ []))))))))))))

abbrev pub shared : Shared
shared = record {
  targets = target ∷ [];
  redundancy = 1;
  spread = record { favor_empty = false; favor_load = false };
  files = record { logs = []; opens = λ n. true };
  dials = opened answers ∷ [];
  randoms = [];
  sender_address = lit "127.0.0.1";
  sender_port = 2500;
  hostname = lit "mail";
}
