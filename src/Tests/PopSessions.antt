-- ===== src/Tests/PopSessions.antt =====
-- A POP3 session on concrete lines.
use powermail.Base.{arith, ◌+◌, ◌≡◌, refl, true, false, List, [], ◌∷◌, some}
use powermail.Text.{Text, lit}
use powermail.Pop.{MsgDatum, Pop}
use powermail.Pop
use powermail.Pop.Session
use powermail.Pop.Session.Invariant.{Settled, names, run-Settled}
use powermail.Pop.Session.Account.{Guarded, run-start}
use powermail.Tests.Mail.{users, shared}
use powermail.Text.Number.{utoa}
use powermail.Base.{get_elem?, set, length}
use powermail.Pop.Commands.{dispatch, top_commands}
use powermail.Pop.Commands.Deletion.{marked, delete_names, behind, dispatch-utoa, top_commands_quit}

abbrev pop_config : powermail.Pop.Config
pop_config = record { users = users; listen_address = lit "10.0.0.1" }

abbrev pop_lines : List Text
pop_lines = lit "USER bob\r\n" ∷ lit "PASS secret\r\n" ∷ lit "DELE 1\r\n" ∷ lit "LIST\r\n" ∷ []

run-start_example : Guarded pop_config shared (
    powermail.Pop.Session.run pop_config pop_lines
      (powermail.Pop.Session.start (lit "10.0.0.9:4000") (lit "<1.2@mail>") [] shared))
run-start_example =
    run-start pop_config (lit "10.0.0.9:4000") (lit "<1.2@mail>") [] shared pop_lines

abbrev scanned : Pop
scanned = record (powermail.Pop.Session.start (lit "10.0.0.9:4000") (lit "<1.2@mail>") [] shared) {
  user = lit "bob";
  login = true;
  scanned = true;
  msg_data = record { fname = lit "17"; deleted = false; size = 2048 } ∷ [];
}

scanned-Settled : Settled ((lit "17", 2048) ∷ []) scanned
unfolding names
scanned-Settled = (refl, refl, refl)

run-Settled_example :
    Settled
      ((lit "17", 2048) ∷ [])
      (powermail.Pop.Session.run pop_config (lit "DELE 1\r\n" ∷ lit "RSET\r\n" ∷ []) scanned)
run-Settled_example =
    run-Settled pop_config ((lit "17", 2048) ∷ []) (lit "DELE 1\r\n" ∷ lit "RSET\r\n" ∷ []) scanned
      scanned-Settled

bob-message :
    get_elem? scanned.msg_data 0 ≡ some (record { fname = lit "17"; deleted = false; size = 2048 })
unfolding powermail.Pop.Session.start
bob-message = refl

dispatch-utoa_example : dispatch (lit "DELE") (utoa 1 ∷ []) scanned ≡ (
  powermail.Pop.reply (lit "+OK") powermail.Pop.no_quit,
  record scanned {
    msg_data = set scanned.msg_data 0 (record { fname = lit "17"; deleted = true; size = 2048 });
  },
)
dispatch-utoa_example =
    dispatch-utoa 1 (record { fname = lit "17"; deleted = false; size = 2048 }) scanned
      (omega arith) (omega arith) bob-message refl

-- Bob has marked his first message.
abbrev leaving : Pop
leaving = record scanned {
  msg_data = record { fname = lit "17"; deleted = true; size = 2048 } ∷ [];
}

top_commands_quit_example : top_commands (lit "QUIT") leaving ≡ (
  powermail.Pop.reply (lit "+OK ") powermail.Pop.please_quit,
  behind leaving (leaving.deleted + length (marked leaving.msg_data)) (
      delete_names leaving.megatalker.mbox
        (marked leaving.msg_data)
        (leaving.shared.targets, leaving.shared.files)),
)
top_commands_quit_example = top_commands_quit leaving
