-- ===== src/Pop/Session.antt =====
-- `giveLine` of popsession.cc, and the histories of a session.
pub mod Invariant
pub mod Served
pub mod Account
use powermail.Base.{ℕ, Bool, true, false, List, [], ◌∷◌, ◌++◌, if◌then◌else◌, ◌==◌}
use powermail.Base.Int.{pos}
use powermail.Text.{Text, lit, to_upper}
use powermail.Text.Clean.{strip_line}
use powermail.Net.{Conn}
use powermail.Talker.Retrieve.{Writen}
use powermail.Mega.Shared.{Shared, create}
use powermail.Pop.{Config, Pop, Outcome, pass, reply, escapes, Quit, no_quit}
use powermail.Pop.Login.{login_commands}
use powermail.Pop.Commands.{control_commands, top_commands, rest_commands}

-- The constructor, with the challenge that the banner sets, and what writes to the client will do.
unfoldable pub start : Text → Text → List Writen → Shared → Pop
start remote challenge writes shared = record {
  remote = remote;
  user = [];
  login = false;
  challenge = challenge;
  msg_data = [];
  scanned = false;
  megatalker = create;
  retrieved = 0;
  deleted = 0;
  shared = shared;
  client = record { out = []; writes = writes };
}

unfoldable pub first_word_uc : Text → Text
first_word_uc [] = []
first_word_uc (c ∷ s) = if c == b' ' then c ∷ s else to_upper c ∷ first_word_uc s

-- The next group of commands, where the one before did not handle the line.
abbrev pub or_else : Outcome × Pop → (Pop → Outcome × Pop) → Outcome × Pop
or_else (pass, s) f = f s
or_else (reply r q, s) f = (reply r q, s)
or_else (escapes e, s) f = (escapes e, s)

abbrev pub not_implemented : Pop → Outcome × Pop
not_implemented s = (reply (lit "-ERR Not Implemented or Not Authorized Yet") no_quit, s)

unfoldable pub give_line : Config → Text → Pop → Outcome × Pop
unfolding first_word_uc
give_line c raw s =
    let line = first_word_uc (strip_line raw) in
    or_else
      (or_else
        (or_else (or_else (control_commands c line s) (top_commands line)) (login_commands c line))
        (rest_commands line))
      not_implemented

-- A session that is fed with lines, one after the other.
unfoldable pub run : Config → List Text → Pop → Pop
run c [] s = s
run c (l ∷ ls) s = run c ls (give_line c l s).1
