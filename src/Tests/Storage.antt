-- ===== src/Tests/Storage.antt =====
-- Runs of the storage session and of its deliveries.
use powermail.Base.{
  ◌≡◌, ◌≢◌, refl, ◌⊎◌, Bool, true, false, List, [], ◌∷◌, length, some, if◌then◌else◌,
}
use powermail.Base.Int.{pos, negsuc}
use powermail.Text.{Text, lit, eq, find, starts_with, char_at}
use powermail.Text.Clean.{clean_slashes}
use powermail.Text.Clean
use powermail.Text.Tokens.{stringtok}
use powermail.Net.{ok}
use powermail.Disk.{Dir, entries, no_dir, Os}
use powermail.Disk.Memory.{memory_os, memory_names, memory-CanUnlink, lookup, erase, Table}
use powermail.Delivery.{Delivery, hash_x, hash_y, dohash, hash_from}
use powermail.Delivery
use powermail.Delivery.Message.{tmp_path, cur_path, calc_maildir, dest_of, commit}
use powermail.Delivery.Message
use powermail.Delivery.Message.Atomic.Places.{Ready}
use powermail.Delivery.Message.Atomic.{AllOrNone, commit-AllOrNone}
use powermail.Delivery.Message.Place.{dest_of-tmp_path}
use powermail.Pps.{Config, Pps, Mode, un_auth, in_limbo, in_data}
use powermail.Pps.Commands
use powermail.Pps.Session.{start, run, give_line}
use powermail.Pps.Session
use powermail.Pps.Session.Modes.{Turn}
use powermail.Pps.Session.Modes.Lines.{give_line-Turn}
use powermail.Pps.Session.Guarded.{GivesPassword, Some, run-start-GivesPassword}
use powermail.Pps.Session.Sound.{Sound}
use powermail.Pps.Session.Sound.Lines.{run-start-Sound}
use powermail.Pps.Session.Failure.{NoWriteFailed, Body, after, commit_line, dot_line}
use powermail.Pps.Session.Failure.Commit.{IsOk, commit-NoWriteFailed}
use powermail.Pps.Session.Failure.Left.{commit_leaves}
use powermail.Delivery.Message.{add_link}

abbrev dirs : Text → Dir
dirs p =
    if eq p (lit "/m/")
    then entries (lit "03" ∷ [])
    else if eq p (lit "/m/03/")
    then entries (lit "05" ∷ lit "07" ∷ [])
    else if eq p (lit "/m/03/05")
    then entries (lit "a@b" ∷ [])
    else no_dir 2

abbrev disk : Os
disk = memory_os false dirs

abbrev settings : Config
settings = record {
  password = lit "secret";
  listen_address = lit "0.0.0.0";
  mail_root = lit "/m";
  min_kbytes = 10;
  load = lit "0";
  hostname = lit "host";
}

abbrev no_files : Table
no_files = []

abbrev new_session : Pps Table
new_session = start (lit "10.0.0.1:99") (lit "/m/") no_files (negsuc 0)

-- A client logs in and begins a message for two recipients.
abbrev session_lines : List Text
session_lines = lit "pass secret\n" ∷ lit "rcpt a@b 1\n" ∷ lit "rcpt c@d 1\n" ∷ lit "put\n" ∷ []

run-start-Sound_example : Sound (run disk settings session_lines new_session)
run-start-Sound_example =
    run-start-Sound disk settings session_lines (lit "10.0.0.1:99") (lit "/m/") no_files (negsuc 0)

run-start-GivesPassword_example :
    (run disk settings session_lines new_session ≡ new_session)
    ⊎ Some (GivesPassword settings) session_lines
run-start-GivesPassword_example =
    run-start-GivesPassword disk settings session_lines (lit "10.0.0.1:99") (lit "/m/") no_files
      (negsuc 0)

give_line-Turn_example :
    Turn un_auth (give_line disk settings (lit "pass secret\n") new_session).1.mode
unfolding start
give_line-Turn_example = give_line-Turn disk settings (lit "pass secret\n") new_session

-- Where a message of mailbox `a@b` is written.
abbrev tmp_name : Text
tmp_name = tmp_path (lit "/m/") (lit "a@b") (lit "1")

-- A message for `a@b`, with its file.
abbrev message : Delivery Table
message = record {
  fs = (tmp_name, 0) ∷ [];
  filenames = tmp_name ∷ [];
  destinations = lit "a@b" ∷ [];
  filename = tmp_name;
  fd = pos 3;
  mailroot = lit "/m/";
  list_x = [];
  at_x = pos 0;
  list_y = [];
}

abbrev taking : Bool → Mode → Pps Table
taking failed mode = record {
  remote = lit "10.0.0.1:99";
  delivery = message;
  mode = mode;
  failed = failed;
  reason = [];
  full = false;
}

abbrev body : List Text
body = lit "Subject: x\n" ∷ lit "\n" ∷ lit "text\n" ∷ []

body_lines : Body body
unfolding Commands.is_end char_at lit
body_lines = (refl, (refl, (refl, tt)))

committed :
    IsOk
      (give_line disk settings commit_line
        (after disk settings dot_line (run disk settings body (taking false in_data)))).0
unfolding run give_line Session.limbo_words Commands.put_line Commands.is_end char_at lit eq
    Message.give_line Commands.commit_command commit Clean.strip_line stringtok Message.move_all
    dest_of find starts_with tmp_path lookup erase calc_maildir dohash Delivery.level_two
    Delivery.level_one Delivery.two_digits hash_x hash_y hash_from Delivery.folded Delivery.extended
committed = refl

commit-NoWriteFailed_example :
    NoWriteFailed disk settings body (taking false in_data)
    × ((commit disk (run disk settings body (taking false in_data)).delivery).0 ≡ ok tt)
commit-NoWriteFailed_example =
    commit-NoWriteFailed disk settings body (taking false in_data) refl refl refl body_lines
      committed

-- A message for `a@b` and `c@d`, one file with two names.
abbrev other_name : Text
other_name = tmp_path (lit "/m/") (lit "c@d") (lit "1")

abbrev linked_message : Delivery Table
linked_message = record message {
  fs = (tmp_name, 0) ∷ (other_name, 0) ∷ [];
  filenames = tmp_name ∷ other_name ∷ [];
  destinations = lit "a@b" ∷ lit "c@d" ∷ [];
}

linked_message-Ready :
    Ready disk (memory_names false dirs) linked_message.fs linked_message.filenames
unfolding lookup eq dest_of find starts_with tmp_path calc_maildir dohash Delivery.level_two
    Delivery.level_one Delivery.two_digits hash_x hash_y hash_from Delivery.folded Delivery.extended
    lit
linked_message-Ready = (
  (0, refl),
  refl,
  (
    (
      ((λ e. cc), (λ e. cc)),
      ((λ e. cc), (λ e. cc)),
      ((λ e. cc), (λ e. cc)),
      ((λ e. cc), (λ e. cc)),
    ),
    tt,
  ),
  ((0, refl), refl, tt, tt),
)

commit-AllOrNone_example :
    AllOrNone disk (memory_names false dirs) linked_message (commit disk linked_message)
commit-AllOrNone_example =
    commit-AllOrNone disk (memory_names false dirs) (memory-CanUnlink false dirs) linked_message
      linked_message-Ready

recipients : ◌≢◌ {A = List Text} (lit "a@b" ∷ []) []
recipients = λ e. cc

rcpt_words :
    stringtok Commands.blanks (Clean.strip_line (lit "rcpt c@d 2\n"))
    ≡ lit "rcpt" ∷ lit "c@d" ∷ lit "2" ∷ []
unfolding stringtok Clean.strip_line lit
rcpt_words = refl

commit_leaves_example :
    ((after disk settings commit_line (taking true in_limbo)).delivery ≡ message)
    × ((after disk settings commit_line (taking true in_limbo)).failed ≡ false)
    × ((after disk settings
          (lit "rcpt c@d 2\n")
          (after disk settings commit_line (taking true in_limbo))).delivery
        ≡ (add_link disk (lit "c@d") (lit "2") message).1)
commit_leaves_example =
    commit_leaves disk settings (taking true in_limbo) refl refl recipients (lit "rcpt c@d 2\n")
      (lit "c@d") (lit "2") rcpt_words

abbrev listing : Delivery Table
listing = record message { list_x = pos 3 ∷ [] }

first_tmp : find (lit "/tmp/") tmp_name ≡ some (length (calc_maildir (lit "/m/") (lit "a@b")))
unfolding find starts_with tmp_path calc_maildir dohash Delivery.level_two Delivery.level_one
    Delivery.two_digits hash_x hash_y hash_from Delivery.folded Delivery.extended lit
first_tmp = refl

dest_of-tmp_path_example :
    clean_slashes (dest_of tmp_name) ≡ clean_slashes (cur_path (lit "/m/") (lit "a@b") (lit "1"))
dest_of-tmp_path_example = dest_of-tmp_path (lit "/m/") (lit "a@b") (lit "1") first_tmp
