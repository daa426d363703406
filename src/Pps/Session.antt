-- ===== src/Pps/Session.antt =====
-- `giveLine` of ppsession.cc, and the histories of a session.
pub mod Modes
pub mod Failure
pub mod Guarded
pub mod Sound
use powermail.Base.{
  ℕ, zero, Bool, true, false, ◌&&◌, List, [], ◌∷◌, ◌++◌, ◌==◌, if◌then◌else◌, length,
}
use powermail.Base.Int.{ℤ, pos, negsuc, ltb_ℤ}
use powermail.Text.{Text, lit, eq}
use powermail.Text.Clean.{strip_line}
use powermail.Text.Tokens.{stringtok}
use powermail.Net.{Result, ok, throws}
use powermail.Disk.{Os}
use powermail.Delivery.{Delivery}
use powermail.Delivery.Mailbox
use powermail.Delivery.Listing.Rounds.{enough_rounds}
use powermail.Pps.{
  Config, Pps, no_quit, please_quit, Mode, blank, un_auth, in_limbo, pre_limbo, in_data, dir,
  Answer, silent, reply, escapes,
}
use powermail.Pps.State.{set_readonly, unset_readonly}
use powermail.Pps.Commands.{
  says, blanks, Step, with_delivery, stat_command, ping_command, password_command, control_commands,
  rcpt_command, put_command, put_line, commit_command, roll_back_command, dir_command, more_dir,
}

abbrev refusal : Text
refusal = lit "-ERR Not Implemented or Not Authorized Yet"

-- The constructor, over a Delivery just made.
unfoldable pub start : {F : Type 0} → Text → Text → F → ℤ → Pps F
start remote root f fd = record {
  remote = remote;
  delivery = record {
    fs = f;
    filenames = [];
    destinations = [];
    filename = [];
    fd = fd;
    mailroot = root;
    list_x = [];
    at_x = pos 0;
    list_y = [];
  };
  mode = un_auth;
  failed = false;
  reason = [];
  full = false;
}

-- `numArgs==2 ? arguments[1] : ""`
abbrev pub only_word : List Text → Text
only_word [] = []
only_word (w ∷ []) = w
only_word (w ∷ x ∷ ws) = []

module _ (os : Os) (c : Config) where
  abbrev pub told : Pps os.Fs → Text × Delivery os.Fs → Answer × Pps os.Fs
  told s (t, d) = (says t, with_delivery os c s d)

  -- The result of `getCommand` is the descriptor, as a bool.
  abbrev pub got : Pps os.Fs → (ℤ × Text) × Delivery os.Fs → Answer × Pps os.Fs
  got s ((pos zero, t), d) = (silent, with_delivery os c s d)
  got s ((fd, t), d) = (reply t no_quit fd false, with_delivery os c s d)

  abbrev pub readwrite_result : Result (Unit {0}) × Pps os.Fs → Answer × Pps os.Fs
  readwrite_result (ok _, s) = (says (lit "+OK"), s)
  readwrite_result (throws r, s) = (says (lit "-ERR " ++ r), s)

  abbrev pub rcpt_words : List Text → Step os c
  rcpt_words (mbox ∷ index ∷ []) s = rcpt_command os c mbox index s
  rcpt_words _ s = (says refusal, s)

  -- The commands that take no message in: of one, of two, or of any number of words.
  abbrev pub plain_words : Text → Step os c
  plain_words command s =
      if eq command (lit "ping")
      then ping_command os c s
      else if eq command (lit "stat")
      then stat_command os c s
      else if eq command (lit "dir")
      then dir_command os c s
      else if eq command (lit "readonly")
      then (says (lit "+OK"), set_readonly os c s)
      else if eq command (lit "readwrite")
      then readwrite_result (unset_readonly os c s)
      else (says refusal, s)

  unfoldable pub blank_words : Text → List Text → Step os c
  blank_words command (mbox ∷ []) s =
      if eq command (lit "ls")
      then (says (Mailbox.list_mbox os mbox s.delivery), s)
      else if eq command (lit "nuke")
      then told s (Mailbox.nuke os mbox s.delivery)
      else plain_words command s
  blank_words command (mbox ∷ index ∷ []) s =
      if eq command (lit "rcpt")
      then rcpt_command os c mbox index s
      else if eq command (lit "del")
      then told s (Mailbox.del_message os mbox index s.delivery)
      else if eq command (lit "get")
      then got s (Mailbox.get_message_fd os mbox index s.delivery)
      else plain_words command s
  blank_words command _ s = plain_words command s

  unfoldable pub limbo_words : Text → Step os c
  limbo_words line s =
      if eq line (lit "commit")
      then commit_command os c s
      else if eq line (lit "rollback")
      then roll_back_command os c s
      else (says refusal, s)

  unfoldable pub pre_limbo_words : Text → Text → List Text → Step os c
  pre_limbo_words line command args s =
      if eq command (lit "rcpt") && length args == 2
      then rcpt_words args s
      else if eq line (lit "put")
      then put_command os c s
      else (says refusal, s)

  unfoldable pub un_auth_words : Text → List Text → Step os c
  un_auth_words command args s =
      if eq command (lit "pass")
      then password_command os c (only_word args) s
      else (says refusal, s)

  abbrev pub in_mode : Mode → Text → Text → List Text → Step os c
  in_mode in_limbo line command args = limbo_words line
  in_mode pre_limbo line command args = pre_limbo_words line command args
  in_mode _ line command args = blank_words command args

  abbrev pub by_mode : Mode → Text → Text → List Text → Step os c
  by_mode un_auth line command args s = un_auth_words command args s
  by_mode m line command args s =
      if eq command (lit "control")
      then control_commands os c line s
      else in_mode m line command args s

  -- `quit` works in every mode.
  abbrev pub on_words : Mode → Text → List Text → Step os c
  on_words m line [] s = (says refusal, s)
  on_words m line (command ∷ args) s =
      if eq command (lit "quit")
      then (reply (lit "+OK") please_quit (negsuc 0) false, s)
      else by_mode m line command args s

  abbrev pub on_line : Mode → Text → Step os c
  on_line in_data raw s = put_line os c raw s
  on_line dir raw s = more_dir os c (enough_rounds os s.delivery) s
  on_line m raw s = on_words m (strip_line raw) (stringtok blanks (strip_line raw)) s

  -- The quit of a line in `in_data` is the one that `put` left.
  unfoldable pub give_line : Text → Step os c
  give_line raw s = on_line s.mode raw s

  -- A session that is fed with lines, one after the other.
  unfoldable pub run : List Text → Pps os.Fs → Pps os.Fs
  run [] s = s
  run (l ∷ ls) s = run ls (give_line l s).1
