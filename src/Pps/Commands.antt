-- ===== src/Pps/Commands.antt =====
-- The commands of ppsession.cc.
use powermail.Base.{
  ℕ, ◌*◌, ◌/◌, ◌%◌, ◌^◌, ◌⊎◌, inl, inr, Bool, true, false, not, ◌&&◌, ◌||◌, List, [], ◌∷◌, ◌++◌,
  Option, none, some, ◌==◌, ltb, if◌then◌else◌,
}
use powermail.Base.Int.{negsuc}
use powermail.Text.{Text, lit, eq, empty, starts_with, char_at}
use powermail.Text.Tokens.{stringtok}
use powermail.Text.Number.{utoa}
use powermail.Net.{Result, ok, throws}
use powermail.Disk.{Rc, returns, fails, enospc, Statfs, Os}
use powermail.Delivery.{Delivery}
use powermail.Delivery.Message
use powermail.Delivery.Listing
use powermail.Delivery.Listing.{Listed, all_of, past_end, spent}
use powermail.Pps.{
  Config, Pps, no_quit, please_die, blank, in_limbo, pre_limbo, in_data, dir, Answer, silent, reply,
  escapes, beyond,
}
use powermail.Pps.State.{is_readonly, set_full, unset_full}

-- A response, where nothing is quit and there is no descriptor.
abbrev pub says : Text → Answer
says t = reply t no_quit (negsuc 0) false

abbrev pub blanks : Text
blanks = lit " \t\n"

unfoldable pub kbytes_free : Statfs → ℕ
kbytes_free b = ((b.bavail % 2 ^ 32) * (b.bsize / 1024)) % 2 ^ 32

-- `d_remote.find("127.0.0.1:")` is true for every remote but the local ones.
unfoldable pub accepted : Config → Text → Text → Bool
accepted c remote password =
    (empty password && empty c.password && not (starts_with (lit "127.0.0.1:") remote))
    || eq password c.password

-- `line[0]=='.' && (line[1]=='\r' || line[1]=='\n')`
unfoldable pub is_end : Text → Bool
is_end line = char_at line 0 == b'.' && (char_at line 1 == b'\r' || char_at line 1 == b'\n')

module _ (os : Os) (c : Config) where
  abbrev pub Step : Type 0
  Step = Pps os.Fs → Answer × Pps os.Fs

  abbrev pub with_delivery : Pps os.Fs → Delivery os.Fs → Pps os.Fs
  with_delivery s d = record s { delivery = d }

  abbrev pub stat_result : ℕ ⊎ Statfs → Step
  stat_result (inl e) s = (says (lit "-ERR " ++ os.strerror e), s)
  stat_result (inr b) s = (
    says (
        lit "+OK "
        ++ (utoa (kbytes_free b)
            ++ (lit " kbytes " ++ (utoa b.ffree ++ (lit " inodes " ++ (c.load ++ lit " load")))))),
    if ltb c.min_kbytes (kbytes_free b) then unset_full os c s else s,
  )

  unfoldable pub stat_command : Step
  stat_command s = stat_result (os.statfs (c.mail_root ++ lit "/") s.delivery.fs) s

  unfoldable pub ping_command : Step
  ping_command s = (says (if is_readonly os c s then lit "+OK READONLY" else lit "+OK"), s)

  unfoldable pub password_command : Text → Step
  password_command password s =
      if accepted c s.remote password
      then (says (lit "+OK"), record s { mode = blank })
      else (says (lit "-ERR Incorrect credentials"), s)

  abbrev pub control_word : List Text → Answer
  control_word [] = says (lit "-ERR Missing control command")
  control_word (w ∷ ws) =
      if eq w (lit "stop")
      then reply (lit "+OK BYE!") please_die (negsuc 0) false
      else if eq w (lit "status")
      then says (lit "+OK OK!")
      else says (lit "-ERR Unknown control command '" ++ (w ++ lit "'"))

  abbrev pub control_words : Text → List Text → Answer
  control_words remote [] = says (lit "-ERR Unknown error processing control command")
  control_words remote (w ∷ ws) =
      if not (starts_with (lit "127.0.0.1:") remote)
        && not (starts_with (c.listen_address ++ lit ":") remote)
      then says (lit "-ERR Unknown error processing control command")
      else if not (eq w (lit "control"))
      then says (lit "-ERR Unknown error processing control command")
      else control_word ws

  unfoldable pub control_commands : Text → Step
  control_commands line s = (control_words s.remote (stringtok blanks line), s)

  abbrev pub rcpt_result : Pps os.Fs → Option Text × Delivery os.Fs → Answer × Pps os.Fs
  rcpt_result s (some r, d) = (says (lit "-ERR " ++ r), with_delivery s d)
  rcpt_result s (none, d) = (says (lit "+OK"), record (with_delivery s d) { mode = pre_limbo })

  unfoldable pub rcpt_command : Text → Text → Step
  rcpt_command mbox index s = rcpt_result s (Message.add_file os mbox index s.delivery)

  unfoldable pub put_command : Step
  put_command s = (says (lit "+OK Incoming"), record s { failed = false; mode = in_data })

  -- A write that returns less than the whole line counts as one that went well.
  abbrev pub line_result : Pps os.Fs → Result Rc × Delivery os.Fs → Answer × Pps os.Fs
  line_result s (throws r, d) = (escapes r, with_delivery s d)
  line_result s (ok (returns n), d) = (silent, with_delivery s d)
  line_result s (ok (fails e), d) =
      let t = with_delivery s d in
      (
        silent,
        record (if e == enospc then set_full os c t else t) {
          reason = os.strerror e;
          failed = true;
        },
      )

  unfoldable pub put_line : Text → Step
  put_line line s =
      if is_end line
      then (says (lit "+OK"), record s { mode = in_limbo })
      else if s.failed
      then (silent, s)
      else line_result s (Message.give_line os line s.delivery)

  abbrev pub commit_result : Pps os.Fs → Result (Unit {0}) × Delivery os.Fs → Answer × Pps os.Fs
  commit_result s (ok _, d) =
      (says (lit "+OK"), record (with_delivery s (Message.reset os d)) { failed = false })
  commit_result s (throws r, d) =
      (says (lit "-ERR " ++ r), record (with_delivery s (Message.reset os d)) { failed = false })

  unfoldable pub commit_command : Step
  commit_command s =
      if s.failed
      then (
        says (lit "-ERR failed during reception of message and writing to disk: " ++ s.reason),
        record s { mode = blank; failed = false },
      )
      else commit_result (record s { mode = blank }) (Message.commit os s.delivery)

  unfoldable pub roll_back_command : Step
  roll_back_command s =
      let (r, d) = Message.roll_back os s.delivery in
      (says r, record s { mode = blank; delivery = Message.reset os d })

  abbrev pub dir_result : Pps os.Fs → Result (Unit {0}) × Delivery os.Fs → Answer × Pps os.Fs
  dir_result s (ok _, d) = (
    reply (lit "+OK List of mailboxes follows") no_quit (negsuc 0) true,
    record (with_delivery s d) { mode = dir },
  )
  dir_result s (throws r, d) = (escapes r, with_delivery s d)

  unfoldable pub dir_command : Step
  dir_command s = dir_result s (Listing.start_list os s.delivery)

  abbrev pub listed_result : Pps os.Fs → Listed × Delivery os.Fs → Answer × Pps os.Fs
  listed_result s (all_of t, d) = (says t, record (with_delivery s d) { mode = blank })
  listed_result s (past_end, d) = (beyond, with_delivery s d)
  listed_result s (spent, d) = (beyond, with_delivery s d)

  -- `n` bounds the rounds of the loop.
  unfoldable pub more_dir : ℕ → Step
  more_dir n s = listed_result s (Listing.more_rounds os n [] s.delivery)
