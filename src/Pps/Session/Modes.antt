-- ===== src/Pps/Session/Modes.antt =====
-- How the lines of a session of ppsession.cc move its `d_mode`: the moves, and the commands that a
-- message is taken in with.
pub mod Lines
use powermail.Base.{
  ℕ, ◌≡◌, refl, inl, inr, Bool, true, false, ◌&&◌, List, [], ◌∷◌, Option, none, some, ◌==◌,
  if◌then◌else◌, if-rule, length, Bool-cases,
}
use powermail.Text.{Text, lit, eq}
use powermail.Text.Clean.{strip_line}
use powermail.Text.Tokens.{stringtok}
use powermail.Net.{Result, ok, throws}
use powermail.Disk.{Rc, returns, fails, enospc, Os}
use powermail.Delivery.{Delivery}
use powermail.Delivery.Message
use powermail.Pps.State.{set_full, unset_full, set_readonly, unset_readonly, is_readonly}
use powermail.Delivery.Listing.Rounds.{enough_rounds}
use powermail.Delivery.Listing.{more_rounds, Listed, all_of, past_end, spent}
use powermail.Pps.{Config, Pps, Mode, blank, un_auth, in_limbo, pre_limbo, in_data, dir, Answer}
use powermail.Pps.Commands
use powermail.Pps.Commands.{blanks}
use powermail.Pps.Session.{
  only_word, told, got, readwrite_result, rcpt_words, plain_words, blank_words, limbo_words,
  pre_limbo_words, un_auth_words, on_words, in_mode, by_mode, on_line, give_line,
}

-- The moves of the protocol.
pub data Turn : Mode → Mode → Type 0 where
  stays : {m : Mode} → Turn m m
  logs_in : Turn un_auth blank
  addresses : Turn blank pre_limbo
  puts : Turn pre_limbo in_data
  ends : Turn in_data in_limbo
  settles : Turn in_limbo blank
  lists : Turn blank dir
  lists_all : Turn dir blank

module _ (os : Os) (c : Config) where
  abbrev pub Moves : Mode → Answer × Pps os.Fs → Type 0
  Moves m r = Turn m r.1.mode

  pub same_mode : (m : Mode) (s : Pps os.Fs) → s.mode ≡ m → Turn m s.mode
  same_mode m s h = rw h stays

  pub line_result-Turn :
      (s : Pps os.Fs) (r : Result Rc × Delivery os.Fs)
      → s.mode ≡ in_data
      → Moves in_data (Commands.line_result os c s r)
  unfolding set_full
  line_result-Turn s (ok (returns n), d) h = same_mode in_data s h
  line_result-Turn s (ok (fails e), d) h =
      if-rule (λ (t : Pps os.Fs). Turn in_data t.mode) (e == enospc) (same_mode in_data s h)
        (same_mode in_data s h)
  line_result-Turn s (throws t, d) h = same_mode in_data s h

  pub put_line-Turn :
      (l : Text) (s : Pps os.Fs) → s.mode ≡ in_data → Moves in_data (Commands.put_line os c l s)
  unfolding Commands.put_line
  put_line-Turn l s h = if-rule (Moves in_data) (Commands.is_end l) ends (
      if-rule (Moves in_data) s.failed (same_mode in_data s h)
        (line_result-Turn s (Message.give_line os l s.delivery) h))

  pub listed_result-Turn :
      (s : Pps os.Fs) (r : Listed × Delivery os.Fs)
      → s.mode ≡ dir
      → Moves dir (Commands.listed_result os c s r)
  listed_result-Turn s (all_of t, d) h = lists_all
  listed_result-Turn s (past_end, d) h = same_mode dir s h
  listed_result-Turn s (spent, d) h = same_mode dir s h

  pub rcpt_result-Turn :
      (m : Mode) (s : Pps os.Fs) (r : Option Text × Delivery os.Fs)
      → s.mode ≡ m
      → Turn m pre_limbo
      → Moves m (Commands.rcpt_result os c s r)
  rcpt_result-Turn m s (none, d) h t = t
  rcpt_result-Turn m s (some r, d) h t = same_mode m s h

  pub rcpt_words-Turn :
      (ws : List Text) (s : Pps os.Fs) → s.mode ≡ pre_limbo → Moves pre_limbo (rcpt_words os c ws s)
  unfolding Commands.rcpt_command
  rcpt_words-Turn (a ∷ b ∷ []) s h =
      rcpt_result-Turn pre_limbo s (Message.add_file os a b s.delivery) h stays
  rcpt_words-Turn [] s h = same_mode pre_limbo s h
  rcpt_words-Turn (a ∷ []) s h = same_mode pre_limbo s h
  rcpt_words-Turn (a ∷ b ∷ d ∷ ws) s h = same_mode pre_limbo s h

  pub commit_result-Turn :
      (s : Pps os.Fs) (r : Result (Unit {0}) × Delivery os.Fs)
      → s.mode ≡ blank
      → Moves in_limbo (Commands.commit_result os c s r)
  commit_result-Turn s (ok _, d) h = rw h settles
  commit_result-Turn s (throws r, d) h = rw h settles

  pub limbo_words-Turn :
      (line : Text) (s : Pps os.Fs) → s.mode ≡ in_limbo → Moves in_limbo (limbo_words os c line s)
  unfolding limbo_words Commands.commit_command Commands.roll_back_command
  limbo_words-Turn line s h =
      if-rule (Moves in_limbo) (eq line (lit "commit"))
        (if-rule (Moves in_limbo) s.failed settles
          (commit_result-Turn (record s { mode = blank }) (Message.commit os s.delivery) refl))
        (if-rule (Moves in_limbo) (eq line (lit "rollback")) settles (same_mode in_limbo s h))

  pub pre_limbo_words-Turn :
      (line command : Text) (args : List Text) (s : Pps os.Fs)
      → s.mode ≡ pre_limbo
      → Moves pre_limbo (pre_limbo_words os c line command args s)
  unfolding pre_limbo_words Commands.put_command
  pre_limbo_words-Turn line command args s h =
      if-rule (Moves pre_limbo) (eq command (lit "rcpt") && length args == 2)
        (rcpt_words-Turn args s h)
        (if-rule (Moves pre_limbo) (eq line (lit "put")) puts (same_mode pre_limbo s h))

  pub un_auth_words-Turn :
      (command : Text) (args : List Text) (s : Pps os.Fs)
      → s.mode ≡ un_auth
      → Moves un_auth (un_auth_words os c command args s)
  unfolding un_auth_words Commands.password_command
  un_auth_words-Turn command args s h =
      if-rule (Moves un_auth) (eq command (lit "pass"))
        (if-rule (Moves un_auth) (Commands.accepted c s.remote (only_word args)) logs_in
          (same_mode un_auth s h))
        (same_mode un_auth s h)
