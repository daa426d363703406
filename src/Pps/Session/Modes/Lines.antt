-- ===== src/Pps/Session/Modes/Lines.antt =====
-- How each line of a session of ppsession.cc moves its `d_mode`.
use powermail.Base.{ℕ, ◌≡◌, refl, inl, inr, List, [], ◌∷◌, if◌then◌else◌, if-rule}
use powermail.Text.{Text, lit, eq}
use powermail.Text.Clean.{strip_line}
use powermail.Text.Tokens.{stringtok}
use powermail.Net.{Result, ok, throws}
use powermail.Disk.{Rc, returns, fails, Os}
use powermail.Delivery.{Delivery}
use powermail.Delivery.Message
use powermail.Pps.State.{unset_full, set_readonly, unset_readonly, is_readonly}
use powermail.Delivery.Listing.Rounds.{enough_rounds}
use powermail.Delivery.Listing.{more_rounds, Listed, all_of, past_end, spent}
use powermail.Pps.{Config, Pps, Mode, blank, un_auth, in_limbo, pre_limbo, in_data, dir, Answer}
use powermail.Pps.Commands
use powermail.Pps.Commands.{blanks}
use powermail.Pps.Session.{
  got, readwrite_result, plain_words, blank_words, on_words, by_mode, on_line, give_line,
}
use powermail.Base.{zero, suc, ltb, ◌++◌, ◌⊎◌}
use powermail.Base.Int.{ℤ, pos, negsuc}
use powermail.Disk.{Statfs}
use powermail.Pps.State.{unset_result, readonly_file}
use powermail.Delivery.Mailbox
use powermail.Delivery.Listing
use powermail.Pps.Session.Modes.{
  Turn, lists, Moves, same_mode, put_line-Turn, listed_result-Turn, rcpt_result-Turn,
  limbo_words-Turn, pre_limbo_words-Turn, un_auth_words-Turn, addresses,
}

module _ (os : Os) (c : Config) where
  stat_result-Turn :
      (r : ℕ ⊎ Statfs) (s : Pps os.Fs)
      → s.mode ≡ blank
      → Moves os c blank (Commands.stat_result os c r s)
  unfolding unset_full
  stat_result-Turn (inl e) s h = same_mode os c blank s h
  stat_result-Turn (inr b) s h =
      let Q : Pps os.Fs → Type 0 = λ t. Turn blank t.mode in
      let here = same_mode os c blank s h in
      if-rule Q (ltb c.min_kbytes (Commands.kbytes_free b))
        (if-rule Q (is_readonly os c s) here here) here

  dir_result-Turn :
      (s : Pps os.Fs) (r : Result (Unit {0}) × Delivery os.Fs)
      → s.mode ≡ blank
      → Moves os c blank (Commands.dir_result os c s r)
  dir_result-Turn s (ok _, d) h = lists
  dir_result-Turn s (throws r, d) h = same_mode os c blank s h

  unset_result-Turn :
      (s : Pps os.Fs) (r : Rc × os.Fs)
      → s.mode ≡ blank
      → Moves os c blank (readwrite_result os c (unset_result os c s r))
  unset_result-Turn s (returns n, f) h = same_mode os c blank s h
  unset_result-Turn s (fails e, f) h = same_mode os c blank s h

  readwrite-Turn :
      (s : Pps os.Fs)
      → s.mode ≡ blank
      → Moves os c blank (readwrite_result os c (unset_readonly os c s))
  unfolding unset_readonly
  readwrite-Turn s h =
      if-rule (λ r. Moves os c blank (readwrite_result os c r)) (is_readonly os c s)
        (unset_result-Turn s (os.unlink (readonly_file os c) s.delivery.fs) h)
        (same_mode os c blank s h)

  plain_words-Turn :
      (command : Text) (s : Pps os.Fs)
      → s.mode ≡ blank
      → Moves os c blank (plain_words os c command s)
  unfolding Commands.ping_command Commands.dir_command Commands.stat_command set_readonly
  plain_words-Turn command s h =
      let Q = Moves os c blank in
      let here : Turn blank s.mode = same_mode os c blank s h in
      if-rule Q (eq command (lit "ping")) here (
        if-rule Q (eq command (lit "stat"))
          (stat_result-Turn (os.statfs (c.mail_root ++ lit "/") s.delivery.fs) s h)
          (if-rule Q (eq command (lit "dir"))
            (dir_result-Turn s (Listing.start_list os s.delivery) h)
            (if-rule Q (eq command (lit "readonly"))
              (if-rule (λ (t : Pps os.Fs). Turn blank t.mode) (is_readonly os c s) here here)
              (if-rule Q (eq command (lit "readwrite")) (readwrite-Turn s h) here))))

  got-Turn :
      (s : Pps os.Fs) (r : (ℤ × Text) × Delivery os.Fs)
      → s.mode ≡ blank
      → Moves os c blank (got os c s r)
  got-Turn s ((pos zero, t), d) h = same_mode os c blank s h
  got-Turn s ((pos (suc n), t), d) h = same_mode os c blank s h
  got-Turn s ((negsuc n, t), d) h = same_mode os c blank s h

  blank_words-Turn :
      (command : Text) (args : List Text) (s : Pps os.Fs)
      → s.mode ≡ blank
      → Moves os c blank (blank_words os c command args s)
  unfolding blank_words Commands.rcpt_command
  blank_words-Turn command [] s h = plain_words-Turn command s h
  blank_words-Turn command (a ∷ []) s h =
      let Q = Moves os c blank in
      let here = same_mode os c blank s h in
      if-rule Q (eq command (lit "ls")) here
        (if-rule Q (eq command (lit "nuke")) here (plain_words-Turn command s h))
  blank_words-Turn command (a ∷ b ∷ []) s h =
      let Q = Moves os c blank in
      let here = same_mode os c blank s h in
      if-rule Q (eq command (lit "rcpt"))
        (rcpt_result-Turn os c blank s (Message.add_file os a b s.delivery) h addresses)
        (if-rule Q (eq command (lit "del")) here (
          if-rule Q (eq command (lit "get"))
            (got-Turn s (Mailbox.get_message_fd os a b s.delivery) h)
            (plain_words-Turn command s h)))
  blank_words-Turn command (a ∷ b ∷ d ∷ args) s h = plain_words-Turn command s h

  words-Turn :
      (m : Mode) (line : Text) (ws : List Text) (s : Pps os.Fs)
      → ((command : Text) (args : List Text) → Moves os c m (by_mode os c m line command args s))
      → s.mode ≡ m
      → Moves os c m (on_words os c m line ws s)
  words-Turn m line [] s k h = same_mode os c m s h
  words-Turn m line (w ∷ args) s k h =
      if-rule (Moves os c m) (eq w (lit "quit")) (same_mode os c m s h) (k w args)

  control-Turn :
      (m : Mode) (line command : Text) (s : Pps os.Fs) (r : Answer × Pps os.Fs)
      → s.mode ≡ m
      → Moves os c m r
      → Moves os c m
          (if eq command (lit "control") then Commands.control_commands os c line s else r)
  unfolding Commands.control_commands
  control-Turn m line command s r h k =
      if-rule (Moves os c m) (eq command (lit "control")) (same_mode os c m s h) k

  on_line-Turn :
      (m : Mode) (raw : Text) (s : Pps os.Fs) → s.mode ≡ m → Moves os c m (on_line os c m raw s)
  unfolding Commands.more_dir
  on_line-Turn in_data raw s h = put_line-Turn os c raw s h
  on_line-Turn dir raw s h =
      listed_result-Turn os c s (Listing.more_rounds os (enough_rounds os s.delivery) [] s.delivery)
        h
  on_line-Turn blank raw s h =
      words-Turn blank (strip_line raw) (stringtok blanks (strip_line raw)) s
        (λ w args. control-Turn blank (strip_line raw) w s _ h (blank_words-Turn w args s h)) h
  on_line-Turn un_auth raw s h =
      words-Turn un_auth (strip_line raw) (stringtok blanks (strip_line raw)) s
        (λ w args. un_auth_words-Turn os c w args s h) h
  on_line-Turn in_limbo raw s h =
      words-Turn in_limbo (strip_line raw) (stringtok blanks (strip_line raw)) s
        (λ w args.
          control-Turn in_limbo (strip_line raw) w s _ h
            (limbo_words-Turn os c (strip_line raw) s h))
        h
  on_line-Turn pre_limbo raw s h =
      words-Turn pre_limbo (strip_line raw) (stringtok blanks (strip_line raw)) s
        (λ w args.
          control-Turn pre_limbo (strip_line raw) w s _ h
            (pre_limbo_words-Turn os c (strip_line raw) w args s h))
        h

  -- Whatever line a session is given, its mode stays or takes one of the moves of the protocol.
  pub give_line-Turn : (raw : Text) (s : Pps os.Fs) → Turn s.mode (give_line os c raw s).1.mode
  unfolding give_line
  give_line-Turn raw s = on_line-Turn s.mode raw s refl
