-- ===== src/Pps/Session/Sound/Lines.antt =====
-- That each line keeps a session of ppsession.cc sound.
use powermail.Base.{
  ℕ, zero, suc, ◌≡◌, refl, ◌⊎◌, inl, inr, List, [], ◌∷◌, ◌++◌, ltb, if◌then◌else◌, if-rule,
}
use powermail.Base.Int.{ℤ, pos, negsuc}
use powermail.Text.{Text, lit, eq}
use powermail.Text.Clean.{strip_line}
use powermail.Text.Tokens.{stringtok}
use powermail.Net.{Result, ok, throws}
use powermail.Disk.{Rc, returns, fails, Statfs, Os}
use powermail.Delivery.{Delivery}
use powermail.Delivery.Mailbox
use powermail.Delivery.Listing
use powermail.Delivery.Listing.{Listed, all_of, past_end, spent}
use powermail.Delivery.Listing.Rounds.{enough_rounds}
use powermail.Delivery.Keeps.{
  Same, get_message_fd-Same, del_message-Same, nuke-Same, more_rounds-Same, start_list-Same,
}
use powermail.Pps.{Config, Pps, Mode, blank, un_auth, in_limbo, pre_limbo, in_data, dir, Answer}
use powermail.Pps.State.{
  is_readonly, unset_full, set_readonly, unset_readonly, unset_result, readonly_file,
}
use powermail.Pps.Commands
use powermail.Pps.Commands.{blanks}
use powermail.Pps.Session.{
  start, told, got, readwrite_result, plain_words, blank_words, by_mode, on_words, on_line,
  give_line, run,
}
use powermail.Pps.Session.Sound.{
  InMessage, Sound, Keeps, kept-Sound, put_line-Sound, rcpt-Sound, limbo_words-Sound,
  pre_limbo_words-Sound, un_auth_words-Sound,
}

module _ (os : Os) (c : Config) where
  stat_result-Sound :
      (r : ℕ ⊎ Statfs) (s : Pps os.Fs) → Sound s → Keeps os c (Commands.stat_result os c r s)
  unfolding unset_full
  stat_result-Sound (inl e) s q = q
  stat_result-Sound (inr b) s q =
      let Q : Pps os.Fs → Type 0 = λ t. Sound t in
      if-rule Q (ltb c.min_kbytes (Commands.kbytes_free b)) (if-rule Q (is_readonly os c s) q q) q

  -- What stands in a mode outside of messages stays so.
  moved-Sound :
      (s t : Pps os.Fs) → Same os s.delivery t.delivery → (InMessage t.mode → ⊥) → Sound s → Sound t
  moved-Sound s t h k q = kept-Sound os c s t h (λ m. absurd (k m)) q

  dir_result-Sound :
      (s : Pps os.Fs) (r : Result (Unit {0}) × Delivery os.Fs)
      → Same os s.delivery r.1
      → Sound s
      → Keeps os c (Commands.dir_result os c s r)
  dir_result-Sound s (ok _, d) h q =
      moved-Sound s (record s { delivery = d; mode = dir }) h (λ m. elim m [ ]) q
  dir_result-Sound s (throws r, d) h q = kept-Sound os c s (record s { delivery = d }) h (λ m. m) q

  unset_result-Sound :
      (s : Pps os.Fs) (r : Rc × os.Fs)
      → Sound s
      → Keeps os c (readwrite_result os c (unset_result os c s r))
  unset_result-Sound s (returns n, f) q = q
  unset_result-Sound s (fails e, f) q = q

  readwrite-Sound :
      (s : Pps os.Fs) → Sound s → Keeps os c (readwrite_result os c (unset_readonly os c s))
  unfolding unset_readonly
  readwrite-Sound s q =
      if-rule (λ (r : Result (Unit {0}) × Pps os.Fs). Keeps os c (readwrite_result os c r))
        (is_readonly os c s) (unset_result-Sound s (os.unlink (readonly_file os c) s.delivery.fs) q)
        q

  plain_words-Sound :
      (command : Text) (s : Pps os.Fs) → Sound s → Keeps os c (plain_words os c command s)
  unfolding Commands.ping_command Commands.dir_command Commands.stat_command set_readonly
  plain_words-Sound command s q =
      let Q = Keeps os c in
      if-rule Q (eq command (lit "ping")) q (
        if-rule Q (eq command (lit "stat"))
          (stat_result-Sound (os.statfs (c.mail_root ++ lit "/") s.delivery.fs) s q)
          (if-rule Q (eq command (lit "dir"))
            (dir_result-Sound s (Listing.start_list os s.delivery) (start_list-Same os s.delivery)
              q)
            (if-rule Q (eq command (lit "readonly"))
              (if-rule (λ (t : Pps os.Fs). Sound t) (is_readonly os c s) q q)
              (if-rule Q (eq command (lit "readwrite")) (readwrite-Sound s q) q))))

  got-Sound :
      (s : Pps os.Fs) (r : (ℤ × Text) × Delivery os.Fs)
      → Same os s.delivery r.1
      → Sound s
      → Keeps os c (got os c s r)
  got-Sound s ((pos zero, t), d) h q = kept-Sound os c s (record s { delivery = d }) h (λ m. m) q
  got-Sound s ((pos (suc n), t), d) h q = kept-Sound os c s (record s { delivery = d }) h (λ m. m) q
  got-Sound s ((negsuc n, t), d) h q = kept-Sound os c s (record s { delivery = d }) h (λ m. m) q

  told-Sound :
      (s : Pps os.Fs) (r : Text × Delivery os.Fs)
      → Same os s.delivery r.1
      → Sound s
      → Keeps os c (told os c s r)
  told-Sound s (t, d) h q = kept-Sound os c s (record s { delivery = d }) h (λ m. m) q

  blank_words-Sound :
      (command : Text) (args : List Text) (s : Pps os.Fs)
      → Sound s
      → Keeps os c (blank_words os c command args s)
  unfolding blank_words
  blank_words-Sound command [] s q = plain_words-Sound command s q
  blank_words-Sound command (a ∷ []) s q =
      let Q = Keeps os c in
      if-rule Q (eq command (lit "ls")) q (
        if-rule Q (eq command (lit "nuke"))
          (told-Sound s (Mailbox.nuke os a s.delivery) (nuke-Same os a s.delivery) q)
          (plain_words-Sound command s q))
  blank_words-Sound command (a ∷ b ∷ []) s q =
      let Q = Keeps os c in
      if-rule Q (eq command (lit "rcpt")) (rcpt-Sound os c a b s q) (
        if-rule Q (eq command (lit "del"))
          (told-Sound s (Mailbox.del_message os a b s.delivery) (del_message-Same os a b s.delivery)
            q)
          (if-rule Q (eq command (lit "get"))
            (got-Sound s (Mailbox.get_message_fd os a b s.delivery)
              (get_message_fd-Same os a b s.delivery) q)
            (plain_words-Sound command s q)))
  blank_words-Sound command (a ∷ b ∷ d ∷ args) s q = plain_words-Sound command s q

  words-Sound :
      (m : Mode) (line : Text) (ws : List Text) (s : Pps os.Fs)
      → ((command : Text) (args : List Text) → Keeps os c (by_mode os c m line command args s))
      → Sound s
      → Keeps os c (on_words os c m line ws s)
  words-Sound m line [] s k q = q
  words-Sound m line (w ∷ args) s k q = if-rule (Keeps os c) (eq w (lit "quit")) q (k w args)

  control-Sound :
      (line command : Text) (s : Pps os.Fs) (r : Answer × Pps os.Fs)
      → Sound s
      → Keeps os c r
      → Keeps os c (if eq command (lit "control") then Commands.control_commands os c line s else r)
  unfolding Commands.control_commands
  control-Sound line command s r q k = if-rule (Keeps os c) (eq command (lit "control")) q k

  listed_result-Sound :
      (s : Pps os.Fs) (r : Listed × Delivery os.Fs)
      → Same os s.delivery r.1
      → Sound s
      → Keeps os c (Commands.listed_result os c s r)
  listed_result-Sound s (all_of t, d) h q =
      moved-Sound s (record s { delivery = d; mode = blank }) h (λ m. elim m [ ]) q
  listed_result-Sound s (past_end, d) h q =
      kept-Sound os c s (record s { delivery = d }) h (λ m. m) q
  listed_result-Sound s (spent, d) h q = kept-Sound os c s (record s { delivery = d }) h (λ m. m) q

  on_line-Sound :
      (m : Mode) (raw : Text) (s : Pps os.Fs)
      → s.mode ≡ m
      → Sound s
      → Keeps os c (on_line os c m raw s)
  unfolding Commands.more_dir
  on_line-Sound in_data raw s h q = put_line-Sound os c raw s h q
  on_line-Sound dir raw s h q =
      let n = enough_rounds os s.delivery in
      listed_result-Sound s (Listing.more_rounds os n [] s.delivery)
        (more_rounds-Same os n [] s.delivery) q
  on_line-Sound blank raw s h q =
      words-Sound blank (strip_line raw) (stringtok blanks (strip_line raw)) s
        (λ w args. control-Sound (strip_line raw) w s _ q (blank_words-Sound w args s q)) q
  on_line-Sound un_auth raw s h q =
      words-Sound un_auth (strip_line raw) (stringtok blanks (strip_line raw)) s
        (λ w args. un_auth_words-Sound os c w args s q) q
  on_line-Sound in_limbo raw s h q =
      words-Sound in_limbo (strip_line raw) (stringtok blanks (strip_line raw)) s
        (λ w args.
          control-Sound (strip_line raw) w s _ q (limbo_words-Sound os c (strip_line raw) s q))
        q
  on_line-Sound pre_limbo raw s h q =
      words-Sound pre_limbo (strip_line raw) (stringtok blanks (strip_line raw)) s
        (λ w args.
          control-Sound (strip_line raw) w s _ q
            (pre_limbo_words-Sound os c (strip_line raw) w args s h q))
        q

  pub give_line-Sound : (raw : Text) (s : Pps os.Fs) → Sound s → Keeps os c (give_line os c raw s)
  unfolding give_line
  give_line-Sound raw s q = on_line-Sound s.mode raw s refl q

  pub run-Sound : (ls : List Text) (s : Pps os.Fs) → Sound s → Sound (run os c ls s)
  unfolding run
  run-Sound [] s q = q
  run-Sound (l ∷ ls) s q = run-Sound ls (give_line os c l s).1 (give_line-Sound l s q)

  -- Whatever lines a new session was fed with, it has a recipient in the middle of a message, and
  -- an open descriptor where it has recipients.
  pub run-start-Sound :
      (ls : List Text) (remote root : Text) (f : os.Fs) (fd : ℤ)
      → Sound (run os c ls (start remote root f fd))
  unfolding start
  run-start-Sound ls remote root f fd =
      run-Sound ls (start remote root f fd) (inl refl, (λ m. elim m [ ]))
