-- ===== src/Pps/Session/Sound.antt =====
-- What every session of ppsession.cc keeps: in the middle of a message there is a recipient, and
-- where there are recipients the descriptor is open.
pub mod Lines
use powermail.Base.{
  ℕ, zero, suc, ◌≡◌, ◌≢◌, refl, sym, ap, ◌∙◌, ◌⊎◌, inl, inr, Bool, true, false, ◌&&◌, List, [], ◌∷◌,
  ◌++◌, Option, none, some, ◌==◌, ltb, length, if◌then◌else◌, if-rule,
}
use powermail.Base.Int.{ℤ, pos, negsuc, ltb_ℤ}
use powermail.Text.{Text, lit, eq}
use powermail.Text.Clean.{strip_line}
use powermail.Text.Tokens.{stringtok}
use powermail.Net.{Result, ok, throws}
use powermail.Disk.{Rc, returns, fails, enospc, Statfs, Os}
use powermail.Delivery.{Delivery}
use powermail.Delivery.Message
use powermail.Delivery.Mailbox
use powermail.Delivery.Listing
use powermail.Delivery.Listing.{Listed, all_of, past_end, spent}
use powermail.Delivery.Listing.Rounds.{enough_rounds}
use powermail.Delivery.Keeps.{
  Same, get_message_fd-Same, del_message-Same, nuke-Same, more_rounds-Same, start_list-Same,
}
use powermail.Delivery.Open.{Open, Added, Open-Same, recipients-Same, add_file-Added}
use powermail.Pps.{
  Config, Pps, Mode, blank, un_auth, in_limbo, pre_limbo, in_data, dir, Answer, escapes,
}
use powermail.Pps.State.{
  with_fs, is_readonly, set_full, unset_full, set_readonly, unset_readonly, unset_result,
  readonly_file,
}
use powermail.Pps.Commands
use powermail.Pps.Commands.{blanks}
use powermail.Pps.Session.{
  start, only_word, told, got, readwrite_result, rcpt_words, plain_words, blank_words, limbo_words,
  pre_limbo_words, un_auth_words, in_mode, by_mode, on_words, on_line, give_line, run,
}

-- The modes that a message is taken in with.
abbrev pub InMessage : Mode → Type 0
InMessage pre_limbo = Unit
InMessage in_data = Unit
InMessage in_limbo = Unit
InMessage _ = ⊥

abbrev pub Sound : {F : Type 0} → Pps F → Type 0
Sound s = Open s.delivery × (InMessage s.mode → s.delivery.destinations ≢ [])

module _ (os : Os) (c : Config) where
  -- A delivery with the same message, in a mode that is in a message only where the session was.
  pub kept-Sound :
      (s t : Pps os.Fs)
      → Same os s.delivery t.delivery
      → (InMessage t.mode → InMessage s.mode)
      → Sound s
      → Sound t
  kept-Sound s t h k q = (
    Open-Same os s.delivery t.delivery h q.0,
    (λ m. recipients-Same os s.delivery t.delivery h (q.1 (k m))),
  )

  abbrev pub Keeps : Answer × Pps os.Fs → Type 0
  Keeps r = Sound r.1

  pub line_result-Sound :
      (s : Pps os.Fs) (r : Result Rc × Delivery os.Fs)
      → Same os s.delivery r.1
      → Sound s
      → Keeps (Commands.line_result os c s r)
  unfolding set_full
  line_result-Sound s (ok (returns n), d) h q =
      kept-Sound s (record s { delivery = d }) h (λ m. m) q
  line_result-Sound s (ok (fails e), d) h q =
      let k = kept-Sound s (record s { delivery = d }) h (λ m. m) q in
      if-rule (λ (t : Pps os.Fs). Sound t) (e == enospc) k k
  line_result-Sound s (throws r, d) h q = kept-Sound s (record s { delivery = d }) h (λ m. m) q

  give_line-Same : (l : Text) (d : Delivery os.Fs) → Same os d (Message.give_line os l d).1
  unfolding Message.give_line
  give_line-Same l d =
      if-rule (λ (r : Result Rc × Delivery os.Fs). Same os d r.1) (ltb_ℤ d.fd (pos 0)) refl refl

  pub put_line-Sound :
      (l : Text) (s : Pps os.Fs) → s.mode ≡ in_data → Sound s → Keeps (Commands.put_line os c l s)
  unfolding Commands.put_line
  put_line-Sound l s h q =
      if-rule Keeps (Commands.is_end l) (q.0, (λ m. q.1 (simp h tt)))
        (if-rule Keeps s.failed q
          (line_result-Sound s (Message.give_line os l s.delivery) (give_line-Same l s.delivery) q))

  pub rcpt_result-Sound :
      (s : Pps os.Fs) (r : Option Text × Delivery os.Fs)
      → Added os s.delivery r
      → Sound s
      → Keeps (Commands.rcpt_result os c s r)
  rcpt_result-Sound s (none, d) a q = (a.0 q.0, (λ m. a.2 refl))
  rcpt_result-Sound s (some t, d) a q = (a.0 q.0, (λ m. a.1 (q.1 m)))

  pub rcpt-Sound : (a i : Text) (s : Pps os.Fs) → Sound s → Keeps (Commands.rcpt_command os c a i s)
  unfolding Commands.rcpt_command
  rcpt-Sound a i s q =
      rcpt_result-Sound s (Message.add_file os a i s.delivery) (add_file-Added os a i s.delivery) q

  pub rcpt_words-Sound : (ws : List Text) (s : Pps os.Fs) → Sound s → Keeps (rcpt_words os c ws s)
  rcpt_words-Sound [] s q = q
  rcpt_words-Sound (a ∷ []) s q = q
  rcpt_words-Sound (a ∷ b ∷ []) s q = rcpt-Sound a b s q
  rcpt_words-Sound (a ∷ b ∷ d ∷ ws) s q = q

  pub commit_result-Sound :
      (s : Pps os.Fs) (r : Result (Unit {0}) × Delivery os.Fs)
      → Keeps (Commands.commit_result os c (record s { mode = blank }) r)
  unfolding Message.reset
  commit_result-Sound s (ok _, d) = (inl refl, (λ m. elim m [ ]))
  commit_result-Sound s (throws t, d) = (inl refl, (λ m. elim m [ ]))

  pub limbo_words-Sound : (line : Text) (s : Pps os.Fs) → Sound s → Keeps (limbo_words os c line s)
  unfolding limbo_words Commands.commit_command Commands.roll_back_command Message.reset
      Message.roll_back
  limbo_words-Sound line s q =
      if-rule Keeps (eq line (lit "commit"))
        (if-rule Keeps s.failed (q.0, (λ m. elim m [ ]))
          (commit_result-Sound s (Message.commit os s.delivery)))
        (if-rule Keeps (eq line (lit "rollback")) (inl refl, (λ m. elim m [ ])) q)

  pub pre_limbo_words-Sound :
      (line command : Text) (args : List Text) (s : Pps os.Fs)
      → s.mode ≡ pre_limbo
      → Sound s
      → Keeps (pre_limbo_words os c line command args s)
  unfolding pre_limbo_words Commands.put_command
  pre_limbo_words-Sound line command args s h q =
      if-rule Keeps (eq command (lit "rcpt") && length args == 2) (rcpt_words-Sound args s q)
        (if-rule Keeps (eq line (lit "put")) (q.0, (λ m. q.1 (simp h tt))) q)

  pub un_auth_words-Sound :
      (command : Text) (args : List Text) (s : Pps os.Fs)
      → Sound s
      → Keeps (un_auth_words os c command args s)
  unfolding un_auth_words Commands.password_command
  un_auth_words-Sound command args s q =
      if-rule Keeps (eq command (lit "pass"))
        (if-rule Keeps (Commands.accepted c s.remote (only_word args)) (q.0, (λ m. elim m [ ])) q) q
