-- ===== src/Pps/Session/Failure/Left.antt =====
-- What a commit of ppsession.cc that is refused for a failed write leaves to the next message.
use powermail.Base.{◌≡◌, ◌≢◌, refl, ap, ◌∙◌, true, false, List, [], ◌∷◌, Option, none, some}
use powermail.Text.{Text, lit, eq}
use powermail.Text.Clean.{strip_line}
use powermail.Text.Tokens.{stringtok}
use powermail.Disk.{Os}
use powermail.Delivery.{Delivery}
use powermail.Delivery.Message.{add_file, add_link, by_destinations}
use powermail.Pps.{Config, Pps, blank, in_limbo}
use powermail.Pps.Commands.{blanks, rcpt_result, rcpt_command}
use powermail.Pps.Session
use powermail.Pps.Session.{limbo_words, blank_words, on_words, on_line, run}
use powermail.Pps.Session.Failure.{commit_line, after}
use powermail.Pps.Session.Failure.Commit.{commit_line_lem, commit_command_failed}

module _ (os : Os) (c : Config) where
  rcpt_words :
      (line m i : Text) (s : Pps os.Fs)
      → on_words os c blank line (lit "rcpt" ∷ m ∷ i ∷ []) s ≡ rcpt_command os c m i s
  unfolding blank_words eq lit
  rcpt_words line m i s = refl

  rcpt_line :
      (l m i : Text) (s : Pps os.Fs)
      → s.mode ≡ blank
      → stringtok blanks (strip_line l) ≡ lit "rcpt" ∷ m ∷ i ∷ []
      → Session.give_line os c l s ≡ rcpt_command os c m i s
  unfolding Session.give_line
  rcpt_line l m i s h e = simp (h, e) (rcpt_words (strip_line l) m i s)

  rcpt_result_delivery :
      (s : Pps os.Fs) (r : Option Text × Delivery os.Fs) → (rcpt_result os c s r).1.delivery ≡ r.1
  rcpt_result_delivery s (none, d) = refl
  rcpt_result_delivery s (some t, d) = refl

  by_destinations_link :
      (ds : List Text) (m i : Text) (d : Delivery os.Fs)
      → ds ≢ []
      → by_destinations os ds m i d ≡ add_link os m i d
  by_destinations_link [] m i d h = absurd (h refl)
  by_destinations_link (x ∷ xs) m i d h = refl

  rcpt_delivery :
      (m i : Text) (s : Pps os.Fs)
      → s.delivery.destinations ≢ []
      → (rcpt_command os c m i s).1.delivery ≡ (add_link os m i s.delivery).1
  unfolding rcpt_command add_file
  rcpt_delivery m i s n =
      rcpt_result_delivery s (by_destinations os s.delivery.destinations m i s.delivery)
      ∙ ap (λ r. r.1) (by_destinations_link s.delivery.destinations m i s.delivery n)

  failed_commit :
      (s : Pps os.Fs)
      → s.mode ≡ in_limbo
      → s.failed ≡ true
      → after os c commit_line s ≡ record s { mode = blank; failed = false }
  failed_commit s h k = ap (λ r. r.1) (commit_line_lem os c s h ∙ commit_command_failed os c s k)

  -- Where a write of a message failed, `commit` leaves the message with its recipients and its open
  -- descriptor, and the failure is forgotten: a recipient of the next message is linked to the file
  -- of the failed one.
  pub commit_leaves :
      (s : Pps os.Fs)
      → s.mode ≡ in_limbo
      → s.failed ≡ true
      → s.delivery.destinations ≢ []
      → (l m i : Text) → stringtok blanks (strip_line l) ≡ lit "rcpt" ∷ m ∷ i ∷ []
      → ((after os c commit_line s).delivery ≡ s.delivery)
        × ((after os c commit_line s).failed ≡ false)
        × ((after os c l (after os c commit_line s)).delivery ≡ (add_link os m i s.delivery).1)
  commit_leaves s h k n l m i e =
      let t : Pps os.Fs = record s { mode = blank; failed = false } in
      let p = failed_commit s h k in
      (
        ap (λ u. u.delivery) p,
        ap (λ u. u.failed) p,
        ap (λ u. (after os c l u).delivery) p
            ∙ ap (λ r. r.1.delivery) (rcpt_line l m i t refl e)
            ∙ rcpt_delivery m i t n,
      )
