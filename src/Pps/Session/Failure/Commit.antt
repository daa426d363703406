-- ===== src/Pps/Session/Failure/Commit.antt =====
-- What a response to a commit of ppsession.cc says of the message.
use mathlib.Core.Path.{subst}
use powermail.Base.{
  ℕ, ◌≡◌, ◌≢◌, refl, ap, ◌∙◌, ◌⊎◌, inl, inr, true, false, List, [], ◌∷◌, ◌++◌, Bool-cases, arith,
}
use powermail.Base.Int.{pos, ltb_ℤ}
use powermail.Text.{Text, lit, eq, before, mem, char_at}
use powermail.Text.Clean.{strip_line}
use powermail.Text.Tokens.{stringtok}
use powermail.Net.{Result, ok, throws}
use powermail.Disk.{Os}
use powermail.Delivery.{Delivery}
use powermail.Delivery.Message.{commit}
use powermail.Pps.{Config, Pps, blank, in_limbo, in_data, Answer, reply}
use powermail.Pps.Commands.{blanks, says, is_end, put_line, commit_result, commit_command}
use powermail.Pps.Session
use powermail.Pps.Session.{limbo_words, blank_words, on_words, on_line, run}
use powermail.Pps.Session.Failure.{
  commit_line, dot_line, Body, after, NoWriteFailed, in_data_line, run-NoWriteFailed,
}

commit_stripped : strip_line commit_line ≡ lit "commit"
unfolding strip_line before mem lit
commit_stripped = refl

commit_word : stringtok blanks (lit "commit") ≡ lit "commit" ∷ []
unfolding stringtok lit
commit_word = refl

dot_is_end : is_end dot_line ≡ true
unfolding is_end char_at lit
dot_is_end = refl

-- A response that starts with `+`.
abbrev pub IsOk : Answer → Type 0
IsOk (reply t q fd more) = char_at t 0 ≡ b'+'
IsOk _ = ⊥

minus_plus : ◌≢◌ {A = ℕ} b'-' b'+'
minus_plus = λ e. absurd (omega (arith, e))

failed_response :
    (r : Text)
    → ¬ IsOk (says (lit "-ERR failed during reception of message and writing to disk: " ++ r))
unfolding lit char_at
failed_response r = λ e. minus_plus e

module _ (os : Os) (c : Config) where
  commit_words :
      (s : Pps os.Fs)
      → on_words os c in_limbo (lit "commit") (lit "commit" ∷ []) s ≡ commit_command os c s
  unfolding limbo_words eq lit
  commit_words s = refl

  pub commit_line_lem :
      (s : Pps os.Fs)
      → s.mode ≡ in_limbo
      → Session.give_line os c commit_line s ≡ commit_command os c s
  unfolding Session.give_line
  commit_line_lem s h = simp (h, commit_stripped, commit_word) (commit_words s)

  pub dot_line_lem :
      (s : Pps os.Fs)
      → s.mode ≡ in_data
      → Session.give_line os c dot_line s ≡ (says (lit "+OK"), record s { mode = in_limbo })
  unfolding put_line
  dot_line_lem s h = in_data_line os c dot_line s h ∙ simp dot_is_end refl

  pub commit_command_failed :
      (s : Pps os.Fs)
      → s.failed ≡ true
      → commit_command os c s ≡ (
        says (lit "-ERR failed during reception of message and writing to disk: " ++ s.reason),
        record s { mode = blank; failed = false },
      )
  unfolding commit_command
  commit_command_failed s h = simp h refl

  commit_result_ok :
      (s : Pps os.Fs) (r : Result (Unit {0}) × Delivery os.Fs)
      → IsOk (commit_result os c s r).0
      → r.0 ≡ ok tt
  unfolding lit char_at
  commit_result_ok s (ok _, d) h = refl
  commit_result_ok s (throws t, d) h = absurd (minus_plus h)

  commit_command_ok :
      (s : Pps os.Fs)
      → IsOk (commit_command os c s).0
      → (s.failed ≡ false) × ((commit os s.delivery).0 ≡ ok tt)
  unfolding commit_command
  commit_command_ok s h = elim (Bool-cases s.failed) [
    | inl e ↦ absurd (failed_response s.reason (simp e at h))
    | inr e ↦ (e, commit_result_ok (record s { mode = blank }) (commit os s.delivery) (simp e at h))
  ]

  -- A session that takes in a message, with an open descriptor and no failure so far, is fed with
  -- lines of the message, the dot and `commit`: where the response to that is a `+`, no `write` of a
  -- line to the descriptor of the message failed, though it may have taken a part of the line only,
  -- and the commit of the message went well.
  pub commit-NoWriteFailed :
      (ls : List Text) (s : Pps os.Fs)
      → s.mode ≡ in_data
      → s.failed ≡ false
      → ltb_ℤ s.delivery.fd (pos 0) ≡ false
      → Body ls
      → IsOk (Session.give_line os c commit_line (after os c dot_line (run os c ls s))).0
      → NoWriteFailed os c ls s × ((commit os (run os c ls s).delivery).0 ≡ ok tt)
  commit-NoWriteFailed ls s h k o b r =
      let t = run os c ls s in
      let (m, w) = run-NoWriteFailed os c ls s (h, o) k b in
      let u : Pps os.Fs = record t { mode = in_limbo } in
      let e : Session.give_line os c commit_line (after os c dot_line t) ≡ commit_command os c u =
        ap (λ x. Session.give_line os c commit_line x.1) (dot_line_lem t m)
        ∙ commit_line_lem u refl in
      let (f, g) = commit_command_ok u (subst (λ x. IsOk x.0) e r) in (written f w, g)
    where
      written :
          (run os c ls s).failed ≡ false
          → ((run os c ls s).failed ≡ true) ⊎ NoWriteFailed os c ls s
          → NoWriteFailed os c ls s
      written f (inl e) = cc
      written f (inr w) = w
