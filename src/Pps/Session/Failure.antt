-- ===== src/Pps/Session/Failure.antt =====
-- Whether the lines of a message were written, and how a session of ppsession.cc keeps that.
pub mod Commit
pub mod Left
use mathlib.Core.Path.{subst, subst⁻¹}
use powermail.Base.{
  ℕ, ◌≡◌, ◌≢◌, refl, sym, ap, ◌∙◌, ◌⊎◌, inl, inr, Bool, true, false, List, [], ◌∷◌, ◌++◌, Option,
  none, some, ◌==◌, if◌then◌else◌, if-rule, Bool-cases, All, arith,
}
use powermail.Base.Int.{ℤ, pos, ltb_ℤ}
use powermail.Text.{Text, lit, eq, before, from, mem, char_at}
use powermail.Text.Clean.{strip_line}
use powermail.Text.Tokens.{stringtok}
use powermail.Net.{Result, ok, throws}
use powermail.Disk.{Rc, returns, fails, enospc, Os}
use powermail.Delivery.{Delivery}
use powermail.Delivery.Message.{give_line, add_file, add_link, by_destinations, commit, reset}
use powermail.Delivery.Message
use powermail.Pps.{
  Config, Pps, Mode, blank, in_limbo, in_data, Answer, silent, reply, escapes, beyond,
}
use powermail.Pps.State.{set_full}
use powermail.Pps.Commands.{
  blanks, says, is_end, line_result, put_line, commit_result, commit_command, rcpt_result,
  rcpt_command,
}
use powermail.Pps.Session
use powermail.Pps.Session.{limbo_words, blank_words, on_words, on_line, run}

abbrev pub commit_line : Text
commit_line = lit "commit\n"

abbrev pub dot_line : Text
dot_line = lit ".\n"

-- Lines of a message.
abbrev pub Body : List Text → Type 0
Body ls = All (λ l. is_end l ≡ false) ls

module _ (os : Os) (c : Config) where
  abbrev pub after : Text → Pps os.Fs → Pps os.Fs
  after l s = (Session.give_line os c l s).1

  -- For every line, in order, there was a `write` to the descriptor of the message, which did not
  -- return -1. It may have taken a part of the line.
  abbrev pub NoWriteFailed : List Text → Pps os.Fs → Type 0
  NoWriteFailed [] s = Unit
  NoWriteFailed (l ∷ ls) s =
      ((n : ℕ) × ((os.write s.delivery.fd l s.delivery.fs).0 ≡ returns n))
      × NoWriteFailed ls (after l s)

  abbrev pub Taking : Pps os.Fs → Type 0
  Taking s = (s.mode ≡ in_data) × (ltb_ℤ s.delivery.fd (pos 0) ≡ false)

  pub in_data_line :
      (l : Text) (s : Pps os.Fs) → s.mode ≡ in_data → Session.give_line os c l s ≡ put_line os c l s
  unfolding Session.give_line
  in_data_line l s h = simp h refl

  put_failed :
      (l : Text) (s : Pps os.Fs)
      → s.failed ≡ true
      → is_end l ≡ false
      → put_line os c l s ≡ (silent, s)
  unfolding put_line
  put_failed l s k e = simp (e, k) refl

  run_failed :
      (ls : List Text) (s : Pps os.Fs)
      → s.mode ≡ in_data
      → s.failed ≡ true
      → Body ls
      → run os c ls s ≡ s
  unfolding run
  run_failed [] s h k b = refl
  run_failed (l ∷ ls) s h k b =
      ap (λ r. run os c ls r.1) (in_data_line l s h ∙ put_failed l s k b.0)
      ∙ run_failed ls s h k b.1

  -- What a write makes of a session: it still takes lines, and it went well or failed.
  abbrev AfterWrite : Rc → Pps os.Fs → Type 0
  AfterWrite x t =
      Taking t × ((((n : ℕ) × (x ≡ returns n)) × (t.failed ≡ false)) ⊎ (t.failed ≡ true))

  line_result-AfterWrite :
      (s : Pps os.Fs) (x : Rc × os.Fs)
      → Taking s
      → s.failed ≡ false
      → AfterWrite x.0 (line_result os c s (Message.written os s.delivery x)).1
  unfolding set_full
  line_result-AfterWrite s (returns n, f) h k = (h, inl ((n, refl), k))
  line_result-AfterWrite s (fails e, f) h k = (
    if-rule (λ (t : Pps os.Fs). (t.mode ≡ in_data) × (ltb_ℤ t.delivery.fd (pos 0) ≡ false))
        (e == enospc) h h,
    inr refl,
  )

  put_line_open :
      (l : Text) (s : Pps os.Fs)
      → Taking s
      → s.failed ≡ false
      → is_end l ≡ false
      → put_line os c l s
        ≡ line_result os c s
            (Message.written os s.delivery (os.write s.delivery.fd l s.delivery.fs))
  unfolding put_line give_line
  put_line_open l s h k e = simp (e, k, h.1) refl

  line-AfterWrite :
      (l : Text) (s : Pps os.Fs)
      → Taking s
      → s.failed ≡ false
      → is_end l ≡ false
      → AfterWrite (os.write s.delivery.fd l s.delivery.fs).0 (after l s)
  line-AfterWrite l s h k e =
      let w = os.write s.delivery.fd l s.delivery.fs in
      let q : Answer × Pps os.Fs → Type 0 = λ r. AfterWrite w.0 r.1 in
      subst⁻¹ q (in_data_line l s h.0 ∙ put_line_open l s h k e) (line_result-AfterWrite s w h k)

  pub run-NoWriteFailed :
      (ls : List Text) (s : Pps os.Fs)
      → Taking s
      → s.failed ≡ false
      → Body ls
      → ((run os c ls s).mode ≡ in_data) × (((run os c ls s).failed ≡ true) ⊎ NoWriteFailed ls s)
  unfolding run
  run-NoWriteFailed [] s h k b = (h.0, inr tt)
  run-NoWriteFailed (l ∷ ls) s h k b =
      go (line-AfterWrite l s h k b.0) (λ t e. run-NoWriteFailed ls (after l s) t e b.1)
    where
      later :
          ((n : ℕ) × ((os.write s.delivery.fd l s.delivery.fs).0 ≡ returns n))
          → ((run os c ls (after l s)).failed ≡ true) ⊎ NoWriteFailed ls (after l s)
          → ((run os c ls (after l s)).failed ≡ true) ⊎ NoWriteFailed (l ∷ ls) s
      later w (inl e) = inl e
      later w (inr e) = inr (w, e)

      go :
          AfterWrite (os.write s.delivery.fd l s.delivery.fs).0 (after l s)
          → (Taking (after l s)
              → (after l s).failed ≡ false
              → ((run os c ls (after l s)).mode ≡ in_data)
                × (((run os c ls (after l s)).failed ≡ true) ⊎ NoWriteFailed ls (after l s)))
          → ((run os c ls (after l s)).mode ≡ in_data)
            × (((run os c ls (after l s)).failed ≡ true) ⊎ NoWriteFailed (l ∷ ls) s)
      go (t, inl (w, e)) ih = let r = ih t e in (r.0, later w r.1)
      go (t, inr e) ih =
          let r = run_failed ls (after l s) t.0 e b.1 in
          (ap (λ u. u.mode) r ∙ t.0, inl (ap (λ u. u.failed) r ∙ e))
