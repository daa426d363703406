-- ===== src/Smtp/Session/Steps.antt =====
-- What each command of smtpsession.cc leaves of a session: the MegaTalker is sound, and a message
-- is taken in only behind MAIL, and with a MegaTalker.
use powermail.Base.{
  ℕ, ◌≡◌, ◌⊎◌, true, false, List, [], ◌∷◌, Option, none, some, arith, if-rule, drop,
}
use powermail.Text.{Text, lit, eq, starts_with}
use powermail.Text.Tokens.{stringtok}
use powermail.Net.{Result, ok, throws}
use powermail.UserBase.{Lookup, unavailable, absent, present}
use powermail.Mega.Shared.{MegaTalker, create}
use powermail.Mega.Storage.{Run, add_remote}
use powermail.Mega.Storage.Intact.{add_remote-Sound}
use powermail.Mega.Deliver.Redundancy.{Sound}
use powermail.Smtp.{Config, Smtp, Outcome, rset_session}
use powermail.Smtp.Commands.{blanks, greet, top_commands}
use powermail.Smtp.Envelope.{
  mega_of, run_of, forwarded, recipient_known, lookup_recipient, extract_address, eat_from, eat_to,
  sized, begun, esmtp_size,
}

abbrev pub SoundIn : Option MegaTalker → Type 0
SoundIn none = Unit
SoundIn (some m) = Sound m

-- The state between messages.
abbrev pub Idle : Smtp → Type 0
Idle s = SoundIn s.megatalker × (s.indata ≡ false)

-- The state within a message.
abbrev pub Taking : Smtp → Type 0
Taking s = (m : MegaTalker) × (s.megatalker ≡ some m) × Sound m × (s.fromset ≡ true)

abbrev pub Inv : Smtp → Type 0
Inv s = Idle s ⊎ ((s.indata ≡ true) × Taking s)

create-Sound : Sound create
unfolding create
create-Sound = λ d. tt

pub mega_of-Sound : (s : Smtp) → SoundIn s.megatalker → Sound (mega_of s)
mega_of-Sound s q = go s.megatalker q
  where
    go : (o : Option MegaTalker) → SoundIn o → Sound (elim o [ none ↦ create | some m ↦ m ])
    go none q = create-Sound
    go (some m) q = q

greet-Idle : (c : Config) (l : Text) (ws : List Text) (s : Smtp) → Idle s → Idle (greet c l ws s).1
unfolding rset_session
greet-Idle c l [] s q = ground arith
greet-Idle c l (w ∷ []) s q = ground arith
greet-Idle c l (w ∷ a ∷ ws) s q =
    let Q : Outcome × Smtp → Type 0 = λ r. Idle r.1 in
    if-rule Q (eq w (lit "HELO")) q
      (if-rule Q (eq w (lit "EHLO")) q (if-rule Q (starts_with (lit "RSET") l) (tt, q.1) q))

pub top_commands-Idle : (c : Config) (l : Text) (s : Smtp) → Idle s → Idle (top_commands c l s).1
unfolding top_commands
top_commands-Idle c l s q =
    let Q : Outcome × Smtp → Type 0 = λ r. Idle r.1 in
    if-rule Q (eq l (lit "HELP")) q (
      if-rule Q (eq l (lit "NOOP")) q (
        if-rule Q (eq l (lit "QUIT")) q
          (if-rule Q (eq l (lit "HELO")) q (greet-Idle c l (stringtok blanks l) s q))))

sized-Idle : (k : Option ℕ) (s : Smtp) → Idle s → Idle (sized k s).1
sized-Idle none s q = q
sized-Idle (some n) s q = q

pub eat_from-Idle : (c : Config) (l : Text) (s : Smtp) → Idle s → Idle (eat_from c l s).1
unfolding eat_from
eat_from-Idle c l s q =
    let Q : Outcome × Smtp → Type 0 = λ r. Idle r.1 in
    if-rule Q (starts_with (lit "MAIL FROM:") l)
      (if-rule Q s.fromset q (sized-Idle (esmtp_size l) (begun c l s) q)) q

forwarded-Idle :
    (to dest : Text) (s : Smtp) (r : Result (Unit {0}) × Run)
    → Sound r.1.mega
    → s.indata ≡ false
    → Idle (forwarded to dest s r).1
forwarded-Idle to dest s (ok a, r) h q = (h, q)
forwarded-Idle to dest s (throws e, r) h q = (h, q)

recipient_known-Idle :
    (to : Text) (s : Smtp) (r : Lookup) → Idle s → Idle (recipient_known to s r).1
recipient_known-Idle to s (unavailable e) q = q
recipient_known-Idle to s (absent e) q = q
recipient_known-Idle to s (present md pw) q =
    let Q : Outcome × Smtp → Type 0 = λ r. Idle r.1 in
    if-rule Q md.is_forward
      (forwarded-Idle to md.fwd_dest s (add_remote s.sender md.fwd_dest s.index (run_of s))
        (add_remote-Sound s.sender md.fwd_dest s.index (run_of s) (mega_of-Sound s q.0)) q.1)
      q

pub eat_to-Idle : (c : Config) (l : Text) (s : Smtp) → Idle s → Idle (eat_to c l s).1
unfolding eat_to
eat_to-Idle c l s q =
    let Q : Outcome × Smtp → Type 0 = λ r. Idle r.1 in
    let to = extract_address (drop 8 l) in
    if-rule Q (starts_with (lit "RCPT TO:") l)
      (if-rule Q s.fromset (recipient_known-Idle to s (lookup_recipient c.users to) q) q) q
