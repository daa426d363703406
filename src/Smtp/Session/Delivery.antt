-- ===== src/Smtp/Session/Delivery.antt =====
-- `giveLine` of smtpsession.cc and the MegaTalker that a session holds.
use powermail.Base.{
  ℕ, ◌≡◌, ◌≢◌, refl, ◌∙◌, inl, inr, true, false, not, ◌&&◌, List, [], ◌∷◌, Option, none, some,
  if◌then◌else◌, if-rule, if-true, if-false,
}
use powermail.Text.{Text, lit, empty, starts_with}
use powermail.Text.Clean.{strip_line}
use powermail.Net.{Result, ok, throws}
use powermail.Mega.Shared.{Shared, MegaTalker}
use powermail.Mega.Deliver.{msg_add_line, msg_done}
use powermail.Mega.Deliver.Redundancy.{commit, apply, apply-Sound, Sound}
use powermail.Smtp.{Config, Smtp, Outcome, pass, reply, crash, start, rset_session, say}
use powermail.Smtp.Commands.{control_commands, top_commands, first_word_uc}
use powermail.Smtp.Envelope.{eat_from, eat_to}
use powermail.Smtp.Data.{eat_data}
use powermail.Smtp.Lines.{
  is_end, fits, over_quota, over_limit, body_line, end_headers, ends_headers, read_header,
  end_message, delivered, dropped, data_line, eat_data_line,
}
use powermail.Smtp.Session.{or_else, command, give_line, run}
use powermail.Smtp.Session.Steps.{
  SoundIn, Idle, Taking, Inv, top_commands-Idle, eat_from-Idle, eat_to-Idle,
}
use powermail.Smtp.Session.DataSteps.{eat_data-Inv, msg_add_line-Sound}

or_else-rule :
    (P Q : Smtp → Type 0) (m : Outcome × Smtp) (f : Smtp → Outcome × Smtp)
    → P m.1
    → ((s : Smtp) → P s → Q s)
    → ((s : Smtp) → P s → Q (f s).1)
    → Q (or_else m f).1
or_else-rule P Q (pass, s) f p i h = h s p
or_else-rule P Q (reply r k, s) f p i h = i s p
or_else-rule P Q (crash, s) f p i h = i s p

command-Inv : (c : Config) (l : Text) (s : Smtp) → Idle s → Inv (command c l s).1
unfolding command control_commands
command-Inv c l s q =
    let same : (t : Smtp) → Idle t → Idle t = λ t i. i in
    let a = control_commands c l s in
    let b = or_else a (top_commands c l) in
    let d = or_else b (eat_from c l) in
    let e = or_else d (eat_to c l) in
    let hb : Idle b.1 =
      or_else-rule Idle Idle a (top_commands c l) q same (top_commands-Idle c l) in
    let hd : Idle d.1 = or_else-rule Idle Idle b (eat_from c l) hb same (eat_from-Idle c l) in
    let he : Idle e.1 = or_else-rule Idle Idle d (eat_to c l) hd same (eat_to-Idle c l) in
    or_else-rule Inv Inv (or_else e (eat_data c l)) (say (lit "502 Not Implemented"))
      (or_else-rule Idle Inv e (eat_data c l) he (λ t i. inl i) (eat_data-Inv c l)) (λ t i. i)
      (λ t i. i)

end_headers-Sound : (c : Config) (s : Smtp) (m : MegaTalker) → Sound m → Sound (end_headers c s m)
unfolding end_headers
end_headers-Sound c s m q =
    if-rule Sound (starts_with (lit "ahu@") s.sender && not (empty c.advertisement))
      (msg_add_line-Sound _ _ (if-rule Sound s.multipart (msg_add_line-Sound _ m q) q)) q

abbrev SameStage : Smtp → Smtp → Type 0
SameStage s t = (t.indata ≡ s.indata) × (t.fromset ≡ s.fromset)

read_header-SameStage : (l : Text) (s : Smtp) → SameStage s (read_header l s)
unfolding read_header
read_header-SameStage l s =
    if-rule (SameStage s) (starts_with (lit "Subject: ") l) (refl, refl)
      (if-rule (SameStage s) (starts_with (lit "Content-Type: multipart/mixed") l) (refl, refl)
        (refl, refl))

abbrev Within : Smtp → Type 0
Within s = (s.indata ≡ true) × Taking s

body_line-Within :
    (c : Config) (l : Text) (m : MegaTalker) (s : Smtp)
    → Sound m
    → s.indata ≡ true
    → s.fromset ≡ true
    → Within (body_line c l m s)
unfolding body_line
body_line-Within c l m s q d f =
    let m' = if fits s then msg_add_line l m else m in
    let s' = if s.inheaders then read_header l s else s in
    let hm : Sound m' = if-rule Sound (fits s) (msg_add_line-Sound l m q) q in
    let hs : SameStage s s' =
      if-rule (SameStage s) s.inheaders (read_header-SameStage l s) (refl, refl) in
    if-rule Within (s.inheaders && ends_headers l)
      (hs.0 ∙ d, (end_headers c s' m', refl, end_headers-Sound c s' m' hm, hs.1 ∙ f))
      (hs.0 ∙ d, (m', refl, hm, hs.1 ∙ f))

dropped-Inv : (r : Text) (m : MegaTalker) (s : Smtp) → s.indata ≡ false → Inv (dropped r m s).1
unfolding rset_session
dropped-Inv r m s d = inl (tt, d)

delivered-Inv :
    (s : Smtp) (r : Result (Unit {0}) × MegaTalker)
    → Sound r.1
    → s.indata ≡ false
    → Inv (delivered s r).1
unfolding rset_session
delivered-Inv s (throws e, m) q d = inl (q, d)
delivered-Inv s (ok a, m) q d =
    let Q : Outcome × Smtp → Type 0 = λ r. Inv r.1 in
    if-rule Q m.degraded (dropped-Inv [] m s d) (inl (tt, d))

msg_done-Sound : (m : MegaTalker) → Sound m → Sound (msg_done m).1
unfolding apply
msg_done-Sound m q = apply-Sound commit m q

end_message-Inv :
    (c : Config) (m : MegaTalker) (s : Smtp)
    → Sound m
    → s.indata ≡ false
    → Inv (end_message c m s).1
unfolding end_message
end_message-Inv c m s q d =
    let Q : Outcome × Smtp → Type 0 = λ r. Inv r.1 in
    if-rule Q (over_quota s) (dropped-Inv [] m s d) (
      if-rule Q (over_limit c s) (dropped-Inv [] m s d)
        (delivered-Inv s (msg_done m) (msg_done-Sound m q) d))

data_line-Inv :
    (c : Config) (l : Text) (o : Option MegaTalker) (s : Smtp)
    → o ≢ none
    → SoundIn o
    → s.indata ≡ true
    → s.fromset ≡ true
    → Inv (data_line c l o s).1
data_line-Inv c l none s h q d f = absurd (h refl)
data_line-Inv c l (some m) s h q d f =
    let Q : Outcome × Smtp → Type 0 = λ r. Inv r.1 in
    if-rule Q (is_end l) (end_message-Inv c m (record s { indata = false }) q refl)
      (inr (body_line-Within c l m s q d f))

some-ne : {o : Option MegaTalker} (m : MegaTalker) → o ≡ some m → o ≢ none
some-ne m h n = cc

give_line-Inv : (c : Config) (l : Text) (s : Smtp) → Inv s → Inv (give_line c l s).1
unfolding give_line eat_data_line
give_line-Inv c l s (inl q) =
    let Q : Outcome × Smtp → Type 0 = λ r. Inv r.1 in
    if-false Q s.indata _ q.1 (command-Inv c (first_word_uc (strip_line l)) s q)
give_line-Inv c l s (inr (d, (m, h, q, f))) =
    let Q : Outcome × Smtp → Type 0 = λ r. Inv r.1 in
    let q' : SoundIn s.megatalker = rw h q in
    if-true Q s.indata _ d (data_line-Inv c l s.megatalker s (some-ne m h) q' d f)

run-Inv : (c : Config) (ls : List Text) (s : Smtp) → Inv s → Inv (run c ls s)
unfolding run
run-Inv c [] s q = q
run-Inv c (l ∷ ls) s q = run-Inv c ls (give_line c l s).1 (give_line-Inv c l s q)

-- Whatever lines a new session is fed with, it takes in a message only behind MAIL, and with a
-- MegaTalker at hand; and as long as its MegaTalker is not degraded, no backend was given up.
pub run-start-Inv :
    (c : Config) (remote : Text) (sh : Shared) (times : List Text) (counter : ℕ) (ls : List Text)
    → Inv (run c ls (start remote sh times counter))
unfolding start
run-start-Inv c remote sh times counter ls =
    run-Inv c ls (start remote sh times counter) (inl (tt, refl))
