-- ===== src/Smtp/Session/Stored.antt =====
-- What a response of smtpsession.cc promises for a message.
use powermail.Base.{
  ℕ, ◌<◌, ◌≡◌, refl, sym, ◌∙◌, inl, inr, Bool, true, false, List, ◌++◌, Option, none, some,
  Bool-cases, length, All,
}
use powermail.Text.{Text, lit, starts_with}
use powermail.Net.{Result, ok, throws}
use powermail.Talker
use powermail.Mega.Shared.{Shared, MegaTalker}
use powermail.Mega.Deliver.{msg_done}
use powermail.Mega.Deliver.Redundancy.{Sound, Accepts, msg_done-Accepts}
use powermail.Smtp.{Config, Smtp, Outcome, pass, reply, crash, start, rset_session}
use powermail.Smtp.Lines.{
  kilobytes, is_end, kilobytes, over_quota, over_limit, end_message, delivered, dropped, data_line,
  eat_data_line,
}
use powermail.Smtp.Session.{give_line, run}
use powermail.Smtp.Session.Steps.{SoundIn, Inv}
use powermail.Smtp.Session.Delivery.{run-start-Inv}

false-ne-true : ◌≡◌ {A = Bool} false true → ⊥
false-ne-true h = cc

-- A response that starts with 250.
abbrev pub Positive : Outcome → Type 0
Positive pass = ⊥
Positive (reply r k) = starts_with (lit "250") r ≡ true
Positive crash = ⊥

Positive-dropped :
    (m : MegaTalker) (s : Smtp) (r : Text)
    → Positive (dropped (lit "552 Message of " ++ r) m s).0
    → ⊥
unfolding lit starts_with
Positive-dropped m s r h = cc

-- The message is on every backend that was connected for it, and there is one.
abbrev pub Stored : MegaTalker → Type 0
Stored m = (0 < length m.talkers) × All (Accepts Talker.msg_done) m.talkers

delivered-Stored :
    (s : Smtp) (m : MegaTalker) (r : Result (Unit {0}) × MegaTalker)
    → Sound m
    → msg_done m ≡ r
    → Positive (delivered s r).0
    → Stored m × ((delivered s r).1 ≡ rset_session s)
unfolding lit starts_with
delivered-Stored s m (throws e, m') q h p = absurd (false-ne-true p)
delivered-Stored s m (ok a, m') q h p = elim (Bool-cases m'.degraded) [
  | inl e ↦ absurd (false-ne-true (simp e at p))
  | inr e ↦ (msg_done-Accepts m m' q h e, simp e refl)
]

end_message-Stored :
    (c : Config) (m : MegaTalker) (s : Smtp)
    → Sound m
    → Positive (end_message c m s).0
    → Stored m
      × (over_quota s ≡ false)
      × (over_limit c s ≡ false)
      × ((end_message c m s).1 ≡ rset_session s)
unfolding end_message
end_message-Stored c m s q p = elim (Bool-cases (over_quota s)) [
  | inl e ↦ absurd (Positive-dropped m s _ (rw e at p))
  | inr e ↦ elim (Bool-cases (over_limit c s)) [
    | inl f ↦ absurd (Positive-dropped m s _ (rw (e, f) at p))
    | inr f ↦
        let (a, b) = delivered-Stored s m (msg_done m) q refl (rw (e, f) at p) in
        (a, e, f, rw (e, f) b)
  ]
]

abbrev pub StoredIn : Option MegaTalker → Type 0
StoredIn none = ⊥
StoredIn (some m) = Stored m

-- The line ends the session's message, which is within the limits and on the backends; `t` is the
-- session after it.
abbrev pub Delivers : Config → Text → Smtp → Smtp → Type 0
Delivers c l s t =
    (is_end l ≡ true)
    × StoredIn s.megatalker
    × (over_quota s ≡ false)
    × (over_limit c s ≡ false)
    × (t ≡ rset_session (record s { indata = false }))

data_line-Delivers :
    (c : Config) (l : Text) (o : Option MegaTalker) (s : Smtp)
    → SoundIn o
    → Positive (data_line c l o s).0
    → (is_end l ≡ true)
      × StoredIn o
      × (over_quota s ≡ false)
      × (over_limit c s ≡ false)
      × ((data_line c l o s).1 ≡ rset_session (record s { indata = false }))
unfolding over_quota over_limit kilobytes
data_line-Delivers c l none s q p = absurd p
data_line-Delivers c l (some m) s q p = elim (Bool-cases (is_end l)) [
  | inr e ↦ absurd (rw e at p)
  | inl e ↦
      let (a, b, f, g) = end_message-Stored c m (record s { indata = false }) q (rw e at p) in
      (e, a, b, f, rw e g)
]

Taking-Delivers :
    (c : Config) (l : Text) (s : Smtp)
    → Inv s
    → s.indata ≡ true
    → Positive (give_line c l s).0
    → Delivers c l s (give_line c l s).1
unfolding give_line eat_data_line
Taking-Delivers c l s (inl q) d p = absurd (false-ne-true (sym q.1 ∙ d))
Taking-Delivers c l s (inr (e, (m, h, q, f))) d p =
    let q' : SoundIn s.megatalker = rw h q in
    simp d (data_line-Delivers c l s.megatalker s q' (simp d at p))

-- Feed a new session any lines, and let it then be taking in a message. Where the next line gets a
-- response that starts with 250, that line is the dot, the message is within the quota and the
-- size limit, at least one backend is connected, all that are acknowledged the commit, and
-- the session is reset.
pub run-Delivers :
    (c : Config) (remote : Text) (sh : Shared) (times : List Text) (counter : ℕ) (ls : List Text)
    (l : Text)
    → (run c ls (start remote sh times counter)).indata ≡ true
    → Positive (give_line c l (run c ls (start remote sh times counter))).0
    → Delivers c l
        (run c ls (start remote sh times counter))
        (give_line c l (run c ls (start remote sh times counter))).1
run-Delivers c remote sh times counter ls l d p =
    Taking-Delivers c l (run c ls (start remote sh times counter))
      (run-start-Inv c remote sh times counter ls) d p
