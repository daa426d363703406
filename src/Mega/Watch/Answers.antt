-- ===== src/Mega/Watch/Answers.antt =====
-- That a backend which is up behind a round of `doStateThread` of megatalker.cc answered its ping.
use powermail.Base.{
  ◌≡◌, ◌≢◌, refl, ◌⊎◌, inl, inr, Bool, true, false, List, [], ◌∷◌, Option, none, some,
  if◌then◌else◌, if-rule, Bool-cases,
}
use powermail.Text.{Text}
use powermail.Net.{Result, ok, throws}
use powermail.Talker.Ppt.{PpTalker}
use powermail.Talker.Ppt
use powermail.Talker.Status.{Status}
use powermail.Talker.Status
use powermail.Backend.{TargetData}
use powermail.Mega.Shared.{Dial, refused, opened}
use powermail.Mega.Failures.{Files}
use powermail.Mega.Watch.{
  Round, stat_due, loaded, stated, stat_up, pinged_up, check_up, replay, stat_down, pinged_down,
  connected, dialled, check, check_all,
}

-- Where a backend is up, what it is in being readonly has a property.
abbrev Up : (Bool → Type 0) → TargetData → Type 0
Up P t = t.up ≡ true → P t.readonly

module _ (P : Bool → Type 0) (r : Round) where
  loaded-Up : (t : TargetData) (l : Option Text) → Up P t → Up P (loaded r t l)
  loaded-Up t none h = h
  loaded-Up t (some l) h = h

  stat_up-Up : (t : TargetData) (x : Result Status × PpTalker) → Up P t → Up P (stat_up r t x)
  stat_up-Up t (ok s, p) h = loaded-Up (record t { kbfree = s.kbytes; pp_talker = p }) s.load h
  stat_up-Up t (throws e, p) h = λ k. cc

  pinged_up-Up :
      (t : TargetData) (x : Result Bool × PpTalker)
      → ((ro : Bool) → x.0 ≡ ok ro → P ro)
      → Up P (pinged_up r t x)
  pinged_up-Up t (throws e, p) h = λ k. cc
  pinged_up-Up t (ok ro, p) h =
      let u : TargetData = record t { readonly = ro; pp_talker = p } in
      if-rule (Up P) (stat_due r) (stat_up-Up u (Status.stat p) (λ k. h ro refl)) (λ k. h ro refl)

  replay-Up : (t : TargetData) (fs : Files) → Up P t → Up P (replay r t fs).0
  replay-Up t fs h = if-rule (λ (x : TargetData × Files). Up P x.0) r.statedir h h

  stat_down-Up :
      (t : TargetData) (fs : Files) (x : Result Status × PpTalker)
      → Up P t
      → Up P (stat_down r t fs x).0
  stat_down-Up t fs (ok s, p) h =
      replay-Up (stated r t s p) fs
        (loaded-Up (record t { kbfree = s.kbytes; pp_talker = p }) s.load h)
  stat_down-Up t fs (throws e, p) h = h

  pinged_down-Up :
      (t : TargetData) (fs : Files) (x : Result Bool × PpTalker)
      → t.up ≢ true
      → ((ro : Bool) → x.0 ≡ ok ro → P ro)
      → Up P (pinged_down r t fs x).0
  pinged_down-Up t fs (throws e, p) n h = λ k. absurd (n k)
  pinged_down-Up t fs (ok ro, p) n h =
      let u : TargetData = record t { readonly = ro; up = true; error = []; pp_talker = p } in
      if-rule (λ (x : TargetData × Files). Up P x.0) (stat_due r)
        (stat_down-Up u fs (Status.stat p) (λ k. h ro refl)) (replay-Up u fs (λ k. h ro refl))

-- What makes a backend with this value of `readonly` be up: its talker answered a ping so, or, for
-- one that was down, the connection that was dialled came about, and with the password of the
-- backend a talker that answered a ping so.
abbrev pub Answers : Dial → TargetData → Bool → Type 0
Answers (refused e) t ro = (t.up ≡ true) × ((Ppt.ping t.pp_talker).0 ≡ ok ro)
Answers (opened io) t ro =
    ((t.up ≡ true) × ((Ppt.ping t.pp_talker).0 ≡ ok ro))
    ⊎ ((t.up ≡ false)
        × (let c = Ppt.connect t.address t.port t.password (record { script = io; sent = [] }) in
            (c.0 ≡ ok tt) × ((Ppt.ping c.1).0 ≡ ok ro)))

-- Of a backend before and after a round.
abbrev pub Answered : Dial → TargetData → TargetData → Type 0
Answered d t u = (u.up ≡ false) ⊎ Answers d t u.readonly

Up-Answered : (d : Dial) (t u : TargetData) → Up (Answers d t) u → Answered d t u
Up-Answered d t u h = elim (Bool-cases u.up) [ inl e ↦ inr (h e) | inr e ↦ inl e ]

connected-Up :
    (P : Bool → Type 0) (r : Round) (t : TargetData) (fs : Files) (x : Result (Unit {0}) × PpTalker)
    → t.up ≢ true
    → (x.0 ≡ ok tt → (ro : Bool) → (Ppt.ping x.1).0 ≡ ok ro → P ro)
    → Up P (connected r t fs x).0
connected-Up P r t fs (throws e, p) n h = λ k. absurd (n k)
connected-Up P r t fs (ok _, p) n h = pinged_down-Up P r t fs (Ppt.ping p) n (h refl)

dialled-Up :
    (r : Round) (t : TargetData) (fs : Files) (d : Dial)
    → t.up ≡ false
    → t.up ≢ true
    → Up (Answers d t) (dialled r t fs d).0
dialled-Up r t fs (refused e) f n = λ k. absurd (n k)
dialled-Up r t fs (opened io) f n =
    connected-Up (Answers (opened io) t) r t fs
      (Ppt.connect t.address t.port t.password (record { script = io; sent = [] })) n
      (λ c ro e. inr (f, (c, e)))

pinged-Answers :
    (d : Dial) (t : TargetData) (ro : Bool)
    → t.up ≡ true
    → (Ppt.ping t.pp_talker).0 ≡ ok ro
    → Answers d t ro
pinged-Answers (refused e) t ro u h = (u, h)
pinged-Answers (opened io) t ro u h = inl (u, h)

check-Up :
    (r : Round) (d : Dial) (t : TargetData) (fs : Files) → Up (Answers d t) (check r d t fs).0
unfolding check check_up
check-Up r d t fs = by_up t.up refl
  where
    by_up :
        (b : Bool)
        → t.up ≡ b
        → Up (Answers d t) (if b then (check_up r t, fs) else dialled r t fs d).0
    by_up true e =
        pinged_up-Up (Answers d t) r t (Ppt.ping t.pp_talker) (λ ro h. pinged-Answers d t ro e h)
    by_up false e = dialled-Up r t fs d e (λ k. cc)

-- The backends behind a round, one for each before it.
abbrev pub AllAnswered : List (Dial × TargetData) → List TargetData → Type 0
AllAnswered [] [] = Unit
AllAnswered ((d, t) ∷ ts) (u ∷ us) = Answered d t u × AllAnswered ts us
AllAnswered _ _ = ⊥

-- Behind a round over all backends, each that is up either was up, and its talker answered the ping
-- of this round, or was down, and the connection that was dialled for it came about and yielded a
-- talker that answered the ping; and it is readonly as that answer said.
pub check_all-Answered :
    (r : Round) (ts : List (Dial × TargetData)) (fs : Files) → AllAnswered ts (check_all r ts fs).0
unfolding check_all
check_all-Answered r [] fs = tt
check_all-Answered r ((d, t) ∷ ts) fs = (
  Up-Answered d t (check r d t fs).0 (check-Up r d t fs),
  check_all-Answered r ts (check r d t fs).1,
)
