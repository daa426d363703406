-- ===== src/Mega/Deliver/Redundancy.antt =====
-- What a MegaTalker that is not degraded promises.
use powermail.Base.{
  ℕ, zero, suc, ◌+◌, ◌≤◌, ◌<◌, ◌≡◌, refl, ap, ◌∙◌, Bool, true, false, ◌&&◌, ◌||◌, List, [], ◌∷◌,
  inl, inr, arith, Bool-cases, length, All,
}
use powermail.Text.{Text}
use powermail.Net.{Result, ok, throws, Exec}
use powermail.Talker.{Talker}
use powermail.Talker
use powermail.Mega.Shared.{TalkerData, MegaTalker}
use powermail.Mega.Deliver.{
  Round, called, round, any, add_recipient, start_data, msg_add_line, msg_done, verdict, after,
  rollback_all, msg_rollback,
}

abbrev pub AllAlive : List TalkerData → Type 0
AllAlive ds = All (λ d. d.alive ≡ true) ds

-- As long as the MegaTalker is not degraded, no talker was given up.
abbrev pub Sound : MegaTalker → Type 0
Sound m = m.degraded ≡ false → AllAlive m.talkers

-- The call returns on a talker that is alive.
abbrev pub Accepts : Exec Talker (Unit {0}) → TalkerData → Type 0
Accepts call d = (d.alive ≡ true) × ((call d.talker).0 ≡ ok tt)

called-AllAlive :
    (d : TalkerData) (r : Round) (c : Result (Unit {0}) × Talker)
    → d.alive ≡ true
    → (r.failed ≡ false → AllAlive r.talkers)
    → (called d r c).failed ≡ false
    → AllAlive (called d r c).talkers
called-AllAlive d r (ok a, t) h k f = (h, k f)
called-AllAlive d r (throws e, t) h k f = cc

round-AllAlive :
    (only : Talker → Bool) (call : Exec Talker (Unit {0})) (ds : List TalkerData)
    → AllAlive ds
    → (round only call ds).failed ≡ false
    → AllAlive (round only call ds).talkers
unfolding round
round-AllAlive only call [] a f = tt
round-AllAlive only call (d ∷ ds) a f = elim (Bool-cases (d.alive && only d.talker)) [
  | inl e ↦ rw e (
      called-AllAlive d (round only call ds) (call d.talker) a.0 (round-AllAlive only call ds a.1)
        (rw e at f))
  | inr e ↦ rw e (a.0, round-AllAlive only call ds a.1 (rw e at f))
]

after-Sound :
    (only : Talker → Bool) (call : Exec Talker (Unit {0})) (m : MegaTalker)
    → Sound m
    → (m.degraded || (round only call m.talkers).failed) ≡ false
    → AllAlive (round only call m.talkers).talkers
after-Sound only call m s e = round-AllAlive only call m.talkers (s (ground arith)) (ground arith)

rollback_all-AllAlive : (ds : List TalkerData) → AllAlive ds → AllAlive (rollback_all ds)
unfolding rollback_all
rollback_all-AllAlive [] a = tt
rollback_all-AllAlive (d ∷ ds) a = (ground (arith, a.0), rollback_all-AllAlive ds a.1)

verdict-Sound :
    (n : ℕ) (e : Text) (m m' : MegaTalker) → Sound m → Sound m' → Sound (verdict n e m m').1
verdict-Sound zero e m m' h k = h
verdict-Sound (suc n) e m m' h k = k

-- The operations that may give talkers up.
pub data MegaOp : Type 0 where
  recipient : Text → Text → MegaOp
  begin : MegaOp
  line : Text → MegaOp
  commit : MegaOp
  rollback : MegaOp

unfoldable pub apply : MegaOp → MegaTalker → MegaTalker
apply (recipient to index) m = (add_recipient to index m).1
apply begin m = (start_data m).1
apply (line l) m = msg_add_line l m
apply commit m = (msg_done m).1
apply rollback m = msg_rollback m

-- Each operation, also where it throws, keeps it so that a MegaTalker which gave a talker up is
-- degraded.
pub apply-Sound : (o : MegaOp) (m : MegaTalker) → Sound m → Sound (apply o m)
unfolding apply add_recipient start_data msg_add_line msg_done msg_rollback
apply-Sound (recipient to index) m s =
    verdict-Sound _ _ _ _ (after-Sound _ _ m s) (after-Sound _ _ m s)
apply-Sound begin m s = verdict-Sound _ _ _ _ (after-Sound _ _ m s) (after-Sound _ _ m s)
apply-Sound (line l) m s = after-Sound _ _ m s
apply-Sound commit m s = verdict-Sound _ _ _ _ (after-Sound _ _ m s) (after-Sound _ _ m s)
apply-Sound rollback m s = λ d. rollback_all-AllAlive m.talkers (s d)

called-failed :
    (d : TalkerData) (r : Round) (c : Result (Unit {0}) × Talker)
    → (called d r c).failed ≡ false
    → (c.0 ≡ ok tt) × (r.failed ≡ false)
called-failed d r (ok a, t) f = (refl, f)
called-failed d r (throws e, t) f = cc

round-Accepts :
    (call : Exec Talker (Unit {0})) (ds : List TalkerData)
    → AllAlive ds
    → (round any call ds).failed ≡ false
    → All (Accepts call) ds
unfolding round
round-Accepts call [] a f = tt
round-Accepts call (d ∷ ds) a f = elim (Bool-cases (d.alive && any d.talker)) [
  | inr e ↦ absurd (ground (arith, a.0))
  | inl e ↦
      let f' : (called d (round any call ds) (call d.talker)).failed ≡ false = rw e at f in
      let (c, g) = called-failed d (round any call ds) (call d.talker) f' in
      ((a.0, c), round-Accepts call ds a.1 g)
]

called-successes :
    (d : TalkerData) (r : Round) (c : Result (Unit {0}) × Talker)
    → (called d r c).successes ≤ r.successes + 1
called-successes d r (ok a, t) = omega arith
called-successes d r (throws e, t) = omega arith

round-successes :
    (call : Exec Talker (Unit {0})) (ds : List TalkerData)
    → (round any call ds).successes ≤ length ds
unfolding round
round-successes call [] = omega arith
round-successes call (d ∷ ds) =
    ground (arith, round-successes call ds, called-successes d (round any call ds) (call d.talker))

throws-ne-ok : {e : Text} → ¬ (◌≡◌ {A = Result (Unit {0})} (throws e) (ok tt))
throws-ne-ok h = cc

verdict-ok :
    (n : ℕ) (e : Text) (m m' m'' : MegaTalker)
    → verdict n e m m' ≡ (ok tt, m'')
    → (0 < n) × (m' ≡ m'')
verdict-ok zero e m m' m'' h = absurd (throws-ne-ok (ap (λ p. p.0) h))
verdict-ok (suc n) e m m' m'' h = (omega arith, ap (λ p. p.1) h)

-- Where `msgDone` returns on a sound MegaTalker, and it is not degraded then, every talker that it
-- had, and at least one, was alive and acknowledged the commit.
pub msg_done-Accepts :
    (m m' : MegaTalker)
    → Sound m
    → msg_done m ≡ (ok tt, m')
    → m'.degraded ≡ false
    → (0 < length m.talkers) × All (Accepts Talker.msg_done) m.talkers
unfolding msg_done
msg_done-Accepts m m' s h d =
    let r = round any Talker.msg_done m.talkers in
    let (pos, e) = verdict-ok r.successes _ _ (after m r) m' h in
    let d' : (m.degraded || r.failed) ≡ false = ap (λ x. x.degraded) e ∙ d in
    (
      omega (arith, round-successes Talker.msg_done m.talkers, pos),
      round-Accepts Talker.msg_done m.talkers (s (ground arith)) (ground arith),
    )
