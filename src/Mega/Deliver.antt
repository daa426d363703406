-- ===== src/Mega/Deliver.antt =====
-- A message on its way, in megatalker.cc: each call is a loop over the talkers that are still alive.
pub mod Redundancy
use powermail.Base.{
  ℕ, zero, suc, ◌+◌, Bool, true, false, ◌&&◌, ◌||◌, List, [], ◌∷◌, ◌++◌, ◌==◌, if◌then◌else◌,
}
use powermail.Text.{Text, lit}
use powermail.Text.Number.{utoa}
use powermail.Net.{Result, ok, throws, Exec}
use powermail.Talker.{Talker, pp, smtp}
use powermail.Talker
use powermail.Mega.Shared.{TalkerData, MegaTalker}

-- What a loop has done: the talkers behind it, how many calls returned, and whether one threw.
pub record Round : Type 0 where
  pub talkers : List TalkerData
  pub successes : ℕ
  pub failed : Bool

-- `i->ok=false` on an exception.
abbrev pub called : TalkerData → Round → Result (Unit {0}) × Talker → Round
called d r (ok _, t) = record {
  talkers = record d { talker = t } ∷ r.talkers;
  successes = r.successes + 1;
  failed = r.failed;
}
called d r (throws e, t) = record {
  talkers = record d { talker = t; alive = false } ∷ r.talkers;
  successes = r.successes;
  failed = true;
}

abbrev pub skipped : TalkerData → Round → Round
skipped d r = record r { talkers = d ∷ r.talkers }

-- The loop: `only` are the talkers that the call is made on.
unfoldable pub round : (Talker → Bool) → Exec Talker (Unit {0}) → List TalkerData → Round
round only call [] = record { talkers = []; successes = 0; failed = false }
round only call (d ∷ ds) =
    if d.alive && only d.talker
    then called d (round only call ds) (call d.talker)
    else skipped d (round only call ds)

abbrev pub after : MegaTalker → Round → MegaTalker
after m r = record m { talkers = r.talkers; degraded = m.degraded || r.failed }

-- `dynamic_cast<PPTalker *>(i->talker)`
abbrev pub is_pp : Talker → Bool
is_pp (pp t) = true
is_pp (smtp t) = false

abbrev pub any : Talker → Bool
any t = true

-- `if(!success) throw …`, with the state that the call leaves when it throws and when it returns.
abbrev pub verdict : ℕ → Text → MegaTalker → MegaTalker → Result (Unit {0}) × MegaTalker
verdict zero e m m' = (throws e, m)
verdict (suc n) e m m' = (ok tt, m')

unfoldable pub add_recipient : Text → Text → MegaTalker → Result (Unit {0}) × MegaTalker
add_recipient recip index m =
    let n = m.msgnum + 1 in
    let r = round is_pp (Talker.add_recipient recip (index ++ (lit "." ++ utoa n))) m.talkers in
    let m' = after (record m { msgnum = n }) r in
    verdict r.successes (lit "Not a single backend accepted recipient") m'
      (record m' { index = index })

unfoldable pub start_data : MegaTalker → Result (Unit {0}) × MegaTalker
start_data m =
    let r = round any Talker.start_data m.talkers in
    verdict r.successes (lit "When sending start data command, not a single backend responded ok")
      (after m r) (after m r)

unfoldable pub msg_add_line : Text → MegaTalker → MegaTalker
msg_add_line line m = after m (round any (Talker.msg_add_line line) m.talkers)

unfoldable pub msg_done : MegaTalker → Result (Unit {0}) × MegaTalker
msg_done m =
    let r = round any Talker.msg_done m.talkers in
    verdict r.successes
      (lit "Did not deliver a single instance of message <" ++ (m.index ++ lit ">")) (after m r)
      (after m r)

-- An exception of a rollback is logged only: the talker stays as it is.
abbrev rolled_back : TalkerData → Result (Unit {0}) × Talker → TalkerData
rolled_back d (_, t) = record d { talker = t }

unfoldable pub rollback_all : List TalkerData → List TalkerData
rollback_all [] = []
rollback_all (d ∷ ds) =
    (if d.alive then rolled_back d (Talker.msg_rollback d.talker) else d) ∷ rollback_all ds

unfoldable pub msg_rollback : MegaTalker → MegaTalker
msg_rollback m = record m { talkers = rollback_all m.talkers }
