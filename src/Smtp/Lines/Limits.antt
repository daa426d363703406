-- ===== src/Smtp/Lines/Limits.antt =====
-- The quota and the size limits of smtpsession.cc.
use powermail.Base.{◌≡◌, refl, Bool, true, false, ◌&&◌, some, arith}
use powermail.Base.Int.{ℤ, pos, ltb_ℤ}
use powermail.Text.{Text}
use powermail.Mega.Shared.{MegaTalker}
use powermail.Mega.Deliver.{msg_done}
use powermail.Smtp.{Config, Smtp}
use powermail.Smtp.Lines.{
  kilobytes, fits, over_quota, over_limit, body_line, end_message, delivered,
}

ltb_ℤ-irrefl : (a : ℤ) → ltb_ℤ a a ≡ false
ltb_ℤ-irrefl (pos n) = ground arith
ltb_ℤ-irrefl _ = ground arith

at_quota-fits : (s : Smtp) → s.quotaneeded ≡ true → kilobytes s ≡ s.kbroom → fits s ≡ false
unfolding fits
at_quota-fits s q k = simp (q, k) (ltb_ℤ-irrefl s.kbroom)

at_quota-over_quota : (s : Smtp) → kilobytes s ≡ s.kbroom → over_quota s ≡ false
unfolding over_quota
at_quota-over_quota s k = simp k (go s.quotaneeded)
  where
    go : (b : Bool) → (b && ltb_ℤ s.kbroom s.kbroom) ≡ false
    go true = ltb_ℤ-irrefl s.kbroom
    go false = refl

-- Where the bytes so far fill the quota exactly, in kilobytes, a body line is not passed on to the
-- backends, and still the dot does not take the message for too large: it goes on to the commit.
pub at_quota_lem :
    (c : Config) (l : Text) (m : MegaTalker) (s : Smtp)
    → s.quotaneeded ≡ true
    → s.inheaders ≡ false
    → kilobytes s ≡ s.kbroom
    → over_limit c s ≡ false
    → ((body_line c l m s).megatalker ≡ some m) × (end_message c m s ≡ delivered s (msg_done m))
unfolding body_line end_message
at_quota_lem c l m s q h k o =
    (simp (h, at_quota-fits s q k) refl, simp (at_quota-over_quota s k, o) refl)
