-- ===== src/Talker.antt =====
-- The talkers of talker.hh: clients of a pplistener and of an SMTP sender.
pub mod Ppt
pub mod Smtpt
pub mod Retrieve
pub mod Status
use powermail.Base.{◌++◌}
use powermail.Text.{Text}
use powermail.Net.{Result, ok, throws, Exec}
use Ppt.{PpTalker}
use Ppt
use Smtpt.{SmtpTalker}
use Smtpt

pub data Talker : Type 0 where
  pp : PpTalker → Talker
  smtp : SmtpTalker → Talker

-- A virtual call.
abbrev on_pp : {A : Type 0} → Result A × PpTalker → Result A × Talker
on_pp (r, t) = (r, pp t)

abbrev on_smtp : {A : Type 0} → Result A × SmtpTalker → Result A × Talker
on_smtp (r, t) = (r, smtp t)

unfoldable pub add_recipient : Text → Text → Exec Talker (Unit {0})
add_recipient recip index (pp t) = on_pp (Ppt.add_recipient recip index t)
add_recipient recip index (smtp t) = on_smtp (Smtpt.add_recipient recip index t)

unfoldable pub start_data : Exec Talker (Unit {0})
start_data (pp t) = on_pp (Ppt.start_data t)
start_data (smtp t) = on_smtp (Smtpt.start_data t)

unfoldable pub msg_add_line : Text → Exec Talker (Unit {0})
msg_add_line line (pp t) = on_pp (Ppt.msg_add_line line t)
msg_add_line line (smtp t) = on_smtp (Smtpt.msg_add_line line t)

unfoldable pub msg_done : Exec Talker (Unit {0})
msg_done (pp t) = on_pp (Ppt.msg_done t)
msg_done (smtp t) = on_smtp (Smtpt.msg_done t)

unfoldable pub msg_rollback : Exec Talker (Unit {0})
msg_rollback (pp t) = on_pp (Ppt.msg_rollback t)
msg_rollback (smtp t) = on_smtp (Smtpt.msg_rollback t)
