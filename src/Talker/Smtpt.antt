-- ===== src/Talker/Smtpt.antt =====
-- smtptalker.cc: the client of the SMTP server that forwards go to. The constructor's failures
-- close the session.
use powermail.Base.{Bool, true, false, ◌++◌, if◌then◌else◌}
use powermail.Text.{Text, lit, starts_with}
use powermail.Text.Clean.{strip_line}
use powermail.Net.{Result, ok, throws, Exec, pure, throw, ◌>>=◌, ◌>>◌, Conn, get_line, put_line}

pub record SmtpTalker : Type 0 where
  pub conn : Conn
  pub inmsg : Bool
  pub closed : Bool

abbrev caught : {A : Type 0} → Text → SmtpTalker → Result A × Conn → Result A × SmtpTalker
caught p t (ok a, c) = (ok a, record t { conn = c })
caught p t (throws r, c) = (throws (p ++ r), record t { conn = c })

unfoldable pub put : Text → Text → Exec SmtpTalker (Unit {0})
put p line t = caught p t (put_line line t.conn)

unfoldable pub get : Text → Exec SmtpTalker Text
get p t = caught p t (get_line t.conn)

-- `if(line.find(code)) throw …`
abbrev expect : Text → Text → Text → Exec SmtpTalker (Unit {0})
expect code line r = if starts_with code line then pure tt else throw r

abbrev connecting : Text
connecting = lit "Session error connecting: "

abbrev no_helo : Text
no_helo = lit "Sent HELO, did not get correct response: "

unfoldable pub connect : Text → Text → Conn → Result (Unit {0}) × SmtpTalker
unfolding put get
connect hostname from c =
    (do
      line ← get connecting
      expect (lit "220 ") line (lit "Unable to connect: " ++ line)
      put connecting (lit "HELO " ++ (hostname ++ lit "\r\n"))
      helo ← get connecting
      expect (lit "2") helo (no_helo ++ helo)
      put connecting (lit "MAIL From:<" ++ (from ++ lit ">\r\n"))
      mail ← get connecting
      expect (lit "2") mail (no_helo ++ mail))
      (record { conn = c; inmsg = false; closed = false })

abbrev set_inmsg : Exec SmtpTalker (Unit {0})
set_inmsg t = (ok tt, record t { inmsg = true })

abbrev announce_data : Exec SmtpTalker (Unit {0})
announce_data = do
  put (lit "Session Error adding a line: ") (lit "DATA\r\n")
  line ← get (lit "Session Error adding a line: ")
  expect (lit "3") line (lit "Unable start sending message data: " ++ line)
  set_inmsg

unfoldable pub start_data : Exec SmtpTalker (Unit {0})
start_data t = if t.inmsg then (ok tt, t) else announce_data t

abbrev single : Exec SmtpTalker (Unit {0})
single t =
    if t.inmsg
    then (throws (lit "SmtpTalker accepts only a single recipient at a time!"), t)
    else (ok tt, t)

unfoldable pub add_recipient : Text → Text → Exec SmtpTalker (Unit {0})
add_recipient recip _ = do
  single
  put (lit "Session Error: ") (lit "rcpt to:<" ++ (recip ++ lit ">\r\n"))
  line ← get (lit "Session Error: ")
  expect (lit "2") line (lit "Unable to add recipient: '" ++ (recip ++ (lit "' " ++ line)))
  start_data

-- `if(!d_inmsg++) startData();`: the flag is set by then, so that `startData` does nothing.
unfoldable pub ensure_data : Exec SmtpTalker (Unit {0})
ensure_data t = if t.inmsg then (ok tt, t) else start_data (record t { inmsg = true })

unfoldable pub msg_add_line : Text → Exec SmtpTalker (Unit {0})
msg_add_line line = do ensure_data; put (lit "Session Error adding a line: ") line

unfoldable pub msg_done : Exec SmtpTalker (Unit {0})
msg_done = do
  put (lit "Session Error committing message: ") (lit ".\r\n")
  line ← get (lit "Session Error committing message: ")
  expect (lit "2") line (lit "Remote indicated error accepting message: " ++ strip_line line)

-- `close()`; the session takes no more calls.
unfoldable pub msg_rollback : Exec SmtpTalker (Unit {0})
msg_rollback t = (ok tt, record t { closed = true })
