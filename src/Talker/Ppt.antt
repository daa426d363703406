-- ===== src/Talker/Ppt.antt =====
-- pptalker.cc: the client of a pplistener. `d_usage` is counted down and never read; it is left out.
use powermail.Base.{
  ℕ, ◌-◌, ◌%◌, ◌^◌, min, Bool, true, false, List, [], ◌∷◌, ◌++◌, Option, none, some, ltb, ◌==◌,
  if◌then◌else◌, get_elem?,
}
use powermail.Text.{Text, lit, eq, starts_with, contains}
use powermail.Text.Tokens.{stringtok}
use powermail.Text.Number.{utoa, digits_value}
use powermail.Net.{
  Result, ok, throws, Exec, pure, throw, ◌>>=◌, ◌>>◌, Io, done, failed, Conn, get_line, put_line,
}

pub record PpTalker : Type 0 where
  pub conn : Conn
  pub inmsg : Bool
  pub ppname : Text

-- A call on the session, with the `catch` that stands around all such calls of a method: its
-- exception comes out as a TalkerException, with the method's text in front of the reason.
abbrev pub caught : {A : Type 0} → Text → PpTalker → Result A × Conn → Result A × PpTalker
caught p t (ok a, c) = (ok a, record t { conn = c })
caught p t (throws r, c) = (throws (p ++ r), record t { conn = c })

unfoldable pub put : Text → Text → Exec PpTalker (Unit {0})
put p line t = caught p t (put_line line t.conn)

unfoldable pub get : Text → Exec PpTalker Text
get p t = caught p t (get_line t.conn)

abbrev session_error : Text
session_error = lit "Session Error: "

-- `if(line.find("+OK")) throw …`
abbrev pub expect : Text → Text → Exec PpTalker (Unit {0})
expect line r = if starts_with (lit "+OK") line then pure tt else throw r

-- The constructor, on a connection that was opened; the source then owns the session.
unfoldable pub connect : Text → ℕ → Text → Conn → Result (Unit {0}) × PpTalker
unfolding put get
connect dest port password c =
    (do
      line ← get []
      expect line (lit "Unable to connect: " ++ line)
      put [] (lit "pass " ++ (password ++ lit "\n"))
      answer ← get []
      expect answer
          (lit "Unable to authenticate with password '" ++ (password ++ (lit "': " ++ answer))))
      (record { conn = c; inmsg = false; ppname = dest ++ (lit ":" ++ utoa port) })

unfoldable pub add_recipient : Text → Text → Exec PpTalker (Unit {0})
add_recipient recip index = do
  put session_error (lit "rcpt " ++ (recip ++ (lit " " ++ (index ++ lit "\n"))))
  line ← get session_error
  expect line (lit "Unable to add recipient: '" ++ (recip ++ (lit "' " ++ line)))

unfoldable pub del_msg : Text → Text → Exec PpTalker (Unit {0})
del_msg recip index = do
  put session_error (lit "del " ++ (recip ++ (lit " " ++ (index ++ lit "\n"))))
  line ← get session_error
  expect line
      (lit "Unable to delete '" ++ (index ++ (lit "' from mailbox '" ++ (recip ++ lit "'"))))

unfoldable pub nuke_mbox : Text → Exec PpTalker (Unit {0})
nuke_mbox mbox = do
  put (lit "Session Error nuking mailbox: ") (lit "nuke " ++ (mbox ++ lit "\n"))
  line ← get (lit "Session Error nuking mailbox: ")
  expect line (lit "Unable to purge mailbox '" ++ (mbox ++ (lit "': " ++ line)))

abbrev set_inmsg : Exec PpTalker (Unit {0})
set_inmsg t = (ok tt, record t { inmsg = true })

unfoldable pub start_data : Exec PpTalker (Unit {0})
start_data = do
  put (lit "Session Error adding a line: ") (lit "put\n")
  line ← get (lit "Session Error adding a line: ")
  expect line (lit "Unable start sending message data: " ++ line)
  set_inmsg

-- `if(!d_inmsg++) startData();`
unfoldable pub ensure_data : Exec PpTalker (Unit {0})
ensure_data t = if t.inmsg then (ok tt, t) else start_data (record t { inmsg = true })

unfoldable pub msg_add_line : Text → Exec PpTalker (Unit {0})
msg_add_line line = do ensure_data; put (lit "Session Error adding a line: ") line

unfoldable pub set_readonly : Bool → Exec PpTalker (Unit {0})
set_readonly flag = do
  put (lit "Session Error during readonly change: ")
      (if flag then lit "readonly\n" else lit "readwrite\n")
  line ← get (lit "Session Error during readonly change: ")
  expect line (lit "Unable to set readonly state: " ++ line)

-- One line of a listing.
pub record MsgInfo : Type 0 where
  pub index : Text
  pub size : ℕ

abbrev word_or_nil : Option Text → Text
word_or_nil none = []
word_or_nil (some w) = w

-- The size_t that `istringstream >>` makes of digits behind their sign: it stops at the largest
-- one, a minus wraps around, and what is no number reads as 0.
unfoldable pub size_value : ℕ → ℕ
size_value n = min n (2 ^ 64 - 1)

unfoldable pub read_size : Text → ℕ
unfolding size_value
read_size [] = 0
read_size (c ∷ s) =
    if c == b'-'
    then (if ltb (digits_value 0 s) (2 ^ 64)
        then (2 ^ 64 - digits_value 0 s) % 2 ^ 64
        else 2 ^ 64 - 1)
    else if c == b'+'
    then size_value (digits_value 0 s)
    else size_value (digits_value 0 (c ∷ s))

-- `istringstream >>` stops at each of the bytes of `isspace`.
unfoldable pub parse_msg_info : Text → MsgInfo
unfolding read_size
parse_msg_info line =
    let words = stringtok (11 ∷ 12 ∷ lit " \t\n\r") line in
    record {
      index = word_or_nil (get_elem? words 0);
      size = read_size (word_or_nil (get_elem? words 1));
    }

-- The loop of `getMsgs`, from the next line on: each round takes one entry of the script.
unfoldable pub read_listing : List Io → List MsgInfo → Result (List MsgInfo) × List Io
unfolding parse_msg_info
read_listing [] acc = (throws (lit "Connection closed by foreign host"), [])
read_listing (failed e ∷ s) acc = (throws e, s)
read_listing (done line ∷ s) acc =
    if eq line (lit ".\n") then (ok acc, s) else read_listing s (acc ++ (parse_msg_info line ∷ []))

abbrev pub caught_io : {A : Type 0} → Text → PpTalker → Result A × List Io → Result A × PpTalker
caught_io p t (ok a, s) = (ok a, record t { conn = record { script = s; sent = t.conn.sent } })
caught_io p t (throws r, s) =
    (throws (p ++ r), record t { conn = record { script = s; sent = t.conn.sent } })

abbrev listing : Exec PpTalker (List MsgInfo)
listing t = caught_io (lit "Session Error adding a line: ") t (read_listing t.conn.script [])

unfoldable pub get_msgs : Text → Exec PpTalker (List MsgInfo)
unfolding put get read_listing
get_msgs mbox = do
  put (lit "Session Error adding a line: ") (lit "ls " ++ (mbox ++ lit "\n"))
  line ← get (lit "Session Error adding a line: ")
  expect line (lit "Unable to list mailbox '" ++ (mbox ++ (lit "': " ++ line)))
  listing

-- Whether the backend says that it is readonly.
unfoldable pub ping : Exec PpTalker Bool
ping = do
  put (lit "Session Error doing ping: ") (lit "ping\n")
  line ← get (lit "Session Error doing ping: ")
  expect line (lit "Remote indicated error accepting ping: " ++ line)
  pure (contains (lit "READONLY") line)

unfoldable pub msg_done : Exec PpTalker (Unit {0})
msg_done = do
  put (lit "Session Error adding a line: ") (lit ".\n")
  line ← get (lit "Session Error adding a line: ")
  expect line (lit "Remote indicated error accepting message: " ++ line)
  put (lit "Session Error adding a line: ") (lit "commit\n")
  answer ← get (lit "Session Error adding a line: ")
  expect answer (lit "Remote indicated error accepting committing message: " ++ answer)

-- `catch(AhuException &e) {}`
abbrev swallow : Result (Unit {0}) × PpTalker → Result (Unit {0}) × PpTalker
swallow (_, t) = (ok tt, t)

abbrev ignore_line : Text → Exec PpTalker (Unit {0})
ignore_line line = pure tt

abbrev rollback_answer : Text → Exec PpTalker (Unit {0})
rollback_answer line =
    if starts_with (lit "+OK") line
    then (do put [] (lit "rollback\n"); answer ← get []; ignore_line answer)
    else pure tt

unfoldable pub msg_rollback : Exec PpTalker (Unit {0})
unfolding put get
msg_rollback t = swallow ((do put [] (lit ".\n"); line ← get []; rollback_answer line) t)
