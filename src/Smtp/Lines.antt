-- ===== src/Smtp/Lines.antt =====
-- `eatDataLine` of smtpsession.cc: a line of a message, and the dot that ends it.
pub mod Limits
use powermail.Base.{
  ℕ, ◌+◌, ◌/◌, ◌%◌, ◌^◌, Bool, true, false, not, ◌&&◌, ◌||◌, List, [], ◌∷◌, ◌++◌, Option, none,
  some, if◌then◌else◌, ◌==◌, drop, length,
}
use powermail.Base.Int.{ℤ, ltb_ℤ, to_int32}
use powermail.Text.{Text, lit, empty, starts_with, find, before, char_at}
use powermail.Text.Clean.{chomp}
use powermail.Text.Number.{itoa}
use powermail.Net.{Result, ok, throws}
use powermail.Mega.Shared.{MegaTalker}
use powermail.Mega.Deliver.{msg_add_line, msg_done, msg_rollback}
use powermail.Smtp.{Config, Smtp, Outcome, pass, crash, say, rset_session, max_msg}
use powermail.Smtp.Commands.{is_zero}

unfoldable pub is_end : Text → Bool
is_end line = char_at line 0 == b'.' && (char_at line 1 == b'\r' || char_at line 1 == b'\n')

-- `(signed int)(d_databytes/1000)`
unfoldable pub kilobytes : Smtp → ℤ
kilobytes s = to_int32 (s.databytes / 1000)

-- The guard of the line's `msgAddLine`.
unfoldable pub fits : Smtp → Bool
fits s = not s.quotaneeded || ltb_ℤ (kilobytes s) s.kbroom

abbrev boundary_of : Text → Option ℕ → Text → Text
boundary_of line none old = old
boundary_of line (some i) old = before (b'"' ∷ []) (drop (i + 10) line)

unfoldable pub read_header : Text → Smtp → Smtp
read_header line s =
    if starts_with (lit "Subject: ") line
    then record s { subject = chomp (lit "\r\n ") (drop 9 line) }
    else if starts_with (lit "Content-Type: multipart/mixed") line
    then record s {
      boundary = boundary_of line (find (lit "boundary=\"") line) s.boundary;
      multipart = true;
    }
    else s

abbrev pub advertise : Config → Smtp → MegaTalker → MegaTalker
advertise c s m =
    let part =
      lit "--"
      ++ (s.boundary
          ++ lit
              "\r\nContent-Type: text/plain; charset=us-ascii\r\nContent-Disposition: inline\r\n\r\n") in
    msg_add_line (c.advertisement ++ lit "\r\n\r\n")
      (if s.multipart then msg_add_line part m else m)

unfoldable pub ends_headers : Text → Bool
ends_headers line = char_at line 0 == b'\n' || char_at line 1 == b'\n'

-- The MegaTalker behind the end of the headers.
unfoldable pub end_headers : Config → Smtp → MegaTalker → MegaTalker
end_headers c s m =
    if starts_with (lit "ahu@") s.sender && not (empty c.advertisement) then advertise c s m else m

abbrev pub counted : Text → Smtp → Smtp
counted line s = record s { databytes = (s.databytes + length line) % 2 ^ 64 }

unfoldable pub body_line : Config → Text → MegaTalker → Smtp → Smtp
body_line c line m s =
    let m' = if fits s then msg_add_line line m else m in
    let s' = if s.inheaders then read_header line s else s in
    if s.inheaders && ends_headers line
    then record (counted line s') { megatalker = some (end_headers c s' m'); inheaders = false }
    else record (counted line s') { megatalker = some m' }

-- The message is dropped. The MegaTalker is rolled back and deleted.
abbrev pub dropped : Text → MegaTalker → Smtp → Outcome × Smtp
dropped r m s = say r (rset_session (record s { megatalker = some (msg_rollback m) }))

abbrev pub delivered : Smtp → Result (Unit {0}) × MegaTalker → Outcome × Smtp
delivered s (throws e, m) =
    say (lit "450 Temporary backend error: " ++ e) (record s { megatalker = some m })
delivered s (ok _, m) =
    if m.degraded
    then dropped
        (lit "450 Message was not delivered redundantly, going to readonly mode. Try again later") m
        s
    else say (lit "250 Delivered message <" ++ (s.index ++ lit "> successfully to all recipients"))
        (rset_session s)

unfoldable pub over_quota : Smtp → Bool
over_quota s = s.quotaneeded && ltb_ℤ s.kbroom (kilobytes s)

unfoldable pub over_limit : Config → Smtp → Bool
over_limit c s = not (is_zero (max_msg c)) && ltb_ℤ (max_msg c) (kilobytes s)

-- The dot.
unfoldable pub end_message : Config → MegaTalker → Smtp → Outcome × Smtp
end_message c m s =
    if over_quota s
    then dropped
        (lit "552 Message of "
          ++ (itoa (kilobytes s)
              ++ (lit " kilobytes exceeded remaining quota ("
                  ++ (itoa s.kbroom ++ lit " kilobytes)"))))
        m s
    else if over_limit c s
    then dropped
        (lit "552 Message of "
          ++ (itoa (kilobytes s)
              ++ (lit " kilobytes exceeded maximum message size ("
                  ++ (c.max_msg_kb ++ lit " kilobytes), not delivered"))))
        m s
    else delivered s (msg_done m)

-- `crash`: the pointer is null.
abbrev pub data_line : Config → Text → Option MegaTalker → Smtp → Outcome × Smtp
data_line c line none s = (crash, s)
data_line c line (some m) s =
    if is_end line
    then end_message c m (record s { indata = false })
    else (pass, body_line c line m s)

unfoldable pub eat_data_line : Config → Text → Smtp → Outcome × Smtp
unfolding body_line end_message
eat_data_line c line s = data_line c line s.megatalker s
