-- ===== src/Talker/Retrieve.antt =====
-- `blastMessageFD` of pptalker.cc: a message goes from a backend to the client, line by line, each
-- by a `writen` to the client's descriptor.
pub mod Lines
use powermail.Base.{
  ℕ, suc, ◌+◌, ◌≤◌, ◌≡◌, refl, ap, ◌∙◌, Bool, true, false, not, ◌&&◌, ◌||◌, List, [], ◌∷◌, ◌++◌,
  map, arith, leb, ◌==◌, if◌then◌else◌, length, take, All,
}
use powermail.Base.Int.{ℤ, pos, negsuc, to_int32}
use powermail.Text.{Text, lit, eq, char_at, starts_with}
use powermail.Text.Number.{itoa}
use powermail.Net.{Result, ok, throws, Io, done, failed, Conn, put_line, get_line}
use powermail.Talker.Ppt.{PpTalker, put, get}

-- `line[0]=='\r' || line[1]=='\n'`, and the line that ends the message.
unfoldable pub ends_headers : Text → Bool
ends_headers line = char_at line 0 == b'\r' || char_at line 1 == b'\n'

unfoldable pub is_dot : Text → Bool
is_dot line = char_at line 0 == b'.' && (char_at line 1 == b'\r' || char_at line 1 == b'\n')

abbrev pub limited : ℤ → Bool
limited (pos n) = true
limited (negsuc n) = false

-- `limit<0 || lineno<=limit`
abbrev pub within : ℕ → ℤ → Bool
within l (pos n) = leb l n
within l (negsuc n) = true

-- What the next `writen` comes to: all was written; or behind a part of it a `write` returned 0,
-- and `writen` returns, or -1, and it throws.
pub data Writen : Type 0 where
  whole : Writen
  stops : ℕ → Writen
  breaks : ℕ → Text → Writen

-- The client's descriptor: what was written to it, and what the next calls come to. Those behind
-- the last of these go well.
pub record Client : Type 0 where
  pub out : List Text
  pub writes : List Writen

abbrev pub writen_as : Text → List Text → List Writen → Result (Unit {0}) × Client
writen_as t out [] = (ok tt, record { out = out ++ (t ∷ []); writes = [] })
writen_as t out (whole ∷ ws) = (ok tt, record { out = out ++ (t ∷ []); writes = ws })
writen_as t out (stops n ∷ ws) = (ok tt, record { out = out ++ (take n t ∷ []); writes = ws })
writen_as t out (breaks n e ∷ ws) = (
  throws (lit "Error writing line to socket: " ++ e),
  record { out = out ++ (take n t ∷ []); writes = ws },
)

unfoldable pub writen : Text → Client → Result (Unit {0}) × Client
writen t c = writen_as t c.out c.writes

-- The outcome, with the script and the client behind it.
abbrev pub Lines : Type 0
Lines = Result (Unit {0}) × List Io × Client

abbrev pub and_on : List Io → Result (Unit {0}) × Client → (Client → Lines) → Lines
and_on s (ok _, c) k = k c
and_on s (throws e, c) k = (throws e, s, c)

-- The loop from the next line on; each round takes one entry of the script.
unfoldable pub blast_lines : ℤ → Bool → ℕ → List Io → Client → Lines
blast_lines limit inheaders lineno [] c = (throws (lit "Connection closed by foreign host"), [], c)
blast_lines limit inheaders lineno (failed e ∷ s) c = (throws e, s, c)
blast_lines limit inheaders lineno (done line ∷ s) c =
    let ends = limited limit && (inheaders && ends_headers line) in
    let n = if limited limit && not inheaders then lineno + 1 else lineno in
    let on = blast_lines limit (inheaders && not ends) n s in
    if is_dot line
    then and_on s (writen (lit ".\r\n") c) (λ d. (ok tt, s, d))
    else if within n limit
    then and_on s (writen line c) on
    else on c

unfoldable pub retr_banner : ℤ → ℕ → Text
retr_banner (negsuc n) size =
    if n == 0 then lit "+OK " ++ (itoa (to_int32 size) ++ lit "\r\n") else lit "+OK\r\n"
retr_banner (pos n) size = lit "+OK\r\n"

-- The exception or the end, the talker behind it, and the client.
abbrev pub Blasted : Type 0
Blasted = Result (Unit {0}) × PpTalker × Client

abbrev blasted : PpTalker → Lines → Blasted
blasted t (ok _, s, c) = (ok tt, record t { conn = record { script = s; sent = t.conn.sent } }, c)
blasted t (throws e, s, c) = (
  throws (lit "Session Error retrieving message: " ++ e),
  record t { conn = record { script = s; sent = t.conn.sent } },
  c,
)

abbrev answered : Text → Text → ℕ → ℤ → Client → Result Text × PpTalker → Blasted
answered address index size limit c (throws e, t) = (throws e, t, c)
answered address index size limit c (ok line, t) =
    if starts_with (lit "+OK") line
    then blasted t (
        and_on t.conn.script (writen (retr_banner limit size) c)
          (blast_lines limit true 0 t.conn.script))
    else (throws (lit "Unable to retrieve message " ++ (address ++ (lit " " ++ index))), t, c)

abbrev asked : Text → Text → ℕ → ℤ → Client → Result (Unit {0}) × PpTalker → Blasted
asked address index size limit c (throws e, t) = (throws e, t, c)
asked address index size limit c (ok _, t) =
    answered address index size limit c (get (lit "Session Error retrieving message: ") t)

unfoldable pub blast : Text → Text → ℕ → ℤ → Client → PpTalker → Blasted
unfolding put get writen
blast address index size limit c t = asked address index size limit c (
    put (lit "Session Error retrieving message: ")
      (lit "get " ++ (address ++ (lit " " ++ (index ++ lit "\n")))) t)

abbrev pub IsHeader : Text → Type 0
IsHeader line = (is_dot line ≡ false) × (ends_headers line ≡ false)

abbrev pub IsBody : Text → Type 0
IsBody line = is_dot line ≡ false
