-- ===== src/Tests/Sockets.antt =====
-- Runs of the buffer of a network session, and of its writes.
use powermail.Base.{◌<◌, ◌≤◌, ◌≡◌, refl, true, List, [], ◌∷◌, ◌++◌, length, some, arith}
use powermail.Text.{lit}
use powermail.Net.{ok}
use powermail.Net.Buffer.{bytes, broken, Reader, get_line, to_come}
use powermail.Net.Buffer.Lines.{pending, Valid, NoNewline}
use powermail.Net.Buffer.Lines.Stream.{Gets, get_line-Gets}
use powermail.Net.Write.{Attempt, takes, put_line, Progress, put_line-Progress}

-- `EHLO` and the end of the line come in two reads, behind a line that was read already.
abbrev reader : Reader
reader = record {
  rdbuf = lit "x\nEH";
  rdoffset = 2;
  incoming = bytes (lit "L") ∷ bytes (lit "O\nQU") ∷ broken (lit "timeout") ∷ [];
}

reader-Valid : Valid reader
unfolding lit
reader-Valid = (omega arith, omega arith, ((λ e. cc), ((λ e. cc), tt)))

reader-pending : pending reader ≡ lit "EHLO" ++ (b'\n' ∷ lit "QU")
unfolding lit to_come
reader-pending = refl

no_newline : NoNewline (lit "EHLO")
unfolding lit
no_newline = (
  (λ e. absurd (omega (arith, e))),
  (
    (λ e. absurd (omega (arith, e))),
    ((λ e. absurd (omega (arith, e))), ((λ e. absurd (omega (arith, e))), tt)),
  ),
)

short : length (lit "EHLO") < 15049
unfolding lit
short = omega arith

get_line-Gets_example : Gets (lit "EHLO") (lit "QU") (get_line reader)
get_line-Gets_example =
    get_line-Gets reader (lit "EHLO") (lit "QU") reader-Valid reader-pending no_newline short

abbrev parts : List Attempt
parts = takes 1 ∷ takes 9 ∷ takes 2 ∷ []

parts-Progress : Progress parts
parts-Progress = (omega arith, (omega arith, (omega arith, tt)))

enough : length (lit "OK\n") ≤ length parts
unfolding lit
enough = omega arith

put_line-Progress_example : put_line (lit "OK\n") parts ≡ (some (ok true), lit "OK\n")
put_line-Progress_example = put_line-Progress (lit "OK\n") parts parts-Progress enough
