-- ===== src/Smtp/Commands.antt =====
-- `controlCommands` and `topCommands` of smtpsession.cc, which need no message.
use powermail.Base.{Bool, false, not, ◌&&◌, ◌||◌, List, [], ◌∷◌, ◌++◌, if◌then◌else◌, ◌==◌}
use powermail.Base.Int.{ℤ, pos, negsuc}
use powermail.Text.{Text, lit, eq, starts_with, is_space, to_upper, mem}
use powermail.Text.Tokens.{stringtok}
use powermail.Smtp.{
  Config, Smtp, Outcome, pass, reply, crash, no_quit, please_quit, please_die, say, rset_session,
  max_msg, name_of,
}

abbrev pub blanks : Text
blanks = lit " \t\n"

abbrev pub is_zero : ℤ → Bool
is_zero (pos n) = n == 0
is_zero (negsuc n) = false

abbrev pub control_word : List Text → Outcome
control_word [] = reply (lit "500 Missing control command") no_quit
control_word (w ∷ ws) =
    if eq w (lit "stop")
    then reply (lit "200 Bye!") please_die
    else if eq w (lit "status")
    then reply (lit "200 OK!") no_quit
    else reply (lit "500 Unknown control command '" ++ (w ++ lit "'")) no_quit

-- `parts[0]` of the remote is there where the remote has an address.
abbrev pub control_from : Config → List Text → List Text → Outcome
control_from c [] ws = crash
control_from c (address ∷ parts) ws =
    if not (eq address (lit "127.0.0.1")) && not (eq address c.listen_address)
    then pass
    else control_word ws

abbrev pub control_words : Config → Text → List Text → Outcome
control_words c remote [] = pass
control_words c remote (w ∷ ws) =
    if eq w (lit "CONTROL") then control_from c (stringtok (lit ":") remote) ws else pass

unfoldable pub control_commands : Config → Text → Smtp → Outcome × Smtp
control_commands c line s = (control_words c s.remote (stringtok blanks line), s)

abbrev pub size_limit : Config → Text
size_limit c = if is_zero (max_msg c) then [] else lit " " ++ (c.max_msg_kb ++ lit "000")

-- HELO and EHLO with an argument, and RSET.
abbrev pub greet : Config → Text → List Text → Smtp → Outcome × Smtp
greet c line (w ∷ a ∷ ws) s =
    if eq w (lit "HELO")
    then say (lit "250 Hi " ++ a) s
    else if eq w (lit "EHLO")
    then say
        (lit "250-"
          ++ (c.own_name
              ++ (lit "\r\n250-SIZE" ++ (size_limit c ++ lit "\r\n250-PIPELINING\r\n250 HELP"))))
        s
    else if starts_with (lit "RSET") line
    then say (lit "250 Ok") (rset_session s)
    else (pass, s)
greet c line _ s =
    if starts_with (lit "RSET") line then say (lit "250 Ok") (rset_session s) else (pass, s)

unfoldable pub top_commands : Config → Text → Smtp → Outcome × Smtp
top_commands c line s =
    if eq line (lit "HELP")
    then say (lit "214 EHLO HELP HELO RSET MAIL RCPT DATA NOOP QUIT") s
    else if eq line (lit "NOOP")
    then say (lit "250 done") s
    else if eq line (lit "QUIT")
    then (reply (lit "221 bye") please_quit, s)
    else if eq line (lit "HELO")
    then say (lit "250 " ++ name_of c) s
    else greet c line (stringtok blanks line) s

abbrev upper_until : Bool → Text → Text
upper_until colon [] = []
upper_until colon (c ∷ s) =
    if c == b':' || not colon && is_space c then c ∷ s else to_upper c ∷ upper_until colon s

unfoldable pub first_word_uc : Text → Text
first_word_uc line = upper_until (mem b':' line) line
