-- ===== src/Pop/Login.antt =====
-- `loginCommands` of popsession.cc: APOP, USER and PASS. The pauses after a failure, which are to
-- slow dictionary attacks down, are left out.
use powermail.Base.{true, false, List, [], ◌∷◌, ◌++◌, Option, none, some, if◌then◌else◌, drop, ◌==◌}
use powermail.Text.{Text, lit, empty, starts_with, before, from}
use powermail.UserBase.{UserBase, Lookup, unavailable, absent, present}
use powermail.Mega.Shared.{create}
use powermail.Pop.{Config, Pop, Outcome, pass, reply, no_quit, scan_dir, make_stat_response}

-- `pos=d_user.find("%")` and `d_user[pos]='@'`
unfoldable pub percent_to_at : Text → Text
percent_to_at [] = []
percent_to_at (c ∷ s) = if c == b'%' then b'@' ∷ s else c ∷ percent_to_at s

-- `tries[1]`: the account that takes the mail of its whole domain.
unfoldable pub fallback : Text → Text
fallback user = elim (from (b'@' ∷ []) user) [ [] ↦ lit "*@" ++ user | c ∷ s ↦ lit "*" ++ (c ∷ s) ]

-- The first account of the tries that exists, or the failure that ended them.
unfoldable pub try_accounts : UserBase → Text → Text → List Text → Lookup
try_accounts users password challenge [] = absent []
try_accounts users password challenge (d ∷ ds) =
    let rest = try_accounts users password challenge ds in
    elim (users.mbox_data d password challenge) [
      | unavailable e ↦ unavailable e
      | absent e ↦ rest
      | present md ok ↦ present md ok
    ]

abbrev pub invalid : Text
invalid = lit "-ERR Invalid credentials (wrong username or password?)"

abbrev pub first_scan : Option Text × Pop → Outcome × Pop
first_scan (some e, s) = (pass, s)
first_scan (none, s) = (reply (make_stat_response s) no_quit, s)

-- `prefix` is what stands before the reason of a temporary failure.
abbrev pub admitted : Text → Pop → Lookup → Outcome × Pop
admitted prefix s (unavailable e) = (reply (prefix ++ e) no_quit, s)
admitted prefix s (absent e) = (reply invalid no_quit, s)
admitted prefix s (present md false) =
    (reply invalid no_quit, record s { user = md.canonical_mbox })
admitted prefix s (present md true) =
    first_scan (scan_dir (record s { user = md.canonical_mbox; login = true; megatalker = create }))

-- What APOP and PASS do with the name in `user`.
unfoldable pub authenticate : Config → Text → Text → Text → Pop → Outcome × Pop
unfolding try_accounts fallback percent_to_at
authenticate c prefix password challenge s =
    let user = percent_to_at s.user in
    admitted prefix (record s { user = user })
      (try_accounts c.users password challenge (user ∷ fallback user ∷ []))

-- `line.substr(5,(line.find(" ",5)-5))` and `line.substr(line.find(" ",5)+1)`: with no second
-- blank the first is the rest of the line, and the second the whole line.
unfoldable pub apop_user : Text → Text
apop_user line = before (b' ' ∷ []) (drop 5 line)

unfoldable pub apop_digit : Text → Text
apop_digit line = elim (from (b' ' ∷ []) (drop 5 line)) [ [] ↦ line | c ∷ digit ↦ digit ]

unfoldable pub apop : Config → Text → Pop → Outcome × Pop
apop c line s =
    let s' = record s { user = apop_user line } in
    if empty (apop_user line)
    then (reply (lit "-ERR Too few parameters (no username and digit)") no_quit, s')
    else if empty (apop_digit line)
    then (reply (lit "-ERR Too few parameters (no digit)") no_quit, s')
    else authenticate c (lit "-ERR 1") (apop_digit line) s.challenge s'

abbrev already : Outcome
already = reply (lit "-ERR Already logged in") no_quit

unfoldable pub login_commands : Config → Text → Pop → Outcome × Pop
login_commands c line s =
    if starts_with (lit "APOP ") line
    then (if s.login then (already, s) else apop c line s)
    else if starts_with (lit "USER ") line
    then (if s.login
        then (already, s)
        else (reply (lit "+OK ") no_quit, record s { user = drop 5 line }))
    else if starts_with (lit "PASS ") line
    then (if s.login
        then (already, s)
        else if empty s.user
        then (reply (lit "-ERR USER first") no_quit, s)
        else authenticate c (lit "-ERR ") (drop 5 line) [] s)
    else (pass, s)
