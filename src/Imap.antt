-- ===== src/Imap.antt =====
-- imapsession.cc: an IMAP session, fed with lines. The traces on standard output and in the log are
-- left out, and so are topCommands, controlCommands, delDeleted and firstWordUC, which nothing calls.
pub mod Account
use powermail.Base.{
  ℕ, Bool, true, false, ◌||◌, List, [], ◌∷◌, ◌++◌, Option, none, some, if◌then◌else◌, ltb, length,
  drop,
}
use powermail.Text.{Text, lit, eq, before, is_space}
use powermail.Text.Clean.{strip_line}
use powermail.Text.Tokens.{stringtok}
use powermail.Text.Number.{utoa}
use powermail.Net.{Result, ok, throws}
use powermail.Backend.{TargetData}
use powermail.UserBase.{UserBase, Lookup, unavailable, absent, present}
use powermail.Mega.Shared.{Shared, MegaTalker, create}
use powermail.Mega.Mailbox.{get_msgs}
use powermail.Mega.Index.{Msgs}
use powermail.Pop.{MsgDatum, data_of}
use powermail.Pop.Login.{percent_to_at, fallback, try_accounts}

-- The user base, and the time that SELECT reads, as a number.
pub record Config : Type 0 where
  pub users : UserBase
  pub now : ℕ

-- The object, the static state of the MegaTalker, and the lines that were put to the client between
-- the responses; those writes go well.
pub record Imap : Type 0 where
  pub user : Text
  pub login : Bool
  pub msg_data : List MsgDatum
  pub scanned : Bool
  pub megatalker : MegaTalker
  pub shared : Shared
  pub client : List Text

-- The constructor.
unfoldable pub start : Shared → Imap
start shared = record {
  user = [];
  login = false;
  msg_data = [];
  scanned = false;
  megatalker = create;
  shared = shared;
  client = [];
}

-- What a group of commands makes of a line: nothing, or a response, with whether the session ends.
pub data Outcome : Type 0 where
  pass : Outcome
  reply : Text → Bool → Outcome

abbrev pub say : Text → Imap → Outcome × Imap
say r s = (reply r false, s)

abbrev put : Text → Imap → Imap
put t s = record s { client = s.client ++ (t ∷ []) }

abbrev pub scanned_to : Imap → Result Msgs × MegaTalker × List TargetData → Option Text × Imap
scanned_to s (ok msgs, m, ts) = (
  none,
  record s {
    msg_data = s.msg_data ++ data_of msgs;
    scanned = true;
    megatalker = m;
    shared = record s.shared { targets = ts };
  },
)
scanned_to s (throws e, m, ts) =
    (some (lit "NO " ++ e), record s { megatalker = m; shared = record s.shared { targets = ts } })

-- The messages are added to those that a scan before found.
unfoldable pub scan_dir : Imap → Option Text × Imap
scan_dir s = scanned_to s (get_msgs s.user s.megatalker s.shared.targets)

abbrev pub invalid : Text
invalid = lit "NO Invalid credentials (wrong username or password?)"

-- Where the scan fails, the line is for the next group of commands.
abbrev pub first_scan : Option Text × Imap → Outcome × Imap
first_scan (some e, s) = (pass, s)
first_scan (none, s) = say (lit "OK LOGIN Ok.") s

abbrev pub admitted : Imap → Lookup → Outcome × Imap
admitted s (unavailable e) = say (lit "NO " ++ e) s
admitted s (absent e) = say invalid s
admitted s (present md false) = say invalid (record s { user = md.canonical_mbox })
admitted s (present md true) =
    first_scan (scan_dir (record s { user = md.canonical_mbox; login = true; megatalker = create }))

abbrev pub log_in : Config → List Text → Imap → Outcome × Imap
log_in c (w ∷ user ∷ password ∷ []) s =
    let u = percent_to_at user in
    admitted (record s { user = u }) (try_accounts c.users password [] (u ∷ fallback u ∷ []))
log_in c _ s = say (lit "Malformed LOGIN line") s

abbrev pub quoted : Text
quoted = lit " \""

unfoldable pub unauth_commands : Config → Text → Text → Imap → Outcome × Imap
unauth_commands c command line s =
    if eq command (lit "CAPABILITY")
    then say (lit "OK CAPABILITY completed") (put (lit "* CAPABILITY IMAP4rev1\r\n") s)
    else if eq command (lit "LOGOUT")
    then (reply (lit "OK LOGOUT done") true, put (lit "* BYE PowerImap shutting down\r\n") s)
    else if eq command (lit "LOGIN")
    then (if s.login
        then say (lit "NO Already logged in") s
        else log_in c (stringtok quoted line) s)
    else (pass, s)

abbrev selected : Config → Text → Option Text × Imap → Outcome × Imap
selected c command (some e, s) = say e s
selected c command (none, s) =
    say (if eq command (lit "SELECT") then lit "OK [READ-WRITE] Ok" else lit "OK [READ-ONLY] Ok") (
      put
        (lit "* FLAGS (\\Deleted)\r\n* OK [PERMANENTFLAGS (\\Deleted)] Limited\r\n* "
          ++ (utoa (length s.msg_data)
              ++ (lit " EXISTS\r\n* 0 RECENT\r\n* OK [UIDVALIDITY "
                  ++ (utoa c.now ++ lit "] Ok\r\n"))))
        s)

abbrev pub select : Config → Text → List Text → Imap → Outcome × Imap
select c command (w ∷ mailbox ∷ []) s =
    if eq mailbox (lit "INBOX")
    then selected c command (scan_dir s)
    else say (lit "NO Invalid mailbox") s
select c command _ s = say (lit "NO Malformed SELECT line") s

unfoldable pub un_selected_commands : Config → Text → Text → Imap → Outcome × Imap
un_selected_commands c command line s =
    if s.login
    then (if eq command (lit "SELECT") || eq command (lit "EXAMINE")
        then select c command (stringtok quoted line) s
        else (pass, s))
    else (pass, s)

abbrev pub or_else : Outcome × Imap → (Imap → Outcome × Imap) → Outcome × Imap
or_else (pass, s) k = k s
or_else (reply r q, s) k = (reply r q, s)

-- The tag stands in front of each response.
abbrev pub tagged : Text → Outcome × Imap → (Text × Bool) × Imap
tagged tag (pass, s) = ((tag ++ lit " Not Implemented or Not Authorized Yet", false), s)
tagged tag (reply r q, s) = ((tag ++ (lit " " ++ r), q), s)

unfoldable pub skip_spaces : Text → Text
skip_spaces [] = []
skip_spaces (c ∷ s) = let rest = skip_spaces s in if is_space c then rest else c ∷ s

abbrev pub dispatch : Config → Text → Text → Imap → Outcome × Imap
dispatch c word command s =
    or_else (unauth_commands c word command s) (un_selected_commands c word command)

abbrev pub on_words : Config → Text → List Text → Imap → (Text × Bool) × Imap
on_words c line [] s = ((lit "* NO Error in IMAP command received by server.", false), s)
on_words c line (tag ∷ []) s =
    ((tag ++ lit " NO Error in IMAP command received by server.", false), s)
on_words c line (tag ∷ w ∷ ws) s =
    let command = skip_spaces (drop (length tag) line) in
    tagged tag (dispatch c (before (lit " \t") command) command s)

-- The response, and whether the session ends.
unfoldable pub give_line : Config → Text → Imap → (Text × Bool) × Imap
give_line c raw s = let line = strip_line raw in on_words c line (stringtok (lit " \t\n") line) s

-- A session that is fed with lines, one after the other.
unfoldable pub run : Config → List Text → Imap → Imap
run c [] s = s
run c (l ∷ ls) s = run c ls (give_line c l s).1
