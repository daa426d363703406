-- ===== src/Pop/Commands.antt =====
-- `topCommands`, `restCommands` and `controlCommands` of popsession.cc.
pub mod Deletion
use powermail.Base.{
  ℕ, ◌+◌, ◌-◌, ◌%◌, ◌^◌, Bool, true, false, ◌&&◌, ◌||◌, List, [], ◌∷◌, ◌++◌, Option, none, some,
  if◌then◌else◌, leb, ◌==◌, length, get_elem?, set,
}
use powermail.Base.Int.{ℤ, pos, negsuc}
use powermail.Text.{Text, lit, eq, starts_with}
use powermail.Text.Tokens.{stringtok}
use powermail.Text.Number.{utoa, atoi}
use powermail.Net.{Result, ok, throws}
use powermail.Mega.Shared.{Dial}
use powermail.Mega.Failures.{del_msg}
use powermail.Mega.Retrieve.{Fetched, blast_message}
use powermail.Pop.{
  Config, Pop, MsgDatum, Outcome, pass, reply, escapes, no_quit, please_quit, please_die, scan_dir,
  make_stat_response,
}

abbrev pub blanks : Text
blanks = lit " \t\n"

-- `d_megatalker->delMsg(i->d_fname)`, which throws nothing.
abbrev pub delete_one : Text → Pop → Pop
delete_one fname s =
    let r = del_msg s.megatalker.mbox fname s.shared.targets s.shared.files in
    record s { deleted = s.deleted + 1; shared = record s.shared { targets = r.0; files = r.1 } }

unfoldable pub del_deleted : List MsgDatum → Pop → Pop
del_deleted [] s = s
del_deleted (m ∷ ms) s = del_deleted ms (if m.deleted then delete_one m.fname s else s)

unfoldable pub undelete : List MsgDatum → List MsgDatum
undelete [] = []
undelete (m ∷ ms) = record m { deleted = false } ∷ undelete ms

unfoldable pub top_commands : Text → Pop → Outcome × Pop
unfolding del_deleted undelete
top_commands line s =
    if eq line (lit "NOOP")
    then (reply (lit "+OK Done") no_quit, s)
    else if eq line (lit "QUIT")
    then (reply (lit "+OK ") please_quit, del_deleted s.msg_data s)
    else if eq line (lit "RSET")
    then (reply (lit "+OK ") no_quit, record s { msg_data = undelete s.msg_data })
    else (pass, s)

-- `unsigned int num=atoi(…)-1`
abbrev pub to_uint32 : ℤ → ℕ
to_uint32 (pos n) = n % 2 ^ 32
to_uint32 (negsuc n) = 2 ^ 32 - 1 - n % 2 ^ 32

unfoldable pub message_number : Text → ℕ
message_number arg = (to_uint32 (atoi arg) + (2 ^ 32 - 1)) % 2 ^ 32

abbrev pub say : Text → Pop → Outcome × Pop
say r s = (reply r no_quit, s)

abbrev pub out_of_range : Text
out_of_range = lit "-ERR Number out of range"

-- The lines of LIST and of UIDL, which number the messages from 1 on and leave out the deleted.
unfoldable pub list_lines : (MsgDatum → Text) → ℕ → List MsgDatum → Text
list_lines show n [] = []
list_lines show n (m ∷ ms) =
    (if m.deleted then [] else utoa n ++ (lit " " ++ (show m ++ lit "\r\n")))
    ++ list_lines show (n + 1) ms

abbrev pub show_size : MsgDatum → Text
show_size m = utoa m.size

abbrev pub show_name : MsgDatum → Text
show_name m = m.fname

abbrev numbered : ℕ → Text → Text
numbered n t = lit "+OK " ++ (utoa (n + 1) ++ (lit " " ++ t))

unfoldable pub uidl_one : ℕ → Option MsgDatum → Pop → Outcome × Pop
uidl_one n none s = say out_of_range s
uidl_one n (some m) s = say (numbered n m.fname) s

unfoldable pub list_one : ℕ → Option MsgDatum → Pop → Outcome × Pop
list_one n none s = say out_of_range s
list_one n (some m) s =
    if m.deleted then say (lit "-ERR was deleted") s else say (numbered n (utoa m.size)) s

unfoldable pub dele_one : ℕ → Option MsgDatum → Pop → Outcome × Pop
dele_one n none s = say out_of_range s
dele_one n (some m) s =
    if m.deleted
    then say (lit "-ERR Already deleted") s
    else say (lit "+OK") (record s { msg_data = set s.msg_data n (record m { deleted = true }) })

-- The random number of the next `random_shuffle`.
abbrev next_random : Pop → ℕ
next_random s = elim s.shared.randoms [ [] ↦ 0 | r ∷ rs ↦ r.0 ]

abbrev fetch : MsgDatum → ℕ → ℤ → Pop → Fetched × List Dial
fetch m size limit s =
    blast_message m.fname size limit (next_random s) s.client s.megatalker s.shared.dials

abbrev sent_to_client : Pop → Fetched × List Dial → Pop
sent_to_client s ((r, c), ds) = record s { client = c; shared = record s.shared { dials = ds } }

abbrev retrieved : Pop → Result (Unit {0}) → Outcome × Pop
retrieved s (ok _) = (reply [] no_quit, record s { retrieved = s.retrieved + 1 })
retrieved s (throws e) = (reply (lit "-ERR Retrieving message, " ++ e) no_quit, s)

unfoldable pub retr_one : Option MsgDatum → Pop → Outcome × Pop
retr_one none s = say out_of_range s
retr_one (some m) s =
    if m.deleted
    then say (lit "-ERR Message was deleted") s
    else let f = fetch m m.size (negsuc 0) s in retrieved (sent_to_client s f) f.0.0

-- There is no `catch` around this call.
abbrev topped : Pop → Result (Unit {0}) → Outcome × Pop
topped s (ok _) = (reply [] no_quit, s)
topped s (throws e) = (escapes e, s)

abbrev pub top_limit : Option Text → ℤ
top_limit none = negsuc 0
top_limit (some arg) = atoi arg

unfoldable pub top_one : ℤ → Option MsgDatum → Pop → Outcome × Pop
top_one limit none s = say out_of_range s
top_one limit (some m) s =
    if m.deleted
    then say (lit "-ERR Message was deleted") s
    else let f = fetch m 0 limit s in topped (sent_to_client s f) f.0.0

abbrev pub nth : ℕ → Pop → Option MsgDatum
nth n s = get_elem? s.msg_data n

-- The commands that a login is needed for, on the words of the line behind the first.
unfoldable pub dispatch : Text → List Text → Pop → Outcome × Pop
unfolding uidl_one list_one dele_one retr_one top_one list_lines
dispatch command [] s =
    if eq command (lit "UIDL")
    then say (lit "+OK\r\n" ++ (list_lines show_name 1 s.msg_data ++ lit ".")) s
    else if eq command (lit "TOP")
    then say (lit "-ERR Missing parameter") s
    else if eq command (lit "STAT")
    then say (make_stat_response s) s
    else if eq command (lit "LIST")
    then say (lit "+OK\r\n" ++ (list_lines show_size 1 s.msg_data ++ lit ".")) s
    else (pass, s)
dispatch command (a ∷ args) s =
    let n = message_number a in
    if eq command (lit "UIDL")
    then uidl_one n (nth n s) s
    else if eq command (lit "RETR") && length args == 0
    then retr_one (nth n s) s
    else if eq command (lit "TOP") && leb (length args) 1
    then top_one (top_limit (get_elem? args 0)) (nth n s) s
    else if eq command (lit "DELE") && length args == 0
    then dele_one n (nth n s) s
    else if eq command (lit "LIST") && length args == 0
    then list_one n (nth n s) s
    else (pass, s)

abbrev pub on_words : List Text → Pop → Outcome × Pop
on_words [] s = (pass, s)
on_words (command ∷ args) s = dispatch command args s

abbrev pub with_scan : List Text → Option Text × Pop → Outcome × Pop
with_scan ws (some e, s) = say e s
with_scan ws (none, s) = on_words ws s

unfoldable pub rest_commands : Text → Pop → Outcome × Pop
unfolding dispatch
rest_commands line s =
    if s.login
    then (if s.scanned
        then on_words (stringtok blanks line) s
        else with_scan (stringtok blanks line) (scan_dir s))
    else (pass, s)

-- The session's remote is this host, or the address that the server listens on.
unfoldable pub is_local : Config → Text → Bool
is_local c remote =
    starts_with (lit "127.0.0.1:") remote || starts_with (c.listen_address ++ lit ":") remote

abbrev pub control_word : List Text → Outcome
control_word [] = reply (lit "-ERR Missing control command") no_quit
control_word (w ∷ ws) =
    if eq w (lit "stop")
    then reply (lit "+OK BYE!") please_die
    else if eq w (lit "status")
    then reply (lit "+OK OK!") no_quit
    else reply (lit "-ERR Unknown control command '" ++ (w ++ lit "'")) no_quit

abbrev pub control_words : Config → List Text → Pop → Outcome × Pop
control_words c [] s = (pass, s)
control_words c (w ∷ ws) s =
    if eq w (lit "CONTROL")
    then (if is_local c s.remote then (control_word ws, s) else (pass, s))
    else (pass, s)

unfoldable pub control_commands : Config → Text → Pop → Outcome × Pop
control_commands c line s = control_words c (stringtok blanks line) s
