-- ===== src/Talker/Status.antt =====
-- `listMboxes` and `stat` of pptalker.cc.
use powermail.Base.{
  ℕ, List, [], ◌∷◌, ◌++◌, Option, none, some, ltb, if◌then◌else◌, get_elem?, length,
}
use powermail.Base.Int.{ℤ}
use powermail.Text.{Text, lit, eq}
use powermail.Text.Clean.{strip_line}
use powermail.Text.Tokens.{stringtok}
use powermail.Text.Number.{atoi}
use powermail.Net.{Result, ok, throws, Exec, pure, throw, ◌>>=◌, ◌>>◌, Io, done, failed}
use powermail.Talker.Ppt.{PpTalker, put, get, expect, caught_io}

-- The loop of `listMboxes`: the names go behind those that the caller's vector has.
unfoldable pub read_names : List Io → List Text → Result (List Text) × List Io
read_names [] acc = (throws (lit "Connection closed by foreign host"), [])
read_names (failed e ∷ s) acc = (throws e, s)
read_names (done line ∷ s) acc =
    let rest = read_names s (acc ++ (strip_line line ∷ [])) in
    if eq (strip_line line) (lit ".") then (ok acc, s) else rest

abbrev names_from : List Text → Exec PpTalker (List Text)
names_from mboxes t =
    caught_io (lit "Session Error listing mboxes: ") t (read_names t.conn.script mboxes)

unfoldable pub list_mboxes : List Text → Exec PpTalker (List Text)
list_mboxes mboxes = do
  put (lit "Session Error listing mboxes: ") (lit "dir\n")
  line ← get (lit "Session Error listing mboxes: ")
  expect line (lit "Unable to request listing of mboxes: " ++ line)
  names_from mboxes

-- What `stat` sets: the kilobytes, and where the response has them the inodes and the load, whose
-- text goes to strtod.
pub record Status : Type 0 where
  pub kbytes : ℤ
  pub inodes : Option ℤ
  pub load : Option Text

abbrev word : ℕ → List Text → Text
word n ws = elim (get_elem? ws n) [ none ↦ [] | some w ↦ w ]

abbrev status_of : List Text → Status
status_of ws = record {
  kbytes = atoi (word 1 ws);
  inodes = if ltb 4 (length ws) then some (atoi (word 3 ws)) else none;
  load = if ltb 6 (length ws) then some (word 5 ws) else none;
}

abbrev read_status : List Text → Exec PpTalker Status
read_status ws =
    if ltb (length ws) 3
    then throw (lit "Invalid response to stat request")
    else pure (status_of ws)

unfoldable pub stat : Exec PpTalker Status
stat = do
  put (lit "Session Error doing ping: ") (lit "stat\n")
  line ← get (lit "Session Error doing ping: ")
  expect line (lit "Remote indicated error accepting ping: " ++ line)
  read_status (stringtok (lit " \t\n") line)
