-- ===== src/Mega/Failures.antt =====
-- Deleting a message, and the failure logs, in megatalker.cc: a delete that a backend misses is
-- logged and replayed when the backend is back. A log that can be opened
-- takes what is written to it.
pub mod Lost
use powermail.Base.{
  ℕ, ◌+◌, ◌≡◌, refl, ap, ◌∙◌, ◌⊎◌, inl, inr, Bool, true, false, not, List, [], ◌∷◌, ◌++◌, Option,
  none, some, arith, ◌==◌, if◌then◌else◌, Bool-cases, length, get_elem?,
}
use powermail.Text.{Text, lit, eq, eq_iff, char_at}
use powermail.Text.Tokens.{stringtok}
use powermail.Text.Number.{utoa}
use powermail.Net.{Result, ok, throws}
use powermail.Talker.Ppt.{PpTalker}
use powermail.Talker.Ppt
use powermail.Backend.{TargetData}

-- The logs by their names, and whether a log can be opened.
pub record Files : Type 0 where
  pub logs : List (Text × List Text)
  pub opens : Text → Bool

-- `ofstream ofs(fname)` empties the file that it opens.
unfoldable pub store_log : Text → Text → List (Text × List Text) → List (Text × List Text)
store_log name message [] = (name, message ∷ []) ∷ []
store_log name message ((n, ls) ∷ fs) =
    if eq name n then (n, message ∷ []) ∷ fs else (n, ls) ∷ store_log name message fs

-- `if(!ofs)` only writes to the logger.
unfoldable pub store_failure : Text → Text → Files → Files
unfolding store_log
store_failure name message fs =
    if not (fs.opens name) then fs else record fs { logs = store_log name message fs.logs }

unfoldable pub find_log : Text → List (Text × List Text) → Option (List Text)
find_log name [] = none
find_log name ((n, ls) ∷ fs) = if eq name n then some ls else find_log name fs

abbrev pub log_of : Text → Files → Option (List Text)
log_of name fs = find_log name fs.logs

unfoldable pub backend_name : TargetData → Text
backend_name t = t.address ++ (lit ":" ++ utoa t.port)

unfoldable pub delete_line : Text → Text → Text
delete_line mbox index = lit "? del " ++ (mbox ++ (lit " " ++ index))

abbrev pub deleted : Text → TargetData → Files → Result (Unit {0}) × PpTalker → TargetData × Files
deleted message t fs (ok _, p) = (record t { pp_talker = p }, fs)
deleted message t fs (throws e, p) =
    (record t { pp_talker = p }, store_failure (backend_name t) message fs)

-- One round of the loop of `delMsg`.
unfoldable pub delete_on : Text → Text → TargetData → Files → TargetData × Files
delete_on mbox index t fs =
    if t.up
    then deleted (delete_line mbox index) t fs (Ppt.del_msg mbox index t.pp_talker)
    else (t, store_failure (backend_name t) (delete_line mbox index) fs)

unfoldable pub del_msg : Text → Text → List TargetData → Files → List TargetData × Files
unfolding delete_on
del_msg mbox index [] fs = ([], fs)
del_msg mbox index (t ∷ ts) fs =
    let here = delete_on mbox index t fs in
    let later = del_msg mbox index ts here.1 in (here.0 ∷ later.0, later.1)

-- The replay of one log: its lines, whether it must be kept, and the talker behind it.
pub record Played : Type 0 where
  pub lines : List Text
  pub keeplog : Bool
  pub talker : PpTalker

abbrev keep_line : Text → Played → Played
keep_line line p = record p { lines = line ∷ p.lines; keeplog = true }

abbrev pub word : List Text → ℕ → Text
word ws i = elim (get_elem? ws i) [ none ↦ [] | some w ↦ w ]

-- The first byte becomes "!".
abbrev pub mark_done : Text → Text
mark_done [] = []
mark_done (c ∷ s) = b'!' ∷ s

abbrev pub replayed : Text → Result (Unit {0}) → Played → Played
replayed line (ok _) r = record r { lines = mark_done line ∷ r.lines }
replayed line (throws e) r = keep_line line r

-- The loop of `playbackLog`. `words` is declared outside it and not cleared.
unfoldable pub playback_lines : List Text → List Text → PpTalker → Played
playback_lines words [] t = record { lines = []; keeplog = false; talker = t }
playback_lines words (line ∷ ls) t =
    let ws = words ++ stringtok (lit " \t\n") line in
    let plain = playback_lines words ls t in
    let unread = playback_lines ws ls t in
    let deletion = Ppt.del_msg (word ws 2) (word ws 3) t in
    let tried = replayed line deletion.0 (playback_lines ws ls deletion.1) in
    if char_at line 0 == b'?'
    then if length ws == 4
      then (if eq (word ws 1) (lit "del") then tried else keep_line line unread)
      else keep_line line unread
    else record plain { lines = line ∷ plain.lines }

abbrev without : Text → List (Text × List Text) → List (Text × List Text)
without name [] = []
without name ((n, ls) ∷ fs) = if eq name n then fs else (n, ls) ∷ without name fs

abbrev written : Text → List Text → List (Text × List Text) → List (Text × List Text)
written name ls [] = []
written name ls ((n, old) ∷ fs) = if eq name n then (n, ls) ∷ fs else (n, old) ∷ written name ls fs

abbrev played : Text → Files → Played → PpTalker × Files
played name fs p = (
  p.talker,
  record fs { logs = if p.keeplog then written name p.lines fs.logs else without name fs.logs },
)

abbrev play : Text → Files → PpTalker → Option (List Text) → PpTalker × Files
play name fs t none = (t, fs)
play name fs t (some ls) = played name fs (playback_lines [] ls t)

-- `name` is the backend's address and port. A log that is not there, or cannot be opened, is not
-- played. One of which nothing is left to do is removed.
unfoldable pub playback_log : Text → PpTalker → Files → PpTalker × Files
playback_log name t fs = play name fs t (if fs.opens name then log_of name fs else none)
