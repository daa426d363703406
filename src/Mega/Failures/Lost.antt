-- ===== src/Mega/Failures/Lost.antt =====
-- What the failure logs of megatalker.cc keep of several deletes.
use powermail.Base.{
  ◌+◌, ◌≤◌, ◌≡◌, refl, sym, ap, not, if-rule, ◌∙◌, ◌⊎◌, inl, inr, true, false, List, [], ◌∷◌, ◌++◌,
  some, arith, if◌then◌else◌, Bool-cases, length, length-append, All,
}
use powermail.Text.{Text, lit, eq, eq_iff, char_at}
use powermail.Text.Tokens.{stringtok}
use powermail.Net.{Result, ok, throws}
use powermail.Talker.Ppt.{PpTalker}
use powermail.Talker.Ppt
use powermail.Backend.{TargetData}
use powermail.Mega.Failures.{
  Files, store_log, store_failure, find_log, log_of, backend_name, delete_line, delete_on, del_msg,
  Played, playback_lines, word, mark_done, deleted, replayed,
}

find_log-store_log :
    (n name message : Text) (fs : List (Text × List Text))
    → find_log n (store_log name message fs)
      ≡ (if eq n name then some (message ∷ []) else find_log n fs)
unfolding find_log store_log
find_log-store_log n name message [] = refl
find_log-store_log n name message ((k, ls) ∷ fs) =
    ground (arith, eq_iff n name, eq_iff n k, eq_iff name k, find_log-store_log n name message fs)

log_of-store_failure :
    (n name message : Text) (fs : Files)
    → fs.opens name ≡ true
    → log_of n (store_failure name message fs)
      ≡ (if eq n name then some (message ∷ []) else log_of n fs)
unfolding store_failure
log_of-store_failure n name message fs o = simp o (find_log-store_log n name message fs.logs)

-- No operation changes what can be opened.
store_failure-opens :
    (name message : Text) (fs : Files) → (store_failure name message fs).opens ≡ fs.opens
unfolding store_failure
store_failure-opens name message fs =
    if-rule (λ (g : Files). g.opens ≡ fs.opens) (not (fs.opens name)) refl refl

deleted-opens :
    (message : Text) (t : TargetData) (fs : Files) (r : Result (Unit {0}) × PpTalker)
    → (deleted message t fs r).1.opens ≡ fs.opens
deleted-opens message t fs (ok _, p) = refl
deleted-opens message t fs (throws e, p) = store_failure-opens (backend_name t) message fs

delete_on-opens :
    (mbox index : Text) (t : TargetData) (fs : Files)
    → (delete_on mbox index t fs).1.opens ≡ fs.opens
unfolding delete_on
delete_on-opens mbox index t fs =
    if-rule (λ (r : TargetData × Files). r.1.opens ≡ fs.opens) t.up
      (deleted-opens (delete_line mbox index) t fs (Ppt.del_msg mbox index t.pp_talker))
      (store_failure-opens (backend_name t) (delete_line mbox index) fs)

-- A log that is as it was, or has the one line of this delete.
abbrev Outcome : Text → Text → Files → Files → Type 0
Outcome n message fs fs' = (log_of n fs' ≡ log_of n fs) ⊎ (log_of n fs' ≡ some (message ∷ []))

store_failure-Outcome :
    (n name message : Text) (fs : Files) → Outcome n message fs (store_failure name message fs)
unfolding store_failure
store_failure-Outcome n name message fs = elim (Bool-cases (fs.opens name)) [
  | inr o ↦ simp o (inl refl)
  | inl o ↦ elim (Bool-cases (eq n name)) [
    | inl e ↦ simp o (inr (find_log-store_log n name message fs.logs ∙ rw e))
    | inr e ↦ simp o (inl (find_log-store_log n name message fs.logs ∙ rw e))
  ]
]

deleted-Outcome :
    (n message : Text) (t : TargetData) (fs : Files) (r : Result (Unit {0}) × PpTalker)
    → Outcome n message fs (deleted message t fs r).1
deleted-Outcome n message t fs (ok _, p) = inl refl
deleted-Outcome n message t fs (throws e, p) = store_failure-Outcome n (backend_name t) message fs

delete_on-Outcome :
    (n mbox index : Text) (t : TargetData) (fs : Files)
    → Outcome n (delete_line mbox index) fs (delete_on mbox index t fs).1
unfolding delete_on
delete_on-Outcome n mbox index t fs =
    elim t.up
      as (λ b.
        Outcome n (delete_line mbox index) fs
          (if b
            then deleted (delete_line mbox index) t fs (Ppt.del_msg mbox index t.pp_talker)
            else (t, store_failure (backend_name t) (delete_line mbox index) fs)).1) [
              | true ↦
                  deleted-Outcome n (delete_line mbox index) t fs
                    (Ppt.del_msg mbox index t.pp_talker)
              | false ↦ store_failure-Outcome n (backend_name t) (delete_line mbox index) fs
            ]

-- A log with the one line of this delete keeps it.
keeps :
    (n mbox index : Text) (ts : List TargetData) (fs : Files)
    → log_of n fs ≡ some (delete_line mbox index ∷ [])
    → log_of n (del_msg mbox index ts fs).1 ≡ some (delete_line mbox index ∷ [])
unfolding del_msg
keeps n mbox index [] fs h = h
keeps n mbox index (t ∷ ts) fs h =
    keeps n mbox index ts (delete_on mbox index t fs).1
      (elim (delete_on-Outcome n mbox index t fs) [ inl e ↦ e ∙ h | inr e ↦ e ])

-- Some backend of the name is down.
abbrev pub HasDown : Text → List TargetData → Type 0
HasDown n [] = ⊥
HasDown n (t ∷ ts) = ((backend_name t ≡ n) × (t.up ≡ false)) ⊎ HasDown n ts

delete_on_down :
    (n mbox index : Text) (t : TargetData) (fs : Files)
    → backend_name t ≡ n
    → t.up ≡ false
    → fs.opens n ≡ true
    → log_of n (delete_on mbox index t fs).1 ≡ some (delete_line mbox index ∷ [])
unfolding delete_on
delete_on_down n mbox index t fs b d o = simp d (
    log_of-store_failure n (backend_name t) (delete_line mbox index) fs (ap fs.opens b ∙ o)
    ∙ rw ((eq_iff n (backend_name t)).1 (sym b)) refl)

-- Whatever the log of a backend that is down held, where it can be opened, after `delMsg` it holds the line of this delete
-- and nothing else: a delete that was logged before and not yet replayed is lost.
pub del_msg_overwrites :
    (n mbox index : Text) (ts : List TargetData) (fs : Files)
    → HasDown n ts
    → fs.opens n ≡ true
    → log_of n (del_msg mbox index ts fs).1 ≡ some (delete_line mbox index ∷ [])
unfolding del_msg
del_msg_overwrites n mbox index [] fs h o = elim h [ ]
del_msg_overwrites n mbox index (t ∷ ts) fs (inl (b, d)) o =
    keeps n mbox index ts (delete_on mbox index t fs).1 (delete_on_down n mbox index t fs b d o)
del_msg_overwrites n mbox index (t ∷ ts) fs (inr h) o =
    del_msg_overwrites n mbox index ts (delete_on mbox index t fs).1 h
      (ap (λ p. p n) (delete_on-opens mbox index t fs) ∙ o)

-- An entry in the form that `delMsg` writes.
abbrev pub IsEntry : Text → Type 0
IsEntry line = (char_at line 0 ≡ b'?') × (length (stringtok (lit " \t\n") line) ≡ 4)

playback_full :
    (words : List Text) (ls : List Text) (t : PpTalker)
    → 4 ≤ length words
    → All IsEntry ls
    → ((playback_lines words ls t).talker ≡ t) × ((playback_lines words ls t).lines ≡ ls)
unfolding playback_lines
playback_full words [] t h a = (refl, refl)
playback_full words (line ∷ ls) t h a =
    let ws = words ++ stringtok (lit " \t\n") line in
    let len : length ws ≡ length words + 4 =
      omega (arith, length-append words (stringtok (lit " \t\n") line), a.0.1) in
    let (p, q) = playback_full ws ls t (omega arith) a.1 in
    (ground (arith, a.0.0), ground (arith, a.0.0))

replayed-talker :
    (line : Text) (d : Result (Unit {0})) (r : Played) → (replayed line d r).talker ≡ r.talker
replayed-talker line (ok _) r = refl
replayed-talker line (throws e) r = refl

replayed-lines :
    (line : Text) (d : Result (Unit {0})) (r : Played)
    → (f : Text) × ((replayed line d r).lines ≡ f ∷ r.lines)
replayed-lines line (ok _) r = (mark_done line, refl)
replayed-lines line (throws e) r = (line, refl)

-- Of a log whose lines are all entries, the replay tries the first one only: what it leaves of the
-- talker is what this delete leaves, and every other entry stays as it was.
pub playback_lines_first :
    (line : Text) (ls : List Text) (t : PpTalker)
    → IsEntry line
    → All IsEntry ls
    → eq (word (stringtok (lit " \t\n") line) 1) (lit "del") ≡ true
    → let ws = stringtok (lit " \t\n") line in
      let d = Ppt.del_msg (word ws 2) (word ws 3) t in
      ((playback_lines [] (line ∷ ls) t).talker ≡ d.1)
      × ((first : Text) × ((playback_lines [] (line ∷ ls) t).lines ≡ first ∷ ls))
unfolding playback_lines
playback_lines_first line ls t e a w =
    let ws = stringtok (lit " \t\n") line in
    let d = Ppt.del_msg (word ws 2) (word ws 3) t in
    let (p, q) = playback_full ws ls d.1 (omega (arith, e.1)) a in
    let step : playback_lines [] (line ∷ ls) t ≡ replayed line d.0 (playback_lines ws ls d.1) =
      ground (arith, e.0, e.1, w) in
    let (f, g) = replayed-lines line d.0 (playback_lines ws ls d.1) in
    (
      ap (λ r. r.talker) step ∙ replayed-talker line d.0 (playback_lines ws ls d.1) ∙ p,
      (f, ap (λ r. r.lines) step ∙ g ∙ ap (◌∷◌ f) q),
    )
