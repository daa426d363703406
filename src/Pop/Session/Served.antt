-- ===== src/Pop/Session/Served.antt =====
-- A POP3 session that is logged in stays so, with the mailbox it serves: each group of commands of
-- popsession.cc keeps them.
use powermail.Base.{
  ℕ, ◌≡◌, inl, inr, true, false, ◌&&◌, List, [], ◌∷◌, Option, none, some, arith, if◌then◌else◌, leb,
  ◌==◌, Bool-cases, if-rule, length, get_elem?,
}
use powermail.Base.Int.{ℤ}
use powermail.Text.{Text, lit, eq}
use powermail.Text.Tokens.{stringtok}
use powermail.Net.{Result, ok, throws}
use powermail.Backend.{TargetData}
use powermail.Mega.Shared.{MegaTalker}
use powermail.Mega.Index.{Msgs}
use powermail.Mega.Mailbox.{get_msgs}
use powermail.Pop.{Pop, MsgDatum, Outcome, scan_dir, scanned_to}
use powermail.Pop.Commands.{
  del_deleted, top_commands, uidl_one, list_one, dele_one, retr_one, top_one, nth, dispatch,
  on_words, with_scan, rest_commands, message_number, top_limit, blanks, delete_one,
}

abbrev pub Serves : Text → Pop → Type 0
Serves u s = (s.login ≡ true) × (s.user ≡ u)

del_deleted-Serves :
    (u : Text) (ms : List MsgDatum) (s : Pop) → Serves u s → Serves u (del_deleted ms s)
unfolding del_deleted
del_deleted-Serves u [] s q = q
del_deleted-Serves u (m ∷ ms) s q =
    del_deleted-Serves u ms (if m.deleted then delete_one m.fname s else s)
      (elim m.deleted as (λ b. Serves u (if b then delete_one m.fname s else s)) [
        | true ↦ q
        | false ↦ q
      ])

pub top_commands-Serves : (u l : Text) (s : Pop) → Serves u s → Serves u (top_commands l s).1
unfolding top_commands
top_commands-Serves u l s q = elim (Bool-cases (eq l (lit "NOOP"))) [
  | inl e ↦ rw e q
  | inr e ↦ elim (Bool-cases (eq l (lit "QUIT"))) [
    | inl f ↦ rw (e, f) (del_deleted-Serves u s.msg_data s q)
    | inr f ↦ elim (Bool-cases (eq l (lit "RSET"))) [
      | inl g ↦ rw (e, f, g) q
      | inr g ↦ rw (e, f, g) q
    ]
  ]
]

pub scan_dir-Serves : (u : Text) (s : Pop) → Serves u s → Serves u (scan_dir s).1
unfolding scan_dir
scan_dir-Serves u s q = go (get_msgs s.user s.megatalker s.shared.targets)
  where
    go : (r : Result Msgs × MegaTalker × List TargetData) → Serves u (scanned_to s r).1
    go (ok msgs, m, ts) = q
    go (throws e, m, ts) = q

one-Serves :
    (u : Text) (n : ℕ) (k : ℤ) (o : Option MsgDatum) (s : Pop)
    → Serves u s
    → Serves u (uidl_one n o s).1
      × Serves u (list_one n o s).1
      × Serves u (dele_one n o s).1
      × Serves u (retr_one o s).1
      × Serves u (top_one k o s).1
unfolding uidl_one list_one dele_one retr_one top_one
one-Serves u n k none s q = (q, q, q, q, q)
one-Serves u n k (some m) s q = (q, ground arith, ground arith, ground arith, ground arith)

dispatch-Serves :
    (u w : Text) (args : List Text) (s : Pop) → Serves u s → Serves u (dispatch w args s).1
unfolding dispatch
dispatch-Serves u w [] s q = ground arith
dispatch-Serves u w (a ∷ args) s q =
    let n = message_number a in
    let h = one-Serves u n (top_limit (get_elem? args 0)) (nth n s) s q in
    let Q : Outcome × Pop → Type 0 = λ r. Serves u r.1 in
    if-rule Q (eq w (lit "UIDL")) h.0 (
      if-rule Q (eq w (lit "RETR") && length args == 0) h.3 (
        if-rule Q (eq w (lit "TOP") && leb (length args) 1) h.4 (
          if-rule Q (eq w (lit "DELE") && length args == 0) h.2
            (if-rule Q (eq w (lit "LIST") && length args == 0) h.1 q))))

on_words-Serves : (u : Text) (ws : List Text) (s : Pop) → Serves u s → Serves u (on_words ws s).1
on_words-Serves u [] s q = q
on_words-Serves u (w ∷ args) s q = dispatch-Serves u w args s q

with_scan-Serves :
    (u : Text) (ws : List Text) (r : Option Text × Pop) → Serves u r.1 → Serves u (with_scan ws r).1
with_scan-Serves u ws (some e, s) q = q
with_scan-Serves u ws (none, s) q = on_words-Serves u ws s q

pub rest_commands-Serves : (u l : Text) (s : Pop) → Serves u s → Serves u (rest_commands l s).1
unfolding rest_commands
rest_commands-Serves u l s q = elim (Bool-cases s.scanned) [
  | inl e ↦ simp (q.0, e) (on_words-Serves u (stringtok blanks l) s q)
  | inr e ↦
      simp (q.0, e) (with_scan-Serves u (stringtok blanks l) (scan_dir s) (scan_dir-Serves u s q))
]
