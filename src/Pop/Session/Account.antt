-- ===== src/Pop/Session/Account.antt =====
-- Who a session of popsession.cc serves: nobody before the user base confirms a password.
use powermail.Base.{
  ◌≡◌, refl, ap, ◌∙◌, ◌⊎◌, inl, inr, true, false, List, [], ◌∷◌, Option, none, some, if-rule,
  if-false, drop,
}
use powermail.Text.{Text, lit, eq, empty, starts_with}
use powermail.Text.Clean.{strip_line}
use powermail.Talker.Retrieve.{Writen}
use powermail.Mega.Shared.{Shared, create}
use powermail.UserBase.{MboxData, Lookup, unavailable, absent, present}
use powermail.Pop.{Config, Pop, MsgDatum, Outcome, scan_dir}
use powermail.Pop.Login.{
  percent_to_at, fallback, try_accounts, authenticate, apop, apop_user, apop_digit, login_commands,
  admitted, first_scan,
}
use powermail.Pop.Commands.{del_deleted, undelete, top_commands, rest_commands, control_commands}
use powermail.Pop.Session.{start, first_word_uc, or_else, give_line, run, not_implemented}
use powermail.Pop.Session.Invariant.{or_else-rule, control_commands_id, login_commands_id}
use powermail.Pop.Session.Served.{
  Serves, top_commands-Serves, scan_dir-Serves, rest_commands-Serves,
}

-- The user base said that a password was right for an account with the session's mailbox.
abbrev pub Confirmed : Config → Text → Type 0
Confirmed c user =
    (dest : Text) × (password : Text) × (challenge : Text) × (md : MboxData) × (c.users.mbox_data
        dest password challenge
      ≡ present md true)
    × (user ≡ md.canonical_mbox)

-- Nothing was shown of a mailbox or done to one.
abbrev pub Outside : Shared → Pop → Type 0
Outside sh s =
    (s.login ≡ false) × (s.msg_data ≡ []) × (s.client.out ≡ []) × (s.deleted ≡ 0) × (s.shared ≡ sh)

abbrev pub Guarded : Config → Shared → Pop → Type 0
Guarded c sh s = Outside sh s ⊎ ((s.login ≡ true) × Confirmed c s.user)

tried-Confirmed :
    (c : Config) (d password challenge : Text) (md : MboxData) (rest r : Lookup)
    → c.users.mbox_data d password challenge ≡ r
    → (rest ≡ present md true → Confirmed c md.canonical_mbox)
    → ◌≡◌ {A = Lookup}
        (elim r [
          | unavailable e ↦ unavailable e
          | absent e ↦ rest
          | present md' ok' ↦ present md' ok'
        ])
        (present md true)
    → Confirmed c md.canonical_mbox
tried-Confirmed c d pw ch md rest (unavailable x) e h k = cc
tried-Confirmed c d pw ch md rest (absent x) e h k = h k
tried-Confirmed c d pw ch md rest (present m b) e h k = (d, pw, ch, md, e ∙ k, refl)

pub try_accounts-Confirmed :
    (c : Config) (password challenge : Text) (ds : List Text) (md : MboxData)
    → try_accounts c.users password challenge ds ≡ present md true
    → Confirmed c md.canonical_mbox
unfolding try_accounts
try_accounts-Confirmed c password challenge [] md h = cc
try_accounts-Confirmed c password challenge (d ∷ ds) md h =
    tried-Confirmed c d password challenge md (try_accounts c.users password challenge ds)
      (c.users.mbox_data d password challenge) refl
      (try_accounts-Confirmed c password challenge ds md) h

first_scan-Serves : (u : Text) (r : Option Text × Pop) → Serves u r.1 → Serves u (first_scan r).1
first_scan-Serves u (some e, s) q = q
first_scan-Serves u (none, s) q = q

Serves-Guarded :
    (c : Config) (sh : Shared) (u : Text) (s : Pop) → Confirmed c u → Serves u s → Guarded c sh s
Serves-Guarded c sh u s k q = inr (q.0, rw q.1 k)

admitted-Guarded :
    (c : Config) (sh : Shared) (prefix : Text) (s : Pop) (r : Lookup)
    → Outside sh s
    → ((md : MboxData) → r ≡ present md true → Confirmed c md.canonical_mbox)
    → Guarded c sh (admitted prefix s r).1
admitted-Guarded c sh p s (unavailable e) o k = inl o
admitted-Guarded c sh p s (absent e) o k = inl o
admitted-Guarded c sh p s (present md false) o k = inl o
admitted-Guarded c sh p s (present md true) o k =
    let t = record s { user = md.canonical_mbox; login = true; megatalker = create } in
    Serves-Guarded c sh md.canonical_mbox (first_scan (scan_dir t)).1 (k md refl) (
      first_scan-Serves md.canonical_mbox (scan_dir t)
        (scan_dir-Serves md.canonical_mbox t (refl, refl)))

authenticate-Guarded :
    (c : Config) (sh : Shared) (prefix password challenge : Text) (s : Pop)
    → Outside sh s
    → Guarded c sh (authenticate c prefix password challenge s).1
unfolding authenticate
authenticate-Guarded c sh p pw ch s o =
    let user = percent_to_at s.user in
    let tries : List Text = user ∷ fallback user ∷ [] in
    admitted-Guarded c sh p (record s { user = user }) (try_accounts c.users pw ch tries) o
      (try_accounts-Confirmed c pw ch tries)

apop-Guarded :
    (c : Config) (sh : Shared) (l : Text) (s : Pop) → Outside sh s → Guarded c sh (apop c l s).1
unfolding apop
apop-Guarded c sh l s o =
    let Q : Outcome × Pop → Type 0 = λ r. Guarded c sh r.1 in
    if-rule Q (empty (apop_user l)) (inl o) (
      if-rule Q (empty (apop_digit l)) (inl o) (
        authenticate-Guarded c sh (lit "-ERR 1") (apop_digit l) s.challenge
          (record s { user = apop_user l }) o))

login_commands-Guarded :
    (c : Config) (sh : Shared) (l : Text) (s : Pop)
    → Guarded c sh s
    → Guarded c sh (login_commands c l s).1
unfolding login_commands
login_commands-Guarded c sh l s (inr q) = rw (login_commands_id c l s q.0) (inr q)
login_commands-Guarded c sh l s (inl o) =
    let Q : Outcome × Pop → Type 0 = λ r. Guarded c sh r.1 in
    if-rule Q (starts_with (lit "APOP ") l) (if-rule Q s.login (inl o) (apop-Guarded c sh l s o)) (
      if-rule Q (starts_with (lit "USER ") l) (if-rule Q s.login (inl o) (inl o)) (
        if-rule Q (starts_with (lit "PASS ") l)
          (if-rule Q s.login (inl o) (
            if-rule Q (empty s.user) (inl o)
              (authenticate-Guarded c sh (lit "-ERR ") (drop 5 l) [] s o)))
          (inl o)))

del_deleted_nil : (s : Pop) (ms : List MsgDatum) → ms ≡ [] → del_deleted ms s ≡ s
unfolding del_deleted
del_deleted_nil s ms h = ap (λ x. del_deleted x s) h

top_commands-Guarded :
    (c : Config) (sh : Shared) (l : Text) (s : Pop)
    → Guarded c sh s
    → Guarded c sh (top_commands l s).1
unfolding top_commands undelete
top_commands-Guarded c sh l s (inr q) =
    Serves-Guarded c sh s.user (top_commands l s).1 q.1 (top_commands-Serves s.user l s (q.0, refl))
top_commands-Guarded c sh l s (inl o) =
    let Q : Outcome × Pop → Type 0 = λ r. Guarded c sh r.1 in
    if-rule Q (eq l (lit "NOOP")) (inl o) (
      if-rule Q (eq l (lit "QUIT")) (rw (del_deleted_nil s s.msg_data o.1) (inl o))
        (if-rule Q (eq l (lit "RSET")) (inl (o.0, ap undelete o.1, o.2, o.3, o.4)) (inl o)))

rest_commands-Guarded :
    (c : Config) (sh : Shared) (l : Text) (s : Pop)
    → Guarded c sh s
    → Guarded c sh (rest_commands l s).1
unfolding rest_commands
rest_commands-Guarded c sh l s (inr q) =
    Serves-Guarded c sh s.user (rest_commands l s).1 q.1
      (rest_commands-Serves s.user l s (q.0, refl))
rest_commands-Guarded c sh l s (inl o) =
    let Q : Outcome × Pop → Type 0 = λ r. Guarded c sh r.1 in if-false Q s.login _ o.0 (inl o)

give_line-Guarded :
    (c : Config) (sh : Shared) (l : Text) (s : Pop)
    → Guarded c sh s
    → Guarded c sh (give_line c l s).1
unfolding give_line
give_line-Guarded c sh raw s q =
    let Q : Pop → Type 0 = Guarded c sh in
    let line = first_word_uc (strip_line raw) in
    let m = or_else (control_commands c line s) (top_commands line) in
    let n = or_else m (login_commands c line) in
    let first : Q m.1 =
      or_else-rule Q (control_commands c line s) (top_commands line)
        (rw (control_commands_id c line s) q) (top_commands-Guarded c sh line) in
    let second : Q n.1 =
      or_else-rule Q m (login_commands c line) first (login_commands-Guarded c sh line) in
    or_else-rule Q (or_else n (rest_commands line)) not_implemented
      (or_else-rule Q n (rest_commands line) second (rest_commands-Guarded c sh line)) (λ t p. p)

run-Guarded :
    (c : Config) (sh : Shared) (ls : List Text) (s : Pop)
    → Guarded c sh s
    → Guarded c sh (run c ls s)
unfolding run
run-Guarded c sh [] s q = q
run-Guarded c sh (l ∷ ls) s q =
    run-Guarded c sh ls (give_line c l s).1 (give_line-Guarded c sh l s q)

-- Whatever lines a new session is fed with, it is not logged in, and then it has listed no message,
-- sent the client nothing of one, deleted none and left the backends and the shared state alone; or
-- it is logged in, and the user base confirmed a password for an account of the mailbox it serves.
pub run-start :
    (c : Config) (remote challenge : Text) (ws : List Writen) (sh : Shared) (ls : List Text)
    → Guarded c sh (run c ls (start remote challenge ws sh))
unfolding start
run-start c remote challenge ws sh ls =
    run-Guarded c sh ls (start remote challenge ws sh) (inl (refl, refl, refl, refl, refl))
