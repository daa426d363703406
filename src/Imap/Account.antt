-- ===== src/Imap/Account.antt =====
-- Who a session of imapsession.cc serves: nobody before the user base confirms a password.
use powermail.Base.{
  ◌≡◌, refl, ◌⊎◌, inl, inr, Bool, true, false, ◌||◌, List, [], ◌∷◌, Option, none, some,
  if◌then◌else◌, if-rule, if-false, length, drop,
}
use powermail.Text.{Text, lit, eq, before}
use powermail.Text.Clean.{strip_line}
use powermail.Text.Tokens.{stringtok}
use powermail.Net.{Result, ok, throws}
use powermail.Backend.{TargetData}
use powermail.Mega.Shared.{Shared, MegaTalker, create}
use powermail.Mega.Mailbox.{get_msgs}
use powermail.Mega.Index.{Msgs}
use powermail.UserBase.{MboxData, Lookup, unavailable, absent, present}
use powermail.Pop
use powermail.Pop.Login.{percent_to_at, fallback, try_accounts}
use powermail.Pop.Session.Account.{Confirmed, try_accounts-Confirmed}
use powermail.Imap.{
  Config, Imap, Outcome, pass, reply, start, scanned_to, scan_dir, first_scan, admitted, log_in,
  quoted, unauth_commands, selected, select, un_selected_commands, or_else, tagged, skip_spaces,
  dispatch, on_words, give_line, run,
}

-- The user base of the session, as a POP3 session would see it.
abbrev pub with_users : Config → Pop.Config
with_users c = record { users = c.users; listen_address = [] }

-- Nothing was read of a mailbox.
abbrev pub Outside : Shared → Imap → Type 0
Outside sh s = (s.login ≡ false) × (s.msg_data ≡ []) × (s.shared ≡ sh)

abbrev pub Guarded : Config → Shared → Imap → Type 0
Guarded c sh s = Outside sh s ⊎ ((s.login ≡ true) × Confirmed (with_users c) s.user)

-- A session that is logged in, as it is after a scan.
abbrev Served : Config → Imap → Type 0
Served c s = (s.login ≡ true) × Confirmed (with_users c) s.user

module _ (c : Config) (sh : Shared) where
  scanned_to-Served :
      (s : Imap) (r : Result Msgs × MegaTalker × List TargetData)
      → Served c s
      → Served c (scanned_to s r).1
  scanned_to-Served s (ok ms, m, ts) q = q
  scanned_to-Served s (throws e, m, ts) q = q

  scan_dir-Served : (s : Imap) → Served c s → Served c (scan_dir s).1
  unfolding scan_dir
  scan_dir-Served s q = scanned_to-Served s (get_msgs s.user s.megatalker s.shared.targets) q

  first_scan-Served : (r : Option Text × Imap) → Served c r.1 → Served c (first_scan r).1
  first_scan-Served (some e, s) q = q
  first_scan-Served (none, s) q = q

  admitted-Guarded :
      (s : Imap) (r : Lookup)
      → Outside sh s
      → ((md : MboxData) → r ≡ present md true → Confirmed (with_users c) md.canonical_mbox)
      → Guarded c sh (admitted s r).1
  admitted-Guarded s (unavailable e) o k = inl o
  admitted-Guarded s (absent e) o k = inl o
  admitted-Guarded s (present md false) o k = inl o
  admitted-Guarded s (present md true) o k =
      let t : Imap = record s { user = md.canonical_mbox; login = true; megatalker = create } in
      inr (first_scan-Served (scan_dir t) (scan_dir-Served t (refl, k md refl)))

  log_in-Guarded : (ws : List Text) (s : Imap) → Outside sh s → Guarded c sh (log_in c ws s).1
  log_in-Guarded [] s o = inl o
  log_in-Guarded (w ∷ []) s o = inl o
  log_in-Guarded (w ∷ u ∷ []) s o = inl o
  log_in-Guarded (w ∷ u ∷ p ∷ x ∷ ws) s o = inl o
  log_in-Guarded (w ∷ u ∷ p ∷ []) s o =
      let user = percent_to_at u in
      let tries : List Text = user ∷ fallback user ∷ [] in
      admitted-Guarded (record s { user = user }) (try_accounts c.users p [] tries) o
        (try_accounts-Confirmed (with_users c) p [] tries)

  unauth_commands-Guarded :
      (w line : Text) (s : Imap) → Guarded c sh s → Guarded c sh (unauth_commands c w line s).1
  unfolding unauth_commands
  unauth_commands-Guarded w line s q =
      let Q : Outcome × Imap → Type 0 = λ r. Guarded c sh r.1 in
      if-rule Q (eq w (lit "CAPABILITY")) q (
        if-rule Q (eq w (lit "LOGOUT")) q
          (if-rule Q (eq w (lit "LOGIN")) (by_login s.login refl q) q))
    where
      by_login :
          (b : Bool)
          → s.login ≡ b
          → Guarded c sh s
          → Guarded c sh
              (if b
                then (reply (lit "NO Already logged in") false, s)
                else log_in c (stringtok quoted line) s).1
      by_login true e q = q
      by_login false e (inl o) = log_in-Guarded (stringtok quoted line) s o
      by_login false e (inr (k, q)) = cc

  selected-Served : (w : Text) (r : Option Text × Imap) → Served c r.1 → Served c (selected c w r).1
  selected-Served w (some e, s) q = q
  selected-Served w (none, s) q = q

  select-Served : (w : Text) (ws : List Text) (s : Imap) → Served c s → Served c (select c w ws s).1
  select-Served w [] s q = q
  select-Served w (a ∷ []) s q = q
  select-Served w (a ∷ b ∷ x ∷ ws) s q = q
  select-Served w (a ∷ b ∷ []) s q =
      if-rule (λ (r : Outcome × Imap). Served c r.1) (eq b (lit "INBOX"))
        (selected-Served w (scan_dir s) (scan_dir-Served s q)) q

  un_selected_commands-Guarded :
      (w line : Text) (s : Imap) → Guarded c sh s → Guarded c sh (un_selected_commands c w line s).1
  unfolding un_selected_commands
  un_selected_commands-Guarded w line s (inl o) =
      if-false (λ (r : Outcome × Imap). Guarded c sh r.1) s.login _ (o.0) (inl o)
  un_selected_commands-Guarded w line s (inr q) =
      let Q : Outcome × Imap → Type 0 = λ r. Guarded c sh r.1 in
      if-rule Q s.login
        (if-rule Q (eq w (lit "SELECT") || eq w (lit "EXAMINE"))
          (inr (select-Served w (stringtok quoted line) s q)) (inr q))
        (inr q)

  or_else-Guarded :
      (m : Outcome × Imap) (k : Imap → Outcome × Imap)
      → Guarded c sh m.1
      → ((s : Imap) → Guarded c sh s → Guarded c sh (k s).1)
      → Guarded c sh (or_else m k).1
  or_else-Guarded (pass, s) k q h = h s q
  or_else-Guarded (reply r e, s) k q h = q

  tagged-Guarded :
      (tag : Text) (r : Outcome × Imap) → Guarded c sh r.1 → Guarded c sh (tagged tag r).1
  tagged-Guarded tag (pass, s) q = q
  tagged-Guarded tag (reply r e, s) q = q

  on_words-Guarded :
      (line : Text) (ws : List Text) (s : Imap)
      → Guarded c sh s
      → Guarded c sh (on_words c line ws s).1
  on_words-Guarded line [] s q = q
  on_words-Guarded line (tag ∷ []) s q = q
  on_words-Guarded line (tag ∷ w ∷ ws) s q =
      let command = skip_spaces (drop (length tag) line) in
      let word = before (lit " \t") command in
      tagged-Guarded tag (dispatch c word command s) (
        or_else-Guarded (unauth_commands c word command s) (un_selected_commands c word command)
          (unauth_commands-Guarded word command s q) (un_selected_commands-Guarded word command))

  run-Guarded : (ls : List Text) (s : Imap) → Guarded c sh s → Guarded c sh (run c ls s)
  unfolding run give_line
  run-Guarded [] s q = q
  run-Guarded (l ∷ ls) s q =
      run-Guarded ls (give_line c l s).1
        (on_words-Guarded (strip_line l) (stringtok (lit " \t\n") (strip_line l)) s q)

  -- Whatever lines a new session is fed with, it is not logged in, and has read no mailbox and left
  -- the shared state alone, or it is logged in, and the user base confirmed a password for an
  -- account of the mailbox that it serves.
  pub run-start-Guarded : (ls : List Text) → Guarded c sh (run c ls (start sh))
  unfolding start
  run-start-Guarded ls = run-Guarded ls (start sh) (inl (refl, refl, refl))
