-- ===== src/Pop/Session/Invariant.antt =====
-- What each group of commands of popsession.cc leaves of a session.
use powermail.Base.{
  ℕ, zero, suc, ◌≡◌, refl, ap, ◌∙◌, inl, inr, true, false, ◌&&◌, List, [], ◌∷◌, Option, none, some,
  arith, if◌then◌else◌, leb, ◌==◌, Bool-cases, length, get_elem?, set,
}
use powermail.Base.Int.{ℤ}
use powermail.Text.{Text, lit, eq, starts_with}
use powermail.Text.Tokens.{stringtok}
use powermail.Pop.{Config, Pop, MsgDatum, Outcome, pass, reply, escapes}
use powermail.Pop.Login.{login_commands}
use powermail.Pop.Commands.{
  del_deleted, undelete, top_commands, uidl_one, list_one, dele_one, retr_one, top_one, nth,
  dispatch, on_words, rest_commands, control_words, control_commands, message_number, top_limit,
  blanks, delete_one,
}
use powermail.Text.Clean.{strip_line}
use powermail.Pop.Session.{first_word_uc, or_else, give_line, run, not_implemented}

pub or_else-rule :
    (Q : Pop → Type 0) (m : Outcome × Pop) (f : Pop → Outcome × Pop)
    → Q m.1
    → ((s : Pop) → Q s → Q (f s).1)
    → Q (or_else m f).1
or_else-rule Q (pass, s) f q h = h s q
or_else-rule Q (reply r k, s) f q h = q
or_else-rule Q (escapes e, s) f q h = q

control_words_id : (c : Config) (ws : List Text) (s : Pop) → (control_words c ws s).1 ≡ s
control_words_id c [] s = refl
control_words_id c (w ∷ ws) s = ground arith

pub control_commands_id : (c : Config) (l : Text) (s : Pop) → (control_commands c l s).1 ≡ s
unfolding control_commands
control_commands_id c l s = control_words_id c (stringtok blanks l) s

-- The messages' names and sizes, which their numbers stand for.
abbrev pub name_size : MsgDatum → Text × ℕ
name_size m = (m.fname, m.size)

unfoldable pub names : List MsgDatum → List (Text × ℕ)
names [] = []
names (m ∷ ms) = name_size m ∷ names ms

names-undelete : (ms : List MsgDatum) → names (undelete ms) ≡ names ms
unfolding names undelete
names-undelete [] = refl
names-undelete (m ∷ ms) = ap (◌∷◌ (name_size m)) (names-undelete ms)

names-set :
    (ms : List MsgDatum) (n : ℕ) (m : MsgDatum)
    → get_elem? ms n ≡ some m
    → names (set ms n (record m { deleted = true })) ≡ names ms
unfolding names
names-set [] n m h = cc
names-set (x ∷ xs) zero m h = ground arith
names-set (x ∷ xs) (suc n) m h = ap (◌∷◌ (name_size x)) (names-set xs n m h)

-- A session that is logged in and scanned, with these messages.
abbrev pub Settled : List (Text × ℕ) → Pop → Type 0
Settled ns s = (s.login ≡ true) × (s.scanned ≡ true) × (names s.msg_data ≡ ns)

del_deleted-Settled :
    (ns : List (Text × ℕ)) (ms : List MsgDatum) (s : Pop)
    → Settled ns s
    → Settled ns (del_deleted ms s)
unfolding del_deleted
del_deleted-Settled ns [] s q = q
del_deleted-Settled ns (m ∷ ms) s q =
    del_deleted-Settled ns ms (if m.deleted then delete_one m.fname s else s)
      (elim m.deleted as (λ b. Settled ns (if b then delete_one m.fname s else s)) [
        | true ↦ q
        | false ↦ q
      ])

top_commands-Settled :
    (ns : List (Text × ℕ)) (l : Text) (s : Pop) → Settled ns s → Settled ns (top_commands l s).1
unfolding top_commands
top_commands-Settled ns l s q = elim (Bool-cases (eq l (lit "NOOP"))) [
  | inl e ↦ rw e q
  | inr e ↦ elim (Bool-cases (eq l (lit "QUIT"))) [
    | inl f ↦ rw (e, f) (del_deleted-Settled ns s.msg_data s q)
    | inr f ↦ elim (Bool-cases (eq l (lit "RSET"))) [
      | inl g ↦ rw (e, f, g) (q.0, q.1, names-undelete s.msg_data ∙ q.2)
      | inr g ↦ rw (e, f, g) q
    ]
  ]
]

pub login_commands_id :
    (c : Config) (l : Text) (s : Pop) → s.login ≡ true → (login_commands c l s).1 ≡ s
unfolding login_commands
login_commands_id c l s h = elim (Bool-cases (starts_with (lit "APOP ") l)) [
  | inl e ↦ simp (e, h) refl
  | inr e ↦ elim (Bool-cases (starts_with (lit "USER ") l)) [
    | inl f ↦ simp (e, f, h) refl
    | inr f ↦ elim (Bool-cases (starts_with (lit "PASS ") l)) [
      | inl g ↦ simp (e, f, g, h) refl
      | inr g ↦ simp (e, f, g) refl
    ]
  ]
]

dele_one-Settled :
    (ns : List (Text × ℕ)) (n : ℕ) (o : Option MsgDatum) (s : Pop)
    → get_elem? s.msg_data n ≡ o
    → Settled ns s
    → Settled ns (dele_one n o s).1
unfolding dele_one
dele_one-Settled ns n none s h q = q
dele_one-Settled ns n (some m) s h q = elim (Bool-cases m.deleted) [
  | inl e ↦ rw e q
  | inr e ↦ simp e (q.0, q.1, names-set s.msg_data n m h ∙ q.2)
]

retr_one-Settled :
    (ns : List (Text × ℕ)) (o : Option MsgDatum) (s : Pop)
    → Settled ns s
    → Settled ns (retr_one o s).1
unfolding retr_one
retr_one-Settled ns none s q = q
retr_one-Settled ns (some m) s q = ground arith

top_one-Settled :
    (ns : List (Text × ℕ)) (k : ℤ) (o : Option MsgDatum) (s : Pop)
    → Settled ns s
    → Settled ns (top_one k o s).1
unfolding top_one
top_one-Settled ns k none s q = q
top_one-Settled ns k (some m) s q = ground arith

uidl_one_id : (n : ℕ) (o : Option MsgDatum) (s : Pop) → (uidl_one n o s).1 ≡ s
unfolding uidl_one
uidl_one_id n none s = refl
uidl_one_id n (some m) s = refl

list_one_id : (n : ℕ) (o : Option MsgDatum) (s : Pop) → (list_one n o s).1 ≡ s
unfolding list_one
list_one_id n none s = refl
list_one_id n (some m) s = ground arith

dispatch-Settled :
    (ns : List (Text × ℕ)) (w : Text) (args : List Text) (s : Pop)
    → Settled ns s
    → Settled ns (dispatch w args s).1
unfolding dispatch
dispatch-Settled ns w [] s q = ground arith
dispatch-Settled ns w (a ∷ args) s q =
    let n = message_number a in
    elim (Bool-cases (eq w (lit "UIDL"))) [
      | inl e ↦ rw (e, uidl_one_id n (nth n s) s) q
      | inr e ↦ elim (Bool-cases (eq w (lit "RETR") && length args == 0)) [
        | inl f ↦ rw (e, f) (retr_one-Settled ns (nth n s) s q)
        | inr f ↦ elim (Bool-cases (eq w (lit "TOP") && leb (length args) 1)) [
          | inl g ↦ rw (e, f, g) (top_one-Settled ns (top_limit (get_elem? args 0)) (nth n s) s q)
          | inr g ↦ elim (Bool-cases (eq w (lit "DELE") && length args == 0)) [
            | inl h ↦ rw (e, f, g, h) (dele_one-Settled ns n (nth n s) s refl q)
            | inr h ↦ elim (Bool-cases (eq w (lit "LIST") && length args == 0)) [
              | inl k ↦ rw (e, f, g, h, k, list_one_id n (nth n s) s) q
              | inr k ↦ rw (e, f, g, h, k) q
            ]
          ]
        ]
      ]
    ]

on_words-Settled :
    (ns : List (Text × ℕ)) (ws : List Text) (s : Pop) → Settled ns s → Settled ns (on_words ws s).1
on_words-Settled ns [] s q = q
on_words-Settled ns (w ∷ args) s q = dispatch-Settled ns w args s q

rest_commands-Settled :
    (ns : List (Text × ℕ)) (l : Text) (s : Pop) → Settled ns s → Settled ns (rest_commands l s).1
unfolding rest_commands
rest_commands-Settled ns l s q = simp (q.0, q.1) (on_words-Settled ns (stringtok blanks l) s q)

pub give_line-Settled :
    (c : Config) (ns : List (Text × ℕ)) (l : Text) (s : Pop)
    → Settled ns s
    → Settled ns (give_line c l s).1
unfolding give_line
give_line-Settled c ns raw s q =
    let line = first_word_uc (strip_line raw) in
    let m = or_else (control_commands c line s) (top_commands line) in
    let n = or_else m (login_commands c line) in
    let first : Settled ns m.1 =
      or_else-rule (Settled ns) (control_commands c line s) (top_commands line)
        (rw (control_commands_id c line s) q) (top_commands-Settled ns line) in
    let second : Settled ns n.1 =
      or_else-rule (Settled ns) m (login_commands c line) first
        (λ t p. rw (login_commands_id c line t p.0) p) in
    or_else-rule (Settled ns) (or_else n (rest_commands line)) not_implemented
      (or_else-rule (Settled ns) n (rest_commands line) second (rest_commands-Settled ns line))
      (λ t p. p)

-- Once the mailbox is scanned, every later line of a session leaves it logged in and leaves the
-- messages in place: a message number means the same message, with its name and size, until the end.
pub run-Settled :
    (c : Config) (ns : List (Text × ℕ)) (ls : List Text) (s : Pop)
    → Settled ns s
    → Settled ns (run c ls s)
unfolding run
run-Settled c ns [] s q = q
run-Settled c ns (l ∷ ls) s q =
    run-Settled c ns ls (give_line c l s).1 (give_line-Settled c ns l s q)
