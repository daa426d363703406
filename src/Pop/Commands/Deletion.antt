-- ===== src/Pop/Commands/Deletion.antt =====
-- DELE and QUIT of popsession.cc: which messages a session marks, and what it deletes in the end.
use powermail.Base.{
  ℕ, ◌+◌, ◌-◌, ◌^◌, ◌<◌, ◌≡◌, refl, ap, ◌∙◌, inl, inr, true, false, List, [], ◌∷◌, some, arith,
  Bool-cases, length, get_elem?, set, if◌then◌else◌,
}
use powermail.Text.{Text, lit, eq}
use powermail.Text.Number.{utoa, atoi-utoa}
use powermail.Backend.{TargetData}
use powermail.Mega.Failures.{Files, del_msg}
use powermail.Pop.{Pop, MsgDatum, reply, no_quit, please_quit}
use powermail.Pop.Commands.{
  delete_one, del_deleted, top_commands, message_number, nth, dele_one, dispatch,
}

-- A number that a client writes in decimal is the position one below it.
message_number-utoa : (k : ℕ) → 0 < k → k < 2 ^ 31 → message_number (utoa k) ≡ k - 1
unfolding message_number
message_number-utoa k p h = rw (atoi-utoa k h) (omega arith)

dispatch_dele :
    (a : Text) (s : Pop)
    → dispatch (lit "DELE") (a ∷ []) s ≡ dele_one (message_number a) (nth (message_number a) s) s
unfolding dispatch lit eq
dispatch_dele a s = refl

dele_one_unmarked :
    (n : ℕ) (m : MsgDatum) (s : Pop)
    → m.deleted ≡ false
    → dele_one n (some m) s ≡ (
      reply (lit "+OK") no_quit,
      record s { msg_data = set s.msg_data n (record m { deleted = true }) },
    )
unfolding dele_one
dele_one_unmarked n m s d = simp d refl

-- DELE of the number of a message that is not marked, from 1 on and below 2^31, answers +OK and
-- marks it, and changes nothing else.
pub dispatch-utoa :
    (k : ℕ) (m : MsgDatum) (s : Pop)
    → 0 < k
    → k < 2 ^ 31
    → get_elem? s.msg_data (k - 1) ≡ some m
    → m.deleted ≡ false
    → dispatch (lit "DELE") (utoa k ∷ []) s ≡ (
      reply (lit "+OK") no_quit,
      record s { msg_data = set s.msg_data (k - 1) (record m { deleted = true }) },
    )
dispatch-utoa k m s p h g d =
    dispatch_dele (utoa k) s
    ∙ ap (λ n. dele_one n (nth n s) s) (message_number-utoa k p h)
    ∙ ap (λ o. dele_one (k - 1) o s) g
    ∙ dele_one_unmarked (k - 1) m s d

-- The names of the messages that the session marked, in order.
unfoldable pub marked : List MsgDatum → List Text
marked [] = []
marked (m ∷ ms) = let rest = marked ms in if m.deleted then m.fname ∷ rest else rest

-- The delete of each name on all backends, one after the other.
unfoldable pub delete_names : Text → List Text → List TargetData × Files → List TargetData × Files
delete_names mbox [] r = r
delete_names mbox (n ∷ ns) r = delete_names mbox ns (del_msg mbox n r.0 r.1)

-- A session that deleted so many messages, with the backends and the logs behind that.
abbrev pub behind : Pop → ℕ → List TargetData × Files → Pop
behind s n r = record s { deleted = n; shared = record s.shared { targets = r.0; files = r.1 } }

del_deleted_lem :
    (ms : List MsgDatum) (s : Pop)
    → del_deleted ms s
      ≡ behind s
          (s.deleted + length (marked ms))
          (delete_names s.megatalker.mbox (marked ms) (s.shared.targets, s.shared.files))
unfolding del_deleted marked delete_names
del_deleted_lem [] s = ap (λ n. record s { deleted = n }) (omega arith)
del_deleted_lem (m ∷ ms) s = elim (Bool-cases m.deleted) [
  | inl e ↦
      let r = del_msg s.megatalker.mbox m.fname s.shared.targets s.shared.files in
      simp e (
        del_deleted_lem ms (delete_one m.fname s)
        ∙ ap (λ n. behind s n (delete_names s.megatalker.mbox (marked ms) r)) (omega arith))
  | inr e ↦ simp e (del_deleted_lem ms s)
]

-- QUIT says goodbye, and has the names of the marked messages deleted from the mailbox, one after
-- the other and each on all backends, with those of the messages that are not marked left out. It
-- counts one deletion for each, and changes nothing else of the session.
pub top_commands_quit :
    (s : Pop)
    → top_commands (lit "QUIT") s ≡ (
      reply (lit "+OK ") please_quit,
      behind s
          (s.deleted + length (marked s.msg_data))
          (delete_names s.megatalker.mbox (marked s.msg_data) (s.shared.targets, s.shared.files)),
    )
unfolding top_commands lit eq
top_commands_quit s = ap (λ t. (reply (lit "+OK ") please_quit, t)) (del_deleted_lem s.msg_data s)
