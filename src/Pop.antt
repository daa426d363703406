-- ===== src/Pop.antt =====
-- popsession.cc: a POP3 session, fed with lines.
pub mod Login
pub mod Commands
pub mod Session
use powermail.Base.{
  ℕ, ◌+◌, ◌%◌, ◌^◌, Bool, true, false, List, [], ◌∷◌, ◌++◌, Option, none, some, if◌then◌else◌,
}
use powermail.Base.Int.{ℤ, pos}
use powermail.Text.{Text, lit}
use powermail.Text.Number.{utoa}
use powermail.Net.{Result, ok, throws}
use powermail.Talker.Retrieve.{Client}
use powermail.UserBase.{UserBase}
use powermail.Mega.Shared.{Shared, MegaTalker}
use powermail.Mega.Mailbox.{get_msgs}
use powermail.Mega.Index.{Msgs}

pub data Quit : Type 0 where
  no_quit please_quit please_die : Quit

pub record MsgDatum : Type 0 where
  pub fname : Text
  pub deleted : Bool
  pub size : ℕ

-- What a session consults: the user base, and the argument listen-address.
pub record Config : Type 0 where
  pub users : UserBase
  pub listen_address : Text

-- The object, the static state of the MegaTalker, and the client's descriptor.
-- `megatalker` is the MegaTalker that a login makes; before one it is a null pointer.
pub record Pop : Type 0 where
  pub remote : Text
  pub user : Text
  pub login : Bool
  pub challenge : Text
  pub msg_data : List MsgDatum
  pub scanned : Bool
  pub megatalker : MegaTalker
  pub retrieved : ℕ
  pub deleted : ℕ
  pub shared : Shared
  pub client : Client

-- What a group of commands makes of a line: it is for another group, there is a response, or an
-- exception leaves `giveLine`.
pub data Outcome : Type 0 where
  pass : Outcome
  reply : Text → Quit → Outcome
  escapes : Text → Outcome

abbrev pub Handler : Type 0
Handler = Pop → Outcome × Pop

abbrev datum : Text × ℕ → MsgDatum
datum (i, n) = record { fname = i; deleted = false; size = n }

abbrev pub data_of : Msgs → List MsgDatum
data_of [] = []
data_of (e ∷ es) = datum e ∷ data_of es

-- `some r` is a failure, with the response.
abbrev pub scanned_to :
    Pop → Result Msgs × MegaTalker × List powermail.Backend.TargetData → Option Text × Pop
scanned_to s (ok msgs, m, ts) = (
  none,
  record s {
    msg_data = s.msg_data ++ data_of msgs;
    scanned = true;
    megatalker = m;
    shared = record s.shared { targets = ts };
  },
)
scanned_to s (throws e, m, ts) = (
  some (lit "-ERR " ++ e),
  record s { megatalker = m; shared = record s.shared { targets = ts } },
)

unfoldable pub scan_dir : Pop → Option Text × Pop
scan_dir s = scanned_to s (get_msgs s.user s.megatalker s.shared.targets)

-- The number of messages that are not deleted, and their bytes, a size_t.
unfoldable pub live_count : List MsgDatum → ℕ
live_count [] = 0
live_count (m ∷ ms) = (if m.deleted then 0 else 1) + live_count ms

unfoldable pub live_bytes : List MsgDatum → ℕ
live_bytes [] = 0
live_bytes (m ∷ ms) = (if m.deleted then 0 else m.size) + live_bytes ms

unfoldable pub make_stat_response : Pop → Text
unfolding live_count live_bytes
make_stat_response s =
    lit "+OK "
    ++ (utoa (live_count s.msg_data) ++ (lit " " ++ utoa (live_bytes s.msg_data % 2 ^ 64)))
