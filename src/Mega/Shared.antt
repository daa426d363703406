-- ===== src/Mega/Shared.antt =====
-- The static state of megatalker.cc, the connections that are made, and the object's own state.
use powermail.Base.{ℕ, Bool, false, List, []}
use powermail.Text.{Text}
use powermail.Net.{Io}
use powermail.Talker.{Talker}
use powermail.Talker.Ppt.{MsgInfo}
use powermail.Backend.{TargetData}
use powermail.ServerSel.{Spread}
use powermail.Mega.Failures.{Files}

-- What the next `new Session(address, port, timeout)` does.
pub data Dial : Type 0 where
  refused : Text → Dial
  opened : List Io → Dial

-- `files` are the failure logs in `s_statedir`, their lines by the backend's name. `dials` and `randoms` are
-- what the network yields, and the random numbers of a call of `getServer`; each use takes one.
pub record Shared : Type 0 where
  pub targets : List TargetData
  pub redundancy : ℕ
  pub spread : Spread
  pub files : Files
  pub dials : List Dial
  pub randoms : List (ℕ × List ℕ)
  pub sender_address : Text
  pub sender_port : ℕ
  pub hostname : Text

-- `alive` is the field `ok`.
pub record TalkerData : Type 0 where
  pub talker : Talker
  pub address : Text
  pub port : ℕ
  pub alive : Bool

-- `mega_data` has the listings by backend, in the order of `s_targets`.
pub record MegaTalker : Type 0 where
  pub msgnum : ℕ
  pub index : Text
  pub talkers : List TalkerData
  pub mega_data : List (TargetData × List MsgInfo)
  pub degraded : Bool
  pub mbox : Text

-- The constructor.
unfoldable pub create : MegaTalker
create = record {
  msgnum = 0;
  index = [];
  talkers = [];
  mega_data = [];
  degraded = false;
  mbox = [];
}
