-- ===== src/Pps.antt =====
-- ppsession.cc: a session of the storage daemon, fed with lines. What goes to the logger is left
-- out.
pub mod State
pub mod Commands
pub mod Session
use powermail.Base.{ℕ, Bool, List}
use powermail.Base.Int.{ℤ}
use powermail.Text.{Text}
use powermail.Disk.{Os}
use powermail.Delivery.{Delivery}

pub data Quit : Type 0 where
  no_quit please_quit please_die : Quit

pub data Mode : Type 0 where
  blank un_auth in_limbo pre_limbo in_data dir : Mode

-- The arguments that a session looks at, the load average as `getLoad` prints it, and the host's
-- name. `min_kbytes` is min-kbytes-free as an unsigned int.
pub record Config : Type 0 where
  pub password : Text
  pub listen_address : Text
  pub mail_root : Text
  pub min_kbytes : ℕ
  pub load : Text
  pub hostname : Text

-- The object with its Delivery, which holds the file system, and with `d_full` of its PPState.
pub record Pps (F : Type 0) : Type 0 where
  pub remote : Text
  pub delivery : Delivery F
  pub mode : Mode
  pub failed : Bool
  pub reason : Text
  pub full : Bool

-- What `giveLine` comes to. `silent` is its false, with no response; `reply` has the response, what
-- to do with the connection, the descriptor to send and whether there is more; an exception
-- escapes; and `beyond` is a read behind the end of a vector.
pub data Answer : Type 0 where
  silent : Answer
  reply : Text → Quit → ℤ → Bool → Answer
  escapes : Text → Answer
  beyond : Answer
