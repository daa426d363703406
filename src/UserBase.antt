-- ===== src/UserBase.antt =====
-- userbase.hh and userbase.cc: what is known of an account, and whether a password is right.
pub mod TextBase
pub mod Password
use powermail.Base.{Bool}
use powermail.Base.Int.{ℤ}
use powermail.Text.{Text}

pub record MboxData : Type 0 where
  pub canonical_mbox : Text
  pub mb_quota : ℤ
  pub is_forward : Bool
  pub fwd_dest : Text

-- What `mboxData` reports: a negative return, no such account, or an account and `pwcorrect`.
pub data Lookup : Type 0 where
  unavailable : Text → Lookup
  absent : Text → Lookup
  present : MboxData → Bool → Lookup

-- The user base that is in use: the account's label, the password and the challenge.
pub record UserBase : Type 0 where
  pub mbox_data : Text → Text → Text → Lookup
