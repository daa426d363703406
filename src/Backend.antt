-- ===== src/Backend.antt =====
-- `TargetData` of megatalker.hh: one pplistener and what is known of its state.
use powermail.Base.{ℕ, Bool}
use powermail.Base.Int.{ℤ}
use powermail.Text.{Text}
use powermail.Talker.Ppt.{PpTalker}

-- `load` is a double that is only compared: numbers stand for it. `pp_talker` has a value wherever
-- `up` is set.
pub record TargetData : Type 0 where
  pub address : Text
  pub port : ℕ
  pub group : ℤ
  pub priority : ℤ
  pub up : Bool
  pub readonly : Bool
  pub password : Text
  pub used : Bool
  pub kbfree : ℤ
  pub load : ℕ
  pub error : Text
  pub pp_talker : PpTalker
