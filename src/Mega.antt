-- ===== src/Mega.antt =====
-- The MegaTalker of megatalker.cc: a message goes to several backends, a mailbox is the union of
-- what all of them list. `Mega.Shared` models the static state.
pub mod Shared
pub mod Storage
pub mod Deliver
pub mod Mailbox
pub mod Failures
pub mod Index
pub mod Retrieve
pub mod Watch
