-- ===== src/Tests.antt =====
-- Runs of the theorems on concrete inputs, in the child modules.
mod Settings
mod Watch
mod Storage
mod Sockets
mod Texts
mod Pools
mod Backends
mod Mail
mod PopSessions
mod ImapSessions
mod SmtpSessions
