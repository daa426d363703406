-- ===== src/Lib.antt =====
-- PowerMail: the mail receiver's protocols, its distribution over backends, and its helpers.
--
-- A front end (powersmtp, powerpop, powerimap) feeds the lines of a client to a session
-- (smtpsession.cc, popsession.cc, imapsession.cc). A session asks a user base for accounts (userbase.cc, userbases/text/textbase.cc),
-- which it takes from a pool (pool.hh), and hands messages to a MegaTalker (megatalker.cc). A
-- MegaTalker speaks to storage backends through PPTalkers (pptalker.cc), which serversel.cc chooses,
-- and to a forwarding mail server through SmtpTalkers (smtptalker.cc). All speak through
-- a Session (session.cc), line by line. At the other end of a PPTalker is the storage daemon: its
-- sessions (ppsession.cc) keep messages in directories (delivery.cc).
--
-- Which file models what:
--   Base and its children: numbers, tests, lists and signed integers that the others share.
--   Text: strings as lists of bytes. Text.Tokens, Text.Clean and Text.Number are misc.hh and misc.cc.
--   Pool: pool.hh. A function is one critical section or semaphore call of PoolClass; Pool.Steps has
--     the histories, Pool.Handle the handles.
--   Net: a Session's getLine and putLine, which take their results from a script; exceptions.
--   Talker: the virtual calls of talker.hh. Talker.Ppt is pptalker.cc, Talker.Retrieve its
--     blastMessageFD with writen of session.cc, Talker.Status its listMboxes and stat; Talker.Smtpt is smtptalker.cc.
--   Backend: TargetData of megatalker.hh. ServerSel: serversel.cc.
--   Mega: megatalker.cc. Mega.Storage is openStorage and addRemote; Mega.Deliver is addRecipient,
--     startData, msgAddLine, msgDone and msgRollback; Mega.Mailbox is getMsgs; Mega.Failures is
--     delMsg, storeFailure and playbackLog; Mega.Retrieve is blastMessageFD; Mega.Watch is setBackends
--     and the round of doStateThread.
--   UserBase: userbase.hh and userbase.cc; UserBase.TextBase is userbases/text/textbase.cc.
--   Pop: popsession.cc. Smtp: smtpsession.cc. Their Session modules have giveLine and the run of a
--     session over lines. Imap: imapsession.cc.
--   Args: argsettings.cc; Args.Parse reads the command line and the configuration file,
--     Args.Print is makeHelp and makeConfig.
--   Disk: the system calls on files, as an interface with its laws, and one that meets them.
--   Delivery: delivery.cc. Delivery.Message is addFile to commit, Delivery.Mailbox is getMessageFD,
--     delMessage, listMbox and nuke, Delivery.Listing is startList and getListNext.
--   Pps: ppsession.cc. Pps.State is PPState, Pps.Commands the commands, Pps.Session giveLine.
--   Net.Buffer and Net.Write: the buffer of getLine and the loop of putLine in session.cc.
--   Tests: the theorems on concrete inputs.
--
-- An object is a record, a method a function from the record to the result and the record behind it.
-- An exception is a `throws` with the state at that point. A static member is in Mega.Shared.Shared.
-- Machine integers wrap around where the code can exceed them: `to_int32`, `to_size` and `% 2 ^ w`.
-- Random numbers, connections and what a remote answers come from lists in the state, so that a
-- theorem holds for every run of them.
--
-- Fuel: stringtok_from has one more round than the text has bytes, digits_onto one more than the
-- number; a round uses a byte or a digit. The loops that read lines from a remote are on the script.
-- openStorage makes as many rounds as the redundancy. getLine has two rounds more than there are bytes
-- to come, and moreDir one more than there are directories left to list.
--
-- Not modelled: sockets, start-up and logging; the tool of pptool.cc; the user bases of database
-- servers; generated and copied code (md5.cc, textlexer.c, textparser.cc). md5calc, crypt and strtod are
-- parameters, and so are the system calls on files; what their manual says of close, unlink and
-- rename is in Disk.Names, for regular files and names under which nothing stands.
pub mod Base
pub mod Text
pub mod Pool
pub mod Net
pub mod Talker
pub mod Backend
pub mod ServerSel
pub mod Mega
pub mod UserBase
pub mod Pop
pub mod Smtp
pub mod Imap
pub mod Args
pub mod Disk
pub mod Delivery
pub mod Pps
pub mod Tests
