-- ===== src/Delivery/Mailbox.antt =====
-- delivery.cc: the messages of a mailbox, `getMessageFD`, `delMessage`, `listMbox` and `nuke`.
use powermail.Base.{List, [], ◌∷◌, ◌++◌, Option, none, some, ◌==◌, if◌then◌else◌}
use powermail.Base.Int.{ℤ, pos, negsuc}
use powermail.Text.{Text, lit}
use powermail.Text.Number.{utoa}
use powermail.Net.{Result, ok, throws, Exec, ◌>>◌}
use powermail.Disk.{Rc, returns, fails, enoent, Stat, Dir, entries, no_dir, Os}
use powermail.Delivery.{Delivery}
use powermail.Delivery.Message.{calc_maildir, cur_path}

module _ (os : Os) where
  abbrev pub opened_message : Delivery os.Fs → Rc × os.Fs → (ℤ × Text) × Delivery os.Fs
  opened_message d (returns n, f) = ((pos n, lit "+OK"), record d { fs = f })
  opened_message d (fails e, f) = ((negsuc 0, lit "-ERR " ++ os.strerror e), record d { fs = f })

  -- The descriptor and the response.
  unfoldable pub get_message_fd : Text → Text → Delivery os.Fs → (ℤ × Text) × Delivery os.Fs
  get_message_fd mbox index d =
      opened_message d (os.open_read (cur_path d.mailroot mbox index) d.fs)

  abbrev pub deleted : Text → Delivery os.Fs → Rc × os.Fs → Text × Delivery os.Fs
  deleted path d (returns n, f) = (lit "+OK", record d { fs = f })
  deleted path d (fails e, f) = (
    if e == enoent then lit "+OK" else lit "-ERR File: '" ++ (path ++ (lit "' " ++ os.strerror e)),
    record d { fs = f },
  )

  unfoldable pub del_message : Text → Text → Delivery os.Fs → Text × Delivery os.Fs
  del_message mbox index d =
      let path = cur_path d.mailroot mbox index in deleted path d (os.unlink path d.fs)

  abbrev pub list_entry : Text → Option Stat → Text
  list_entry name none = []
  list_entry name (some st) =
      if st.regular then name ++ (lit " " ++ (utoa st.size ++ lit "\n")) else []

  unfoldable pub list_entries : Text → List Text → os.Fs → Text
  list_entries dir [] f = []
  list_entries dir (n ∷ ns) f =
      list_entry n (os.stat (dir ++ (lit "/" ++ n)) f) ++ list_entries dir ns f

  abbrev pub listed : Text → os.Fs → Dir → Text
  listed dir f (entries ns) = lit "+OK\n" ++ (list_entries dir ns f ++ lit ".")
  listed dir f (no_dir e) = if e == enoent then lit "+OK\n." else lit "-ERR " ++ os.strerror e

  -- `errno` there is that of `opendir`, where `access` succeeded.
  abbrev pub listed_at : Text → os.Fs → Rc → Text
  listed_at dir f (returns n) = listed dir f (os.read_dir dir f)
  listed_at dir f (fails e) = lit "-ERR: " ++ os.strerror e

  unfoldable pub list_mbox : Text → Delivery os.Fs → Text
  list_mbox mbox d =
      listed_at (calc_maildir d.mailroot mbox ++ lit "/cur/") d.fs (os.access_write d.mailroot d.fs)

  abbrev pub removed : Text → Delivery os.Fs → Rc × os.Fs → Result (Unit {0}) × Delivery os.Fs
  removed what d (returns n, f) = (ok tt, record d { fs = f })
  removed what d (fails e, f) = (
    if e == enoent then ok tt else throws (what ++ (lit "': " ++ os.strerror e)),
    record d { fs = f },
  )

  abbrev pub remove_entry : Text → Option Stat → Exec (Delivery os.Fs) (Unit {0})
  remove_entry path none d = (ok tt, d)
  remove_entry path (some st) d =
      if st.regular
      then removed (lit "Deleting file '" ++ path) d (os.unlink path d.fs)
      else (ok tt, d)

  unfoldable pub nuke_entries : Text → List Text → Exec (Delivery os.Fs) (Unit {0})
  nuke_entries dir [] d = (ok tt, d)
  nuke_entries dir (n ∷ ns) d =
      let path = dir ++ (lit "/" ++ n) in
      (remove_entry path (os.stat path d.fs) >> nuke_entries dir ns) d

  abbrev pub nuke_opened : Text → Dir → Exec (Delivery os.Fs) (Unit {0})
  nuke_opened dir (no_dir e) d =
      if e == enoent
      then (ok tt, d)
      else (throws (lit "Unable to open '" ++ (dir ++ (lit "': " ++ os.strerror e))), d)
  nuke_opened dir (entries ns) d =
      (nuke_entries dir ns
          >> (λ d. removed (lit "Removing directory '" ++ dir) d (os.rmdir dir d.fs)))
        d

  unfoldable pub nuke_dir : Text → Exec (Delivery os.Fs) (Unit {0})
  nuke_dir dir d = nuke_opened dir (os.read_dir dir d.fs) d

  abbrev pub nuked : Result (Unit {0}) × Delivery os.Fs → Text × Delivery os.Fs
  nuked (ok _, d) = (lit "+OK", d)
  nuked (throws r, d) = (lit "-ERR " ++ r, d)

  unfoldable pub nuke : Text → Delivery os.Fs → Text × Delivery os.Fs
  nuke mbox d =
      let dir = calc_maildir d.mailroot mbox in
      nuked (
        (nuke_dir (dir ++ lit "/cur") >> nuke_dir (dir ++ lit "/tmp") >> nuke_dir (dir ++ lit "/"))
          d)
