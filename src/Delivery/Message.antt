-- ===== src/Delivery/Message.antt =====
-- delivery.cc: taking a message in, `addFile` to `commit` and `rollBack`.
pub mod Atomic
pub mod Place
use powermail.Base.{
  ℕ, ◌+◌, Bool, true, false, List, [], ◌∷◌, ◌++◌, Option, none, some, ◌==◌, ltb, if◌then◌else◌,
  drop, take,
}
use powermail.Base.Int.{ℤ, pos, negsuc, ltb_ℤ}
use powermail.Text.{Text, lit, find}
use powermail.Net.{Result, ok, throws, Exec}
use powermail.Disk.{Rc, returns, fails, eexist, Os}
use powermail.Delivery.{Delivery, level_one, level_two, dohash}

unfoldable pub calc_maildir : Text → Text → Text
calc_maildir root mbox = root ++ (dohash mbox ++ mbox)

-- Where a message is written, and where `get` and `del` look for it.
unfoldable pub tmp_path : Text → Text → Text → Text
tmp_path root mbox index = calc_maildir root mbox ++ (lit "/tmp/" ++ index)

unfoldable pub cur_path : Text → Text → Text → Text
cur_path root mbox index = calc_maildir root mbox ++ (lit "/cur/" ++ index)

-- The name that `moveAll` renames a file to. Where npos is the unsigned int `pos`, the test for it
-- fails, the whole name stands for the part before it, and `pos + 4` is 3.
abbrev pub dest_at : Text → Option ℕ → Text
dest_at name none = name ++ (lit "/cur/" ++ drop 3 name)
dest_at name (some n) = take n name ++ (lit "/cur/" ++ drop (n + 4) name)

unfoldable pub dest_of : Text → Text
dest_of name = dest_at name (find (lit "/tmp/") name)

-- Goes on where the call before gave no response of failure.
abbrev pub and_then : {S : Type 0} → Option Text × S → (S → Option Text × S) → Option Text × S
and_then (none, d) k = k d
and_then (some r, d) k = (some r, d)

module _ (os : Os) where
  abbrev pub made_result : (ℕ → Text) → Delivery os.Fs → Rc × os.Fs → Option Text × Delivery os.Fs
  made_result msg d (returns n, f) = (none, record d { fs = f })
  made_result msg d (fails e, f) = (if e == eexist then none else some (msg e), record d { fs = f })

  -- `if(mkdir(…)<0 && errno!=EEXIST)`
  unfoldable pub made : Text → (ℕ → Text) → Delivery os.Fs → Option Text × Delivery os.Fs
  made path msg d = made_result msg d (os.mkdir path d.fs)

  abbrev pub root_failed : Text → ℕ → Text
  root_failed root e = lit "Unable to make d_mailroot " ++ (root ++ (lit ": " ++ os.strerror e))

  abbrev pub level_failed : Text → Text → Text → ℕ → Text
  level_failed level root dir e =
      lit "Unable to make mail root level "
      ++ (level
          ++ (lit " hash directory "
              ++ (root ++ (lit "/" ++ (dir ++ (lit ": " ++ os.strerror e))))))

  abbrev pub maildir_failed : ℕ → Text
  maildir_failed e = lit "-ERR Error creating Maildir: " ++ os.strerror e

  unfoldable pub make_hash_dirs : Text → Delivery os.Fs → Option Text × Delivery os.Fs
  make_hash_dirs mbox d =
      and_then
        (and_then (made d.mailroot (root_failed d.mailroot) d) (
          made (d.mailroot ++ level_one mbox) (level_failed (lit "1") d.mailroot (level_one mbox))))
        (made (d.mailroot ++ level_two mbox) (level_failed (lit "2") d.mailroot (level_two mbox)))

  unfoldable pub setup_maildir : Text → Delivery os.Fs → Option Text × Delivery os.Fs
  setup_maildir dir d =
      and_then (and_then (made dir maildir_failed d) (made (dir ++ lit "/tmp") maildir_failed))
        (made (dir ++ lit "/cur") maildir_failed)

  -- What `setupMaildir` returns is not looked at.
  unfoldable pub make_message_loc : Text → Delivery os.Fs → Option Text × Delivery os.Fs
  make_message_loc address d =
      and_then (make_hash_dirs address d)
        (λ d. (none, (setup_maildir (calc_maildir d.mailroot address) d).1))

  abbrev pub opened : Text → Text → Delivery os.Fs → Rc × os.Fs → Option Text × Delivery os.Fs
  opened address name d (returns n, f) = (
    none,
    record d {
      fs = f;
      fd = pos n;
      filename = name;
      filenames = d.filenames ++ (name ∷ []);
      destinations = d.destinations ++ (address ∷ []);
    },
  )
  opened address name d (fails e, f) =
      (some (lit "-ERR Temporary error opening file"), record d { fs = f; fd = negsuc 0 })

  abbrev pub opened_at : Text → Text → Option Text × Delivery os.Fs → Option Text × Delivery os.Fs
  opened_at address index (some r, d) = (some r, record d { fd = negsuc 0 })
  opened_at address index (none, d) =
      let name = tmp_path d.mailroot address index in
      opened address name d (os.open_write name d.fs)

  -- `addFile` of the first recipient, with `makeRealMessage`.
  unfoldable pub add_first : Text → Text → Delivery os.Fs → Option Text × Delivery os.Fs
  add_first address index d = opened_at address index (make_message_loc address d)

  abbrev pub linked : Text → Text → Delivery os.Fs → Rc × os.Fs → Option Text × Delivery os.Fs
  linked address name d (returns n, f) = (
    none,
    record d {
      fs = f;
      filenames = d.filenames ++ (name ∷ []);
      destinations = d.destinations ++ (address ∷ []);
    },
  )
  linked address name d (fails e, f) =
      (some (lit "450 Temporary error linking file"), record d { fs = f })

  -- `addFile` of a further recipient, with `makeLinkMessage`.
  unfoldable pub add_link : Text → Text → Delivery os.Fs → Option Text × Delivery os.Fs
  add_link address index d = and_then (make_message_loc address d) (λ d.
      let name = tmp_path d.mailroot address index in
      linked address name d (os.link d.filename name (os.unlink name d.fs).1))

  abbrev pub by_destinations :
      List Text → Text → Text → Delivery os.Fs → Option Text × Delivery os.Fs
  by_destinations [] address index d = add_first address index d
  by_destinations (x ∷ xs) address index d = add_link address index d

  -- `none` is the return of 0, and `some` that of -1 with its response.
  unfoldable pub add_file : Text → Text → Delivery os.Fs → Option Text × Delivery os.Fs
  add_file address index d = by_destinations d.destinations address index d

  abbrev pub written : Delivery os.Fs → Rc × os.Fs → Result Rc × Delivery os.Fs
  written d (r, f) = (ok r, record d { fs = f })

  unfoldable pub give_line : Text → Exec (Delivery os.Fs) Rc
  give_line line d =
      if ltb_ℤ d.fd (pos 0)
      then (throws (lit "Attempt to add line after fd was closed already"), d)
      else written d (os.write d.fd line d.fs)

  unfoldable pub unlink_all : List Text → os.Fs → os.Fs
  unlink_all [] f = f
  unlink_all (p ∷ ps) f = unlink_all ps (os.unlink p f).1

  abbrev pub moved :
      Text
      → List Text
      → (os.Fs → (Option ℕ × List Text) × os.Fs)
      → Rc × os.Fs
      → (Option ℕ × List Text) × os.Fs
  moved p ps rest (returns n, f) = (((rest f).0.0, dest_of p ∷ (rest f).0.1), (rest f).1)
  moved p ps rest (fails e, f) = ((some e, p ∷ ps), f)

  -- The errno of the `rename` that failed, with the names as the loop leaves them.
  unfoldable pub move_all : List Text → os.Fs → (Option ℕ × List Text) × os.Fs
  move_all [] f = ((none, []), f)
  move_all (p ∷ ps) f = moved p ps (move_all ps) (os.rename p (dest_of p) f)

  abbrev pub moved_in :
      Delivery os.Fs → (Option ℕ × List Text) × os.Fs → Result (Unit {0}) × Delivery os.Fs
  moved_in d ((none, names), f) = (ok tt, record d { fs = f; filenames = [] })
  moved_in d ((some e, names), f) = (
    throws (lit "Error moving message into mailbox: " ++ os.strerror e),
    record d { fs = unlink_all names f; filenames = names },
  )

  abbrev pub closed : Delivery os.Fs → Rc × os.Fs → Result (Unit {0}) × Delivery os.Fs
  closed d (fails e, f) = (
    throws (lit "Close error: " ++ os.strerror e),
    record d { fs = unlink_all d.filenames f; fd = negsuc 0 },
  )
  closed d (returns n, f) = moved_in (record d { fd = negsuc 0 }) (move_all d.filenames f)

  unfoldable pub commit : Exec (Delivery os.Fs) (Unit {0})
  commit d = closed d (os.close d.fd d.fs)

  unfoldable pub close_fd : Delivery os.Fs → Delivery os.Fs
  close_fd d =
      if ltb_ℤ (pos 0) d.fd then record d { fs = (os.close d.fd d.fs).1; fd = negsuc 0 } else d

  unfoldable pub reset : Delivery os.Fs → Delivery os.Fs
  reset d =
      let c = close_fd d in
      record c { fs = unlink_all c.filenames c.fs; filenames = []; destinations = [] }

  -- `reset` leaves no names for `unlinkAll`.
  unfoldable pub roll_back : Delivery os.Fs → Text × Delivery os.Fs
  roll_back d = let r = reset d in (lit "+OK", record r { fs = unlink_all r.filenames r.fs })
