-- ===== src/Pps/State.antt =====
-- PPState of ppsession.cc: whether the storage is readonly, or full.
use powermail.Base.{Bool, true, false, ◌||◌, ◌++◌, if◌then◌else◌}
use powermail.Text.{Text, lit}
use powermail.Net.{Result, ok, throws, Exec}
use powermail.Disk.{Rc, returns, fails, Os}
use powermail.Pps.{Config, Pps}

module _ (os : Os) (c : Config) where
  abbrev pub with_fs : Pps os.Fs → os.Fs → Pps os.Fs
  with_fs s f = record s { delivery = record (s.delivery) { fs = f } }

  unfoldable pub readonly_file : Text
  readonly_file = c.mail_root ++ lit "/readonly"

  unfoldable pub is_readonly : Pps os.Fs → Bool
  is_readonly s = s.full || os.access_exists readonly_file s.delivery.fs

  -- `!fd<0` is never true: the descriptor stays open.
  unfoldable pub set_readonly : Pps os.Fs → Pps os.Fs
  set_readonly s =
      if is_readonly s then s else with_fs s (os.open_write readonly_file s.delivery.fs).1

  unfoldable pub set_full : Pps os.Fs → Pps os.Fs
  set_full s = record s { full = true }

  unfoldable pub unset_full : Pps os.Fs → Pps os.Fs
  unset_full s = if is_readonly s then record s { full = false } else s

  abbrev pub unset_result : Pps os.Fs → Rc × os.Fs → Result (Unit {0}) × Pps os.Fs
  unset_result s (returns n, f) = (ok tt, record (with_fs s f) { full = false })
  unset_result s (fails e, f) =
      (throws (lit "Unable to make mail-root in " ++ c.mail_root), with_fs s f)

  unfoldable pub unset_readonly : Exec (Pps os.Fs) (Unit {0})
  unset_readonly s =
      if is_readonly s then unset_result s (os.unlink readonly_file s.delivery.fs) else (ok tt, s)
