-- ===== src/Delivery/Keeps.antt =====
-- The operations of delivery.cc that leave the message at hand alone, and how `addFile` changes it.
use powermail.Base.{
  ℕ, zero, suc, ◌≡◌, refl, ◌∙◌, List, [], ◌∷◌, ◌++◌, Option, none, some, ◌==◌, if-rule,
}
use powermail.Base.Int.{ℤ}
use powermail.Text.{Text, lit}
use powermail.Net.{Result, ok, throws, Exec, ◌>>◌}
use powermail.Disk.{Rc, returns, fails, Stat, Dir, entries, no_dir, Os}
use powermail.Delivery.{Delivery, level_one, level_two}
use powermail.Delivery.Message.{
  and_then, made_result, made, make_hash_dirs, setup_maildir, make_message_loc, calc_maildir,
  cur_path, root_failed, level_failed, maildir_failed,
}
use powermail.Delivery.Mailbox.{
  opened_message, get_message_fd, deleted, del_message, removed, remove_entry, nuke_entries,
  nuke_opened, nuke_dir, nuked, nuke,
}
use powermail.Delivery.Listing.{
  Next, ended, more, beyond, Listed, Place, rounds_on, more_rounds, started, start_list,
  get_list_next, placed, next_from,
}

-- The message at hand.
abbrev pub message : {F : Type 0} → Delivery F → List Text × List Text × Text × ℤ
message d = (d.filenames, d.destinations, d.filename, d.fd)

module _ (os : Os) where
  abbrev pub Same : Delivery os.Fs → Delivery os.Fs → Type 0
  Same d e = message e ≡ message d

  made_result-Same :
      (msg : ℕ → Text) (d : Delivery os.Fs) (r : Rc × os.Fs) → Same d (made_result os msg d r).1
  made_result-Same msg d (returns n, f) = refl
  made_result-Same msg d (fails e, f) = refl

  made-Same : (p : Text) (msg : ℕ → Text) (d : Delivery os.Fs) → Same d (made os p msg d).1
  unfolding made
  made-Same p msg d = made_result-Same msg d (os.mkdir p d.fs)

  and_then-Same :
      (d : Delivery os.Fs) (r : Option Text × Delivery os.Fs)
      (k : Delivery os.Fs → Option Text × Delivery os.Fs)
      → Same d r.1
      → ((e : Delivery os.Fs) → Same e (k e).1)
      → Same d (and_then r k).1
  and_then-Same d (none, e) k h g = g e ∙ h
  and_then-Same d (some t, e) k h g = h

  three-Same :
      (p q r : Text) (k l m : ℕ → Text) (d : Delivery os.Fs)
      → Same d (and_then (and_then (made os p k d) (made os q l)) (made os r m)).1
  three-Same p q r k l m d =
      and_then-Same d (and_then (made os p k d) (made os q l)) (made os r m)
        (and_then-Same d (made os p k d) (made os q l) (made-Same p k d) (made-Same q l))
        (made-Same r m)

  make_hash_dirs-Same : (m : Text) (d : Delivery os.Fs) → Same d (make_hash_dirs os m d).1
  unfolding make_hash_dirs
  make_hash_dirs-Same m d =
      three-Same d.mailroot (d.mailroot ++ level_one m) (d.mailroot ++ level_two m)
        (root_failed os d.mailroot) (level_failed os (lit "1") d.mailroot (level_one m))
        (level_failed os (lit "2") d.mailroot (level_two m)) d

  setup_maildir-Same : (p : Text) (d : Delivery os.Fs) → Same d (setup_maildir os p d).1
  unfolding setup_maildir
  setup_maildir-Same p d =
      let m = maildir_failed os in three-Same p (p ++ lit "/tmp") (p ++ lit "/cur") m m m d

  pub make_message_loc-Same : (m : Text) (d : Delivery os.Fs) → Same d (make_message_loc os m d).1
  unfolding make_message_loc
  make_message_loc-Same m d =
      and_then-Same d (make_hash_dirs os m d)
        (λ e. (none, (setup_maildir os (calc_maildir e.mailroot m) e).1)) (make_hash_dirs-Same m d)
        (λ e. setup_maildir-Same (calc_maildir e.mailroot m) e)

  pub get_message_fd-Same : (m i : Text) (d : Delivery os.Fs) → Same d (get_message_fd os m i d).1
  unfolding get_message_fd
  get_message_fd-Same m i d = go (os.open_read (cur_path d.mailroot m i) d.fs)
    where
      go : (r : Rc × os.Fs) → Same d (opened_message os d r).1
      go (returns n, f) = refl
      go (fails e, f) = refl

  deleted-Same : (p : Text) (d : Delivery os.Fs) (r : Rc × os.Fs) → Same d (deleted os p d r).1
  deleted-Same p d (returns n, f) = refl
  deleted-Same p d (fails e, f) = refl

  pub del_message-Same : (m i : Text) (d : Delivery os.Fs) → Same d (del_message os m i d).1
  unfolding del_message
  del_message-Same m i d =
      deleted-Same (cur_path d.mailroot m i) d (os.unlink (cur_path d.mailroot m i) d.fs)

  removed-Same : (w : Text) (d : Delivery os.Fs) (r : Rc × os.Fs) → Same d (removed os w d r).1
  removed-Same w d (returns n, f) = refl
  removed-Same w d (fails e, f) = refl

  bind-Same :
      (d : Delivery os.Fs) (r : Result (Unit {0}) × Delivery os.Fs)
      (k : Exec (Delivery os.Fs) (Unit {0}))
      → Same d r.1
      → ((e : Delivery os.Fs) → Same e (k e).1)
      → Same d (((λ (e : Delivery os.Fs). r) >> k) d).1
  bind-Same d (ok _, e) k h g = g e ∙ h
  bind-Same d (throws t, e) k h g = h

  remove_entry-Same :
      (p : Text) (o : Option Stat) (d : Delivery os.Fs) → Same d (remove_entry os p o d).1
  remove_entry-Same p none d = refl
  remove_entry-Same p (some st) d =
      if-rule (λ (r : Result (Unit {0}) × Delivery os.Fs). Same d r.1) st.regular
        (removed-Same (lit "Deleting file '" ++ p) d (os.unlink p d.fs)) refl

  nuke_entries-Same :
      (dir : Text) (ns : List Text) (d : Delivery os.Fs) → Same d (nuke_entries os dir ns d).1
  unfolding nuke_entries
  nuke_entries-Same dir [] d = refl
  nuke_entries-Same dir (n ∷ ns) d =
      let p = dir ++ (lit "/" ++ n) in
      bind-Same d (remove_entry os p (os.stat p d.fs) d) (nuke_entries os dir ns)
        (remove_entry-Same p (os.stat p d.fs) d) (nuke_entries-Same dir ns)

  nuke_dir-Same : (dir : Text) (d : Delivery os.Fs) → Same d (nuke_dir os dir d).1
  unfolding nuke_dir
  nuke_dir-Same dir d = go (os.read_dir dir d.fs)
    where
      go : (r : Dir) → Same d (nuke_opened os dir r d).1
      go (entries ns) =
          bind-Same d (nuke_entries os dir ns d)
            (λ e. removed os (lit "Removing directory '" ++ dir) e (os.rmdir dir e.fs))
            (nuke_entries-Same dir ns d)
            (λ e. removed-Same (lit "Removing directory '" ++ dir) e (os.rmdir dir e.fs))
      go (no_dir e) =
          if-rule (λ (r : Result (Unit {0}) × Delivery os.Fs). Same d r.1) (e == 2) refl refl

  nuked-Same :
      (d : Delivery os.Fs) (r : Result (Unit {0}) × Delivery os.Fs)
      → Same d r.1
      → Same d (nuked os r).1
  nuked-Same d (ok _, e) h = h
  nuked-Same d (throws t, e) h = h

  pub nuke-Same : (m : Text) (d : Delivery os.Fs) → Same d (nuke os m d).1
  unfolding nuke
  nuke-Same m d =
      let dir = calc_maildir d.mailroot m in
      let cur = nuke_dir os (dir ++ lit "/cur") in
      let tmp = nuke_dir os (dir ++ lit "/tmp") in
      let all = nuke_dir os (dir ++ lit "/") in
      nuked-Same d ((cur >> tmp >> all) d) (
        bind-Same d ((cur >> tmp) d) all
          (bind-Same d (cur d) tmp (nuke_dir-Same (dir ++ lit "/cur") d)
            (nuke_dir-Same (dir ++ lit "/tmp")))
          (nuke_dir-Same (dir ++ lit "/")))

  placed-Same : (d : Delivery os.Fs) (r : Next × Place) → Same d (placed os d r).1
  placed-Same d (n, p) = refl

  rounds_on-Same :
      (d : Delivery os.Fs) (t : Text) (r : Next × Delivery os.Fs)
      (k : Text → Delivery os.Fs → Listed × Delivery os.Fs)
      → Same d r.1
      → ((u : Text) (e : Delivery os.Fs) → Same e (k u e).1)
      → Same d (rounds_on os t r k).1
  rounds_on-Same d t (ended, e) k h g = h
  rounds_on-Same d t (more u, e) k h g = g (t ++ u) e ∙ h
  rounds_on-Same d t (beyond, e) k h g = h

  pub more_rounds-Same : (n : ℕ) (t : Text) (d : Delivery os.Fs) → Same d (more_rounds os n t d).1
  unfolding more_rounds get_list_next
  more_rounds-Same zero t d = refl
  more_rounds-Same (suc n) t d =
      rounds_on-Same d t (get_list_next os d) (more_rounds os n)
        (placed-Same d (next_from os d.mailroot d.fs d.list_x d.at_x d.list_y)) (more_rounds-Same n)

  pub start_list-Same : (d : Delivery os.Fs) → Same d (start_list os d).1
  unfolding start_list
  start_list-Same d = go (os.read_dir d.mailroot d.fs)
    where
      go : (r : Dir) → Same d (started os d r).1
      go (entries ns) = refl
      go (no_dir e) = refl
