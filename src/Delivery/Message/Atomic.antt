-- ===== src/Delivery/Message/Atomic.antt =====
-- `commit` of delivery.cc on the names of the file system: all of the message's names, or none.
pub mod Places
use powermail.Base.{
  ℕ, ◌≡◌, ◌≢◌, refl, sym, ◌∙◌, ◌⊎◌, inl, inr, List, [], ◌∷◌, Option, none, some, All,
}
use powermail.Base.Int.{negsuc}
use powermail.Text.{Text}
use powermail.Net.{Result, ok, throws}
use powermail.Delivery.Message.Atomic.Places.{
  In, All-map, All-In, In-All, All-trans, IsFile, Ready, Plain, unlink_all_gone, unlink_all-In,
  rename-Steps, Ready-keeps, stepped-Ready, behind_keeps,
}
use powermail.Disk.{Rc, returns, fails, Os, file, Names, CanUnlink}
use powermail.Delivery.{Delivery}
use powermail.Delivery.Message.{dest_of, unlink_all, moved, move_all, moved_in, closed, commit}

module _ (os : Os) (names : Names os) where
  -- Each file stands where its name is moved to.
  abbrev pub Moved : os.Fs → os.Fs → List Text → Type 0
  Moved f g ps = All (λ p. names.at g (dest_of p) ≡ names.at f p) ps

  abbrev pub Gone : os.Fs → List Text → Type 0
  Gone g ps = All (λ p. names.at g p ≡ none) ps

  -- Of each name, whether it is one of those that `unlinkAll` will come upon, or is gone; and those
  -- that it will come upon stand for files or for nothing.
  abbrev Settled : os.Fs → List Text → List Text → Type 0
  Settled g left ps = All (λ p. In p left ⊎ (names.at g p ≡ none)) ps × All (Plain os names g) left

  one_more :
      (p : Text) (left : List Text) (B : Type 0) (q : Text) → In q left ⊎ B → In q (p ∷ left) ⊎ B
  one_more p left B q (inl i) = inl (inr i)
  one_more p left B q (inr e) = inr e

  moved-Settled :
      (p : Text) (ps : List Text) (x : Rc × os.Fs)
      → ((n : ℕ)
          → x.0 ≡ returns n
          → (names.at (move_all os ps x.1).1 p ≡ none)
            × IsFile os names (move_all os ps x.1).1 (dest_of p))
      → ((e : ℕ) → x.0 ≡ fails e → All (Plain os names x.1) (p ∷ ps))
      → Settled (move_all os ps x.1).1 (move_all os ps x.1).0.1 ps
      → Settled (moved os p ps (move_all os ps) x).1 (moved os p ps (move_all os ps) x).0.1 (p ∷ ps)
  moved-Settled p ps (returns n, f) h l k = (
    (inr (h n refl).0, All-map ps (λ q. one_more (dest_of p) _ _ q) k.0),
    (inl (h n refl).1, k.1),
  )
  moved-Settled p ps (fails e, f) h l k =
      ((inl (inl refl), All-map ps (λ q i. inl (inr i)) (All-In ps)), l e refl)

  Ready-Plain : (ps : List Text) (f : os.Fs) → Ready os names f ps → All (Plain os names f) ps
  Ready-Plain [] f q = tt
  Ready-Plain (p ∷ ps) f q = (inl q.0, Ready-Plain ps f q.3)

  same-Plain :
      (f g : os.Fs) (r : Text)
      → names.at g r ≡ names.at f r
      → Plain os names f r
      → Plain os names g r
  same-Plain f g r e (inl (i, h)) = inl (i, e ∙ h)
  same-Plain f g r e (inr h) = inr (e ∙ h)

  move_all-Settled :
      (ps : List Text) (f : os.Fs)
      → Ready os names f ps
      → Settled (move_all os ps f).1 (move_all os ps f).0.1 ps
  unfolding move_all
  move_all-Settled [] f q = (tt, tt)
  move_all-Settled (p ∷ ps) f q =
      let x = os.rename p (dest_of p) f in
      let s = rename-Steps os names f p q.0 q.1 in
      let b = behind_keeps os names p ps f x.1 s q in
      moved-Settled p ps x
        (λ n e. (
          b.0 ∙ names.rename_old f p (dest_of p) q.0.0 n q.0.1 q.1 e,
          (q.0.0, b.1 ∙ names.rename_new f p (dest_of p) q.0.0 n q.0.1 q.1 e),
        ))
        (λ n e.
          All-map (p ∷ ps) (λ r. same-Plain f x.1 r (names.rename_fails f p (dest_of p) r n e))
            (Ready-Plain (p ∷ ps) f q))
        (move_all-Settled ps x.1 (stepped-Ready os names f x.1 p ps s q))

  moved-Moved :
      (p : Text) (ps : List Text) (f : os.Fs) (x : Rc × os.Fs)
      → ((n : ℕ) → x.0 ≡ returns n → names.at (move_all os ps x.1).1 (dest_of p) ≡ names.at f p)
      → ((move_all os ps x.1).0.0 ≡ none → Moved f (move_all os ps x.1).1 ps)
      → (moved os p ps (move_all os ps) x).0.0 ≡ none
      → Moved f (moved os p ps (move_all os ps) x).1 (p ∷ ps)
  moved-Moved p ps f (returns n, g) h k e = (h n refl, k e)
  moved-Moved p ps f (fails n, g) h k e = cc

  move_all-Moved :
      (ps : List Text) (f : os.Fs)
      → Ready os names f ps
      → (move_all os ps f).0.0 ≡ none
      → Moved f (move_all os ps f).1 ps
  unfolding move_all
  move_all-Moved [] f q e = tt
  move_all-Moved (p ∷ ps) f q e =
      let x = os.rename p (dest_of p) f in
      let s = rename-Steps os names f p q.0 q.1 in
      let b = behind_keeps os names p ps f x.1 s q in
      moved-Moved p ps f x
        (λ n e. b.1 ∙ names.rename_new f p (dest_of p) q.0.0 n q.0.1 q.1 e ∙ sym q.0.1)
        (λ k.
          All-trans (λ v. names.at (move_all os ps x.1).1 (dest_of v)) (names.at x.1) (names.at f)
            ps (move_all-Moved ps x.1 (stepped-Ready os names f x.1 p ps s q) k)
            (All-map ps (λ v o. s.1 v o.0) q.2))
        e

  -- What a commit leaves: with no exception all files stand at their new names, and with one no
  -- name of the message, old or new, stands for anything.
  abbrev pub AllOrNone : Delivery os.Fs → Result (Unit {0}) × Delivery os.Fs → Type 0
  AllOrNone d (ok _, e) = Moved d.fs e.fs d.filenames × (e.filenames ≡ [])
  AllOrNone d (throws r, e) = Gone e.fs d.filenames × Gone e.fs e.filenames

  unlink_all-Gone :
      CanUnlink os names
      → (left : List Text) (g : os.Fs) (ps : List Text) → Settled g left ps
      → Gone (unlink_all os left g) ps
  unlink_all-Gone u left g ps a = All-map ps (λ p. one p) a.0
    where
      one :
          (p : Text) → In p left ⊎ (names.at g p ≡ none) → names.at (unlink_all os left g) p ≡ none
      one p (inl i) = unlink_all-In os names u left g p i (In-All (Plain os names g) p left i a.1)
      one p (inr e) = unlink_all_gone os names left g p e

  Settled-All : (left : List Text) (g : os.Fs) → All (Plain os names g) left → Settled g left left
  Settled-All left g a = (All-map left (λ q i. inl i) (All-In left), a)

  moved_in-AllOrNone :
      CanUnlink os names
      → (d : Delivery os.Fs) (r : (Option ℕ × List Text) × os.Fs) → Settled r.1 r.0.1 d.filenames
      → (r.0.0 ≡ none → Moved d.fs r.1 d.filenames)
      → AllOrNone d (moved_in os (record d { fd = negsuc 0 }) r)
  moved_in-AllOrNone u d ((none, left), g) a h = (h refl, refl)
  moved_in-AllOrNone u d ((some e, left), g) a h = (
    unlink_all-Gone u left g d.filenames a,
    unlink_all-Gone u left g left (Settled-All left g a.1),
  )

  closed-AllOrNone :
      CanUnlink os names
      → (d : Delivery os.Fs) (x : Rc × os.Fs) → Ready os names x.1 d.filenames
      → ((r : Text) → names.at x.1 r ≡ names.at d.fs r)
      → AllOrNone d (closed os d x)
  closed-AllOrNone u d (returns n, f) a k =
      moved_in-AllOrNone u d (move_all os d.filenames f) (move_all-Settled d.filenames f a)
        (λ e. All-map d.filenames (λ p h. h ∙ k p) (move_all-Moved d.filenames f a e))
  closed-AllOrNone u d (fails e, f) a k =
      let g =
        unlink_all-Gone u d.filenames f d.filenames
          (Settled-All d.filenames f (Ready-Plain d.filenames f a)) in
      (g, g)

  -- Where each name of the message stands for a regular file, nothing stands where it is moved to,
  -- all these names stand for places of their own, and no `unlink` of a regular file fails, a commit
  -- moves every file to its new name and keeps no name to unlink, or throws, and then no name of the
  -- message, old or new, stands for anything.
  pub commit-AllOrNone :
      CanUnlink os names
      → (d : Delivery os.Fs) → Ready os names d.fs d.filenames
      → AllOrNone d (commit os d)
  unfolding commit
  commit-AllOrNone u d a =
      let x = os.close d.fd d.fs in
      closed-AllOrNone u d x
        (Ready-keeps os names d.fs x.1 d.filenames (names.close_place d.fs d.fd) (same d.filenames)
          a)
        (names.close_at d.fs d.fd)
    where
      same :
          (ps : List Text)
          → All
              (λ q.
                (names.at (os.close d.fd d.fs).1 q ≡ names.at d.fs q)
                × (names.at (os.close d.fd d.fs).1 (dest_of q) ≡ names.at d.fs (dest_of q)))
              ps
      same [] = tt
      same (p ∷ ps) = ((names.close_at d.fs d.fd p, names.close_at d.fs d.fd (dest_of p)), same ps)
