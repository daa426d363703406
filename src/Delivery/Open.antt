-- ===== src/Delivery/Open.antt =====
-- That a message with recipients has an open descriptor, and what `addFile` and `reset` of
-- delivery.cc make of it.
use powermail.Base.{
  arith, ◌≡◌, ◌≢◌, refl, sym, ap, ◌∙◌, ◌⊎◌, inl, inr, false, List, [], ◌∷◌, ◌++◌, Option, none,
  some,
}
use powermail.Base.Int.{pos, ltb_ℤ}
use powermail.Text.{Text}
use powermail.Disk.{Rc, returns, fails, Os}
use powermail.Delivery.{Delivery}
use powermail.Delivery.Message.{
  and_then, make_message_loc, opened, opened_at, tmp_path, linked, by_destinations, add_first,
  add_link, add_file, reset,
}
use powermail.Delivery.Keeps.{Same, make_message_loc-Same}

abbrev pub Open : {F : Type 0} → Delivery F → Type 0
Open d = (d.destinations ≡ []) ⊎ (ltb_ℤ d.fd (pos 0) ≡ false)

module _ (os : Os) where
  -- What `addFile` makes of a message: it stays open, it keeps its recipients, and it has one where
  -- the call succeeds.
  abbrev pub Added : Delivery os.Fs → Option Text × Delivery os.Fs → Type 0
  Added d r =
      (Open d → Open r.1)
      × (d.destinations ≢ [] → r.1.destinations ≢ [])
      × (r.0 ≡ none → r.1.destinations ≢ [])

  append_ne_nil : (xs : List Text) (x : Text) → xs ++ (x ∷ []) ≢ []
  append_ne_nil [] x = λ e. cc
  append_ne_nil (y ∷ ys) x = λ e. cc

  pub Open-Same : (d e : Delivery os.Fs) → Same os d e → Open d → Open e
  Open-Same d e h (inl k) = inl (ap (λ m. m.1) h ∙ k)
  Open-Same d e h (inr k) = inr (ap (λ m. ltb_ℤ m.3 (pos 0)) h ∙ k)

  pub recipients-Same :
      (d e : Delivery os.Fs) → Same os d e → d.destinations ≢ [] → e.destinations ≢ []
  recipients-Same d e h n = λ k. n (sym (ap (λ m. m.1) h) ∙ k)

  opened_at-Added :
      (a i : Text) (d : Delivery os.Fs) (r : Option Text × Delivery os.Fs)
      → Same os d r.1
      → d.destinations ≡ []
      → Added d (opened_at os a i r)
  opened_at-Added a i d (some t, e) h k =
      ((λ o. inl (ap (λ m. m.1) h ∙ k)), (λ n. absurd (n k)), (λ j. cc))
  opened_at-Added a i d (none, e) h k = go (os.open_write (tmp_path e.mailroot a i) e.fs)
    where
      go : (x : Rc × os.Fs) → Added d (opened os a (tmp_path e.mailroot a i) e x)
      go (returns n, f) = (
        (λ o. inr (ground arith)),
        (λ n. append_ne_nil e.destinations a),
        (λ j. append_ne_nil e.destinations a),
      )
      go (fails n, f) = ((λ o. inl (ap (λ m. m.1) h ∙ k)), (λ n. absurd (n k)), (λ j. cc))

  linked-Added :
      (a p : Text) (d e : Delivery os.Fs) (x : Rc × os.Fs)
      → Same os d e
      → d.destinations ≢ []
      → Added d (linked os a p e x)
  linked-Added a p d e (returns n, f) h k = (
    (λ o. inr (fd_of (Open-Same d e h o))),
    (λ n. append_ne_nil e.destinations a),
    (λ j. append_ne_nil e.destinations a),
  )
    where
      fd_of : Open e → ltb_ℤ e.fd (pos 0) ≡ false
      fd_of (inl j) = absurd (recipients-Same d e h k j)
      fd_of (inr j) = j
  linked-Added a p d e (fails n, f) h k = (Open-Same d e h, recipients-Same d e h, (λ j. cc))

  link_after-Added :
      (a i : Text) (d : Delivery os.Fs) (r : Option Text × Delivery os.Fs)
      → Same os d r.1
      → d.destinations ≢ []
      → Added d (
          and_then r (λ d.
            let name = tmp_path d.mailroot a i in
            linked os a name d (os.link d.filename name (os.unlink name d.fs).1)))
  link_after-Added a i d (some t, e) h k = (Open-Same d e h, recipients-Same d e h, (λ j. cc))
  link_after-Added a i d (none, e) h k =
      let name = tmp_path e.mailroot a i in
      linked-Added a name d e (os.link e.filename name (os.unlink name e.fs).1) h k

  by_destinations-Added :
      (ds : List Text) (a i : Text) (d : Delivery os.Fs)
      → d.destinations ≡ ds
      → Added d (by_destinations os ds a i d)
  unfolding add_first add_link
  by_destinations-Added [] a i d h =
      opened_at-Added a i d (make_message_loc os a d) (make_message_loc-Same os a d) h
  by_destinations-Added (x ∷ xs) a i d h =
      link_after-Added a i d (make_message_loc os a d) (make_message_loc-Same os a d) (λ k. cc)

  pub add_file-Added : (a i : Text) (d : Delivery os.Fs) → Added d (add_file os a i d)
  unfolding add_file
  add_file-Added a i d = by_destinations-Added d.destinations a i d refl

  pub reset-Open : (d : Delivery os.Fs) → Open (reset os d)
  unfolding reset
  reset-Open d = inl refl
