-- ===== src/Delivery/Message/Atomic/Places.antt =====
-- The names of a message that `commit` of delivery.cc can move, and what `moveAll` and `unlinkAll` do
-- to what stands under a name.
use mathlib.Core.Path.{subst⁻¹}
use powermail.Base.{
  ℕ, ◌≡◌, ◌≢◌, refl, sym, ◌∙◌, ◌⊎◌, inl, inr, List, [], ◌∷◌, Option, none, some, All,
}
use powermail.Text.{Text}
use powermail.Disk.{Rc, returns, fails, Os, Node, file, Names, CanUnlink}
use powermail.Delivery.Message.{dest_of, unlink_all, moved, move_all}

abbrev pub In : Text → List Text → Type 0
In q [] = ⊥
In q (p ∷ ps) = (q ≡ p) ⊎ In q ps

pub All-map :
    {P Q : Text → Type 0} (ps : List Text) → ((p : Text) → P p → Q p) → All P ps → All Q ps
All-map [] k a = tt
All-map (p ∷ ps) k a = (k p a.0, All-map ps k a.1)

pub All-In : (ps : List Text) → All (λ p. In p ps) ps
All-In [] = tt
All-In (p ∷ ps) = (inl refl, All-map ps (λ q k. inr k) (All-In ps))

pub In-All : (P : Text → Type 0) (q : Text) (ps : List Text) → In q ps → All P ps → P q
In-All P q [] k a = elim k [ ]
In-All P q (p ∷ ps) (inl e) a = subst⁻¹ P e a.0
In-All P q (p ∷ ps) (inr k) a = In-All P q ps k a.1

pub All-trans :
    (F G H : Text → Option Node) (ps : List Text)
    → All (λ p. F p ≡ G p) ps
    → All (λ p. G p ≡ H p) ps
    → All (λ p. F p ≡ H p) ps
All-trans F G H [] a b = tt
All-trans F G H (p ∷ ps) a b = (a.0 ∙ b.0, All-trans F G H ps a.1 b.1)

module _ (os : Os) (names : Names os) where
  abbrev pub IsFile : os.Fs → Text → Type 0
  IsFile f p = (i : ℕ) × (names.at f p ≡ some (file i))

  -- Neither a name nor where it is moved to stands for the place of another name.
  abbrev pub Off : os.Fs → Text → Text → Type 0
  Off f p r = (names.place f p ≢ names.place f r) × (names.place f (dest_of p) ≢ names.place f r)

  abbrev pub Far : os.Fs → Text → Text → Type 0
  Far f p q = Off f p q × Off f p (dest_of q) × Off f q p × Off f q (dest_of p)

  -- Each name is one of a regular file, nothing stands where it is moved to, and all these names
  -- stand for places of their own.
  abbrev pub Ready : os.Fs → List Text → Type 0
  Ready f [] = Unit
  Ready f (p ∷ ps) = IsFile f p × (names.at f (dest_of p) ≡ none) × All (Far f p) ps × Ready f ps

  abbrev pub Plain : os.Fs → Text → Type 0
  Plain f r = IsFile f r ⊎ (names.at f r ≡ none)

  unlink_gone : (f : os.Fs) (p r : Text) → names.at f r ≡ none → names.at (os.unlink p f).1 r ≡ none
  unlink_gone f p r h = elim (names.unlink_at f p r) [ inl e ↦ e ∙ h | inr e ↦ e ]

  unlink-Plain : (f : os.Fs) (p r : Text) → Plain f r → Plain (os.unlink p f).1 r
  unlink-Plain f p r (inr h) = inr (unlink_gone f p r h)
  unlink-Plain f p r (inl (i, h)) = elim (names.unlink_at f p r) [
    | inl e ↦ inl (i, e ∙ h)
    | inr e ↦ inr e
  ]

  pub unlink_all_gone :
      (ps : List Text) (f : os.Fs) (r : Text)
      → names.at f r ≡ none
      → names.at (unlink_all os ps f) r ≡ none
  unfolding unlink_all
  unlink_all_gone [] f r h = h
  unlink_all_gone (p ∷ ps) f r h = unlink_all_gone ps (os.unlink p f).1 r (unlink_gone f p r h)

  unlinked :
      CanUnlink os names → (f : os.Fs) (p : Text) → Plain f p → names.at (os.unlink p f).1 p ≡ none
  unlinked u f p (inl (i, h)) = u f p i h
  unlinked u f p (inr h) = unlink_gone f p p h

  pub unlink_all-In :
      CanUnlink os names
      → (ps : List Text) (f : os.Fs) (r : Text) → In r ps
      → Plain f r
      → names.at (unlink_all os ps f) r ≡ none
  unfolding unlink_all
  unlink_all-In u [] f r k h = elim k [ ]
  unlink_all-In u (p ∷ ps) f r (inl e) h = unlink_all_gone ps (os.unlink p f).1 r (
      subst⁻¹ (λ x. names.at (os.unlink p f).1 x ≡ none) e
        (unlinked u f p (subst⁻¹ (Plain f) (sym e) h)))
  unlink_all-In u (p ∷ ps) f r (inr k) h =
      unlink_all-In u ps (os.unlink p f).1 r k (unlink-Plain f p r h)

  -- What a step does that leaves all places, and what stands at those that are off a name.
  abbrev pub Steps : os.Fs → Text → os.Fs → Type 0
  Steps f p g =
      ((r : Text) → names.place g r ≡ names.place f r)
      × ((r : Text) → Off f p r → names.at g r ≡ names.at f r)

  pub rename-Steps :
      (f : os.Fs) (p : Text)
      → IsFile f p
      → names.at f (dest_of p) ≡ none
      → Steps f p (os.rename p (dest_of p) f).1
  rename-Steps f p (i, h) k = (
    λ r. names.rename_place f p (dest_of p) r i h k,
    λ r o. names.rename_other f p (dest_of p) r i h k o.0 o.1,
  )

  same_place :
      (f g : os.Fs) (p r : Text)
      → ((r : Text) → names.place g r ≡ names.place f r)
      → Off f p r
      → Off g p r
  same_place f g p r k o =
      ((λ e. o.0 (sym (k p) ∙ e ∙ k r)), (λ e. o.1 (sym (k (dest_of p)) ∙ e ∙ k r)))

  -- A step that leaves what stands under the names and where they are moved to.
  pub Ready-keeps :
      (f g : os.Fs) (ps : List Text)
      → ((r : Text) → names.place g r ≡ names.place f r)
      → All
          (λ q. (names.at g q ≡ names.at f q) × (names.at g (dest_of q) ≡ names.at f (dest_of q)))
          ps
      → Ready f ps
      → Ready g ps
  Ready-keeps f g [] k a r = tt
  Ready-keeps f g (p ∷ ps) k a ((i, h), d, far, r) = (
    (i, a.0.0 ∙ h),
    a.0.1 ∙ d,
    All-map ps
        (λ q o. (
          same_place f g p q k o.0,
          same_place f g p (dest_of q) k o.1,
          same_place f g q p k o.2,
          same_place f g q (dest_of p) k o.3,
        ))
        far,
    Ready-keeps f g ps k a.1 r,
  )

  pub stepped-Ready :
      (f g : os.Fs) (p : Text) (ps : List Text) → Steps f p g → Ready f (p ∷ ps) → Ready g ps
  stepped-Ready f g p ps s r =
      Ready-keeps f g ps s.0 (All-map ps (λ q o. (s.1 q o.0, s.1 (dest_of q) o.1)) r.2) r.3

  moved_keeps :
      (p : Text) (ps : List Text) (x : Rc × os.Fs) (o : Option Node) (r : Text)
      → names.at x.1 r ≡ o
      → names.at (move_all os ps x.1).1 r ≡ o
      → names.at (moved os p ps (move_all os ps) x).1 r ≡ o
  moved_keeps p ps (returns n, f) o r h k = k
  moved_keeps p ps (fails e, f) o r h k = h

  -- What stands at a place off all the names stays.
  move_all_keeps :
      (ps : List Text) (f : os.Fs) (r : Text)
      → Ready f ps
      → All (λ q. Off f q r) ps
      → names.at (move_all os ps f).1 r ≡ names.at f r
  unfolding move_all
  move_all_keeps [] f r q a = refl
  move_all_keeps (p ∷ ps) f r q a =
      let x = os.rename p (dest_of p) f in
      let s = rename-Steps f p q.0 q.1 in
      let h : names.at x.1 r ≡ names.at f r = s.1 r a.0 in
      moved_keeps p ps x (names.at f r) r h (
        move_all_keeps ps x.1 r (stepped-Ready f x.1 p ps s q)
          (All-map ps (λ v o. same_place f x.1 v r s.0 o) a.1)
        ∙ h)

  -- The names behind a first one do not touch it, nor where it was moved to.
  pub behind_keeps :
      (p : Text) (ps : List Text) (f g : os.Fs)
      → Steps f p g
      → Ready f (p ∷ ps)
      → (names.at (move_all os ps g).1 p ≡ names.at g p)
        × (names.at (move_all os ps g).1 (dest_of p) ≡ names.at g (dest_of p))
  behind_keeps p ps f g s q =
      let t = stepped-Ready f g p ps s q in
      (
        move_all_keeps ps g p t (All-map ps (λ v o. same_place f g v p s.0 o.2) q.2),
        move_all_keeps ps g (dest_of p) t
            (All-map ps (λ v o. same_place f g v (dest_of p) s.0 o.3) q.2),
      )
