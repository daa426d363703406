-- ===== src/Disk/Memory.antt =====
-- A file system in memory that meets what is assumed of the system's calls.
use powermail.Base.{
  ℕ, ◌≡◌, ◌≢◌, refl, sym, ap, ◌∙◌, inl, inr, Bool, true, false, List, [], ◌∷◌, Option, none, some,
  ◌⊎◌, if◌then◌else◌, Bool-cases, length,
}
use powermail.Text.{Text, lit, eq, eq_iff}
use powermail.Disk.{Rc, returns, fails, enoent, Dir, Os, Node, file, Names, CanUnlink}
use mathlib.Core.Option

-- Names with the numbers of their files.
abbrev pub Table : Type 0
Table = List (Text × ℕ)

unfoldable pub lookup : Text → Table → Option ℕ
lookup p [] = none
lookup p ((q, n) ∷ t) = if eq q p then some n else lookup p t

unfoldable pub erase : Text → Table → Table
erase p [] = []
erase p ((q, n) ∷ t) = let rest = erase p t in if eq q p then rest else (q, n) ∷ rest

eq-false : (p q : Text) → p ≢ q → eq p q ≡ false
eq-false p q h = elim (Bool-cases (eq p q)) [ inl e ↦ absurd (h ((eq_iff p q).0 e)) | inr e ↦ e ]

eq-true : (p : Text) → eq p p ≡ true
eq-true p = (eq_iff p p).1 refl

lookup-erase_self : (p : Text) (t : Table) → lookup p (erase p t) ≡ none
unfolding lookup erase
lookup-erase_self p [] = refl
lookup-erase_self p ((q, n) ∷ t) = elim (Bool-cases (eq q p)) [
  | inl e ↦ rw e (lookup-erase_self p t)
  | inr e ↦ rw e (rw e (lookup-erase_self p t))
]

lookup-erase_other : (p r : Text) (t : Table) → p ≢ r → lookup r (erase p t) ≡ lookup r t
unfolding lookup erase
lookup-erase_other p r [] h = refl
lookup-erase_other p r ((q, n) ∷ t) h = elim (Bool-cases (eq q p)) [
  | inl e ↦
      let g : eq q r ≡ false = eq-false q r (λ k. h (sym ((eq_iff q p).0 e) ∙ k)) in
      rw (e, g) (lookup-erase_other p r t h)
  | inr e ↦ rw e (ap (λ o. if eq q r then some n else o) (lookup-erase_other p r t h))
]

abbrev pub renamed : Text → Text → Table → Option ℕ → Rc × Table
renamed p q t none = (fails enoent, t)
renamed p q t (some n) = (returns 0, (q, n) ∷ erase p (erase q t))

abbrev pub linked : Text → Text → Table → Option ℕ → Rc × Table
linked p q t none = (fails enoent, t)
linked p q t (some n) = (returns 0, (q, n) ∷ t)

-- A file that is opened to write is made; a write to any descriptor goes well, but on a file
-- system that is full; and a listing knows no directories but those it is given.
abbrev pub memory_os : Bool → (Text → Dir) → Os
memory_os full dirs = record {
  Fs = Table;
  mkdir = λ p t. (returns 0, t);
  open_write = λ p t. (returns 3, (p, length t) ∷ t);
  open_read = λ p t. (returns 4, t);
  write = λ fd l t. (if full then fails 28 else returns (length l), t);
  close = λ fd t. (returns 0, t);
  link = λ p q t. linked p q t (lookup p t);
  unlink = λ p t. (returns 0, erase p t);
  rename = λ p q t. renamed p q t (lookup p t);
  rmdir = λ p t. (returns 0, t);
  read_dir = λ p t. dirs p;
  stat = λ p t. none;
  access_write = λ p t. returns 0;
  access_exists = λ p t. false;
  statfs = λ p t. inl enoent;
  strerror = λ e. lit "error";
}

module _ (full : Bool) (dirs : Text → Dir) where
  abbrev pub os : Os
  os = memory_os full dirs

  -- Every name stands for a place of its own.
  abbrev pub place : Table → Text → Text
  place t r = r

  abbrev pub at : Table → Text → Option Node
  at t r = Option.map file (lookup r t)

  found : (p : Text) (t : Table) (i : ℕ) → at t p ≡ some (file i) → lookup p t ≡ some i
  found p t i h = by_lookup (lookup p t) h
    where
      by_lookup : (o : Option ℕ) → Option.map file o ≡ some (file i) → o ≡ some i
      by_lookup none h = cc
      by_lookup (some n) h = cc

  missing : (p : Text) (t : Table) → at t p ≡ none → lookup p t ≡ none
  missing p t h = by_lookup (lookup p t) h
    where
      by_lookup : (o : Option ℕ) → Option.map file o ≡ none → o ≡ none
      by_lookup none h = refl
      by_lookup (some n) h = cc

  -- A file that is renamed to a name of nothing.
  moves :
      (p q : Text) (t : Table) (i : ℕ)
      → at t p ≡ some (file i)
      → renamed p q t (lookup p t) ≡ (returns 0, (q, i) ∷ erase p (erase q t))
  moves p q t i h = ap (renamed p q t) (found p t i h)

  pub renamed_new :
      (p q : Text) (t : Table) (i : ℕ)
      → at t p ≡ some (file i)
      → at (renamed p q t (lookup p t)).1 q ≡ some (file i)
  unfolding lookup
  renamed_new p q t i h = ap (λ r. at r.1 q) (moves p q t i h) ∙ rw (eq-true q) refl

  pub renamed_old :
      (p q : Text) (t : Table) (i : ℕ)
      → at t p ≡ some (file i)
      → at t q ≡ none
      → at (renamed p q t (lookup p t)).1 p ≡ none
  unfolding lookup
  renamed_old p q t i h k =
      let apart : q ≢ p = λ e. some-ne-none (sym h ∙ ap (at t) (sym e) ∙ k) in
      ap (λ r. at r.1 p) (moves p q t i h)
      ∙ rw (eq-false q p apart) (ap (Option.map file) (lookup-erase_self p (erase q t)))
    where
      some-ne-none : some (file i) ≡ none → ⊥
      some-ne-none e = cc

  pub renamed_other :
      (p q r : Text) (t : Table) (i : ℕ)
      → at t p ≡ some (file i)
      → p ≢ r
      → q ≢ r
      → at (renamed p q t (lookup p t)).1 r ≡ at t r
  unfolding lookup
  renamed_other p q r t i h k l =
      ap (λ x. at x.1 r) (moves p q t i h)
      ∙ rw (eq-false q r l)
          (ap (Option.map file) (lookup-erase_other p r (erase q t) k ∙ lookup-erase_other q r t l))

  pub renamed_fails :
      (p q r : Text) (t : Table) (e : ℕ) (o : Option ℕ)
      → (renamed p q t o).0 ≡ fails e
      → at (renamed p q t o).1 r ≡ at t r
  renamed_fails p q r t e none h = refl
  renamed_fails p q r t e (some n) h = cc

  pub erased_at : (p r : Text) (t : Table) → (at (erase p t) r ≡ at t r) ⊎ (at (erase p t) r ≡ none)
  erased_at p r t = elim (Bool-cases (eq p r)) [
    | inl e ↦ inr (
        ap (at (erase p t)) (sym ((eq_iff p r).0 e)) ∙ ap (Option.map file) (lookup-erase_self p t))
    | inr e ↦
        inl
          (ap (Option.map file) (lookup-erase_other p r t (λ k. differ (sym e ∙ (eq_iff p r).1 k))))
  ]
    where
      differ : ◌≡◌ {A = Bool} false true → ⊥
      differ k = cc

  abbrev pub memory_names : Names os
  memory_names = record {
    at = at;
    place = place;
    close_at = λ t fd r. refl;
    close_place = λ t fd r. refl;
    unlink_at = λ t p r. erased_at p r t;
    rename_new = λ t p q i n h k e. renamed_new p q t i h;
    rename_old = λ t p q i n h k e. renamed_old p q t i h k;
    rename_other = λ t p q r i h k a b. renamed_other p q r t i h a b;
    rename_place = λ t p q r i h k. refl;
    rename_fails = λ t p q r e h. renamed_fails p q r t e (lookup p t) h;
  }

  pub memory-CanUnlink : CanUnlink os memory_names
  memory-CanUnlink t p i h = ap (Option.map file) (lookup-erase_self p t)
