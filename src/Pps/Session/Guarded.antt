-- ===== src/Pps/Session/Guarded.antt =====
-- What a session of ppsession.cc does before its password was accepted.
use powermail.Base.{
  ◌≡◌, refl, sym, ap, ◌∙◌, ◌⊎◌, inl, inr, Bool, true, false, not, ◌&&◌, ◌||◌, List, [], ◌∷◌,
  Bool-cases,
}
use powermail.Base.Int.{ℤ}
use powermail.Text.{Text, lit, eq, eq_iff, empty, starts_with}
use powermail.Text.Clean.{strip_line}
use powermail.Text.Tokens.{stringtok}
use powermail.Disk.{Os}
use powermail.Pps.{Config, Pps, un_auth}
use powermail.Pps.Commands.{accepted, password_command, blanks}
use powermail.Pps.Session.{start, only_word, un_auth_words, on_words, give_line, run}

empty_iff : (t : Text) → empty t ≡ true → t ≡ []
unfolding empty
empty_iff [] h = refl
empty_iff (c ∷ t) h = cc

eq-empty : (a b : Text) → (empty a && empty b) ≡ true → eq a b ≡ true
unfolding empty eq
eq-empty [] [] h = refl
eq-empty [] (c ∷ b) h = cc
eq-empty (c ∷ a) b h = cc

or_true : (b : Bool) → (b || true) ≡ true
or_true true = refl
or_true false = refl

-- A password is accepted exactly where it is the one of the configuration: the address of the
-- client, which the condition asks for too, plays no part.
pub accepted_lem :
    (c : Config) (remote password : Text) → accepted c remote password ≡ eq password c.password
unfolding accepted
accepted_lem c remote password = elim (Bool-cases (empty password && empty c.password)) [
  | inl e ↦
      rw (eq-empty password c.password e) (
        or_true (empty password && empty c.password && not (starts_with (lit "127.0.0.1:") remote)))
  | inr e ↦ rw e refl
]

-- A line that gives the password: `pass` and what the configuration holds.
abbrev pub GivesPassword : Config → Text → Type 0
GivesPassword c l =
    (args : List Text) × (stringtok blanks (strip_line l) ≡ lit "pass" ∷ args)
    × (only_word args ≡ c.password)

abbrev pub Some : (Text → Type 0) → List Text → Type 0
Some P [] = ⊥
Some P (l ∷ ls) = P l ⊎ Some P ls

module _ (os : Os) (c : Config) where
  un_auth-word :
      (w : Text) (args : List Text) (s : Pps os.Fs)
      → ((un_auth_words os c w args s).1 ≡ s) ⊎ ((w ≡ lit "pass") × (only_word args ≡ c.password))
  unfolding un_auth_words password_command
  un_auth-word w args s = elim (Bool-cases (eq w (lit "pass"))) [
    | inr e ↦ rw e (inl refl)
    | inl e ↦ elim (Bool-cases (accepted c s.remote (only_word args))) [
      | inl g ↦ inr (
        (eq_iff w (lit "pass")).0 e,
        (eq_iff (only_word args) c.password).0 (sym (accepted_lem c s.remote (only_word args)) ∙ g),
      )
      | inr g ↦ rw (e, g) (inl refl)
    ]
  ]

  un_auth-words :
      (line : Text) (ws : List Text) (s : Pps os.Fs)
      → ((on_words os c un_auth line ws s).1 ≡ s)
        ⊎ ((args : List Text) × (ws ≡ lit "pass" ∷ args) × (only_word args ≡ c.password))
  un_auth-words line [] s = inl refl
  un_auth-words line (w ∷ args) s = elim (Bool-cases (eq w (lit "quit"))) [
    | inl e ↦ rw e (inl refl)
    | inr e ↦ rw e (elim (un_auth-word w args s) [
      | inl g ↦ inl g
      | inr (g, h) ↦ inr (args, ap (λ x. x ∷ args) g, h)
    ])
  ]

  un_auth-line :
      (l : Text) (s : Pps os.Fs)
      → s.mode ≡ un_auth
      → ((give_line os c l s).1 ≡ s) ⊎ GivesPassword c l
  unfolding give_line
  un_auth-line l s h = simp h (un_auth-words (strip_line l) (stringtok blanks (strip_line l)) s)

  run-un_auth :
      (ls : List Text) (s : Pps os.Fs)
      → s.mode ≡ un_auth
      → (run os c ls s ≡ s) ⊎ Some (GivesPassword c) ls
  unfolding run
  run-un_auth [] s h = inl refl
  run-un_auth (l ∷ ls) s h = elim (un_auth-line l s h) [
    | inr g ↦ inr (inl g)
    | inl g ↦ elim (run-un_auth ls s h) [
      | inl k ↦ inl (ap (run os c ls) g ∙ k)
      | inr k ↦ inr (inr k)
    ]
  ]

  -- Whatever lines a new session is fed with, it is as it was made, its file system included, or
  -- one of them gave the password of the configuration.
  pub run-start-GivesPassword :
      (ls : List Text) (remote root : Text) (f : os.Fs) (fd : ℤ)
      → (run os c ls (start remote root f fd) ≡ start remote root f fd) ⊎ Some (GivesPassword c) ls
  unfolding start
  run-start-GivesPassword ls remote root f fd = run-un_auth ls (start remote root f fd) refl
