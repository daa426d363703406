-- ===== src/Text/Clean.antt =====
-- `cleanSlashes`, `stripLine` and `chomp` of misc.cc. `PopSession::strip` and the `strip` of the
-- other sessions have the body of `stripLine`.
use mathlib.Core.List.{reverse-append, reverse-reverse, append_assoc, append-nil, reverse-cons}
use powermail.Base.{
  ℕ, ◌≡◌, refl, sym, ap, ◌∙◌, ◌⊎◌, inl, inr, Bool, ◌&&◌, true, false, List, [], ◌∷◌, ◌++◌, reverse,
  arith, ◌==◌, if◌then◌else◌, Bool-cases, All,
}
use powermail.Text.{Text, mem, before}
use powermail.Text.Tokens.{skip}

-- The loop behind the byte `prev`: a slash is dropped where `*(i-1)` is one.
unfoldable pub clean_after : ℕ → Text → Text
clean_after prev [] = []
clean_after prev (c ∷ s) =
    if c == b'/' && prev == b'/' then clean_after c s else c ∷ clean_after c s

unfoldable pub clean_slashes : Text → Text
unfolding clean_after
clean_slashes [] = []
clean_slashes (c ∷ s) = c ∷ clean_after c s

-- No two slashes stand side by side.
abbrev pub NoDouble : ℕ → Text → Type 0
NoDouble prev [] = Unit
NoDouble prev (c ∷ s) = (¬ ((prev ≡ b'/') × (c ≡ b'/'))) × NoDouble c s

abbrev pub IsClean : Text → Type 0
IsClean [] = Unit
IsClean (c ∷ s) = NoDouble c s

-- The bytes of a text that are not slashes, each with whether slashes stand in front of it, and at
-- last, with a 0, whether the text ends in slashes.
unfoldable pub gaps : Bool → Text → List (Bool × ℕ)
gaps b [] = (b, 0) ∷ []
gaps b (c ∷ s) =
    let behind = gaps true s in let on = gaps false s in if c == b'/' then behind else (b, c) ∷ on

clean_after-NoDouble : (prev : ℕ) (s : Text) → NoDouble prev (clean_after prev s)
unfolding clean_after
clean_after-NoDouble prev [] = tt
clean_after-NoDouble prev (c ∷ s) = ground (arith, clean_after-NoDouble c s)

clean_after_id : (prev : ℕ) (s : Text) → NoDouble prev s → clean_after prev s ≡ s
unfolding clean_after
clean_after_id prev [] h = refl
clean_after_id prev (c ∷ s) h = ground (arith, clean_after_id c s h.1)

gaps-clean_after :
    (prev : ℕ) (b : Bool) (s : Text) → (prev == b'/') ≡ b → gaps b (clean_after prev s) ≡ gaps b s
unfolding clean_after gaps
gaps-clean_after prev b [] h = refl
gaps-clean_after prev b (c ∷ s) h = elim (Bool-cases (c == b'/')) [
  | inl e ↦ elim (Bool-cases (prev == b'/')) [
    | inl p ↦ let k : b ≡ true = sym h ∙ p in simp (e, p, k) (gaps-clean_after c true s e)
    | inr p ↦ simp (e, p) (gaps-clean_after c true s e)
  ]
  | inr e ↦ simp e (ap (◌∷◌ (b, c)) (gaps-clean_after c false s e))
]

clean_slashes-IsClean : (s : Text) → IsClean (clean_slashes s)
unfolding clean_slashes
clean_slashes-IsClean [] = tt
clean_slashes-IsClean (c ∷ s) = clean_after-NoDouble c s

clean_slashes_id : (s : Text) → IsClean s → clean_slashes s ≡ s
unfolding clean_slashes
clean_slashes_id [] h = refl
clean_slashes_id (c ∷ s) h = ap (◌∷◌ c) (clean_after_id c s h)

gaps-clean_slashes : (s : Text) → gaps false (clean_slashes s) ≡ gaps false s
unfolding clean_slashes gaps
gaps-clean_slashes [] = refl
gaps-clean_slashes (c ∷ s) = elim (Bool-cases (c == b'/')) [
  | inl e ↦ simp e (gaps-clean_after c true s e)
  | inr e ↦ simp e (ap (◌∷◌ (false, c)) (gaps-clean_after c false s e))
]

-- A cleaned path has no two slashes side by side, cleaning it again changes nothing, and it has the
-- bytes that are not slashes in their order, slashes in front of those that had some, and slashes
-- at the end where there were some.
pub clean_slashes_lem :
    (s : Text)
    → IsClean (clean_slashes s)
      × (clean_slashes (clean_slashes s) ≡ clean_slashes s)
      × (gaps false (clean_slashes s) ≡ gaps false s)
clean_slashes_lem s = (
  clean_slashes-IsClean s,
  clean_slashes_id (clean_slashes s) (clean_slashes-IsClean s),
  gaps-clean_slashes s,
)

-- `line.resize(line.find_first_of("\r\n"))`, where there is such a byte.
unfoldable pub strip_line : Text → Text
unfolding before
strip_line s = before (b'\r' ∷ b'\n' ∷ []) s

-- The reverse iterators walk over the trailing bytes of the set.
unfoldable pub chomp : Text → Text → Text
unfolding skip
chomp ds s = reverse (skip ds (reverse s))

-- The text does not end in a byte of the set.
abbrev pub EndsOutside : Text → Text → Type 0
EndsOutside ds s = (s ≡ []) ⊎ ((t : Text) × (c : ℕ) × (s ≡ t ++ c ∷ []) × (mem c ds ≡ false))

skip-split :
    (ds s : Text)
    → (t : Text) × (s ≡ t ++ skip ds s)
      × All (λ c. mem c ds ≡ true) t
      × ((skip ds s ≡ []) ⊎ ((c : ℕ) × (r : Text) × (skip ds s ≡ c ∷ r) × (mem c ds ≡ false)))
unfolding skip
skip-split ds [] = ([], refl, tt, inl refl)
skip-split ds (c ∷ s) = elim (Bool-cases (mem c ds)) [
  | inl e ↦ let (t, p, a, q) = skip-split ds s in (c ∷ t, rw e (ap (◌∷◌ c) p), (e, a), rw e q)
  | inr e ↦ ([], rw e refl, tt, rw e (inr (c, s, refl, e)))
]

All-reverse : (P : ℕ → Type 0) (xs ys : Text) → All P xs → All P ys → All P (reverse xs ++ ys)
All-reverse P [] ys h k = k
All-reverse P (x ∷ xs) ys h k =
    rw (reverse-cons x xs, append_assoc) (All-reverse P xs (x ∷ ys) h.1 (h.0, k))

chomp_end :
    (ds u : Text)
    → ((u ≡ []) ⊎ ((c : ℕ) × (r : Text) × (u ≡ c ∷ r) × (mem c ds ≡ false)))
    → EndsOutside ds (reverse u)
chomp_end ds u (inl e) = inl (ap reverse e)
chomp_end ds u (inr (c, r, e, m)) = inr (reverse r, c, ap reverse e ∙ reverse-cons c r, m)

-- `chomp` takes off a tail that holds bytes of the set only, and leaves a text that does not end
-- in such a byte.
pub chomp_lem :
    (ds s : Text)
    → (t : Text) × (s ≡ chomp ds s ++ t)
      × All (λ c. mem c ds ≡ true) t
      × EndsOutside ds (chomp ds s)
unfolding chomp
chomp_lem ds s =
    let (t, p, a, q) = skip-split ds (reverse s) in
    (
      reverse t,
      sym (reverse-reverse s) ∙ ap reverse p ∙ reverse-append t (skip ds (reverse s)),
      rw append-nil at (All-reverse (λ c. mem c ds ≡ true) t [] a tt),
      chomp_end ds (skip ds (reverse s)) q,
    )
