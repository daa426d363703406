-- ===== src/Text/Tokens.antt =====
-- `stringtok` of misc.hh: the words of a text, between runs of delimiters.
pub mod RoundTrip
use powermail.Base.{
  ℕ, zero, suc, ◌≤◌, ◌<◌, ◌≡◌, ◌≢◌, refl, sym, ap, ◌∙◌, ◌⊎◌, inl, inr, true, false, List, [], ◌∷◌,
  ◌++◌, arith, if◌then◌else◌, Bool-cases, length, All,
}
use powermail.Text.{Text, mem, before, from}

-- `in.find_first_not_of(delimiters, i)`: what stands from the first other byte on.
unfoldable pub skip : Text → Text → Text
unfolding mem
skip ds [] = []
skip ds (c ∷ s) = if mem c ds then skip ds s else c ∷ s

-- The loop, on the text from `i` on. The fuel is a bound on its rounds.
pub stringtok_from : ℕ → Text → Text → List Text
unfolding skip before from
stringtok_from zero ds s = []
stringtok_from (suc f) ds s = elim (skip ds s) [
  | [] ↦ []
  | c ∷ r ↦
      before ds (c ∷ r) ∷ elim (from ds (c ∷ r)) [ [] ↦ [] | d ∷ rest ↦ stringtok_from f ds rest ]
]

unfoldable pub stringtok : Text → Text → List Text
unfolding stringtok_from
stringtok ds s = stringtok_from (suc (length s)) ds s

-- A word: not empty, and free of delimiters.
abbrev pub IsWord : Text → Text → Type 0
IsWord ds w = (w ≢ []) × All (λ c. mem c ds ≡ false) w

-- The text less its delimiters.
unfoldable pub keep : Text → Text → Text
keep ds [] = []
keep ds (c ∷ s) = if mem c ds then keep ds s else c ∷ keep ds s

unfoldable pub joined : List Text → Text
joined [] = []
joined (w ∷ ws) = w ++ joined ws

-- Words, each with the delimiter `d` behind it.
unfoldable pub join : ℕ → List Text → Text
join d [] = []
join d (w ∷ ws) = w ++ (d ∷ join d ws)

skip-cases :
    (ds s : Text)
    → (skip ds s ≡ []) ⊎ ((c : ℕ) × (r : Text) × (skip ds s ≡ c ∷ r) × (mem c ds ≡ false))
unfolding skip
skip-cases ds [] = inl refl
skip-cases ds (c ∷ s) = elim (Bool-cases (mem c ds)) [
  | inl e ↦ rw e (skip-cases ds s)
  | inr e ↦ rw e (inr (c, s, refl, e))
]

length-skip-le : (ds s : Text) → length (skip ds s) ≤ length s
unfolding skip
length-skip-le ds [] = omega arith
length-skip-le ds (c ∷ s) = ground (arith, length-skip-le ds s)

length-from-le : (ds s : Text) → length (from ds s) ≤ length s
unfolding from
length-from-le ds [] = omega arith
length-from-le ds (c ∷ s) = ground (arith, length-from-le ds s)

before-All : (ds s : Text) → All (λ c. mem c ds ≡ false) (before ds s)
unfolding before
before-All ds [] = tt
before-All ds (c ∷ s) = elim (Bool-cases (mem c ds)) [
  | inl e ↦ rw e tt
  | inr e ↦ rw e (e, before-All ds s)
]

before-ne-nil : (ds s : Text) (c : ℕ) → mem c ds ≡ false → before ds (c ∷ s) ≢ []
unfolding before
before-ne-nil ds s c e = ground arith

stringtok_from-IsWord : (f : ℕ) (ds s : Text) → All (IsWord ds) (stringtok_from f ds s)
unfolding stringtok_from
stringtok_from-IsWord zero ds s = tt
stringtok_from-IsWord (suc f) ds s = elim (skip-cases ds s) [
  | inl e ↦ rw (e, stringtok_from) tt
  | inr (c, r, e, n) ↦
      rw (e, stringtok_from)
        (
          (before-ne-nil ds r c n, before-All ds (c ∷ r)),
          rest f ds (from ds (c ∷ r)) (λ t. stringtok_from-IsWord f ds t),
        )
]
  where
    rest :
        (f : ℕ) (ds t : Text)
        → ((t : Text) → All (IsWord ds) (stringtok_from f ds t))
        → All (IsWord ds) (elim t [ [] ↦ [] | d ∷ u ↦ stringtok_from f ds u ])
    rest f ds [] h = tt
    rest f ds (d ∷ u) h = h u

keep-skip : (ds s : Text) → keep ds (skip ds s) ≡ keep ds s
unfolding keep skip
keep-skip ds [] = refl
keep-skip ds (c ∷ s) = elim (Bool-cases (mem c ds)) [
  | inl e ↦ rw e (keep-skip ds s)
  | inr e ↦ rw e (rw e refl)
]

keep-before : (ds s : Text) → keep ds s ≡ before ds s ++ keep ds (from ds s)
unfolding keep before from
keep-before ds [] = refl
keep-before ds (c ∷ s) = elim (Bool-cases (mem c ds)) [
  | inl e ↦ rw e (rw e refl)
  | inr e ↦ rw e (ap (◌∷◌ c) (keep-before ds s))
]

from-cases :
    (ds s : Text)
    → (from ds s ≡ []) ⊎ ((d : ℕ) × (r : Text) × (from ds s ≡ d ∷ r) × (mem d ds ≡ true))
unfolding from
from-cases ds [] = inl refl
from-cases ds (c ∷ s) = elim (Bool-cases (mem c ds)) [
  | inl e ↦ rw e (inr (c, s, refl, e))
  | inr e ↦ rw e (from-cases ds s)
]

keep_delimiter : (ds s : Text) (d : ℕ) → mem d ds ≡ true → keep ds (d ∷ s) ≡ keep ds s
unfolding keep
keep_delimiter ds s d e = rw e

joined-stringtok_from :
    (f : ℕ) (ds s : Text) → length s < f → joined (stringtok_from f ds s) ≡ keep ds s
unfolding stringtok_from joined keep
joined-stringtok_from zero ds s h = elim h [ ]
joined-stringtok_from (suc f) ds s h = elim (skip-cases ds s) [
  | inl e ↦ rw (e, stringtok_from) (sym (ap (keep ds) e) ∙ keep-skip ds s)
  | inr (c, r, e, n) ↦ elim (from-cases ds (c ∷ r)) [
    | inl g ↦
        rw (e, stringtok_from)
          (rw g (
            sym (keep-before ds (c ∷ r) ∙ ap (λ t. before ds (c ∷ r) ++ keep ds t) g)
            ∙ sym (ap (keep ds) e)
            ∙ keep-skip ds s))
    | inr (d, u, g, m) ↦
        rw (e, stringtok_from)
          (rw g (
            ap (◌++◌ (before ds (c ∷ r))) (
              joined-stringtok_from f ds u (
                omega
                  (arith, length-skip-le ds s, ap length e, length-from-le ds (c ∷ r), ap length g))
              ∙ sym (keep_delimiter ds u d m))
            ∙ sym (keep-before ds (c ∷ r) ∙ ap (λ t. before ds (c ∷ r) ++ keep ds t) g)
            ∙ sym (ap (keep ds) e)
            ∙ keep-skip ds s))
  ]
]

-- Every text splits into words that hold no delimiter and are not empty, and that are, in order,
-- all its bytes which are no delimiters: nothing else is lost, and the rounds of the loop suffice.
pub stringtok_words :
    (ds s : Text) → All (IsWord ds) (stringtok ds s) × (joined (stringtok ds s) ≡ keep ds s)
unfolding stringtok
stringtok_words ds s = (
  stringtok_from-IsWord (suc (length s)) ds s,
  joined-stringtok_from (suc (length s)) ds s (omega arith),
)
