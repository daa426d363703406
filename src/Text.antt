-- ===== src/Text.antt =====
-- Strings as lists of bytes, with the operations of std::string that the program calls, and the
-- string helpers of misc.cc and misc.hh in the child modules.
pub mod Tokens
pub mod Clean
pub mod Number
use Prim.Native.Char.{code}
use powermail.Base.{
  ℕ, ◌+◌, ◌-◌, ◌≡◌, refl, ◌↔◌, Bool, true, false, not, ◌&&◌, ◌||◌, List, [], ◌∷◌, ◌++◌, map, Option,
  none, some, String, arith, leb, ◌==◌, if◌then◌else◌, length, drop, take,
}
use mathlib.Core.Option

abbrev pub Text : Type 0
Text = List ℕ

abbrev pub codes : String → Text
codes String.[] = []
codes (String.◌∷◌ c s) = code c ∷ codes s

-- A string literal of the source. Shut, so that proofs carry the literal and not its bytes.
unfoldable pub lit : String → Text
lit s = codes s

unfoldable pub eq : Text → Text → Bool
eq [] [] = true
eq (x ∷ xs) (y ∷ ys) = x == y && eq xs ys
eq _ _ = false

pub eq_iff : (a b : Text) → (eq a b ≡ true) ↔ (a ≡ b)
unfolding eq
eq_iff (x ∷ a) (y ∷ b) = ground (arith, eq_iff a b)
eq_iff _ _ = ground arith

unfoldable pub empty : Text → Bool
empty [] = true
empty (x ∷ xs) = false

-- `!s.find(p)`: the string begins with the text.
unfoldable pub starts_with : Text → Text → Bool
starts_with [] s = true
starts_with (p ∷ ps) [] = false
starts_with (p ∷ ps) (c ∷ s) = p == c && starts_with ps s

-- `s.find(p)`; `none` is npos.
unfoldable pub find : Text → Text → Option ℕ
unfolding starts_with
find p [] = if starts_with p [] then some 0 else none
find p (c ∷ s) = if starts_with p (c ∷ s) then some 0 else Option.map (λ i. i + 1) (find p s)

unfoldable pub contains : Text → Text → Bool
unfolding find
contains p s = elim (find p s) [ none ↦ false | some i ↦ true ]

unfoldable pub mem : ℕ → Text → Bool
mem c [] = false
mem c (d ∷ ds) = c == d || mem c ds

-- `isspace` of the C locale.
unfoldable pub is_space : ℕ → Bool
is_space c = c == 32 || (leb 9 c && leb c 13)

unfoldable pub is_digit : ℕ → Bool
is_digit c = leb b'0' c && leb c b'9'

unfoldable pub to_upper : ℕ → ℕ
to_upper c = if leb b'a' c && leb c b'z' then c - 32 else c

-- The part before the first byte of a set, and what stands from that byte on.
unfoldable pub before : Text → Text → Text
unfolding mem
before ds [] = []
before ds (c ∷ s) = if mem c ds then [] else c ∷ before ds s

unfoldable pub from : Text → Text → Text
unfolding mem
from ds [] = []
from ds (c ∷ s) = if mem c ds then c ∷ s else from ds s

-- `s[i]` of a std::string: the terminating NUL stands at the end.
unfoldable pub char_at : Text → ℕ → ℕ
char_at s i = elim (drop i s) [ [] ↦ 0 | c ∷ r ↦ c ]
