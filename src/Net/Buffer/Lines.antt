-- ===== src/Net/Buffer/Lines.antt =====
-- Cutting the stream of `getLine` of session.cc at its newlines.
pub mod Fill
pub mod Stream
use powermail.Base.{
  ℕ, zero, suc, ◌+◌, ◌-◌, ◌≤◌, ◌<◌, ◌≡◌, ◌≢◌, refl, sym, ap, ◌∙◌, ◌⊎◌, inl, inr, Bool, true, false,
  ◌&&◌, List, [], ◌∷◌, ◌++◌, Option, none, some, ◌==◌, if◌then◌else◌, if-rule, length, drop, take,
  arith, All, length-append, Bool-cases,
}
use mathlib.Core.List.{append_assoc, append-nil}
use powermail.Text.{Text, lit}
use powermail.Net.Buffer.{
  bufsize, Read, bytes, broken, Reader, wroffset, unread, Got, line, failed, spent, newline,
  c_string, next_place, strnchr, rewound, cut, flushed, behind, filled, fill, no_line, found,
  get_line_in, to_come, get_line,
}

-- What is still to be read as lines: the bytes in the buffer and those to come.
abbrev pub pending : Reader → Text
pending s = unread s ++ to_come s.incoming

-- No read brings nothing, and `rdoffset` is in the buffer, which has room for its bytes.
abbrev pub Nonempty : List Read → Type 0
Nonempty [] = Unit
Nonempty (bytes t ∷ rs) = (t ≢ []) × Nonempty rs
Nonempty (broken e ∷ rs) = Nonempty rs

abbrev pub Valid : Reader → Type 0
Valid s = (s.rdoffset ≤ length s.rdbuf) × (length s.rdbuf ≤ bufsize) × Nonempty s.incoming

abbrev pub NoNewline : Text → Type 0
NoNewline t = All (λ c. c ≢ b'\n') t

equal-false : (a b : ℕ) → a ≢ b → (a == b) ≡ false
equal-false a b h = ground arith

strnchr-none : (t : Text) → NoNewline t → strnchr b'\n' t ≡ none
unfolding strnchr
strnchr-none [] h = refl
strnchr-none (c ∷ t) h = rw (equal-false c b'\n' h.0) (ap next_place (strnchr-none t h.1))

strnchr-some : (l r : Text) → NoNewline l → strnchr b'\n' (l ++ (b'\n' ∷ r)) ≡ some (length l)
unfolding strnchr
strnchr-some [] r h = refl
strnchr-some (c ∷ l) r h = rw (equal-false c b'\n' h.0) (ap next_place (strnchr-some l r h.1))

-- A text has no newline, or a first one.
abbrev pub Split : Text → Type 0
Split t =
    (NoNewline t × (strnchr b'\n' t ≡ none))
    ⊎ ((a : Text) × (b : Text) × (t ≡ a ++ (b'\n' ∷ b))
        × NoNewline a
        × (strnchr b'\n' t ≡ some (length a)))

newline-cases : (c : ℕ) → (c ≡ b'\n') ⊎ (c ≢ b'\n')
newline-cases c = ground arith

pub split : (t : Text) → Split t
split [] = inl (tt, strnchr-none [] tt)
split (c ∷ t) = at_first (newline-cases c) (split t)
  where
    at_first : (c ≡ b'\n') ⊎ (c ≢ b'\n') → Split t → Split (c ∷ t)
    at_first (inl e) k =
        inr ([], t, ap (λ x. x ∷ t) e, tt, ap (λ x. strnchr b'\n' (x ∷ t)) e ∙ strnchr-some [] t tt)
    at_first (inr n) (inl (h, e)) = inl ((n, h), strnchr-none (c ∷ t) (n, h))
    at_first (inr n) (inr (a, b, e, h, k)) = inr (
      c ∷ a,
      b,
      ap (◌∷◌ c) e,
      (n, h),
      ap (λ x. strnchr b'\n' (c ∷ x)) e ∙ strnchr-some (c ∷ a) b (n, h),
    )

head_of : ℕ → Text → ℕ
head_of d [] = d
head_of d (c ∷ t) = c

tail_of : Text → Text
tail_of [] = []
tail_of (c ∷ t) = t

-- Two texts cut at their first newline are cut alike.
pub split_unique :
    (a b l r : Text)
    → NoNewline a
    → NoNewline l
    → a ++ (b'\n' ∷ b) ≡ l ++ (b'\n' ∷ r)
    → (a ≡ l) × (b ≡ r)
unfolding head_of tail_of
split_unique [] b [] r h k e = (refl, ap tail_of e)
split_unique [] b (d ∷ l) r h k e = absurd (k.0 (sym (ap (head_of 0) e)))
split_unique (c ∷ a) b [] r h k e = absurd (h.0 (ap (head_of 0) e))
split_unique (c ∷ a) b (d ∷ l) r h k e =
    let (p, q) = split_unique a b l r h.1 k.1 (ap tail_of e) in
    (ap (λ x. x ∷ a) (ap (head_of 0) e) ∙ ap (◌∷◌ d) p, q)

-- A text with no newline in front of what has one is part of its line.
pub split_prefix :
    (u v l r : Text)
    → NoNewline u
    → u ++ v ≡ l ++ (b'\n' ∷ r)
    → (m : Text) × (l ≡ u ++ m) × (v ≡ m ++ (b'\n' ∷ r))
unfolding head_of tail_of
split_prefix [] v l r h e = (l, refl, e)
split_prefix (c ∷ u) v [] r h e = absurd (h.0 (ap (head_of 0) e))
split_prefix (c ∷ u) v (d ∷ l) r h e =
    let (m, p, q) = split_prefix u v l r h.1 (ap tail_of e) in
    (m, ap (◌∷◌ d) p ∙ ap (λ x. x ∷ (u ++ m)) (sym (ap (head_of 0) e)), q)

drop_nil : (k : ℕ) → ◌≡◌ {A = Text} (drop k []) []
drop_nil zero = refl
drop_nil (suc k) = refl

pub drop_more : (n m : ℕ) (t : Text) → drop (n + m) t ≡ drop m (drop n t)
drop_more zero m t = ap (λ k. drop k t) (omega (arith))
drop_more (suc n) m [] = drop_nil (suc n + m) ∙ sym (drop_nil m)
drop_more (suc n) m (c ∷ t) =
    let e : suc n + m ≡ suc (n + m) = omega arith in ap (λ k. drop k (c ∷ t)) e ∙ drop_more n m t

pub length-drop : (n : ℕ) (t : Text) → n ≤ length t → length (drop n t) + n ≡ length t
length-drop zero t h = omega arith
length-drop (suc n) [] h = elim h [ ]
length-drop (suc n) (c ∷ t) h = omega (arith, length-drop n t (omega (arith, h)))

pub take-drop : (n : ℕ) (t : Text) → take n t ++ drop n t ≡ t
take-drop zero t = refl
take-drop (suc n) [] = refl
take-drop (suc n) (c ∷ t) = ap (◌∷◌ c) (take-drop n t)

pub drop-append_le : (n : ℕ) (s t : Text) → n ≤ length s → drop n (s ++ t) ≡ drop n s ++ t
drop-append_le zero s t h = refl
drop-append_le (suc n) [] t h = elim h [ ]
drop-append_le (suc n) (c ∷ s) t h = drop-append_le n s t (omega (arith, h))

pub length-take_le : (n : ℕ) (t : Text) → length (take n t) ≤ n
length-take_le zero t = omega arith
length-take_le (suc n) [] = omega arith
length-take_le (suc n) (c ∷ t) = omega (arith, length-take_le n t)
