-- ===== src/Net/Buffer/Lines/Stream.antt =====
-- That `getLine` of session.cc yields the lines of the stream, however `read` cuts it.
use mathlib.Core.Path.{subst⁻¹}
use mathlib.Core.List.{append_assoc}
use powermail.Base.{
  ℕ, zero, suc, ◌+◌, ◌<◌, ◌≡◌, ◌≢◌, refl, sym, ap, ◌∙◌, inl, inr, [], ◌∷◌, ◌++◌, none, some, ◌==◌,
  length, drop, take, take-append, drop-append, ==_iff, arith, length-append, Bool-cases,
}
use powermail.Text.{Text}
use powermail.Net.Buffer.{
  bufsize, Reader, wroffset, unread, Got, line, newline, c_string, strnchr, rewound, cut, found,
  get_line_in, to_come, get_line,
}
use powermail.Net.Buffer.Lines.{
  pending, Valid, NoNewline, split, split_unique, split_prefix, drop_more, length-drop,
}
use powermail.Net.Buffer.Lines.Fill.{GoesOn, no_line-GoesOn}

-- What a call that gets a line comes to: the line, as a C string, with its newline, and the rest.
abbrev pub Gets : Text → Text → Got × Reader → Type 0
Gets l r x = (x.0 ≡ line (c_string l ++ newline)) × (pending x.1 ≡ r) × Valid x.1

drop_all : (n : ℕ) (t : Text) → length t ≡ n → drop n t ≡ []
drop_all n t h = nothing (drop n t) (omega (arith, length-drop n t (omega (arith, h)), h))
  where
    nothing : (u : Text) → length u ≡ 0 → u ≡ []
    nothing [] k = refl
    nothing (c ∷ u) k = absurd (omega (arith, k))

rewound-Valid :
    (s : Reader)
    → Valid s
    → Valid (rewound s) × (pending (rewound s) ≡ pending s) × ((rewound s).incoming ≡ s.incoming)
unfolding rewound
rewound-Valid s v = elim (Bool-cases (wroffset s == s.rdoffset)) [
  | inl e ↦ simp e (
    (omega arith, omega arith, v.2),
    sym (
        ap (λ t. t ++ to_come s.incoming)
          (drop_all s.rdoffset s.rdbuf ((==_iff (wroffset s) s.rdoffset).0 e))),
    refl,
  )
  | inr e ↦ simp e (v, refl, refl)
]

cut-Gets :
    (s : Reader) (l r b : Text)
    → Valid s
    → unread s ≡ l ++ (b'\n' ∷ b)
    → b ++ to_come s.incoming ≡ r
    → Gets l r (cut (length l) s)
cut-Gets s l r b v e h =
    let n = length l in
    let behind_line : drop (s.rdoffset + n + 1) s.rdbuf ≡ b =
      drop_more (s.rdoffset + n) 1 s.rdbuf
      ∙ ap (drop 1) (drop_more s.rdoffset n s.rdbuf ∙ ap (drop n) e ∙ drop-append l (b'\n' ∷ b)) in
    (
      ap (λ t. line (c_string t ++ newline)) (ap (take n) e ∙ take-append l (b'\n' ∷ b)),
      ap (λ t. t ++ to_come s.incoming) behind_line ∙ h,
      (
        omega (arith, length-drop s.rdoffset s.rdbuf v.0, ap length e, length-append l (b'\n' ∷ b)),
        v.1,
        v.2,
      ),
    )

-- The first newline of the stream is in the buffer.
found-Gets :
    (t : Reader) (a u l r : Text) (k : Reader → Got × Reader)
    → Valid t
    → unread t ≡ a ++ (b'\n' ∷ u)
    → NoNewline a
    → strnchr b'\n' (unread t) ≡ some (length a)
    → pending t ≡ l ++ (b'\n' ∷ r)
    → NoNewline l
    → Gets l r (found (strnchr b'\n' (unread t)) t k)
found-Gets t a u l r k v e n j p h =
    let whole : a ++ (b'\n' ∷ (u ++ to_come t.incoming)) ≡ l ++ (b'\n' ∷ r) =
      sym (append_assoc a (b'\n' ∷ u) (to_come t.incoming))
      ∙ sym (ap (λ z. z ++ to_come t.incoming) e)
      ∙ p in
    let (al, ur) = split_unique a (u ++ to_come t.incoming) l r n h whole in
    subst⁻¹ (λ o. Gets l r (found o t k)) (j ∙ ap (λ z. some (length z)) al)
      (cut-Gets t l r u v (e ∙ ap (λ z. z ++ (b'\n' ∷ u)) al) ur)

append_newline_ne_nil : (m r : Text) → m ++ (b'\n' ∷ r) ≢ []
append_newline_ne_nil [] r = λ e. cc
append_newline_ne_nil (c ∷ m) r = λ e. cc

-- It is not: the buffer has room, and the stream goes on.
none-GoesOn :
    (t : Reader) (l r : Text) (k : Reader → Got × Reader)
    → Valid t
    → NoNewline (unread t)
    → strnchr b'\n' (unread t) ≡ none
    → pending t ≡ l ++ (b'\n' ∷ r)
    → length l < bufsize
    → GoesOn t k (found (strnchr b'\n' (unread t)) t k)
none-GoesOn t l r k v n j p b =
    let (m, lm, tm) = split_prefix (unread t) (to_come t.incoming) l r n p in
    subst⁻¹ (λ o. GoesOn t k (found o t k)) j
      (no_line-GoesOn t k v (omega (arith, b, ap length lm, length-append (unread t) m))
        (λ z. append_newline_ne_nil m r (sym tm ∙ z)))

loop-Gets :
    (f : ℕ) (s : Reader) (l r : Text)
    → Valid s
    → pending s ≡ l ++ (b'\n' ∷ r)
    → NoNewline l
    → length l < bufsize
    → length (to_come s.incoming) < f
    → Gets l r (get_line_in (suc f) s)
unfolding get_line_in
loop-Gets zero s l r v p h b g = absurd (omega (arith, g))
loop-Gets (suc f) s l r v p h b g =
    let (w, q, i) = rewound-Valid s v in
    let t = rewound s in
    elim (split (unread t)) [
      | inr (a, u, e, n, k) ↦ found-Gets t a u l r (get_line_in (suc f)) w e n k (q ∙ p) h
      | inl (n, k) ↦
          let (x, e, vx, px, lx) = none-GoesOn t l r (get_line_in (suc f)) w n k (q ∙ p) b in
          subst⁻¹ (Gets l r) e (
            loop-Gets f x l r vx (px ∙ q ∙ p) h b
              (omega (arith, lx, g, ap (λ z. length (to_come z)) i)))
    ]

-- Where the stream, in the buffer and to come, has a line shorter than the buffer up to its next
-- newline, a call yields that line, as a C string, with a newline, and leaves the stream behind it,
-- however the bytes are spread over the reads.
pub get_line-Gets :
    (s : Reader) (l r : Text)
    → Valid s
    → pending s ≡ l ++ (b'\n' ∷ r)
    → NoNewline l
    → length l < bufsize
    → Gets l r (get_line s)
unfolding get_line
get_line-Gets s l r v p h b =
    loop-Gets (suc (length (to_come s.incoming))) s l r v p h b (omega arith)
