-- ===== src/Net/Buffer/Lines/Fill.antt =====
-- That a round of `getLine` of session.cc takes bytes off the stream and loses none.
use mathlib.Core.List.{append_assoc}
use powermail.Base.{
  ℕ, zero, suc, ◌-◌, ◌≤◌, ◌<◌, ◌≡◌, ◌≢◌, refl, sym, ap, ◌∙◌, inl, inr, false, ◌&&◌, List, [], ◌∷◌,
  ◌++◌, ◌==◌, length, drop, take, if-false, arith, length-append, Bool-cases,
}
use powermail.Text.{Text}
use powermail.Net.Buffer.{
  bufsize, Read, bytes, broken, Reader, wroffset, unread, Got, flushed, behind, filled, fill,
  no_line, to_come,
}
use powermail.Net.Buffer.Lines.{pending, Nonempty, Valid, take-drop, drop-append_le, length-take_le}

-- A buffer with room, whose bytes are those of the line.
abbrev HasRoom : Reader → Type 0
HasRoom s = Valid s × (length s.rdbuf < bufsize)

flushed-HasRoom :
    (s : Reader)
    → Valid s
    → length (unread s) < bufsize
    → HasRoom (flushed s) × (unread (flushed s) ≡ unread s) × ((flushed s).incoming ≡ s.incoming)
unfolding flushed
flushed-HasRoom s v h = elim (Bool-cases (wroffset s == bufsize)) [
  | inl e ↦ simp e (((omega arith, omega (arith, h), v.2), h), refl, refl)
  | inr e ↦ simp e ((v, below s e v.1), refl, refl)
]
  where
    below :
        (s : Reader)
        → (wroffset s == bufsize) ≡ false
        → length s.rdbuf ≤ bufsize
        → length s.rdbuf < bufsize
    below s e k = ground arith

to_come-behind : (t : Text) (rs : List Read) → to_come (behind t rs) ≡ t ++ to_come rs
unfolding to_come
to_come-behind [] rs = refl
to_come-behind (c ∷ t) rs = refl

behind-Nonempty : (t : Text) (rs : List Read) → Nonempty rs → Nonempty (behind t rs)
behind-Nonempty [] rs h = h
behind-Nonempty (c ∷ t) rs h = ((λ e. cc), h)

take-ne_nil : (n : ℕ) (t : Text) → 0 < n → t ≢ [] → take n t ≢ []
take-ne_nil zero t h k = elim h [ ]
take-ne_nil (suc n) [] h k = k
take-ne_nil (suc n) (c ∷ t) h k = λ e. cc

length_pos : (t : Text) → t ≢ [] → 0 < length t
length_pos [] h = absurd (h refl)
length_pos (c ∷ t) h = omega arith

-- The loop goes on with the same stream, of which fewer bytes are still to come.
abbrev pub GoesOn : Reader → (Reader → Got × Reader) → Got × Reader → Type 0
GoesOn s k x =
    (t : Reader) × (x ≡ k t)
    × Valid t
    × (pending t ≡ pending s)
    × (length (to_come t.incoming) < length (to_come s.incoming))

filled_on :
    (s : Reader) (a left : Text) (rs : List Read) (k : Reader → Got × Reader)
    → a ≢ []
    → filled s a left rs k ≡ k (record s { rdbuf = s.rdbuf ++ a; incoming = behind left rs })
filled_on s [] left rs k h = absurd (h refl)
filled_on s (c ∷ a) left rs k h = refl

bytes-GoesOn :
    (s : Reader) (t : Text) (rs : List Read) (k : Reader → Got × Reader)
    → s.incoming ≡ bytes t ∷ rs
    → HasRoom s
    → t ≢ []
    → Nonempty rs
    → GoesOn s k (fill s (bytes t ∷ rs) k)
unfolding to_come
bytes-GoesOn s t rs k h v n ne =
    let room = bufsize - wroffset s in
    let a = take room t in
    let left = drop room t in
    let some_bytes : a ≢ [] = take-ne_nil room t (omega (arith, v.1)) n in
    let whole : a ++ to_come (behind left rs) ≡ to_come s.incoming =
      ap (◌++◌ a) (to_come-behind left rs)
      ∙ sym (append_assoc a left (to_come rs))
      ∙ ap (λ u. u ++ to_come rs) (take-drop room t)
      ∙ sym (ap to_come h) in
    (
      record s { rdbuf = s.rdbuf ++ a; incoming = behind left rs },
      filled_on s a left rs k some_bytes,
      (
        omega (arith, v.0.0, length-append s.rdbuf a),
        omega (arith, v.1, length-append s.rdbuf a, length-take_le room t),
        behind-Nonempty left rs ne,
      ),
      ap (λ u. u ++ to_come (behind left rs)) (drop-append_le s.rdoffset s.rdbuf a v.0.0)
          ∙ append_assoc (unread s) a (to_come (behind left rs))
          ∙ ap (◌++◌ (unread s)) whole,
      omega (
        arith,
        ap length whole,
        length-append a (to_come (behind left rs)),
        length_pos a some_bytes,
      ),
    )

fill-GoesOn :
    (s : Reader) (rs : List Read) (k : Reader → Got × Reader)
    → s.incoming ≡ rs
    → HasRoom s
    → Nonempty rs
    → to_come rs ≢ []
    → GoesOn s k (fill s rs k)
unfolding to_come
fill-GoesOn s [] k h v ne n = absurd (n refl)
fill-GoesOn s (broken e ∷ rs) k h v ne n = absurd (n refl)
fill-GoesOn s (bytes t ∷ rs) k h v ne n = bytes-GoesOn s t rs k h v ne.0 ne.1

pub no_line-GoesOn :
    (s : Reader) (k : Reader → Got × Reader)
    → Valid s
    → length (unread s) < bufsize
    → to_come s.incoming ≢ []
    → GoesOn s k (no_line s k)
no_line-GoesOn s k v h n =
    let (r, u, i) = flushed-HasRoom s v h in
    let f = flushed s in
    if-false (GoesOn s k) (wroffset s == bufsize && s.rdoffset == 0) _
      (not_full s.rdbuf s.rdoffset h)
      (let (t, e, w, p, l) =
          fill-GoesOn f f.incoming k refl r r.0.2 (λ z. n (ap to_come (sym i) ∙ z)) in
        (
          t,
          e,
          w,
          p ∙ ap (λ z. z ++ to_come f.incoming) u ∙ ap (λ z. unread s ++ to_come z) i,
          omega (arith, l, ap (λ z. length (to_come z)) i),
        ))
  where
    not_full :
        (t : Text) (n : ℕ) → length (drop n t) < bufsize → (length t == bufsize && n == 0) ≡ false
    not_full t zero h = ground arith
    not_full t (suc n) h = ground arith
