-- ===== src/Talker/Retrieve/Lines.antt =====
-- Which lines of a message `blastMessageFD` of pptalker.cc writes.
use mathlib.Core.List.{append_assoc}
use powermail.Base.{
  ℕ, zero, suc, ◌+◌, ◌-◌, ◌≡◌, refl, sym, ap, ◌∙◌, inl, inr, true, false, List, [], ◌∷◌, ◌++◌, map,
  arith, leb, if◌then◌else◌, Bool-cases, take, All,
}
use powermail.Base.Int.{pos, negsuc}
use powermail.Text.{Text, lit}
use powermail.Net.{ok, Io, done}
use powermail.Talker.Retrieve.{
  Client, Lines, writen, blast_lines, ends_headers, is_dot, IsHeader, IsBody,
}

-- A client whose descriptor takes all that is written to it from here on.
abbrev pub willing : List Text → Client
willing out = record { out = out; writes = [] }

take-nil : (k : ℕ) → take {A = Text} k [] ≡ []
take-nil zero = refl
take-nil (suc k) = refl

module _ (dot : Text) (isd : is_dot dot ≡ true) (s : List Io) where
  -- The lines, then the dot, then what the remote sends later.
  abbrev pub stream : List Text → List Io
  stream ls = map done ls ++ (done dot ∷ s)

  abbrev pub wrote : List Text → List Text → Lines
  wrote out ls = (ok tt, s, willing (out ++ (ls ++ (lit ".\r\n" ∷ []))))

  snoc :
      (out : List Text) (l : Text) (ls : List Text)
      → wrote (out ++ (l ∷ [])) ls ≡ wrote out (l ∷ ls)
  snoc out l ls = rw (append_assoc out (l ∷ []) (ls ++ (lit ".\r\n" ∷ [])))

  -- A body line, and a header line: each round of the loop.
  blast_body :
      (n l : ℕ) (b : Text) (t : List Io) (out : List Text)
      → is_dot b ≡ false
      → blast_lines (pos n) false l (done b ∷ t) (willing out)
        ≡ blast_lines
            (pos n)
            false
            (l + 1)
            t
            (willing (if leb (l + 1) n then out ++ (b ∷ []) else out))
  unfolding blast_lines writen
  blast_body n l b t out h = elim (Bool-cases (leb (l + 1) n)) [
    | inl e ↦ rw (h, e) refl
    | inr e ↦ rw (h, e) refl
  ]

  blast_header :
      (n : ℕ) (b : Text) (t : List Io) (out : List Text)
      → IsHeader b
      → blast_lines (pos n) true 0 (done b ∷ t) (willing out)
        ≡ blast_lines (pos n) true 0 t (willing (out ++ (b ∷ [])))
  unfolding blast_lines writen
  blast_header n b t out h = ground (arith, h.0, h.1)

  blast_blank :
      (n : ℕ) (b : Text) (t : List Io) (out : List Text)
      → is_dot b ≡ false
      → ends_headers b ≡ true
      → blast_lines (pos n) true 0 (done b ∷ t) (willing out)
        ≡ blast_lines (pos n) false 0 t (willing (out ++ (b ∷ [])))
  unfolding blast_lines writen
  blast_blank n b t out h k = ground arith

  blast_end :
      (n l : ℕ) (out : List Text)
      → blast_lines (pos n) false l (done dot ∷ s) (willing out)
        ≡ (ok tt, s, willing (out ++ (lit ".\r\n" ∷ [])))
  unfolding blast_lines writen
  blast_end n l out = rw isd

  body-blast_lines :
      (n l : ℕ) (body out : List Text)
      → All IsBody body
      → blast_lines (pos n) false l (stream body) (willing out) ≡ wrote out (take (n - l) body)
  body-blast_lines n l [] out a = rw (take-nil (n - l)) (blast_end n l out)
  body-blast_lines n l (b ∷ bs) out a = elim (Bool-cases (leb (l + 1) n)) [
    | inl e ↦
        let k : n - l ≡ suc (n - (l + 1)) = ground arith in
        blast_body n l b (stream bs) out a.0
        ∙ rw e (
            body-blast_lines n (l + 1) bs (out ++ (b ∷ [])) a.1
            ∙ snoc out b (take (n - (l + 1)) bs)
            ∙ ap (λ j. wrote out (take j (b ∷ bs))) (sym k))
    | inr e ↦
        let k : n - l ≡ 0 = ground arith in
        let k' : n - (l + 1) ≡ 0 = ground arith in
        blast_body n l b (stream bs) out a.0
        ∙ rw e (
            body-blast_lines n (l + 1) bs out a.1
            ∙ ap (λ j. wrote out (take j bs)) k'
            ∙ ap (λ j. wrote out (take j (b ∷ bs))) (sym k))
  ]

  -- TOP with a count `n`, 0 included, where the client's descriptor takes all that is written: of a message with the header lines `hs`, the line `blank` behind them and
  -- the body lines `body`, the client gets the header, the blank line, the first `n` body lines and
  -- the final dot.
  pub blast_lines-top :
      (n : ℕ) (hs body out : List Text) (blank : Text)
      → All IsHeader hs
      → is_dot blank ≡ false
      → ends_headers blank ≡ true
      → All IsBody body
      → blast_lines (pos n) true 0 (stream (hs ++ (blank ∷ body))) (willing out)
        ≡ wrote out (hs ++ (blank ∷ take n body))
  blast_lines-top n [] body out blank a d b c =
      blast_blank n blank (stream body) out d b
      ∙ body-blast_lines n 0 body (out ++ (blank ∷ [])) c
      ∙ ap (λ j. wrote (out ++ (blank ∷ [])) (take j body)) (omega arith)
      ∙ snoc out blank (take n body)
  blast_lines-top n (h ∷ hs) body out blank a d b c =
      blast_header n h (stream (hs ++ (blank ∷ body))) out a.0
      ∙ blast_lines-top n hs body (out ++ (h ∷ [])) blank a.1 d b c
      ∙ snoc out h (hs ++ (blank ∷ take n body))

  blast_any :
      (k : ℕ) (b : Text) (t : List Io) (out : List Text)
      → is_dot b ≡ false
      → blast_lines (negsuc k) true 0 (done b ∷ t) (willing out)
        ≡ blast_lines (negsuc k) true 0 t (willing (out ++ (b ∷ [])))
  unfolding blast_lines writen
  blast_any k b t out h = ground arith

  -- With no limit, as RETR asks for it, a client whose descriptor takes all that is written gets
  -- every line and the final dot.
  pub blast_lines_whole :
      (k : ℕ) (ls out : List Text)
      → All IsBody ls
      → blast_lines (negsuc k) true 0 (stream ls) (willing out) ≡ wrote out ls
  blast_lines_whole k [] out a = unfold blast_lines writen in rw isd
  blast_lines_whole k (l ∷ ls) out a =
      blast_any k l (stream ls) out a.0
      ∙ blast_lines_whole k ls (out ++ (l ∷ [])) a.1
      ∙ snoc out l ls
