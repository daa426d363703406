-- ===== src/Net/Write.antt =====
-- `putLine` of session.cc: a text that `write` takes in parts.
use mathlib.Core.List.{append_assoc}
use powermail.Base.{
  ℕ, zero, suc, ◌≤◌, ◌≡◌, refl, sym, ap, ◌∙◌, Bool, true, List, [], ◌∷◌, ◌++◌, Option, none, some,
  length, drop, take, arith,
}
use powermail.Text.{Text, lit}
use powermail.Net.Buffer.Lines.{take-drop}
use powermail.Net.{Result, ok, throws}

-- What the next `write` does: it takes some bytes of those it is given, or fails. Where `select`
-- finds no room in time, it is stalled.
pub data Attempt : Type 0 where
  takes : ℕ → Attempt
  refuses : Text → Attempt
  stalls : Attempt

-- What is sent, with the outcome; `none` is a loop that goes on.
abbrev pub Sent : Type 0
Sent = Option (Result Bool) × Text

-- The loop of `putLine`, on the part that is not written yet.
unfoldable pub put_from : Text → List Attempt → Sent
put_from [] ws = (some (ok true), [])
put_from (c ∷ t) [] = (none, [])
put_from (c ∷ t) (refuses e ∷ ws) = (some (throws (lit "Error writing to remote: " ++ e)), [])
put_from (c ∷ t) (stalls ∷ ws) = (some (throws (lit "timeout writing line")), [])
put_from (c ∷ t) (takes n ∷ ws) =
    let rest = put_from (drop n (c ∷ t)) ws in (rest.0, take n (c ∷ t) ++ rest.1)

-- `putLine`; it returns true.
unfoldable pub put_line : Text → List Attempt → Sent
unfolding put_from
put_line s ws = put_from s ws

-- What is left of a text behind what was sent; nothing, where the loop came to its end.
abbrev pub Leaves : Text → Sent → Type 0
Leaves s r = (u : Text) × (s ≡ r.1 ++ u) × (r.0 ≡ some (ok true) → u ≡ [])

put_from-Leaves : (s : Text) (ws : List Attempt) → Leaves s (put_from s ws)
unfolding put_from
put_from-Leaves [] ws = ([], refl, (λ e. refl))
put_from-Leaves (c ∷ t) [] = (c ∷ t, refl, (λ e. cc))
put_from-Leaves (c ∷ t) (refuses e ∷ ws) = (c ∷ t, refl, (λ e. cc))
put_from-Leaves (c ∷ t) (stalls ∷ ws) = (c ∷ t, refl, (λ e. cc))
put_from-Leaves (c ∷ t) (takes n ∷ ws) =
    let (u, e, k) = put_from-Leaves (drop n (c ∷ t)) ws in
    let sent = (put_from (drop n (c ∷ t)) ws).1 in
    (
      u,
      sym (take-drop n (c ∷ t))
          ∙ ap (◌++◌ (take n (c ∷ t))) e
          ∙ sym (append_assoc (take n (c ∷ t)) sent u),
      k,
    )

-- Every write takes a byte at least.
abbrev pub Progress : List Attempt → Type 0
Progress [] = Unit
Progress (takes n ∷ ws) = (1 ≤ n) × Progress ws
Progress (refuses e ∷ ws) = ⊥
Progress (stalls ∷ ws) = ⊥

length-drop_lt : (n c : ℕ) (t : Text) → 1 ≤ n → length (drop n (c ∷ t)) ≤ length t
length-drop_lt zero c t h = elim h [ ]
length-drop_lt (suc n) c t h = length-drop_le n t
  where
    length-drop_le : (n : ℕ) (t : Text) → length (drop n t) ≤ length t
    length-drop_le zero t = omega arith
    length-drop_le (suc n) [] = omega arith
    length-drop_le (suc n) (c ∷ t) = omega (arith, length-drop_le n t)

-- Where every write takes a byte at least, as many writes as the text has bytes send all of it, in
-- order, and the call returns.
pub put_line-Progress :
    (s : Text) (ws : List Attempt)
    → Progress ws
    → length s ≤ length ws
    → put_line s ws ≡ (some (ok true), s)
unfolding put_line put_from
put_line-Progress [] ws p h = refl
put_line-Progress (c ∷ t) [] p h = elim h [ ]
put_line-Progress (c ∷ t) (refuses e ∷ ws) p h = absurd p
put_line-Progress (c ∷ t) (stalls ∷ ws) p h = absurd p
put_line-Progress (c ∷ t) (takes n ∷ ws) p h =
    let e =
      put_line-Progress (drop n (c ∷ t)) ws p.1 (omega (arith, p.0, h, length-drop_lt n c t p.0)) in
    ap (λ r. (r.0, take n (c ∷ t) ++ r.1)) e ∙ ap (λ u. (some (ok true), u)) (take-drop n (c ∷ t))
