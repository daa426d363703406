-- ===== src/Text/Tokens/RoundTrip.antt =====
-- `stringtok` of misc.hh on words that were written out with a delimiter behind each.
use powermail.Base.{
  ℕ, zero, suc, ◌<◌, ◌≡◌, refl, ap, ◌∙◌, true, false, List, [], ◌∷◌, ◌++◌, arith, length,
  length-append, All,
}
use powermail.Text.{Text, mem, before, from}
use powermail.Text.Tokens.{skip, stringtok_from, stringtok, IsWord, join}

module _ (ds : Text) (d : ℕ) (isd : mem d ds ≡ true) where
  pub before-append : (w r : Text) → All (λ c. mem c ds ≡ false) w → before ds (w ++ (d ∷ r)) ≡ w
  unfolding before
  before-append [] r h = rw isd
  before-append (c ∷ w) r h = rw (h.0) (ap (◌∷◌ c) (before-append w r h.1))

  pub from-append : (w r : Text) → All (λ c. mem c ds ≡ false) w → from ds (w ++ (d ∷ r)) ≡ d ∷ r
  unfolding from
  from-append [] r h = rw isd
  from-append (c ∷ w) r h = rw (h.0) (from-append w r h.1)

  stringtok_from-word :
      (f : ℕ) (w r : Text)
      → IsWord ds w
      → stringtok_from (suc f) ds (w ++ (d ∷ r)) ≡ w ∷ stringtok_from f ds r
  unfolding stringtok_from skip
  stringtok_from-word f [] r h = absurd (h.0 refl)
  stringtok_from-word f (c ∷ w) r h =
      rw (h.1.0, stringtok_from)
        (rw (from-append (c ∷ w) r h.1)
          (ap (λ t. t ∷ stringtok_from f ds r) (before-append (c ∷ w) r h.1)))

  stringtok_from-join :
      (f : ℕ) (ws : List Text)
      → All (IsWord ds) ws
      → length (join d ws) < f
      → stringtok_from f ds (join d ws) ≡ ws
  unfolding join
  stringtok_from-join zero ws h l = elim l [ ]
  stringtok_from-join (suc f) [] h l = unfold stringtok_from skip in refl
  stringtok_from-join (suc f) (w ∷ ws) h l =
      stringtok_from-word f w (join d ws) h.0
      ∙ ap (◌∷◌ w) (stringtok_from-join f ws h.1 (omega (arith, length-append w (d ∷ join d ws))))

  -- Words written with a delimiter behind each are read back: the same words, in the same order.
  pub stringtok-join : (ws : List Text) → All (IsWord ds) ws → stringtok ds (join d ws) ≡ ws
  unfolding stringtok
  stringtok-join ws h = stringtok_from-join (suc (length (join d ws))) ws h (omega arith)
