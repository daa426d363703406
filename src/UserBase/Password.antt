-- ===== src/UserBase/Password.antt =====
-- `pwMatch` and `md5Match` of userbase.cc. `md5calc` and `crypt` are parameters: the hash of
-- md5.cc in hexadecimal, and the C library's function of a password and a salt.
use powermail.Base.{
  ap, ◌↔◌, ◌≡◌, refl, Bool, true, false, not, ◌&&◌, [], ◌∷◌, ◌++◌, arith, if◌then◌else◌, length,
  drop, take,
}
use powermail.Text.{Text, lit, eq, eq_iff, empty, contains, find, starts_with, before}

false-ne-true : ◌≡◌ {A = Bool} false true → ⊥
false-ne-true h = cc

-- What `c_str` shows to a C function.
unfoldable pub c_str : Text → Text
unfolding before
c_str s = before (0 ∷ []) s

module _ (md5calc : Text → Text) (crypt : Text → Text → Text) where
  unfoldable pub md5_match : Text → Text → Text → Bool
  md5_match challenge supplied db =
      if empty db
      then false
      else if not (contains (lit "{md5}") db) && not (contains (lit "{crypt}") db)
      then eq (md5calc (challenge ++ (if contains (lit "{plain}") db then drop 7 db else db)))
          supplied
      else false

  -- `strncmp` up to the length of the stored hash. It and `crypt` take C strings, which end at a NUL,
  -- and `crypt` returns one.
  unfoldable pub pw_match : Text → Text → Bool
  pw_match supplied db =
      if empty db
      then false
      else if not (contains (lit "{md5}") db) && not (contains (lit "{crypt}") db)
      then eq supplied (if contains (lit "{plain}") db then drop 7 db else db)
      else if contains (lit "{md5}") db
      then eq (take (length (c_str (drop 5 db))) (c_str (md5calc supplied))) (c_str (drop 5 db))
      else eq (c_str (crypt (c_str supplied) (c_str (drop 7 db)))) (drop 7 db)

  take-prefix_to : (h s : Text) → eq (take (length h) s) h ≡ true → (t : Text) × (s ≡ h ++ t)
  unfolding eq
  take-prefix_to [] s e = (s, refl)
  take-prefix_to (c ∷ h) [] e = absurd (false-ne-true e)
  take-prefix_to (c ∷ h) (d ∷ s) e =
      let (t, f) = take-prefix_to h s (ground (arith, e)) in
      let g : d ≡ c = ground (arith, e) in (t, cc)

  take-append : (h t : Text) → take (length h) (h ++ t) ≡ h
  take-append [] t = refl
  take-append (c ∷ h) t = ap (◌∷◌ c) (take-append h t)

  take-prefix : (h s : Text) → (eq (take (length h) s) h ≡ true) ↔ ((t : Text) × (s ≡ h ++ t))
  take-prefix h s = (
    take-prefix_to h s,
    λ p. rw p.1 ((eq_iff (take (length h) (h ++ p.0)) h).1 (take-append h p.0)),
  )

  -- A password is right for a stored MD5 hash exactly where the hash of it, as a C string, starts
  -- with the C string that is stored.
  pub pw_match-md5 :
      (supplied hash : Text)
      → (pw_match supplied (lit "{md5}" ++ hash) ≡ true)
        ↔ ((t : Text) × (c_str (md5calc supplied) ≡ c_str hash ++ t))
  unfolding pw_match lit contains find starts_with empty
  pw_match-md5 supplied hash = take-prefix (c_str hash) (c_str (md5calc supplied))

  -- A stored password with no tag is right for itself alone, and an empty one for none.
  pub pw_match-plain :
      (supplied db : Text)
      → contains (lit "{md5}") db ≡ false
      → contains (lit "{crypt}") db ≡ false
      → contains (lit "{plain}") db ≡ false
      → (pw_match supplied db ≡ true) ↔ ((supplied ≡ db) × (empty db ≡ false))
  unfolding pw_match
  pw_match-plain supplied db a b c = ground (arith, a, b, c, eq_iff supplied db)
