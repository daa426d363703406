-- ===== src/UserBase/TextBase.antt =====
-- textbase.cc: the accounts of a text file, which the parser has read.
use powermail.Base.{
  ℕ, ◌/◌, ◌≡◌, refl, sym, ap, ◌∙◌, ◌⊎◌, inl, inr, Bool, false, not, List, [], ◌∷◌, if◌then◌else◌,
  Bool-cases,
}
use powermail.Base.Int.{pos}
use powermail.Text.{Text, lit, eq, eq_iff, empty}
use powermail.UserBase.{MboxData, Lookup, unavailable, absent, present}
use powermail.UserBase.Password.{pw_match, md5_match}

-- An entry of the file.
pub record TextBaseEntry : Type 0 where
  pub address : Text
  pub forward : Text
  pub password : Text
  pub quota_kb : ℕ

-- The account that an entry describes.
unfoldable pub entry_data : TextBaseEntry → MboxData
entry_data i = record {
  canonical_mbox = i.address;
  mb_quota = pos (i.quota_kb / 1000);
  is_forward = not (empty i.forward);
  fwd_dest = i.forward;
}

present-injective : (a b : MboxData) (c d : Bool) → present a c ≡ present b d → (a ≡ b) × (c ≡ d)
present-injective a b c d h = (cc, cc)

module _ (md5calc : Text → Text) (crypt : Text → Text → Text) where
  unfoldable pub entry_match : TextBaseEntry → Text → Text → Bool
  entry_match i password challenge =
      if empty challenge
      then pw_match md5calc crypt password i.password
      else md5_match md5calc crypt challenge password i.password

  -- The loop over the entries.
  unfoldable pub find_entry : List TextBaseEntry → Text → Text → Text → Lookup
  find_entry [] mbox password challenge = absent (lit "No such mailbox found")
  find_entry (i ∷ is) mbox password challenge =
      if eq i.address mbox
      then present (entry_data i) (entry_match i password challenge)
      else find_entry is mbox password challenge

  -- `connected` is what the method of that name reports.
  unfoldable pub mbox_data : Bool → List TextBaseEntry → Text → Text → Text → Lookup
  unfolding find_entry
  mbox_data connected base mbox password challenge =
      if connected
      then find_entry base mbox password challenge
      else unavailable (lit "Temporary database error (not connected)")

  -- The first entry of an address.
  abbrev pub First : Text → TextBaseEntry → List TextBaseEntry → Type 0
  First mbox e [] = ⊥
  First mbox e (i ∷ is) =
      ((i ≡ e) × (e.address ≡ mbox)) ⊎ ((eq i.address mbox ≡ false) × First mbox e is)

  -- An account that the loop finds is the one of the first entry with its address, and the
  -- password is held against that entry.
  pub find_entry-First :
      (is : List TextBaseEntry) (mbox password challenge : Text) (md : MboxData) (correct : Bool)
      → find_entry is mbox password challenge ≡ present md correct
      → (e : TextBaseEntry) × First mbox e is
        × (md ≡ entry_data e)
        × (correct ≡ entry_match e password challenge)
        × (md.canonical_mbox ≡ mbox)
  unfolding find_entry entry_data
  find_entry-First [] mbox pw ch md correct h = cc
  find_entry-First (i ∷ is) mbox pw ch md correct h = elim (Bool-cases (eq i.address mbox)) [
    | inl e ↦
        let (f, g) = present-injective _ _ _ _ (rw e at h) in
        let k : i.address ≡ mbox = (eq_iff i.address mbox).0 e in
        (i, inl (refl, k), sym f, sym g, ap (λ m. m.canonical_mbox) (sym f) ∙ k)
    | inr e ↦
        let (x, f, g, k, l) = find_entry-First is mbox pw ch md correct (rw e at h) in
        (x, inr (e, f), g, k, l)
  ]
