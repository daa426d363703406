-- ===== src/Delivery/Listing/Rounds/Ends.antt =====
-- That the loop of `moreDir` ends, and what it leaves out.
use powermail.Base.{ℕ, suc, ◌+◌, ◌<◌, ◌≡◌, refl, ap, ◌∙◌, List, [], ◌∷◌, ◌++◌, length}
use powermail.Base.Int.{ℤ}
use powermail.Text.{Text, lit}
use powermail.Disk.{Dir, entries, Os}
use powermail.Delivery.{Delivery}
use powermail.Delivery.Listing.{
  Next, ended, more, beyond, Place, all_of, Visit, opened, none_left, visit, first_of, entered_at,
  entered, next_from, placed, get_list_next, rounds_on, more_rounds, x_dir, y_dir, numbers,
  mailboxes,
}
use powermail.Delivery.Listing.Rounds.{left_below}

module _ (os : Os) (root : Text) (f : os.Fs) where
  -- What is left of a place.
  abbrev left : Place → ℕ
  left p = length p.2 + left_below os root f p.0

  -- A round that goes on leaves less than the bound.
  abbrev Less : ℕ → Next × Place → Type 0
  Less b (more t, p) = left p < b
  Less b (ended, p) = Unit
  Less b (beyond, p) = Unit

  -- The second-level directories behind the one that was opened are fewer.
  abbrev Fewer : ℕ → Visit os root f → Type 0
  Fewer n (opened t ys) = length ys < n
  Fewer n none_left = Unit

module _ (os : Os) where
  abbrev rest : Delivery os.Fs → ℕ
  rest d = length d.list_y + left_below os d.mailroot d.fs d.list_x

  -- The only directory of the first level, with what `opendir` said of it and of its first.
  first_more :
      (d : Delivery os.Fs) (x y : ℤ) (ys : List ℤ) (ns ms : List Text) (u : Dir)
      → u ≡ entries ns
      → numbers ns ≡ y ∷ ys
      → os.read_dir (y_dir os d.mailroot d.fs x y) d.fs ≡ entries ms
      → entered os d.mailroot d.fs [] x u (λ zs. (ended, ([], x, zs)))
        ≡ (more (mailboxes ms), ([], x, ys))
  first_more d x y ys ns ms u h k l =
      let back : List ℤ → Next × Place = λ zs. (ended, ([], x, zs)) in
      ap (λ w. entered os d.mailroot d.fs [] x w back) h
      ∙ ap (λ w. entered_at os d.mailroot d.fs [] x w back) k
      ∙ ap (λ w. first_of os d.mailroot d.fs [] x ys w back) l

  last_next :
      (d : Delivery os.Fs) (x y : ℤ) (ys : List ℤ) (ns ms : List Text)
      → os.read_dir (x_dir os d.mailroot d.fs x) d.fs ≡ entries ns
      → numbers ns ≡ y ∷ ys
      → os.read_dir (y_dir os d.mailroot d.fs x y) d.fs ≡ entries ms
      → next_from os d.mailroot d.fs (x ∷ []) d.at_x [] ≡ (more (mailboxes ms), ([], x, ys))
  unfolding next_from visit
  last_next d x y ys ns ms h k l =
      let u = os.read_dir (x_dir os d.mailroot d.fs x) d.fs in first_more d x y ys ns ms u h k l

  last_rounds :
      (n : ℕ) (t u : Text) (d : Delivery os.Fs) (x : ℤ) (ys : List ℤ)
      → (rounds_on os t (placed os d (more u, ([], x, ys))) (more_rounds os (suc n))).0
        ≡ all_of ((t ++ u) ++ lit ".")
  unfolding more_rounds get_list_next next_from
  last_rounds n t u d x ys = refl

  -- Of the last directory of the first level, the listing holds the mailboxes of its first
  -- subdirectory only, whatever subdirectories follow.
  pub more_rounds_last :
      (n : ℕ) (t : Text) (d : Delivery os.Fs) (x y : ℤ) (ys : List ℤ) (ns ms : List Text)
      → d.list_x ≡ x ∷ []
      → d.list_y ≡ []
      → os.read_dir (x_dir os d.mailroot d.fs x) d.fs ≡ entries ns
      → numbers ns ≡ y ∷ ys
      → os.read_dir (y_dir os d.mailroot d.fs x y) d.fs ≡ entries ms
      → (more_rounds os (suc (suc n)) t d).0 ≡ all_of ((t ++ mailboxes ms) ++ lit ".")
  unfolding more_rounds get_list_next
  more_rounds_last n t d x y ys ns ms h k l m o =
      ap
        (λ p.
          (rounds_on os t (placed os d (next_from os d.mailroot d.fs p.0 d.at_x p.1))
            (more_rounds os (suc n))).0)
        (pair_eq h k)
      ∙ ap (λ r. (rounds_on os t (placed os d r) (more_rounds os (suc n))).0)
          (last_next d x y ys ns ms l m o)
      ∙ last_rounds n t (mailboxes ms) d x ys
    where
      pair_eq : {a b c e : List ℤ} → a ≡ b → c ≡ e → ◌≡◌ {A = List ℤ × List ℤ} (a, c) (b, e)
      pair_eq p q = cc
