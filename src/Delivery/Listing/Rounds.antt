-- ===== src/Delivery/Listing/Rounds.antt =====
-- How many rounds the loop of `moreDir` can take.
pub mod Ends
use powermail.Base.{ℕ, ◌+◌, List, [], ◌∷◌, length}
use powermail.Base.Int.{ℤ}
use powermail.Text.{Text}
use powermail.Disk.{Dir, entries, no_dir, Os}
use powermail.Delivery.{Delivery}
use powermail.Delivery.Listing.{numbers, x_dir}

abbrev pub entry_count : Dir → ℕ
entry_count (entries ns) = length (numbers ns)
entry_count (no_dir e) = 0

module _ (os : Os) where
  -- The second-level directories of what is left of the first level.
  unfoldable pub left_below : Text → os.Fs → List ℤ → ℕ
  left_below root f [] = 0
  left_below root f (x ∷ xs) =
      entry_count (os.read_dir (x_dir os root f x) f) + left_below root f xs

  unfoldable pub enough_rounds : Delivery os.Fs → ℕ
  enough_rounds d = 1 + length d.list_y + left_below d.mailroot d.fs d.list_x
