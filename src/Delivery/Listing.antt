-- ===== src/Delivery/Listing.antt =====
-- delivery.cc: the listing of all mailboxes, `startList` and `getListNext`, and the loop of
-- `moreDir` of ppsession.cc over them.
pub mod Rounds
use powermail.Base.{
  ℕ, zero, suc, ◌+◌, ◌<◌, Bool, true, false, List, [], ◌∷◌, ◌++◌, ◌==◌, leb, if◌then◌else◌, length,
}
use powermail.Base.Int.{ℤ}
use powermail.Text.{Text, lit, mem, char_at, is_digit}
use powermail.Text.Number.{itoa, atoi}
use powermail.Net.{Result, ok, throws, Exec}
use powermail.Disk.{Dir, entries, no_dir, enoent, Os}
use powermail.Delivery.{Delivery}

-- `setw(2)<<setfill('0')`
unfoldable pub padded : Text → Text
padded t = if leb 2 (length t) then t else if length t == 1 then b'0' ∷ t else b'0' ∷ b'0' ∷ t

-- The numbers of the entries that begin with a digit.
unfoldable pub numbers : List Text → List ℤ
numbers [] = []
numbers (n ∷ ns) = let rest = numbers ns in if is_digit (char_at n 0) then atoi n ∷ rest else rest

-- The names with an `@`, each on a line.
unfoldable pub mailboxes : List Text → Text
mailboxes [] = []
mailboxes (n ∷ ns) =
    let rest = mailboxes ns in if mem b'@' n then n ++ (lit "\r\n" ++ rest) else rest

-- What `getListNext` comes to: its false, its true with what it appends, or a read behind the end
-- of `d_listYvect`.
pub data Next : Type 0 where
  ended : Next
  more : Text → Next
  beyond : Next

-- A place in the listing: `list_x`, `at_x` and `list_y`.
abbrev pub Place : Type 0
Place = List ℤ × ℤ × List ℤ

-- What the loop of `moreDir` comes to; `spent` stands for fuel that ran out.
pub data Listed : Type 0 where
  all_of : Text → Listed
  past_end : Listed
  spent : Listed

module _ (os : Os) (root : Text) (f : os.Fs) where
  unfoldable pub x_dir : ℤ → Text
  x_dir x = root ++ (padded (itoa x) ++ lit "/")

  unfoldable pub y_dir : ℤ → ℤ → Text
  y_dir x y = x_dir x ++ padded (itoa y)

  -- The first of the second level that can be opened, with what stands behind it.
  pub data Visit : Type 0 where
    opened : Text → List ℤ → Visit
    none_left : Visit

  abbrev pub visit_one : Dir → List ℤ → Visit → Visit
  visit_one (entries ns) ys v = opened (mailboxes ns) ys
  visit_one (no_dir e) ys v = v

  unfoldable pub visit : ℤ → List ℤ → Visit
  visit x [] = none_left
  visit x (y ∷ ys) = visit_one (os.read_dir (y_dir x y) f) ys (visit x ys)

  abbrev pub visited : List ℤ → ℤ → Visit → Next × Place → Next × Place
  visited xs x (opened t ys) n = (more t, (xs, x, ys))
  visited xs x none_left n = n

  abbrev pub first_of : List ℤ → ℤ → List ℤ → Dir → (List ℤ → Next × Place) → Next × Place
  first_of xs x ys (entries ns) back = (more (mailboxes ns), (xs, x, ys))
  first_of xs x ys (no_dir e) back = back ys

  -- The first of a new `d_listYvect` is read with no test; `back` goes on from it.
  abbrev pub entered_at : List ℤ → ℤ → List ℤ → (List ℤ → Next × Place) → Next × Place
  entered_at xs x [] back = (beyond, (xs, x, []))
  entered_at xs x (y ∷ ys) back = first_of xs x ys (os.read_dir (y_dir x y) f) back

  abbrev pub entered : List ℤ → ℤ → Dir → (List ℤ → Next × Place) → Next × Place
  entered xs x (no_dir e) back = back []
  entered xs x (entries ns) back = entered_at xs x (numbers ns) back

  unfoldable pub next_from : List ℤ → ℤ → List ℤ → Next × Place
  next_from [] x ys = (ended, ([], x, ys))
  next_from (x' ∷ xs) x ys =
      visited (x' ∷ xs) x (visit x ys) (entered xs x' (os.read_dir (x_dir x') f) (next_from xs x'))

module _ (os : Os) where
  abbrev pub placed : Delivery os.Fs → Next × Place → Next × Delivery os.Fs
  placed d (n, p) = (n, record d { list_x = p.0; at_x = p.1; list_y = p.2 })

  unfoldable pub get_list_next : Delivery os.Fs → Next × Delivery os.Fs
  get_list_next d = placed d (next_from os d.mailroot d.fs d.list_x d.at_x d.list_y)

  abbrev pub started : Delivery os.Fs → Dir → Result (Unit {0}) × Delivery os.Fs
  started d (entries ns) = (ok tt, record d { list_x = numbers ns; list_y = [] })
  started d (no_dir e) = (
    if e == enoent
        then ok tt
        else throws (lit "Unable to open dir '" ++ (d.mailroot ++ (lit "': " ++ os.strerror e))),
    record d { list_x = []; list_y = [] },
  )

  -- Where the mail root is missing, the vectors are cleared and the iterators kept: a new
  -- object's are at the end.
  unfoldable pub start_list : Exec (Delivery os.Fs) (Unit {0})
  start_list d = started d (os.read_dir d.mailroot d.fs)

  abbrev pub rounds_on :
      Text
      → Next × Delivery os.Fs
      → (Text → Delivery os.Fs → Listed × Delivery os.Fs)
      → Listed × Delivery os.Fs
  rounds_on response (ended, d) k = (all_of (response ++ lit "."), d)
  rounds_on response (beyond, d) k = (past_end, d)
  rounds_on response (more t, d) k = k (response ++ t) d

  -- The loop never counts `n` up.
  unfoldable pub more_rounds : ℕ → Text → Delivery os.Fs → Listed × Delivery os.Fs
  more_rounds zero response d = (spent, d)
  more_rounds (suc n) response d = rounds_on response (get_list_next d) (more_rounds n)
