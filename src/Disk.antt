-- ===== src/Disk.antt =====
-- The system calls that the storage daemon makes, over a state of the file system that only the
-- system knows: an argument of the code that makes them.
pub mod Memory
use powermail.Base.{ℕ, ◌≡◌, ◌≢◌, Bool, List, Option, none, some, ◌⊎◌}
use powermail.Base.Int.{ℤ}
use powermail.Text.{Text}

-- What a call returns: a value, such as a descriptor, or -1 with an errno.
pub data Rc : Type 0 where
  returns : ℕ → Rc
  fails : ℕ → Rc

abbrev pub enoent : ℕ
enoent = 2

abbrev pub eexist : ℕ
eexist = 17

abbrev pub enospc : ℕ
enospc = 28

-- Of a name in a directory that `stat` knows: whether it is a regular file, and its size.
pub record Stat : Type 0 where
  pub regular : Bool
  pub size : ℕ

-- `opendir` with its `readdir`s yields the names of a directory, in some order.
pub data Dir : Type 0 where
  entries : List Text → Dir
  no_dir : ℕ → Dir

pub record Statfs : Type 0 where
  pub bavail : ℕ
  pub bsize : ℕ
  pub ffree : ℕ

pub record Os : Type 1 where
  pub Fs : Type 0
  pub mkdir : Text → Fs → Rc × Fs
  pub open_write : Text → Fs → Rc × Fs
  pub open_read : Text → Fs → Rc × Fs
  pub write : ℤ → Text → Fs → Rc × Fs
  pub close : ℤ → Fs → Rc × Fs
  pub link : Text → Text → Fs → Rc × Fs
  pub unlink : Text → Fs → Rc × Fs
  pub rename : Text → Text → Fs → Rc × Fs
  pub rmdir : Text → Fs → Rc × Fs
  pub read_dir : Text → Fs → Dir
  pub stat : Text → Fs → Option Stat
  pub access_write : Text → Fs → Rc
  pub access_exists : Text → Fs → Bool
  pub statfs : Text → Fs → ℕ ⊎ Statfs
  pub strerror : ℕ → Text

-- What a name leads to, symbolic links not followed: a regular file, by its number, or something
-- else, such as a directory.
pub data Node : Type 0 where
  file : ℕ → Node
  other : Node

-- What the system's manual says of `close`, `unlink` and `rename`, where no other process changes
-- the file system. `at` is what stands under a name, if anything; `place` is the directory entry
-- that a name stands for: two spellings of a path have one place. A `rename` of a regular file to a
-- name under which nothing stands moves that file, and touches no other place; one that fails
-- changes nothing. Of a `rename` of something else, or onto something, no law speaks.
pub record Names (os : Os) : Type 0 where
  pub at : os.Fs → Text → Option Node
  pub place : os.Fs → Text → Text
  pub close_at : (f : os.Fs) (fd : ℤ) (r : Text) → at (os.close fd f).1 r ≡ at f r
  pub close_place : (f : os.Fs) (fd : ℤ) (r : Text) → place (os.close fd f).1 r ≡ place f r
  pub unlink_at :
      (f : os.Fs) (p r : Text) → (at (os.unlink p f).1 r ≡ at f r) ⊎ (at (os.unlink p f).1 r ≡ none)
  pub rename_new :
      (f : os.Fs) (p q : Text) (i n : ℕ)
      → at f p ≡ some (file i)
      → at f q ≡ none
      → (os.rename p q f).0 ≡ returns n
      → at (os.rename p q f).1 q ≡ some (file i)
  pub rename_old :
      (f : os.Fs) (p q : Text) (i n : ℕ)
      → at f p ≡ some (file i)
      → at f q ≡ none
      → (os.rename p q f).0 ≡ returns n
      → at (os.rename p q f).1 p ≡ none
  pub rename_other :
      (f : os.Fs) (p q r : Text) (i : ℕ)
      → at f p ≡ some (file i)
      → at f q ≡ none
      → place f p ≢ place f r
      → place f q ≢ place f r
      → at (os.rename p q f).1 r ≡ at f r
  pub rename_place :
      (f : os.Fs) (p q r : Text) (i : ℕ)
      → at f p ≡ some (file i)
      → at f q ≡ none
      → place (os.rename p q f).1 r ≡ place f r
  pub rename_fails :
      (f : os.Fs) (p q r : Text) (e : ℕ)
      → (os.rename p q f).0 ≡ fails e
      → at (os.rename p q f).1 r ≡ at f r

-- No `unlink` of a regular file fails.
abbrev pub CanUnlink : (os : Os) → Names os → Type 0
CanUnlink os names =
    (f : os.Fs) (p : Text) (i : ℕ)
    → names.at f p ≡ some (file i)
    → names.at (os.unlink p f).1 p ≡ none
