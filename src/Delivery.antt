-- ===== src/Delivery.antt =====
-- delivery.cc: how the storage daemon keeps messages in directories. The calls of syslog and of the
-- logger are left out, and so is the destructor, which does what `reset` does.
pub mod Hash
pub mod Message
pub mod Mailbox
pub mod Listing
pub mod Keeps
pub mod Open
use Prim.Native.Nat.{bit_xor}
use powermail.Base.{ℕ, ◌+◌, ◌-◌, ◌*◌, ◌/◌, ◌%◌, ◌^◌, List, [], ◌∷◌, ◌++◌, leb, if◌then◌else◌}
use powermail.Base.Int.{ℤ}
use powermail.Text.{Text}

-- The object, with the file system that its calls change. `fd` holds any value before the first
-- message: the constructor does not set it. Of the vectors of the listing, `list_x` and `list_y` hold
-- what stands from their iterators on, and `at_x` the element in front of `d_listX`.
pub record Delivery (F : Type 0) : Type 0 where
  pub fs : F
  pub filenames : List Text
  pub destinations : List Text
  pub filename : Text
  pub fd : ℤ
  pub mailroot : Text
  pub list_x : List ℤ
  pub at_x : ℤ
  pub list_y : List ℤ

-- One byte of `dohash`: the eight bits of `ch`, after the letters A-Z were folded.
unfoldable pub folded : ℕ → ℕ
folded c =
    let ch = (c + 256 - b'A') % 256 in
    if leb 128 ch then (ch + 32) % 256 else if leb ch 25 then ch + 32 else ch

-- A signed char, converted to the unsigned long of 64 bits.
unfoldable pub extended : ℕ → ℕ
extended ch = if leb 128 ch then ch + (2 ^ 64 - 256) else ch

unfoldable pub hash_from : ℕ → Text → ℕ
unfolding folded extended
hash_from h [] = h
hash_from h (c ∷ s) = hash_from (bit_xor ((h * 32 + h) % 2 ^ 64) (extended (folded c))) s

unfoldable pub hash_x : Text → ℕ
hash_x mbox = hash_from 5381 mbox % 100

unfoldable pub hash_y : Text → ℕ
hash_y mbox = (hash_from 5381 mbox % 10000) / 100

-- `%02d` of a number below 100.
unfoldable pub two_digits : ℕ → Text
two_digits n = (n / 10 + b'0') ∷ (n % 10 + b'0') ∷ []

unfoldable pub level_one : Text → Text
unfolding two_digits
level_one mbox = b'/' ∷ two_digits (hash_x mbox)

unfoldable pub level_two : Text → Text
unfolding two_digits level_one
level_two mbox = level_one mbox ++ (b'/' ∷ two_digits (hash_y mbox))

-- The seven bytes that the `snprintf` leaves room for are all there are.
unfoldable pub dohash : Text → Text
unfolding level_two
dohash mbox = level_two mbox ++ (b'/' ∷ [])
