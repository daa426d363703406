-- ===== src/Net/Buffer.antt =====
-- `getLine` of session.cc: lines out of a buffer that `read` fills.
pub mod Lines
use powermail.Base.{
  ℕ, zero, suc, ◌+◌, ◌-◌, Bool, true, false, ◌&&◌, List, [], ◌∷◌, ◌++◌, Option, none, some, ◌==◌,
  if◌then◌else◌, length, drop, take,
}
use powermail.Text.{Text, lit, before, mem}

abbrev pub bufsize : ℕ
bufsize = 15049

-- What the socket has for the next `read`s: bytes that arrived together, or a failure. Behind the
-- last entry the remote has closed the connection.
pub data Read : Type 0 where
  bytes : Text → Read
  broken : Text → Read

-- The bytes of `rdbuf` in front of `wroffset`, which is their number, and `rdoffset`.
pub record Reader : Type 0 where
  pub rdbuf : Text
  pub rdoffset : ℕ
  pub incoming : List Read

abbrev pub wroffset : Reader → ℕ
wroffset s = length s.rdbuf

abbrev pub unread : Reader → Text
unread s = drop s.rdoffset s.rdbuf

-- `spent` stands for fuel that ran out.
pub data Got : Type 0 where
  line : Text → Got
  failed : Text → Got
  spent : Got

abbrev newline : Text
newline = b'\n' ∷ []

-- What a C string holds: the bytes in front of the first NUL.
unfoldable pub c_string : Text → Text
c_string s = before (0 ∷ []) s

abbrev pub next_place : Option ℕ → Option ℕ
next_place none = none
next_place (some n) = some (suc n)

-- `strnchr`: the place of the byte among the first ones.
unfoldable pub strnchr : ℕ → Text → Option ℕ
strnchr c [] = none
strnchr c (x ∷ xs) = let rest = strnchr c xs in if x == c then some 0 else next_place rest

unfoldable pub have_line : Reader → Bool
have_line s = elim (strnchr b'\n' (unread s)) [ none ↦ false | some n ↦ true ]

-- `if(wroffset==rdoffset) wroffset=rdoffset=0;`
unfoldable pub rewound : Reader → Reader
rewound s = if wroffset s == s.rdoffset then record s { rdbuf = []; rdoffset = 0 } else s

-- The line in front of the newline at `n`. The NUL that is put over the newline is left out: the
-- place is behind `rdoffset` from then on.
abbrev pub cut : ℕ → Reader → Got × Reader
cut n s =
    (line (c_string (take n (unread s)) ++ newline), record s { rdoffset = s.rdoffset + n + 1 })

-- `memmove` to the left, where the buffer is full.
unfoldable pub flushed : Reader → Reader
flushed s = if wroffset s == bufsize then record s { rdbuf = unread s; rdoffset = 0 } else s

abbrev pub behind : Text → List Read → List Read
behind [] rs = rs
behind (x ∷ xs) rs = bytes (x ∷ xs) ∷ rs

-- `read` yields as many bytes as there are and as there is room for; none means the end.
abbrev pub filled : Reader → Text → Text → List Read → (Reader → Got × Reader) → Got × Reader
filled s [] left rs k =
    (failed (lit "Connection closed by foreign host"), record s { incoming = behind left rs })
filled s (x ∷ xs) left rs k =
    k (record s { rdbuf = s.rdbuf ++ (x ∷ xs); incoming = behind left rs })

abbrev pub fill : Reader → List Read → (Reader → Got × Reader) → Got × Reader
fill s [] k = (failed (lit "Connection closed by foreign host"), s)
fill s (broken e ∷ rs) k = (failed e, record s { incoming = rs })
fill s (bytes t ∷ rs) k =
    let room = bufsize - wroffset s in filled s (take room t) (drop room t) rs k

abbrev pub no_line : Reader → (Reader → Got × Reader) → Got × Reader
no_line s k =
    if wroffset s == bufsize && s.rdoffset == 0
    then (failed (lit "Line too long"), s)
    else fill (flushed s) (flushed s).incoming k

abbrev pub found : Option ℕ → Reader → (Reader → Got × Reader) → Got × Reader
found (some n) s k = cut n s
found none s k = no_line s k

-- The fuel is a bound on the rounds of the loop.
unfoldable pub get_line_in : ℕ → Reader → Got × Reader
get_line_in zero s = (spent, s)
get_line_in (suc f) s = let r = rewound s in found (strnchr b'\n' (unread r)) r (get_line_in f)

-- The bytes that `read` can still yield.
unfoldable pub to_come : List Read → Text
to_come [] = []
to_come (bytes t ∷ rs) = t ++ to_come rs
to_come (broken e ∷ rs) = []

-- Each round but the last takes a byte.
unfoldable pub get_line : Reader → Got × Reader
get_line s = get_line_in (suc (suc (length (to_come s.incoming)))) s
