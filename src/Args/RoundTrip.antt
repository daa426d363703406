-- ===== src/Args/RoundTrip.antt =====
-- That a line of the configuration file, as argsettings.cc reads it, sets the parameter it names.
use powermail.Base.{ℕ, ◌≡◌, ◌≢◌, false, ◌||◌, Option, none, some, ◌==◌}
use powermail.Text.{Text, mem, is_space}
use powermail.Net.{Result, ok}
use powermail.Args.{Arguments, Argument, lookup}
use powermail.Args.Parse.{equals}

-- Bytes that may stand behind the `=` of a line, and those of a name.
abbrev pub Plain : ℕ → Type 0
Plain c = (c == b'#' || (c == b'\n' || c == b'\r')) ≡ false

abbrev pub NameByte : ℕ → Type 0
NameByte c = Plain c × (is_space c ≡ false) × (mem c equals ≡ false)

valued : Text → Option Argument → Option Argument
valued v none = none
valued v (some a) = some (record a { value = v })

-- What a line sets: the value of one argument, and of no other.
abbrev pub Sets : Text → Text → Argument → Arguments → Result (Unit {0}) × Arguments → Type 0
Sets n v a m r =
    (r.0 ≡ ok tt)
    × (lookup n r.1 ≡ some (record a { value = v }))
    × ((k : Text) → k ≢ n → lookup k r.1 ≡ lookup k m)
