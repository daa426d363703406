-- ===== src/Args/Print.antt =====
-- argsettings.cc: what --help and --config print.
use powermail.Base.{
  ℕ, zero, suc, ◌+◌, ◌-◌, ◌%◌, ◌^◌, max, Bool, true, false, List, [], ◌∷◌, ◌++◌, if◌then◌else◌, ltb,
  length,
}
use powermail.Text.{Text, lit, eq}
use powermail.Text.Tokens.{stringtok}
use powermail.Args.{ArgType, parameter, switch, command, ignored, Argument, Arguments}

abbrev is_command : ArgType → Bool
is_command command = true
is_command _ = false

abbrev is_ignored : ArgType → Bool
is_ignored ignored = true
is_ignored _ = false

-- What stands in front of the `switch` of `makeLeft`.
abbrev left_name : Text → Argument → Bool → Text
left_name name arg config =
    if config
    then (if is_command arg.kind
        then (if eq arg.value (lit "given") then name else lit "# " ++ name)
        else name)
    else name

abbrev left_value : ArgType → Argument → Bool → Text
left_value parameter arg config = lit "=" ++ arg.value
left_value switch arg config =
    if config
    then lit "=" ++ arg.value
    else if eq arg.value (lit "true")
    then lit "[=(TRUE|false)]"
    else lit "[=(true|FALSE)]"
left_value _ arg config = []

unfoldable pub make_left : Text → Argument → Bool → Text
make_left name arg config = left_name name arg config ++ left_value arg.kind arg config

unfoldable pub spaces : ℕ → Text
spaces zero = []
spaces (suc n) = b' ' ∷ spaces n

-- The loop of `wordWrap`; `left` is an unsigned int, which wraps around below 0.
unfoldable pub wrap_from : ℕ → ℕ → List Text → Text
wrap_from skip left [] = []
wrap_from skip left (w ∷ ws) =
    let full = (80 + 2 ^ 32 - skip % 2 ^ 32) % 2 ^ 32 in
    let used = length w + 1 in
    let on = wrap_from skip ((full + 2 ^ 32 - used % 2 ^ 32) % 2 ^ 32) ws in
    let here = wrap_from skip ((left + 2 ^ 32 - used % 2 ^ 32) % 2 ^ 32) ws in
    if ltb left (length w)
    then lit "\n" ++ (spaces skip ++ (w ++ (lit " " ++ on)))
    else w ++ (lit " " ++ here)

unfoldable pub word_wrap : Text → ℕ → Text
word_wrap input skip =
    wrap_from skip ((80 + 2 ^ 32 - skip % 2 ^ 32) % 2 ^ 32) (stringtok (lit " \t\n") input)

unfoldable pub make_config : Arguments → Text
make_config [] = []
make_config ((name, arg) ∷ m) =
    let rest = make_config m in
    if is_command arg.kind
    then rest
    else lit "# " ++ (arg.help ++ (lit "\n# " ++ (make_left name arg true ++ (lit "\n\n" ++ rest))))

unfoldable pub max_left : Arguments → ℕ
max_left [] = 0
max_left ((name, arg) ∷ m) =
    let rest = max_left m in
    if is_ignored arg.kind then rest else max (length (make_left name arg false)) rest

-- Each argument on its line, its help behind the widest name.
unfoldable pub help_lines : ℕ → Arguments → Text
help_lines width [] = []
help_lines width ((name, arg) ∷ m) =
    let rest = help_lines width m in
    let say = make_left name arg false in
    if is_ignored arg.kind
    then rest
    else lit " --"
      ++ (say
          ++ (spaces (width - length say)
              ++ (word_wrap arg.help (width + 3) ++ (lit "\n" ++ rest))))

unfoldable pub make_help : Arguments → Text
make_help m = help_lines (max_left m + 2) m
