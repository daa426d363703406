-- ===== src/Args/Parse.antt =====
-- argsettings.cc: `parseArgs`, `preparseArgs`, `getRest`, `parseFile` and `parseFiles`.
use powermail.Base.{
  Bool, false, ◌&&◌, ◌||◌, not, List, [], ◌∷◌, ◌++◌, reverse, Option, none, some, ◌==◌,
  if◌then◌else◌, drop,
}
use powermail.Text.{Text, lit, eq, starts_with, is_space, before, from}
use powermail.Text.Clean.{chomp}
use powermail.Net.{ok, Exec, ◌>>=◌, ◌>>◌}
use powermail.Args.{Arguments, set_param}

abbrev pub equals : Text
equals = b'=' ∷ []

abbrev pub parts_at : Text → Text → List Text
parts_at t [] = t ∷ []
parts_at t (d ∷ v) = before equals t ∷ v ∷ []

unfoldable pub tuple_to_parts : Text → List Text
tuple_to_parts [] = []
tuple_to_parts (c ∷ t) = parts_at (c ∷ t) (from equals (c ∷ t))

-- The words of the command line that begin with `--`, without that.
unfoldable pub options : List Text → List Text
options [] = []
options (w ∷ ws) =
    let rest = options ws in if starts_with (lit "--") w then drop 2 w ∷ rest else rest

unfoldable pub get_rest : List Text → List Text
get_rest [] = []
get_rest (w ∷ ws) = let rest = get_rest ws in if starts_with (lit "--") w then rest else w ∷ rest

unfoldable pub set_all : List Text → Exec Arguments (Unit {0})
set_all [] m = (ok tt, m)
set_all (t ∷ ts) m = (set_param false (tuple_to_parts t) >> set_all ts) m

unfoldable pub parse_args : List Text → Exec Arguments (Unit {0})
parse_args ws = set_all (options ws)

abbrev is_named : Text → List Text → Bool
is_named name [] = false
is_named name (n ∷ ps) = eq n name

unfoldable pub preparse : Text → List Text → Exec Arguments (Unit {0})
preparse name [] m = (ok tt, m)
preparse name (t ∷ ts) m =
    let parts = tuple_to_parts t in
    ((λ (m : Arguments). if is_named name parts then set_param false parts m else (ok tt, m))
        >> preparse name ts)
      m

unfoldable pub preparse_args : Text → List Text → Exec Arguments (Unit {0})
preparse_args name ws = preparse name (options ws)

-- The loop over `totLine`, with `equalsSeen`.
unfoldable pub stripped : Bool → Text → Text
stripped seen [] = []
stripped seen (c ∷ t) =
    let now = seen || c == b'=' in
    let rest = stripped now t in
    if c == b'#' || (c == b'\n' || c == b'\r')
    then []
    else if not now && is_space c
    then rest
    else c ∷ rest

abbrev pub is_backslash : Text → Bool
is_backslash [] = false
is_backslash (c ∷ r) = c == b'\\'

-- `line[line.size()-1]=='\\'`, which reads in front of a line that is empty: there it is no.
unfoldable pub continues : Text → Bool
continues line = is_backslash (reverse line)

-- The lines of the file, with `totLine`. One that is continued at the end of the file is dropped.
unfoldable pub file_lines : Text → List Text → List Text
file_lines total [] = []
file_lines total (l ∷ ls) =
    let line = chomp (lit " \r\n") l in
    let on = file_lines (total ++ chomp (lit "\\") line) ls in
    let new = file_lines [] ls in
    if continues line then on else stripped false (total ++ line) ∷ new

-- An `=` leaves two parts, so the empty one that is added for it never is.
unfoldable pub parse_lines : List Text → Exec Arguments (Unit {0})
parse_lines ls = set_all (file_lines [] ls)

-- `parseFiles`, on the names of the files, with the lines of those that can be opened: the first of
-- these is read, and its name is the response. With `none` the call returns true.
unfoldable pub parse_files : List (Text × Option (List Text)) → Exec Arguments (Option Text)
parse_files [] m = (ok none, m)
parse_files ((name, none) ∷ fs) m = parse_files fs m
parse_files ((name, some ls) ∷ fs) m = (parse_lines ls >>= (λ _ m. (ok (some name), m))) m
