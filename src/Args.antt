-- ===== src/Args.antt =====
-- argsettings.cc: the arguments of a program, from its command line and its configuration file.
pub mod Parse
pub mod Print
pub mod RoundTrip
use powermail.Base.{ℕ, Bool, true, false, List, [], ◌∷◌, ◌++◌, Option, none, some, if◌then◌else◌}
use powermail.Base.Int.{ℤ}
use powermail.Text.{Text, lit, eq}
use powermail.Text.Number.{atoi}
use powermail.Mega.Index.{lt_text}
use powermail.Net.{Result, ok, throws, Exec}

-- `unset` stands for the type of an argument that only a look-up made.
pub data ArgType : Type 0 where
  parameter switch command ignored unset : ArgType

pub record Argument : Type 0 where
  pub help : Text
  pub value : Text
  pub kind : ArgType

-- `d_arguments`, ordered by name.
abbrev pub Arguments : Type 0
Arguments = List (Text × Argument)

unfoldable pub lookup : Text → Arguments → Option Argument
lookup name [] = none
lookup name ((n, a) ∷ m) = let rest = lookup name m in if eq n name then some a else rest

-- `map::insert`: an argument that is there stays.
unfoldable pub insert : Text → Argument → Arguments → Arguments
insert name arg [] = (name, arg) ∷ []
insert name arg ((n, a) ∷ m) =
    let rest = insert name arg m in
    if eq n name
    then (n, a) ∷ m
    else if lt_text name n
    then (name, arg) ∷ (n, a) ∷ m
    else (n, a) ∷ rest

-- A new value, by the reference to an argument that is there.
unfoldable pub assign : Text → Text → Arguments → Arguments
assign name v [] = []
assign name v ((n, a) ∷ m) =
    let rest = assign name v m in
    if eq n name then (n, record a { value = v }) ∷ m else (n, a) ∷ rest

unfoldable pub ignore : Text → Arguments → Arguments
ignore name = insert name (record { help = []; value = []; kind = ignored })

unfoldable pub add_parameter : Text → Text → Text → Arguments → Arguments
add_parameter name help v = insert name (record { help = help; value = v; kind = parameter })

unfoldable pub switch_value : Bool → Text
switch_value b = if b then lit "true" else lit "false"

unfoldable pub add_switch : Text → Text → Bool → Arguments → Arguments
add_switch name help b = insert name (record { help = help; value = switch_value b; kind = switch })

unfoldable pub add_command : Text → Text → Arguments → Arguments
add_command name help = insert name (record { help = help; value = []; kind = command })

-- `d_arguments[name]`: a name that is not there is made.
unfoldable pub argument : Text → Arguments → Argument × Arguments
argument name m =
    let none_yet : Argument = record { help = []; value = []; kind = unset } in
    elim (lookup name m) [ some a ↦ (a, m) | none ↦ (none_yet, insert name none_yet m) ]

unfoldable pub param_string : Text → Arguments → Text × Arguments
param_string name m = ((argument name m).0.value, (argument name m).1)

unfoldable pub param_as_num : Text → Arguments → ℤ × Arguments
param_as_num name m = (atoi (argument name m).0.value, (argument name m).1)

unfoldable pub switch_set : Text → Arguments → Bool × Arguments
switch_set name m = (eq (argument name m).0.value (lit "true"), (argument name m).1)

unfoldable pub command_given : Text → Arguments → Bool × Arguments
command_given name m = (eq (argument name m).0.value (lit "given"), (argument name m).1)

abbrev set_switch : Text → List Text → Exec Arguments (Unit {0})
set_switch name [] m = (ok tt, assign name (switch_value true) m)
set_switch name (p ∷ []) m =
    if eq p (lit "yes")
    then (ok tt, assign name (switch_value true) m)
    else if eq p (lit "true")
    then (ok tt, assign name (switch_value true) m)
    else if eq p (lit "set")
    then (ok tt, assign name (switch_value true) m)
    else if eq p (lit "no")
    then (ok tt, assign name (switch_value false) m)
    else if eq p (lit "false")
    then (ok tt, assign name (switch_value false) m)
    else if eq p (lit "unset")
    then (ok tt, assign name (switch_value false) m)
    else (
      throws (lit "Switch '" ++ (name ++ lit "' can only be set to yes/true/set/no/false/unset")),
      m,
    )
set_switch name (p ∷ q ∷ ps) m =
    (throws (lit "Switch '" ++ (name ++ lit "' takes 0 or 1 arguments")), m)

abbrev set_command : Text → List Text → Exec Arguments (Unit {0})
set_command name [] m = (ok tt, assign name (lit "given") m)
set_command name (p ∷ ps) m =
    (throws (lit "Command '" ++ (name ++ lit "' does not take an argument")), m)

abbrev pub set_parameter : Text → List Text → Exec Arguments (Unit {0})
set_parameter name (v ∷ []) m = (ok tt, assign name v m)
set_parameter name _ m = (throws (lit "Parameter '" ++ (name ++ lit "' needs a single value")), m)

abbrev pub set_kind : ArgType → Text → List Text → Exec Arguments (Unit {0})
set_kind ignored name ps m = (ok tt, m)
set_kind command name ps m = set_command name ps m
set_kind switch name ps m = set_switch name ps m
set_kind parameter name ps m = set_parameter name ps m
set_kind unset name ps m = (ok tt, m)

abbrev pub set_found : Bool → Option Argument → Text → List Text → Exec Arguments (Unit {0})
set_found lax none name ps m =
    if lax then (ok tt, m) else (throws (lit "Unknown argument passed: '" ++ (name ++ lit "'")), m)
set_found lax (some a) name ps m = set_kind a.kind name ps m

unfoldable pub set_param : Bool → List Text → Exec Arguments (Unit {0})
set_param lax [] m = (ok tt, m)
set_param lax (name ∷ ps) m = set_found lax (lookup name m) name ps m
