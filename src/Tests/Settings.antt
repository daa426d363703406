-- ===== src/Tests/Settings.antt =====
-- A run of the parser of the configuration file.
use powermail.Base.{false, ◌≡◌, refl, true, []}
use powermail.Text.{lit, eq}
use powermail.Args.{Arguments, Argument, add_parameter, add_switch, insert}
use powermail.Args
use powermail.Args.Print.{make_left, make_config}
use powermail.Mega.Index.{lt_text}

abbrev settings : Arguments
settings =
    add_switch (lit "quota") (lit "Check quotas") true
      (add_parameter (lit "port") (lit "Port") (lit "25") [])

abbrev port : Argument
port = record { help = lit "Port"; value = lit "25"; kind = Args.parameter }

-- The switch that is set has its value in capitals.
help_text :
    make_left (lit "quota") (record { help = []; value = lit "true"; kind = Args.switch }) false
    ≡ lit "quota[=(TRUE|false)]"
unfolding make_left eq lit
help_text = refl

config_text : make_config settings ≡ lit "# Port\n# port=25\n\n# Check quotas\n# quota=true\n\n"
unfolding make_config make_left add_parameter add_switch insert Args.switch_value eq lit lt_text
config_text = refl
