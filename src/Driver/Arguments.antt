-- ===== src/Driver/Arguments.antt =====
-- millie.c, `main`: the reading of the command line.
pub mod Asks
pub mod Accepted
use millie.Prelude.{
  ℕ, Bool, true, false, List, [], ◌∷◌, Option, none, some, ◌==◌, ◌||◌, if◌then◌else◌,
}
use millie.Lexer.{Bytes}
use millie.Driver.{bytes}

pub record Settings : Type 0 where
  pub fname : Option Bytes
  pub print_type : Bool
  pub verbose : Bool

-- How the reading of an argument ends: it goes on, it prints the usage and returns 0, or it
-- prints an error and returns -1.
pub data Reading : Type 0 where
  go_on : Settings → Reading
  usage rejected : Reading

abbrev pub and_read : Reading → (Settings → Reading) → Reading
and_read (go_on settings) f = f settings
and_read usage f = usage
and_read rejected f = rejected

-- `strcmp(arg, switch) == 0`
abbrev pub same : Bytes → Bytes → Bool
same [] [] = true
same (x ∷ xs) (y ∷ ys) = if x == y then same xs ys else false
same _ _ = false

-- `switch(*arg)`
abbrev pub short_switch : ℕ → Settings → Reading
short_switch c settings =
    if c == b't'
    then go_on (record settings { print_type = true })
    else if c == b'v'
    then go_on (record settings { verbose = true })
    else if (c == b'h') || (c == b'?')
    then usage
    else rejected

unfoldable pub short_switches : Bytes → Settings → Reading
short_switches [] settings = go_on settings
short_switches (c ∷ cs) settings = and_read (short_switch c settings) (short_switches cs)

abbrev pub starts_with_dash : Bytes → Bool
starts_with_dash [] = false
starts_with_dash (c ∷ _) = c == b'-'

-- An argument, of which `rest` is what stands behind its dash.
unfoldable pub read_switch : Bytes → Bytes → Settings → Reading
unfolding short_switches
read_switch arg rest settings =
    if same arg (bytes "--verbose")
    then go_on (record settings { verbose = true })
    else if same arg (bytes "--print-type")
    then go_on (record settings { print_type = true })
    else if same arg (bytes "--help")
    then usage
    else if starts_with_dash rest
    then rejected
    else short_switches rest settings

abbrev pub read_file_name : Bytes → Settings → Reading
read_file_name arg settings = elim settings.fname [
  | some _ ↦ rejected
  | none ↦ go_on (record settings { fname = some arg })
]

unfoldable pub read_argument : Bytes → Settings → Reading
unfolding read_switch
read_argument [] settings = read_file_name [] settings
read_argument (c ∷ rest) settings =
    if c == b'-' then read_switch (c ∷ rest) rest settings else read_file_name (c ∷ rest) settings

-- The arguments behind the program's name, and the test for a file name.
unfoldable pub read_arguments : List Bytes → Settings → Reading
unfolding read_argument
read_arguments [] settings = elim settings.fname [ none ↦ rejected | some _ ↦ go_on settings ]
read_arguments (arg ∷ args) settings = and_read (read_argument arg settings) (read_arguments args)

abbrev pub no_settings : Settings
no_settings = record { fname = none; print_type = false; verbose = false }
