-- ===== src/Cli/Metrics.antt =====
-- `GetCommand` of cli/metrics/metrics.go: the command that the metrics report of a command line.
pub mod Commands
pub mod Privacy
mod Tests
use Prim.Native.String.{◌++◌ as text_append}
use compose_cli.Prelude.{
  String, Bool, true, false, not, Option, none, some, ◌&&◌, ◌||◌, List, [], ◌∷◌, ◌==◌,
  if◌then◌else◌,
}
use compose_cli.Go.Spaces.{trim_space}
use compose_cli.Cli.Metrics.Commands.{command_flags, management_commands, commands}

-- `StringContains` of utils/stringutils.go
unfoldable pub string_contains : List String → String → Bool
string_contains [] needle = false
string_contains (val ∷ array) needle = if val == needle then true else string_contains array needle

unfoldable pub is_management_command : String → Bool
is_management_command word = string_contains management_commands word

unfoldable pub is_command : String → Bool
is_command word = string_contains commands word || is_management_command word

unfoldable pub is_command_flag : String → Bool
is_command_flag word = string_contains command_flags word

-- The result and `onlyFlags` after an argument, or `none` after which the loop ends.
unfoldable pub next_command : String → Bool → String → Option (String × Bool)
next_command result only_flags arg =
    if arg == "--help"
    then some (trim_space (text_append arg (text_append " " result)), only_flags)
    else if arg == "--"
    then none
    else if is_command_flag arg || (not only_flags && is_command arg)
    then some (
      trim_space (text_append result (text_append " " arg)),
      only_flags || (is_command arg && not (is_management_command arg)),
    )
    else some (result, only_flags)

unfoldable pub get_command_from : String → Bool → List String → String
get_command_from result only_flags [] = result
get_command_from result only_flags (arg ∷ args) = elim (next_command result only_flags arg) [
  | none ↦ result
  | some next ↦ get_command_from next.0 next.1 args
]

unfoldable pub get_command : List String → String
get_command args = get_command_from "" false args
