-- ===== src/Cli/Metrics/Tests.antt =====
-- A command line of docker, and the theorems about cli/metrics/metrics.go at it.
use compose_cli.Prelude.{String, ◌≡◌, refl, List, [], ◌∷◌, All}
use compose_cli.Go.Strings.{join}
use compose_cli.Go.Spaces.{is_space, trim_left, trim_right, trim_space}
use compose_cli.Cli.Metrics.{
  string_contains, is_management_command, is_command, is_command_flag, next_command,
  get_command_from, get_command,
}
use compose_cli.Cli.Metrics.Privacy.{IsTold, get_command-IsTold}

abbrev arguments : List String
arguments = "run" ∷ "--name" ∷ "secret-project" ∷ "--help" ∷ "rm" ∷ []

get_command_run : get_command arguments ≡ "--help run"
unfolding get_command get_command_from next_command trim_space trim_left trim_right is_space
    is_command is_command_flag is_management_command string_contains
get_command_run = refl

get_command-IsTold_example :
    (ws : List String) × (get_command arguments ≡ join " " ws) × All (IsTold arguments) ws
get_command-IsTold_example = get_command-IsTold arguments
