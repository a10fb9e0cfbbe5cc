-- ===== src/Cli/Metrics/Commands.antt =====
-- The words that cli/metrics/commands.go knows.
use compose_cli.Prelude.{String, List, [], ◌∷◌}

abbrev pub command_flags : List String
command_flags = "--version" ∷ "--login" ∷ []

abbrev pub management_commands : List String
management_commands =
    "help" ∷ "ecs" ∷ "scan" ∷ "app" ∷ "builder" ∷ "imagetools" ∷ "buildx" ∷ "checkpoint" ∷ "config"
    ∷ "container" ∷ "context" ∷ "create" ∷ "image" ∷ "manifest" ∷ "network" ∷ "node" ∷ "plugin"
    ∷ "secret" ∷ "service" ∷ "stack" ∷ "swarm" ∷ "system" ∷ "key" ∷ "signer" ∷ "trust" ∷ "volume"
    ∷ "login" ∷ "logout" ∷ "compose" ∷ []

abbrev pub commands : List String
commands =
    "bundle" ∷ "completion" ∷ "init" ∷ "inspect" ∷ "install" ∷ "deploy" ∷ "list" ∷ "ls" ∷ "merge"
    ∷ "pull" ∷ "push" ∷ "render" ∷ "split" ∷ "status" ∷ "uninstall" ∷ "upgrade" ∷ "validate"
    ∷ "version" ∷ "build" ∷ "prune" ∷ "create" ∷ "bake" ∷ "f" ∷ "b" ∷ "du" ∷ "rm" ∷ "stop" ∷ "use"
    ∷ "remove" ∷ "attach" ∷ "commit" ∷ "cp" ∷ "diff" ∷ "exec" ∷ "export" ∷ "kill" ∷ "logs" ∷ "ps"
    ∷ "pause" ∷ "port" ∷ "rename" ∷ "restart" ∷ "run" ∷ "start" ∷ "stats" ∷ "top" ∷ "unpause"
    ∷ "update" ∷ "wait" ∷ "aci" ∷ "ecs" ∷ "show" ∷ "history" ∷ "import" ∷ "load" ∷ "images" ∷ "rmi"
    ∷ "save" ∷ "tag" ∷ "annotate" ∷ "connect" ∷ "disconnect" ∷ "demote" ∷ "promote" ∷ "disable"
    ∷ "enable" ∷ "set" ∷ "rollback" ∷ "scale" ∷ "up" ∷ "down" ∷ "services" ∷ "ca" ∷ "join"
    ∷ "join-token" ∷ "leave" ∷ "unlock" ∷ "unlock-key" ∷ "df" ∷ "events" ∷ "info" ∷ "generate"
    ∷ "add" ∷ "revoke" ∷ "sign" ∷ "login" ∷ "azure" ∷ "logout" ∷ "search" ∷ "convert" ∷ []
