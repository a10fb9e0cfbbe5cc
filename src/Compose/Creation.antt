-- ===== src/Compose/Creation.antt =====
-- local/compose/create.go: the labels, the ports and the networks of a container, and what a
-- project is prepared with before its containers are made.
pub mod Idempotence
pub mod Bindings
pub mod Reloading
pub mod Tests
use Prim.Native.String.{◌++◌ as text_append}
use compose_cli.Prelude.{
  ℕ, zero, suc, String, Bool, true, false, not, Option, none, some, List, [], ◌∷◌, ◌++◌, ltb, ◌==◌,
  if◌then◌else◌,
}
use compose_cli.Prelude.GoMap.{GoMap, lookup, insert, has, keys}
use compose_cli.Prelude.Results.{Result, ok, err, ◌>>=◌}
use compose_cli.Go.Ints.{ℤ, pos}
use compose_cli.Go.Strconv.{itoa, itoa_int}
use compose_cli.Go.Strings.{join}
use compose_cli.Compose.Types.{
  ServiceConfig, Project, PortConfig, project_label, service_label, version_label, compose_version,
  oneoff_label, config_hash_label, working_dir_label, config_files_label, container_number_label,
}
use compose_cli.Compose.Convergence.{get_container_name}

unfoldable pub get_image_name : ServiceConfig → String → String
get_image_name service project_name =
    if service.image == ""
    then text_append project_name (text_append "_" service.name)
    else service.image

-- The loop that copies the labels of the service.
unfoldable pub copy_labels : GoMap String → GoMap String → GoMap String
copy_labels [] labels = labels
copy_labels ((k, v) ∷ rest) labels = copy_labels rest (insert k v labels)

-- The labels of `getCreateOptions`.
unfoldable pub create_labels : String → Project → ServiceConfig → ℤ → GoMap String
unfolding copy_labels
create_labels hash p service number =
    let labels = insert version_label compose_version (
      insert service_label service.name
        (insert project_label p.name (copy_labels service.labels []))) in
    let labels' =
      if has oneoff_label service.labels then labels else insert oneoff_label "False" labels in
    insert container_number_label (itoa_int number) (
      insert config_files_label (join "," p.compose_files)
        (insert working_dir_label p.working_dir (insert config_hash_label hash labels')))

-- `%d/%s`
abbrev pub port_key : PortConfig → String
port_key port = text_append (itoa port.target) (text_append "/" port.protocol)

-- The loop of `buildContainerPorts`; a set is a map to nothing.
unfoldable pub build_container_ports : List PortConfig → GoMap (Unit {0}) → GoMap (Unit {0})
build_container_ports [] ports = ports
build_container_ports (p ∷ rest) ports = build_container_ports rest (insert (port_key p) tt ports)

-- The host port of a binding; the rest of a `nat.PortBinding` is empty.
abbrev pub host_port : PortConfig → String
host_port port = if ltb 0 port.published then itoa port.published else ""

-- The loop of `buildContainerPortBindingOptions`.
unfoldable pub build_container_port_bindings :
    List PortConfig → GoMap (List String) → GoMap (List String)
build_container_port_bindings [] bindings = bindings
build_container_port_bindings (port ∷ rest) bindings =
    build_container_port_bindings rest (insert (port_key port) (host_port port ∷ []) bindings)

abbrev pub get_networks_for_service : ServiceConfig → GoMap (Option (List String))
get_networks_for_service s = elim s.networks [ [] ↦ ("default", none) ∷ [] | n ∷ ns ↦ n ∷ ns ]

-- `panic` is a panic of the program.
pub data NetworkMode : Type 0 where
  mode : String → NetworkMode
  panic : NetworkMode

-- The name that the project's map has for a network, the empty one if there is none.
abbrev pub network_name : Project → String → String
network_name p key = elim (lookup key p.networks) [ none ↦ "" | some n ↦ n ]

-- `first` is the key that the range over the networks of the service begins with.
unfoldable pub get_network_mode :
    (has_prefix : String → String → Bool) → String → Project → ServiceConfig → NetworkMode
get_network_mode has_prefix first p service =
    if service.network_mode == ""
    then (elim p.networks [ [] ↦ mode "none" | n ∷ ns ↦ mode (network_name p first) ])
    else if has_prefix service.network_mode "service:"
    then panic
    else if has_prefix service.network_mode "container:"
    then panic
    else mode service.network_mode

abbrev pub aliases_of : Option (Option (List String)) → List String
aliases_of (some (some aliases)) = aliases
aliases_of _ = []

unfoldable pub get_aliases : ServiceConfig → Option (Option (List String)) → List String
get_aliases s c = s.name ∷ aliases_of c

-- The one endpoint of `buildDefaultNetworkConfig`: its network and its aliases.
unfoldable pub build_default_network_config : ServiceConfig → String → String → String × List String
build_default_network_config s network_mode container_name =
    (network_mode, get_aliases s (lookup network_mode s.networks) ++ container_name ∷ [])
