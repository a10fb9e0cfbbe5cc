-- ===== src/Compose/Creation/Bindings.antt =====
-- The port bindings of local/compose/create.go.
use compose_cli.Prelude.{
  String, ◌≡◌, refl, sym, ◌∙◌, Bool, true, false, Option, none, some, List, [], ◌∷◌, ◌==◌,
  if◌then◌else◌,
}
use compose_cli.Prelude.GoMap.{GoMap, lookup, insert, has, lookup-insert, has-insert}
use compose_cli.Compose.Types.{PortConfig}
use compose_cli.Compose.Creation.{
  port_key, host_port, build_container_ports, build_container_port_bindings,
}

-- The last port with the key, or else the given one.
abbrev pub last_with : String → Option PortConfig → List PortConfig → Option PortConfig
last_with key found [] = found
last_with key found (p ∷ ports) = last_with key (if port_key p == key then some p else found) ports

abbrev pub bound : Option PortConfig → Option (List String)
bound none = none
bound (some p) = some (host_port p ∷ [])

bindings-last :
    (key : String) (ports : List PortConfig) (bindings : GoMap (List String))
    (found : Option PortConfig)
    → lookup key bindings ≡ bound found
    → lookup key (build_container_port_bindings ports bindings) ≡ bound (last_with key found ports)
unfolding build_container_port_bindings
bindings-last key [] bindings found before = before
bindings-last key (p ∷ ports) bindings found before =
    bindings-last key ports (insert (port_key p) (host_port p ∷ []) bindings)
      (if port_key p == key then some p else found)
      (step (port_key p == key) (lookup-insert (port_key p) key (host_port p ∷ []) bindings))
  where
    step :
        (same : Bool)
        → lookup key (insert (port_key p) (host_port p ∷ []) bindings)
          ≡ (if same then some (host_port p ∷ []) else lookup key bindings)
        → lookup key (insert (port_key p) (host_port p ∷ []) bindings)
          ≡ bound (if same then some p else found)
    step true e = e
    step false e = e ∙ before

exposed-bound :
    (key : String) (ports : List PortConfig) (set : GoMap (Unit {0}))
    (bindings : GoMap (List String))
    → has key set ≡ has key bindings
    → has key (build_container_ports ports set)
      ≡ has key (build_container_port_bindings ports bindings)
unfolding build_container_ports build_container_port_bindings
exposed-bound key [] set bindings same = same
exposed-bound key (p ∷ ports) set bindings same =
    exposed-bound key ports (insert (port_key p) tt set)
      (insert (port_key p) (host_port p ∷ []) bindings)
      (has-insert (port_key p) key tt set
        ∙ rw same refl
        ∙ sym (has-insert (port_key p) key (host_port p ∷ []) bindings))

-- The exposed container ports are those that are bound, and each is bound to one host port alone,
-- that of the last port of the service with this container port and protocol: the host ports of
-- the earlier ones are lost.
pub build_container_port_bindings-last_with :
    (ports : List PortConfig) (key : String)
    → (has key (build_container_ports ports []) ≡ has key (build_container_port_bindings ports []))
      × (lookup key (build_container_port_bindings ports []) ≡ bound (last_with key none ports))
unfolding lookup has
build_container_port_bindings-last_with ports key =
    (exposed-bound key ports [] [] refl, bindings-last key ports [] none refl)
