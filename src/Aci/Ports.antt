-- ===== src/Aci/Ports.antt =====
-- aci/convert/ports.go: the ports of a service as the Azure SDK's, and those of a container back.
--
-- The names that the SDK has for the protocols are parameters, as is strings.ToLower.
pub mod Published
mod Tests
use compose_cli.Prelude.{
  ℕ, zero, suc, String, Bool, true, false, ◌&&◌, ◌||◌, not, Option, none, some, List, [], ◌∷◌, eqb,
  ◌==◌, if◌then◌else◌,
}
use compose_cli.Prelude.Results.{Result, ok, err, ◌>>=◌}
use compose_cli.Go.Ints.{ℤ, int32_of_uint32, uint32_of}

-- compose-go's `ServicePortConfig`.
pub record PortConfig : Type 0 where
  pub published : ℕ
  pub target : ℕ
  pub protocol : String

-- A port of the SDK, of a container or of a group; a nil port is `none`.
pub record AciPort : Type 0 where
  pub port : Option ℤ
  pub protocol : String

-- `containers.Port`
pub record Port : Type 0 where
  pub host_port : ℕ
  pub container_port : ℕ
  pub protocol : String
  pub host_ip : String

pub data PortError : Type 0 where
  mapping_not_supported : (published target : ℕ) (service : String) → PortError
  unknown_protocol : (protocol service : String) → PortError

-- The names of the protocols, for a container and for a group.
pub record Sdk : Type 0 where
  pub container_tcp : String
  pub container_udp : String
  pub group_tcp : String
  pub group_udp : String

module _ (sdk : Sdk) where
  -- The `switch` on the protocol: the container's and the group's.
  unfoldable pub protocols_of : String → PortConfig → Result PortError (String × String)
  protocols_of service_name port =
      if (port.protocol == "tcp") || (port.protocol == "")
      then ok (sdk.container_tcp, sdk.group_tcp)
      else if port.protocol == "udp"
      then ok (sdk.container_udp, sdk.group_udp)
      else err (unknown_protocol port.protocol service_name)

  -- One round of the loop.
  unfoldable pub convert_port : String → PortConfig → Result PortError (AciPort × AciPort)
  convert_port service_name port =
      if not (eqb port.published 0) && not (eqb port.published port.target)
      then err (mapping_not_supported port.published port.target service_name)
      else (do
        protocols ← protocols_of service_name port
        ok (
          record { port = some (int32_of_uint32 port.target); protocol = protocols.0 },
          record { port = some (int32_of_uint32 port.target); protocol = protocols.1 },
        ))

  unfoldable pub convert_all :
      String → List PortConfig → Result PortError (List AciPort × List AciPort)
  convert_all service_name [] = ok ([], [])
  convert_all service_name (p ∷ ports) = do
    first ← convert_port service_name p
    rest ← convert_all service_name ports
    ok (first.0 ∷ rest.0, first.1 ∷ rest.1)

  -- The container's ports, the group's, and the label of the domain name.
  unfoldable pub convert_ports_to_aci :
      String
      → String
      → List PortConfig
      → Result PortError (List AciPort × List AciPort × Option String)
  convert_ports_to_aci service_name domain_name ports = do
    converted ← convert_all service_name ports
    ok (converted.0, converted.1, if domain_name == "" then none else some domain_name)

module _ (to_lower : String → String) where
  -- `ip_addr` is the address, where neither pointer is nil.
  unfoldable pub to_ports : Option String → List AciPort → List Port
  to_ports ip_addr [] = []
  to_ports ip_addr (p ∷ ports) =
      let rest = to_ports ip_addr ports in
      elim p.port [
        | none ↦ rest
        | some n ↦
            record {
              host_port = uint32_of n;
              container_port = uint32_of n;
              protocol = to_lower (if p.protocol == "" then "tcp" else p.protocol);
              host_ip = elim ip_addr [ none ↦ "" | some ip ↦ ip ];
            }
            ∷ rest
      ]
