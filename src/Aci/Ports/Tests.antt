-- ===== src/Aci/Ports/Tests.antt =====
-- A service with two ports, and the theorem about aci/convert/ports.go at it.
use compose_cli.Prelude.{
  String, ◌≡◌, refl, arith, not_same_text, none, some, List, [], ◌∷◌, map, ◌==◌, if◌then◌else◌,
}
use compose_cli.Prelude.Results.{err}
use compose_cli.Go.Ints.{pos}
use compose_cli.Aci.Ports.{
  PortConfig, AciPort, mapping_not_supported, Sdk, protocols_of, convert_port, convert_all,
  convert_ports_to_aci, to_ports,
}
use compose_cli.Aci.Ports.Published.{published, to_ports-convert_ports_to_aci}

abbrev sdk : Sdk
sdk = record { container_tcp = "TCP"; container_udp = "UDP"; group_tcp = "TCP"; group_udp = "UDP" }

abbrev lower : String → String
lower s = if s == "TCP" then "tcp" else if s == "UDP" then "udp" else s

abbrev ports : List PortConfig
ports =
    record { published = 80; target = 80; protocol = "" }
    ∷ record { published = 0; target = 53; protocol = "udp" }
    ∷ []

abbrev converted : List AciPort
converted =
    record { port = some (pos 80); protocol = "TCP" }
    ∷ record { port = some (pos 53); protocol = "UDP" }
    ∷ []

refused_mapping :
    convert_ports_to_aci sdk "web" ""
      (record { published = 8080; target = 80; protocol = "tcp" } ∷ [])
    ≡ err (mapping_not_supported 8080 80 "web")
unfolding convert_ports_to_aci convert_all convert_port
refused_mapping = refl

to_ports-convert_ports_to_aci_example :
    to_ports lower (some "10.0.0.1") converted ≡ map (published "10.0.0.1") ports
unfolding convert_ports_to_aci convert_all convert_port protocols_of to_ports
to_ports-convert_ports_to_aci_example =
    to_ports-convert_ports_to_aci sdk lower refl refl (not_same_text "TCP" "" refl)
      (not_same_text "UDP" "" refl) "web" "" "10.0.0.1" ports converted converted none refl
      (omega arith, (omega arith, tt))
