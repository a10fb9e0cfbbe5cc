-- ===== src/Aci/Ports/Published.antt =====
-- The ports that the user sees of a service, after both functions of aci/convert/ports.go.
use mathlib.Core.Path.{subst}
use compose_cli.Prelude.{
  Bool-cases, inl, inr, ◌<◌, ◌^◌, String, ◌≡◌, refl, sym, ap, ◌∙◌, true, false, not, ◌&&◌, ◌||◌,
  Option, none, some, List, [], ◌∷◌, map, All, eqb, eq_iff, ◌==◌, ==-false, ◌≢◌, if◌then◌else◌,
}
use compose_cli.Prelude.Results.{ok, ◌>>=◌, >>=-eq-ok}
use compose_cli.Go.Ints.{int32_of_uint32, uint32_of-int32_of_uint32}
use compose_cli.Aci.Ports.{
  PortConfig, AciPort, Port, Sdk, protocols_of, convert_port, convert_all, convert_ports_to_aci,
  to_ports,
}

-- A port of the service, published under its own number.
abbrev pub published : String → PortConfig → Port
published ip p = record {
  host_port = p.target;
  container_port = p.target;
  protocol = if p.protocol == "udp" then "udp" else "tcp";
  host_ip = ip;
}

abbrev pub IsUint32 : PortConfig → Type 0
IsUint32 p = p.target < 2 ^ 32

module _ (sdk : Sdk) (service : String) (p : PortConfig) (protocols : String × String)
    (chosen : protocols_of sdk service p ≡ ok protocols) where
  protocols_of-udp : (p.protocol == "udp") ≡ true → (sdk.container_udp, sdk.group_udp) ≡ protocols
  unfolding protocols_of
  protocols_of-udp udp = cc (rw (other "tcp" refl, other "" refl, udp, protocols_of) at chosen)
    where
      other : (t : String) → ("udp" == t) ≡ false → (p.protocol == t) ≡ false
      other t apart = subst (λ x. (x == t) ≡ false) (sym ((eq_iff p.protocol "udp").0 udp)) apart

  protocols_of-tcp : (p.protocol == "udp") ≡ false → (sdk.container_tcp, sdk.group_tcp) ≡ protocols
  unfolding protocols_of
  protocols_of-tcp other = elim (Bool-cases ((p.protocol == "tcp") || (p.protocol == ""))) [
    | inl tcp ↦ cc (rw (tcp, protocols_of) at chosen)
    | inr unknown ↦ absurd (cc (rw (unknown, other, protocols_of) at chosen))
  ]

module _ (sdk : Sdk) (to_lower : String → String) (tcp_lower : to_lower sdk.container_tcp ≡ "tcp")
    (udp_lower : to_lower sdk.container_udp ≡ "udp") (tcp_named : sdk.container_tcp ≢ "")
    (udp_named : sdk.container_udp ≢ "") where
  protocol_lem :
      (service : String) (p : PortConfig) (protocols : String × String)
      → protocols_of sdk service p ≡ ok protocols
      → to_lower (if protocols.0 == "" then "tcp" else protocols.0)
        ≡ (if p.protocol == "udp" then "udp" else "tcp")
  protocol_lem service p protocols e = elim (Bool-cases (p.protocol == "udp")) [
    | inl udp ↦
        rw
          (
            sym (protocols_of-udp sdk service p protocols e udp),
            ==-false sdk.container_udp "" udp_named,
            udp,
          )
          udp_lower
    | inr other ↦
        rw
          (
            sym (protocols_of-tcp sdk service p protocols e other),
            ==-false sdk.container_tcp "" tcp_named,
            other,
          )
          tcp_lower
  ]

  convert_port_lem :
      (service : String) (p : PortConfig) (pair : AciPort × AciPort)
      → convert_port sdk service p ≡ ok pair
      → (pair.0.port ≡ some (int32_of_uint32 p.target))
        × (pair.1.port ≡ pair.0.port)
        × (to_lower (if pair.0.protocol == "" then "tcp" else pair.0.protocol)
            ≡ (if p.protocol == "udp" then "udp" else "tcp"))
  unfolding convert_port
  convert_port_lem service p pair e =
      elim (Bool-cases (not (eqb p.published 0) && not (eqb p.published p.target))) [
        | inl mapped ↦ absurd (cc (rw (mapped, convert_port) at e))
        | inr kept ↦
            let (protocols, good, same) =
              >>=-eq-ok (protocols_of sdk service p)
                (λ protocols. ok (
                  record { port = some (int32_of_uint32 p.target); protocol = protocols.0 },
                  record { port = some (int32_of_uint32 p.target); protocol = protocols.1 },
                ))
                (rw (kept, convert_port) at e) in
            let built : ◌≡◌ {A = AciPort × AciPort}
                (
                  record { port = some (int32_of_uint32 p.target); protocol = protocols.0 },
                  record { port = some (int32_of_uint32 p.target); protocol = protocols.1 },
                )
                pair =
              cc same in
            rw (sym built) (refl, refl, protocol_lem service p protocols good)
      ]

  to_ports-cons :
      (ip : String) (p : PortConfig) (c : AciPort) (cs : List AciPort)
      → IsUint32 p
      → c.port ≡ some (int32_of_uint32 p.target)
      → to_lower (if c.protocol == "" then "tcp" else c.protocol)
        ≡ (if p.protocol == "udp" then "udp" else "tcp")
      → to_ports to_lower (some ip) (c ∷ cs) ≡ published ip p ∷ to_ports to_lower (some ip) cs
  unfolding to_ports
  to_ports-cons ip p c cs small port named =
      rw (port, named, uint32_of-int32_of_uint32 p.target small) refl

  convert_all_lem :
      (service ip : String) (ports : List PortConfig) (pair : List AciPort × List AciPort)
      → convert_all sdk service ports ≡ ok pair
      → All IsUint32 ports
      → to_ports to_lower (some ip) pair.0 ≡ map (published ip) ports
  unfolding convert_all to_ports
  convert_all_lem service ip [] pair good small =
      let nil : ◌≡◌ {A = List AciPort × List AciPort} pair ([], []) = cc good in
      ap (λ x. to_ports to_lower (some ip) x.0) nil
  convert_all_lem service ip (p ∷ ports) pair good (small, smaller) =
      let (first, good_first, more) =
        >>=-eq-ok (convert_port sdk service p)
          (λ first. do
            rest ← convert_all sdk service ports
            ok (first.0 ∷ rest.0, first.1 ∷ rest.1))
          good in
      let (rest, good_rest, same) =
        >>=-eq-ok (convert_all sdk service ports) (λ rest. ok (first.0 ∷ rest.0, first.1 ∷ rest.1))
          more in
      let (port, group_port, named) = convert_port_lem service p first good_first in
      let built : ◌≡◌ {A = List AciPort × List AciPort} pair (first.0 ∷ rest.0, first.1 ∷ rest.1) =
        cc same in
      ap (λ x. to_ports to_lower (some ip) x.0) built
      ∙ to_ports-cons ip p first.0 rest.0 small port named
      ∙ ap (λ r. published ip p ∷ r) (convert_all_lem service ip ports rest good_rest smaller)

  -- A service's ports that are converted for Azure come back from `ToPorts` in their order, each
  -- published under its own number, with its protocol, tcp if it has none. Conditions: the
  -- conversion has no error, the numbers are 32-bit, and the SDK's names for tcp and udp are not
  -- empty and become "tcp" and "udp" in lower case.
  pub to_ports-convert_ports_to_aci :
      (service domain ip : String) (ports : List PortConfig) (cs gs : List AciPort)
      (dns : Option String)
      → convert_ports_to_aci sdk service domain ports ≡ ok (cs, gs, dns)
      → All IsUint32 ports
      → to_ports to_lower (some ip) cs ≡ map (published ip) ports
  unfolding convert_ports_to_aci
  to_ports-convert_ports_to_aci service domain ip ports cs gs dns good small =
      let (pair, converted, same) =
        >>=-eq-ok (convert_all sdk service ports)
          (λ r. ok (r.0, r.1, if domain == "" then none else some domain)) good in
      ap (to_ports to_lower (some ip)) (cc (sym same))
      ∙ convert_all_lem service ip ports pair converted small
