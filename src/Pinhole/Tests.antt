-- ===== src/Pinhole/Tests.antt =====
-- Instances of the theorems on pinholes, and runs.
use sdk_vpp.Prelude.{
  ℕ, ◌≡◌, refl, Bool, true, false, ◌&&◌, some, List, [], ◌∷◌, ◌++◌, arith, ◌==◌, length,
  if◌then◌else◌,
}
use sdk_vpp.Prelude.Keys.{string_eq}
use sdk_vpp.Prelude.Assoc.{lookup, insert, erase}
use sdk_vpp.Types.{
  Prefix, to_vpp_prefix, mask, is_v6, to4, ip_equal, bytes_eq, vpp_address,
  from_vpp_address_with_prefix,
}
use sdk_vpp.Vpp.{Vpp, AclDetails, SwInterfaceDetails}
use sdk_vpp.Exec.{State, ok, pure}
use sdk_vpp.Chain.{Connection, Payload, Next}
use sdk_vpp.Samples.{willing, fresh, conn, asking, unions, ten}
use sdk_vpp.Acl.Mirror.{Packet, decide}
use sdk_vpp.Pinhole.{
  create_acl_add_replace, open_on, create, tunnel_ip_sw_if_index, interfaces_acl_details, proto_udp,
}
use sdk_vpp.Pinhole.Element.{Library, IpPortMap, request, from_mechanism}
use sdk_vpp.Pinhole.Rules.{tunnel_prefix, permit_if, create_acl_add_replace-permits}
use sdk_vpp.Pinhole.Lists.{held_lists, numbers, lacks_tag, open_on-opens}
use sdk_vpp.Pinhole.Once.{request_again}

abbrev everywhere : Prefix → ℕ → Bool
everywhere p a = true

abbrev datagram : Packet ℕ
datagram = record { proto = 17; src = 1; dst = 2; src_port = 5000; dst_port = 4789 }

create_acl_add_replace-permits_example :
    (decide everywhere (create_acl_add_replace ten 4789 "t" false).r datagram
      ≡ permit_if (
          (datagram.proto == proto_udp)
          && (everywhere (tunnel_prefix ten) 2 && (datagram.dst_port == 4789))))
    × (decide everywhere (create_acl_add_replace ten 4789 "t" true).r datagram
        ≡ permit_if (
            (datagram.proto == proto_udp)
            && (everywhere (tunnel_prefix ten) 1 && (datagram.dst_port == 4789))))
create_acl_add_replace-permits_example =
    create_acl_add_replace-permits everywhere ten 4789 "t" datagram refl refl (omega arith)

-- One list for the ingress, none for the egress
abbrev listed : List AclDetails
listed = record { acl_index = 3; tag = "other" } ∷ []

needed : lacks_tag "t" listed ≡ true
unfolding lacks_tag
needed = refl

start : State (Unit {0})
start = fresh tt

open_on-opens_example :
    let a = lacks_tag "t" listed in
    let b = lacks_tag "t" [] in
    let t = (open_on willing ten 4789 "t" 2 (listed, []) start).1 in
    ((open_on willing ten 4789 "t" 2 (listed, []) start).0 ≡ ok tt)
    × ((first : ℕ × List ℕ)
        → held_lists start.calls 2 first ≡ (1, numbers listed ++ numbers [])
        → held_lists t.calls 2 first ≡ (
          length (if a then 7 ∷ numbers listed else numbers listed),
          (if a then 7 ∷ numbers listed else numbers listed)
              ++ (if b then 7 ∷ numbers [] else numbers []),
        ))
    × (a ≡ false → b ≡ false → t.calls ≡ start.calls)
open_on-opens_example =
    open_on-opens willing ten 4789 "t" 2 listed [] start (λ h c. refl) (omega arith)

-- A library that knows one address and one port
abbrev texts : Library
texts = record {
  parse_ip = λ s. ten;
  parse_uint = λ s. some 4789;
  decimal = λ n. "4789";
  src_ip = "src_ip";
  src_port = "src_port";
  dst_ip = "dst_ip";
  dst_port = "dst_port";
}

abbrev tunnelled : Connection
tunnelled = record (conn Payload.ip) {
  mechanism = some (record {
    type_name = "VXLAN";
    parameters = ("dst_ip", "10.0.0.1") ∷ ("dst_port", "4789") ∷ [];
  });
}

abbrev returning : Next IpPortMap
returning = record { request = λ r. pure tunnelled; close = λ c. pure tt }

abbrev eth0 : SwInterfaceDetails
eth0 = record {
  sw_if_index = 2;
  interface_name = "eth0";
  is_link_up = true;
  is_sub = false;
  sub_id = 0;
  mtu = [];
}

abbrev wire : Vpp
wire = record willing {
  interfaces = λ h c. eth0 ∷ [];
  addresses = λ h c. to_vpp_prefix (some (record { ip = ten; net_mask = mask 24 32 })) ∷ [];
  acls = λ h c. listed;
  interface_acls = λ h c. record { n_input = 1; acls = 3 ∷ [] } ∷ [];
}

served : State IpPortMap
served = (request wire unions texts returning false (asking Payload.ip) (fresh [])).1

served_ok :
    request wire unions texts returning false (asking Payload.ip) (fresh [])
    ≡ (ok tunnelled, served)
unfolding served request create tunnel_ip_sw_if_index interfaces_acl_details open_on from_mechanism
    lookup insert erase ip_equal bytes_eq is_v6 to4 vpp_address from_vpp_address_with_prefix
    to_vpp_prefix
served_ok = refl

request_again_example :
    request wire unions texts returning false (asking Payload.ip) served ≡ (ok tunnelled, served)
request_again_example =
    request_again wire unions texts returning false (asking Payload.ip) tunnelled tunnelled
      (fresh []) served (λ u. refl) served_ok
