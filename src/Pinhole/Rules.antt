-- ===== src/Pinhole/Rules.antt =====
-- Which packets the rule of a pinhole permits.
use sdk_vpp.Prelude.{
  ℕ, ◌≡◌, refl, ◌≤◌, String, Bool, true, false, ◌&&◌, Option, none, some, ◌==◌, if◌then◌else◌,
  arith, replicate,
}
use sdk_vpp.Types.{
  Ip, Prefix, to_vpp_prefix, to_vpp_address, vpp_address, to4, is_v6, address_ip4, address_ip6,
  union_ip4, union_ip6,
}
use sdk_vpp.Vpp.{Action}
use sdk_vpp.Acl.Mirror.{Packet, decide}
use sdk_vpp.Pinhole.{create_acl_add_replace, default_net, tunnel_net, proto_udp}

-- The prefix that holds the tunnel's address only: all its bits
abbrev pub tunnel_prefix : Ip → Prefix
tunnel_prefix ip = record { address = to_vpp_address ip; len = if is_v6 ip then 128 else 32 }

-- 0.0.0.0/0 or ::/0, by the family of the tunnel's address
abbrev pub every_prefix : Ip → Prefix
every_prefix ip =
    if is_v6 ip
    then record { address = record { af = address_ip6; un = union_ip6 (replicate 16 0) }; len = 0 }
    else record { address = record { af = address_ip4; un = union_ip4 (replicate 4 0) }; len = 0 }

tunnel_net_lem :
    (v6 : Bool) (ip : Ip)
    → to_vpp_prefix (some (tunnel_net v6 ip))
      ≡ record { address = to_vpp_address ip; len = if v6 then 128 else 32 }
unfolding tunnel_net to_vpp_prefix
tunnel_net_lem true ip = refl
tunnel_net_lem false ip = refl

default_net_lem :
    (v6 : Bool)
    → to_vpp_prefix (some (default_net v6)) ≡ (
        if v6
        then record {
          address = record { af = address_ip6; un = union_ip6 (replicate 16 0) };
          len = 0;
        }
        else record {
          address = record { af = address_ip4; un = union_ip4 (replicate 4 0) };
          len = 0;
        })
unfolding default_net to_vpp_prefix to_vpp_address to4 vpp_address
default_net_lem true = refl
default_net_lem false = refl

abbrev pub permit_if : Bool → Option Action
permit_if b = if b then some Action.permit else none

-- For packets whose addresses are of the tunnel's family, so that the prefix of length 0 holds them,
-- and whose ports fit 16 bits: the ingress list permits exactly the UDP packets to the tunnel's
-- address and the port, the egress list exactly those from the tunnel's address to the port, and both
-- decide nothing on any other packet.
pub create_acl_add_replace-permits :
    {A : Type 0} (inside : Prefix → A → Bool) (ip : Ip) (port : ℕ) (tag : String) (p : Packet A)
    → inside (every_prefix ip) p.src ≡ true
    → inside (every_prefix ip) p.dst ≡ true
    → p.src_port ≤ 65535
    → (decide inside (create_acl_add_replace ip port tag false).r p
        ≡ permit_if
            ((p.proto == proto_udp) && (inside (tunnel_prefix ip) p.dst && (p.dst_port == port))))
      × (decide inside (create_acl_add_replace ip port tag true).r p
          ≡ permit_if
              ((p.proto == proto_udp) && (inside (tunnel_prefix ip) p.src && (p.dst_port == port))))
unfolding create_acl_add_replace decide
create_acl_add_replace-permits inside ip port tag p src dst fits =
    rw (tunnel_net_lem (is_v6 ip) ip) (rw (default_net_lem (is_v6 ip)) (ground arith, ground arith))
