-- ===== src/Pinhole.antt =====
-- pkg/networkservice/pinhole/common.go: a permit rule for a port of the tunnel's address, put before the
-- access lists of the interface that has the address, if there are any.
pub mod Element
pub mod Lists
pub mod Quiet
pub mod Once
pub mod Rules
pub mod Tests
use sdk_vpp.Prelude.{
  ℕ, ◌+◌, ◌%◌, String, Bool, true, false, ◌||◌, not, Option, none, some, List, [], ◌∷◌, ◌++◌, map,
  length, take, drop, replicate, ltb, ◌==◌, if◌then◌else◌,
}
use sdk_vpp.Prelude.Keys.{string_eq, ◌=?◌}
use sdk_vpp.Types.{
  Ip, IpNet, Prefix, UnionApi, cidr_mask, is_v6, ip_equal, to_vpp_prefix,
  from_vpp_address_with_prefix,
}
use sdk_vpp.Vpp.{
  Vpp, Error, Call, Action, AclRule, AclAddReplace, AclDetails, AclInterfaceListDetails,
  SwInterfaceDetails, max_uint32, sw_interface_dump, ip_address_dump, acl_add_replace, acl_dump,
  acl_interface_list_dump, acl_interface_set_acl_list,
}
use sdk_vpp.Exec.{M, ◌>>=◌, ◌>>◌, pure, throw, crash, wrapping, send, send_, dump}

abbrev pub Stream : Type 0 → Type 0
Stream A = List A × Option Error

-- io.EOF at the end of a stream without an error
abbrev pub end_error : Option Error → Error
end_error none = Error.new "EOF"
end_error (some e) = e

-- client.Recv() on a new stream
unfoldable pub recv : {S A : Type 0} → Stream A → M S Error A
recv ([], end) = throw (end_error end)
recv (a ∷ rest, end) = pure a

-- net.IPv4zero (in sixteen bytes) and net.IPv6zero
abbrev pub ipv4_zero : Ip
ipv4_zero = replicate 10 0 ++ 255 ∷ 255 ∷ 0 ∷ 0 ∷ 0 ∷ 0 ∷ []

abbrev pub ipv6_zero : Ip
ipv6_zero = replicate 16 0

unfoldable pub default_net : Bool → IpNet
unfolding cidr_mask
default_net v6 =
    if v6
    then record { ip = ipv6_zero; net_mask = cidr_mask 0 128 }
    else record { ip = ipv4_zero; net_mask = cidr_mask 0 32 }

unfoldable pub tunnel_net : Bool → Ip → IpNet
unfolding cidr_mask
tunnel_net v6 ip =
    if v6
    then record { ip = ip; net_mask = cidr_mask 128 128 }
    else record { ip = ip; net_mask = cidr_mask 32 32 }

-- IP_API_PROTO_UDP
abbrev pub proto_udp : ℕ
proto_udp = 17

unfoldable pub create_acl_add_replace : Ip → ℕ → String → Bool → AclAddReplace
unfolding default_net tunnel_net
create_acl_add_replace tunnel_ip port tag egress =
    let tunnel = to_vpp_prefix (some (tunnel_net (is_v6 tunnel_ip) tunnel_ip)) in
    let default = to_vpp_prefix (some (default_net (is_v6 tunnel_ip))) in
    record {
      acl_index = max_uint32;
      tag = tag;
      count = 1;
      r =
          record {
            is_permit = Action.permit;
            proto = proto_udp;
            src_prefix = if egress then tunnel else default;
            dst_prefix = if egress then default else tunnel;
            srcport_or_icmptype_first = 0;
            srcport_or_icmptype_last = 65535;
            dstport_or_icmpcode_first = port;
            dstport_or_icmpcode_last = port;
          }
          ∷ [];
    }

-- Whether an access list has the tag
unfoldable pub has_tag : String → List AclDetails → Bool
has_tag tag [] = false
has_tag tag (d ∷ ds) = let rest = has_tag tag ds in (d.tag =? tag) || rest

unfoldable pub indices_of : List AclDetails → List ℕ
indices_of ds = map (λ d. d.acl_index) ds

-- `foundACL == nil && len(aclDetails) > 0`
unfoldable pub is_needed : String → List AclDetails → Bool
unfolding has_tag
is_needed tag [] = false
is_needed tag (d ∷ ds) = not (has_tag tag (d ∷ ds))

-- An error of Recv ends the loops over interfaces and addresses as io.EOF does.
unfoldable pub has_address : UnionApi → Ip → List Prefix → Bool
has_address api ip [] = false
has_address api ip (p ∷ ps) =
    let rest = has_address api ip ps in ip_equal (from_vpp_address_with_prefix api p).ip ip || rest

module _ {S : Type 0} (v : Vpp) where
  unfoldable pub add_if : Bool → Ip → ℕ → String → Bool → List ℕ → M S Error (List ℕ)
  unfolding create_acl_add_replace
  add_if false tunnel_ip port tag egress indices = pure indices
  add_if true tunnel_ip port tag egress indices = do
    acl_index ←
        wrapping "vppapi ACLAddReplace returned error"
          (send v (acl_add_replace (create_acl_add_replace tunnel_ip port tag egress)))
    pure (acl_index ∷ indices)

  unfoldable pub add_to_acl_list_if_needed :
      Ip → ℕ → String → Bool → List AclDetails → M S Error (List ℕ)
  unfolding add_if is_needed indices_of
  add_to_acl_list_if_needed tunnel_ip port tag egress ds =
      add_if (is_needed tag ds) tunnel_ip port tag egress (indices_of ds)

  -- One round of the loop
  unfoldable pub acl_detail : ℕ → M S Error AclDetails
  unfolding recv
  acl_detail i = do
    stream ←
        wrapping "vppapi ACLDump returned error"
          (dump v (λ h c. (v.acls h c, v.stream_error h c)) (acl_dump i))
    wrapping "error retrieving aclDetails" (recv stream)

  unfoldable pub acl_details : List ℕ → M S Error (List AclDetails)
  unfolding acl_detail
  acl_details [] = pure []
  acl_details (i ∷ indices) = do d ← acl_detail i; ds ← acl_details indices; pure (d ∷ ds)

  -- Acls[:NInput] panics beyond the slice.
  unfoldable pub split_acls : AclInterfaceListDetails → M S Error (List ℕ × List ℕ)
  split_acls d =
      if ltb (length d.acls) d.n_input
      then crash
      else pure (take d.n_input d.acls, drop d.n_input d.acls)

  unfoldable pub interface_acl_indices : ℕ → M S Error (List ℕ × List ℕ)
  unfolding recv split_acls
  interface_acl_indices sw_if_index = do
    stream ← wrapping "vppapi ACLInterfaceListDump returned error" (
        dump v (λ h c. (v.interface_acls h c, v.stream_error h c))
          (acl_interface_list_dump sw_if_index))
    d ← wrapping "error retrieving aclInterfaceListDetails" (recv stream)
    split_acls d

  unfoldable pub interfaces_acl_details : ℕ → M S Error (List AclDetails × List AclDetails)
  unfolding interface_acl_indices acl_details
  interfaces_acl_details sw_if_index = do
    indices ← interface_acl_indices sw_if_index
    ingress ← acl_details indices.0
    egress ← acl_details indices.1
    pure (ingress, egress)

  abbrev pub addresses_of : Ip → SwInterfaceDetails → M S Error (List Prefix)
  addresses_of ip d =
      wrapping "vppapi IPAddressDump returned error"
        (dump v v.addresses (ip_address_dump d.sw_if_index (is_v6 ip)))

  unfoldable pub find_interface : UnionApi → Ip → List SwInterfaceDetails → M S Error ℕ
  unfolding has_address
  find_interface api ip [] = throw (Error.new "unable to find tunnelIP on any vpp interface")
  find_interface api ip (d ∷ ds) =
      let rest = find_interface api ip ds in
      addresses_of ip d >>= λ addresses.
      if has_address api ip addresses then pure d.sw_if_index else rest

  unfoldable pub tunnel_ip_sw_if_index : UnionApi → Ip → M S Error ℕ
  unfolding find_interface
  tunnel_ip_sw_if_index api ip = do
    ds ← wrapping "vppapi SwInterfaceDump returned error" (dump v v.interfaces sw_interface_dump)
    find_interface api ip ds

  -- The list of the interface is set only if it has grown.
  unfoldable pub set_if_grown : ℕ → ℕ → List ℕ → List ℕ → M S Error (Unit {0})
  set_if_grown sw_if_index before ingress egress =
      if length (ingress ++ egress) % 256 == before % 256
      then pure tt
      else wrapping "vppapi ACLInterfaceSetACLList returned error" (
          send_ v (
            acl_interface_set_acl_list (record {
              sw_if_index = sw_if_index;
              count = length (ingress ++ egress) % 256;
              n_input = length ingress % 256;
              acls = ingress ++ egress;
            })))

  -- Both directions, on what the interface has
  unfoldable pub open_on :
      Ip → ℕ → String → ℕ → List AclDetails × List AclDetails → M S Error (Unit {0})
  unfolding add_to_acl_list_if_needed set_if_grown
  open_on tunnel_ip port tag sw_if_index (ingress, egress) = do
    ingress' ← add_to_acl_list_if_needed tunnel_ip port tag false ingress
    egress' ← add_to_acl_list_if_needed tunnel_ip port tag true egress
    set_if_grown sw_if_index (length ingress + length egress) ingress' egress'

  -- A nil address is the empty one.
  unfoldable pub create : UnionApi → Ip → ℕ → String → M S Error (Unit {0})
  unfolding open_on interfaces_acl_details tunnel_ip_sw_if_index
  create api tunnel_ip port tag = if (length tunnel_ip == 0) || (port == 0) then pure tt else (do
    sw_if_index ← tunnel_ip_sw_if_index api tunnel_ip
    acls ← interfaces_acl_details sw_if_index
    open_on tunnel_ip port tag sw_if_index acls)
