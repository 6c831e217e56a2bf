-- ===== src/L3xconnect.antt =====
-- pkg/networkservice/xconnect/l3xconnect: the client and the server interface of an IP connection joined
-- by VPP's l3 cross connects, one for each interface and IP version.
pub mod Updates
pub mod Table
pub mod Tests
use sdk_vpp.Prelude.{
  ℕ, Bool, true, false, ◌&&◌, not, Option, none, some, List, [], ◌∷◌, if◌then◌else◌, length, ◌%◌,
}
use sdk_vpp.Types.{
  IpNet, Ip, FibProto, proto_ip4, proto_ip6, to_vpp_address, union_zero, is_v6, AddressUnion,
}
use sdk_vpp.Vpp.{Vpp, Error, L3xcUpdate, FibPath, l3xc_update, l3xc_del}
use sdk_vpp.Exec.{M, ◌>>=◌, ◌>>◌, pure, try, throw, wrapping, ignoring, send_}
use sdk_vpp.Chain.{
  Connection, ConnectionContext, Request, Refusal, Next, refuse, close_after, payload_of, is_ip,
}
use sdk_vpp.Metadata.Ifindex

abbrev pub proto_of : Bool → FibProto
proto_of is_ip6 = if is_ip6 then proto_ip6 else proto_ip4

abbrev pub path_to : ℕ → Bool → AddressUnion → FibPath
path_to to_if_index is_ip6 nh = record {
  sw_if_index = to_if_index;
  proto = proto_of is_ip6;
  nh = nh;
}

-- The loop over the next hops (a nil pointer is `none`), which stops at the first that it takes
unfoldable pub hop_paths : ℕ → Bool → List (Option IpNet) → List FibPath
hop_paths to_if_index is_ip6 [] = []
hop_paths to_if_index is_ip6 (none ∷ hops) = hop_paths to_if_index is_ip6 hops
hop_paths to_if_index is_ip6 (some nh ∷ hops) =
    let rest = hop_paths to_if_index is_ip6 hops in
    if is_ip6 && not (is_v6 nh.ip)
    then rest
    else path_to to_if_index is_ip6 (to_vpp_address nh.ip).un ∷ []

-- `if rv.L3xc.NPaths == 0`: a path without a next hop
unfoldable pub with_default : ℕ → Bool → List FibPath → List FibPath
with_default to_if_index is_ip6 [] = path_to to_if_index is_ip6 union_zero ∷ []
with_default to_if_index is_ip6 (p ∷ ps) = p ∷ ps

unfoldable pub l3xc_update_of : ℕ → ℕ → List (Option IpNet) → Bool → L3xcUpdate
unfolding hop_paths with_default
l3xc_update_of from_sw_if_index to_if_index next_hops is_ip6 =
    let paths = with_default to_if_index is_ip6 (hop_paths to_if_index is_ip6 next_hops) in
    record {
      sw_if_index = from_sw_if_index;
      is_ip6 = is_ip6;
      n_paths = length paths % 256;
      paths = paths;
    }

unfoldable pub l3xc_updates : ℕ → ℕ → List (Option IpNet) → List (Option IpNet) → List L3xcUpdate
unfolding l3xc_update_of
l3xc_updates client server client_next_hops server_next_hops =
    l3xc_update_of client server client_next_hops false
    ∷ l3xc_update_of client server client_next_hops true
    ∷ l3xc_update_of server client server_next_hops false
    ∷ l3xc_update_of server client server_next_hops true
    ∷ []

abbrev pub src_nets : Option ConnectionContext → List (Option IpNet)
src_nets none = []
src_nets (some c) = c.src_ip_nets

abbrev pub dst_nets : Option ConnectionContext → List (Option IpNet)
dst_nets none = []
dst_nets (some c) = c.dst_ip_nets

module _ {S : Type 0} (v : Vpp) where
  unfoldable pub send_updates : List L3xcUpdate → M S Error (Unit {0})
  send_updates [] = pure tt
  send_updates (update ∷ updates) = do
    wrapping "vppapi L3xcUpdate returned error" (send_ v (l3xc_update update))
    send_updates updates

  -- create and del do nothing until both interfaces are known.
  unfoldable pub create_on : Connection → Option ℕ → Option ℕ → M S Error (Unit {0})
  unfolding send_updates l3xc_updates
  create_on conn none server = pure tt
  create_on conn (some client) none = pure tt
  create_on conn (some client) (some server) =
      send_updates (l3xc_updates client server (src_nets conn.context) (dst_nets conn.context))

  unfoldable pub create : Connection → M S Error (Unit {0})
  unfolding create_on Ifindex.load
  create conn = do
    client ← Ifindex.load true
    server ← Ifindex.load false
    create_on conn client server

  abbrev pub del_one : ℕ → Bool → M S Error (Unit {0})
  del_one if_index is_ip6 =
      wrapping "vppapi L3xcDel returned error" (send_ v (l3xc_del if_index is_ip6))

  unfoldable pub del_on : Option ℕ → Option ℕ → M S Error (Unit {0})
  del_on none server = pure tt
  del_on (some client) none = pure tt
  del_on (some client) (some server) = do
    del_one client true
    del_one client false
    del_one server true
    del_one server false

  unfoldable pub del : M S Error (Unit {0})
  unfolding del_on Ifindex.load
  del = do client ← Ifindex.load true; server ← Ifindex.load false; del_on client server

  unfoldable pub close : Next S → Connection → M S Error (Unit {0})
  unfolding del
  close next conn =
      if is_ip conn.payload then (do ignoring del; next.close conn) else next.close conn

  unfoldable pub request : Next S → Request → M S Refusal Connection
  unfolding create close
  request next r =
      if is_ip (payload_of r.connection)
      then try (next.request r)
          (λ conn. try (create conn) (λ _. pure conn) (close_after (close next) conn))
          (λ refusal. refuse refusal.error)
      else next.request r

  -- The client does the same with the next client.
  abbrev pub client_request : Next S → Request → M S Refusal Connection
  client_request = request

  abbrev pub client_close : Next S → Connection → M S Error (Unit {0})
  client_close = close
