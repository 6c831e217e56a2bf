-- ===== src/VxlanMechanism.antt =====
-- pkg/networkservice/mechanisms/vxlan: the tunnel of a connection with an Ethernet payload. The chains
-- that the constructors build, with the elements of the sdk, are not modelled.
--
-- The typed view of a mechanism's parameters is the API's: the parameter `VxlanApi`; nil addresses are
-- the empty ones.
pub mod Once
pub mod Cycle
pub mod Tests
use sdk_vpp.Prelude.{ℕ, String, Bool, true, false, Option, none, some, [], ◌∷◌, ◌++◌, if◌then◌else◌}
use sdk_vpp.Types.{Ip, is_v6, to_vpp_address}
use sdk_vpp.Vpp.{Vpp, Error, Call, VxlanTunnel, add_node_next, vxlan_add_del_tunnel_v3, max_uint32}
use sdk_vpp.Exec.{M, ◌>>=◌, ◌>>◌, pure, throw, try, wrapping, ignoring, send}
use sdk_vpp.Chain.{
  Mechanism, Connection, Request, Refusal, Next, request_then, to_mechanism, payload_of,
  is_ethernet,
}
use sdk_vpp.Metadata.Ifindex

pub record VxlanApi : Type 0 where
  pub is_mechanism : Mechanism → Bool
  pub src_ip : Mechanism → Ip
  pub dst_ip : Mechanism → Ip
  pub src_port : Mechanism → ℕ
  pub dst_port : Mechanism → ℕ
  pub vni : Mechanism → ℕ
  pub mechanism_type : String

-- ip == nil
abbrev pub is_nil : Ip → Bool
is_nil [] = true
is_nil (b ∷ bs) = false

-- The decapsulated packets go on to ethernet-input.
abbrev pub next_node : Ip → Call
unfolding is_v6
next_node src_ip =
    add_node_next (if is_v6 src_ip then "vxlan6-input" else "vxlan4-input") "ethernet-input"

module _ (api : VxlanApi) where
  -- The server is the other end: its own address is the mechanism's DstIP.
  unfoldable pub tunnel_of : Bool → Bool → Mechanism → ℕ → VxlanTunnel
  unfolding to_vpp_address
  tunnel_of is_add is_client m next_index = record {
    is_add = is_add;
    instance_id = max_uint32;
    src_address = to_vpp_address (if is_client then api.src_ip m else api.dst_ip m);
    dst_address = to_vpp_address (if is_client then api.dst_ip m else api.src_ip m);
    decap_next_index = next_index;
    vni = api.vni m;
    src_port = if is_client then api.src_port m else api.dst_port m;
    dst_port = if is_client then api.src_port m else api.dst_port m;
  }

  module _ {S : Type 0} (v : Vpp) (is_client : Bool) where
    unfoldable pub settle : Bool → ℕ → M S Error (Unit {0})
    unfolding Ifindex.store Ifindex.delete
    settle is_add i = if is_add then Ifindex.store is_client i else Ifindex.delete is_client

    unfoldable pub send_tunnel : Bool → Mechanism → M S Error (Unit {0})
    unfolding tunnel_of settle
    send_tunnel is_add m = do
      next_index ← wrapping "vppapi AddNodeNext returned error" (send v (next_node (api.src_ip m)))
      i ←
          wrapping "vppapi VxlanAddDelTunnelV3 returned error"
            (send v (vxlan_add_del_tunnel_v3 (tunnel_of is_add is_client m next_index)))
      settle is_add i

    unfoldable pub change_tunnel : Bool → Mechanism → M S Error (Unit {0})
    unfolding send_tunnel
    change_tunnel is_add m =
        if is_nil (api.src_ip m)
        then throw (Error.new "no vxlan SrcIP not provided")
        else if is_nil (api.dst_ip m)
        then throw (Error.new "no vxlan DstIP not provided")
        else send_tunnel is_add m

    -- On the interface that is stored
    unfoldable pub add_del_stored : Bool → Mechanism → Option ℕ → M S Error (Unit {0})
    unfolding change_tunnel
    add_del_stored true m (some i) = pure tt
    add_del_stored true m none = change_tunnel true m
    add_del_stored false m (some i) = change_tunnel false m
    add_del_stored false m none = pure tt

    unfoldable pub add_del_mechanism : Bool → Option Mechanism → M S Error (Unit {0})
    unfolding add_del_stored Ifindex.load
    add_del_mechanism is_add none = pure tt
    add_del_mechanism is_add (some m) = do
      stored ← Ifindex.load is_client
      add_del_stored is_add m stored

    unfoldable pub add_del : Bool → Connection → M S Error (Unit {0})
    unfolding add_del_mechanism
    add_del is_add conn = add_del_mechanism is_add (to_mechanism api.is_mechanism conn.mechanism)

  -- The client offers the mechanism to the rest of the chain.
  unfoldable pub offer : Bool → Request → Request
  offer is_client r =
      if is_client
      then record r {
        mechanism_preferences =
            r.mechanism_preferences
            ++ record { type_name = api.mechanism_type; parameters = [] } ∷ [];
      }
      else r

  module _ {S : Type 0} (v : Vpp) (is_client : Bool) (next : Next S) where
    unfoldable pub close : Connection → M S Error (Unit {0})
    unfolding add_del
    close conn =
        if is_ethernet conn.payload
        then (do ignoring (add_del v is_client false conn); next.close conn)
        else next.close conn

    unfoldable pub request : Request → M S Refusal Connection
    unfolding close offer
    request r =
        if is_ethernet (payload_of r.connection)
        then request_then (add_del v is_client true) close next (offer is_client r)
        else next.request r

  module _ {S : Type 0} (v : Vpp) (next : Next S) where
    abbrev pub client_request : Request → M S Refusal Connection
    client_request = request v true next

    abbrev pub client_close : Connection → M S Error (Unit {0})
    client_close = close v true next

    abbrev pub server_request : Request → M S Refusal Connection
    server_request = request v false next

    abbrev pub server_close : Connection → M S Error (Unit {0})
    server_close = close v false next
