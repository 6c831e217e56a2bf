-- ===== src/WireguardMechanism/Peer.antt =====
-- pkg/networkservice/mechanisms/wireguard/peer: the other end as a peer of the wireguard interface.
use Prim.Native.String.{◌++◌ as ◌+++◌}
use sdk_vpp.Prelude.{
  ℕ, String, ◌⊎◌, inl, inr, Bool, true, false, Option, none, some, List, [], ◌∷◌, if◌then◌else◌,
}
use sdk_vpp.Types.{Prefix, address_ip4, address_ip6, union_zero, to_vpp_address}
use sdk_vpp.Vpp.{Vpp, Error, WireguardPeer, wireguard_peer_add, wireguard_peer_remove}
use sdk_vpp.Exec.{M, ◌>>=◌, ◌>>◌, pure, throw, wrapping, ignoring, send, send_}
use sdk_vpp.Chain.{Mechanism, Connection, Request, Refusal, Next, request_then, to_mechanism}
use sdk_vpp.Metadata.Ifindex
use sdk_vpp.Metadata.Peer
use sdk_vpp.WireguardMechanism.{WireguardApi}

-- 0.0.0.0/0 and ::/0
abbrev pub allowed_ips : List Prefix
allowed_ips =
    record { address = record { af = address_ip4; un = union_zero }; len = 0 }
    ∷ record { address = record { af = address_ip6; un = union_zero }; len = 0 }
    ∷ []

module _ (api : WireguardApi) where
  unfoldable pub get_key : Mechanism → Bool → String
  get_key m is_client = if is_client then api.dst_public_key m else api.src_public_key m

  unfoldable pub peer_of : Bool → ℕ → List ℕ → Mechanism → WireguardPeer
  unfolding to_vpp_address
  peer_of is_client i public_key m = record {
    sw_if_index = i;
    public_key = public_key;
    persistent_keepalive = 10;
    n_allowed_ips = 2;
    allowed_ips = allowed_ips;
    port = if is_client then api.dst_port m else api.src_port m;
    endpoint = to_vpp_address (if is_client then api.dst_ip m else api.src_ip m);
  }

  module _ {S : Type 0} (v : Vpp) (is_client : Bool) where
    -- On the parsed key
    unfoldable pub add_peer : Mechanism → ℕ → Error ⊎ List ℕ → M S Error (Unit {0})
    unfolding get_key peer_of Peer.store
    add_peer m i (inl e) = throw (Error.wrap ("failed to parse Key " +++ get_key m is_client) e)
    add_peer m i (inr public_key) = do
      peer_index ←
          wrapping "vppapi WireguardPeerAdd returned error"
            (send v (wireguard_peer_add (peer_of is_client i public_key m)))
      Peer.store is_client (get_key m is_client) peer_index

    -- On the interface
    unfoldable pub create_on : Mechanism → Option ℕ → M S Error (Unit {0})
    unfolding add_peer
    create_on m none = pure tt
    create_on m (some i) = add_peer m i (api.parse_key (get_key m is_client))

    -- On the peer that is stored for the key
    unfoldable pub create_unless_stored : Mechanism → Option ℕ → M S Error (Unit {0})
    unfolding create_on Ifindex.load
    create_unless_stored m (some peer_index) = pure tt
    create_unless_stored m none = do i ← Ifindex.load is_client; create_on m i

    unfoldable pub create_with : Option Mechanism → M S Error (Unit {0})
    unfolding create_unless_stored Peer.load get_key
    create_with none = pure tt
    create_with (some m) = do
      stored ← Peer.load is_client (get_key m is_client)
      create_unless_stored m stored

    abbrev pub create_peer : Connection → M S Error (Unit {0})
    create_peer conn = create_with (to_mechanism api.is_mechanism conn.mechanism)

    unfoldable pub del_stored : Option ℕ → M S Error (Unit {0})
    del_stored none = pure tt
    del_stored (some peer_index) =
        wrapping "vppapi WireguardPeerRemove returned error"
          (send_ v (wireguard_peer_remove peer_index))

    unfoldable pub del_with : Option Mechanism → M S Error (Unit {0})
    unfolding del_stored Peer.load_and_delete get_key
    del_with none = pure tt
    del_with (some m) = do
      stored ← Peer.load_and_delete is_client (get_key m is_client)
      del_stored stored

    abbrev pub del_peer : Connection → M S Error (Unit {0})
    del_peer conn = del_with (to_mechanism api.is_mechanism conn.mechanism)

  module _ {S : Type 0} (v : Vpp) (is_client : Bool) (next : Next S) where
    unfoldable pub close : Connection → M S Error (Unit {0})
    unfolding del_with
    close conn = do ignoring (del_peer v is_client conn); next.close conn

    unfoldable pub request : Request → M S Refusal Connection
    unfolding create_with close
    request = request_then (create_peer v is_client) close next

  module _ {S : Type 0} (v : Vpp) (next : Next S) where
    abbrev pub client_request : Request → M S Refusal Connection
    client_request = request v true next

    abbrev pub client_close : Connection → M S Error (Unit {0})
    client_close = close v true next

    abbrev pub server_request : Request → M S Refusal Connection
    server_request = request v false next

    abbrev pub server_close : Connection → M S Error (Unit {0})
    server_close = close v false next
