-- ===== src/L2xconnect.antt =====
-- pkg/networkservice/xconnect/l2xconnect: the client and the server interface of an Ethernet connection
-- joined by two l2 cross connects of VPP, one for each direction, unless the connection has a VLAN ID.
pub mod Bridged
pub mod Tests
use sdk_vpp.Prelude.{ℕ, Bool, true, false, Option, none, some, if◌then◌else◌}
use sdk_vpp.Vpp.{Vpp, Error, sw_interface_set_l2_xconnect}
use sdk_vpp.Exec.{M, ◌>>=◌, ◌>>◌, pure, try, throw, wrapping, ignoring, send_}
use sdk_vpp.Chain.{Connection, Request, Refusal, Next, refuse, close_after, payload_of, is_ethernet}
use sdk_vpp.Metadata.Ifindex
use sdk_vpp.Metadata.Vlan

module _ {S : Type 0} (v : Vpp) where
  abbrev pub xconnect : ℕ → ℕ → Bool → M S Error (Unit {0})
  xconnect rx tx enable =
      wrapping "vppapi SwInterfaceSetL2Xconnect returned error"
        (send_ v (sw_interface_set_l2_xconnect rx tx enable))

  -- A VLAN ID: the bridge is used instead.
  unfoldable pub both_directions : Bool → ℕ → ℕ → Option ℕ → M S Error (Unit {0})
  both_directions enable client server (some vlan_id) = pure tt
  both_directions enable client server none = do
    xconnect client server enable
    xconnect server client enable

  unfoldable pub add_del_on : Bool → Option ℕ → Option ℕ → M S Error (Unit {0})
  unfolding both_directions Vlan.load
  add_del_on enable none server = pure tt
  add_del_on enable (some client) none = pure tt
  add_del_on enable (some client) (some server) = do
    vlan_id ← Vlan.load true
    both_directions enable client server vlan_id

  unfoldable pub add_del : Bool → M S Error (Unit {0})
  unfolding add_del_on Ifindex.load
  add_del enable = do
    client ← Ifindex.load true
    server ← Ifindex.load false
    add_del_on enable client server

  unfoldable pub close : Next S → Connection → M S Error (Unit {0})
  unfolding add_del
  close next conn =
      if is_ethernet conn.payload
      then (do ignoring (add_del false); next.close conn)
      else next.close conn

  unfoldable pub request : Next S → Request → M S Refusal Connection
  unfolding add_del close
  request next r =
      if is_ethernet (payload_of r.connection)
      then try (next.request r)
          (λ conn. try (add_del true) (λ _. pure conn) (close_after (close next) conn))
          (λ refusal. refuse refusal.error)
      else next.request r

  -- The client does the same with the next client.
  abbrev pub client_request : Next S → Request → M S Refusal Connection
  client_request = request

  abbrev pub client_close : Next S → Connection → M S Error (Unit {0})
  client_close = close
