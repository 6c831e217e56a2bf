-- ===== src/BridgeDomain.antt =====
-- pkg/networkservice/xconnect/l2bridgedomain: bridge domains that join the interfaces of the servers
-- to a client interface, one for each vlan ID and client interface.
--
-- The map holds pointers: a change of a bridge domain is seen in the map at once, also when the
-- function then returns an error without storing it again.
pub mod Laws
pub mod Lifecycle
pub mod Leak
pub mod Tests
use sdk_vpp.Prelude.{
  ℕ, String, Bool, true, false, ◌&&◌, not, Option, none, some, ◌==◌, if◌then◌else◌, length, [], ◌≡◌,
  ◌↔◌, arith,
}
use sdk_vpp.Prelude.Keys.{Eq, nat_eq}
use sdk_vpp.Prelude.Assoc.{Map, lookup, insert, erase}
use sdk_vpp.Vpp.{
  Vpp, Error, bridge_domain_add_del, sw_interface_set_l2_bridge, delete_subif, max_uint32,
}
use sdk_vpp.Exec.{
  M, ◌>>=◌, ◌>>◌, pure, throw, try, wrapping, ignoring, get_own, set_own, send, send_,
}
use sdk_vpp.Exec
use sdk_vpp.Chain.{Connection, Request, Refusal, Next, refuse, close_after, is_ethernet, payload_of}
use sdk_vpp.Metadata.Ifindex
use sdk_vpp.Metadata.Vlan

pub record BridgeDomain : Type 0 where
  pub id : ℕ
  pub attached : Map ℕ (Unit {0})

pub record BridgeDomainKey : Type 0 where
  pub vlan_id : ℕ
  pub client_if_index : ℕ

abbrev pub key_beq : BridgeDomainKey → BridgeDomainKey → Bool
key_beq a b = (a.vlan_id == b.vlan_id) && (a.client_if_index == b.client_if_index)

pub key_beq_iff : (a b : BridgeDomainKey) → (key_beq a b ≡ true) ↔ (a ≡ b)
key_beq_iff a b = ground arith

instance abbrev pub key_eq : Eq BridgeDomainKey
key_eq = record { beq = key_beq; beq_iff = key_beq_iff }

abbrev pub make_key : ℕ → ℕ → BridgeDomainKey
make_key vlan_id client_if_index = record { vlan_id = vlan_id; client_if_index = client_if_index }

abbrev pub Bridges : Type 0
Bridges = Map BridgeDomainKey BridgeDomain

unfoldable pub add_del_vpp_bridge_domain : Vpp → ℕ → Bool → M Bridges Error ℕ
add_del_vpp_bridge_domain v bridge_id is_add =
    wrapping "vppapi BridgeDomainAddDelV2 returned error" (
      send v (
        bridge_domain_add_del (record {
          is_add = is_add;
          bd_id = bridge_id;
          flood = true;
          forward = true;
          learn = true;
          uu_flood = true;
        })))

unfoldable pub add_del_vpp_interface_bridge_domain :
    Vpp → ℕ → ℕ → ℕ → Bool → M Bridges Error (Unit {0})
add_del_vpp_interface_bridge_domain v sw_if_index bridge_id shg is_add =
    wrapping "vppapi SwInterfaceSetL2Bridge returned error" (
      send_ v (
        sw_interface_set_l2_bridge
          (record { rx_sw_if_index = sw_if_index; bd_id = bridge_id; shg = shg; enable = is_add })))

unfoldable pub del_vpp_sub_if : Vpp → ℕ → ℕ → M Bridges Error (Unit {0})
unfolding Ifindex.delete
del_vpp_sub_if v vlan_id sw_if_index =
    if vlan_id == 0
    then Ifindex.delete true
    else wrapping "vppapi DeleteSubif returned error" (send_ v (delete_subif sw_if_index))

-- bridges.Store(key, l2Bridge), and every change of the bridge domain that `key` points to
unfoldable pub store_bridge : BridgeDomainKey → BridgeDomain → M Bridges Error (Unit {0})
store_bridge key bridge = do bridges ← get_own; set_own (insert key bridge bridges)

unfoldable pub find_bridge :
    Vpp → BridgeDomainKey → Option BridgeDomain → M Bridges Error BridgeDomain
unfolding add_del_vpp_bridge_domain store_bridge
find_bridge v key (some bridge) = pure bridge
find_bridge v key none = do
  bridge_id ← add_del_vpp_bridge_domain v max_uint32 true
  store_bridge key (record { id = bridge_id; attached = [] })
  pure (record { id = bridge_id; attached = [] })

-- `if _, ok = l2Bridge.attached[swIfIndex]; !ok { … }`
unfoldable pub attach :
    Vpp → BridgeDomainKey → ℕ → ℕ → BridgeDomain → Option (Unit {0}) → M Bridges Error BridgeDomain
unfolding add_del_vpp_interface_bridge_domain store_bridge
attach v key sw_if_index shg bridge (some attached) = pure bridge
attach v key sw_if_index shg bridge none = do
  add_del_vpp_interface_bridge_domain v sw_if_index bridge.id shg true
  store_bridge key (record bridge { attached = insert sw_if_index tt bridge.attached })
  pure (record bridge { attached = insert sw_if_index tt bridge.attached })

-- With both interfaces known
unfoldable pub add_bridge : Vpp → ℕ → ℕ → ℕ → M Bridges Error (Unit {0})
unfolding find_bridge attach
add_bridge v vlan_id client_if_index server_if_index = do
  let key = make_key vlan_id client_if_index
  bridges ← get_own
  bridge ← find_bridge v key (lookup key bridges)
  bridge' ← attach v key server_if_index 1 bridge (lookup server_if_index bridge.attached)
  bridge'' ← attach v key client_if_index 0 bridge' (lookup client_if_index bridge'.attached)
  pure tt

-- Without one of the interfaces there is nothing to do.
abbrev pub both :
    Option ℕ → Option ℕ → (ℕ → ℕ → M Bridges Error (Unit {0})) → M Bridges Error (Unit {0})
both none server f = pure tt
both (some client) none f = pure tt
both (some client) (some server) f = f client server

unfoldable pub add_bridge_domain : Vpp → ℕ → M Bridges Error (Unit {0})
unfolding add_bridge Ifindex.load
add_bridge_domain v vlan_id = do
  client ← Ifindex.load true
  server ← Ifindex.load false
  both client server (add_bridge v vlan_id)

-- `if _, ok = l2Bridge.attached[serverIfIndex]; ok { … }`
unfoldable pub detach :
    Vpp → BridgeDomainKey → ℕ → BridgeDomain → Option (Unit {0}) → M Bridges Error BridgeDomain
unfolding add_del_vpp_interface_bridge_domain store_bridge
detach v key sw_if_index bridge none = pure bridge
detach v key sw_if_index bridge (some attached) = do
  add_del_vpp_interface_bridge_domain v sw_if_index bridge.id 0 false
  store_bridge key (record bridge { attached = erase sw_if_index bridge.attached })
  pure (record bridge { attached = erase sw_if_index bridge.attached })

-- The server's interface leaves the bridge domain, if it is known and there.
unfoldable pub detach_server :
    Vpp → BridgeDomainKey → BridgeDomain → Option ℕ → M Bridges Error BridgeDomain
unfolding detach
detach_server v key bridge none = pure bridge
detach_server v key bridge (some server_if_index) =
    detach v key server_if_index bridge (lookup server_if_index bridge.attached)

-- The last interface: the bridge domain and the sub-interface go too, if it is the client's.
unfoldable pub remove_bridge :
    Vpp → BridgeDomainKey → BridgeDomain → Option (Unit {0}) → M Bridges Error (Unit {0})
unfolding add_del_vpp_interface_bridge_domain add_del_vpp_bridge_domain del_vpp_sub_if store_bridge
remove_bridge v key bridge none = pure tt
remove_bridge v key bridge (some attached) = do
  add_del_vpp_interface_bridge_domain v key.client_if_index bridge.id 0 false
  del_vpp_sub_if v key.vlan_id key.client_if_index
  store_bridge key (record bridge { attached = erase key.client_if_index bridge.attached })
  reply ← add_del_vpp_bridge_domain v bridge.id false
  bridges ← get_own
  set_own (erase key bridges)

unfoldable pub finish_del : Vpp → BridgeDomainKey → BridgeDomain → Bool → M Bridges Error (Unit {0})
unfolding remove_bridge store_bridge
finish_del v key bridge true =
    remove_bridge v key bridge (lookup key.client_if_index bridge.attached)
finish_del v key bridge false = store_bridge key bridge

unfoldable pub del_bridge :
    Vpp → BridgeDomainKey → Option ℕ → Option BridgeDomain → M Bridges Error (Unit {0})
unfolding detach_server finish_del
del_bridge v key server none = pure tt
del_bridge v key server (some bridge) = do
  bridge' ← detach_server v key bridge server
  finish_del v key bridge' (length bridge'.attached == 1)

unfoldable pub del_bridge_domain : Vpp → ℕ → M Bridges Error (Unit {0})
unfolding del_bridge Ifindex.load
del_bridge_domain v vlan_id = do
  client ← Ifindex.load true
  server ← Ifindex.load false
  elim client [
    | none ↦ pure tt
    | some client_if_index ↦ do
      bridges ← get_own
      del_bridge v (make_key vlan_id client_if_index) server
          (lookup (make_key vlan_id client_if_index) bridges)
  ]

-- Close of the server; an error of delBridgeDomain is only logged.
unfoldable pub close_with : Vpp → Next Bridges → Connection → Option ℕ → M Bridges Error (Unit {0})
unfolding del_bridge_domain
close_with v next conn none = next.close conn
close_with v next conn (some vlan_id) =
    if is_ethernet conn.payload
    then (do ignoring (del_bridge_domain v vlan_id); next.close conn)
    else next.close conn

unfoldable pub close : Vpp → Next Bridges → Connection → M Bridges Error (Unit {0})
unfolding close_with Vlan.load
close v next conn = do vlan_id ← Vlan.load true; close_with v next conn vlan_id

-- After the rest of the chain: nothing to do unless the remote mechanism is a vlan.
unfoldable pub join_bridge :
    Vpp → Next Bridges → Connection → Option ℕ → M Bridges Refusal Connection
unfolding add_bridge_domain close
join_bridge v next conn none = pure conn
join_bridge v next conn (some vlan_id) =
    try (add_bridge_domain v vlan_id) (λ _. pure conn) (close_after (close v next) conn)

unfoldable pub request : Vpp → Next Bridges → Request → M Bridges Refusal Connection
unfolding join_bridge Vlan.load
request v next r =
    if is_ethernet (payload_of r.connection)
    then try (next.request r) (λ conn. do vlan_id ← Vlan.load true; join_bridge v next conn vlan_id)
        (λ refusal. refuse refusal.error)
    else next.request r
