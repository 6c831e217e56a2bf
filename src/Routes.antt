-- ===== src/Routes.antt =====
-- pkg/networkservice/connectioncontext/ipcontext/routes: the routes of a connection, through its
-- interface and in its routing table.
--
-- The lists of routes and the text of a prefix are read by the API: `RouteApi` gives the four lists,
-- and a route is held by what GetPrefixIPNet and GetNextHopIP return (nil is `none` and `[]`).
pub mod Fib
pub mod Restored
pub mod Tests
use sdk_vpp.Prelude.{ℕ, Bool, true, false, Option, none, some, List, [], ◌∷◌, ◌++◌, if◌then◌else◌}
use sdk_vpp.Types.{
  Ip, IpNet, AddressUnion, union_zero, to_vpp_address, to_vpp_prefix, is_v6, is_v6_to_fib_proto,
}
use sdk_vpp.Vpp.{Vpp, Error, IpRoute, ip_route_add_del}
use sdk_vpp.Exec.{M, ◌>>=◌, ◌>>◌, pure, throw, try, wrapping, ignoring, send_}
use sdk_vpp.Chain.{Connection, Request, Refusal, Next, request_then}
use sdk_vpp.Metadata.Ifindex
use sdk_vpp.Metadata.Vrf
use sdk_vpp.Vrf.{or_zero}

pub record Route : Type 0 where
  pub prefix_ip_net : Option IpNet
  pub next_hop_ip : Ip

pub record RouteApi : Type 0 where
  pub dst_ip_routes : Connection → List Route
  pub src_ip_routes : Connection → List Route
  pub dst_routes_with_explicit_next_hop : Connection → List Route
  pub src_routes_with_explicit_next_hop : Connection → List Route

unfoldable pub routes_of : RouteApi → Bool → Connection → List Route
routes_of api is_client conn =
    if is_client
    then api.dst_ip_routes conn ++ api.src_routes_with_explicit_next_hop conn
    else api.src_ip_routes conn ++ api.dst_routes_with_explicit_next_hop conn

abbrev pub next_hop : Ip → AddressUnion
next_hop [] = union_zero
next_hop (b ∷ bs) = (to_vpp_address (b ∷ bs)).un

unfoldable pub to_route : IpNet → Ip → ℕ → ℕ → IpRoute
unfolding to_vpp_prefix is_v6_to_fib_proto is_v6
to_route prefix nh via table_id = record {
  table_id = table_id;
  prefix = to_vpp_prefix (some prefix);
  n_paths = 1;
  paths =
      record {
        sw_if_index = via;
        weight = 1;
        proto = is_v6_to_fib_proto (is_v6 prefix.ip);
        nh = next_hop nh;
      }
      ∷ [];
}

module _ {S : Type 0} (v : Vpp) (i : ℕ) (is_client is_add : Bool) where
  -- On the route's prefix
  unfoldable pub prefix_add_del : Ip → Option IpNet → M S Error (Unit {0})
  unfolding to_route is_v6 Vrf.load
  prefix_add_del nh none = throw (Error.new "vppRoute prefix must not be nil")
  prefix_add_del nh (some prefix) = do
    table_id ← Vrf.load is_client (is_v6 prefix.ip)
    wrapping "vppapi IPRouteAddDel returned error"
        (send_ v (ip_route_add_del is_add false (to_route prefix nh i (or_zero table_id))))

  abbrev pub route_add_del : Route → M S Error (Unit {0})
  route_add_del route = prefix_add_del route.next_hop_ip route.prefix_ip_net

  unfoldable pub routes_add_del : List Route → M S Error (Unit {0})
  unfolding prefix_add_del
  routes_add_del [] = pure tt
  routes_add_del (route ∷ routes) = do route_add_del route; routes_add_del routes

module _ {S : Type 0} (v : Vpp) (api : RouteApi) (is_client : Bool) where
  unfoldable pub add_del_on : Bool → Connection → Option ℕ → M S Error (Unit {0})
  unfolding routes_add_del routes_of
  add_del_on is_add conn none = pure tt
  add_del_on is_add conn (some i) =
      routes_add_del v i is_client is_add (routes_of api is_client conn)

  unfoldable pub add_del : Bool → Connection → M S Error (Unit {0})
  unfolding add_del_on Ifindex.load
  add_del is_add conn = do i ← Ifindex.load is_client; add_del_on is_add conn i

module _ {S : Type 0} (v : Vpp) (api : RouteApi) (next : Next S) where
  -- The client drops the error of a deletion, the server returns it at once.
  unfoldable pub client_close : Connection → M S Error (Unit {0})
  unfolding add_del
  client_close conn = do ignoring (add_del v api true false conn); next.close conn

  unfoldable pub server_close : Connection → M S Error (Unit {0})
  unfolding add_del
  server_close conn = do add_del v api false false conn; next.close conn

  unfoldable pub client_request : Request → M S Refusal Connection
  unfolding client_close
  client_request = request_then (add_del v api true true) client_close next

  unfoldable pub server_request : Request → M S Refusal Connection
  unfolding server_close
  server_request = request_then (add_del v api false true) server_close next
