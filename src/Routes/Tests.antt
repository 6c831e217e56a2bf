-- ===== src/Routes/Tests.antt =====
-- Instances of the theorems on routes, and runs.
use sdk_vpp.Prelude.{◌≡◌, refl, true, false, none, some, List, [], ◌∷◌}
use sdk_vpp.Types.{
  IpNet, mask, to_vpp_prefix, mask_size, is_v6, to4, bytes_eq, to_vpp_address, vpp_address,
}
use sdk_vpp.Vpp.{Error}
use sdk_vpp.Exec.{State, ok, err}
use sdk_vpp.Chain.{Next, Payload}
use sdk_vpp.Metadata.{no_metadata}
use sdk_vpp.Metadata.Ifindex
use sdk_vpp.Samples.{willing, fresh, conn, asking, granting, ten}
use sdk_vpp.Routes.{Route, RouteApi, add_del, server_close, server_request}
use sdk_vpp.Routes.Fib.{fib, any_hits, IsVia}
use sdk_vpp.Routes.Restored.{server_routes, server_close-restores}

abbrev subnet : IpNet
subnet = record { ip = ten; net_mask = mask 24 32 }

abbrev route : Route
route = record { prefix_ip_net = some subnet; next_hop_ip = [] }

abbrev nameless : Route
nameless = record { prefix_ip_net = none; next_hop_ip = ten }

abbrev listing : List Route → RouteApi
listing routes = record {
  dst_ip_routes = λ c. [];
  src_ip_routes = λ c. routes;
  dst_routes_with_explicit_next_hop = λ c. [];
  src_routes_with_explicit_next_hop = λ c. routes;
}

abbrev start : State (Unit {0})
start = record (fresh tt) { server = record no_metadata { if_index = some 4; vrf_v4 = some 9 } }

abbrev rest : Next (Unit {0})
rest = granting Payload.ip

abbrev added : State (Unit {0})
unfolding server_request
added = (server_request willing (listing (route ∷ [])) rest (asking Payload.ip) start).1

abbrev withdrawn : State (Unit {0})
unfolding server_close
withdrawn = (server_close willing (listing (route ∷ [])) rest (conn Payload.ip) added).1

added_ok :
    server_request willing (listing (route ∷ [])) rest (asking Payload.ip) start
    ≡ (ok (conn Payload.ip), added)
unfolding added server_request
added_ok = refl

withdrawn_ok :
    server_close willing (listing (route ∷ [])) rest (conn Payload.ip) added ≡ (ok tt, withdrawn)
unfolding added withdrawn server_request server_close
withdrawn_ok = refl

-- In the table of the connection, and in another
server_close-restores_example :
    (any_hits start.server 9
          (to_vpp_prefix (some subnet))
          (server_routes (listing (route ∷ [])) (conn Payload.ip))
        ≡ true
      → IsVia 4 (fib 9 (to_vpp_prefix (some subnet)) added.calls)
        × (fib 9 (to_vpp_prefix (some subnet)) withdrawn.calls ≡ none))
    × (any_hits start.server 9
            (to_vpp_prefix (some subnet))
            (server_routes (listing (route ∷ [])) (conn Payload.ip))
          ≡ false
        → (fib 9 (to_vpp_prefix (some subnet)) added.calls
            ≡ fib 9 (to_vpp_prefix (some subnet)) start.calls)
          × (fib 9 (to_vpp_prefix (some subnet)) withdrawn.calls
              ≡ fib 9 (to_vpp_prefix (some subnet)) start.calls))
server_close-restores_example =
    server_close-restores willing (listing (route ∷ [])) rest (asking Payload.ip) (conn Payload.ip)
      (conn Payload.ip) 4 start added withdrawn (λ w. refl) (λ w. refl) refl added_ok withdrawn_ok 9
      (to_vpp_prefix (some subnet))

route_hits :
    any_hits start.server 9
      (to_vpp_prefix (some subnet))
      (server_routes (listing (route ∷ [])) (conn Payload.ip))
    ≡ true
unfolding any_hits to_vpp_prefix mask_size to_vpp_address vpp_address is_v6 to4 bytes_eq
route_hits = refl

-- A route without a prefix is an error.
nameless_fails :
    (add_del {S = Unit {0}} willing (listing (nameless ∷ [])) false true (conn Payload.ip) start).0
    ≡ err (Error.new "vppRoute prefix must not be nil")
unfolding add_del
nameless_fails = refl

-- When a route cannot be deleted, the server does not close the rest of the chain, and the client does.
server_close_stops :
    (server_close {S = Unit {0}} willing
      (listing (nameless ∷ []))
      (record { request = rest.request; close = λ c. Ifindex.delete false })
      (conn Payload.ip)
      start).1.server.if_index
    ≡ some 4
unfolding server_close
server_close_stops = refl
