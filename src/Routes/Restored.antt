-- ===== src/Routes/Restored.antt =====
-- The server's Request puts the routes of the connection into the forwarding table, and its Close
-- takes exactly those out again.
use sdk_vpp.Prelude.{
  ℕ, ◌≡◌, refl, ap, sym, ◌∙◌, Bool, true, false, none, some, List, ◌++◌, if◌then◌else◌,
}
use sdk_vpp.Types.{Prefix}
use sdk_vpp.Vpp.{Vpp, Error}
use sdk_vpp.Metadata.{Metadata}
use mathlib.Core.Path.{ap₂}
use sdk_vpp.Exec.{State, ok, side, >>=-eq-ok, Outcome}
use sdk_vpp.Chain.{Connection, Request, Next, request_then-passed}
use sdk_vpp.Metadata.Ifindex
use sdk_vpp.Routes.{Route, RouteApi, routes_of, add_del_on, add_del, server_close, server_request}
use sdk_vpp.Routes.Fib.{fib, any_hits, IsVia, Passed, routes_add_del-Passed}

-- What the server routes over its interface: the routes to the source, and those to the destination that
-- name a next hop
abbrev pub server_routes : RouteApi → Connection → List Route
server_routes api c = api.src_ip_routes c ++ api.dst_routes_with_explicit_next_hop c

module _ {S : Type 0} (v : Vpp) (api : RouteApi) where
  add_del-Passed :
      (is_client is_add : Bool) (conn : Connection) (i : ℕ) (s t : State S)
      → (side is_client s).if_index ≡ some i
      → add_del v api is_client is_add conn s ≡ (ok tt, t)
      → Passed v i is_client is_add (routes_of api is_client conn) s t
  unfolding add_del add_del_on Ifindex.load
  add_del-Passed is_client is_add conn i s t stored h =
      routes_add_del-Passed v i is_client is_add (routes_of api is_client conn) s t (cc)

  passes-restore :
      (is_client : Bool) (routes : List Route) (i : ℕ) (s t u : State S)
      → Passed v i is_client true routes s t
      → Passed v i is_client false routes t u
      → (table : ℕ) (p : Prefix)
      → (any_hits (side is_client s) table p routes ≡ true
          → IsVia i (fib table p t.calls) × (fib table p u.calls ≡ none))
        × (any_hits (side is_client s) table p routes ≡ false
            → (fib table p t.calls ≡ fib table p s.calls)
              × (fib table p u.calls ≡ fib table p s.calls))
  passes-restore is_client routes i s t u one two table p =
      let kept : side is_client t ≡ side is_client s =
        ap₂ (λ (m n : Metadata). if is_client then m else n) one.alike.client one.alike.server in
      (
        λ hit. (one.added refl table p hit, rw (two.removed refl table p, kept, hit) refl),
        λ miss. (
          one.untouched table p miss,
          two.untouched table p (rw kept miss) ∙ one.untouched table p miss,
        ),
      )

  module _ (next : Next S) where
    -- The rest of the chain grants a connection and closes it without a change; the server has an
    -- interface for it. When Request and then Close succeeded, then in between the entry of each route
    -- of the connection led through that interface, after Close there is none for any of them, and
    -- every other entry of every table is at all three times the same.
    pub server_close-restores :
        (r : Request) (c c' : Connection) (i : ℕ) (s t u : State S)
        → ((w : State S) → next.request r w ≡ (ok c, w))
        → ((w : State S) → next.close c w ≡ (ok tt, w))
        → s.server.if_index ≡ some i
        → server_request v api next r s ≡ (ok c', t)
        → server_close v api next c' t ≡ (ok tt, u)
        → (table : ℕ) (p : Prefix)
        → (any_hits s.server table p (server_routes api c) ≡ true
            → IsVia i (fib table p t.calls) × (fib table p u.calls ≡ none))
          × (any_hits s.server table p (server_routes api c) ≡ false
              → (fib table p t.calls ≡ fib table p s.calls)
                × (fib table p u.calls ≡ fib table p s.calls))
    unfolding server_request server_close routes_of
    server_close-restores r c c' i s t u passes closes stored h k table p =
        let (same, worked) =
          request_then-passed (add_del v api false true) (server_close v api next) next r s t c c'
            (passes s) h in
        let (x, y, removed, closed) =
          >>=-eq-ok (λ _. next.close c) (add_del v api false false c) t (simp same k) in
        let there : y ≡ u =
          ap (λ (q : Outcome Error (Unit {0}) × State S). q.1) (sym (closes y) ∙ closed) in
        let one = add_del-Passed false true c i s t stored worked in
        let kept : t.server.if_index ≡ some i =
          ap (λ (m : Metadata). m.if_index) one.alike.server ∙ stored in
        let two = add_del-Passed false false c i t u kept (simp (← there) removed) in
        passes-restore false (routes_of api false c) i s t u one two table p
