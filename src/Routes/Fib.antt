-- ===== src/Routes/Fib.antt =====
-- The forwarding table that VPP holds after a history of messages, and what a pass over the routes of
-- a connection makes of it.
use sdk_vpp.Prelude.{
  ℕ, ◌≡◌, refl, ap, Bool, true, false, ◌&&◌, ◌||◌, Option, none, some, List, [], ◌∷◌, ◌==◌, arith,
  Bool-cases, inl, inr, if◌then◌else◌,
}
use sdk_vpp.Types.{
  Ip, IpNet, Prefix, AddressFamily, AddressUnion, FibProto, is_v6_to_fib_proto, address_ip4,
  address_ip6, union_zero, union_ip4, union_ip6, bytes_eq, to_vpp_prefix, is_v6,
}
use sdk_vpp.Vpp.{Vpp, Error, Call, IpRoute, RoutePath, ip_route_add_del}
use sdk_vpp.Exec.{State, ok, side, >>=-eq-ok, Outcome, wrapped_send_-eq-ok}
use sdk_vpp.Exec.Quiet.{Alike, Alike_refl}
use sdk_vpp.Metadata.{Metadata}
use sdk_vpp.Metadata.Vrf
use sdk_vpp.Vrf.{or_zero}
use sdk_vpp.Routes.{Route, to_route, next_hop, prefix_add_del, routes_add_del}

abbrev pub family_beq : AddressFamily → AddressFamily → Bool
family_beq address_ip4 address_ip4 = true
family_beq address_ip4 address_ip6 = false
family_beq address_ip6 address_ip4 = false
family_beq address_ip6 address_ip6 = true

abbrev pub union_beq : AddressUnion → AddressUnion → Bool
unfolding bytes_eq
union_beq union_zero union_zero = true
union_beq union_zero (union_ip4 b) = false
union_beq union_zero (union_ip6 b) = false
union_beq (union_ip4 a) union_zero = false
union_beq (union_ip4 a) (union_ip4 b) = bytes_eq a b
union_beq (union_ip4 a) (union_ip6 b) = false
union_beq (union_ip6 a) union_zero = false
union_beq (union_ip6 a) (union_ip4 b) = false
union_beq (union_ip6 a) (union_ip6 b) = bytes_eq a b

abbrev pub prefix_beq : Prefix → Prefix → Bool
prefix_beq p q =
    family_beq p.address.af q.address.af
    && (union_beq p.address.un q.address.un && (p.len == q.len))

-- A message about the entry replaces it, or removes it, as a whole: no message is a multipath one.
abbrev pub entry_after :
    Bool → IpRoute → ℕ → Prefix → Option (List RoutePath) → Option (List RoutePath)
entry_after is_add r table p old =
    if (r.table_id == table) && prefix_beq r.prefix p
    then (if is_add then some r.paths else none)
    else old

-- The entry of a table for a prefix, after a history
unfoldable pub fib : ℕ → Prefix → List Call → Option (List RoutePath)
fib table p [] = none
fib table p (ip_route_add_del is_add is_multipath r ∷ calls) =
    entry_after is_add r table p (fib table p calls)
fib table p (other ∷ calls) = fib table p calls

-- The routing table of a prefix, by the metadata of a side
abbrev pub table_of : Metadata → Ip → ℕ
table_of m ip = or_zero (if is_v6 ip then m.vrf_v6 else m.vrf_v4)

abbrev pub hits_prefix : Metadata → ℕ → Prefix → Option IpNet → Bool
hits_prefix m table p none = false
hits_prefix m table p (some net) =
    (table_of m net.ip == table) && prefix_beq (to_vpp_prefix (some net)) p

-- A route is for this entry.
abbrev pub hits : Metadata → ℕ → Prefix → Route → Bool
hits m table p route = hits_prefix m table p route.prefix_ip_net

-- Some route is.
unfoldable pub any_hits : Metadata → ℕ → Prefix → List Route → Bool
any_hits m table p [] = false
any_hits m table p (route ∷ routes) = hits m table p route || any_hits m table p routes

-- One path, through the interface
abbrev pub IsVia : ℕ → Option (List RoutePath) → Type 0
IsVia i entry =
    (proto : FibProto) × (nh : AddressUnion) × (entry
      ≡ some (record { sw_if_index = i; weight = 1; proto = proto; nh = nh } ∷ []))

module _ {S : Type 0} (v : Vpp) (i : ℕ) (is_client : Bool) where
  -- What a pass left: the same metadata, and the entries of its routes set or removed
  pub record Passed (is_add : Bool) (routes : List Route) (s t : State S) : Type 0 where
    pub alike : Alike s t
    pub removed :
        is_add ≡ false
        → (table : ℕ) (p : Prefix)
        → fib table p t.calls
          ≡ (if any_hits (side is_client s) table p routes then none else fib table p s.calls)
    pub added :
        is_add ≡ true
        → (table : ℕ) (p : Prefix) → any_hits (side is_client s) table p routes ≡ true
        → IsVia i (fib table p t.calls)
    pub untouched :
        (table : ℕ) (p : Prefix)
        → any_hits (side is_client s) table p routes ≡ false
        → fib table p t.calls ≡ fib table p s.calls

  prefix_add_del-sends :
      (is_add : Bool) (nh : Ip) (net : IpNet) (s t : State S)
      → prefix_add_del v i is_client is_add nh (some net) s ≡ (ok tt, t)
      → t ≡ record s {
        calls =
            ip_route_add_del is_add false (to_route net nh i (table_of (side is_client s) net.ip))
            ∷ s.calls;
      }
  unfolding prefix_add_del Vrf.load
  prefix_add_del-sends is_add nh net s t h =
      wrapped_send_-eq-ok "vppapi IPRouteAddDel returned error" v
        (ip_route_add_del is_add false (to_route net nh i (table_of (side is_client s) net.ip))) s t
        h

  cons-Passed :
      (is_add : Bool) (nh : Ip) (net : IpNet) (routes : List Route) (s t : State S)
      → Passed is_add routes
          (record s {
            calls =
                ip_route_add_del is_add false
                  (to_route net nh i (table_of (side is_client s) net.ip))
                ∷ s.calls;
          })
          t
      → Passed is_add (record { prefix_ip_net = some net; next_hop_ip = nh } ∷ routes) s t
  unfolding any_hits fib to_route
  cons-Passed is_add nh net routes s t h = record {
    alike = record { own = h.alike.own; client = h.alike.client; server = h.alike.server };
    removed = λ e table p. ground (arith, h.removed e table p);
    added = λ e table p hit. elim (Bool-cases (any_hits (side is_client s) table p routes)) [
      | inl later ↦ h.added e table p later
      | inr last ↦
          (is_v6_to_fib_proto (is_v6 net.ip), next_hop nh, ground (arith, h.untouched table p))
    ];
    untouched = λ table p hit. ground (arith, h.untouched table p);
  }

  head-Passed :
      (is_add : Bool) (nh : Ip) (o : Option IpNet) (routes : List Route) (s u t : State S)
      → prefix_add_del v i is_client is_add nh o s ≡ (ok tt, u)
      → Passed is_add routes u t
      → Passed is_add (record { prefix_ip_net = o; next_hop_ip = nh } ∷ routes) s t
  unfolding prefix_add_del
  head-Passed is_add nh none routes s u t h rest =
      cc (ap (λ (q : Outcome Error (Unit {0}) × State S). q.0) h)
  head-Passed is_add nh (some net) routes s u t h rest =
      cons-Passed is_add nh net routes s t (simp (← prefix_add_del-sends is_add nh net s u h) rest)

  -- A pass that succeeded
  pub routes_add_del-Passed :
      (is_add : Bool) (routes : List Route) (s t : State S)
      → routes_add_del v i is_client is_add routes s ≡ (ok tt, t)
      → Passed is_add routes s t
  unfolding routes_add_del any_hits
  routes_add_del-Passed is_add [] s t h =
      let same : s ≡ t = ap (λ (q : Outcome Error (Unit {0}) × State S). q.1) h in
      simp (← same) (record {
        alike = Alike_refl s;
        removed = λ e table p. refl;
        added = λ e table p hit. cc;
        untouched = λ table p e. refl;
      })
  routes_add_del-Passed is_add (route ∷ routes) s t h =
      let first_step = prefix_add_del v i is_client is_add route.next_hop_ip route.prefix_ip_net in
      let (a, u, first, rest) =
        >>=-eq-ok (λ _. routes_add_del v i is_client is_add routes) first_step s h in
      head-Passed is_add route.next_hop_ip route.prefix_ip_net routes s u t first
        (routes_add_del-Passed is_add routes u t rest)
