-- ===== src/Vrf/Leak.antt =====
-- A request that the rest of the chain refuses: the tables that were allocated for it stay.
use sdk_vpp.Prelude.{ℕ, ◌≡◌, ◌≢◌, refl, Option, none, some, arith, true, false, ◌∷◌, List}
use sdk_vpp.Prelude.Keys.{nat_eq, string_eq}
use sdk_vpp.Prelude.Assoc.{lookup, insert, lookup-insert_self, lookup-insert}
use sdk_vpp.Vpp.{Vpp, Error, Call, ip_table_allocate, max_uint32}
use sdk_vpp.Exec.{State, err}
use sdk_vpp.Chain.{Connection, Request, Next}
use text.Mathlib.TextEquality.{eq_iff}
use sdk_vpp.Vrf.{Maps, new_info, request}

module _ (v : Vpp) (load_fn : State Maps → Option ℕ) (next : Next Maps) (r : Request)
    (c : Connection) (e : Error) (s : State Maps) (asked : r.connection ≡ some c)
    (no_v4 : s.server.vrf_v4 ≡ none) (no_v6 : s.server.vrf_v6 ≡ none)
    (new_v4 : lookup c.network_service s.own.ipv4 ≡ none)
    (new_v6 : lookup c.network_service s.own.ipv6 ≡ none) (unnamed_v4 : lookup "" s.own.ipv4 ≡ none)
    (unnamed_v6 : lookup "" s.own.ipv6 ≡ none) (named : c.network_service ≢ "")
    (accepts : (history : List Call) (call : Call) → v.fails history call ≡ none)
    (refuses : (t : State Maps)
      → next.request r t ≡ (err (record { conn = none; error = e }), t)) where
  abbrev v4_call : Call
  v4_call = ip_table_allocate max_uint32 false

  abbrev v6_call : Call
  v6_call = ip_table_allocate max_uint32 true

  -- The state after the tables were allocated.
  abbrev allocated : State Maps
  allocated = record {
    calls = v6_call ∷ v4_call ∷ s.calls;
    client = s.client;
    server = record s.server {
      vrf_v4 = some (v.index s.calls v4_call);
      vrf_v6 = some (v.index (v4_call ∷ s.calls) v6_call);
    };
    own = record {
      ipv4 = insert c.network_service (new_info (v.index s.calls v4_call)) s.own.ipv4;
      ipv6 = insert c.network_service (new_info (v.index (v4_call ∷ s.calls) v6_call)) s.own.ipv6;
    };
  }

  still_v4 : lookup "" allocated.own.ipv4 ≡ none
  still_v4 = ground (
    arith,
    lookup-insert c.network_service "" (new_info (v.index s.calls v4_call)) s.own.ipv4,
    eq_iff c.network_service "",
  )

  still_v6 : lookup "" allocated.own.ipv6 ≡ none
  still_v6 = ground (
    arith,
    lookup-insert c.network_service "" (new_info (v.index (v4_call ∷ s.calls) v6_call)) s.own.ipv6,
    eq_iff c.network_service "",
  )

  refused_allocated : request v load_fn next false r s ≡ (
    err (record { conn = none; error = e }),
    record allocated { server = record s.server { vrf_v4 = none; vrf_v6 = none } },
  )
  unfolding request
  refused_allocated = simp asked (
      simp no_v4 (
        simp new_v4 (
          simp accepts (
            simp no_v6
              (simp new_v6 (simp accepts (simp refuses (simp (still_v6, still_v4) refl))))))))

  -- For the first connection of a service: when VPP accepts everything and the rest of the chain
  -- refuses the request with a nil connection, the server's Request returns that refusal and clears
  -- the tables from the metadata of the connection, but both tables stay in the maps with nothing
  -- attached, and VPP was told to allocate two tables and to delete none.
  pub refused_request-leaks :
      let t = (request v load_fn next false r s).1 in
      ((request v load_fn next false r s).0 ≡ err (record { conn = none; error = e }))
      × (lookup c.network_service t.own.ipv4 ≡ some (new_info (v.index s.calls v4_call)))
      × (lookup c.network_service t.own.ipv6
          ≡ some (new_info (v.index (v4_call ∷ s.calls) v6_call)))
      × (t.server.vrf_v4 ≡ none)
      × (t.server.vrf_v6 ≡ none)
      × (t.calls ≡ v6_call ∷ v4_call ∷ s.calls)
  refused_request-leaks =
      rw refused_allocated
        (refl, lookup-insert_self _ _ _, lookup-insert_self _ _ _, refl, refl, refl)
