-- ===== src/BridgeDomain/Leak.antt =====
-- A whole life of a bridge domain, and the one that is never deleted.
use sdk_vpp.Prelude.{
  ℕ, ◌≡◌, ◌≢◌, refl, none, some, arith, true, false, [], ◌∷◌, ◌==◌, if◌then◌else◌, List, Bool,
  Bool-cases, inl, inr,
}
use sdk_vpp.Prelude.Keys.{nat_eq}
use sdk_vpp.Prelude.Assoc.{
  lookup, insert, erase, lookup-insert_self, lookup-insert, lookup-erase_self,
}
use sdk_vpp.Vpp.{
  Vpp, Error, Call, bridge_domain_add_del, sw_interface_set_l2_bridge, delete_subif, max_uint32,
}
use sdk_vpp.Exec.{State, ok, err, ◌>>=◌, ◌>>◌, get_own, set_own}
use sdk_vpp.BridgeDomain.{
  Bridges, BridgeDomain, key_eq, make_key, add_bridge_domain, del_bridge_domain, store_bridge,
  del_vpp_sub_if, add_del_vpp_bridge_domain,
}

abbrev pub domain_call : Bool → ℕ → Call
domain_call is_add id = bridge_domain_add_del (record {
  is_add = is_add;
  bd_id = id;
  flood = true;
  forward = true;
  learn = true;
  uu_flood = true;
})

abbrev pub port_call : ℕ → ℕ → ℕ → Bool → Call
port_call i id shg enable =
    sw_interface_set_l2_bridge
      (record { rx_sw_if_index = i; bd_id = id; shg = shg; enable = enable })

abbrev pub no_bridge : ℕ → BridgeDomain
no_bridge id = record { id = id; attached = [] }

-- The state in which the new bridge domain is left.
abbrev pub stranded : Vpp → ℕ → ℕ → ℕ → State Bridges → State Bridges
stranded v vlan c i s = record s {
  calls =
      port_call i (v.index s.calls (domain_call true max_uint32)) 1 true
      ∷ domain_call true max_uint32
      ∷ s.calls;
  own = insert (make_key vlan c) (no_bridge (v.index s.calls (domain_call true max_uint32))) s.own;
}

module _ (v : Vpp) (vlan c i : ℕ) (x : Error) (s : State Bridges) (hc : s.client.if_index ≡ some c)
    (hs : s.server.if_index ≡ some i) (h : lookup (make_key vlan c) s.own ≡ none)
    (ok_add : v.fails s.calls (domain_call true max_uint32) ≡ none)
    (refused : v.fails
        (domain_call true max_uint32 ∷ s.calls)
        (port_call i (v.index s.calls (domain_call true max_uint32)) 1 true)
      ≡ some x) where
  add_stranded :
      add_bridge_domain v vlan s
      ≡ (err (Error.wrap "vppapi SwInterfaceSetL2Bridge returned error" x), stranded v vlan c i s)
  unfolding add_bridge_domain
  add_stranded = simp (hc, hs) (simp h (unfold lookup in simp (ok_add, refused)))

  del_stranded : del_bridge_domain v vlan (stranded v vlan c i s) ≡ (
    ok tt,
    record (stranded v vlan c i s) {
      own =
          insert
            (make_key vlan c)
            (no_bridge (v.index s.calls (domain_call true max_uint32)))
            (stranded v vlan c i s).own;
    },
  )
  unfolding del_bridge_domain
  del_stranded = simp (hc, hs, lookup-insert_self) (unfold lookup in refl)

  -- For a new key: when VPP accepts the new bridge domain and refuses the server's interface,
  -- addBridgeDomain returns that error, and the delBridgeDomain that Close then runs sends nothing to
  -- VPP and leaves the empty bridge domain in the map: the bridge domain is not deleted from VPP.
  pub failed_join-leaks :
      ((add_bridge_domain v vlan s).0
        ≡ err (Error.wrap "vppapi SwInterfaceSetL2Bridge returned error" x))
      × ((del_bridge_domain v vlan (add_bridge_domain v vlan s).1).0 ≡ ok tt)
      × ((del_bridge_domain v vlan (add_bridge_domain v vlan s).1).1.calls
          ≡ (add_bridge_domain v vlan s).1.calls)
      × (lookup (make_key vlan c) (del_bridge_domain v vlan (add_bridge_domain v vlan s).1).1.own
          ≡ some (no_bridge (v.index s.calls (domain_call true max_uint32))))
  failed_join-leaks = rw add_stranded (rw del_stranded (refl, refl, refl, lookup-insert_self _ _ _))

abbrev present : Unit {0}
present = tt

-- The bridge domain of one server, from its first request to its close, with a VPP that accepts
-- everything.
module _ (v : Vpp) (vlan c i : ℕ) (s : State Bridges) (hc : s.client.if_index ≡ some c)
    (hs : s.server.if_index ≡ some i) (h : lookup (make_key vlan c) s.own ≡ none) (apart : i ≢ c)
    (accepts : (history : List Call) (call : Call) → v.fails history call ≡ none) where
  abbrev id : ℕ
  id = v.index s.calls (domain_call true max_uint32)

  abbrev full : BridgeDomain
  full = record { id = id; attached = insert c present (insert i present []) }

  client_absent : lookup c (insert i present []) ≡ none
  unfolding lookup
  client_absent = ground (arith, lookup-insert i c present [])

  server_left : erase i full.attached ≡ (c, present) ∷ []
  unfolding insert erase
  server_left = ground arith

  client_left : erase c ((c, present) ∷ []) ≡ []
  unfolding erase
  client_left = ground arith

  client_there : lookup c ((c, present) ∷ []) ≡ some tt
  unfolding lookup
  client_there = ground arith

  server_there : lookup i full.attached ≡ some tt
  server_there =
      ground
        (arith, lookup-insert c i present (insert i present []), lookup-insert_self i present [])

  abbrev joined : State Bridges
  joined = record s {
    calls = port_call c id 0 true ∷ port_call i id 1 true ∷ domain_call true max_uint32 ∷ s.calls;
    own = insert (make_key vlan c) full (
        insert (make_key vlan c) (record { id = id; attached = insert i present [] })
          (insert (make_key vlan c) (no_bridge id) s.own));
  }

  abbrev parted_calls : List Call
  parted_calls = port_call c id 0 false ∷ port_call i id 0 false ∷ joined.calls

  add_full : add_bridge_domain v vlan s ≡ (ok tt, joined)
  unfolding add_bridge_domain
  add_full = simp (hc, hs) (simp h (unfold lookup in simp (accepts, client_absent)))

  -- The end of delBridgeDomain, from any state.
  wind_up :
      (u : State Bridges) (b : BridgeDomain)
      → let r =
          (del_vpp_sub_if v vlan c
              >> (store_bridge (make_key vlan c) b
                  >> (add_del_vpp_bridge_domain v id false >>= λ _.
                      get_own >>= λ w. set_own (erase (make_key vlan c) w))))
            u in
        (r.0 ≡ ok tt)
        × (lookup (make_key vlan c) r.1.own ≡ none)
        × (r.1.calls
            ≡ domain_call false id ∷ (if vlan == 0 then u.calls else delete_subif c ∷ u.calls))
  unfolding del_vpp_sub_if store_bridge add_del_vpp_bridge_domain
  wind_up u b = elim (Bool-cases (vlan == 0)) [
    | inl z ↦ simp (z, accepts) (refl, lookup-erase_self _ _, refl)
    | inr z ↦ simp (z, accepts) (refl, lookup-erase_self _ _, refl)
  ]

  del_joined :
      ((del_bridge_domain v vlan joined).0 ≡ ok tt)
      × (lookup (make_key vlan c) (del_bridge_domain v vlan joined).1.own ≡ none)
      × ((del_bridge_domain v vlan joined).1.calls
          ≡ domain_call false id
            ∷ (if vlan == 0 then parted_calls else delete_subif c ∷ parted_calls))
  unfolding del_bridge_domain
  del_joined =
      simp (hc, hs, lookup-insert_self)
        (simp server_there (simp (accepts, server_left, client_there) (wind_up _ _)))

  -- With a VPP that accepts everything, two different interfaces that are known and a key that is not in
  -- the map: adding the bridge domain creates it and joins the server's and the client's interfaces to
  -- it, and deleting it takes both out, deletes the vlan sub-interface (unless the vlan is 0) and
  -- deletes the bridge domain that VPP numbered: these are all the messages, in this order, seven or,
  -- for the vlan 0, six, and the map holds the key no more.
  pub bridge_life :
      let done = del_bridge_domain v vlan (add_bridge_domain v vlan s).1 in
      ((add_bridge_domain v vlan s).0 ≡ ok tt)
      × (done.0 ≡ ok tt)
      × (lookup (make_key vlan c) done.1.own ≡ none)
      × (done.1.calls
          ≡ domain_call false id
            ∷ (if vlan == 0 then parted_calls else delete_subif c ∷ parted_calls))
  bridge_life = rw add_full (refl, del_joined.0, del_joined.1, del_joined.2)
