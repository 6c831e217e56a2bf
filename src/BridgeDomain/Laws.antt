-- ===== src/BridgeDomain/Laws.antt =====
-- addBridgeDomain: what it leaves behind, and that a refresh of a connection repeats nothing.
use sdk_vpp.Prelude.{ℕ, ◌≡◌, refl, Option, none, some, arith, true, []}
use sdk_vpp.Prelude.Keys.{nat_eq}
use sdk_vpp.Prelude.Assoc.{lookup, insert, lookup-insert_self, lookup-insert}
use sdk_vpp.Vpp.{Vpp, Call, bridge_domain_add_del, max_uint32}
use sdk_vpp.Exec.{State, ok, >>=-eq-ok}
use sdk_vpp.BridgeDomain.{
  Bridges, BridgeDomain, BridgeDomainKey, key_eq, make_key, find_bridge, attach, add_bridge,
  add_bridge_domain, both,
}

abbrev joined : ℕ → BridgeDomain → BridgeDomain
joined i b = record b { attached = insert i tt b.attached }

record Attached (key : BridgeDomainKey) (i : ℕ) (b b' : BridgeDomain) (s t : State Bridges)
    : Type 0 where
  stored : lookup key t.own ≡ some b'
  there : lookup i b'.attached ≡ some tt
  kept : (j : ℕ) → lookup j b.attached ≡ some tt → lookup j b'.attached ≡ some tt
  client : t.client ≡ s.client
  server : t.server ≡ s.server

attach-Attached :
    (v : Vpp) (key : BridgeDomainKey) (i shg : ℕ) (b b' : BridgeDomain) (o : Option (Unit {0}))
    (s t : State Bridges)
    → lookup key s.own ≡ some b
    → lookup i b.attached ≡ o
    → attach v key i shg b o s ≡ (ok b', t)
    → Attached key i b b' s t
unfolding attach
attach-Attached v key i shg b b' (some tt) s t here there e = record {
  stored = ground arith;
  there = ground arith;
  kept = λ j h. ground arith;
  client = ground arith;
  server = ground arith;
}
attach-Attached v key i shg b b' none s t here there e = record {
  stored = ground (arith, lookup-insert_self key (joined i b) s.own);
  there = ground (arith, lookup-insert_self i tt b.attached);
  kept = λ j h. ground (arith, lookup-insert i j tt b.attached);
  client = ground arith;
  server = ground arith;
}

abbrev created_call : Call
created_call = bridge_domain_add_del (record {
  is_add = true;
  bd_id = max_uint32;
  flood = true;
  forward = true;
  learn = true;
  uu_flood = true;
})

record Found (key : BridgeDomainKey) (b : BridgeDomain) (s t : State Bridges) : Type 0 where
  stored : lookup key t.own ≡ some b
  client : t.client ≡ s.client
  server : t.server ≡ s.server

find_bridge-Found :
    (v : Vpp) (key : BridgeDomainKey) (o : Option BridgeDomain) (b : BridgeDomain)
    (s t : State Bridges)
    → lookup key s.own ≡ o
    → find_bridge v key o s ≡ (ok b, t)
    → Found key b s t
unfolding find_bridge
find_bridge-Found v key (some x) b s t h e = record {
  stored = ground arith;
  client = ground arith;
  server = ground arith;
}
find_bridge-Found v key none b s t h e = record {
  stored = ground (
    arith,
    lookup-insert_self key (record { id = v.index s.calls (created_call); attached = [] }) s.own,
  );
  client = ground arith;
  server = ground arith;
}

-- The bridge domain of a key holds both interfaces.
pub record IsJoined (key : BridgeDomainKey) (server : ℕ) (w : Bridges) : Type 0 where
  pub bridge : BridgeDomain
  pub stored : lookup key w ≡ some bridge
  pub server_there : lookup server bridge.attached ≡ some tt
  pub client_there : lookup key.client_if_index bridge.attached ≡ some tt

add_bridge-IsJoined :
    (v : Vpp) (vlan c i : ℕ) (s t : State Bridges)
    → add_bridge v vlan c i s ≡ (ok tt, t)
    → IsJoined (make_key vlan c) i t.own × (t.client ≡ s.client) × (t.server ≡ s.server)
unfolding add_bridge
add_bridge-IsJoined v vlan c i s t e =
    let key = make_key vlan c in
    let (b, s1, e1, r1) = >>=-eq-ok _ (find_bridge v key (lookup key s.own)) s e in
    let (b', s2, e2, r2) = >>=-eq-ok _ (attach v key i 1 b (lookup i b.attached)) s1 r1 in
    let (b'', s3, e3, r3) = >>=-eq-ok _ (attach v key c 0 b' (lookup c b'.attached)) s2 r2 in
    let p1 = find_bridge-Found v key (lookup key s.own) b s s1 refl e1 in
    let p2 = attach-Attached v key i 1 b b' (lookup i b.attached) s1 s2 p1.stored refl e2 in
    let p3 = attach-Attached v key c 0 b' b'' (lookup c b'.attached) s2 s3 p2.stored refl e3 in
    (
      record {
        bridge = b'';
        stored = ground (arith, p3.stored);
        server_there = p3.kept i p2.there;
        client_there = p3.there;
      },
      ground (arith, p1.client, p2.client, p3.client),
      ground (arith, p1.server, p2.server, p3.server),
    )

add_bridge_again :
    (v : Vpp) (vlan c i : ℕ) (s : State Bridges)
    → IsJoined (make_key vlan c) i s.own
    → add_bridge v vlan c i s ≡ (ok tt, s)
unfolding add_bridge find_bridge attach
add_bridge_again v vlan c i s j =
    rw (j.stored, find_bridge) (rw (j.server_there, attach) (rw (j.client_there, attach) refl))

both_again :
    (v : Vpp) (vlan : ℕ) (client server : Option ℕ) (s t : State Bridges)
    → both client server (add_bridge v vlan) s ≡ (ok tt, t)
    → (both client server (add_bridge v vlan) t ≡ (ok tt, t))
      × (t.client ≡ s.client)
      × (t.server ≡ s.server)
both_again v vlan none server s t e = (refl, ground arith, ground arith)
both_again v vlan (some c) none s t e = (refl, ground arith, ground arith)
both_again v vlan (some c) (some i) s t e =
    let (j, mc, ms) = add_bridge-IsJoined v vlan c i s t e in
    (add_bridge_again v vlan c i t j, mc, ms)

-- When addBridgeDomain returned with no error, running it again (a refresh of the connection) sends
-- nothing to VPP and changes neither the bridge domains nor the metadata.
pub add_bridge_domain_again :
    (v : Vpp) (vlan : ℕ) (s t : State Bridges)
    → add_bridge_domain v vlan s ≡ (ok tt, t)
    → add_bridge_domain v vlan t ≡ (ok tt, t)
unfolding add_bridge_domain
add_bridge_domain_again v vlan s t e =
    let (again, mc, ms) = both_again v vlan s.client.if_index s.server.if_index s t e in
    simp (mc, ms) again

-- When addBridgeDomain returned with no error and both interfaces of the connection are known, the
-- bridge domain of the vlan and the client interface is in the map and holds both interfaces.
pub add_bridge_domain-IsJoined :
    (v : Vpp) (vlan c i : ℕ) (s t : State Bridges)
    → s.client.if_index ≡ some c
    → s.server.if_index ≡ some i
    → add_bridge_domain v vlan s ≡ (ok tt, t)
    → IsJoined (make_key vlan c) i t.own
unfolding add_bridge_domain
add_bridge_domain-IsJoined v vlan c i s t hc hs e =
    let e' : both (some c) (some i) (add_bridge v vlan) s ≡ (ok tt, t) = simp (hc, hs) at e in
    (add_bridge-IsJoined v vlan c i s t e').0
