-- ===== src/BridgeDomain/Lifecycle.antt =====
-- delBridgeDomain: the bridge domain stays while another server uses it, and goes with the last one.
use sdk_vpp.Prelude.{ℕ, ◌≡◌, ◌≢◌, Option, none, some, arith, false, length, ◌==◌}
use sdk_vpp.Prelude.Keys.{nat_eq}
use sdk_vpp.Prelude.Assoc.{two_entries, lookup, lookup-insert_self, lookup-erase}
use sdk_vpp.Vpp.{Vpp}
use sdk_vpp.Exec.{State, ok, >>=-eq-ok}
use sdk_vpp.BridgeDomain.{
  Bridges, BridgeDomain, BridgeDomainKey, key_eq, make_key, del_bridge, del_bridge_domain,
  detach_server, finish_del, store_bridge,
}

detach_keeps :
    (v : Vpp) (key : BridgeDomainKey) (b b' : BridgeDomain) (server : Option ℕ) (j : ℕ)
    (s t : State Bridges)
    → lookup key s.own ≡ some b
    → lookup j b.attached ≡ some tt
    → server ≢ some j
    → detach_server v key b server s ≡ (ok b', t)
    → (lookup j b'.attached ≡ some tt) × (b'.id ≡ b.id)
unfolding detach_server store_bridge
detach_keeps v key b b' none j s t h there ne e = ground arith
detach_keeps v key b b' (some i) j s t h there ne e = ground (arith, lookup-erase i j b.attached)

-- A bridge domain with another server's interface survives.
pub record Survives (key : BridgeDomainKey) (j : ℕ) (b : BridgeDomain) (w : Bridges) : Type 0 where
  pub bridge : BridgeDomain
  pub stored : lookup key w ≡ some bridge
  pub same_id : bridge.id ≡ b.id
  pub there : lookup j bridge.attached ≡ some tt

finish_stored :
    (v : Vpp) (key : BridgeDomainKey) (b : BridgeDomain) (s t : State Bridges)
    → finish_del v key b false s ≡ (ok tt, t)
    → lookup key t.own ≡ some b
unfolding finish_del store_bridge
finish_stored v key b s t e = ground (arith, lookup-insert_self key b s.own)

del_bridge_shared :
    (v : Vpp) (key : BridgeDomainKey) (server : Option ℕ) (j : ℕ) (b : BridgeDomain)
    (s t : State Bridges)
    → lookup key s.own ≡ some b
    → lookup key.client_if_index b.attached ≡ some tt
    → lookup j b.attached ≡ some tt
    → j ≢ key.client_if_index
    → server ≢ some j
    → server ≢ some key.client_if_index
    → del_bridge v key server (some b) s ≡ (ok tt, t)
    → Survives key j b t.own
unfolding del_bridge
del_bridge_shared v key server j b s t h hc hj jc sj sc e =
    let (b', s1, e1, r1) = >>=-eq-ok _ (detach_server v key b server) s e in
    let (there, id) = detach_keeps v key b b' server j s s1 h hj sj e1 in
    let (client, _) = detach_keeps v key b b' server key.client_if_index s s1 h hc sc e1 in
    let many = two_entries j key.client_if_index b'.attached tt tt there client jc in
    let one : (length b'.attached == 1) ≡ false = ground arith in
    record {
      bridge = b';
      stored = finish_stored v key b' s1 t (rw one at r1);
      same_id = id;
      there = there;
    }

-- delBridgeDomain of one connection leaves the bridge domain in the map, with its VPP identifier and
-- with the interface `j` of another server in it, when it returns with no error.
pub del_bridge_domain-Survives :
    (v : Vpp) (vlan c j : ℕ) (b : BridgeDomain) (s t : State Bridges)
    → s.client.if_index ≡ some c
    → lookup (make_key vlan c) s.own ≡ some b
    → lookup c b.attached ≡ some tt
    → lookup j b.attached ≡ some tt
    → j ≢ c
    → s.server.if_index ≢ some j
    → s.server.if_index ≢ some c
    → del_bridge_domain v vlan s ≡ (ok tt, t)
    → Survives (make_key vlan c) j b t.own
unfolding del_bridge_domain
del_bridge_domain-Survives v vlan c j b s t hi h hc hj jc sj sc e =
    del_bridge_shared v (make_key vlan c) s.server.if_index j b s t h hc hj jc sj sc
      (simp (hi, h) at e)
