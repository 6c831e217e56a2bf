-- ===== src/VxlanMechanism/Cycle.antt =====
-- A tunnel is made, kept and removed: what one pass of addDel sends and stores.
use sdk_vpp.Prelude.{
  ℕ, ◌≡◌, refl, ap, sym, ◌∙◌, Bool, true, false, Option, none, some, List, ◌∷◌, arith,
  if◌then◌else◌,
}
use mathlib.Core.Path.{ap₂}
use sdk_vpp.Types.{is_v6, to_vpp_address}
use sdk_vpp.Vpp.{Vpp, Error, Call, add_node_next, vxlan_add_del_tunnel_v3}
use sdk_vpp.Exec.{State, M, ok, throw, side, >>=-eq-ok, wrapped_send-eq-ok, wrapping, send}
use sdk_vpp.Chain.{Mechanism, Connection, to_mechanism}
use sdk_vpp.Metadata.Ifindex
use sdk_vpp.VxlanMechanism.{
  VxlanApi, is_nil, next_node, tunnel_of, settle, send_tunnel, change_tunnel, add_del_stored,
  add_del_mechanism, add_del,
}

-- AddNodeNext: packets that the tunnel's node for the IP version decapsulates go on to ethernet-input.
abbrev pub node_call : VxlanApi → Mechanism → Call
node_call api m =
    add_node_next (if is_v6 (api.src_ip m) then "vxlan6-input" else "vxlan4-input") "ethernet-input"

-- VxlanAddDelTunnelV3 for the mechanism's ends and VNI: the tunnel leads from the mechanism's SrcIP to its
-- DstIP for the client and back for the server, with the port of its own end twice; VPP chooses the
-- instance.
abbrev pub tunnel_call : VxlanApi → Bool → Bool → ℕ → Mechanism → Call
tunnel_call api is_add true next_index m = vxlan_add_del_tunnel_v3 (record {
  is_add = is_add;
  instance_id = 4294967295;
  src_address = to_vpp_address (api.src_ip m);
  dst_address = to_vpp_address (api.dst_ip m);
  decap_next_index = next_index;
  vni = api.vni m;
  src_port = api.src_port m;
  dst_port = api.src_port m;
})
tunnel_call api is_add false next_index m = vxlan_add_del_tunnel_v3 (record {
  is_add = is_add;
  instance_id = 4294967295;
  src_address = to_vpp_address (api.dst_ip m);
  dst_address = to_vpp_address (api.src_ip m);
  decap_next_index = next_index;
  vni = api.vni m;
  src_port = api.dst_port m;
  dst_port = api.dst_port m;
})

tunnel_of_lem :
    (api : VxlanApi) (m : Mechanism) (is_client is_add : Bool) (n : ℕ)
    → vxlan_add_del_tunnel_v3 (tunnel_of api is_add is_client m n)
      ≡ tunnel_call api is_add is_client n m
unfolding tunnel_of
tunnel_of_lem api m true is_add n = refl
tunnel_of_lem api m false is_add n = refl

module _ {S : Type 0} (api : VxlanApi) (v : Vpp) (is_client : Bool) (m : Mechanism) where
  -- The two messages, newest first, the second with VPP's reply to the first, and what is stored then
  pub record Sent (is_add : Bool) (s t : State S) : Type 0 where
    pub calls :
        t.calls
        ≡ tunnel_call api is_add is_client (v.index s.calls (node_call api m)) m
          ∷ node_call api m
          ∷ s.calls
    pub stored : (side is_client t).if_index ≡ (
        if is_add
        then some (
            v.index
              (node_call api m ∷ s.calls)
              (tunnel_call api is_add is_client (v.index s.calls (node_call api m)) m))
        else none)

  settled :
      (is_client is_add : Bool) (i : ℕ) (s t : State S)
      → settle api v is_client is_add i s ≡ (ok tt, t)
      → (t.calls ≡ s.calls) × ((side is_client t).if_index ≡ (if is_add then some i else none))
  unfolding settle Ifindex.store Ifindex.delete
  settled true true i s t h = ground arith
  settled true false i s t h = ground arith
  settled false true i s t h = ground arith
  settled false false i s t h = ground arith

  send_tunnel-Sent :
      (is_add : Bool) (s t : State S)
      → send_tunnel api v is_client is_add m s ≡ (ok tt, t)
      → Sent is_add s t
  unfolding send_tunnel next_node
  send_tunnel-Sent is_add s t h =
      let node = node_call api m in
      let told = λ (n : ℕ). vxlan_add_del_tunnel_v3 (tunnel_of api is_add is_client m n) in
      let (n, u, first, rest) =
        >>=-eq-ok _ (wrapping "vppapi AddNodeNext returned error" (send v node)) s h in
      let (i, w, second, done) =
        >>=-eq-ok (settle api v is_client is_add)
          (wrapping "vppapi VxlanAddDelTunnelV3 returned error" (send v (told n))) u rest in
      let (u', n') = wrapped_send-eq-ok "vppapi AddNodeNext returned error" v node s u n first in
      let (w', i') =
        wrapped_send-eq-ok "vppapi VxlanAddDelTunnelV3 returned error" v (told n) u w i second in
      let (calls, stored) = settled is_client is_add i w t done in
      let before : u.calls ≡ node ∷ s.calls = ap (λ (x : State S). x.calls) u' in
      let tunnel : told n ≡ tunnel_call api is_add is_client (v.index s.calls node) m =
        tunnel_of_lem api m is_client is_add n
        ∙ ap (λ (k : ℕ). tunnel_call api is_add is_client k m) n' in
      record {
        calls =
            calls ∙ ap (λ (x : State S). x.calls) w' ∙ ap₂ (λ (c : Call) l. c ∷ l) tunnel before;
        stored =
            stored
            ∙ ap (λ (j : ℕ). if is_add then some j else none)
                (i' ∙ ap₂ (λ (l : List Call) c. v.index l c) before tunnel);
      }

  guarded_ok :
      (b c : Bool) (run : M S Error (Unit {0})) (s t : State S)
      → (if b
            then throw (Error.new "no vxlan SrcIP not provided")
            else if c
            then throw (Error.new "no vxlan DstIP not provided")
            else run)
          s
        ≡ (ok tt, t)
      → run s ≡ (ok tt, t)
  guarded_ok b c run s t h = ground arith

  pub change_tunnel-Sent :
      (is_add : Bool) (s t : State S)
      → change_tunnel api v is_client is_add m s ≡ (ok tt, t)
      → Sent is_add s t
  unfolding change_tunnel
  change_tunnel-Sent is_add s t h = send_tunnel-Sent is_add s t (
      guarded_ok (is_nil (api.src_ip m)) (is_nil (api.dst_ip m))
        (send_tunnel api v is_client is_add m) s t h)

  pub add_del_runs :
      (is_add : Bool) (conn : Connection) (s : State S)
      → to_mechanism api.is_mechanism conn.mechanism ≡ some m
      → add_del api v is_client is_add conn s
        ≡ add_del_stored api v is_client is_add m ((side is_client s).if_index) s
  unfolding add_del add_del_mechanism Ifindex.load
  add_del_runs is_add conn s kind = simp kind refl

  pub add_absent :
      (o : Option ℕ) (s : State S)
      → o ≡ none
      → add_del_stored api v is_client true m o s ≡ change_tunnel api v is_client true m s
  unfolding add_del_stored
  add_absent none s h = refl
  add_absent (some i) s h = cc

  pub del_present :
      (o : Option ℕ) (i : ℕ) (s : State S)
      → o ≡ some i
      → add_del_stored api v is_client false m o s ≡ change_tunnel api v is_client false m s
  unfolding add_del_stored
  del_present none i s h = cc
  del_present (some j) i s h = refl

-- A connection without a stored interface whose mechanism is of this type: when addDel made the tunnel
-- and addDel removed it, then each sent VPP the next node and then the tunnel with the ends, the VNI
-- and its own end's port of the mechanism and with VPP's reply to the first message, once as an addition and
-- once as a deletion; in between the interface that VPP replied is stored, and none is at the end.
pub add_del-undone :
    {S : Type 0} (api : VxlanApi) (v : Vpp) (is_client : Bool) (conn : Connection) (m : Mechanism)
    (s t u : State S)
    → to_mechanism api.is_mechanism conn.mechanism ≡ some m
    → (side is_client s).if_index ≡ none
    → add_del api v is_client true conn s ≡ (ok tt, t)
    → add_del api v is_client false conn t ≡ (ok tt, u)
    → Sent api v is_client m true s t × Sent api v is_client m false t u
add_del-undone api v is_client conn m s t u kind absent h k =
    let added =
      sym
        (add_del_runs api v is_client m true conn s kind ∙ add_absent api v is_client m _ s absent)
      ∙ h in
    let made = change_tunnel-Sent api v is_client m true s t added in
    let deleted =
      sym (
        add_del_runs api v is_client m false conn t kind
        ∙ del_present api v is_client m _ _ t made.stored)
      ∙ k in
    (made, change_tunnel-Sent api v is_client m false t u deleted)
