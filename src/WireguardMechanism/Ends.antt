-- ===== src/WireguardMechanism/Ends.antt =====
-- The server's two elements together: the interface of the inner one gets the peer of the outer one.
use sdk_vpp.Prelude.{
  ℕ, ◌≡◌, ◌⊎◌, inl, inr, ap, sym, ◌∙◌, refl, Bool, true, false, Option, none, some, List, [], ◌∷◌,
  String, arith, if◌then◌else◌,
}
use mathlib.Core.Path.{ap₂}
use sdk_vpp.Prelude.Keys.{string_eq}
use sdk_vpp.Prelude.Assoc.{Map, lookup, lookup-insert_self}
use sdk_vpp.Types.{Ip, address_ip4, address_ip6, union_zero, to_vpp_address}
use sdk_vpp.Vpp.{Vpp, Error, Call, wireguard_peer_add}
use sdk_vpp.Exec.{
  State, Outcome, ok, side, pure, wrapping, send, >>=-eq-ok, try-eq-ok, pure-eq-ok,
  wrapped_send-eq-ok,
}
use sdk_vpp.Chain.{
  Connection, Mechanism, Request, Refusal, Next, Payload, request_then-eq-ok, close_after-never_ok,
  payload_of, to_mechanism,
}
use sdk_vpp.Metadata.Ifindex
use sdk_vpp.Metadata.Peer
use sdk_vpp.WireguardMechanism.{
  WireguardApi, create_with, with_claim, answer, server_request, server_close,
}
use sdk_vpp.WireguardMechanism.Peer.{get_key, peer_of, add_peer, create_on, create_unless_stored}
use sdk_vpp.WireguardMechanism.Peer as PeerElement
use sdk_vpp.WireguardMechanism.Keys.{Created, creation, create-Created}

-- Store of a peer, on either side
store_lem :
    {S : Type 0} (b : Bool) (k : String) (j : ℕ) (u t : State S)
    → Peer.store {E = Error} b k j u ≡ (ok tt, t)
    → (t.calls ≡ u.calls)
      × (lookup k (side b t).peers ≡ some j)
      × ((side b t).public_key ≡ (side b u).public_key)
      × ((side b t).if_index ≡ (side b u).if_index)
unfolding Peer.store
store_lem true k j u t h =
    simp (← (ap (λ (q : Outcome Error (Unit {0}) × State _). q.1) h))
      (refl, lookup-insert_self k j u.client.peers, refl, refl)
store_lem false k j u t h =
    simp (← (ap (λ (q : Outcome Error (Unit {0}) × State _). q.1) h))
      (refl, lookup-insert_self k j u.server.peers, refl, refl)

-- WireguardPeerAdd: a peer with the given key on an interface, for 0.0.0.0/0 and ::/0; the other end of
-- the tunnel is the mechanism's destination for the client, its source for the server.
abbrev pub peering : WireguardApi → Bool → ℕ → List ℕ → Mechanism → Call
peering api is_client i key m = wireguard_peer_add (record {
  sw_if_index = i;
  public_key = key;
  persistent_keepalive = 10;
  n_allowed_ips = 2;
  allowed_ips =
      record { address = record { af = address_ip4; un = union_zero }; len = 0 }
      ∷ record { address = record { af = address_ip6; un = union_zero }; len = 0 }
      ∷ [];
  port = if is_client then api.dst_port m else api.src_port m;
  endpoint = to_vpp_address (if is_client then api.dst_ip m else api.src_ip m);
})

module _ {S : Type 0} (api : WireguardApi) (v : Vpp) (is_client : Bool) (m : Mechanism)
    (i : ℕ) where
  -- A peer with the key of the mechanism was added to the interface and its index is stored.
  pub record Added (s t : State S) : Type 0 where
    pub key : List ℕ
    pub parsed : api.parse_key (get_key api m is_client) ≡ inr key
    pub calls : t.calls ≡ peering api is_client i key m ∷ s.calls
    pub stored :
        lookup (get_key api m is_client) (side is_client t).peers
        ≡ some (v.index s.calls (peering api is_client i key m))
    pub stored_key : (side is_client t).public_key ≡ (side is_client s).public_key
    pub stored_index : (side is_client t).if_index ≡ (side is_client s).if_index

  add_peer-Added :
      (parsed : Error ⊎ List ℕ) (s t : State S)
      → api.parse_key (get_key api m is_client) ≡ parsed
      → add_peer api v is_client m i parsed s ≡ (ok tt, t)
      → Added s t
  unfolding add_peer peer_of
  add_peer-Added (inl e) s t p h = cc (ap (λ (q : Outcome Error (Unit {0}) × State S). q.0) h)
  add_peer-Added (inr key) s t p h =
      let call = peering api is_client i key m in
      let (j, u, sent, done) =
        >>=-eq-ok (Peer.store is_client (get_key api m is_client))
          (wrapping "vppapi WireguardPeerAdd returned error" (send v call)) s h in
      let (u', j') =
        wrapped_send-eq-ok "vppapi WireguardPeerAdd returned error" v call s u j sent in
      let (calls, stored, stored_key, stored_index) =
        store_lem is_client (get_key api m is_client) j u t done in
      record {
        key = key;
        parsed = p;
        calls = calls ∙ ap (λ (x : State S). x.calls) u';
        stored = stored ∙ ap some j';
        stored_key = stored_key ∙ ap (λ (x : State S). (side is_client x).public_key) u';
        stored_index = stored_index ∙ ap (λ (x : State S). (side is_client x).if_index) u';
      }

  -- What createPeer does when there is an interface and no such peer
  pub create_peer-Added :
      (s t : State S)
      → lookup (get_key api m is_client) (side is_client s).peers ≡ none
      → (side is_client s).if_index ≡ some i
      → PeerElement.create_with api v is_client (some m) s ≡ (ok tt, t)
      → Added s t
  unfolding PeerElement.create_with create_unless_stored create_on Ifindex.load Peer.load
  create_peer-Added s t absent interface h =
      let run =
        ap (λ (o : Option ℕ). create_on api v is_client m o s) (sym interface)
        ∙ ap (λ (o : Option ℕ). create_unless_stored api v is_client m o s) (sym absent)
        ∙ h in
      add_peer-Added (api.parse_key (get_key api m is_client)) s t refl run

kind_if :
    (b : Bool) (n m : Mechanism) → (if b then some n else none) ≡ some m → (b ≡ true) × (n ≡ m)
kind_if b n m h = ground arith

to_mechanism-kind :
    (is_mechanism : Mechanism → Bool) (o : Option Mechanism) (m : Mechanism)
    → to_mechanism is_mechanism o ≡ some m
    → is_mechanism m ≡ true
to_mechanism-kind is_mechanism none m h = cc
to_mechanism-kind is_mechanism (some n) m h =
    let (kind, same) = kind_if (is_mechanism n) n m h in sym (ap is_mechanism same) ∙ kind

-- The mechanism of the connection that the server returns
abbrev pub answered : WireguardApi → List ℕ → Mechanism → Mechanism
answered api key m = api.set_dst_public_key (api.public_key key) m

module _ {S : Type 0} (api : WireguardApi) (v : Vpp) (next : Next S) (tunnel_ip : Ip)
    (key : List ℕ) where
  -- The element and the rest of the chain behind it, as the peer's element sees them
  unfoldable pub interface_element : Next S
  unfolding server_request server_close
  interface_element = record {
    request = server_request api v next tunnel_ip key;
    close = server_close api v next;
  }

  abbrev pub claimed : Request → Request
  unfolding with_claim
  claimed r = record r { connection = with_claim api tunnel_ip r.connection }

  server_request_ip :
      (r : Request) (c : Connection) (m : Mechanism) (s : State S)
      → payload_of r.connection ≡ Payload.ip
      → next.request (claimed r) s ≡ (ok c, s)
      → to_mechanism api.is_mechanism c.mechanism ≡ some m
      → server_request api v next tunnel_ip key r s ≡ answer api v next key c (some m) s
  unfolding server_request
  server_request_ip r c m s payload passes kind = simp payload (simp passes (simp kind refl))

  server_request-Created :
      (r : Request) (c d : Connection) (m : Mechanism) (s u : State S)
      → payload_of r.connection ≡ Payload.ip
      → next.request (claimed r) s ≡ (ok c, s)
      → to_mechanism api.is_mechanism c.mechanism ≡ some m
      → s.server.public_key ≡ none
      → server_request api v next tunnel_ip key r s ≡ (ok d, u)
      → Created api v false key m (api.public_key key) s u
        × (d ≡ record c { mechanism = some (answered api key m) })
  unfolding answer
  server_request-Created r c d m s u payload passes kind absent h =
      let run = sym (server_request_ip r c m s payload passes kind) ∙ h in
      let make = create_with api v false key (to_mechanism api.is_mechanism c.mechanism) in
      let (pk, w, ran, done) =
        try-eq-ok (λ k. pure (record c { mechanism = some (api.set_dst_public_key k m) })) _ make s
          (λ e x. close_after-never_ok (server_close api v next) c e x) run in
      let ran' = ap (λ (o : Option Mechanism). create_with api v false key o s) (sym kind) ∙ ran in
      let made = create-Created api v false key m pk s w absent ran' in
      let (returned, there) =
        pure-eq-ok {E = Refusal} (record c { mechanism = some (api.set_dst_public_key pk m) }) d w u
          done in
      let kept : Created api v false key m (api.public_key key) s w = record {
        keyed = refl;
        calls = made.calls;
        stored_key = made.stored_key;
        stored = made.stored;
        peers = made.peers;
      } in
      (
        simp (← there) kept,
        sym returned
            ∙ ap (λ (k : String). record c { mechanism = some (api.set_dst_public_key k m) })
                made.keyed,
      )

  -- The server's peer element in front of its wireguard element, without the mtu element between them:
  -- when Request of an IP connection succeeded, with the rest of the chain granting a connection of this
  -- mechanism and changing nothing, and with no key and no such peer stored, then VPP was asked for one
  -- interface with the generated private key, the DstPort and the DstIP, and then for one peer on that
  -- interface, with the parsed SrcPublicKey, the SrcPort and the SrcIP of the mechanism; the interface,
  -- its public key and the peer are stored, and the connection that is returned names the interface's
  -- public key to the client.
  pub server_request-peers :
      (r : Request) (c c' : Connection) (m : Mechanism) (s t : State S)
      → payload_of r.connection ≡ Payload.ip
      → next.request (claimed r) s ≡ (ok c, s)
      → to_mechanism api.is_mechanism c.mechanism ≡ some m
      → s.server.public_key ≡ none
      → lookup (api.src_public_key m) s.server.peers ≡ none
      → PeerElement.server_request api v interface_element r s ≡ (ok c', t)
      → let i = v.index s.calls (creation api false key m) in
        (peer_key : List ℕ) × (api.parse_key (api.src_public_key m) ≡ inr peer_key)
        × (t.calls
            ≡ peering api false i peer_key (answered api key m)
              ∷ creation api false key m
              ∷ s.calls)
        × (t.server.if_index ≡ some i)
        × (t.server.public_key ≡ some (api.public_key key))
        × (lookup (api.src_public_key m) t.server.peers
            ≡ some (
                v.index
                  (creation api false key m ∷ s.calls)
                  (peering api false i peer_key (answered api key m))))
        × (c'.mechanism ≡ some (answered api key m))
        × (api.dst_public_key (answered api key m) ≡ api.public_key key)
  unfolding PeerElement.request get_key server_request interface_element
  server_request-peers r c c' m s t payload passes kind absent no_peer h =
      let i = v.index s.calls (creation api false key m) in
      let m' = answered api key m in
      let work = λ (conn : Connection).
        PeerElement.create_with api v false (to_mechanism api.is_mechanism conn.mechanism) in
      let (d, u, asked, worked, same) =
        request_then-eq-ok work (PeerElement.server_close api v interface_element) interface_element
          r s t c' h in
      let (made, named) = server_request-Created r c d m s u payload passes kind absent asked in
      let is_one : api.is_mechanism m' ≡ true =
        api.is_mechanism-set_dst_public_key _ m
        ∙ to_mechanism-kind api.is_mechanism c.mechanism m kind in
      let kind' : to_mechanism api.is_mechanism d.mechanism ≡ some m' =
        simp named (simp is_one refl) in
      let key' : get_key api m' false ≡ api.src_public_key m =
        api.src_public_key-set_dst_public_key _ m in
      let run : PeerElement.create_with api v false (some m') u ≡ (ok tt, t) =
        ap (λ (o : Option Mechanism). PeerElement.create_with api v false o u) (sym kind')
        ∙ worked in
      let none_yet : lookup (get_key api m' false) u.server.peers ≡ none =
        ap₂ (λ (k : String) (ps : Map String ℕ). lookup k ps) key' made.peers ∙ no_peer in
      let added = create_peer-Added api v false m' i u t none_yet made.stored run in
      (
        added.key,
        ap api.parse_key (sym key') ∙ added.parsed,
        added.calls ∙ ap (λ (l : List Call). peering api false i added.key m' ∷ l) made.calls,
        added.stored_index ∙ made.stored,
        added.stored_key ∙ made.stored_key,
        ap (λ (k : String). lookup k t.server.peers) (sym key')
            ∙ added.stored
            ∙ ap (λ (l : List Call). some (v.index l (peering api false i added.key m')))
                made.calls,
        ap (λ (x : Connection). x.mechanism) (sym same ∙ named),
        api.dst_public_key-set_dst_public_key _ m,
      )
