-- ===== src/WireguardMechanism/Keys.antt =====
-- The interface that is made, and the public key that the client offers for it.
use sdk_vpp.Prelude.{
  ℕ, ◌≡◌, ap, sym, ◌∙◌, refl, Bool, true, false, Option, none, some, List, ◌∷◌, String, arith,
  if◌then◌else◌,
}
use sdk_vpp.Types.{Ip, to_vpp_address}
use sdk_vpp.Vpp.{Vpp, Error, Call, wireguard_interface_create}
use sdk_vpp.Exec.{
  State, M, Outcome, ok, side, pure, wrapping, send, ◌>>=◌, ◌>>◌, >>=-eq-ok, wrapped_send-eq-ok,
}
use sdk_vpp.Chain.{
  Connection, Mechanism, Request, Next, Payload, request_then, request_then-passed, payload_of,
  mechanism_of, to_mechanism,
}
use sdk_vpp.Metadata.Ifindex
use sdk_vpp.Metadata.Wireguard
use sdk_vpp.WireguardMechanism.{
  WireguardApi, interface_of, create_unless_stored, create_with, offered_key, offer, with_offer,
  client_request, client_close,
}

-- WireguardInterfaceCreate: VPP generates no key and chooses the instance; the interface has the given
-- private key, and its end of the tunnel is the mechanism's source for the client, its destination
-- for the server.
abbrev pub creation : WireguardApi → Bool → List ℕ → Mechanism → Call
creation api is_client key m = wireguard_interface_create false (record {
  user_instance = 4294967295;
  private_key = key;
  port = if is_client then api.src_port m else api.dst_port m;
  src_ip = to_vpp_address (if is_client then api.src_ip m else api.dst_ip m);
})

module _ {S : Type 0} (public_key : String) where
  abbrev store_created : Bool → ℕ → M S Error String
  unfolding Ifindex.store Wireguard.store
  store_created is_client i = do
    Ifindex.store is_client i
    Wireguard.store is_client public_key
    pure public_key

  store_created_lem :
      (is_client : Bool) (i : ℕ) (pk : String) (u t : State S)
      → store_created is_client i u ≡ (ok pk, t)
      → (pk ≡ public_key)
        × (t.calls ≡ u.calls)
        × ((side is_client t).public_key ≡ some public_key)
        × ((side is_client t).if_index ≡ some i)
        × ((side is_client t).peers ≡ (side is_client u).peers)
  unfolding Ifindex.store Wireguard.store
  store_created_lem true i pk u t h =
      (ground arith, ground arith, ground arith, ground arith, ground arith)
  store_created_lem false i pk u t h =
      (ground arith, ground arith, ground arith, ground arith, ground arith)

module _ {S : Type 0} (api : WireguardApi) (v : Vpp) (is_client : Bool) (key : List ℕ)
    (m : Mechanism) where
  -- What creates the interface leaves
  pub record Created (pk : String) (s t : State S) : Type 0 where
    pub keyed : pk ≡ api.public_key key
    pub calls : t.calls ≡ creation api is_client key m ∷ s.calls
    pub stored_key : (side is_client t).public_key ≡ some (api.public_key key)
    pub stored : (side is_client t).if_index ≡ some (v.index s.calls (creation api is_client key m))
    pub peers : (side is_client t).peers ≡ (side is_client s).peers

  pub create-Created :
      (pk : String) (s t : State S)
      → (side is_client s).public_key ≡ none
      → create_with api v is_client key (some m) s ≡ (ok pk, t)
      → Created pk s t
  unfolding create_with create_unless_stored interface_of Wireguard.load Ifindex.store
      Wireguard.store
  create-Created pk s t absent h =
      let call = creation api is_client key m in
      let run =
        ap (λ (o : Option String). create_unless_stored api v is_client key m o s) (sym absent)
        ∙ h in
      let (i, u, sent, stored) =
        >>=-eq-ok (store_created (api.public_key key) is_client)
          (wrapping "vppapi WireguardInterfaceCreate returned error" (send v call)) s run in
      let (u', i') =
        wrapped_send-eq-ok "vppapi WireguardInterfaceCreate returned error" v call s u i sent in
      let (keyed, calls, stored_key, stored_index, peers) =
        store_created_lem (api.public_key key) is_client i pk u t stored in
      record {
        keyed = keyed;
        calls = calls ∙ ap (λ (x : State S). x.calls) u';
        stored_key = stored_key;
        stored = stored_index ∙ ap some i';
        peers = peers ∙ ap (λ (x : State S). (side is_client x).peers) u';
      }

module _ {S : Type 0} (api : WireguardApi) (v : Vpp) (next : Next S) (tunnel_ip : Ip)
    (key : List ℕ) where
  client_request_ip :
      (r : Request) (s : State S)
      → payload_of r.connection ≡ Payload.ip
      → client_request api v next tunnel_ip key r s
        ≡ request_then
            (λ conn.
              create_with api v true key (to_mechanism api.is_mechanism conn.mechanism) >>= λ pk.
              pure tt)
            (client_close api v next)
            next
            (with_offer api tunnel_ip key r)
            s
  unfolding client_request
  client_request_ip r s payload = simp payload refl

  offered :
      (r : Request)
      → api.src_public_key (offer api tunnel_ip key r)
        ≡ offered_key api key (to_mechanism api.is_mechanism (mechanism_of r.connection))
  unfolding offer
  offered r =
      api.src_public_key-set_src_port _ _
      ∙ api.src_public_key-set_src_ip _ _
      ∙ api.src_public_key-set_src_public_key _ _

  offered_new : (o : Option Mechanism) → o ≡ none → offered_key api key o ≡ api.public_key key
  unfolding offered_key
  offered_new none h = refl
  offered_new (some m) h = cc

  offered_old :
      (o : Option Mechanism) (old : Mechanism)
      → o ≡ some old
      → offered_key api key o ≡ api.src_public_key old
  unfolding offered_key
  offered_old none old h = cc
  offered_old (some m) old h = ground arith

  -- When the client's Request of an IP connection without a stored key succeeded, with the rest of the
  -- chain granting a connection whose mechanism is of the wireguard type and changing nothing, then
  -- exactly one interface was created, with the generated private key and the SrcPort and SrcIP of the
  -- granted mechanism, and its index and public key are stored. The public key that was
  -- offered to the server is that of the interface when the request named no wireguard mechanism;
  -- when it named one, the key of that mechanism was offered instead, whatever the interface's is.
  pub client_request-creates :
      (r : Request) (c c' : Connection) (m : Mechanism) (s t : State S)
      → payload_of r.connection ≡ Payload.ip
      → next.request (with_offer api tunnel_ip key r) s ≡ (ok c, s)
      → to_mechanism api.is_mechanism c.mechanism ≡ some m
      → s.client.public_key ≡ none
      → client_request api v next tunnel_ip key r s ≡ (ok c', t)
      → (t.calls ≡ creation api true key m ∷ s.calls)
        × (t.client.if_index ≡ some (v.index s.calls (creation api true key m)))
        × (t.client.public_key ≡ some (api.public_key key))
        × (to_mechanism api.is_mechanism (mechanism_of r.connection) ≡ none
            → api.src_public_key (offer api tunnel_ip key r) ≡ api.public_key key)
        × ((old : Mechanism)
            → to_mechanism api.is_mechanism (mechanism_of r.connection) ≡ some old
            → api.src_public_key (offer api tunnel_ip key r) ≡ api.src_public_key old)
  client_request-creates r c c' m s t payload passes kind absent h =
      let work = λ (conn : Connection).
        create_with api v true key (to_mechanism api.is_mechanism conn.mechanism) >>= λ pk.
        pure tt in
      let close' = client_close api v next in
      let r' = with_offer api tunnel_ip key r in
      let run = sym (client_request_ip r s payload) ∙ h in
      let (same, worked) = request_then-passed work close' next r' s t c c' passes run in
      let (pk, u, ran, done) =
        >>=-eq-ok (λ _. pure tt)
          (create_with api v true key (to_mechanism api.is_mechanism c.mechanism)) s worked in
      let there : u ≡ t = ap (λ (q : Outcome Error (Unit {0}) × State S). q.1) done in
      let ran' : create_with api v true key (some m) s ≡ (ok pk, t) =
        ap (λ (o : Option Mechanism). create_with api v true key o s) (sym kind)
        ∙ ran
        ∙ ap (λ (x : State S). pure {S = S} {E = Error} pk x) there in
      let made = create-Created api v true key m pk s t absent ran' in
      (
        made.calls,
        made.stored,
        made.stored_key,
        λ fresh.
            offered r
            ∙ offered_new (to_mechanism api.is_mechanism (mechanism_of r.connection)) fresh,
        λ old named.
            offered r
            ∙ offered_old (to_mechanism api.is_mechanism (mechanism_of r.connection)) old named,
      )
