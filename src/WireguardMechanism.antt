-- ===== src/WireguardMechanism.antt =====
-- pkg/networkservice/mechanisms/wireguard: the wireguard interface of a connection with an IP payload.
-- The chains that the constructors build are not modelled; Peer has the element that stands before
-- this one in them.
--
-- The typed view of a mechanism's parameters is the API's and the keys are wgtypes': the parameter
-- `WireguardApi`, with the laws of the setters that the theorems use. GeneratePrivateKey is not
-- deterministic: the key that it returns is an argument of Request. A key is held by its bytes.
pub mod Peer
pub mod Keys
pub mod Ends
pub mod Tests
use sdk_vpp.Prelude.{
  ℕ, String, ◌≡◌, ◌⊎◌, Bool, true, false, Option, none, some, List, [], ◌∷◌, ◌++◌, if◌then◌else◌,
}
use sdk_vpp.Types.{Ip, to_vpp_address}
use sdk_vpp.Vpp.{
  Vpp, Error, WireguardInterface, wireguard_interface_create, wireguard_interface_delete,
  max_uint32,
}
use sdk_vpp.Exec.{M, ◌>>=◌, ◌>>◌, pure, try, wrapping, ignoring, send, send_}
use sdk_vpp.Chain.{
  Mechanism, Connection, Request, Refusal, Next, refuse, close_after, request_then, to_mechanism,
  mechanism_of, payload_of, is_ip,
}
use sdk_vpp.Metadata.Ifindex
use sdk_vpp.Metadata.Wireguard

pub record WireguardApi : Type 0 where
  pub is_mechanism : Mechanism → Bool
  pub src_ip : Mechanism → Ip
  pub dst_ip : Mechanism → Ip
  pub src_port : Mechanism → ℕ
  pub dst_port : Mechanism → ℕ
  pub src_public_key : Mechanism → String
  pub dst_public_key : Mechanism → String
  pub set_src_ip : Ip → Mechanism → Mechanism
  pub set_dst_ip : Ip → Mechanism → Mechanism
  pub set_src_port : ℕ → Mechanism → Mechanism
  pub set_dst_port : ℕ → Mechanism → Mechanism
  pub set_src_public_key : String → Mechanism → Mechanism
  pub set_dst_public_key : String → Mechanism → Mechanism
  pub mechanism_type : String
  pub public_key : List ℕ → String
  pub parse_key : String → Error ⊎ List ℕ
  pub src_public_key-set_src_public_key :
      (k : String) (m : Mechanism) → src_public_key (set_src_public_key k m) ≡ k
  pub src_public_key-set_src_ip :
      (ip : Ip) (m : Mechanism) → src_public_key (set_src_ip ip m) ≡ src_public_key m
  pub src_public_key-set_src_port :
      (port : ℕ) (m : Mechanism) → src_public_key (set_src_port port m) ≡ src_public_key m
  pub dst_public_key-set_dst_public_key :
      (k : String) (m : Mechanism) → dst_public_key (set_dst_public_key k m) ≡ k
  pub src_public_key-set_dst_public_key :
      (k : String) (m : Mechanism) → src_public_key (set_dst_public_key k m) ≡ src_public_key m
  pub is_mechanism-set_dst_public_key :
      (k : String) (m : Mechanism) → is_mechanism (set_dst_public_key k m) ≡ is_mechanism m

abbrev pub wireguard_default_port : ℕ
wireguard_default_port = 51820

module _ (api : WireguardApi) where
  -- The server's interface is the DstIP end of the mechanism.
  unfoldable pub interface_of : Bool → List ℕ → Mechanism → WireguardInterface
  unfolding to_vpp_address
  interface_of is_client private_key m = record {
    user_instance = max_uint32;
    private_key = private_key;
    port = if is_client then api.src_port m else api.dst_port m;
    src_ip = to_vpp_address (if is_client then api.src_ip m else api.dst_ip m);
  }

  module _ {S : Type 0} (v : Vpp) (is_client : Bool) where
    -- On the public key that is stored
    unfoldable pub create_unless_stored : List ℕ → Mechanism → Option String → M S Error String
    unfolding interface_of Ifindex.store Wireguard.store
    create_unless_stored private_key m (some public_key) = pure public_key
    create_unless_stored private_key m none = do
      i ←
          wrapping "vppapi WireguardInterfaceCreate returned error"
            (send v (wireguard_interface_create false (interface_of is_client private_key m)))
      Ifindex.store is_client i
      Wireguard.store is_client (api.public_key private_key)
      pure (api.public_key private_key)

    unfoldable pub create_with : List ℕ → Option Mechanism → M S Error String
    unfolding create_unless_stored Wireguard.load
    create_with private_key none = pure ""
    create_with private_key (some m) = do
      stored ← Wireguard.load is_client
      create_unless_stored private_key m stored

    abbrev pub create_interface : List ℕ → Connection → M S Error String
    create_interface private_key conn =
        create_with private_key (to_mechanism api.is_mechanism conn.mechanism)

    unfoldable pub del_stored : Option ℕ → M S Error (Unit {0})
    del_stored none = pure tt
    del_stored (some i) =
        wrapping "vppapi WireguardInterfaceDelete returned error"
          (send_ v (wireguard_interface_delete i))

    unfoldable pub del_keyed : Option String → M S Error (Unit {0})
    unfolding del_stored Ifindex.load_and_delete
    del_keyed none = pure tt
    del_keyed (some public_key) = do i ← Ifindex.load_and_delete is_client; del_stored i

    unfoldable pub del_with : Option Mechanism → M S Error (Unit {0})
    unfolding del_keyed Wireguard.load_and_delete
    del_with none = pure tt
    del_with (some m) = do stored ← Wireguard.load_and_delete is_client; del_keyed stored

    abbrev pub del_interface : Connection → M S Error (Unit {0})
    del_interface conn = del_with (to_mechanism api.is_mechanism conn.mechanism)

  -- The key of a mechanism that is there already, or the new one
  unfoldable pub offered_key : List ℕ → Option Mechanism → String
  offered_key private_key none = api.public_key private_key
  offered_key private_key (some m) = api.src_public_key m

  unfoldable pub offer : Ip → List ℕ → Request → Mechanism
  unfolding offered_key
  offer tunnel_ip private_key r = api.set_src_port wireguard_default_port (
      api.set_src_ip tunnel_ip (
        api.set_src_public_key
          (offered_key private_key (to_mechanism api.is_mechanism (mechanism_of r.connection)))
          (record { type_name = api.mechanism_type; parameters = [] })))

  abbrev pub with_offer : Ip → List ℕ → Request → Request
  unfolding offer
  with_offer tunnel_ip private_key r = record r {
    mechanism_preferences = r.mechanism_preferences ++ offer tunnel_ip private_key r ∷ [];
  }

  abbrev pub claim_mechanism : Ip → Mechanism → Mechanism
  claim_mechanism tunnel_ip m =
      if api.is_mechanism m
      then api.set_dst_port wireguard_default_port (api.set_dst_ip tunnel_ip m)
      else m

  -- The server writes its end into the mechanism of the request.
  unfoldable pub with_claim : Ip → Option Connection → Option Connection
  with_claim tunnel_ip none = none
  with_claim tunnel_ip (some c) = elim c.mechanism [
    | none ↦ some c
    | some m ↦ some (record c { mechanism = some (claim_mechanism tunnel_ip m) })
  ]

  module _ {S : Type 0} (v : Vpp) (next : Next S) where
    unfoldable pub close : Bool → Connection → M S Error (Unit {0})
    unfolding del_with
    close is_client conn =
        if is_ip conn.payload
        then (do ignoring (del_interface v is_client conn); next.close conn)
        else next.close conn

    abbrev pub client_close : Connection → M S Error (Unit {0})
    unfolding close
    client_close = close true

    abbrev pub server_close : Connection → M S Error (Unit {0})
    unfolding close
    server_close = close false

    unfoldable pub client_request : Ip → List ℕ → Request → M S Refusal Connection
    unfolding create_with close offer
    client_request tunnel_ip private_key r =
        if is_ip (payload_of r.connection)
        then request_then
            (λ conn. create_interface v true private_key conn >>= λ public_key. pure tt)
            client_close next (with_offer tunnel_ip private_key r)
        else next.request r

    -- On the mechanism of the connection that the rest of the chain returned
    unfoldable pub answer : List ℕ → Connection → Option Mechanism → M S Refusal Connection
    unfolding create_with close
    answer private_key conn none = pure conn
    answer private_key conn (some m) =
        try (create_interface v false private_key conn)
          (λ public_key.
            pure (record conn { mechanism = some (api.set_dst_public_key public_key m) }))
          (close_after server_close conn)

    unfoldable pub server_request : Ip → List ℕ → Request → M S Refusal Connection
    unfolding answer with_claim
    server_request tunnel_ip private_key r =
        if is_ip (payload_of r.connection)
        then try (next.request (record r { connection = with_claim tunnel_ip r.connection }))
            (λ conn. answer private_key conn (to_mechanism api.is_mechanism conn.mechanism))
            (λ refusal. refuse refusal.error)
        else next.request r
