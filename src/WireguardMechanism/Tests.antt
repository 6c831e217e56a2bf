-- ===== src/WireguardMechanism/Tests.antt =====
-- Instances of the theorems on wireguard, and runs.
use sdk_vpp.Prelude.{ℕ, ◌≡◌, refl, true, false, Option, none, some, inr, List, [], ◌∷◌, String}
use sdk_vpp.Prelude.Keys.{string_eq, ◌=?◌}
use sdk_vpp.Prelude.Assoc.{lookup, insert, lookup-insert, lookup-insert_self}
use sdk_vpp.Exec.{State, ok, pure}
use sdk_vpp.Chain.{Connection, Mechanism, Request, Next, Payload, mechanism_of, to_mechanism}
use sdk_vpp.Samples.{willing, fresh, conn, asking, ten}
use sdk_vpp.WireguardMechanism.{WireguardApi, client_request, server_request, offer}
use sdk_vpp.WireguardMechanism.Peer.{peer_of}
use sdk_vpp.WireguardMechanism.Peer as PeerElement
use sdk_vpp.WireguardMechanism.Keys.{creation, client_request-creates}
use sdk_vpp.WireguardMechanism.Ends.{interface_element, answered, peering, server_request-peers}

abbrev or_empty : Option String → String
or_empty none = ""
or_empty (some s) = s

abbrev set_parameter : String → String → Mechanism → Mechanism
set_parameter name value m = record m { parameters = insert name value m.parameters }

abbrev parameter : String → Mechanism → String
parameter name m = or_empty (lookup name m.parameters)

set_parameter_lem :
    (name value : String) (m : Mechanism) → parameter name (set_parameter name value m) ≡ value
set_parameter_lem name value m = rw (lookup-insert_self name value m.parameters) refl

set_dst_keeps_src :
    (value : String) (m : Mechanism)
    → parameter "src_key" (set_parameter "dst_key" value m) ≡ parameter "src_key" m
set_dst_keeps_src value m = rw (lookup-insert "dst_key" "src_key" value m.parameters) refl

-- Fixed addresses and ports, and one pair of keys
abbrev views : WireguardApi
views = record {
  is_mechanism = λ m. m.type_name =? "WIREGUARD";
  src_ip = λ m. ten;
  dst_ip = λ m. ten;
  src_port = λ m. 51820;
  dst_port = λ m. 51820;
  src_public_key = parameter "src_key";
  dst_public_key = parameter "dst_key";
  set_src_ip = λ ip m. m;
  set_dst_ip = λ ip m. m;
  set_src_port = λ port m. m;
  set_dst_port = λ port m. m;
  set_src_public_key = set_parameter "src_key";
  set_dst_public_key = set_parameter "dst_key";
  mechanism_type = "WIREGUARD";
  public_key = λ key. "public";
  parse_key = λ text. inr (1 ∷ 2 ∷ []);
  src_public_key-set_src_public_key = set_parameter_lem "src_key";
  src_public_key-set_src_ip = λ ip m. refl;
  src_public_key-set_src_port = λ port m. refl;
  dst_public_key-set_dst_public_key = set_parameter_lem "dst_key";
  src_public_key-set_dst_public_key = set_dst_keeps_src;
  is_mechanism-set_dst_public_key = λ k m. refl;
}

abbrev mechanism : Mechanism
mechanism = record { type_name = "WIREGUARD"; parameters = ("src_key", "theirs") ∷ [] }

abbrev secured : Connection
secured = record (conn Payload.ip) { mechanism = some mechanism }

abbrev returning : Next (Unit {0})
returning = record { request = λ r. pure secured; close = λ c. pure tt }

-- A request that names the mechanism already
abbrev refreshing : Request
refreshing = record (asking Payload.ip) { connection = some secured }

abbrev private_key : List ℕ
private_key = 9 ∷ []

abbrev start : State (Unit {0})
start = fresh tt

abbrev connected : State (Unit {0})
unfolding client_request
connected = (client_request views willing returning ten private_key refreshing start).1

connected_ok :
    client_request views willing returning ten private_key refreshing start
    ≡ (ok secured, connected)
unfolding connected client_request
connected_ok = refl

client_request-creates_example :
    (connected.calls ≡ creation views true private_key mechanism ∷ start.calls)
    × (connected.client.if_index
        ≡ some (willing.index start.calls (creation views true private_key mechanism)))
    × (connected.client.public_key ≡ some (views.public_key private_key))
    × (to_mechanism views.is_mechanism (mechanism_of refreshing.connection) ≡ none
        → views.src_public_key (offer views ten private_key refreshing)
          ≡ views.public_key private_key)
    × ((old : Mechanism)
        → to_mechanism views.is_mechanism (mechanism_of refreshing.connection) ≡ some old
        → views.src_public_key (offer views ten private_key refreshing) ≡ views.src_public_key old)
client_request-creates_example =
    client_request-creates views willing returning ten private_key refreshing secured secured
      mechanism start connected refl refl refl refl connected_ok

-- The offered key is then not that of the interface.
old_key_offered : views.src_public_key (offer views ten private_key refreshing) ≡ "theirs"
unfolding offer lookup insert
old_key_offered = refl

abbrev served : State (Unit {0})
unfolding PeerElement.request interface_element server_request
served =
    (PeerElement.server_request views willing
      (interface_element views willing returning ten private_key) refreshing start).1

abbrev named : Connection
named = record secured { mechanism = some (answered views private_key mechanism) }

served_ok :
    PeerElement.server_request views willing
      (interface_element views willing returning ten private_key)
      refreshing
      start
    ≡ (ok named, served)
unfolding served PeerElement.request interface_element server_request lookup
served_ok = refl

server_request-peers_example :
    let i = willing.index start.calls (creation views false private_key mechanism) in
    let m = answered views private_key mechanism in
    (peer_key : List ℕ) × (views.parse_key (views.src_public_key mechanism) ≡ inr peer_key)
    × (served.calls
        ≡ peering views false i peer_key m
          ∷ creation views false private_key mechanism
          ∷ start.calls)
    × (served.server.if_index ≡ some i)
    × (served.server.public_key ≡ some (views.public_key private_key))
    × (lookup (views.src_public_key mechanism) served.server.peers
        ≡ some (
            willing.index
              (creation views false private_key mechanism ∷ start.calls)
              (peering views false i peer_key m)))
    × (named.mechanism ≡ some m)
    × (views.dst_public_key m ≡ views.public_key private_key)
unfolding lookup
server_request-peers_example =
    server_request-peers views willing returning ten private_key refreshing secured named mechanism
      start served refl refl refl refl refl served_ok
