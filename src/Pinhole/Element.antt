-- ===== src/Pinhole/Element.antt =====
-- pkg/networkservice/pinhole/client.go, server.go and ipport.go: the ports of a connection are opened
-- once, after the rest of the chain; the map of those that are open is the element's.
--
-- net.ParseIP, strconv.ParseUint and the %d of fmt, and the API's names of a mechanism's parameters, are
-- the parameter `Library`. The mutex is held around the second look into the map, create and Store:
-- they are one atomic step.
use Prim.Native.String.{◌++◌ as ◌+++◌}
use sdk_vpp.Prelude.{
  ℕ, ◌%◌, ◌≡◌, ◌↔◌, String, Bool, true, false, ◌&&◌, Option, none, some, List, [], ◌∷◌, ◌==◌,
  if◌then◌else◌, arith,
}
use sdk_vpp.Prelude.Keys.{Eq, string_eq, ◌=?◌}
use text.Mathlib.TextEquality.{eq_iff}
use sdk_vpp.Prelude.Assoc.{Map, lookup, insert}
use sdk_vpp.Types.{Ip, UnionApi}
use sdk_vpp.Vpp.{Vpp, Error}
use sdk_vpp.Exec.{M, ◌>>=◌, ◌>>◌, pure, try, get_own, set_own}
use sdk_vpp.Chain.{Mechanism, Connection, Request, Refusal, Next, refuse, close_after}
use sdk_vpp.Metadata.{IpPort}
use sdk_vpp.Metadata.Pinhole
use sdk_vpp.Pinhole.{create}

pub record Library : Type 0 where
  pub parse_ip : String → Ip
  pub parse_uint : String → Option ℕ
  pub decimal : ℕ → String
  pub src_ip : String
  pub src_port : String
  pub dst_ip : String
  pub dst_port : String

abbrev pub ip_port_beq : IpPort → IpPort → Bool
ip_port_beq a b = (a.ip =? b.ip) && (a.port == b.port)

pub ip_port_beq_iff : (a b : IpPort) → (ip_port_beq a b ≡ true) ↔ (a ≡ b)
ip_port_beq_iff a b = ground (arith, eq_iff a.ip b.ip)

instance abbrev pub ip_port_eq : Eq IpPort
ip_port_eq = record { beq = ip_port_beq; beq_iff = ip_port_beq_iff }

abbrev pub IpPortMap : Type 0
IpPortMap = Map IpPort (Unit {0})

unfoldable pub new_ip_port : String → ℕ → IpPort
new_ip_port ip port = record { ip = ip; port = port }

-- On the port that was parsed
unfoldable pub with_port : String → Option ℕ → Option IpPort
unfolding new_ip_port
with_port ip none = none
with_port ip (some port) = some (new_ip_port ip (port % 65536))

unfoldable pub with_port_text : Library → String → Option String → Option IpPort
unfolding with_port
with_port_text lib ip none = none
with_port_text lib ip (some text) = with_port ip (lib.parse_uint text)

unfoldable pub with_ip_text : Library → Option String → Option String → Option IpPort
unfolding with_port_text
with_ip_text lib none port = none
with_ip_text lib (some ip) port = if ip =? "" then none else with_port_text lib ip port

unfoldable pub from_mechanism : Library → Option Mechanism → Bool → Option IpPort
unfolding with_ip_text
from_mechanism lib none is_client = none
from_mechanism lib (some m) is_client =
    with_ip_text lib (lookup (if is_client then lib.src_ip else lib.dst_ip) m.parameters)
      (lookup (if is_client then lib.src_port else lib.dst_port) m.parameters)

abbrev pub acl_tag : String
acl_tag = "nsm-pinhole"

abbrev pub tag_of : Library → IpPort → String
tag_of lib key = acl_tag +++ " port " +++ lib.decimal key.port

module _ (v : Vpp) (api : UnionApi) (lib : Library) (next : Next IpPortMap) where
  unfoldable pub close : Connection → M IpPortMap Error (Unit {0})
  close conn = next.close conn

  -- On what the map holds for the key
  unfoldable pub open_absent : IpPort → Option (Unit {0}) → M IpPortMap Error (Unit {0})
  unfolding create
  open_absent key (some opened) = pure tt
  open_absent key none = do
    create v api (lib.parse_ip key.ip) key.port (tag_of lib key)
    opened ← get_own
    set_own (insert key tt opened)

  unfoldable pub open_key : Option IpPort → M IpPortMap Error (Unit {0})
  unfolding open_absent
  open_key none = pure tt
  open_key (some key) = do opened ← get_own; open_absent key (lookup key opened)

  unfoldable pub open_keys : Connection → List (Option IpPort) → M IpPortMap Refusal Connection
  unfolding open_key close
  open_keys conn [] = pure conn
  open_keys conn (key ∷ keys) =
      try (open_key key) (λ _. open_keys conn keys) (close_after close conn)

  -- fromContext is LoadExtra.
  unfoldable pub request : Bool → Request → M IpPortMap Refusal Connection
  unfolding open_keys from_mechanism Pinhole.load_extra
  request is_client r =
      try (next.request r)
        (λ conn. do
          extra ← Pinhole.load_extra is_client
          open_keys conn (from_mechanism lib conn.mechanism is_client ∷ extra ∷ []))
        (λ refusal. refuse refusal.error)

  abbrev pub server_request : Request → M IpPortMap Refusal Connection
  server_request = request false

  abbrev pub client_request : Request → M IpPortMap Refusal Connection
  client_request = request true
