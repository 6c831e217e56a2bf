-- ===== src/Vl3lb.antt =====
-- pkg/networkservice/vl3lb: handler.go, a load balancer whose real servers are the connections that
-- the monitors of the vl3-NSEs report.
--
-- Go visits a map in any order; here it is that of the association list. Servers are kept for each
-- vl3-NSE by the connection's ID.
pub mod Monitor
pub mod Sync
pub mod Cleanup
pub mod Lost
pub mod Ends
pub mod Tests
use sdk_vpp.Prelude.{
  ℕ, ◌%◌, String, Bool, true, false, ◌&&◌, ◌||◌, not, Option, none, some, List, [], ◌∷◌, ◌++◌, map,
  length, ◌==◌, if◌then◌else◌,
}
use sdk_vpp.Prelude.Keys.{string_eq, ◌=?◌}
use sdk_vpp.Prelude.Assoc.{Map, lookup, insert, erase}
use sdk_vpp.Types.{Address, Ip, IpNet, ip_equal, to_vpp_address}
use sdk_vpp.Vpp.{
  Vpp, Error, CnatEndpoint, CnatEndpointTuple, CnatTranslation, LbType, lb_maglev, max_uint32,
  cnat_translation_update, cnat_translation_del,
}
use sdk_vpp.Exec.{M, ◌>>=◌, ◌>>◌, pure, crash, ignoring, get_own, set_own, send_}
use sdk_vpp.Chain.{Connection, ConnectionContext}

pub record Endpoint : Type 0 where
  pub ip : Ip
  pub port : ℕ

unfoldable pub equals : Endpoint → Endpoint → Bool
equals e f = ip_equal e.ip f.ip && (e.port == f.port)

abbrev pub Servers : Type 0
Servers = Map String Endpoint

pub record Handler : Type 0 where
  pub lb_endpoint : CnatEndpoint
  pub proto : ℕ
  pub is_real_ip : ℕ
  pub lb_type : LbType
  pub servers : Map String Servers

unfoldable pub new_handler : Endpoint → ℕ → Handler
new_handler e proto = record {
  lb_endpoint = record { addr = to_vpp_address e.ip; sw_if_index = max_uint32; port = e.port };
  proto = proto;
  is_real_ip = 1;
  lb_type = lb_maglev;
  servers = [];
}

-- `src` is the address of the load balancer.
unfoldable pub path_of : Address → Endpoint → CnatEndpointTuple
path_of src s = record {
  dst_ep = record { addr = to_vpp_address s.ip; sw_if_index = max_uint32; port = s.port };
  src_ep = record { addr = src; sw_if_index = max_uint32; port = 0 };
}

-- realServers.Range, in each turn of c.servers.Range
unfoldable pub paths_of : Address → Servers → List CnatEndpointTuple
unfolding path_of
paths_of src [] = []
paths_of src ((id, s) ∷ servers) = path_of src s ∷ paths_of src servers

unfoldable pub all_paths : Address → Map String Servers → List CnatEndpointTuple
unfolding paths_of
all_paths src [] = []
all_paths src ((name, servers) ∷ rest) = paths_of src servers ++ all_paths src rest

abbrev pub translation : Handler → List CnatEndpointTuple → CnatTranslation
translation c paths = record {
  vip = c.lb_endpoint;
  id = 0;
  ip_proto = c.proto;
  is_real_ip = c.is_real_ip;
  lb_type = c.lb_type;
  n_paths = length paths % 4294967296;
  paths = paths;
}

unfoldable pub send_paths : Vpp → Handler → List CnatEndpointTuple → M Handler Error (Unit {0})
send_paths v c [] = send_ v (cnat_translation_del 0)
send_paths v c (p ∷ paths) = send_ v (cnat_translation_update (translation c (p ∷ paths)))

unfoldable pub update_vpp_cnat : Vpp → M Handler Error (Unit {0})
unfolding send_paths all_paths
update_vpp_cnat v = do c ← get_own; send_paths v c (all_paths c.lb_endpoint.addr c.servers)

-- `if endpoint, ok := realServers.Load(k); !ok || !endpoint.equals(v)`
unfoldable pub known : Option Endpoint → Endpoint → Bool
unfolding equals
known none v = false
known (some e) v = equals e v

-- The loop over the servers to add: what is stored, and updateRequired
unfoldable pub store_new : List (String × Endpoint) → Servers → Bool → Servers × Bool
unfolding known
store_new [] servers required = (servers, required)
store_new ((k, v) ∷ add) servers required =
    let found = known (lookup k servers) v in
    store_new add (if found then servers else insert k v servers) (if found then required else true)

-- c.servers.LoadOrStore(vl3NSEName, new(…))
unfoldable pub load_or_new :
    Option Servers → String → Map String Servers → Servers × Map String Servers
load_or_new none name all = ([], insert name [] all)
load_or_new (some servers) name all = (servers, all)

abbrev pub with_servers : Map String Servers → Handler → Handler
with_servers all c = record c { servers = all }

-- realServers is a pointer: what the loop stored is in c.servers.
unfoldable pub store_and_update :
    Vpp → String → Map String Servers → Servers × Bool → M Handler Error (Unit {0})
unfolding update_vpp_cnat
store_and_update v name all (servers, false) = do c ← get_own; set_own (with_servers all c)
store_and_update v name all (servers, true) = do
  c ← get_own
  set_own (with_servers (insert name servers all) c)
  update_vpp_cnat v

unfoldable pub add_servers : Vpp → String → List (String × Endpoint) → M Handler Error (Unit {0})
unfolding store_and_update store_new load_or_new
add_servers v name add = do
  c ← get_own
  let found = load_or_new (lookup name c.servers) name c.servers
  store_and_update v name found.1 (store_new add found.0 false)

unfoldable pub delete_all : List String → Servers → Servers
delete_all [] servers = servers
delete_all (id ∷ del) servers = delete_all del (erase id servers)

-- The entry of a vl3-NSE without servers goes.
unfoldable pub settle : String → Servers → Map String Servers → Map String Servers
settle name servers all = if length servers == 0 then erase name all else insert name servers all

unfoldable pub delete_from :
    Vpp → String → List String → Option Servers → M Handler Error (Unit {0})
unfolding settle delete_all update_vpp_cnat
delete_from v name del none = pure tt
delete_from v name [] (some servers) = pure tt
delete_from v name (id ∷ del) (some servers) = do
  c ← get_own
  set_own (with_servers (settle name (delete_all (id ∷ del) servers) c.servers) c)
  update_vpp_cnat v

unfoldable pub delete_servers : Vpp → String → List String → M Handler Error (Unit {0})
unfolding delete_from
delete_servers v name del = do c ← get_own; delete_from v name del (lookup name c.servers)

unfoldable pub keys : Option Servers → List String
keys none = []
keys (some servers) = map (λ p. p.0) servers

unfoldable pub get_server_ids_by_vl3_name : String → Handler → List String
unfolding keys
get_server_ids_by_vl3_name name c = keys (lookup name c.servers)
