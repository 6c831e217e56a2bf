-- ===== src/Vrf.antt =====
-- pkg/networkservice/vrf: an IPv4 and an IPv6 routing table of VPP for each network service, shared by
-- the connections of the service, which attach their interfaces to it.
--
-- The mutex of a map is held by create, del and attach for their whole run: each is one atomic step.
pub mod Sharing
pub mod Leak
pub mod Tests
use sdk_vpp.Prelude.{
  ℕ, String, Bool, true, false, ◌||◌, Option, none, some, ◌==◌, if◌then◌else◌, length, [], ◌∷◌,
  List,
}
use sdk_vpp.Prelude.Keys.{string_eq, nat_eq}
use sdk_vpp.Prelude.Assoc.{Map, lookup, insert, erase}
use sdk_vpp.Vpp.{
  Vpp, Error, ip_table_allocate, ip_table_add_del, sw_interface_set_table, max_uint32,
}
use sdk_vpp.Exec.{
  State, M, ◌>>=◌, ◌>>◌, pure, throw, crash, try, wrapping, ignoring, get_own, set_own, send, send_,
  ok, side,
}
use sdk_vpp.Chain.{Connection, Request, Refusal, Next, refuse, close_after}
use sdk_vpp.Metadata.Ifindex
use sdk_vpp.Metadata.Vrf

pub record VrfInfo : Type 0 where
  pub id : ℕ
  pub attached : Map ℕ (Unit {0})

abbrev pub VrfMap : Type 0
VrfMap = Map String VrfInfo

-- Map of the package: the tables of both families
pub record Maps : Type 0 where
  pub ipv6 : VrfMap
  pub ipv4 : VrfMap

abbrev pub new_map : Maps
new_map = record { ipv6 = []; ipv4 = [] }

abbrev pub family : Bool → Maps → VrfMap
family is_ipv6 m = if is_ipv6 then m.ipv6 else m.ipv4

abbrev pub set_family : Bool → VrfMap → Maps → Maps
set_family is_ipv6 t m = if is_ipv6 then record m { ipv6 = t } else record m { ipv4 = t }

abbrev pub get_family : {E : Type 0} → Bool → M Maps E VrfMap
get_family is_ipv6 s = (ok (family is_ipv6 s.own), s)

-- t.entries[networkService] = info, and every change of what it points to
abbrev pub put_family : {E : Type 0} → Bool → VrfMap → M Maps E (Unit {0})
put_family is_ipv6 t s = (ok tt, record s { own = set_family is_ipv6 t s.own })

unfoldable pub create_vpp : Vpp → Bool → M Maps Error ℕ
create_vpp v is_ipv6 =
    wrapping "vppapi IPTableAllocate returned error" (send v (ip_table_allocate max_uint32 is_ipv6))

abbrev pub new_info : ℕ → VrfInfo
new_info id = record { id = id; attached = [] }

unfoldable pub create_entry : Vpp → String → Bool → Option VrfInfo → M Maps Error ℕ
unfolding create_vpp
create_entry v network_service is_ipv6 (some info) = pure info.id
create_entry v network_service is_ipv6 none = do
  vrf_id ← create_vpp v is_ipv6
  entries ← get_family is_ipv6
  put_family is_ipv6 (insert network_service (new_info vrf_id) entries)
  pure vrf_id

unfoldable pub create : Vpp → String → Bool → M Maps Error ℕ
unfolding create_entry
create v network_service is_ipv6 = do
  entries ← get_family is_ipv6
  create_entry v network_service is_ipv6 (lookup network_service entries)

-- the default vrf ID is 0
abbrev pub or_zero : Option ℕ → ℕ
or_zero none = 0
or_zero (some n) = n

abbrev pub with_interface : ℕ → VrfInfo → VrfInfo
with_interface i info = record info { attached = insert i tt info.attached }

unfoldable pub attach_interface :
    Vpp → String → ℕ → Bool → Bool → VrfInfo → Option (Unit {0}) → M Maps Error (Unit {0})
unfolding Vrf.load
attach_interface v network_service i is_client is_ipv6 info (some attached) = pure tt
attach_interface v network_service i is_client is_ipv6 info none = do
  vrf_id ← Vrf.load is_client is_ipv6
  wrapping "vppapi SwInterfaceSetTable returned error"
      (send_ v (sw_interface_set_table i is_ipv6 (or_zero vrf_id)))
  entries ← get_family is_ipv6
  put_family is_ipv6 (insert network_service (with_interface i info) entries)

-- One round of the loop over the families; `vrfInfo.attached` panics without an entry.
unfoldable pub attach_entry :
    Vpp → String → ℕ → Bool → Bool → Option VrfInfo → M Maps Error (Unit {0})
unfolding attach_interface
attach_entry v network_service i is_client is_ipv6 none = crash
attach_entry v network_service i is_client is_ipv6 (some info) =
    attach_interface v network_service i is_client is_ipv6 info (lookup i info.attached)

unfoldable pub attach_family : Vpp → String → ℕ → Bool → Bool → M Maps Error (Unit {0})
unfolding attach_entry
attach_family v network_service i is_client is_ipv6 = do
  entries ← get_family is_ipv6
  attach_entry v network_service i is_client is_ipv6 (lookup network_service entries)

unfoldable pub attach : Vpp → String → ℕ → Bool → M Maps Error (Unit {0})
unfolding attach_family
attach v network_service i is_client = do
  attach_family v network_service i is_client false
  attach_family v network_service i is_client true

unfoldable pub del_vpp : Vpp → ℕ → Bool → M Maps Error (Unit {0})
del_vpp v vrf_id is_ipv6 =
    wrapping "vppapi IPTableAddDel returned error" (send_ v (ip_table_add_del false vrf_id is_ipv6))

abbrev pub without_interface : ℕ → VrfInfo → VrfInfo
without_interface i info = record info { attached = erase i info.attached }

-- `last`: one interface is left, that of the service itself
unfoldable pub settle_entry :
    {E : Type 0} → Vpp → String → Bool → ℕ → VrfInfo → Bool → M Maps E (Unit {0})
unfolding del_vpp
settle_entry v network_service is_ipv6 vrf_id info false = do
  entries ← get_family is_ipv6
  put_family is_ipv6 (insert network_service info entries)
settle_entry v network_service is_ipv6 vrf_id info true = do
  entries ← get_family is_ipv6
  put_family is_ipv6 (erase network_service entries)
  ignoring (del_vpp v vrf_id is_ipv6)

-- An interface index that is not known is 0.
unfoldable pub del_entry :
    {E : Type 0} → Vpp → String → Bool → ℕ → Option ℕ → Option VrfInfo → M Maps E (Unit {0})
unfolding settle_entry
del_entry v network_service is_ipv6 vrf_id i none = pure tt
del_entry v network_service is_ipv6 vrf_id i (some info) =
    settle_entry v network_service is_ipv6 vrf_id (without_interface (or_zero i) info)
      (length (erase (or_zero i) info.attached) == 1)

unfoldable pub del_stored :
    {E : Type 0} → Vpp → String → Bool → Bool → Option ℕ → M Maps E (Unit {0})
unfolding del_entry Ifindex.load
del_stored v network_service is_ipv6 is_client none = pure tt
del_stored v network_service is_ipv6 is_client (some vrf_id) = do
  entries ← get_family is_ipv6
  i ← Ifindex.load is_client
  del_entry v network_service is_ipv6 vrf_id i (lookup network_service entries)

unfoldable pub del : {E : Type 0} → Vpp → String → Bool → Bool → M Maps E (Unit {0})
unfolding del_stored Vrf.load
del v network_service is_ipv6 is_client = do
  vrf_id ← Vrf.load is_client is_ipv6
  del_stored v network_service is_ipv6 is_client vrf_id

unfoldable pub del_v46 : {E : Type 0} → Vpp → String → Bool → M Maps E (Unit {0})
unfolding del
del_v46 v network_service is_client = do
  del v network_service true is_client
  del v network_service false is_client

unfoldable pub del_table_from_metadata_v46 : {E : Type 0} → Bool → M Maps E (Unit {0})
unfolding Vrf.delete
del_table_from_metadata_v46 is_client = do Vrf.delete is_client true; Vrf.delete is_client false

abbrev pub service_of : Option Connection → String
service_of none = ""
service_of (some c) = c.network_service

-- One round of the first loop of Request: whether the table was there already
unfoldable pub ensure_stored : Vpp → String → Bool → Bool → Option ℕ → M Maps Error Bool
unfolding create Vrf.store
ensure_stored v network_service is_client is_ipv6 (some vrf_id) = pure true
ensure_stored v network_service is_client is_ipv6 none = do
  vrf_id ← create v network_service is_ipv6
  Vrf.store is_client is_ipv6 vrf_id
  pure false

unfoldable pub ensure_table : Vpp → String → Bool → Bool → M Maps Error Bool
unfolding ensure_stored Vrf.load
ensure_table v network_service is_client is_ipv6 = do
  vrf_id ← Vrf.load is_client is_ipv6
  ensure_stored v network_service is_client is_ipv6 vrf_id

unfoldable pub close : Vpp → Next Maps → Bool → Connection → M Maps Error (Unit {0})
unfolding del_v46 del_table_from_metadata_v46
close v next is_client conn = do
  del_v46 v conn.network_service is_client
  try (next.close conn) (λ _. del_table_from_metadata_v46 is_client)
      (λ e. do del_table_from_metadata_v46 is_client; throw e)

-- ifindex.Load, read off the state
abbrev pub load_if_index : Bool → State Maps → Option ℕ
load_if_index is_client s = (side is_client s).if_index

-- The interfaces to attach, in order; the first error closes the connection.
unfoldable pub attach_all :
    Vpp
    → Next Maps
    → Bool
    → String
    → Connection
    → List (State Maps → Option ℕ)
    → M Maps Refusal Connection
unfolding close attach
attach_all v next is_client network_service conn [] s = (ok conn, s)
attach_all v next is_client network_service conn (load ∷ loads) s =
    let rest = attach_all v next is_client network_service conn loads in
    elim (load s) [
      | none ↦ rest s
      | some i ↦
          try (attach v network_service i is_client) (λ _. rest)
            (close_after (close v next is_client) conn) s
    ]

-- `load_fn` is the option WithLoadInterface (ifindex.Load unless it is set).
unfoldable pub request :
    Vpp → (State Maps → Option ℕ) → Next Maps → Bool → Request → M Maps Refusal Connection
unfolding ensure_table attach_all del_v46 del_table_from_metadata_v46
request v load_fn next is_client r =
    try
      (do
        had_v4 ← ensure_table v (service_of r.connection) is_client false
        had_v6 ← ensure_table v (service_of r.connection) is_client true
        pure (had_v4 || had_v6))
      (λ had.
        try (next.request r)
          (λ conn.
            attach_all v next is_client (service_of r.connection) conn
              (if had then [] else load_fn ∷ load_if_index is_client ∷ []))
          (λ refusal. do
            del_v46 v (service_of refusal.conn) is_client
            del_table_from_metadata_v46 is_client
            throw refusal))
      (λ e. refuse e)

abbrev pub server_request :
    Vpp → (State Maps → Option ℕ) → Next Maps → Request → M Maps Refusal Connection
server_request v load_fn next = request v load_fn next false

abbrev pub client_request :
    Vpp → (State Maps → Option ℕ) → Next Maps → Request → M Maps Refusal Connection
client_request v load_fn next = request v load_fn next true

abbrev pub server_close : Vpp → Next Maps → Connection → M Maps Error (Unit {0})
server_close v next = close v next false

abbrev pub client_close : Vpp → Next Maps → Connection → M Maps Error (Unit {0})
client_close v next = close v next true
