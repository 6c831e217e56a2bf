-- ===== src/Loopback.antt =====
-- pkg/networkservice/loopback: one VPP loopback interface for each network service, shared by the
-- connections that use the service and counted.
--
-- `t.exec` runs the bodies that touch the map one at a time: each operation is one atomic step.
pub mod Effects
pub mod Drops
pub mod Holders
pub mod Counting
pub mod Refcount
pub mod Tests
use sdk_vpp.Prelude.{
  ℕ, ◌+◌, ◌%◌, String, Bool, Option, none, some, true, false, ◌==◌, if◌then◌else◌,
}
use sdk_vpp.Prelude.Keys.{string_eq}
use sdk_vpp.Prelude.Assoc.{Map, lookup, insert, erase}
use sdk_vpp.Vpp.{Vpp, Error, create_loopback, delete_loopback}
use sdk_vpp.Exec.{
  M, ◌>>=◌, ◌>>◌, pure, throw, crash, try, wrapping, ignoring, get_own, set_own, send, send_,
}
use sdk_vpp.Chain.{Connection, Request, Refusal, Next, refuse}
use sdk_vpp.Metadata.Loopback

pub record LoopInfo : Type 0 where
  pub sw_if_index : ℕ
  pub count : ℕ

abbrev pub LoopMap : Type 0
LoopMap = Map String LoopInfo

abbrev pub uint32_mod : ℕ
uint32_mod = 4294967296

unfoldable pub create_loopback_vpp : Vpp → M LoopMap Error ℕ
create_loopback_vpp v = wrapping "vppapi CreateLoopback returned error" (send v create_loopback)

unfoldable pub del_vpp : Vpp → ℕ → M LoopMap Error (Unit {0})
del_vpp v sw_if_index =
    wrapping "vppapi DeleteLoopback returned error" (send_ v (delete_loopback sw_if_index))

-- info.count++ and Store, on the entry that was found or made
unfoldable pub take_share : String → Bool → LoopInfo → M LoopMap Error (Unit {0})
unfolding Loopback.store
take_share network_service is_client info = do
  entries ← get_own
  set_own (insert network_service (record info { count = (info.count + 1) % uint32_mod }) entries)
  Loopback.store is_client info.sw_if_index

unfoldable pub create_share : Vpp → String → Bool → Option LoopInfo → M LoopMap Error (Unit {0})
unfolding take_share create_loopback_vpp
create_share v network_service is_client (some info) = take_share network_service is_client info
create_share v network_service is_client none = do
  sw_if_index ← create_loopback_vpp v
  take_share network_service is_client (record { sw_if_index = sw_if_index; count = 0 })

-- `held` is what Load found.
unfoldable pub create_unless_held : Vpp → String → Bool → Option ℕ → M LoopMap Error (Unit {0})
unfolding create_share
create_unless_held v network_service is_client (some held) = pure tt
create_unless_held v network_service is_client none = do
  entries ← get_own
  create_share v network_service is_client (lookup network_service entries)

unfoldable pub create_loopback_for : Vpp → String → Bool → M LoopMap Error (Unit {0})
unfolding create_unless_held Loopback.load
create_loopback_for v network_service is_client = do
  held ← Loopback.load is_client
  create_unless_held v network_service is_client held

-- `last`: the count of the entry, just lowered, is zero
unfoldable pub settle_share :
    {E : Type 0} → Vpp → String → ℕ → LoopInfo → Bool → M LoopMap E (Unit {0})
unfolding del_vpp
settle_share v network_service sw_if_index info true = do
  entries ← get_own
  set_own (erase network_service entries)
  ignoring (del_vpp v sw_if_index)
settle_share v network_service sw_if_index info false = do
  entries ← get_own
  set_own (insert network_service info entries)

abbrev pub lowered : LoopInfo → LoopInfo
lowered info = record info { count = (info.count + 4294967295) % uint32_mod }

-- count-- on the entry of the service: a nil pointer if there is none
unfoldable pub drop_share :
    {E : Type 0} → Vpp → String → ℕ → Option LoopInfo → M LoopMap E (Unit {0})
unfolding settle_share
drop_share v network_service sw_if_index none = crash
drop_share v network_service sw_if_index (some info) =
    settle_share v network_service sw_if_index (lowered info) ((lowered info).count == 0)

unfoldable pub del_held : {E : Type 0} → Vpp → String → Option ℕ → M LoopMap E (Unit {0})
unfolding drop_share
del_held v network_service none = pure tt
del_held v network_service (some sw_if_index) = do
  entries ← get_own
  drop_share v network_service sw_if_index (lookup network_service entries)

unfoldable pub del : {E : Type 0} → Vpp → String → Bool → M LoopMap E (Unit {0})
unfolding del_held Loopback.load_and_delete
del v network_service is_client = do
  held ← Loopback.load_and_delete is_client
  del_held v network_service held

-- Request of the server and of the client; `request.GetConnection().NetworkService` follows the
-- connection, so it panics without one.
unfoldable pub request : Vpp → Next LoopMap → Bool → Request → M LoopMap Refusal Connection
unfolding create_loopback_for del
request v next is_client r = elim r.connection [
  | none ↦ crash
  | some c ↦
      try (create_loopback_for v c.network_service is_client)
        (λ _.
          try (next.request r) (λ conn. pure conn)
            (λ refusal. do del v c.network_service is_client; throw refusal))
        (λ e. refuse e)
]

unfoldable pub close : Vpp → Next LoopMap → Bool → Connection → M LoopMap Error (Unit {0})
unfolding del
close v next is_client conn = do del v conn.network_service is_client; next.close conn

abbrev pub server_request : Vpp → Next LoopMap → Request → M LoopMap Refusal Connection
server_request v next = request v next false

abbrev pub client_request : Vpp → Next LoopMap → Request → M LoopMap Refusal Connection
client_request v next = request v next true

abbrev pub server_close : Vpp → Next LoopMap → Connection → M LoopMap Error (Unit {0})
server_close v next = close v next false

abbrev pub client_close : Vpp → Next LoopMap → Connection → M LoopMap Error (Unit {0})
client_close v next = close v next true
