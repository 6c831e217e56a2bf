-- ===== src/Vl3lb/Monitor.antt =====
-- pkg/networkservice/vl3lb/common.go: the events that the monitor of a vl3-NSE reports, which servers
-- they add and delete, and the loop over them.
--
-- The stream is the list of its events; it ends with an error. A connection's state is whether it is
-- State_DOWN, an event's type whether it is DELETE.
--
-- One goroutine runs for each vl3-NSE, and all share one handler without a lock. `balance_nse` is the run
-- of one of them while no other is between its steps; the runs of several are not interleaved here.
use sdk_vpp.Prelude.{
  ℕ, String, Bool, true, false, Option, none, some, List, [], ◌∷◌, ◌++◌, if◌then◌else◌,
}
use sdk_vpp.Prelude.Keys.{string_eq, ◌=?◌}
use sdk_vpp.Prelude.Assoc.{lookup, insert}
use sdk_vpp.Types.{Ip, IpNet}
use sdk_vpp.Vpp.{Vpp, Error}
use sdk_vpp.Exec.{M, ◌>>=◌, ◌>>◌, crash, ignoring, get_own}
use sdk_vpp.Chain.{Connection, ConnectionContext}
use sdk_vpp.Vl3lb.{Handler, Servers, add_servers, delete_servers, get_server_ids_by_vl3_name}

pub record Monitored : Type 0 where
  pub connection : Connection
  pub is_down : Bool

pub record ConnectionEvent : Type 0 where
  pub is_delete : Bool
  pub connections : List Monitored

pub record Changes : Type 0 where
  pub add : Servers
  pub del : List String

-- GetSrcIPNets()[0].IP panics without a first address, or with a nil one.
unfoldable pub first_ip : List (Option IpNet) → Option Ip
first_ip [] = none
first_ip (none ∷ nets) = none
first_ip (some net ∷ nets) = some net.ip

unfoldable pub src_ip : Option ConnectionContext → Option Ip
unfolding first_ip
src_ip none = none
src_ip (some c) = first_ip c.src_ip_nets

abbrev pub delete_id : String → Changes → Changes
delete_id id changes = record changes { del = changes.del ++ id ∷ [] }

unfoldable pub add_id : String → ℕ → Option Ip → Changes → Option Changes
add_id id port none changes = none
add_id id port (some ip) changes =
    some (record changes { add = insert id (record { ip = ip; port = port }) changes.add })

-- Labels[k] is the empty text for a key that is not there.
unfoldable pub label : Option String → String
label none = ""
label (some v) = v

unfoldable pub selects : String × String → Connection → Bool
unfolding label
selects pair c = label (lookup pair.0 c.labels) =? pair.1

-- A connection that is there: the switch on its state
unfoldable pub add_present : ℕ → Monitored → Changes → Option Changes
unfolding add_id src_ip
add_present port m changes =
    if m.is_down
    then some (delete_id m.connection.id changes)
    else add_id m.connection.id port (src_ip m.connection.context) changes

-- The loop over the selector, for one connection: only a connection that is there ends it.
unfoldable pub apply_selector :
    Bool → ℕ → Monitored → List (String × String) → Changes → Option Changes
unfolding add_present selects
apply_selector is_delete port m [] changes = some changes
apply_selector is_delete port m (pair ∷ selector) changes = elim (selects pair m.connection) [
  | false ↦ apply_selector is_delete port m selector changes
  | true ↦ elim is_delete [
    | true ↦ apply_selector is_delete port m selector (delete_id m.connection.id changes)
    | false ↦ add_present port m changes
  ]
]

abbrev pub and_then : Option Changes → (Changes → Option Changes) → Option Changes
and_then none f = none
and_then (some changes) f = f changes

unfoldable pub filter_from :
    Bool → ℕ → List (String × String) → List Monitored → Changes → Option Changes
unfolding apply_selector
filter_from is_delete port selector [] changes = some changes
filter_from is_delete port selector (m ∷ ms) changes =
    and_then (apply_selector is_delete port m selector changes)
      (λ changes'. filter_from is_delete port selector ms changes')

abbrev pub no_changes : Changes
no_changes = record { add = []; del = [] }

-- `none` is a panic.
unfoldable pub filter_connections : ConnectionEvent → List (String × String) → ℕ → Option Changes
unfolding filter_from
filter_connections event selector target_port =
    filter_from event.is_delete target_port selector event.connections no_changes

-- Errors of the handler are only logged.
unfoldable pub apply_changes : Vpp → String → Option Changes → M Handler Error (Unit {0})
apply_changes v name none = crash
apply_changes v name (some changes) = do
  ignoring (add_servers v name changes.add)
  ignoring (delete_servers v name changes.del)

-- The stream has ended.
unfoldable pub forget : Vpp → String → M Handler Error (Unit {0})
forget v name = do c ← get_own; ignoring (delete_servers v name (get_server_ids_by_vl3_name name c))

unfoldable pub balance_nse :
    Vpp → String → List (String × String) → ℕ → List ConnectionEvent → M Handler Error (Unit {0})
unfolding apply_changes forget
balance_nse v name selector port [] = forget v name
balance_nse v name selector port (event ∷ events) = do
  apply_changes v name (filter_connections event selector port)
  balance_nse v name selector port events
