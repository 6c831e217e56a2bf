-- ===== src/VlanMechanism.antt =====
-- pkg/networkservice/mechanisms/vlan: the interface of a connection's VLAN on the device that its label
-- names. The element's interfaces are those of the client's side.
--
-- The typed view of a mechanism is the API's: the parameter `VlanApi`.
pub mod Vtr
pub mod Mtu
pub mod Interfaces
pub mod Stored
pub mod Lowered
pub mod Tests
use Prim.Native.String.{◌++◌ as ◌+++◌}
use text.Mathlib.Text.{find?}
use sdk_vpp.Prelude.{
  ℕ, String, Bool, true, false, not, ◌&&◌, ◌||◌, Option, none, some, List, [], ◌∷◌, ◌++◌, ◌==◌,
  if◌then◌else◌,
}
use sdk_vpp.Prelude.Keys.{string_eq, ◌=?◌}
use sdk_vpp.Prelude.Assoc.{Map, lookup}
use sdk_vpp.Vpp.{Vpp, Error, SwInterfaceDetails, sw_interface_dump_named, create_vlan_subif}
use sdk_vpp.Exec.{M, ◌>>=◌, ◌>>◌, pure, throw, try, wrapping, dump, send}
use sdk_vpp.Chain.{Mechanism, Connection, Request, Refusal, Next, request_then, to_mechanism}
use sdk_vpp.Metadata.Ifindex
use sdk_vpp.Metadata.Vlan

pub record VlanApi : Type 0 where
  pub is_mechanism : Mechanism → Bool
  pub vlan_id : Mechanism → ℕ
  pub mechanism_type : String

abbrev pub via_label : String
via_label = "via"

abbrev pub af_packet_name_prefix : String
af_packet_name_prefix = "host-"

-- A missing key of the labels is the empty text.
abbrev pub via_of : Connection → String
unfolding lookup
via_of conn = elim (lookup via_label conn.labels) [ none ↦ "" | some via ↦ via ]

-- strings.Contains
abbrev pub contains : String → String → Bool
contains text part = elim (find? text part) [ none ↦ false | some at ↦ true ]

abbrev pub is_named : String → SwInterfaceDetails → Bool
is_named host d =
    (host =? d.interface_name) || ((af_packet_name_prefix +++ host) =? d.interface_name)

abbrev pub is_vlan_of : String → ℕ → SwInterfaceDetails → Bool
is_vlan_of host vlan_id d =
    not (vlan_id == 0) && (contains d.interface_name host && (d.is_sub && (d.sub_id == vlan_id)))

module _ {S : Type 0} (v : Vpp) where
  -- After the last message
  unfoldable pub host_found : String → Option Error → ℕ → M S Error (ℕ × ℕ)
  host_found host (some e) found = throw (
      Error.wrap ("error attempting to get interface details to set vlan subinterface on " +++ host)
        e)
  host_found host none found =
      if found == 0
      then throw (Error.new ("no interface name found " +++ host))
      else pure (found, 0)

  -- The loop: the last interface of the name, or the first one of the VLAN
  unfoldable pub scan_interfaces :
      String → ℕ → Option Error → ℕ → List SwInterfaceDetails → M S Error (ℕ × ℕ)
  unfolding host_found
  scan_interfaces host vlan_id end found [] = host_found host end found
  scan_interfaces host vlan_id end found (d ∷ ds) =
      let rest =
        scan_interfaces host vlan_id end (if is_named host d then d.sw_if_index else found) ds in
      if is_vlan_of host vlan_id d then pure (0, d.sw_if_index) else rest

  -- SwInterfaceDump for the interfaces of a name: what is listed, and the error that ends the list
  abbrev pub named_interfaces : String → M S Error (List SwInterfaceDetails × Option Error)
  named_interfaces host =
      wrapping
        ("error attempting to get interface dump client to set vlan subinterface on " +++ host)
        (dump v (λ h c. (v.interfaces h c, v.stream_error h c)) (sw_interface_dump_named host))

  unfoldable pub get_host_or_vlan_interface : String → ℕ → M S Error (ℕ × ℕ)
  unfolding scan_interfaces
  get_host_or_vlan_interface host vlan_id = do
    stream ← named_interfaces host
    scan_interfaces host vlan_id stream.1 0 stream.0

  unfoldable pub vpp_add_sub_if : ℕ → ℕ → M S Error ℕ
  vpp_add_sub_if sw_if_index vlan_id =
      wrapping "vppapi CreateVlanSubif returned error"
        (send v (create_vlan_subif sw_if_index vlan_id))

  -- The interface to store, on the two that were found
  unfoldable pub choose_interface : ℕ → ℕ × ℕ → M S Error ℕ
  unfolding vpp_add_sub_if
  choose_interface vlan_id found =
      if vlan_id == 0
      then pure found.0
      else if found.1 == 0
      then vpp_add_sub_if found.0 vlan_id
      else pure found.1

  -- On the name of the device
  unfoldable pub add_on : ℕ → String → Option String → M S Error (Unit {0})
  unfolding get_host_or_vlan_interface choose_interface Ifindex.store Vlan.store
  add_on vlan_id via none = throw (Error.new ("no interface name for label " +++ via))
  add_on vlan_id via (some host) = do
    found ← get_host_or_vlan_interface host vlan_id
    i ← choose_interface vlan_id found
    Ifindex.store true i
    Vlan.store true vlan_id

  module _ (api : VlanApi) (device_names : Map String String) where
    -- On the interface that is stored
    unfoldable pub add_unless_stored : Mechanism → String → Option ℕ → M S Error (Unit {0})
    unfolding add_on
    add_unless_stored m via (some i) = pure tt
    add_unless_stored m via none = add_on (api.vlan_id m) via (lookup via device_names)

    unfoldable pub add_with : String → Option Mechanism → M S Error (Unit {0})
    unfolding add_unless_stored Ifindex.load
    add_with via none = pure tt
    add_with via (some m) = do stored ← Ifindex.load true; add_unless_stored m via stored

    abbrev pub add_sub_if : Connection → M S Error (Unit {0})
    add_sub_if conn = add_with (via_of conn) (to_mechanism api.is_mechanism conn.mechanism)

-- The sub-interface itself is deleted with its bridge.
unfoldable pub forget : {S E : Type 0} → Option ℕ → M S E (Unit {0})
unfolding Ifindex.delete Vlan.delete
forget none = pure tt
forget (some i) = do Ifindex.delete true; Vlan.delete true

unfoldable pub del_with : {S E : Type 0} → Option Mechanism → M S E (Unit {0})
unfolding forget Ifindex.load
del_with none = pure tt
del_with (some m) = do stored ← Ifindex.load true; forget stored

module _ {S : Type 0} (v : Vpp) (api : VlanApi) (device_names : Map String String)
    (next : Next S) where
  abbrev pub del_sub_if : Connection → M S Error (Unit {0})
  del_sub_if conn = del_with (to_mechanism api.is_mechanism conn.mechanism)

  unfoldable pub close : Connection → M S Error (Unit {0})
  unfolding del_with
  close conn = do del_sub_if conn; next.close conn

  abbrev pub offer : Request → Request
  offer r = record r {
    mechanism_preferences =
        r.mechanism_preferences ++ record { type_name = api.mechanism_type; parameters = [] } ∷ [];
  }

  unfoldable pub request : Request → M S Refusal Connection
  unfolding add_with close
  request r = request_then (add_sub_if v api device_names) close next (offer r)
