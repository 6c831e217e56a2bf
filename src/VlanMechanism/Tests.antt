-- ===== src/VlanMechanism/Tests.antt =====
-- Instances of the theorems on VLAN connections, and runs.
use mathlib.Core.List.{Memᴰ}
use sdk_vpp.Prelude.{ℕ, ◌≡◌, ◌≢◌, refl, ap, true, false, some, [], ◌∷◌, String, arith}
use sdk_vpp.Prelude.Keys.{string_eq}
use sdk_vpp.Prelude.Assoc.{Map, lookup}
use sdk_vpp.Vpp.{Vpp, SwInterfaceDetails}
use sdk_vpp.Exec.{State, ok, pure}
use sdk_vpp.Chain.{Connection, Mechanism, Next, Payload}
use sdk_vpp.Metadata.{no_metadata}
use sdk_vpp.Samples.{willing, fresh, conn, asking}
use sdk_vpp.VlanMechanism.{VlanApi, add_sub_if, add_with}
use sdk_vpp.VlanMechanism.Interfaces.{vlan_listed, IsListed, listed_now}
use sdk_vpp.VlanMechanism.Stored.{Chosen, add_sub_if-Chosen}
use sdk_vpp.VlanMechanism.Mtu.{MtuMap, lowered, request}
use sdk_vpp.VlanMechanism.Lowered.{Limited, request-Limited}

-- Every mechanism is taken for one of VLAN 100.
abbrev views : VlanApi
views = record { is_mechanism = λ m. true; vlan_id = λ m. 100; mechanism_type = "VLAN" }

abbrev mechanism : Mechanism
mechanism = record { type_name = "VLAN"; parameters = [] }

abbrev tagged : Connection
tagged = record (conn Payload.ip) { mechanism = some mechanism; labels = ("via", "domain") ∷ [] }

abbrev devices : Map String String
devices = ("domain", "eth1") ∷ []

abbrev device : SwInterfaceDetails
device = record {
  sw_if_index = 2;
  interface_name = "host-eth1";
  is_link_up = true;
  is_sub = false;
  sub_id = 0;
  mtu = 1500 ∷ [];
}

abbrev listing : Vpp
listing = record willing { interfaces = λ h c. device ∷ [] }

abbrev start : State (Unit {0})
start = fresh tt

abbrev made : State (Unit {0})
unfolding add_with
made = (add_sub_if listing views devices tagged start).1

made_ok : add_sub_if listing views devices tagged start ≡ (ok tt, made)
unfolding made add_with lookup
made_ok = refl

only_device : (d : SwInterfaceDetails) → Memᴰ d (device ∷ []) → d.sw_if_index ≡ 2
only_device d (Memᴰ.head same) = ap (λ (x : SwInterfaceDetails). x.sw_if_index) same
only_device d (Memᴰ.tail h) = elim h [ ]

no_zero :
    (j : ℕ) → IsListed (vlan_listed "eth1" 100) (listed_now "eth1" 100 listing start) j → j ≢ 0
no_zero j h =
    let two : h.details.sw_if_index ≡ 2 = only_device h.details h.listed in
    let index : h.details.sw_if_index ≡ j = h.index in λ z. omega arith

add_sub_if-Chosen_example :
    Chosen "eth1" 100 listing (listed_now "eth1" 100 listing start) start made
unfolding lookup
add_sub_if-Chosen_example =
    add_sub_if-Chosen listing views devices tagged mechanism "eth1" start made refl refl refl
      no_zero made_ok

abbrev returning : Next MtuMap
returning = record { request = λ r. pure tagged; close = λ c. pure tt }

abbrev connected : State MtuMap
connected = record (fresh []) { client = record no_metadata { if_index = some 2 } }

abbrev limited : State MtuMap
unfolding request
limited = (request listing views devices returning (asking Payload.ip) connected).1

limited_ok :
    request listing views devices returning (asking Payload.ip) connected
    ≡ (ok (lowered 1500 tagged), limited)
unfolding limited request lookup
limited_ok = refl

request-Limited_example :
    Limited listing views devices returning "eth1" tagged (lowered 1500 tagged) connected limited
unfolding lookup
request-Limited_example =
    request-Limited listing views devices returning (asking Payload.ip) tagged (lowered 1500 tagged)
      mechanism 2 "eth1" connected limited refl refl refl refl limited_ok
