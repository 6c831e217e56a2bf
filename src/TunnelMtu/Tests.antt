-- ===== src/TunnelMtu/Tests.antt =====
-- Instances of the theorems on the MTU of a tunnel, and runs.
use sdk_vpp.Prelude.Keys.{string_eq, ◌=?◌}
use sdk_vpp.Prelude.{
  ℕ, zero, suc, length, replicate, ◌+◌, ◌≤◌, ◌<◌, ◌≡◌, refl, ap, true, false, none, some, List, [],
  ◌∷◌, arith,
}
use mathlib.Core.List.{Memᴰ}
use sdk_vpp.Types.{
  to_vpp_prefix, vpp_address, is_v6, to4, ip_equal, bytes_eq, from_vpp_address_with_prefix,
}
use sdk_vpp.Types.RoundTrip.{net}
use sdk_vpp.Vpp.{Vpp, Error, SwInterfaceDetails, sw_interface_dump}
use sdk_vpp.Exec.{State, ok, err, pure, try}
use sdk_vpp.Chain.{Mechanism, Connection, Request, Next, Payload, refuse}
use sdk_vpp.Samples.{willing, fresh, unions, ten}
use sdk_vpp.TunnelMtu.{
  MtuMechanism, MtuState, get_mtu, scan_interface, match_address, init, init_from, server_request,
  client_request, context_mtu,
}
use sdk_vpp.TunnelMtu.Vxlan
use sdk_vpp.TunnelMtu.Discovery.{FromInterface, get_mtu-FromInterface, get_mtu_wraps}
use sdk_vpp.TunnelMtu.Negotiation.{clamp, AllWithin, server_request-agrees, client_request-lowers}

abbrev unset : MtuState
unset = record { mtu = 0; inited = false }

abbrev jumbo : SwInterfaceDetails
jumbo = record {
  sw_if_index = 3;
  interface_name = "eth0";
  is_link_up = true;
  is_sub = false;
  sub_id = 0;
  mtu = 1500 ∷ 0 ∷ 0 ∷ 0 ∷ [];
}

abbrev wire : Vpp
wire = record willing {
  interfaces = λ h c. jumbo ∷ [];
  addresses = λ h c. to_vpp_prefix (some (net ten 24)) ∷ [];
}

measured : State MtuState
measured = (get_mtu unions Vxlan.overhead wire ten (fresh unset)).1

measured_ok : get_mtu unions Vxlan.overhead wire ten (fresh unset) ≡ (ok 1446, measured)
unfolding measured get_mtu scan_interface match_address ip_equal bytes_eq is_v6 to4 vpp_address
    from_vpp_address_with_prefix to_vpp_prefix
measured_ok = refl

one_listed : Memᴰ jumbo (wire.interfaces [] sw_interface_dump)
one_listed = Memᴰ.head refl

get_mtu-FromInterface_example :
    FromInterface unions Vxlan.overhead wire ten (wire.interfaces [] sw_interface_dump) 1446
get_mtu-FromInterface_example =
    get_mtu-FromInterface unions Vxlan.overhead wire ten 1446 (fresh unset) measured measured_ok

v6_overhead : Vxlan.overhead (is_v6 ten) < 4294967296
unfolding is_v6 to4
v6_overhead = omega arith

-- Every interface of `wire` is the one with an MTU of 1500.
wire_fits :
    (d : SwInterfaceDetails) (m : ℕ) (ms : List ℕ)
    → d.mtu ≡ m ∷ ms
    → Memᴰ d (jumbo ∷ [])
    → m < 4294967296
wire_fits d m ms e (Memᴰ.head same) =
    let first : d.mtu ≡ jumbo.mtu = ap (λ (x : SwInterfaceDetails). x.mtu) same in ground arith
wire_fits d m ms e (Memᴰ.tail h) = elim h [ ]

get_mtu_wraps_example :
    (d : SwInterfaceDetails) × (m : ℕ) × (ms : List ℕ) × Memᴰ d
      (wire.interfaces [] sw_interface_dump)
    × (d.mtu ≡ m ∷ ms)
    × (Vxlan.overhead (is_v6 ten) ≤ m → 1446 + Vxlan.overhead (is_v6 ten) ≡ m)
    × (m < Vxlan.overhead (is_v6 ten) → 1446 + Vxlan.overhead (is_v6 ten) ≡ m + 4294967296)
get_mtu_wraps_example =
    get_mtu_wraps unions Vxlan.overhead wire ten 1446 (fresh unset) measured v6_overhead wire_fits
      measured_ok

found : State MtuState
found = (init unions Vxlan.overhead wire ten (fresh unset)).1

found_ok : init unions Vxlan.overhead wire ten (fresh unset) ≡ (ok tt, found)
unfolding found init init_from get_mtu scan_interface match_address ip_equal bytes_eq is_v6 to4
    vpp_address from_vpp_address_with_prefix to_vpp_prefix
found_ok = refl

-- `willing` lists no interface.
failed : State MtuState
failed = (init unions Vxlan.overhead willing ten (fresh unset)).1

abbrev no_interface : Error
no_interface = Error.new "unable to find interface in vpp with tunnelIP or interface IP MTU is zero"

failed_err : init unions Vxlan.overhead willing ten (fresh unset) ≡ (err no_interface, failed)
unfolding failed init init_from get_mtu
failed_err = refl

length-replicate : {A : Type 0} (n : ℕ) (a : A) → length (replicate n a) ≡ n
length-replicate zero a = refl
length-replicate (suc n) a = ground (arith, length-replicate n a)

-- A mechanism that holds its MTU as the number of its parameters
abbrev counted : MtuMechanism
counted = record {
  is_mechanism = λ m. m.type_name =? "VXLAN";
  mtu = λ m. length m.parameters;
  set_mtu = λ n m. record m { parameters = replicate n ("mtu", "") };
  mtu-set_mtu = λ n m h. length-replicate n ("mtu", "");
  is_mechanism-set_mtu = λ n m. refl;
}

-- An MTU of 3, offered where the tunnel has 2
abbrev vxlan : Mechanism
vxlan = record { type_name = "VXLAN"; parameters = ("mtu", "") ∷ ("mtu", "") ∷ ("mtu", "") ∷ [] }

abbrev conn : Connection
conn = record {
  id = "c";
  network_service = "ns";
  payload = Payload.ip;
  labels = [];
  mechanism = some vxlan;
  context = none;
}

abbrev asking : Request
asking = record { connection = some conn; mechanism_preferences = vxlan ∷ [] }

abbrev granting : Next MtuState
granting = record { request = λ r. pure conn; close = λ c. pure tt }

abbrev known : MtuState
known = record { mtu = 2; inited = true }

server_request-agrees_example :
    (c : Connection) × (m : Mechanism) × (server_request unions Vxlan.overhead wire ten counted
        granting asking
        (fresh known)
      ≡ granting.request (record asking { connection = some c }) (fresh known))
    × (c.mechanism ≡ some m)
    × (counted.is_mechanism m ≡ true)
    × (counted.mtu m ≡ clamp 2 (counted.mtu vxlan))
    × (context_mtu c.context ≡ clamp (clamp 2 (counted.mtu vxlan)) 0)
server_request-agrees_example =
    server_request-agrees unions Vxlan.overhead wire ten counted granting 2 (omega arith)
      (fresh known) refl asking conn vxlan refl refl refl

client_request-lowers_example :
    (r : Request) × (client_request unions Vxlan.overhead wire ten counted granting asking
        (fresh known)
      ≡ try (granting.request r) (λ c. pure c) (λ refusal. refuse refusal.error) (fresh known))
    × AllWithin counted 2 r.mechanism_preferences
    × ((c : Connection) (m : Mechanism)
        → r.connection ≡ some c
        → c.mechanism ≡ some m
        → AllWithin counted 2 (m ∷ []))
client_request-lowers_example =
    client_request-lowers unions Vxlan.overhead wire ten counted granting 2 (omega arith)
      (fresh known) refl asking (omega arith)
