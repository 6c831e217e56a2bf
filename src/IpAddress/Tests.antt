-- ===== src/IpAddress/Tests.antt =====
-- Instances of the theorem on addresses, and runs.
use sdk_vpp.Prelude.{ℕ, ◌≡◌, refl, Bool, true, false, Option, some, [], ◌∷◌}
use sdk_vpp.Types.{
  Ip, IpNet, mask, to_vpp_prefix, to_vpp_address_with_prefix, to4, vpp_address, ip_equal,
  from_vpp_address_with_prefix,
}
use sdk_vpp.Vpp.{Vpp, ip_address_dump, sw_interface_add_del_address}
use sdk_vpp.Exec.{State, ok, pure}
use sdk_vpp.Chain.{Connection, Next, Payload}
use sdk_vpp.Samples.{willing, fresh, conn, asking, ten, unions}
use sdk_vpp.IpAddress.{request}
use sdk_vpp.IpAddress.Complete.{completed, wanted_nets, request-completes}

abbrev host : Ip → Option IpNet
host ip = some (record { ip = ip; net_mask = mask 32 32 })

abbrev addressed : Connection
addressed = record (conn Payload.ip) {
  context = some (record {
    mtu = 0;
    src_ip_nets = [];
    dst_ip_nets = host ten ∷ host (10 ∷ 0 ∷ 0 ∷ 2 ∷ []) ∷ [];
  });
}

abbrev returning : Next (Unit {0})
returning = record { request = λ r. pure addressed; close = λ c. pure tt }

-- The interface has 10.0.0.1.
abbrev holding : Vpp
holding = record willing {
  addresses =
      λ h c. elim c [ ip_address_dump i is_ipv6 ↦ to_vpp_prefix (host ten) ∷ [] | other ↦ [] ];
}

abbrev fourth : Bool → State (Unit {0}) → Option ℕ
fourth is_client s = some 4

abbrev start : State (Unit {0})
start = fresh tt

abbrev done : State (Unit {0})
unfolding request
done = (request holding unions fourth returning false (asking Payload.ip) start).1

done_ok :
    request holding unions fourth returning false (asking Payload.ip) start ≡ (ok addressed, done)
unfolding done request from_vpp_address_with_prefix vpp_address to4
done_ok = refl

request-completes_example :
    (addressed ≡ addressed)
    × (done ≡ record start {
      calls = completed holding unions 4 (wanted_nets false addressed.context) start.calls;
    })
request-completes_example =
    request-completes holding unions fourth returning false (asking Payload.ip) addressed addressed
      4 start done refl refl done_ok

-- Only the second address is added.
only_missing :
    completed holding unions 4 (wanted_nets false addressed.context) []
    ≡ sw_interface_add_del_address 4 true (to_vpp_address_with_prefix (host (10 ∷ 0 ∷ 0 ∷ 2 ∷ [])))
      ∷ ip_address_dump 4 true
      ∷ ip_address_dump 4 false
      ∷ []
unfolding completed from_vpp_address_with_prefix vpp_address to4 to_vpp_prefix ip_equal
only_missing = refl
