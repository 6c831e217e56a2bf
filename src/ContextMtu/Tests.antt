-- ===== src/ContextMtu/Tests.antt =====
-- Instances of the theorems on the MTU of the context, and runs.
use sdk_vpp.Prelude.{Bool, ◌≡◌, refl, false, some, [], ◌∷◌}
use sdk_vpp.Vpp.{Call, sw_interface_set_mtu}
use sdk_vpp.Exec.{State, pure, ok}
use sdk_vpp.Chain.{Connection, Mechanism, Next, Payload}
use sdk_vpp.Metadata.{no_metadata}
use sdk_vpp.Samples.{willing, conn, asking}
use sdk_vpp.ContextMtu.{request}
use sdk_vpp.ContextMtu.Setting.{asked, after_request, side_request, request-sets}

abbrev sized : Connection
sized = record (conn Payload.ip) {
  context = some (record { mtu = 1500; src_ip_nets = []; dst_ip_nets = [] });
}

abbrev sizing : Next (Unit {0})
sizing = record { request = λ r. pure sized; close = λ c. pure tt }

abbrev ready : State (Unit {0})
ready = record {
  calls = [];
  client = no_metadata;
  server = record no_metadata { if_index = some 2 };
  own = tt;
}

abbrev no_vlan : Mechanism → Bool
no_vlan m = false

abbrev set_mtu : Call
set_mtu = sw_interface_set_mtu 2 (1500 ∷ 1500 ∷ 1500 ∷ 1500 ∷ [])

abbrev done : State (Unit {0})
done = record ready { calls = set_mtu ∷ [] }

-- The server's interface 2 gets the MTU 1500 of the connection.
sized_ok : side_request willing no_vlan sizing false (asking Payload.ip) ready ≡ (ok sized, done)
unfolding request
sized_ok = refl

request-sets_example :
    (u : State (Unit {0})) × (sizing.request
        (asked (asking Payload.ip) (some (conn Payload.ip)))
        ready
      ≡ (ok sized, u))
    × (done ≡ record u { calls = after_request willing no_vlan false sized u })
request-sets_example =
    request-sets willing no_vlan sizing false (asking Payload.ip) sized ready done sized_ok
