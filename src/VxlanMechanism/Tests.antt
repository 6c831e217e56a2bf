-- ===== src/VxlanMechanism/Tests.antt =====
-- Instances of the theorems on VXLAN tunnels, and runs.
use sdk_vpp.Prelude.{◌≡◌, refl, true, false, some, [], ◌∷◌}
use sdk_vpp.Exec.{State, ok, pure}
use sdk_vpp.Chain.{Connection, Mechanism, Next, Payload}
use sdk_vpp.Samples.{willing, fresh, conn, asking, ten}
use sdk_vpp.VxlanMechanism.{VxlanApi, add_del, request}
use sdk_vpp.VxlanMechanism.Cycle.{Sent, add_del-undone}
use sdk_vpp.VxlanMechanism.Once.{request_refreshed}

abbrev mechanism : Mechanism
mechanism = record { type_name = "VXLAN"; parameters = [] }

abbrev tunnelled : Connection
tunnelled = record (conn Payload.ethernet) { mechanism = some mechanism }

-- Every mechanism is taken for one between two fixed addresses.
abbrev views : VxlanApi
views = record {
  is_mechanism = λ m. true;
  src_ip = λ m. ten;
  dst_ip = λ m. 10 ∷ 0 ∷ 0 ∷ 2 ∷ [];
  src_port = λ m. 4789;
  dst_port = λ m. 4789;
  vni = λ m. 5;
  mechanism_type = "VXLAN";
}

abbrev start : State (Unit {0})
start = fresh tt

abbrev made : State (Unit {0})
unfolding add_del
made = (add_del views willing false true tunnelled start).1

abbrev gone : State (Unit {0})
unfolding add_del
gone = (add_del views willing false false tunnelled made).1

made_ok : add_del views willing false true tunnelled start ≡ (ok tt, made)
unfolding made add_del
made_ok = refl

gone_ok : add_del views willing false false tunnelled made ≡ (ok tt, gone)
unfolding gone made add_del
gone_ok = refl

add_del-undone_example :
    Sent views willing false mechanism true start made
    × Sent views willing false mechanism false made gone
add_del-undone_example =
    add_del-undone views willing false tunnelled mechanism start made gone refl refl made_ok gone_ok

abbrev returning : Next (Unit {0})
returning = record { request = λ r. pure tunnelled; close = λ c. pure tt }

abbrev served : State (Unit {0})
unfolding request
served = (request views willing true returning (asking Payload.ethernet) start).1

served_ok :
    request views willing true returning (asking Payload.ethernet) start ≡ (ok tunnelled, served)
unfolding served request
served_ok = refl

request_refreshed_example :
    request views willing true returning (asking Payload.ethernet) served ≡ (ok tunnelled, served)
request_refreshed_example =
    request_refreshed views willing true returning (asking Payload.ethernet) tunnelled tunnelled
      start served refl (λ w. refl) served_ok
