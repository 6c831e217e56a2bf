-- ===== src/L2xconnect/Tests.antt =====
-- Instances of the theorems on the l2 cross connect, and runs.
use sdk_vpp.Prelude.{ℕ, ◌≡◌, refl, true, false, Option, none, some, [], ◌∷◌, if◌then◌else◌, ◌==◌}
use sdk_vpp.Vpp.{Vpp, Error, foreign, Call, sw_interface_set_l2_xconnect}
use sdk_vpp.Exec.{State, err}
use sdk_vpp.Chain.{Payload}
use sdk_vpp.Metadata.{no_metadata}
use sdk_vpp.Samples.{willing, conn, asking, granting}
use sdk_vpp.L2xconnect.{request}
use sdk_vpp.L2xconnect.Bridged.{refused_direction-undone}

abbrev ready : Option ℕ → State (Unit {0})
ready vlan_id = record {
  calls = [];
  client = record no_metadata { if_index = some 1; vlan = vlan_id };
  server = record no_metadata { if_index = some 2 };
  own = tt;
}

-- Refuses to cross-connect from interface 2.
abbrev from_two : Call → Option Error
from_two c = elim c [
  | sw_interface_set_l2_xconnect rx tx enable ↦ elim enable [
    | true ↦ (if rx == 2 then some (foreign 1) else none)
    | false ↦ none
  ]
  | c' ↦ none
]

abbrev one_way : Vpp
one_way = record willing { fails = λ h c. from_two c }

refused_direction-undone_example :
    let t =
      (request one_way (granting Payload.ethernet) (asking Payload.ethernet) (ready none)).1 in
    ((request one_way (granting Payload.ethernet) (asking Payload.ethernet) (ready none)).0
      ≡ err (record {
        conn = none;
        error = Error.wrap "vppapi SwInterfaceSetL2Xconnect returned error" (foreign 1);
      }))
    × (t.calls
        ≡ sw_interface_set_l2_xconnect 2 1 false
          ∷ sw_interface_set_l2_xconnect 1 2 false
          ∷ sw_interface_set_l2_xconnect 2 1 true
          ∷ sw_interface_set_l2_xconnect 1 2 true
          ∷ [])
refused_direction-undone_example =
    refused_direction-undone one_way (granting Payload.ethernet) (asking Payload.ethernet)
      (conn Payload.ethernet) 1 2 (ready none) refl refl refl refl (λ t. refl) (λ t. refl)
      (foreign 1) refl refl refl (λ h rx tx. refl)
