-- ===== src/BridgeDomain/Tests.antt =====
-- Instances of the theorems on bridge domains, and runs.
use sdk_vpp.Prelude.{◌≡◌, refl, true, false, none, some, [], ◌∷◌, arith, List, Option}
use sdk_vpp.Prelude.Assoc.{lookup, insert, erase}
use sdk_vpp.Prelude.Keys.{nat_eq}
use sdk_vpp.Vpp.{Vpp, Error, foreign, Call, delete_subif, max_uint32}
use sdk_vpp.Exec.{State, ok, err}
use sdk_vpp.Metadata.{no_metadata}
use sdk_vpp.Samples.{willing}
use sdk_vpp.BridgeDomain.{
  Bridges, BridgeDomain, make_key, key_eq, add_bridge_domain, del_bridge_domain,
}
use sdk_vpp.BridgeDomain.Laws.{IsJoined, add_bridge_domain_again, add_bridge_domain-IsJoined}
use sdk_vpp.BridgeDomain.Lifecycle.{Survives, del_bridge_domain-Survives}
use sdk_vpp.BridgeDomain.Leak.{domain_call, port_call, no_bridge, failed_join-leaks, bridge_life}

-- Client interface 1, server interface 2
abbrev ready : State Bridges
ready = record {
  calls = [];
  client = record no_metadata { if_index = some 1 };
  server = record no_metadata { if_index = some 2 };
  own = [];
}

-- Accepts the first message only.
abbrev refuses : List Call → Option Error
refuses [] = none
refuses (c ∷ h) = some (foreign 1)

abbrev refusing : Vpp
refusing = record willing { fails = λ h c. refuses h }

abbrev shared : BridgeDomain
shared = record { id = 7; attached = (1, tt) ∷ (3, tt) ∷ (2, tt) ∷ [] }

abbrev sharing : State Bridges
sharing = record ready { own = (make_key 5 1, shared) ∷ [] }

joined : State Bridges
joined = (add_bridge_domain willing 5 ready).1

joined_ok : add_bridge_domain willing 5 ready ≡ (ok tt, joined)
unfolding joined add_bridge_domain lookup insert
joined_ok = refl

add_bridge_domain_again_example : add_bridge_domain willing 5 joined ≡ (ok tt, joined)
add_bridge_domain_again_example = add_bridge_domain_again willing 5 ready joined joined_ok

add_bridge_domain-IsJoined_example : IsJoined (make_key 5 1) 2 joined.own
add_bridge_domain-IsJoined_example =
    add_bridge_domain-IsJoined willing 5 1 2 ready joined refl refl joined_ok

parted : State Bridges
parted = (del_bridge_domain willing 5 sharing).1

parted_ok : del_bridge_domain willing 5 sharing ≡ (ok tt, parted)
unfolding parted del_bridge_domain lookup insert erase
parted_ok = refl

sharing_client : lookup 1 shared.attached ≡ some tt
unfolding lookup
sharing_client = refl

sharing_other : lookup 3 shared.attached ≡ some tt
unfolding lookup
sharing_other = refl

sharing_stored : lookup (make_key 5 1) sharing.own ≡ some shared
unfolding lookup
sharing_stored = refl

del_bridge_domain-Survives_example : Survives (make_key 5 1) 3 shared parted.own
del_bridge_domain-Survives_example =
    del_bridge_domain-Survives willing 5 1 3 shared sharing parted refl sharing_stored
      sharing_client sharing_other (omega arith) (λ e. cc) (λ e. cc) parted_ok

new_key : lookup (make_key 5 1) ready.own ≡ none
unfolding lookup
new_key = refl

failed_join-leaks_example :
    ((add_bridge_domain refusing 5 ready).0
      ≡ err (Error.wrap "vppapi SwInterfaceSetL2Bridge returned error" (foreign 1)))
    × ((del_bridge_domain refusing 5 (add_bridge_domain refusing 5 ready).1).0 ≡ ok tt)
    × ((del_bridge_domain refusing 5 (add_bridge_domain refusing 5 ready).1).1.calls
        ≡ (add_bridge_domain refusing 5 ready).1.calls)
    × (lookup
          (make_key 5 1)
          (del_bridge_domain refusing 5 (add_bridge_domain refusing 5 ready).1).1.own
        ≡ some (no_bridge 7))
failed_join-leaks_example =
    failed_join-leaks refusing 5 1 2 (foreign 1) ready refl refl new_key refl refl

bridge_life_example :
    let done = del_bridge_domain willing 5 (add_bridge_domain willing 5 ready).1 in
    ((add_bridge_domain willing 5 ready).0 ≡ ok tt)
    × (done.0 ≡ ok tt)
    × (lookup (make_key 5 1) done.1.own ≡ none)
    × (done.1.calls
        ≡ domain_call false 7
          ∷ delete_subif 1
          ∷ port_call 1 7 0 false
          ∷ port_call 2 7 0 false
          ∷ port_call 1 7 0 true
          ∷ port_call 2 7 1 true
          ∷ domain_call true max_uint32
          ∷ [])
bridge_life_example = bridge_life willing 5 1 2 ready refl refl new_key (omega arith) (λ h c. refl)
