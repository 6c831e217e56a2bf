-- ===== src/L2xconnect/Bridged.antt =====
-- Who joins an Ethernet connection: the cross connect, or the bridge domain when it has a VLAN ID.
use sdk_vpp.Prelude.{
  ℕ, ◌≡◌, refl, true, false, Option, none, some, List, [], ◌∷◌, if◌then◌else◌, ◌==◌,
}
use sdk_vpp.Vpp.{Vpp, Error, Call, sw_interface_set_l2_xconnect}
use sdk_vpp.Exec.{State, ok, err}
use sdk_vpp.Chain.{Connection, Request, Next, is_ethernet, payload_of}
use sdk_vpp.L2xconnect.{add_del, add_del_on, both_directions, close, request}

-- The interface to which an interface is cross-connected, by the messages sent, newest first
abbrev pub crossed_after : Call → ℕ → Option ℕ → Option ℕ
crossed_after c i held = elim c [
  | sw_interface_set_l2_xconnect rx tx enable ↦
      if rx == i then (if enable then some tx else none) else held
  | c' ↦ held
]

abbrev pub crossed : List Call → ℕ → Option ℕ
crossed [] i = none
crossed (c ∷ calls) i = crossed_after c i (crossed calls i)

module _ {S : Type 0} (v : Vpp) (next : Next S) (r : Request) (c : Connection) (client server : ℕ)
    (s : State S) (client_known : s.client.if_index ≡ some client)
    (server_known : s.server.if_index ≡ some server)
    (asked : is_ethernet (payload_of r.connection) ≡ true) (returned : is_ethernet c.payload ≡ true)
    (passes : (t : State S) → next.request r t ≡ (ok c, t))
    (closes : (t : State S) → next.close c t ≡ (ok tt, t)) where
  -- With a VLAN ID, Request and Close send nothing: what they do is what the rest of the chain does.
  vlan-uncrossed :
      (vlan_id : ℕ)
      → s.client.vlan ≡ some vlan_id
      → (request v next r s ≡ (ok c, s)) × (close v next c s ≡ (ok tt, s))
  unfolding request close add_del add_del_on both_directions
  vlan-uncrossed vlan_id has = (
    simp asked (simp passes (simp client_known (simp server_known (simp has refl)))),
    simp returned (simp client_known (simp server_known (simp has (simp closes refl)))),
  )

  -- Without a VLAN ID, when VPP accepts the first direction, refuses the second, and accepts to undo
  -- both: Request returns the error with a nil connection, after it undid both directions.
  pub refused_direction-undone :
      (e : Error)
      → s.client.vlan ≡ none
      → v.fails s.calls (sw_interface_set_l2_xconnect client server true) ≡ none
      → v.fails
          (sw_interface_set_l2_xconnect client server true ∷ s.calls)
          (sw_interface_set_l2_xconnect server client true)
        ≡ some e
      → ((h : List Call) (rx tx : ℕ) → v.fails h (sw_interface_set_l2_xconnect rx tx false) ≡ none)
      → let t = (request v next r s).1 in
        ((request v next r s).0
          ≡ err (record {
            conn = none;
            error = Error.wrap "vppapi SwInterfaceSetL2Xconnect returned error" e;
          }))
        × (t.calls
            ≡ sw_interface_set_l2_xconnect server client false
              ∷ sw_interface_set_l2_xconnect client server false
              ∷ sw_interface_set_l2_xconnect server client true
              ∷ sw_interface_set_l2_xconnect client server true
              ∷ s.calls)
  unfolding request close add_del add_del_on both_directions
  refused_direction-undone e no_vlan first_ok second_err undoes =
      let run : request v next r s ≡ (
        err (record {
          conn = none;
          error = Error.wrap "vppapi SwInterfaceSetL2Xconnect returned error" e;
        }),
        record s {
          calls =
              sw_interface_set_l2_xconnect server client false
              ∷ sw_interface_set_l2_xconnect client server false
              ∷ sw_interface_set_l2_xconnect server client true
              ∷ sw_interface_set_l2_xconnect client server true
              ∷ s.calls;
        },
      ) =
        simp asked (
          simp passes (
            simp client_known (
              simp server_known (
                simp no_vlan (
                  simp first_ok (
                    simp second_err (
                      simp returned (
                        simp client_known (
                          simp server_known
                            (simp no_vlan (simp undoes (simp closes refl)))))))))))) in
      rw run (refl, refl)
