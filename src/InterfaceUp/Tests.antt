-- ===== src/InterfaceUp/Tests.antt =====
-- An instance of the theorem on waiting, and runs.
use mathlib.Core.List.{Memᴰ}
use sdk_vpp.Prelude.{ℕ, ◌≡◌, ◌⊎◌, refl, Bool, true, false, Option, none, some, [], ◌∷◌}
use sdk_vpp.Vpp.{
  Vpp, Error, foreign, SwInterfaceDetails, sw_interface_dump_at, sw_interface_set_flags,
  want_interface_events,
}
use sdk_vpp.Exec.{State, ok, err}
use sdk_vpp.Chain.{Payload}
use sdk_vpp.Metadata.{no_metadata}
use sdk_vpp.Samples.{willing, fresh, asking, granting}
use sdk_vpp.InterfaceUp.{
  interface_event, other_message, Watcher, Inited, up, is_up_of, server_request,
}
use sdk_vpp.InterfaceUp.Waiting.{up-waits}

abbrev eth0 : SwInterfaceDetails
eth0 = record {
  sw_if_index = 4;
  interface_name = "eth0";
  is_link_up = false;
  is_sub = false;
  sub_id = 0;
  mtu = [];
}

abbrev listing : Vpp
listing = record willing { interfaces = λ h c. eth0 ∷ [] }

-- The link of another interface comes up, then that of interface 4.
abbrev arriving : Watcher
arriving = record {
  fails = λ h. none;
  events = λ h. interface_event 3 true ∷ other_message ∷ interface_event 4 true ∷ [];
  done = λ h. foreign 1;
  is_invalid_registration = λ e. false;
}

abbrev fourth : Bool → State Inited → Option ℕ
fourth is_client s = some 4

abbrev start : State Inited
start = record (fresh false) { client = record no_metadata { wait_till_up = some true } }

up-waits_example :
    let flagged = sw_interface_set_flags 4 true ∷ start.calls in
    let t = record start { calls = sw_interface_dump_at 4 ∷ flagged } in
    (((eth0.is_link_up ≡ true) ⊎ Memᴰ (interface_event 4 true) (arriving.events flagged))
      × (up listing arriving fourth true start ≡ (ok tt, t)))
    ⊎ ((eth0.is_link_up ≡ false)
        × (Memᴰ (interface_event 4 true) (arriving.events flagged) → ⊥)
        × (up listing arriving fourth true start
            ≡ (err (Error.wrap "provided context is done" (arriving.done flagged)), t)))
up-waits_example =
    up-waits listing arriving fourth (λ h c. refl) true 4 eth0 [] start refl refl refl refl

-- The server registers once, sets the client's side up and waits for it, then the server's.
served :
    (server_request listing arriving fourth (granting Payload.ip) (asking Payload.ip) start).1.calls
    ≡ sw_interface_set_flags 4 true
      ∷ sw_interface_dump_at 4
      ∷ sw_interface_set_flags 4 true
      ∷ want_interface_events
      ∷ []
unfolding server_request is_up_of
served = refl
