-- ===== src/InterfaceUp.antt =====
-- pkg/networkservice/up: the interface of a connection is set up, and its link waited for where the
-- metadata say so. The elements for peers (peerup and ipsecup), which stand beside this one in the
-- client's chain, are not modelled.
--
-- VPP's events are the parameter `Watcher`: what is received from a watcher that was made after a history of
-- messages, until the context is done, and then the context's error.
pub mod Waiting
pub mod Tests
use sdk_vpp.Prelude.{
  ℕ, Bool, true, false, ◌&&◌, Option, none, some, List, [], ◌∷◌, ◌==◌, if◌then◌else◌,
}
use sdk_vpp.Vpp.{
  Vpp, Error, Call, SwInterfaceDetails, sw_interface_dump_at, sw_interface_set_flags,
  want_interface_events,
}
use sdk_vpp.Exec.{State, M, ◌>>=◌, ◌>>◌, pure, throw, try, wrapping, dump, send_, get_own, set_own}
use sdk_vpp.Chain.{Connection, Request, Refusal, Next, refuse, close_after}
use sdk_vpp.Metadata.Up

-- SwInterfaceEvent with its SwIfIndex and whether its Flags have LINK_UP
pub data Event : Type 0 where
  interface_event : ℕ → Bool → Event
  other_message : Event

pub record Watcher : Type 0 where
  pub fails : List Call → Option Error
  pub events : List Call → List Event
  pub done : List Call → Error
  pub is_invalid_registration : Error → Bool

-- Whether the element has registered for the events
abbrev pub Inited : Type 0
Inited = Bool

unfoldable pub is_up_of : ℕ → Event → Bool
is_up_of i (interface_event j up) = (j == i) && up
is_up_of i other_message = false

module _ (v : Vpp) (w : Watcher) where
  unfoldable pub watched : Option Error → List Event × Error → M Inited Error (List Event × Error)
  watched none stream = pure stream
  watched (some e) stream = throw (Error.wrap "failed to watch interfaces.SwInterfaceEvent" e)

  -- WatchEvent is no message to VPP.
  unfoldable pub watch_event : M Inited Error (List Event × Error)
  unfolding watched
  watch_event s = watched (w.fails s.calls) (w.events s.calls, w.done s.calls) s

  -- The loop over the events
  unfoldable pub wait_events : ℕ → Error → List Event → M Inited Error (Unit {0})
  unfolding is_up_of
  wait_events i done [] = throw (Error.wrap "provided context is done" done)
  wait_events i done (event ∷ events) =
      let rest = wait_events i done events in if is_up_of i event then pure tt else rest

  abbrev pub details_client : ℕ → M Inited Error (List SwInterfaceDetails × Option Error)
  details_client i =
      wrapping "vppapi SwInterfaceDump returned error"
        (dump v (λ h c. (v.interfaces h c, v.stream_error h c)) (sw_interface_dump_at i))

  -- Recv of the first message
  unfoldable pub first_details :
      List SwInterfaceDetails × Option Error → M Inited Error SwInterfaceDetails
  first_details ([], none) =
      throw (Error.wrap "error retrieving SwInterfaceDetails for swIfIndex" (Error.new "EOF"))
  first_details ([], some e) =
      throw (Error.wrap "error retrieving SwInterfaceDetails for swIfIndex" e)
  first_details (d ∷ ds, end) = pure d

  unfoldable pub wait_for_up_link_up : ℕ → M Inited Error (Unit {0})
  unfolding watch_event wait_events first_details
  wait_for_up_link_up i = do
    watcher ← watch_event
    stream ← details_client i
    details ← first_details stream
    if details.is_link_up then pure tt else wait_events i watcher.1 watcher.0

  abbrev pub wait_if : ℕ → Option Bool → M Inited Error (Unit {0})
  unfolding wait_for_up_link_up
  wait_if i none = pure tt
  wait_if i (some wait) = if wait then wait_for_up_link_up i else pure tt

  -- On the interface
  unfoldable pub up_on : Bool → Option ℕ → M Inited Error (Unit {0})
  unfolding wait_if Up.load
  up_on is_client none = pure tt
  up_on is_client (some i) = do
    wrapping "vppapi SwInterfaceSetFlags returned error" (send_ v (sw_interface_set_flags i true))
    wait ← Up.load is_client
    wait_if i wait

  -- A second registration is refused as invalid, and that is as good.
  unfoldable pub init_func : M Inited Error (Unit {0})
  init_func =
      try (send_ v want_interface_events) (λ _. pure tt)
        (λ e.
          if w.is_invalid_registration e
          then pure tt
          else throw (Error.wrap "vppapi WantInterfaceEvents returned error" e))

  unfoldable pub init_from : Bool → M Inited Error (Unit {0})
  unfolding init_func
  init_from true = pure tt
  init_from false = do init_func; set_own true

  unfoldable pub init : M Inited Error (Unit {0})
  unfolding init_from
  init = do inited ← get_own; init_from inited

  -- `load_if_index` is the option WithLoadSwIfIndex (ifindex.Load unless it is set).
  module _ (load_if_index : Bool → State Inited → Option ℕ) where
    unfoldable pub up : Bool → M Inited Error (Unit {0})
    unfolding up_on
    up is_client s = up_on is_client (load_if_index is_client s) s

    module _ (next : Next Inited) where
      unfoldable pub close : Connection → M Inited Error (Unit {0})
      close conn = next.close conn

      abbrev pub with_init :
          (Connection → M Inited Refusal Connection) → Request → M Inited Refusal Connection
      unfolding init
      with_init work r =
          try init (λ _. try (next.request r) work (λ refusal. refuse refusal.error))
            (λ e. refuse e)

      unfoldable pub client_request : Request → M Inited Refusal Connection
      unfolding up close with_init
      client_request = with_init (λ conn. try (up true) (λ _. pure conn) (close_after close conn))

      -- The server sets both sides up, the client's first.
      unfoldable pub server_request : Request → M Inited Refusal Connection
      unfolding up close with_init
      server_request = with_init (λ conn.
          try (up true) (λ _. try (up false) (λ _. pure conn) (close_after close conn))
            (close_after close conn))
