-- ===== src/VxlanMechanism/Once.antt =====
-- A refreshed request keeps the tunnel.
use sdk_vpp.Prelude.{ℕ, ◌≡◌, ap, sym, ◌∙◌, refl, Bool, true, Option, none, some}
use sdk_vpp.Vpp.{Vpp, Error}
use sdk_vpp.Exec.{State, Outcome, ok, side, pure}
use sdk_vpp.Chain.{
  Connection, Mechanism, Request, Refusal, Next, Payload, request_then, request_then-passed,
  request_then_ok, payload_of, to_mechanism,
}
use sdk_vpp.Metadata.Ifindex
use sdk_vpp.VxlanMechanism.{
  VxlanApi, offer, request, close, add_del, add_del_stored, add_del_mechanism,
}
use sdk_vpp.VxlanMechanism.Cycle.{change_tunnel-Sent}

module _ {S : Type 0} (api : VxlanApi) (v : Vpp) (is_client : Bool) where
  stored_again :
      (m : Mechanism) (o : Option ℕ) (s t : State S)
      → (side is_client s).if_index ≡ o
      → add_del_stored api v is_client true m o s ≡ (ok tt, t)
      → add_del_mechanism api v is_client true (some m) t ≡ (ok tt, t)
  unfolding add_del_stored add_del_mechanism Ifindex.load
  stored_again m (some i) s t held h =
      let same : s ≡ t = ap (λ (q : Outcome Error (Unit {0}) × State S). q.1) h in
      simp (← same) (simp held refl)
  stored_again m none s t held h =
      let made = change_tunnel-Sent api v is_client m true s t h in simp (made.stored) refl

  mechanism_again :
      (o : Option Mechanism) (s t : State S)
      → add_del_mechanism api v is_client true o s ≡ (ok tt, t)
      → add_del_mechanism api v is_client true o t ≡ (ok tt, t)
  unfolding add_del_mechanism Ifindex.load
  mechanism_again none s t h = refl
  mechanism_again (some m) s t h = stored_again m ((side is_client s).if_index) s t refl h

  module _ (next : Next S) where
    request_ethernet :
        (r : Request) (s : State S)
        → payload_of r.connection ≡ Payload.ethernet
        → request api v is_client next r s
          ≡ request_then
              (add_del api v is_client true)
              (close api v is_client next)
              next
              (offer api is_client r)
              s
    unfolding request
    request_ethernet r s ethernet = simp ethernet refl

    -- When Request of an Ethernet connection succeeded, with the rest of the chain granting the connection
    -- and changing nothing, then Request in the state that is left succeeds with the same connection,
    -- sends nothing to VPP and changes nothing: the tunnel is made once, on both sides.
    pub request_refreshed :
        (r : Request) (c c' : Connection) (s t : State S)
        → payload_of r.connection ≡ Payload.ethernet
        → ((w : State S) → next.request (offer api is_client r) w ≡ (ok c, w))
        → request api v is_client next r s ≡ (ok c', t)
        → request api v is_client next r t ≡ (ok c', t)
    unfolding add_del
    request_refreshed r c c' s t ethernet passes h =
        let work = add_del api v is_client true in
        let close' = close api v is_client next in
        let r' = offer api is_client r in
        let run = sym (request_ethernet r s ethernet) ∙ h in
        let (same, worked) = request_then-passed work close' next r' s t c c' (passes s) run in
        let again = mechanism_again (to_mechanism api.is_mechanism c.mechanism) s t worked in
        request_ethernet r t ethernet
        ∙ request_then_ok work close' next r' t t t c (passes t) again
        ∙ ap (λ (x : Connection). pure {S = S} {E = Refusal} x t) same
