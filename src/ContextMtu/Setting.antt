-- ===== src/ContextMtu/Setting.antt =====
-- The MTU that is asked for, and the MTU that the interface gets.
use sdk_vpp.Prelude.{
  ℕ, ◌≡◌, refl, ap, sym, ◌∙◌, Bool, true, false, Option, none, some, List, [], ◌∷◌, ◌==◌,
  if◌then◌else◌, ◌&&◌,
}
use sdk_vpp.Vpp.{Vpp, Error, Call, sw_interface_set_mtu}
use sdk_vpp.Exec.{
  State, M, Outcome, ok, side, pure, try, wrapping, send_, try-eq-ok, pure-eq-ok,
  wrapped_send_-eq-ok,
}
use sdk_vpp.Chain.{
  Connection, ConnectionContext, Mechanism, Request, Refusal, Next, Payload, close_after, refuse,
  close_after-never_ok, refuse-never_ok,
}
use sdk_vpp.Metadata.Ifindex
use sdk_vpp.ContextMtu.{
  mtu_of, has_vlan, set_conn_context_mtu, set_mtu_on, set_vpp_mtu, request, server_request,
  client_request,
}

-- The connection with an MTU of 9000 in its context
abbrev jumbo : Connection → Option ConnectionContext → Connection
jumbo c none = record c {
  context = some (record { mtu = 9000; src_ip_nets = []; dst_ip_nets = [] });
}
jumbo c (some x) = record c { context = some (record x { mtu = 9000 }) }

abbrev empty_connection : Connection
empty_connection = record {
  id = "";
  network_service = "";
  payload = Payload.other "";
  labels = [];
  mechanism = none;
  context = none;
}

-- The MTU of a context; 0 is unset.
abbrev pub context_mtu : Option ConnectionContext → ℕ
context_mtu none = 0
context_mtu (some x) = x.mtu

-- What is asked of the rest of the chain
unfoldable pub asked : Request → Option Connection → Request
asked r none = record r { connection = some (jumbo empty_connection none) }
asked r (some c) =
    if context_mtu c.context == 0 then record r { connection = some (jumbo c c.context) } else r

-- The message that sets an MTU in all four protocols on an interface, if both are there
abbrev setting : Option ℕ → ℕ → List Call → List Call
setting none mtu calls = calls
setting (some i) mtu calls =
    if mtu == 0 then calls else sw_interface_set_mtu i (mtu ∷ mtu ∷ mtu ∷ mtu ∷ []) ∷ calls

-- Whether a connection is of the type of mechanism that `is_vlan` tells
abbrev vlan_granted : (Mechanism → Bool) → Option Mechanism → Bool
vlan_granted is_vlan none = false
vlan_granted is_vlan (some m) = is_vlan m

asked_lem : (r : Request) → set_conn_context_mtu r ≡ asked r r.connection
unfolding set_conn_context_mtu asked
asked_lem r = asked_from r.connection refl
  where
    asked_from : (o : Option Connection) → r.connection ≡ o → set_conn_context_mtu r ≡ asked r o
    asked_from none h = simp h refl
    asked_from (some c) h = asked_in c c.context h refl
      where
        asked_in :
            (c : Connection) (x : Option ConnectionContext)
            → r.connection ≡ some c
            → c.context ≡ x
            → set_conn_context_mtu r ≡ asked r (some c)
        asked_in c none h k = simp h (simp k refl)
        asked_in c (some x) h k = simp h (simp k refl)

context_mtu_lem : (o : Option ConnectionContext) → mtu_of o ≡ context_mtu o
context_mtu_lem none = refl
context_mtu_lem (some x) = refl

module _ {S : Type 0} (v : Vpp) where
  set_if :
      (b : Bool) (c : Call) (s t : State S)
      → (if b then pure tt else wrapping "vppapi SwInterfaceSetMtu returned error" (send_ v c)) s
        ≡ (ok tt, t)
      → t ≡ record s { calls = if b then s.calls else c ∷ s.calls }
  set_if true c s t h = ap (λ (q : Outcome Error (Unit {0}) × State S). q.1) (sym h)
  set_if false c s t h = wrapped_send_-eq-ok "vppapi SwInterfaceSetMtu returned error" v c s t h

  set_mtu_on_lem :
      (mtu : ℕ) (o : Option ℕ) (s t : State S)
      → set_mtu_on v mtu o s ≡ (ok tt, t)
      → t ≡ record s { calls = setting o mtu s.calls }
  unfolding set_mtu_on
  set_mtu_on_lem mtu none s t h = ap (λ (q : Outcome Error (Unit {0}) × State S). q.1) (sym h)
  set_mtu_on_lem mtu (some i) s t h =
      set_if (mtu == 0) (sw_interface_set_mtu i (mtu ∷ mtu ∷ mtu ∷ mtu ∷ [])) s t h

  -- The client's Request or the server's
  abbrev pub side_request : (Mechanism → Bool) → Next S → Bool → Request → M S Refusal Connection
  side_request is_vlan next true = client_request v is_vlan next
  side_request is_vlan next false = server_request v next

  -- The messages after Request, from those that the rest of the chain left
  abbrev pub after_request : (Mechanism → Bool) → Bool → Connection → State S → List Call
  after_request is_vlan is_client c u =
      if is_client && vlan_granted is_vlan c.mechanism
      then u.calls
      else setting (side is_client u).if_index (context_mtu c.context) u.calls

  module _ (next : Next S) (is_client : Bool) where
    finished :
        (skip : Bool) (c c' : Connection) (u t : State S)
        → (if skip
              then pure c
              else try (set_vpp_mtu v c is_client) (λ _. pure c) (close_after next.close c))
            u
          ≡ (ok c', t)
        → (c ≡ c')
          × (t ≡ record u {
            calls =
                if skip
                then u.calls
                else setting (side is_client u).if_index (mtu_of c.context) u.calls;
          })
    unfolding set_vpp_mtu Ifindex.load
    finished true c c' u t h =
        let (same, there) = pure-eq-ok {E = Refusal} c c' u t h in (same, sym there)
    finished false c c' u t h =
        let (x, w, set, done) =
          try-eq-ok (λ _. pure c) (close_after next.close c) (set_vpp_mtu v c is_client) u
            (λ e y k. close_after-never_ok next.close c e y k) h in
        let (same, there) = pure-eq-ok {E = Refusal} c c' w t done in
        (same, sym there ∙ set_mtu_on_lem (mtu_of c.context) ((side is_client u).if_index) u w set)

    requested :
        (skips : Connection → Bool) (r : Request) (c' : Connection) (s t : State S)
        → request v skips next is_client r s ≡ (ok c', t)
        → (u : State S) × (next.request (asked r r.connection) s ≡ (ok c', u))
          × (t ≡ record u {
            calls =
                if skips c'
                then u.calls
                else setting (side is_client u).if_index (context_mtu c'.context) u.calls;
          })
    unfolding request
    requested skips r c' s t h =
        let (c, u, granted, rest) =
          try-eq-ok _ (λ refusal. refuse refusal.error) (next.request (set_conn_context_mtu r)) s
            (λ refusal y k. refuse-never_ok refusal.error y k) h in
        let (same, final) = finished (skips c) c c' u t rest in
        (
          u,
          simp (← asked_lem r) (granted ∙ ap (λ (x : Connection). (ok x, u)) same),
          final
              ∙ ap
                  (λ (n : ℕ). record u {
                    calls =
                        if skips c then u.calls else setting (side is_client u).if_index n u.calls;
                  })
                  (context_mtu_lem c.context)
              ∙ ap
                  (λ (x : Connection). record u {
                    calls =
                        if skips x
                        then u.calls
                        else setting (side is_client u).if_index (context_mtu x.context) u.calls;
                  })
                  same,
        )

  -- When Request of the client or the server succeeded, then the rest of the chain was asked with the
  -- MTU of the request, 9000 where that was unset, and granted the connection that is returned; after
  -- it, one message set that connection's MTU in all four protocols on the stored interface of the
  -- side, or none was sent: where the connection has no MTU, there is no interface, or, on the client's
  -- side, the connection is of a vlan mechanism.
  pub request-sets :
      (is_vlan : Mechanism → Bool) (next : Next S) (is_client : Bool) (r : Request) (c : Connection)
      (s t : State S)
      → side_request is_vlan next is_client r s ≡ (ok c, t)
      → (u : State S) × (next.request (asked r r.connection) s ≡ (ok c, u))
        × (t ≡ record u { calls = after_request is_vlan is_client c u })
  request-sets is_vlan next true r c s t h =
      requested next true (λ conn. has_vlan is_vlan conn.mechanism) r c s t h
  request-sets is_vlan next false r c s t h = requested next false (λ conn. false) r c s t h
