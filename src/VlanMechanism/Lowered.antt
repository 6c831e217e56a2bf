-- ===== src/VlanMechanism/Lowered.antt =====
-- The MTU of a VLAN connection after Request.
use Prim.Native.String.{◌++◌ as ◌+++◌}
use mathlib.Core.List.{Memᴰ}
use sdk_vpp.Prelude.{
  ℕ, ◌≡◌, ◌≤◌, ◌<◌, ◌≢◌, ◌⊎◌, inl, inr, ap, sym, ◌∙◌, refl, Bool, true, false, Option, none, some,
  List, ◌∷◌, [], String, arith, if◌then◌else◌,
}
use sdk_vpp.Prelude.Keys.{string_eq}
use sdk_vpp.Prelude.Assoc.{Map, lookup, insert, lookup-insert_self}
use sdk_vpp.Vpp.{Vpp, Error, SwInterfaceDetails, sw_interface_dump_named}
use sdk_vpp.Exec.{
  State, M, Outcome, ok, pure, ◌>>=◌, ◌>>◌, get_own, set_own, >>=-eq-ok, try-eq-ok, pure-eq-ok,
  wrapped_dump-eq-ok,
}
use sdk_vpp.Chain.{
  Connection, Mechanism, Request, Refusal, Next, to_mechanism, close_after-never_ok,
}
use sdk_vpp.ContextMtu.{mtu_of}
use sdk_vpp.Metadata.Ifindex
use sdk_vpp.VlanMechanism.{VlanApi, via_of}
use sdk_vpp.VlanMechanism.Interfaces.{device_named}
use sdk_vpp.VlanMechanism.Mtu.{
  MtuMap, lowered, first_mtu, unlisted, scan_mtu, listed, get_mtu, close, lower_by, lower_on,
  lower_with, lower_stored, request,
}

-- What the MTU is: a positive limit bounds it, and it does not grow; the limit 0 leaves it alone.
pub record Bounded (limit old new : ℕ) : Type 0 where
  pub positive : 0 < limit → (0 < new) × (new ≤ limit)
  pub smaller : old ≢ 0 → new ≤ old
  pub free : limit ≡ 0 → new ≡ old

lowered-Bounded :
    (limit : ℕ) (c : Connection)
    → Bounded limit (mtu_of c.context) (mtu_of (lowered limit c).context)
unfolding lowered
lowered-Bounded limit c = record {
  positive = λ h. (ground arith, ground arith);
  smaller = λ h. ground arith;
  free = λ h. ground arith;
}

module _ (v : Vpp) where
  -- An interface listed under the name has this MTU.
  pub record Measured (host : String) (ds : List SwInterfaceDetails) (mtu : ℕ) : Type 0 where
    pub details : SwInterfaceDetails
    pub found : Memᴰ details ds
    pub named : device_named host details ≡ true
    pub others : List ℕ
    pub first : details.mtu ≡ mtu ∷ others

  first_mtu_lem :
      (mtus : List ℕ) (mtu : ℕ) (s t : State MtuMap)
      → first_mtu v mtus s ≡ (ok mtu, t)
      → (others : List ℕ) × (mtus ≡ mtu ∷ others) × (t ≡ s)
  unfolding first_mtu
  first_mtu_lem [] mtu s t h = cc (ap (λ (q : Outcome Error ℕ × State MtuMap). q.0) h)
  first_mtu_lem (m ∷ ms) mtu s t h =
      let (same, there) = pure-eq-ok {E = Error} m mtu s t h in
      (ms, ap (λ (n : ℕ). n ∷ ms) same, sym there)

  scanned :
      (host : String) (d : SwInterfaceDetails) (ds : List SwInterfaceDetails) (b : Bool)
      (rest : M MtuMap Error ℕ) (mtu : ℕ) (s t : State MtuMap)
      → device_named host d ≡ b
      → (if b then first_mtu v d.mtu else rest) s ≡ (ok mtu, t)
      → (rest s ≡ (ok mtu, t) → Measured host ds mtu × (t ≡ s))
      → Measured host (d ∷ ds) mtu × (t ≡ s)
  scanned host d ds true rest mtu s t named h later =
      let (others, first, there) = first_mtu_lem d.mtu mtu s t h in
      (
        record {
          details = d;
          found = Memᴰ.head refl;
          named = named;
          others = others;
          first = first;
        },
        there,
      )
  scanned host d ds false rest mtu s t named h later =
      let (m, there) = later h in
      (
        record {
          details = m.details;
          found = Memᴰ.tail m.found;
          named = m.named;
          others = m.others;
          first = m.first;
        },
        there,
      )

  unlisted_never_ok :
      (host : String) (end : Option Error) (mtu : ℕ) (s t : State MtuMap)
      → unlisted v host end s ≡ (ok mtu, t)
      → ⊥
  unfolding unlisted
  unlisted_never_ok host none mtu s t h = cc (ap (λ (q : Outcome Error ℕ × State MtuMap). q.0) h)
  unlisted_never_ok host (some e) mtu s t h =
      cc (ap (λ (q : Outcome Error ℕ × State MtuMap). q.0) h)

  scan_mtu-Measured :
      (host : String) (end : Option Error) (ds : List SwInterfaceDetails) (mtu : ℕ)
      (s t : State MtuMap)
      → scan_mtu v host end ds s ≡ (ok mtu, t)
      → Measured host ds mtu × (t ≡ s)
  unfolding scan_mtu
  scan_mtu-Measured host end [] mtu s t h = absurd (unlisted_never_ok host end mtu s t h)
  scan_mtu-Measured host end (d ∷ ds) mtu s t h =
      scanned host d ds (device_named host d) (scan_mtu v host end ds) mtu s t refl h
        (scan_mtu-Measured host end ds mtu s t)

  abbrev pub listed_now : String → State MtuMap → List SwInterfaceDetails
  listed_now host s = v.interfaces s.calls (sw_interface_dump_named host)

  get_mtu-Measured :
      (host : String) (mtu : ℕ) (s t : State MtuMap)
      → get_mtu v host s ≡ (ok mtu, t)
      → Measured host (listed_now host s) mtu
        × (t ≡ record s { calls = sw_interface_dump_named host ∷ s.calls })
  unfolding get_mtu
  get_mtu-Measured host mtu s t h =
      let (stream, u, dumped, scan) =
        >>=-eq-ok (λ x. scan_mtu v host x.1 x.0) (listed v host) s h in
      let (same, there) =
        wrapped_dump-eq-ok ("failed to get interface dump client to determine MTU on " +++ host) v
          (λ l c. (v.interfaces l c, v.stream_error l c)) (sw_interface_dump_named host) stream s u
          dumped in
      let list' : stream.0 ≡ listed_now host s =
        ap (λ (q : List SwInterfaceDetails × Option Error). q.0) same in
      let (m, after) = scan_mtu-Measured host stream.1 stream.0 mtu u t scan in
      (simp (← list') m, after ∙ there)

module _ (v : Vpp) (api : VlanApi) (device_names : Map String String) (next : Next MtuMap) where
  -- What was taken for the MTU of the device, and where it comes from
  pub record Limited (host : String) (c c' : Connection) (s t : State MtuMap) : Type 0 where
    pub limit : ℕ
    pub known : lookup host t.own ≡ some limit
    pub bounded : Bounded limit (mtu_of c.context) (mtu_of c'.context)
    pub asked_once :
        ((lookup host s.own ≡ some limit) × (t ≡ s))
        ⊎ ((lookup host s.own ≡ none)
            × Measured v host (listed_now v host s) limit
            × (t.calls ≡ sw_interface_dump_named host ∷ s.calls))

  lower_by-Limited :
      (host : String) (c c' : Connection) (o : Option ℕ) (s t : State MtuMap)
      → lookup host s.own ≡ o
      → lower_by v api device_names next host c o s ≡ (ok c', t)
      → Limited host c c' s t
  unfolding lower_by
  lower_by-Limited host c c' (some limit) s t held h =
      let (same, there) = pure-eq-ok {E = Refusal} (lowered limit c) c' s t h in
      record {
        limit = limit;
        known = ap (λ (x : State MtuMap). lookup host x.own) (sym there) ∙ held;
        bounded = simp (← same) (lowered-Bounded limit c);
        asked_once = inl (held, sym there);
      }
  lower_by-Limited host c c' none s t held h =
      let lowering =
        λ (n : ℕ). get_own >>= λ known. (set_own (insert host n known) >> pure (lowered n c)) in
      let (limit, u, got, rest) =
        try-eq-ok lowering _ (get_mtu v host) s
          (λ e x. close_after-never_ok (close v api device_names next) c e x) h in
      let (m, asked) = get_mtu-Measured v host limit s u got in
      let (same, there) =
        pure-eq-ok {E = Refusal} (lowered limit c) c' (record u { own = insert host limit u.own }) t
          rest in
      record {
        limit = limit;
        known =
            ap (λ (x : State MtuMap). lookup host x.own) (sym there)
            ∙ lookup-insert_self host limit u.own;
        bounded = simp (← same) (lowered-Bounded limit c);
        asked_once = inr (
          held,
          m,
          ap (λ (x : State MtuMap). x.calls) (sym there) ∙ ap (λ (x : State MtuMap). x.calls) asked,
        );
      }

  lower_stored_runs :
      (c : Connection) (i : ℕ) (m : Mechanism) (host : String) (o : Option ℕ) (s : State MtuMap)
      → o ≡ some i
      → to_mechanism api.is_mechanism c.mechanism ≡ some m
      → lookup (via_of c) device_names ≡ some host
      → lower_stored v api device_names next c o s
        ≡ lower_by v api device_names next host c (lookup host s.own) s
  unfolding lower_stored lower_with lower_on
  lower_stored_runs c i m host none s stored kind device = cc
  lower_stored_runs c i m host (some j) s stored kind device = simp kind (simp device refl)

  request_granted :
      (r : Request) (c : Connection) (s : State MtuMap)
      → next.request r s ≡ (ok c, s)
      → request v api device_names next r s
        ≡ lower_stored v api device_names next c (s.client.if_index) s
  unfolding request Ifindex.load
  request_granted r c s passes = simp passes refl

  -- Request of a connection of this mechanism that has a client interface and whose label names a
  -- device, with the rest of the chain granting it and changing nothing: when it succeeded, then the limit
  -- that is stored for the device was stored before and nothing was sent, or it is the first MTU of
  -- an interface listed under the device's name and only that list was asked for. A positive limit
  -- bounds the MTU that the connection has then, which is positive and, where the connection had
  -- one, no larger than it; the limit 0 leaves the MTU as it was.
  pub request-Limited :
      (r : Request) (c c' : Connection) (m : Mechanism) (i : ℕ) (host : String) (s t : State MtuMap)
      → next.request r s ≡ (ok c, s)
      → s.client.if_index ≡ some i
      → to_mechanism api.is_mechanism c.mechanism ≡ some m
      → lookup (via_of c) device_names ≡ some host
      → request v api device_names next r s ≡ (ok c', t)
      → Limited host c c' s t
  request-Limited r c c' m i host s t passes stored kind device h =
      let run =
        sym (
          request_granted r c s passes
          ∙ lower_stored_runs c i m host (s.client.if_index) s stored kind device)
        ∙ h in
      lower_by-Limited host c c' (lookup host s.own) s t refl run
