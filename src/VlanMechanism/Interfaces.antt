-- ===== src/VlanMechanism/Interfaces.antt =====
-- Which interfaces the client of a VLAN connection finds, and which of them it takes.
use Prim.Native.String.{◌++◌ as ◌+++◌}
use mathlib.Core.List.{Memᴰ}
use sdk_vpp.Prelude.{
  ◌&&◌, ◌||◌, not, ℕ, ◌≡◌, ◌≢◌, ◌⊎◌, inl, inr, ap, sym, ◌∙◌, refl, Bool, true, false, Option, none,
  some, List, ◌∷◌, [], String, ◌==◌, arith, if◌then◌else◌,
}
use sdk_vpp.Prelude.Keys.{string_eq, ◌=?◌}
use sdk_vpp.Vpp.{Vpp, Error, SwInterfaceDetails, sw_interface_dump_named, create_vlan_subif}
use sdk_vpp.Exec.{
  State, M, Outcome, ok, pure, throw, pure-eq-ok, >>=-eq-ok, wrapped_send-eq-ok, wrapped_dump-eq-ok,
}
use sdk_vpp.VlanMechanism.{
  contains, host_found, scan_interfaces, named_interfaces, get_host_or_vlan_interface,
  vpp_add_sub_if,
}

-- An interface with the device's name, or with that of its af_packet interface
abbrev pub device_named : String → SwInterfaceDetails → Bool
device_named host d = (host =? d.interface_name) || (("host-" +++ host) =? d.interface_name)

-- A sub-interface with the VLAN ID, which is not 0, whose name contains the device's
abbrev pub vlan_listed : String → ℕ → SwInterfaceDetails → Bool
vlan_listed host vlan_id d =
    not (vlan_id == 0) && (contains d.interface_name host && (d.is_sub && (d.sub_id == vlan_id)))

-- An interface of the list that passes the test
pub record IsListed (test : SwInterfaceDetails → Bool) (ds : List SwInterfaceDetails) (i : ℕ)
    : Type 0 where
  pub details : SwInterfaceDetails
  pub listed : Memᴰ details ds
  pub passes : test details ≡ true
  pub index : details.sw_if_index ≡ i

module _ (test : SwInterfaceDetails → Bool) (d : SwInterfaceDetails)
    (ds : List SwInterfaceDetails) where
  first_IsListed : test d ≡ true → IsListed test (d ∷ ds) d.sw_if_index
  first_IsListed h = record { details = d; listed = Memᴰ.head refl; passes = h; index = refl }

  later_IsListed : (i : ℕ) → IsListed test ds i → IsListed test (d ∷ ds) i
  later_IsListed i h = record {
    details = h.details;
    listed = Memᴰ.tail h.listed;
    passes = h.passes;
    index = h.index;
  }

not_zero : (n : ℕ) → (n == 0) ≡ false → n ≢ 0
not_zero n h e = ground arith

untagged :
    (host : String) (vlan_id : ℕ) (d : SwInterfaceDetails)
    → vlan_id ≡ 0
    → vlan_listed host vlan_id d ≡ true
    → ⊥
untagged host vlan_id d z h = ground arith

module _ (host : String) (vlan_id : ℕ) where
  -- The VLAN's interface, or else the device's, which `start` is until one is found
  abbrev pub Found : List SwInterfaceDetails → ℕ → ℕ × ℕ → Type 0
  Found ds start found =
      ((found.0 ≡ 0) × IsListed (vlan_listed host vlan_id) ds found.1)
      ⊎ ((found.1 ≡ 0)
          × (found.0 ≢ 0)
          × ((found.0 ≡ start) ⊎ IsListed (device_named host) ds found.0))

  module _ (d : SwInterfaceDetails) (ds : List SwInterfaceDetails) (start : ℕ) (found : ℕ × ℕ) where
    named_Found :
        (b : Bool)
        → device_named host d ≡ b
        → (found.0 ≡ (if b then d.sw_if_index else start)) ⊎ IsListed (device_named host) ds found.0
        → (found.0 ≡ start) ⊎ IsListed (device_named host) (d ∷ ds) found.0
    named_Found b h (inr listed) = inr (later_IsListed (device_named host) d ds found.0 listed)
    named_Found true h (inl same) =
        inr (record { details = d; listed = Memᴰ.head refl; passes = h; index = sym same })
    named_Found false h (inl same) = inl same

    cons_Found :
        Found ds (if device_named host d then d.sw_if_index else start) found
        → Found (d ∷ ds) start found
    cons_Found (inl (zero', listed)) =
        inl (zero', later_IsListed (vlan_listed host vlan_id) d ds found.1 listed)
    cons_Found (inr (zero', some', device)) =
        inr (zero', some', named_Found (device_named host d) refl device)

  module _ {S : Type 0} (v : Vpp) (end : Option Error) where
    host_if :
        (b : Bool) (e : Error) (start : ℕ) (found : ℕ × ℕ) (s t : State S)
        → (start == 0) ≡ b
        → (if b then throw e else pure (start, 0)) s ≡ (ok found, t)
        → (found.0 ≡ start) × (found.1 ≡ 0) × (found.0 ≢ 0) × (t ≡ s)
    host_if true e start found s t z h = cc (ap (λ (q : Outcome Error (ℕ × ℕ) × State S). q.0) h)
    host_if false e start found s t z h =
        let (same, there) = pure-eq-ok {E = Error} (start, 0) found s t h in
        let same0 : start ≡ found.0 = ap (λ (q : ℕ × ℕ). q.0) same in
        let same1 : 0 ≡ found.1 = ap (λ (q : ℕ × ℕ). q.1) same in
        (sym same0, sym same1, λ zero'. not_zero start z (same0 ∙ zero'), sym there)

    host_found_lem :
        (e : Option Error) (start : ℕ) (found : ℕ × ℕ) (s t : State S)
        → host_found v host e start s ≡ (ok found, t)
        → (found.0 ≡ start) × (found.1 ≡ 0) × (found.0 ≢ 0) × (t ≡ s)
    unfolding host_found
    host_found_lem (some e) start found s t h =
        cc (ap (λ (q : Outcome Error (ℕ × ℕ) × State S). q.0) h)
    host_found_lem none start found s t h =
        host_if (start == 0) (Error.new ("no interface name found " +++ host)) start found s t refl
          h

    scanned :
        (d : SwInterfaceDetails) (ds : List SwInterfaceDetails) (start : ℕ) (found : ℕ × ℕ)
        (s t : State S) (b : Bool) (rest : M S Error (ℕ × ℕ))
        → vlan_listed host vlan_id d ≡ b
        → (if b then pure (0, d.sw_if_index) else rest) s ≡ (ok found, t)
        → (rest s ≡ (ok found, t)
            → Found ds (if device_named host d then d.sw_if_index else start) found × (t ≡ s))
        → Found (d ∷ ds) start found × (t ≡ s)
    scanned d ds start found s t true rest matches h later =
        let (same, there) = pure-eq-ok {E = Error} (0, d.sw_if_index) found s t h in
        let here : IsListed (vlan_listed host vlan_id) (d ∷ ds) found.1 = record {
          details = d;
          listed = Memᴰ.head refl;
          passes = matches;
          index = ap (λ (q : ℕ × ℕ). q.1) same;
        } in
        (inl (sym (ap (λ (q : ℕ × ℕ). q.0) same), here), sym there)
    scanned d ds start found s t false rest matches h later =
        let (f, there) = later h in (cons_Found d ds start found f, there)

    scan_interfaces-Found :
        (start : ℕ) (ds : List SwInterfaceDetails) (found : ℕ × ℕ) (s t : State S)
        → scan_interfaces v host vlan_id end start ds s ≡ (ok found, t)
        → Found ds start found × (t ≡ s)
    unfolding scan_interfaces
    scan_interfaces-Found start [] found s t h =
        let (same, zero', some', there) = host_found_lem end start found s t h in
        (inr (zero', some', inl same), there)
    scan_interfaces-Found start (d ∷ ds) found s t h =
        let rest =
          scan_interfaces-Found (if device_named host d then d.sw_if_index else start) ds found s
            t in
        scanned d ds start found s t (vlan_listed host vlan_id d)
          (scan_interfaces v host vlan_id end (if device_named host d then d.sw_if_index else start)
            ds)
          refl h rest

  device_of :
      (ds : List SwInterfaceDetails) (x : ℕ × ℕ)
      → Found ds 0 x
      → x.1 ≡ 0
      → ((i : ℕ) → IsListed (vlan_listed host vlan_id) ds i → i ≢ 0)
      → (x.0 ≢ 0) × IsListed (device_named host) ds x.0
  device_of ds x (inl (zero', listed)) none' no_zero = absurd (no_zero x.1 listed none')
  device_of ds x (inr (zero', some', inl start)) none' no_zero = absurd (some' start)
  device_of ds x (inr (zero', some', inr listed)) none' no_zero = (some', listed)

  no_vlan :
      vlan_id ≡ 0
      → (ds : List SwInterfaceDetails) (x : ℕ × ℕ) → Found ds 0 x
      → IsListed (device_named host) ds x.0
  no_vlan z ds x (inl (zero', listed)) =
      absurd (untagged host vlan_id listed.details z listed.passes)
  no_vlan z ds x (inr (zero', some', inl start)) = absurd (some' start)
  no_vlan z ds x (inr (zero', some', inr listed)) = listed

  vlan_of :
      (ds : List SwInterfaceDetails) (x : ℕ × ℕ)
      → Found ds 0 x
      → x.1 ≢ 0
      → IsListed (vlan_listed host vlan_id) ds x.1
  vlan_of ds x (inl (zero', listed)) some' = listed
  vlan_of ds x (inr (zero', other, rest)) some' = absurd (some' zero')

  module _ {S : Type 0} (v : Vpp) where
    abbrev pub listed_now : State S → List SwInterfaceDetails
    listed_now s = v.interfaces s.calls (sw_interface_dump_named host)

    -- What the look for the interfaces found
    pub get_host_or_vlan_interface-Found :
        (found : ℕ × ℕ) (s t : State S)
        → get_host_or_vlan_interface v host vlan_id s ≡ (ok found, t)
        → Found (listed_now s) 0 found
          × (t ≡ record s { calls = sw_interface_dump_named host ∷ s.calls })
    unfolding get_host_or_vlan_interface
    get_host_or_vlan_interface-Found found s t h =
        let (stream, u, listed, scan) =
          >>=-eq-ok (λ x. scan_interfaces v host vlan_id x.1 0 x.0) (named_interfaces v host) s h in
        let (same, there) =
          wrapped_dump-eq-ok
            ("error attempting to get interface dump client to set vlan subinterface on " +++ host)
            v (λ l c. (v.interfaces l c, v.stream_error l c)) (sw_interface_dump_named host) stream
            s u listed in
        let list' : stream.0 ≡ listed_now s =
          ap (λ (q : List SwInterfaceDetails × Option Error). q.0) same in
        let (f, after) = scan_interfaces-Found v stream.1 0 stream.0 found u t scan in
        (simp (← list') f, after ∙ there)

    -- What the choice among the two leaves
    abbrev pub Choice : List SwInterfaceDetails → ℕ → State S → State S → Type 0
    Choice ds i s t =
        (vlan_id ≡ 0 → IsListed (device_named host) ds i × (t ≡ s))
        × (vlan_id ≢ 0
            → (IsListed (vlan_listed host vlan_id) ds i × (t ≡ s))
              ⊎ ((parent : ℕ) × (parent ≢ 0)
                  × IsListed (device_named host) ds parent
                  × (t ≡ record s { calls = create_vlan_subif parent vlan_id ∷ s.calls })
                  × (i ≡ v.index s.calls (create_vlan_subif parent vlan_id))))

    pub choose_if :
        (b c : Bool) (ds : List SwInterfaceDetails) (x : ℕ × ℕ) (i : ℕ) (s t : State S)
        → (vlan_id == 0) ≡ b
        → (x.1 == 0) ≡ c
        → Found ds 0 x
        → ((j : ℕ) → IsListed (vlan_listed host vlan_id) ds j → j ≢ 0)
        → (if b then pure x.0 else if c then vpp_add_sub_if v x.0 vlan_id else pure x.1) s
          ≡ (ok i, t)
        → Choice ds i s t
    unfolding vpp_add_sub_if
    choose_if true c ds x i s t is_zero tagged f no_zero h =
        let (same, there) = pure-eq-ok {E = Error} x.0 i s t h in
        (λ z. (simp (← same) (no_vlan z ds x f), sym there), λ nz. absurd (nz (ground arith)))
    choose_if false true ds x i s t is_zero tagged f no_zero h =
        let call = create_vlan_subif x.0 vlan_id in
        let (there, same) =
          wrapped_send-eq-ok "vppapi CreateVlanSubif returned error" v call s t i h in
        let (some', device) = device_of ds x f (ground arith) no_zero in
        (λ z. absurd (not_zero vlan_id is_zero z), λ nz. inr (x.0, some', device, there, same))
    choose_if false false ds x i s t is_zero tagged f no_zero h =
        let (same, there) = pure-eq-ok {E = Error} x.1 i s t h in
        (
          λ z. absurd (not_zero vlan_id is_zero z),
          λ nz. inl (simp (← same) (vlan_of ds x f (not_zero x.1 tagged)), sym there),
        )
