-- ===== src/TunnelMtu/Discovery.antt =====
-- Where the MTU of a tunnel comes from.
use sdk_vpp.Prelude.{
  ℕ, ◌+◌, ◌≤◌, ◌<◌, ◌≡◌, refl, ap, ◌∙◌, Bool, true, Option, none, some, List, [], ◌∷◌, String,
  arith, Bool-cases, inl, inr,
}
use mathlib.Core.List.{Memᴰ}
use sdk_vpp.Types.{Ip, Prefix, UnionApi, ip_equal, is_v6, from_vpp_address_with_prefix}
use sdk_vpp.Vpp.{Vpp, Error, Call, SwInterfaceDetails, sw_interface_dump, ip_address_dump}
use sdk_vpp.Exec.{State, M, Outcome, ok, >>=-eq-ok, pure, throw}
use sdk_vpp.TunnelMtu.{
  MtuState, sub32, usable_mtu, match_address, scan_addresses, scan_interface, scan_interfaces,
  get_mtu, ending, found_or, return_or, address_client, interface_client,
}

module _ (api : UnionApi) (overhead : Bool → ℕ) (v : Vpp) (tunnel_ip : Ip) where
  -- The MTU `r` is that of interface `d` less the overhead, and one of the addresses is the tunnel's.
  record Measured (d : SwInterfaceDetails) (ps : List Prefix) (r : ℕ) : Type 0 where
    address : Prefix
    listed : Memᴰ address ps
    equal : ip_equal (from_vpp_address_with_prefix api address).ip tunnel_ip ≡ true
    first : ℕ
    others : List ℕ
    is_mtu : d.mtu ≡ first ∷ others
    positive : 0 < first
    result : r ≡ sub32 first (overhead (is_v6 tunnel_ip))

  usable_mtu-some :
      (ms : List ℕ) (r : ℕ) (s t : State MtuState)
      → usable_mtu api overhead v tunnel_ip ms s ≡ (ok (some r), t)
      → (first : ℕ) × (others : List ℕ) × (ms ≡ first ∷ others)
        × (0 < first)
        × (r ≡ sub32 first (overhead (is_v6 tunnel_ip)))
  unfolding usable_mtu
  usable_mtu-some [] r s t e = cc (ap (λ (q : Outcome Error (Option ℕ) × State MtuState). q.0) e)
  usable_mtu-some (m ∷ ms) r s t e = (m, ms, refl, ground arith, ground arith)

  match_address-some :
      (d : SwInterfaceDetails) (p : Prefix) (ps : List Prefix) (r : ℕ) (s t : State MtuState)
      → match_address api overhead v tunnel_ip d p s ≡ (ok (some r), t)
      → Measured d (p ∷ ps) r
  unfolding match_address
  match_address-some d p ps r s t e =
      elim (Bool-cases (ip_equal (from_vpp_address_with_prefix api p).ip tunnel_ip)) [
        | inl yes' ↦
            let found : usable_mtu api overhead v tunnel_ip d.mtu s ≡ (ok (some r), t) =
              ground arith in
            let (m, ms, is_mtu, pos, result) = usable_mtu-some d.mtu r s t found in
            record {
              address = p;
              listed = Memᴰ.head refl;
              equal = yes';
              first = m;
              others = ms;
              is_mtu = is_mtu;
              positive = pos;
              result = result;
            }
        | inr no' ↦ ground arith
      ]

  later_address :
      (d : SwInterfaceDetails) (p : Prefix) (ps : List Prefix) (r : ℕ)
      → Measured d ps r
      → Measured d (p ∷ ps) r
  later_address d p ps r h = record {
    address = h.address;
    listed = Memᴰ.tail h.listed;
    equal = h.equal;
    first = h.first;
    others = h.others;
    is_mtu = h.is_mtu;
    positive = h.positive;
    result = h.result;
  }

  ending-none :
      (text : String) (end : Option Error) (r : ℕ) (s t : State MtuState)
      → ending {A = Option ℕ} text end (pure none) s ≡ (ok (some r), t)
      → ⊥
  ending-none text none r s t e = cc (ap (λ (q : Outcome Error (Option ℕ) × State MtuState). q.0) e)
  ending-none text (some x) r s t e =
      cc (ap (λ (q : Outcome Error (Option ℕ) × State MtuState). q.0) e)

  next_address :
      (d : SwInterfaceDetails) (p : Prefix) (ps : List Prefix) (r : ℕ)
      (rest : M MtuState Error (Option ℕ)) (s t u : State MtuState) (o : Option ℕ)
      → match_address api overhead v tunnel_ip d p s ≡ (ok o, u)
      → found_or o rest u ≡ (ok (some r), t)
      → (rest u ≡ (ok (some r), t) → Measured d ps r)
      → Measured d (p ∷ ps) r
  next_address d p ps r rest s t u (some m) found e later =
      let same : m ≡ r = ground arith in match_address-some d p ps r s u (simp (← same) found)
  next_address d p ps r rest s t u none found e later = later_address d p ps r (later e)

  scan_addresses-some :
      (d : SwInterfaceDetails) (end : Option Error) (ps : List Prefix) (r : ℕ)
      (s t : State MtuState)
      → scan_addresses api overhead v tunnel_ip d end ps s ≡ (ok (some r), t)
      → Measured d ps r
  unfolding scan_addresses
  scan_addresses-some d end [] r s t e = elim (ending-none _ end r s t e) [ ]
  scan_addresses-some d end (p ∷ ps) r s t e =
      let (o, u, found, rest) = >>=-eq-ok _ (match_address api overhead v tunnel_ip d p) s e in
      next_address d p ps r (scan_addresses api overhead v tunnel_ip d end ps) s t u o found rest
        (λ h. scan_addresses-some d end ps r u t h)

  -- An interface that VPP lists in answer to the interface dump, and that is Measured by an answer of
  -- VPP to the address dump of it.
  pub record FromInterface (ds : List SwInterfaceDetails) (r : ℕ) : Type 0 where
    details : SwInterfaceDetails
    dumped : Memᴰ details ds
    history : List Call
    measured :
        Measured details
          (v.addresses history (ip_address_dump details.sw_if_index (is_v6 tunnel_ip)))
          r

  scan_interface-some :
      (d : SwInterfaceDetails) (ds : List SwInterfaceDetails) (r : ℕ) (s t : State MtuState)
      → scan_interface api overhead v tunnel_ip d s ≡ (ok (some r), t)
      → FromInterface (d ∷ ds) r
  unfolding scan_interface
  scan_interface-some d ds r s t e =
      let (stream, u, h, scanned) = >>=-eq-ok _ (address_client api overhead v tunnel_ip d) s e in
      let addresses : stream.0
          ≡ v.addresses s.calls (ip_address_dump d.sw_if_index (is_v6 tunnel_ip)) =
        ground arith in
      record {
        details = d;
        dumped = Memᴰ.head refl;
        history = s.calls;
        measured = simp (← addresses) (scan_addresses-some d stream.1 stream.0 r u t scanned);
      }

  later_interface :
      (d : SwInterfaceDetails) (ds : List SwInterfaceDetails) (r : ℕ)
      → FromInterface ds r
      → FromInterface (d ∷ ds) r
  later_interface d ds r h = record {
    details = h.details;
    dumped = Memᴰ.tail h.dumped;
    history = h.history;
    measured = h.measured;
  }

  next_interface :
      (d : SwInterfaceDetails) (ds : List SwInterfaceDetails) (r : ℕ) (rest : M MtuState Error ℕ)
      (s t u : State MtuState) (o : Option ℕ)
      → scan_interface api overhead v tunnel_ip d s ≡ (ok o, u)
      → return_or o rest u ≡ (ok r, t)
      → (rest u ≡ (ok r, t) → FromInterface ds r)
      → FromInterface (d ∷ ds) r
  next_interface d ds r rest s t u (some m) found e later =
      let same : m ≡ r = ground arith in scan_interface-some d ds r s u (simp (← same) found)
  next_interface d ds r rest s t u none found e later = later_interface d ds r (later e)

  no_interface :
      (text : String) (end : Option Error) (x : Error) (r : ℕ) (s t : State MtuState)
      → ending {A = ℕ} text end (throw x) s ≡ (ok r, t)
      → ⊥
  no_interface text none x r s t e = cc (ap (λ (q : Outcome Error ℕ × State MtuState). q.0) e)
  no_interface text (some y) x r s t e = cc (ap (λ (q : Outcome Error ℕ × State MtuState). q.0) e)

  scan_interfaces-ok :
      (end : Option Error) (ds : List SwInterfaceDetails) (r : ℕ) (s t : State MtuState)
      → scan_interfaces api overhead v tunnel_ip end ds s ≡ (ok r, t)
      → FromInterface ds r
  unfolding scan_interfaces
  scan_interfaces-ok end [] r s t e = elim (no_interface _ end _ r s t e) [ ]
  scan_interfaces-ok end (d ∷ ds) r s t e =
      let (o, u, found, rest) = >>=-eq-ok _ (scan_interface api overhead v tunnel_ip d) s e in
      next_interface d ds r (scan_interfaces api overhead v tunnel_ip end ds) s t u o found rest
        (λ h. scan_interfaces-ok end ds r u t h)

  -- A successful getMTU comes from an interface that VPP listed in this call and that has the address
  -- of the tunnel in an answer of VPP: its MTU is not 0, and the result is that MTU less the overhead
  -- of the tunnel, in the arithmetic of uint32.
  pub get_mtu-FromInterface :
      (r : ℕ) (s t : State MtuState)
      → get_mtu api overhead v tunnel_ip s ≡ (ok r, t)
      → FromInterface (v.interfaces s.calls sw_interface_dump) r
  unfolding get_mtu
  get_mtu-FromInterface r s t e =
      let (stream, u, h, scanned) = >>=-eq-ok _ (interface_client api overhead v tunnel_ip) s e in
      let listed : stream.0 ≡ v.interfaces s.calls sw_interface_dump = ground arith in
      simp (← listed) (scan_interfaces-ok stream.1 stream.0 r u t scanned)

sub32_lem :
    (m o : ℕ)
    → m < 4294967296
    → o < 4294967296
    → (o ≤ m → sub32 m o + o ≡ m) × (m < o → sub32 m o + o ≡ m + 4294967296)
sub32_lem m o hm ho = (λ h. ground arith, λ h. ground arith)

-- With MTUs and an overhead of uint32, a successful getMTU returns the MTU of the interface less the
-- overhead when that MTU is not smaller than the overhead; when it is smaller, the result wraps
-- around: it is that negative difference plus 2^32.
pub get_mtu_wraps :
    (api : UnionApi) (overhead : Bool → ℕ) (v : Vpp) (tunnel_ip : Ip) (r : ℕ) (s t : State MtuState)
    → overhead (is_v6 tunnel_ip) < 4294967296
    → ((d : SwInterfaceDetails) (m : ℕ) (ms : List ℕ)
        → d.mtu ≡ m ∷ ms
        → Memᴰ d (v.interfaces s.calls sw_interface_dump)
        → m < 4294967296)
    → get_mtu api overhead v tunnel_ip s ≡ (ok r, t)
    → (d : SwInterfaceDetails) × (m : ℕ) × (ms : List ℕ) × Memᴰ d
        (v.interfaces s.calls sw_interface_dump)
      × (d.mtu ≡ m ∷ ms)
      × (overhead (is_v6 tunnel_ip) ≤ m → r + overhead (is_v6 tunnel_ip) ≡ m)
      × (m < overhead (is_v6 tunnel_ip) → r + overhead (is_v6 tunnel_ip) ≡ m + 4294967296)
get_mtu_wraps api overhead v tunnel_ip r s t small fits e =
    let f = get_mtu-FromInterface api overhead v tunnel_ip r s t e in
    let x = f.measured in
    let (below, above) =
      sub32_lem x.first (overhead (is_v6 tunnel_ip))
        (fits f.details x.first x.others x.is_mtu f.dumped) small in
    (
      f.details,
      x.first,
      x.others,
      f.dumped,
      x.is_mtu,
      λ h. ap (λ n. n + overhead (is_v6 tunnel_ip)) x.result ∙ below h,
      λ h. ap (λ n. n + overhead (is_v6 tunnel_ip)) x.result ∙ above h,
    )
