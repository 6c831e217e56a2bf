-- ===== src/IpAddress/Complete.antt =====
-- Which addresses Request puts on the interface: those of the connection that it did not have.
use sdk_vpp.Prelude.{
  ℕ, ◌≡◌, ap, sym, ◌∙◌, refl, Bool, true, false, Option, none, some, List, [], ◌∷◌, ◌++◌, map,
  if◌then◌else◌, suc, ◌==◌, ◌||◌, arith,
}
use mathlib.Core.Path.{ap₂}
use sdk_vpp.Types.{
  Ip, IpNet, Prefix, UnionApi, ip_equal, to_vpp_address_with_prefix, from_vpp_address_with_prefix,
}
use sdk_vpp.Vpp.{Vpp, Error, Call, ip_address_dump, sw_interface_add_del_address}
use sdk_vpp.Exec.{
  State, Outcome, ok, pure, ◌>>◌, ◌>>=◌, >>=-eq-ok, pure-eq-ok, wrapped_send_-eq-ok,
  wrapped_dump-eq-ok,
}
use sdk_vpp.Chain.{Connection, ConnectionContext, Request, Next, request_then-passed}
use sdk_vpp.IpAddress.{
  is_listed, context_nets, has, change, change_unless, nets_add_del, ips_of, received,
  address_client, dump_family, dump_ips, add_del_nets, add_del_on, add_del, close, request,
}

-- How many of the interface's addresses equal one, as net.IP.Equal compares them
unfoldable pub occurrences : Ip → List Ip → ℕ
occurrences ip [] = 0
occurrences ip (addr ∷ cur) =
    let rest = occurrences ip cur in if ip_equal addr ip then suc rest else rest

-- An address of a connection is missing on an interface when none of the interface's equals it.
unfoldable pub missing_net : List Ip → Option IpNet → Bool
unfolding occurrences
missing_net cur none = true
missing_net cur (some net) = occurrences net.ip cur == 0

none_counted :
    (b l : Bool) (n : ℕ)
    → (n == 0) ≡ (if l then false else true)
    → ((if b then suc n else n) == 0) ≡ (if b || l then false else true)
none_counted true l n h = ground arith
none_counted false l n h = h

is_listed_lem :
    (net : IpNet) (cur : List Ip)
    → missing_net cur (some net) ≡ (if is_listed net.ip cur then false else true)
unfolding is_listed missing_net
is_listed_lem net [] = refl
is_listed_lem net (addr ∷ cur) =
    none_counted (ip_equal addr net.ip) (is_listed net.ip cur) (occurrences net.ip cur)
      (is_listed_lem net cur)

-- The messages that add the missing ones, after what was sent before, newest first
unfoldable pub additions : ℕ → List Ip → List (Option IpNet) → List Call → List Call
unfolding missing_net
additions i cur [] calls = calls
additions i cur (net ∷ nets) calls = additions i cur nets (
    if missing_net cur net
    then sw_interface_add_del_address i true (to_vpp_address_with_prefix net) ∷ calls
    else calls)

-- What VPP lists for the family after a history
abbrev pub listed_ips : Vpp → UnionApi → ℕ → Bool → List Call → List Ip
listed_ips v api i is_ipv6 calls =
    map (λ p. (from_vpp_address_with_prefix api p).ip)
      (v.addresses calls (ip_address_dump i is_ipv6))

-- The addresses of a connection for a side: the source's for the client, the destination's for the server
abbrev pub wanted_nets : Bool → Option ConnectionContext → List (Option IpNet)
wanted_nets is_client none = []
wanted_nets true (some x) = x.src_ip_nets
wanted_nets false (some x) = x.dst_ip_nets

context_nets_lem :
    (is_client : Bool) (o : Option ConnectionContext)
    → context_nets is_client o ≡ wanted_nets is_client o
context_nets_lem is_client none = refl
context_nets_lem true (some x) = refl
context_nets_lem false (some x) = refl

-- The messages that Request sends for addresses, after the earlier ones
unfoldable pub completed : Vpp → UnionApi → ℕ → List (Option IpNet) → List Call → List Call
unfolding additions
completed v api i [] calls = calls
completed v api i (net ∷ nets) calls =
    let once = ip_address_dump i false ∷ calls in
    additions i (listed_ips v api i false calls ++ listed_ips v api i true once) (net ∷ nets)
      (ip_address_dump i true ∷ once)

module _ {S : Type 0} (v : Vpp) where
  has_lem :
      (cur : List Ip) (net : Option IpNet) (b : Bool) (s t : State S)
      → has v cur net s ≡ (ok b, t)
      → (missing_net cur net ≡ (if b then false else true)) × (t ≡ s)
  unfolding has missing_net
  has_lem [] none b s t h =
      let (same, there) = pure-eq-ok {E = Error} false b s t h in (simp (← same) refl, sym there)
  has_lem [] (some net) b s t h =
      let (same, there) = pure-eq-ok {E = Error} false b s t h in (simp (← same) refl, sym there)
  has_lem (addr ∷ addrs) none b s t h = cc (ap (λ (q : Outcome Error Bool × State S). q.0) h)
  has_lem (addr ∷ addrs) (some net) b s t h =
      let (same, there) = pure-eq-ok {E = Error} (is_listed net.ip (addr ∷ addrs)) b s t h in
      (simp (← same) (is_listed_lem net (addr ∷ addrs)), sym there)

  change_unless_lem :
      (i : ℕ) (net : Option IpNet) (b : Bool) (s t : State S)
      → change_unless v i true net b s ≡ (ok tt, t)
      → t ≡ record s {
        calls =
            if (if b then false else true)
            then sw_interface_add_del_address i true (to_vpp_address_with_prefix net) ∷ s.calls
            else s.calls;
      }
  unfolding change
  change_unless_lem i net true s t h = ap (λ (q : Outcome Error (Unit {0}) × State S). q.1) (sym h)
  change_unless_lem i net false s t h =
      wrapped_send_-eq-ok "vppapi SwInterfaceAddDelAddress returned error" v
        (sw_interface_add_del_address i true (to_vpp_address_with_prefix net)) s t h

  nets_add_lem :
      (i : ℕ) (cur : List Ip) (nets : List (Option IpNet)) (s t : State S)
      → nets_add_del v i true cur nets s ≡ (ok tt, t)
      → t ≡ record s { calls = additions i cur nets s.calls }
  unfolding nets_add_del additions
  nets_add_lem i cur [] s t h = ap (λ (q : Outcome Error (Unit {0}) × State S). q.1) (sym h)
  nets_add_lem i cur (net ∷ nets) s t h =
      let (b, u, looked, added) =
        >>=-eq-ok (λ b. (change_unless v i true net b >> nets_add_del v i true cur nets))
          (has v cur net) s h in
      let (x, w, changed, rest) =
        >>=-eq-ok (λ _. nets_add_del v i true cur nets) (change_unless v i true net b) u added in
      let (kind, there) = has_lem cur net b s u looked in
      let step = change_unless_lem i net b u w changed in
      let later = nets_add_lem i cur nets w t rest in
      let call = sw_interface_add_del_address i true (to_vpp_address_with_prefix net) in
      let now : w ≡ record s { calls = if missing_net cur net then call ∷ s.calls else s.calls } =
        step
        ∙ ap₂
            (λ (y : Bool) (z : State S). record z { calls = if y then call ∷ z.calls else z.calls })
            (sym kind) there in
      later ∙ ap (λ (z : State S). record z { calls = additions i cur nets z.calls }) now

  module _ (api : UnionApi) where
    received_lem :
        (stream : List Prefix × Option Error) (ips : List Ip) (s t : State S)
        → received v api stream s ≡ (ok ips, t)
        → (ips ≡ ips_of api stream.0) × (t ≡ s)
    unfolding received
    received_lem (prefixes, none) ips s t h =
        let (same, there) = pure-eq-ok {E = Error} (ips_of api prefixes) ips s t h in
        (sym same, sym there)
    received_lem (prefixes, some e) ips s t h =
        cc (ap (λ (q : Outcome Error (List Ip) × State S). q.0) h)

    dump_family_lem :
        (i : ℕ) (six : Bool) (ips : List Ip) (s t : State S)
        → dump_family v api i six s ≡ (ok ips, t)
        → (ips ≡ listed_ips v api i six s.calls)
          × (t ≡ record s { calls = ip_address_dump i six ∷ s.calls })
    unfolding dump_family
    dump_family_lem i six ips s t h =
        let (stream, u, sent, rest) = >>=-eq-ok (received v api) (address_client v api i six) s h in
        let (same, there) =
          wrapped_dump-eq-ok "vppapi IPAddressDump returned error" v
            (λ l c. (v.addresses l c, v.stream_error l c)) (ip_address_dump i six) stream s u
            sent in
        let (read, after) = received_lem stream ips u t rest in
        (read ∙ ap (λ (q : List Prefix × Option Error). ips_of api q.0) same, after ∙ there)

    dump_ips_lem :
        (i : ℕ) (ips : List Ip) (s t : State S)
        → dump_ips v api i s ≡ (ok ips, t)
        → let c = ip_address_dump i false ∷ s.calls in
          (ips ≡ listed_ips v api i false s.calls ++ listed_ips v api i true c)
          × (t ≡ record s { calls = ip_address_dump i true ∷ c })
    unfolding dump_ips
    dump_ips_lem i ips s t h =
        let (v4, u, first, rest) =
          >>=-eq-ok (λ a. (dump_family v api i true >>= λ b. pure (a ++ b)))
            (dump_family v api i false) s h in
        let (v6, w, second, done) =
          >>=-eq-ok (λ b. pure (v4 ++ b)) (dump_family v api i true) u rest in
        let (same4, u') = dump_family_lem i false v4 s u first in
        let (same6, w') = dump_family_lem i true v6 u w second in
        let (same, there) = pure-eq-ok {E = Error} (v4 ++ v6) ips w t done in
        let later : u.calls ≡ ip_address_dump i false ∷ s.calls =
          ap (λ (x : State S). x.calls) u' in
        (
          sym same
              ∙ ap₂ (λ (x y : List Ip). x ++ y) same4 (same6 ∙ ap (listed_ips v api i true) later),
          sym there
              ∙ w'
              ∙ ap (λ (x : State S). record x { calls = ip_address_dump i true ∷ x.calls }) u',
        )

    add_nets_lem :
        (i : ℕ) (nets : List (Option IpNet)) (s t : State S)
        → add_del_nets v api true i nets s ≡ (ok tt, t)
        → t ≡ record s { calls = completed v api i nets s.calls }
    unfolding add_del_nets completed
    add_nets_lem i [] s t h = ap (λ (q : Outcome Error (Unit {0}) × State S). q.1) (sym h)
    add_nets_lem i (net ∷ nets) s t h =
        let (cur, u, listed, rest) =
          >>=-eq-ok (λ cur. nets_add_del v i true cur (net ∷ nets)) (dump_ips v api i) s h in
        let (same, there) = dump_ips_lem i cur s u listed in
        nets_add_lem i cur (net ∷ nets) u t rest
        ∙ ap₂
            (λ (ips : List Ip) (x : State S). record x {
              calls = additions i ips (net ∷ nets) x.calls;
            })
            same there

    add_del_lem :
        (load : Bool → State S → Option ℕ) (is_client : Bool) (conn : Connection) (i : ℕ)
        (s t : State S)
        → load is_client s ≡ some i
        → add_del v api load is_client true conn s ≡ (ok tt, t)
        → t ≡ record s { calls = completed v api i (wanted_nets is_client conn.context) s.calls }
    unfolding add_del add_del_on
    add_del_lem load is_client conn i s t stored h =
        add_nets_lem i (context_nets is_client conn.context) s t
          (ap (λ (o : Option ℕ). add_del_on v api is_client true conn o s) (sym stored) ∙ h)
        ∙ ap (λ (nets : List (Option IpNet)). record s { calls = completed v api i nets s.calls })
            (context_nets_lem is_client conn.context)

    -- When Request of the client or the server succeeded, with the interface known and the rest of the chain
    -- granting a connection and changing nothing, then the connection is returned and exactly these
    -- messages were sent: for a connection without addresses for this side (the client's are the source
    -- addresses, the server's the destination addresses) none; else one dump for each IP version, and
    -- then, in order, the addition of each of those addresses that equals none in the two dumps.
    pub request-completes :
        (load : Bool → State S → Option ℕ) (next : Next S) (is_client : Bool) (r : Request)
        (c c' : Connection) (i : ℕ) (s t : State S)
        → next.request r s ≡ (ok c, s)
        → load is_client s ≡ some i
        → request v api load next is_client r s ≡ (ok c', t)
        → (c ≡ c')
          × (t ≡ record s { calls = completed v api i (wanted_nets is_client c.context) s.calls })
    unfolding request
    request-completes load next is_client r c c' i s t passes stored h =
        let (same, worked) =
          request_then-passed (add_del v api load is_client true) (close v api load next) next r s t
            c c' passes h in
        (same, add_del_lem load is_client c i s t stored worked)
