-- ===== src/TunnelMtu.antt =====
-- pkg/networkservice/mechanisms/{vxlan,wireguard,ipsec}/mtu: the MTU of a tunnel, found once on the
-- interface that has the tunnel's address, and agreed on with each connection.
--
-- The three packages are one program up to the overhead and the mechanism. The typed views of a
-- mechanism belong to the API: `MtuMechanism` has ToMechanism, MTU and SetMTU as parameters with what
-- they are documented to do. The init mutex makes init one atomic step.
pub mod Vxlan
pub mod Wireguard
pub mod Ipsec
pub mod Negotiation
pub mod Discovery
pub mod Once
pub mod Tests
use sdk_vpp.Prelude.{
  ℕ, String, ◌+◌, ◌-◌, ◌%◌, ◌<◌, ◌≡◌, Bool, true, false, ◌&&◌, ◌||◌, Option, none, some, List, [],
  ◌∷◌, map, ltb, ◌==◌, if◌then◌else◌,
}
use sdk_vpp.Types.{Ip, Prefix, UnionApi, ip_equal, is_v6, from_vpp_address_with_prefix}
use sdk_vpp.Vpp.{Vpp, Error, Call, SwInterfaceDetails, sw_interface_dump, ip_address_dump}
use sdk_vpp.Exec.{M, ◌>>=◌, ◌>>◌, pure, throw, crash, try, wrapping, get_own, set_own, dump}
use sdk_vpp.Chain.{Connection, ConnectionContext, Mechanism, Request, Refusal, Next, refuse}

pub record MtuMechanism : Type 0 where
  pub is_mechanism : Mechanism → Bool
  pub mtu : Mechanism → ℕ
  pub set_mtu : ℕ → Mechanism → Mechanism
  pub mtu-set_mtu : (n : ℕ) (m : Mechanism) → n < 4294967296 → mtu (set_mtu n m) ≡ n
  pub is_mechanism-set_mtu : (n : ℕ) (m : Mechanism) → is_mechanism (set_mtu n m) ≡ is_mechanism m

pub record MtuState : Type 0 where
  pub mtu : ℕ
  pub inited : Bool

-- details.Mtu[0] - overhead(…) on uint32
abbrev pub sub32 : ℕ → ℕ → ℕ
sub32 a b = (a + 4294967296 - b) % 4294967296

abbrev pub Stream : Type 0 → Type 0
Stream A = List A × Option Error

abbrev pub address_stream : Vpp → List Call → Call → Stream Prefix
address_stream v h c = (v.addresses h c, v.stream_error h c)

abbrev pub interface_stream : Vpp → List Call → Call → Stream SwInterfaceDetails
interface_stream v h c = (v.interfaces h c, v.stream_error h c)

-- Go's `x, err := client.Recv()` until io.EOF: what ends a stream, with the text that an error gets
abbrev pub ending : {A : Type 0} → String → Option Error → M MtuState Error A → M MtuState Error A
ending text none at_eof = at_eof
ending text (some e) at_eof = throw (Error.wrap text e)

-- A loop goes on until an MTU is returned.
abbrev pub found_or : Option ℕ → M MtuState Error (Option ℕ) → M MtuState Error (Option ℕ)
found_or none rest = rest
found_or (some m) rest = pure (some m)

abbrev pub return_or : Option ℕ → M MtuState Error ℕ → M MtuState Error ℕ
return_or none rest = rest
return_or (some m) rest = pure m

module _ (api : UnionApi) (overhead : Bool → ℕ) (v : Vpp) (tunnel_ip : Ip) where
  -- `details.Mtu[0] != 0`, read only when the address is that of the tunnel
  unfoldable pub usable_mtu : List ℕ → M MtuState Error (Option ℕ)
  usable_mtu [] = crash
  usable_mtu (m ∷ _) = pure (if m == 0 then none else some (sub32 m (overhead (is_v6 tunnel_ip))))

  unfoldable pub match_address : SwInterfaceDetails → Prefix → M MtuState Error (Option ℕ)
  unfolding usable_mtu
  match_address details p =
      if ip_equal (from_vpp_address_with_prefix api p).ip tunnel_ip
      then usable_mtu details.mtu
      else pure none

  unfoldable pub scan_addresses :
      SwInterfaceDetails → Option Error → List Prefix → M MtuState Error (Option ℕ)
  scan_addresses details end [] =
      ending "error attempting to get interface ip address to determine MTU" end (pure none)
  scan_addresses details end (p ∷ ps) =
      let rest = scan_addresses details end ps in
      match_address details p >>= λ found. found_or found rest

  abbrev pub address_client : SwInterfaceDetails → M MtuState Error (Stream Prefix)
  address_client details =
      wrapping "error attempting to get ip address for vpp interface"
        (dump v (address_stream v) (ip_address_dump details.sw_if_index (is_v6 tunnel_ip)))

  unfoldable pub scan_interface : SwInterfaceDetails → M MtuState Error (Option ℕ)
  unfolding scan_addresses
  scan_interface details = do
    stream ← address_client details
    scan_addresses details stream.1 stream.0

  unfoldable pub scan_interfaces : Option Error → List SwInterfaceDetails → M MtuState Error ℕ
  scan_interfaces end [] = ending "error attempting to get interface details to determine MTU" end (
      throw (Error.new "unable to find interface in vpp with tunnelIP or interface IP MTU is zero"))
  scan_interfaces end (d ∷ ds) =
      let rest = scan_interfaces end ds in scan_interface d >>= λ found. return_or found rest

  abbrev pub interface_client : M MtuState Error (Stream SwInterfaceDetails)
  interface_client =
      wrapping "error attempting to get interface dump client to determine MTU"
        (dump v (interface_stream v) sw_interface_dump)

  unfoldable pub get_mtu : M MtuState Error ℕ
  unfolding scan_interfaces
  get_mtu = do stream ← interface_client; scan_interfaces stream.1 stream.0

  -- `m.mtu, err = getMTU(…)` sets the MTU to 0 on an error.
  unfoldable pub init_from : Bool → M MtuState Error (Unit {0})
  unfolding get_mtu
  init_from true = pure tt
  init_from false =
      try get_mtu (λ m. set_own (record { mtu = m; inited = true }))
        (λ e. do set_own (record { mtu = 0; inited = false }); throw e)

  unfoldable pub init : M MtuState Error (Unit {0})
  unfolding init_from
  init = do state ← get_own; init_from state.inited

-- Client: the mechanism of the connection and the preferred ones get the MTU of the tunnel where
-- theirs is zero or larger.
unfoldable pub lower : MtuMechanism → ℕ → Mechanism → Mechanism
lower k limit m =
    if k.is_mechanism m && ((k.mtu m == 0) || ltb limit (k.mtu m)) then k.set_mtu limit m else m

abbrev pub lower_some : MtuMechanism → ℕ → Option Mechanism → Option Mechanism
lower_some k limit none = none
lower_some k limit (some m) = some (lower k limit m)

abbrev pub lower_connection : MtuMechanism → ℕ → Option Connection → Option Connection
lower_connection k limit none = none
lower_connection k limit (some c) = some (record c { mechanism = lower_some k limit c.mechanism })

unfoldable pub lower_request : MtuMechanism → ℕ → Request → Request
unfolding lower
lower_request k limit r = record {
  connection = lower_connection k limit r.connection;
  mechanism_preferences = map (lower k limit) r.mechanism_preferences;
}

-- Server: the context of the connection follows the mechanism.
abbrev pub context_mtu : Option ConnectionContext → ℕ
context_mtu none = 0
context_mtu (some x) = x.mtu

abbrev pub set_context_mtu : ℕ → Option ConnectionContext → ConnectionContext
set_context_mtu n none = record { mtu = n; src_ip_nets = []; dst_ip_nets = [] }
set_context_mtu n (some x) = record x { mtu = n }

unfoldable pub follow : ℕ → Connection → Connection
follow n c =
    if ltb n (context_mtu c.context) || (context_mtu c.context == 0)
    then record c { context = some (set_context_mtu n c.context) }
    else c

unfoldable pub agree : MtuMechanism → ℕ → Mechanism → Connection → Connection
unfolding lower follow
agree k limit m c =
    follow (k.mtu (lower k limit m)) (record c { mechanism = some (lower k limit m) })

-- ToMechanism(request.GetConnection().GetMechanism())
unfoldable pub view : MtuMechanism → Option Connection → Option (Connection × Mechanism)
view k none = none
view k (some c) = elim c.mechanism [
  | none ↦ none
  | some m ↦ if k.is_mechanism m then some (c, m) else none
]

module _ (api : UnionApi) (overhead : Bool → ℕ) (v : Vpp) (tunnel_ip : Ip) (k : MtuMechanism)
    (next : Next MtuState) where
  unfoldable pub client_request : Request → M MtuState Refusal Connection
  unfolding init lower_request
  client_request r =
      try (init api overhead v tunnel_ip)
        (λ _. do
          state ← get_own
          try (next.request (lower_request k state.mtu r)) (λ conn. pure conn)
              (λ refusal. refuse refusal.error))
        (λ e. refuse e)

  unfoldable pub agree_request :
      Request → Option (Connection × Mechanism) → M MtuState Refusal Connection
  unfolding init agree
  agree_request r none = next.request r
  agree_request r (some (c, m)) =
      try (init api overhead v tunnel_ip)
        (λ _. do
          state ← get_own
          next.request (record r { connection = some (agree k state.mtu m c) }))
        (λ e. refuse e)

  -- vxlan and wireguard
  unfoldable pub server_request : Request → M MtuState Refusal Connection
  unfolding agree_request view
  server_request r =
      try (init api overhead v tunnel_ip) (λ _. agree_request r (view k r.connection))
        (λ e. refuse e)

  -- ipsec finds the MTU only for a connection of its mechanism.
  unfoldable pub ipsec_server_request : Request → M MtuState Refusal Connection
  unfolding agree_request view
  ipsec_server_request r = agree_request r (view k r.connection)
