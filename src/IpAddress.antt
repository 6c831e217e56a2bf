-- ===== src/IpAddress.antt =====
-- pkg/networkservice/connectioncontext/ipcontext/ipaddress: the addresses of a connection on its interface,
-- less those that the interface has. Close leaves them there.
pub mod Complete
pub mod Tests
use sdk_vpp.Prelude.{
  ℕ, Bool, true, false, ◌||◌, Option, none, some, List, [], ◌∷◌, ◌++◌, map, if◌then◌else◌,
}
use sdk_vpp.Types.{
  Ip, IpNet, Prefix, UnionApi, ip_equal, to_vpp_address_with_prefix, from_vpp_address_with_prefix,
}
use sdk_vpp.Vpp.{Vpp, Error, ip_address_dump, sw_interface_add_del_address}
use sdk_vpp.Exec.{State, M, ◌>>=◌, ◌>>◌, pure, throw, crash, wrapping, dump, send_}
use sdk_vpp.Chain.{Connection, ConnectionContext, Request, Refusal, Next, request_then}

-- The loop over curIPs
unfoldable pub is_listed : Ip → List Ip → Bool
unfolding ip_equal
is_listed ip [] = false
is_listed ip (addr ∷ addrs) = let rest = is_listed ip addrs in ip_equal addr ip || rest

abbrev pub context_nets : Bool → Option ConnectionContext → List (Option IpNet)
context_nets is_client none = []
context_nets is_client (some x) = if is_client then x.src_ip_nets else x.dst_ip_nets

abbrev pub ips_of : UnionApi → List Prefix → List Ip
ips_of api prefixes = map (λ p. (from_vpp_address_with_prefix api p).ip) prefixes

module _ {S : Type 0} (v : Vpp) where
  -- A nil address is followed only when there is one to compare it with.
  unfoldable pub has : List Ip → Option IpNet → M S Error Bool
  unfolding is_listed
  has [] net = pure false
  has (addr ∷ addrs) none = crash
  has (addr ∷ addrs) (some net) = pure (is_listed net.ip (addr ∷ addrs))

  unfoldable pub change : ℕ → Bool → Option IpNet → M S Error (Unit {0})
  unfolding to_vpp_address_with_prefix
  change i is_add net =
      wrapping "vppapi SwInterfaceAddDelAddress returned error"
        (send_ v (sw_interface_add_del_address i is_add (to_vpp_address_with_prefix net)))

  abbrev pub change_unless : ℕ → Bool → Option IpNet → Bool → M S Error (Unit {0})
  unfolding change
  change_unless i is_add net present = if present then pure tt else change i is_add net

  unfoldable pub nets_add_del : ℕ → Bool → List Ip → List (Option IpNet) → M S Error (Unit {0})
  unfolding has change change_unless
  nets_add_del i is_add cur [] = pure tt
  nets_add_del i is_add cur (net ∷ nets) = do
    present ← if is_add then has cur net else pure false
    change_unless i is_add net present
    nets_add_del i is_add cur nets

  module _ (api : UnionApi) where
    -- After the last message of a stream
    unfoldable pub received : List Prefix × Option Error → M S Error (List Ip)
    received (prefixes, none) = pure (ips_of api prefixes)
    received (prefixes, some e) = throw e

    -- IPAddressDump: what is sent, and the error that ends it
    abbrev pub address_client : ℕ → Bool → M S Error (List Prefix × Option Error)
    address_client i is_ipv6 =
        wrapping "vppapi IPAddressDump returned error"
          (dump v (λ h c. (v.addresses h c, v.stream_error h c)) (ip_address_dump i is_ipv6))

    unfoldable pub dump_family : ℕ → Bool → M S Error (List Ip)
    unfolding received
    dump_family i is_ipv6 = do stream ← address_client i is_ipv6; received stream

    unfoldable pub dump_ips : ℕ → M S Error (List Ip)
    unfolding dump_family
    dump_ips i = do v4 ← dump_family i false; v6 ← dump_family i true; pure (v4 ++ v6)

    -- No addresses are nil for the API.
    unfoldable pub add_del_nets : Bool → ℕ → List (Option IpNet) → M S Error (Unit {0})
    unfolding dump_ips nets_add_del
    add_del_nets is_add i [] = pure tt
    add_del_nets is_add i (net ∷ nets) = do
      cur ← if is_add then dump_ips i else pure []
      nets_add_del i is_add cur (net ∷ nets)

    -- On the interface
    unfoldable pub add_del_on : Bool → Bool → Connection → Option ℕ → M S Error (Unit {0})
    unfolding add_del_nets
    add_del_on is_client is_add conn none = throw (Error.new "no swIfIndex available")
    add_del_on is_client is_add conn (some i) =
        add_del_nets is_add i (context_nets is_client conn.context)

    -- `load_if_index` is the option WithLoadSwIfIndex (ifindex.Load unless it is set).
    unfoldable pub add_del :
        (Bool → State S → Option ℕ) → Bool → Bool → Connection → M S Error (Unit {0})
    unfolding add_del_on
    add_del load_if_index is_client is_add conn s =
        add_del_on is_client is_add conn (load_if_index is_client s) s

module _ {S : Type 0} (v : Vpp) (api : UnionApi) (load_if_index : Bool → State S → Option ℕ)
    (next : Next S) where
  unfoldable pub close : Connection → M S Error (Unit {0})
  close conn = next.close conn

  abbrev pub request : Bool → Request → M S Refusal Connection
  unfolding add_del close
  request is_client = request_then (add_del v api load_if_index is_client true) close next

  unfoldable pub client_request : Request → M S Refusal Connection
  unfolding request
  client_request = request true

  unfoldable pub server_request : Request → M S Refusal Connection
  unfolding request
  server_request = request false
