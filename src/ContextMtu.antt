-- ===== src/ContextMtu.antt =====
-- pkg/networkservice/connectioncontext/mtu: the MTU of the connection's context, a jumbo frame unless it
-- is set, and the MTU of the interface after it.
pub mod Setting
pub mod Tests
use sdk_vpp.Prelude.{ℕ, Bool, true, false, Option, none, some, [], ◌∷◌, ◌==◌, if◌then◌else◌}
use sdk_vpp.Vpp.{Vpp, Error, sw_interface_set_mtu}
use sdk_vpp.Exec.{M, ◌>>=◌, pure, try, wrapping, send_}
use sdk_vpp.Chain.{
  Mechanism, Connection, ConnectionContext, Request, Refusal, Next, Payload, refuse, close_after,
}
use sdk_vpp.Metadata.Ifindex

abbrev pub jumbo_frame_size : ℕ
jumbo_frame_size = 9000

-- GetContext().GetMTU(), which is 0 without a context, and GetConnection().GetContext().GetMTU()
abbrev pub mtu_of : Option ConnectionContext → ℕ
mtu_of none = 0
mtu_of (some x) = x.mtu

abbrev pub request_mtu : Option Connection → ℕ
request_mtu none = 0
request_mtu (some c) = mtu_of c.context

-- &networkservice.Connection{} and &networkservice.ConnectionContext{}
abbrev pub or_new_connection : Option Connection → Connection
or_new_connection (some c) = c
or_new_connection none = record {
  id = "";
  network_service = "";
  payload = Payload.other "";
  labels = [];
  mechanism = none;
  context = none;
}

abbrev pub or_new_context : Option ConnectionContext → ConnectionContext
or_new_context (some x) = x
or_new_context none = record { mtu = 0; src_ip_nets = []; dst_ip_nets = [] }

abbrev pub with_jumbo : Connection → Connection
with_jumbo c = record c {
  context = some (record (or_new_context c.context) { mtu = jumbo_frame_size });
}

unfoldable pub set_conn_context_mtu : Request → Request
set_conn_context_mtu r =
    if request_mtu r.connection == 0
    then record r { connection = some (with_jumbo (or_new_connection r.connection)) }
    else r

abbrev pub has_vlan : (Mechanism → Bool) → Option Mechanism → Bool
has_vlan is_vlan none = false
has_vlan is_vlan (some m) = is_vlan m

module _ {S : Type 0} (v : Vpp) where
  unfoldable pub set_mtu_on : ℕ → Option ℕ → M S Error (Unit {0})
  set_mtu_on mtu none = pure tt
  set_mtu_on mtu (some sw_if_index) =
      if mtu == 0
      then pure tt
      else wrapping "vppapi SwInterfaceSetMtu returned error"
          (send_ v (sw_interface_set_mtu sw_if_index (mtu ∷ mtu ∷ mtu ∷ mtu ∷ [])))

  unfoldable pub set_vpp_mtu : Connection → Bool → M S Error (Unit {0})
  unfolding set_mtu_on Ifindex.load
  set_vpp_mtu conn is_client = do
    sw_if_index ← Ifindex.load is_client
    set_mtu_on (mtu_of conn.context) sw_if_index

  -- What both sides do; `skips` tells for which connections the interface keeps its MTU.
  unfoldable pub request : (Connection → Bool) → Next S → Bool → Request → M S Refusal Connection
  unfolding set_conn_context_mtu set_vpp_mtu
  request skips next is_client r =
      try (next.request (set_conn_context_mtu r))
        (λ conn.
          if skips conn
          then pure conn
          else try (set_vpp_mtu conn is_client) (λ _. pure conn) (close_after next.close conn))
        (λ refusal. refuse refusal.error)

  abbrev pub server_request : Next S → Request → M S Refusal Connection
  server_request next = request (λ conn. false) next false

  -- The client fetches the MTU of a vlan from the interface. `is_vlan` is vlan.ToMechanism's test.
  abbrev pub client_request : (Mechanism → Bool) → Next S → Request → M S Refusal Connection
  client_request is_vlan next = request (λ conn. has_vlan is_vlan conn.mechanism) next true
