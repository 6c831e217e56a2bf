-- ===== src/TunnelMtu/Ipsec.antt =====
-- pkg/networkservice/mechanisms/ipsec/mtu: the package with its overhead.
use sdk_vpp.Prelude.{ℕ, Bool, if◌then◌else◌}
use sdk_vpp.Types.{Ip, UnionApi}
use sdk_vpp.Vpp.{Vpp, Error}
use sdk_vpp.Exec.{M}
use sdk_vpp.Chain.{Connection, Request, Refusal, Next}
use sdk_vpp.TunnelMtu.{MtuMechanism, MtuState}
use sdk_vpp.TunnelMtu

abbrev pub overhead : Bool → ℕ
overhead is_v6 = if is_v6 then 101 else 81

module _ (api : UnionApi) (v : Vpp) (tunnel_ip : Ip) where
  abbrev pub get_mtu : M MtuState Error ℕ
  get_mtu = TunnelMtu.get_mtu api overhead v tunnel_ip

  abbrev pub init : M MtuState Error (Unit {0})
  init = TunnelMtu.init api overhead v tunnel_ip

  module _ (k : MtuMechanism) (next : Next MtuState) where
    abbrev pub client_request : Request → M MtuState Refusal Connection
    client_request = TunnelMtu.client_request api overhead v tunnel_ip k next

    abbrev pub server_request : Request → M MtuState Refusal Connection
    server_request = TunnelMtu.ipsec_server_request api overhead v tunnel_ip k next
