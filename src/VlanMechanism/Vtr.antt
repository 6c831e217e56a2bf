-- ===== src/VlanMechanism/Vtr.antt =====
-- pkg/networkservice/mechanisms/vlan/l2vtr: the VLAN tag is popped on the client's interface.
use sdk_vpp.Prelude.{ℕ, true, Option, none, some, ◌==◌, if◌then◌else◌}
use sdk_vpp.Vpp.{Vpp, Error, l2_interface_vlan_tag_rewrite}
use sdk_vpp.Exec.{M, ◌>>=◌, pure, wrapping, send_}
use sdk_vpp.Chain.{Mechanism, Connection, Request, Refusal, Next, request_then, to_mechanism}
use sdk_vpp.Metadata.Ifindex
use sdk_vpp.VlanMechanism.{VlanApi}

abbrev pub l2_vtr_pop1 : ℕ
l2_vtr_pop1 = 3

module _ {S : Type 0} (v : Vpp) where
  unfoldable pub rewrite_on : Option ℕ → M S Error (Unit {0})
  rewrite_on none = pure tt
  rewrite_on (some i) =
      wrapping "vppapi L2InterfaceVlanTagRewrite returned error"
        (send_ v (l2_interface_vlan_tag_rewrite i l2_vtr_pop1 0 0 0))

  module _ (api : VlanApi) where
    unfoldable pub enable_with : Option Mechanism → M S Error (Unit {0})
    unfolding rewrite_on Ifindex.load
    enable_with none = pure tt
    enable_with (some m) =
        if api.vlan_id m == 0 then pure tt else (do i ← Ifindex.load true; rewrite_on i)

    abbrev pub enable_vtr : Connection → M S Error (Unit {0})
    enable_vtr conn = enable_with (to_mechanism api.is_mechanism conn.mechanism)

module _ {S : Type 0} (v : Vpp) (api : VlanApi) (next : Next S) where
  unfoldable pub close : Connection → M S Error (Unit {0})
  close conn = next.close conn

  unfoldable pub request : Request → M S Refusal Connection
  unfolding enable_with close
  request = request_then (enable_vtr v api) close next
