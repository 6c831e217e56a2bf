-- ===== src/VlanMechanism/Mtu.antt =====
-- pkg/networkservice/mechanisms/vlan/mtu: the MTU of a connection is lowered to that of its device, which
-- is asked of VPP once; the map of the known ones is the element's.
use sdk_vpp.Prelude.{
  ℕ, String, true, ◌&&◌, ◌||◌, Option, none, some, List, [], ◌∷◌, ◌==◌, ltb, if◌then◌else◌,
}
use Prim.Native.String.{◌++◌ as ◌+++◌}
use sdk_vpp.Prelude.Keys.{string_eq}
use sdk_vpp.Prelude.Assoc.{Map, lookup, insert}
use sdk_vpp.Vpp.{Vpp, Error, SwInterfaceDetails, sw_interface_dump_named}
use sdk_vpp.Exec.{M, ◌>>=◌, ◌>>◌, pure, throw, crash, try, wrapping, dump, get_own, set_own}
use sdk_vpp.Chain.{Mechanism, Connection, Request, Refusal, Next, refuse, close_after, to_mechanism}
use sdk_vpp.ContextMtu.{mtu_of, or_new_context}
use sdk_vpp.Metadata.Ifindex
use sdk_vpp.VlanMechanism.{VlanApi, via_of, is_named}

abbrev pub MtuMap : Type 0
MtuMap = Map String ℕ

-- localMtu > 0 && (GetMTU() > localMtu || GetMTU() == 0)
unfoldable pub lowered : ℕ → Connection → Connection
lowered local_mtu conn =
    if ltb 0 local_mtu && (ltb local_mtu (mtu_of conn.context) || (mtu_of conn.context == 0))
    then record conn { context = some (record (or_new_context conn.context) { mtu = local_mtu }) }
    else conn

module _ (v : Vpp) where
  -- details.Mtu[0]
  unfoldable pub first_mtu : List ℕ → M MtuMap Error ℕ
  first_mtu [] = crash
  first_mtu (mtu ∷ mtus) = pure mtu

  -- After the last message
  unfoldable pub unlisted : String → Option Error → M MtuMap Error ℕ
  unlisted if_name none = throw (Error.new "unable to find interface in vpp")
  unlisted if_name (some e) =
      throw (Error.wrap ("failed to get interface details to determine MTU on " +++ if_name) e)

  unfoldable pub scan_mtu : String → Option Error → List SwInterfaceDetails → M MtuMap Error ℕ
  unfolding first_mtu unlisted
  scan_mtu if_name end [] = unlisted if_name end
  scan_mtu if_name end (d ∷ ds) =
      let rest = scan_mtu if_name end ds in if is_named if_name d then first_mtu d.mtu else rest

  abbrev pub listed : String → M MtuMap Error (List SwInterfaceDetails × Option Error)
  listed if_name =
      wrapping ("failed to get interface dump client to determine MTU on " +++ if_name)
        (dump v (λ h c. (v.interfaces h c, v.stream_error h c)) (sw_interface_dump_named if_name))

  unfoldable pub get_mtu : String → M MtuMap Error ℕ
  unfolding scan_mtu
  get_mtu if_name = do stream ← listed if_name; scan_mtu if_name stream.1 stream.0

module _ (v : Vpp) (api : VlanApi) (device_names : Map String String) (next : Next MtuMap) where
  unfoldable pub close : Connection → M MtuMap Error (Unit {0})
  close conn = next.close conn

  -- On the MTU that is known
  unfoldable pub lower_by : String → Connection → Option ℕ → M MtuMap Refusal Connection
  unfolding get_mtu lowered close
  lower_by host conn (some local_mtu) = pure (lowered local_mtu conn)
  lower_by host conn none =
      try (get_mtu v host)
        (λ local_mtu. do
          known ← get_own
          set_own (insert host local_mtu known)
          pure (lowered local_mtu conn))
        (close_after close conn)

  -- On the name of the device; without one the connection stays open.
  unfoldable pub lower_on : Connection → Option String → M MtuMap Refusal Connection
  unfolding lower_by
  lower_on conn none = refuse (Error.new "can not find device name for via label")
  lower_on conn (some host) = do known ← get_own; lower_by host conn (lookup host known)

  unfoldable pub lower_with : Connection → Option Mechanism → M MtuMap Refusal Connection
  unfolding lower_on
  lower_with conn none = pure conn
  lower_with conn (some m) = lower_on conn (lookup (via_of conn) device_names)

  -- On the interface that is stored
  unfoldable pub lower_stored : Connection → Option ℕ → M MtuMap Refusal Connection
  unfolding lower_with
  lower_stored conn none = pure conn
  lower_stored conn (some i) = lower_with conn (to_mechanism api.is_mechanism conn.mechanism)

  unfoldable pub request : Request → M MtuMap Refusal Connection
  unfolding lower_stored Ifindex.load
  request r =
      try (next.request r) (λ conn. do i ← Ifindex.load true; lower_stored conn i)
        (λ refusal. refuse refusal.error)
