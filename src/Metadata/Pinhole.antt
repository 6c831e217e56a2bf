-- ===== src/Metadata/Pinhole.antt =====
-- pkg/networkservice/pinhole/metadata.go: an extra address and port of a connection
use sdk_vpp.Prelude.{Bool, Option, refl}
use sdk_vpp.Metadata.{IpPort}
use sdk_vpp.Metadata.Slot.{Slot, store_in, delete_in, load_in}
use sdk_vpp.Exec.{M}

abbrev pub slot : Slot IpPort
slot = record { get = λ m. m.extra; put = λ v m. record m { extra = v }; get-put = λ v m. refl }

module _ {S E : Type 0} where
  unfoldable pub store_extra : Bool → IpPort → M S E (Unit {0})
  store_extra is_client = store_in (slot) is_client

  unfoldable pub delete_extra : Bool → M S E (Unit {0})
  delete_extra is_client = delete_in (slot) is_client

  unfoldable pub load_extra : Bool → M S E (Option IpPort)
  load_extra is_client = load_in (slot) is_client
