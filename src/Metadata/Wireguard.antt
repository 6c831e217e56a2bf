-- ===== src/Metadata/Wireguard.antt =====
-- pkg/networkservice/mechanisms/wireguard/metadata.go: the public key of a connection's interface
use sdk_vpp.Prelude.{Bool, Option, String, refl}
use sdk_vpp.Metadata.Slot.{Slot, store_in, load_in, load_and_delete_in}
use sdk_vpp.Exec.{M}

abbrev pub slot : Slot String
slot = record {
  get = λ m. m.public_key;
  put = λ v m. record m { public_key = v };
  get-put = λ v m. refl;
}

module _ {S E : Type 0} where
  unfoldable pub store : Bool → String → M S E (Unit {0})
  store is_client = store_in (slot) is_client

  unfoldable pub load : Bool → M S E (Option String)
  load is_client = load_in (slot) is_client

  unfoldable pub load_and_delete : Bool → M S E (Option String)
  load_and_delete is_client = load_and_delete_in (slot) is_client
