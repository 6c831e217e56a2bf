-- ===== src/Metadata/Loopback.antt =====
-- pkg/networkservice/loopback/metadata.go: the loopback interface of a connection
use sdk_vpp.Prelude.{ℕ, Bool, Option, refl}
use sdk_vpp.Metadata.Slot.{Slot, store_in, delete_in, load_in, load_or_store_in, load_and_delete_in}
use sdk_vpp.Exec.{M}

abbrev pub slot : Slot ℕ
slot = record {
  get = λ m. m.loopback;
  put = λ v m. record m { loopback = v };
  get-put = λ v m. refl;
}

module _ {S E : Type 0} where
  unfoldable pub store : Bool → ℕ → M S E (Unit {0})
  store is_client = store_in (slot) is_client

  unfoldable pub delete : Bool → M S E (Unit {0})
  delete is_client = delete_in (slot) is_client

  unfoldable pub load : Bool → M S E (Option ℕ)
  load is_client = load_in (slot) is_client

  unfoldable pub load_or_store : Bool → ℕ → M S E (Option ℕ)
  load_or_store is_client = load_or_store_in (slot) is_client

  unfoldable pub load_and_delete : Bool → M S E (Option ℕ)
  load_and_delete is_client = load_and_delete_in (slot) is_client
