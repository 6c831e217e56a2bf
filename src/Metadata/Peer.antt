-- ===== src/Metadata/Peer.antt =====
-- pkg/networkservice/mechanisms/wireguard/peer/metadata.go: the peers of a connection by public key
use sdk_vpp.Prelude.{ℕ, Bool, Option, none, some, String, ◌≡◌}
use sdk_vpp.Prelude.Assoc.{Map, lookup, insert, erase, lookup-insert_self, lookup-erase_self}
use sdk_vpp.Prelude.Keys.{string_eq}
use sdk_vpp.Metadata.Slot.{Slot, store_in, delete_in, load_in, load_or_store_in, load_and_delete_in}
use sdk_vpp.Exec.{M}

abbrev pub update : String → Option ℕ → Map String ℕ → Map String ℕ
update key none m = erase key m
update key (some v) m = insert key v m

pub peers_get-put :
    (key : String) (v : Option ℕ) (m : Map String ℕ) → lookup key (update key v m) ≡ v
peers_get-put key none m = lookup-erase_self key m
peers_get-put key (some v) m = lookup-insert_self key v m

abbrev pub slot : String → Slot ℕ
slot key = record {
  get = λ m. lookup key m.peers;
  put = λ v m. record m { peers = update key v m.peers };
  get-put = λ v m. peers_get-put key v m.peers;
}

module _ {S E : Type 0} where
  unfoldable pub store : Bool → String → ℕ → M S E (Unit {0})
  store is_client key = store_in (slot key) is_client

  unfoldable pub delete : Bool → String → M S E (Unit {0})
  delete is_client key = delete_in (slot key) is_client

  unfoldable pub load : Bool → String → M S E (Option ℕ)
  load is_client key = load_in (slot key) is_client

  unfoldable pub load_or_store : Bool → String → ℕ → M S E (Option ℕ)
  load_or_store is_client key = load_or_store_in (slot key) is_client

  unfoldable pub load_and_delete : Bool → String → M S E (Option ℕ)
  load_and_delete is_client key = load_and_delete_in (slot key) is_client
