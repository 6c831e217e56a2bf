-- ===== src/Metadata/Vrf.antt =====
-- pkg/networkservice/vrf/metadata.go: the IPv4 and the IPv6 table of a connection
use sdk_vpp.Prelude.{ℕ, Bool, Option, refl, ◌≡◌, true, false, if◌then◌else◌}
use sdk_vpp.Metadata.{Metadata}
use sdk_vpp.Metadata.Slot.{Slot, store_in, delete_in, load_in, load_or_store_in, load_and_delete_in}
use sdk_vpp.Exec.{M}

pub vrf_get-put :
    (is_ipv6 : Bool) (v : Option ℕ) (m : Metadata)
    → (if is_ipv6
        then (if is_ipv6 then record m { vrf_v6 = v } else record m { vrf_v4 = v }).vrf_v6
        else (if is_ipv6 then record m { vrf_v6 = v } else record m { vrf_v4 = v }).vrf_v4)
      ≡ v
vrf_get-put true v m = refl
vrf_get-put false v m = refl

abbrev pub slot : Bool → Slot ℕ
slot is_ipv6 = record {
  get = λ m. if is_ipv6 then m.vrf_v6 else m.vrf_v4;
  put = λ v m. if is_ipv6 then record m { vrf_v6 = v } else record m { vrf_v4 = v };
  get-put = vrf_get-put is_ipv6;
}

module _ {S E : Type 0} where
  unfoldable pub store : Bool → Bool → ℕ → M S E (Unit {0})
  store is_client is_ipv6 = store_in (slot is_ipv6) is_client

  unfoldable pub delete : Bool → Bool → M S E (Unit {0})
  delete is_client is_ipv6 = delete_in (slot is_ipv6) is_client

  unfoldable pub load : Bool → Bool → M S E (Option ℕ)
  load is_client is_ipv6 = load_in (slot is_ipv6) is_client

  unfoldable pub load_or_store : Bool → Bool → ℕ → M S E (Option ℕ)
  load_or_store is_client is_ipv6 = load_or_store_in (slot is_ipv6) is_client

  unfoldable pub load_and_delete : Bool → Bool → M S E (Option ℕ)
  load_and_delete is_client is_ipv6 = load_and_delete_in (slot is_ipv6) is_client
