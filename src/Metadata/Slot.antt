-- ===== src/Metadata/Slot.antt =====
-- One key of the metadata map: how the value there is read and replaced, and the five operations
-- that every package writes out for its key. `none` is the result with ok == false.
use sdk_vpp.Prelude.{◌≡◌, Bool, Option, none, some}
use sdk_vpp.Metadata.{Metadata}
use sdk_vpp.Exec.{M, ok, side, set_side}

pub record Slot (A : Type 0) : Type 0 where
  pub get : Metadata → Option A
  pub put : Option A → Metadata → Metadata
  pub get-put : (v : Option A) (m : Metadata) → get (put v m) ≡ v

module _ {S E A : Type 0} (slot : Slot A) where
  abbrev pub store_in : Bool → A → M S E (Unit {0})
  store_in is_client a s = (ok tt, set_side is_client (slot.put (some a) (side is_client s)) s)

  abbrev pub delete_in : Bool → M S E (Unit {0})
  delete_in is_client s = (ok tt, set_side is_client (slot.put none (side is_client s)) s)

  abbrev pub load_in : Bool → M S E (Option A)
  load_in is_client s = (ok (slot.get (side is_client s)), s)

  -- What LoadOrStore of the packages does with what the map's LoadOrStore returned: a value that was
  -- stored and not loaded is not returned.
  abbrev pub load_or_store_in : Bool → A → M S E (Option A)
  load_or_store_in is_client a s = elim (slot.get (side is_client s)) [
    | none ↦ (ok none, set_side is_client (slot.put (some a) (side is_client s)) s)
    | some old ↦ (ok (some old), s)
  ]

  abbrev pub load_and_delete_in : Bool → M S E (Option A)
  load_and_delete_in is_client s =
      (ok (slot.get (side is_client s)), set_side is_client (slot.put none (side is_client s)) s)
