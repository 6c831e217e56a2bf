-- ===== src/Prelude/Assoc.antt =====
-- Go's maps as association lists: at most one entry of a key is ever seen, deletion drops them all.
use mathlib.Core.Path.{◌≡◌, refl}
use Prim.Native.Nat.{◌<◌}
use mathlib.Core.Logic.{◌≢◌}
use mathlib.Core.Option.{Option, none, some}
use mathlib.Core.List.{List, [], ◌∷◌}
use native.Mathlib.Omega.{arith}
use sdk_vpp.Prelude.Lists.{length}
use sdk_vpp.Prelude.Tests.{if◌then◌else◌}
use sdk_vpp.Prelude.Keys.{Eq, ◌=?◌, =?_self}

abbrev pub Map {ℓ κ} : Type ℓ → Type κ → Type (ℓ ⊔ κ)
Map K V = List (K × V)

module _ {ℓ κ} {K : Type ℓ} {V : Type κ} ⦃e : Eq K⦄ where
  unfoldable pub lookup : K → Map K V → Option V
  lookup k [] = none
  lookup k ((j, v) ∷ m) = if j =? k then some v else lookup k m

  unfoldable pub erase : K → Map K V → Map K V
  erase k [] = []
  erase k ((j, v) ∷ m) = let rest = erase k m in if j =? k then rest else (j, v) ∷ rest

  -- m[k] = v
  unfoldable pub insert : K → V → Map K V → Map K V
  unfolding erase
  insert k v m = (k, v) ∷ erase k m

  pub lookup-erase :
      (k j : K) (m : Map K V) → lookup j (erase k m) ≡ (if k =? j then none else lookup j m)
  unfolding lookup erase
  lookup-erase k j [] = ground arith
  lookup-erase k j ((i, v) ∷ m) =
      ground (arith, lookup-erase k j m, e.beq_iff i k, e.beq_iff i j, e.beq_iff k j)

  pub lookup-insert :
      (k j : K) (v : V) (m : Map K V)
      → lookup j (insert k v m) ≡ (if k =? j then some v else lookup j m)
  unfolding lookup insert
  lookup-insert k j v m = ground (arith, lookup-erase k j m)

  pub lookup-insert_self : (k : K) (v : V) (m : Map K V) → lookup k (insert k v m) ≡ some v
  lookup-insert_self k v m = rw (lookup-insert k k v m) (rw (=?_self k))

  pub lookup-erase_self : (k : K) (m : Map K V) → lookup k (erase k m) ≡ none
  lookup-erase_self k m = rw (lookup-erase k k m) (rw (=?_self k))

  -- Two keys take two entries.
  pub two_entries :
      (i j : K) (m : Map K V) (v w : V)
      → lookup i m ≡ some v
      → lookup j m ≡ some w
      → i ≢ j
      → 1 < length m
  unfolding lookup
  two_entries i j [] v w p q h = cc
  two_entries i j ((k, x) ∷ []) v w p q h = ground (arith, e.beq_iff k i, e.beq_iff k j)
  two_entries i j ((k, x) ∷ l ∷ m) v w p q h = omega arith

  pub erase_absent : (k : K) (m : Map K V) → lookup k m ≡ none → erase k m ≡ m
  unfolding lookup erase
  erase_absent k [] h = refl
  erase_absent k ((j, v) ∷ m) h = ground (arith, erase_absent k m)
