-- ===== src/Metadata/Laws.antt =====
-- LoadOrStore of a key that holds nothing, and of one that holds a value.
use sdk_vpp.Prelude.{ℕ, ◌≡◌, Bool, true, false, none, some, arith, not}
use sdk_vpp.Vpp.{Error}
use sdk_vpp.Exec.{State, ok, side}
use sdk_vpp.Metadata.Ifindex

-- When no interface index is stored for a side of a connection, LoadOrStore stores the given one, as
-- Store does, but does not return it: it returns no value, which only a later Load does. When one is
-- stored, LoadOrStore returns that one and changes nothing. The other side of the connection keeps its
-- metadata in both cases.
load_or_store_lem :
    {S : Type 0} (is_client : Bool) (i : ℕ) (s : State S)
    → let t = (Ifindex.load_or_store {E = Error} is_client i s).1 in
      ((side is_client s).if_index ≡ none
        → ((Ifindex.load_or_store {E = Error} is_client i s).0 ≡ ok none)
          × (t ≡ (Ifindex.store {E = Error} is_client i s).1)
          × ((Ifindex.load {E = Error} is_client t).0 ≡ ok (some i)))
      × ((old : ℕ)
          → (side is_client s).if_index ≡ some old
          → Ifindex.load_or_store {E = Error} is_client i s ≡ (ok (some old), s))
      × (side (not is_client) t ≡ side (not is_client) s)
unfolding Ifindex.load_or_store Ifindex.store Ifindex.load
load_or_store_lem true i s =
    (λ h. (ground arith, ground arith, ground arith), λ old h. ground arith, ground arith)
load_or_store_lem false i s =
    (λ h. (ground arith, ground arith, ground arith), λ old h. ground arith, ground arith)
