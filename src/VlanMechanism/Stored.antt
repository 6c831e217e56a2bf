-- ===== src/VlanMechanism/Stored.antt =====
-- Which interface the client of a VLAN connection ends up with.
use sdk_vpp.Prelude.{
  ℕ, ◌≡◌, ◌≢◌, ◌⊎◌, inl, inr, ap, sym, ◌∙◌, refl, true, Option, none, some, List, ◌∷◌, String, ◌==◌,
  arith,
}
use sdk_vpp.Prelude.Keys.{string_eq}
use sdk_vpp.Prelude.Assoc.{Map, lookup}
use sdk_vpp.Vpp.{Vpp, Error, Call, SwInterfaceDetails, sw_interface_dump_named, create_vlan_subif}
use sdk_vpp.Exec.{State, ok, ◌>>◌, ◌>>=◌, >>=-eq-ok}
use sdk_vpp.Chain.{Connection, Mechanism, to_mechanism}
use sdk_vpp.Metadata.Ifindex
use sdk_vpp.Metadata.Vlan
use sdk_vpp.VlanMechanism.{
  VlanApi, get_host_or_vlan_interface, choose_interface, add_on, add_unless_stored, add_with,
  add_sub_if, via_of,
}
use sdk_vpp.VlanMechanism.Interfaces.{
  IsListed, device_named, vlan_listed, Choice, listed_now, get_host_or_vlan_interface-Found,
  choose_if,
}

module _ (host : String) (vlan_id : ℕ) {S : Type 0} (v : Vpp) where
  -- What the whole pass leaves: the index and the VLAN ID are stored, for an interface that was listed
  -- or one that was created.
  pub record Chosen (ds : List SwInterfaceDetails) (s t : State S) : Type 0 where
    pub index : ℕ
    pub stored : t.client.if_index ≡ some index
    pub vlan : t.client.vlan ≡ some vlan_id
    pub device :
        vlan_id ≡ 0
        → IsListed (device_named host) ds index × (t.calls ≡ sw_interface_dump_named host ∷ s.calls)
    pub tagged :
        vlan_id ≢ 0
        → (IsListed (vlan_listed host vlan_id) ds index
            × (t.calls ≡ sw_interface_dump_named host ∷ s.calls))
          ⊎ ((parent : ℕ) × (parent ≢ 0)
              × IsListed (device_named host) ds parent
              × (t.calls
                  ≡ create_vlan_subif parent vlan_id ∷ sw_interface_dump_named host ∷ s.calls)
              × (index
                  ≡ v.index
                      (sw_interface_dump_named host ∷ s.calls)
                      (create_vlan_subif parent vlan_id)))

  store_both :
      (i : ℕ) (s t : State S)
      → (Ifindex.store {E = Error} true i >> Vlan.store true vlan_id) s ≡ (ok tt, t)
      → (t.client.if_index ≡ some i) × (t.client.vlan ≡ some vlan_id) × (t.calls ≡ s.calls)
  unfolding Ifindex.store Vlan.store
  store_both i s t h = (ground arith, ground arith, ground arith)

  chosen :
      (i : ℕ) (s u w t : State S)
      → u ≡ record s { calls = sw_interface_dump_named host ∷ s.calls }
      → Choice host vlan_id v (listed_now host vlan_id v s) i u w
      → (Ifindex.store {E = Error} true i >> Vlan.store true vlan_id) w ≡ (ok tt, t)
      → Chosen (listed_now host vlan_id v s) s t
  chosen i s u w t listed choice stored =
      let dumped = sw_interface_dump_named host ∷ s.calls in
      let before : u.calls ≡ dumped = ap (λ (x : State S). x.calls) listed in
      let (index, vlan, kept) = store_both i w t stored in
      let calls = λ (same : w ≡ u). kept ∙ ap (λ (x : State S). x.calls) same ∙ before in
      record {
        index = i;
        stored = index;
        vlan = vlan;
        device = λ z. let (device, same) = choice.0 z in (device, calls same);
        tagged = λ nz. elim (choice.1 nz) [
          | inl (there, same) ↦ inl (there, calls same)
          | inr (parent, some', device, sent, replied) ↦ inr (
            parent,
            some',
            device,
            kept
                ∙ ap (λ (x : State S). x.calls) sent
                ∙ ap (λ (l : List Call). create_vlan_subif parent vlan_id ∷ l) before,
            replied ∙ ap (λ (l : List Call). v.index l (create_vlan_subif parent vlan_id)) before,
          )
        ];
      }

  add_on-Chosen :
      (via : String) (s t : State S)
      → ((j : ℕ) → IsListed (vlan_listed host vlan_id) (listed_now host vlan_id v s) j → j ≢ 0)
      → add_on v vlan_id via (some host) s ≡ (ok tt, t)
      → Chosen (listed_now host vlan_id v s) s t
  unfolding add_on choose_interface
  add_on-Chosen via s t no_zero h =
      let (found, u, looked, rest) =
        >>=-eq-ok
          (λ x.
            choose_interface v vlan_id x >>= λ i. (Ifindex.store true i >> Vlan.store true vlan_id))
          (get_host_or_vlan_interface v host vlan_id) s h in
      let (i, w, chose, stored) =
        >>=-eq-ok (λ i. (Ifindex.store true i >> Vlan.store true vlan_id))
          (choose_interface v vlan_id found) u rest in
      let (f, listed) = get_host_or_vlan_interface-Found host vlan_id v found s u looked in
      chosen i s u w t listed
        (choose_if host vlan_id v (vlan_id == 0) (found.1 == 0) (listed_now host vlan_id v s) found
          i u w refl refl f no_zero chose)
        stored

-- A connection of this mechanism without a stored interface, whose label names a device, and no
-- interface of VPP for the VLAN has index 0, which is local0's. When addSubIf succeeded, the index that
-- it stored is that of an interface listed under the device's name when the VLAN ID is 0; else it is that
-- of a listed sub-interface with this VLAN ID, or of one that VPP was asked to create on a listed
-- interface of the device. The VLAN ID is stored with it, and no other message was sent.
pub add_sub_if-Chosen :
    {S : Type 0} (v : Vpp) (api : VlanApi) (device_names : Map String String) (conn : Connection)
    (m : Mechanism) (host : String) (s t : State S)
    → to_mechanism api.is_mechanism conn.mechanism ≡ some m
    → lookup (via_of conn) device_names ≡ some host
    → s.client.if_index ≡ none
    → ((j : ℕ)
        → IsListed (vlan_listed host (api.vlan_id m)) (listed_now host (api.vlan_id m) v s) j
        → j ≢ 0)
    → add_sub_if v api device_names conn s ≡ (ok tt, t)
    → Chosen host (api.vlan_id m) v (listed_now host (api.vlan_id m) v s) s t
unfolding add_with Ifindex.load add_unless_stored
add_sub_if-Chosen v api device_names conn m host s t kind device absent no_zero h =
    let run =
      ap (λ (d : Option String). add_on v (api.vlan_id m) (via_of conn) d s) (sym device)
      ∙ ap (λ (o : Option ℕ). add_unless_stored v api device_names m (via_of conn) o s) (sym absent)
      ∙ ap (λ (o : Option Mechanism). add_with v api device_names (via_of conn) o s) (sym kind)
      ∙ h in
    add_on-Chosen host (api.vlan_id m) v (via_of conn) s t no_zero run
