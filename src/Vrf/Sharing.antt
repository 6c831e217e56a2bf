-- ===== src/Vrf/Sharing.antt =====
-- Connections of one service share its tables: create and attach repeat nothing, and a table goes
-- with the last connection.
use sdk_vpp.Prelude.{
  ℕ, ◌≡◌, ◌≢◌, refl, ap, String, Bool, Option, none, some, arith, true, false, [], ◌∷◌, length,
  ◌==◌, if◌then◌else◌, not,
}
use sdk_vpp.Prelude.Keys.{nat_eq, string_eq}
use sdk_vpp.Prelude.Assoc.{
  two_entries, lookup, erase, lookup-insert_self, lookup-insert, lookup-erase, lookup-erase_self,
}
use sdk_vpp.Vpp.{Vpp, Error, ip_table_add_del}
use sdk_vpp.Exec.{State, Outcome, ok, ignoring, >>=-eq-ok, side}
use text.Mathlib.TextEquality.{eq_iff}
use sdk_vpp.Vrf.{
  Maps, VrfInfo, family, new_info, with_interface, without_interface, create, create_entry, attach,
  attach_family, attach_entry, attach_interface, del, del_stored, del_entry, settle_entry, del_vpp,
}

create_entry_stored :
    (v : Vpp) (ns : String) (six : Bool) (o : Option VrfInfo) (n : ℕ) (s t : State Maps)
    → lookup ns (family six s.own) ≡ o
    → create_entry v ns six o s ≡ (ok n, t)
    → (info : VrfInfo) × (lookup ns (family six t.own) ≡ some info) × (info.id ≡ n)
unfolding create_entry
create_entry_stored v ns six (some info) n s t h e = (info, ground arith, ground arith)
create_entry_stored v ns six none n s t h e =
    (new_info n, ground (arith, lookup-insert_self ns (new_info n) (family six s.own)), refl)

-- When create returned a table, it returns the same table to every connection that asks for the
-- service in that family before the maps change, without a message to VPP and without a change.
create_again :
    (v : Vpp) (ns : String) (six : Bool) (n : ℕ) (s t u : State Maps)
    → create v ns six s ≡ (ok n, t)
    → u.own ≡ t.own
    → create v ns six u ≡ (ok n, u)
unfolding create
create_again v ns six n s t u e same =
    let (info, stored, id) =
      create_entry_stored v ns six (lookup ns (family six s.own)) n s t refl e in
    let stored' : lookup ns (family six u.own) ≡ some info = simp same stored in
    rw (stored', create_entry) (rw id refl)

-- What one round of attach leaves: the entry holds the interface, and the other family is untouched.
record Attached (ns : String) (i : ℕ) (six : Bool) (s t : State Maps) : Type 0 where
  info : VrfInfo
  stored : lookup ns (family six t.own) ≡ some info
  there : lookup i info.attached ≡ some tt
  other : family (not six) t.own ≡ family (not six) s.own

attach_interface-Attached :
    (v : Vpp) (ns : String) (i : ℕ) (c six : Bool) (info : VrfInfo) (o : Option (Unit {0}))
    (s t : State Maps)
    → lookup ns (family six s.own) ≡ some info
    → lookup i info.attached ≡ o
    → attach_interface v ns i c six info o s ≡ (ok tt, t)
    → Attached ns i six s t
unfolding attach_interface
attach_interface-Attached v ns i c six info (some tt) s t h there e = record {
  info = info;
  stored = ground arith;
  there = there;
  other = ground arith;
}
attach_interface-Attached v ns i c six info none s t h there e = record {
  info = with_interface i info;
  stored = ground (arith, lookup-insert_self ns (with_interface i info) (family six s.own));
  there = lookup-insert_self i tt info.attached;
  other = ground arith;
}

attach_entry-Attached :
    (v : Vpp) (ns : String) (i : ℕ) (c six : Bool) (o : Option VrfInfo) (s t : State Maps)
    → lookup ns (family six s.own) ≡ o
    → attach_entry v ns i c six o s ≡ (ok tt, t)
    → Attached ns i six s t
unfolding attach_entry
attach_entry-Attached v ns i c six none s t h e =
    cc (ap (λ (q : Outcome Error (Unit {0}) × State Maps). q.0) e)
attach_entry-Attached v ns i c six (some info) s t h e =
    attach_interface-Attached v ns i c six info (lookup i info.attached) s t h refl e

-- A round over an entry that holds the interface does nothing.
attach_family_again :
    (v : Vpp) (ns : String) (i : ℕ) (c six : Bool) (info : VrfInfo) (s : State Maps)
    → lookup ns (family six s.own) ≡ some info
    → lookup i info.attached ≡ some tt
    → attach_family v ns i c six s ≡ (ok tt, s)
unfolding attach_family attach_entry attach_interface
attach_family_again v ns i c six info s h there =
    rw (h, attach_entry) (rw (there, attach_interface) refl)

-- When attach returned with no error, attaching the interface again (of a refreshed connection, or of
-- another one with the same interface) sends nothing to VPP and changes nothing.
pub attach_again :
    (v : Vpp) (ns : String) (i : ℕ) (c : Bool) (s t : State Maps)
    → attach v ns i c s ≡ (ok tt, t)
    → attach v ns i c t ≡ (ok tt, t)
unfolding attach
attach_again v ns i c s t e =
    let (_, u, e1, e2) = >>=-eq-ok _ (attach_family v ns i c false) s e in
    let a = attach_entry-Attached v ns i c false _ s u refl (unfold attach_family in e1) in
    let b = attach_entry-Attached v ns i c true _ u t refl (unfold attach_family in e2) in
    let first : lookup ns (family false t.own) ≡ some a.info = simp b.other a.stored in
    simp (attach_family_again v ns i c false a.info t first a.there)
      (attach_family_again v ns i c true b.info t b.stored b.there)

abbrev pub stored_table : Bool → Bool → State Maps → Option ℕ
stored_table c six s = if six then (side c s).vrf_v6 else (side c s).vrf_v4

-- The answer of VPP is only logged.
ignored_del :
    (v : Vpp) (id : ℕ) (six : Bool) (u : State Maps)
    → ignoring {F = Error} (del_vpp v id six) u
      ≡ (ok tt, record u { calls = ip_table_add_del false id six ∷ u.calls })
unfolding del_vpp
ignored_del v id six u = ground arith

-- del of a connection whose table and interface `i` are known
module _ (v : Vpp) (ns : String) (six c : Bool) (id i : ℕ) (info : VrfInfo) (s : State Maps)
    (table : stored_table c six s ≡ some id) (interface : (side c s).if_index ≡ some i)
    (entry : lookup ns (family six s.own) ≡ some info) where
  del_settles :
      del {E = Error} v ns six c s
      ≡ settle_entry v ns six id (without_interface i info) (length (erase i info.attached) == 1) s
  unfolding del del_stored del_entry
  del_settles = simp table (simp interface (simp entry refl))

  -- While two interfaces besides that of the connection are attached (the one of the service itself
  -- and one of another connection), del keeps the table under its number with both of them attached,
  -- sends nothing to VPP, and leaves the other services and the other family as they are.
  pub del_shared :
      (j k : ℕ)
      → lookup j info.attached ≡ some tt
      → lookup k info.attached ≡ some tt
      → j ≢ k
      → i ≢ j
      → i ≢ k
      → let t = (del {E = Error} v ns six c s).1 in
        (lookup ns (family six t.own) ≡ some (without_interface i info))
        × (lookup j (without_interface i info).attached ≡ some tt)
        × (lookup k (without_interface i info).attached ≡ some tt)
        × (t.calls ≡ s.calls)
        × ((m : String) → ns ≢ m → lookup m (family six t.own) ≡ lookup m (family six s.own))
        × (family (not six) t.own ≡ family (not six) s.own)
  unfolding settle_entry
  del_shared j k hj hk jk ij ik =
      let there_j : lookup j (erase i info.attached) ≡ some tt =
        ground (arith, lookup-erase i j info.attached) in
      let there_k : lookup k (erase i info.attached) ≡ some tt =
        ground (arith, lookup-erase i k info.attached) in
      let many = two_entries j k (erase i info.attached) tt tt there_j there_k jk in
      let more : (length (erase i info.attached) == 1) ≡ false = ground arith in
      rw del_settles (
        rw more (
          ground (arith, lookup-insert_self ns (without_interface i info) (family six s.own)),
          there_j,
          there_k,
          refl,
          λ m h. ground (
            arith,
            lookup-insert ns m (without_interface i info) (family six s.own),
            eq_iff ns m,
          ),
          ground arith,
        ))

  -- When one interface besides that of the connection is attached, del forgets the table, tells VPP to
  -- delete the table of the connection in that family, whatever VPP answers, and leaves the other
  -- services and the other family as they are.
  pub del_last :
      (l : ℕ)
      → erase i info.attached ≡ (l, tt) ∷ []
      → let t = (del {E = Error} v ns six c s).1 in
        (lookup ns (family six t.own) ≡ none)
        × (t.calls ≡ ip_table_add_del false id six ∷ s.calls)
        × ((m : String) → ns ≢ m → lookup m (family six t.own) ≡ lookup m (family six s.own))
        × (family (not six) t.own ≡ family (not six) s.own)
  unfolding settle_entry
  del_last l one =
      let count : (length (erase i info.attached) == 1) ≡ true = rw one refl in
      rw del_settles (
        rw count (
          rw (ignored_del v id six) (
            ground (arith, lookup-erase_self ns (family six s.own)),
            refl,
            λ m h. ground (arith, lookup-erase ns m (family six s.own), eq_iff ns m),
            ground arith,
          )))
