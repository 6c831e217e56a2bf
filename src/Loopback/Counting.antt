-- ===== src/Loopback/Counting.antt =====
-- One operation with an `Effect` keeps the counters right, whatever the other connections hold.
use sdk_vpp.Prelude.{
  ℕ, ◌+◌, ◌≤◌, ◌≡◌, refl, String, Bool, Option, none, some, arith, List, ◌∷◌, ◌++◌, inl, inr,
  Bool-cases, not,
}
use sdk_vpp.Prelude.Keys.{string_eq, =?_self, ◌=?◌}
use sdk_vpp.Prelude.Assoc.{lookup}
use sdk_vpp.Exec.{State}
use sdk_vpp.Loopback.{LoopInfo, LoopMap}
use sdk_vpp.Loopback.Effects.{Effect, held, share, count_of, Agrees, IsLive}
use text.Mathlib.TextEquality.{eq_iff}
use sdk_vpp.Loopback.Holders.{
  Member, System, seen_by, after, holds, holders, MemberAgrees, AllAgree, IsCounted, holders-append,
  AllAgree-append, AllAgree-split, Agrees-unshared, AllAgree_unheld, Agrees-same, AllAgree_same,
  holds_sides, side-Agrees, sides_agree, other_service,
}

module _ (w : System) (pre post : List Member) (m : Member) (c : Bool) (t : State LoopMap)
    (shape : w.members ≡ pre ++ m ∷ post) (inv : IsCounted w)
    (e : Effect m.service c (seen_by w m) t) where
  abbrev m' : Member
  m' = record m { client = t.client; server = t.server }

  split_holders : (j : String) → holders j w.members ≡ holders j pre + (holds j m + holders j post)
  split_holders j = rw shape (holders-append j pre (m ∷ post))

  own_sides :
      share m.client.loopback
        + share m.server.loopback
        + (share (held c t) + share (held (not c) t))
      ≡ share t.client.loopback
        + share t.server.loopback
        + (share (held c (seen_by w m)) + share (held (not c) t))
  own_sides = ground (arith, e.other_side)

  own_moves :
      count_of (lookup m.service t.own) + holds m.service m
      ≡ count_of (lookup m.service w.entries) + holds m.service m'
  own_moves = rw =?_self (omega (arith, own_sides, e.moved))

  moved_holds :
      (j : String)
      → count_of (lookup j t.own) + holds j m ≡ count_of (lookup j w.entries) + holds j m'
  moved_holds j = elim (Bool-cases (m.service =? j)) [
    | inl same ↦ rw (← (eq_iff m.service j).0 same) own_moves
    | inr other ↦ ground (arith, e.others j (other_service m.service j other))
  ]

  kept_counted : (j : String) → count_of (lookup j t.own) ≡ holders j (pre ++ m' ∷ post)
  kept_counted j =
      omega (arith, inv.counted j, split_holders j, holders-append j pre (m' ∷ post), moved_holds j)

  same_interface :
      (j : String) (x y : LoopInfo)
      → lookup j w.entries ≡ some x
      → lookup j t.own ≡ some y
      → x.sw_if_index ≡ y.sw_if_index
  same_interface j x y p q = elim (Bool-cases (m.service =? j)) [
    | inl same ↦
        let r : m.service ≡ j = (eq_iff m.service j).0 same in
        let p' : lookup m.service w.entries ≡ some x = rw r p in
        let q' : lookup m.service t.own ≡ some y = rw r q in rw (p', q') at e.same
    | inr other ↦ ground (arith, e.others j (other_service m.service j other))
  ]

  rest_agrees :
      (ms : List Member) (j : String) (o o' : Option LoopInfo)
      → lookup j w.entries ≡ o
      → lookup j t.own ≡ o'
      → holders j ms + holds j m ≤ count_of o
      → AllAgree j o ms
      → AllAgree j o' ms
  rest_agrees ms j none o' p q b a = AllAgree_unheld j o' ms (omega arith)
  rest_agrees ms j (some x) none p q b a =
      AllAgree_unheld j none ms (omega (arith, rw (p, q) at (moved_holds j)))
  rest_agrees ms j (some x) (some y) p q b a = AllAgree_same j x y ms (same_interface j x y p q) a

  old_agree :
      (j : String)
      → AllAgree j (lookup j w.entries) pre × AllAgree j (lookup j w.entries) (m ∷ post)
  old_agree j = AllAgree-split j (lookup j w.entries) pre (m ∷ post) (rw shape at (inv.agree j))

  slot-Agrees :
      (x : Option ℕ) (o o' : Option LoopInfo)
      → lookup m.service w.entries ≡ o
      → lookup m.service t.own ≡ o'
      → share x + share (held c (seen_by w m)) ≤ count_of o
      → Agrees x o
      → Agrees x o'
  slot-Agrees x none o' p q b a = Agrees-unshared x o' (omega arith)
  slot-Agrees x (some y) none p q b a = Agrees-unshared x none (omega (arith, rw (p, q) at e.moved))
  slot-Agrees x (some y) (some z) p q b a = Agrees-same x y z (rw (p, q) at e.same) a

  own_room :
      share (held (not c) t) + share (held c (seen_by w m)) ≤ count_of (lookup m.service w.entries)
  own_room = rw e.other_side (
      omega
        (arith, holds_sides w m c m.service refl, inv.counted m.service, split_holders m.service))

  other-Agrees : Agrees (held (not c) t) (lookup m.service t.own)
  other-Agrees =
      slot-Agrees (held (not c) t) (lookup m.service w.entries) (lookup m.service t.own) refl refl
        own_room (rw e.other_side (side-Agrees w m c _ ((old_agree m.service).1.0 refl)))

  member_agrees : (j : String) → MemberAgrees j (lookup j t.own) m'
  member_agrees j same = rw (← same) (sides_agree c t _ e.agrees other-Agrees)

  kept_agree : (j : String) → AllAgree j (lookup j t.own) (pre ++ m' ∷ post)
  kept_agree j =
      AllAgree-append j (lookup j t.own) pre (m' ∷ post)
        (rest_agrees pre j _ _ refl refl (omega (arith, inv.counted j, split_holders j))
          (old_agree j).0)
        (
          member_agrees j,
          rest_agrees post j _ _ refl refl (omega (arith, inv.counted j, split_holders j))
              (old_agree j).1.1,
        )

  kept-IsLive : (j : String) → IsLive (lookup j t.own)
  kept-IsLive j = elim (Bool-cases (m.service =? j)) [
    | inl same ↦ rw (← (eq_iff m.service j).0 same) e.live
    | inr other ↦ rw (e.others j (other_service m.service j other)) (inv.live j)
  ]

  pub Effect-IsCounted : IsCounted (after pre m post t)
  Effect-IsCounted = record { counted = kept_counted; live = kept-IsLive; agree = kept_agree }
