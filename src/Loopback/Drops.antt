-- ===== src/Loopback/Drops.antt =====
-- What one run of del does to the counter of its service and to the metadata.
use sdk_vpp.Prelude.{
  ℕ, ◌<◌, ◌≡◌, refl, String, Bool, true, false, Option, none, some, arith, List, ◌∷◌, inl, inr,
  ◌==◌, Bool-cases,
}
use sdk_vpp.Prelude.Keys.{string_eq}
use sdk_vpp.Prelude.Assoc.{
  lookup, insert, erase, lookup-insert, lookup-erase, lookup-insert_self, lookup-erase_self,
}
use sdk_vpp.Vpp.{Vpp, Error, Call, delete_loopback}
use sdk_vpp.Exec.{State, ok, side, set_side}
use sdk_vpp.Loopback.{
  LoopInfo, LoopMap, uint32_mod, del, del_held, drop_share, settle_share, lowered, del_vpp,
}
use text.Mathlib.TextEquality.{eq_iff}
use sdk_vpp.Loopback.Effects.{Ready, Effect, held, SameInterface_refl}

-- The metadata after LoadAndDelete
abbrev cleared : Bool → State LoopMap → State LoopMap
cleared c s = set_side c (record (side c s) { loopback = none }) s

-- The last share goes: the entry goes too.
erased-Effect :
    (ns : String) (c : Bool) (s : State LoopMap) (i : ℕ) (info : LoopInfo)
    → held c s ≡ some i
    → lookup ns s.own ≡ some info
    → info.count ≡ 1
    → Effect ns c s (record (cleared c s) { own = erase ns s.own })
erased-Effect ns c s i info hm ho one = record {
  others = λ j h. ground (arith, lookup-erase ns j s.own, eq_iff ns j);
  moved = ground (arith, lookup-erase_self ns s.own);
  other_side = ground arith;
  agrees = ground (arith, lookup-erase_self ns s.own);
  same = ground (arith, lookup-erase_self ns s.own);
  live = ground (arith, lookup-erase_self ns s.own);
}

lowered-Effect :
    (ns : String) (c : Bool) (s : State LoopMap) (i : ℕ) (info : LoopInfo)
    → held c s ≡ some i
    → lookup ns s.own ≡ some info
    → 1 < info.count
    → info.count < uint32_mod
    → Effect ns c s (record (cleared c s) { own = insert ns (lowered info) s.own })
lowered-Effect ns c s i info hm ho more room = record {
  others = λ j h. ground (arith, lookup-insert ns j (lowered info) s.own, eq_iff ns j);
  moved = ground (arith, lookup-insert_self ns (lowered info) s.own);
  other_side = ground arith;
  agrees = ground (arith, lookup-insert_self ns (lowered info) s.own);
  same = ground (arith, lookup-insert_self ns (lowered info) s.own);
  live = ground (arith, lookup-insert_self ns (lowered info) s.own);
}

unheld-Effect :
    (ns : String) (c : Bool) (s : State LoopMap)
    → Ready ns c s
    → held c s ≡ none
    → Effect ns c s (cleared c s)
unheld-Effect ns c s r hm = record {
  others = λ j h. ground arith;
  moved = ground arith;
  other_side = ground arith;
  agrees = ground arith;
  same = ground (arith, SameInterface_refl (lookup ns s.own));
  live = ground (arith, r.live);
}

-- Messages sent after an effect do not matter to it either.
Effect-before :
    (ns : String) (c : Bool) (s t : State LoopMap) (calls : List Call)
    → Effect ns c s t
    → Effect ns c s (record t { calls = calls })
Effect-before ns c s t calls e = record {
  others = e.others;
  moved = e.moved;
  other_side = e.other_side;
  agrees = e.agrees;
  same = e.same;
  live = e.live;
}

-- `delVPP`'s error is only logged.
erase-Effect :
    (v : Vpp) (ns : String) (c : Bool) (s t : State LoopMap) (i : ℕ) (info : LoopInfo)
    → Effect ns c s (record t { own = erase ns t.own })
    → (o : Option Error) → v.fails t.calls (delete_loopback i) ≡ o
    → Effect ns c s (settle_share {E = Error} v ns i info true t).1
      × ((settle_share {E = Error} v ns i info true t).0 ≡ ok tt)
unfolding settle_share
erase-Effect v ns c s t i info e none h =
    rw (h, settle_share, del_vpp) (Effect-before ns c s _ (delete_loopback i ∷ t.calls) e, refl)
erase-Effect v ns c s t i info e (some x) h =
    rw (h, settle_share, del_vpp) (Effect-before ns c s _ (delete_loopback i ∷ t.calls) e, refl)

dropped-Effect :
    (v : Vpp) (ns : String) (c : Bool) (s : State LoopMap) (i : ℕ) (info : LoopInfo)
    → Ready ns c s
    → held c s ≡ some i
    → lookup ns s.own ≡ some info
    → (own : (cleared c s).own ≡ s.own)
    → Effect ns c s (drop_share {E = Error} v ns i (some info) (cleared c s)).1
      × ((drop_share {E = Error} v ns i (some info) (cleared c s)).0 ≡ ok tt)
unfolding drop_share
dropped-Effect v ns c s i info r hm ho own = elim (Bool-cases ((lowered info).count == 0)) [
  | inl last ↦
      rw (last, drop_share)
        (erase-Effect v ns c s (cleared c s) i (lowered info)
          (rw own (erased-Effect ns c s i info hm ho (ground arith))) _ refl)
  | inr more ↦
      rw (more, drop_share)
        (unfold settle_share in
          rw own (lowered-Effect ns c s i info hm ho (ground arith) (ground arith), refl))
]

del_held-Effect :
    (v : Vpp) (ns : String) (c : Bool) (s : State LoopMap)
    → Ready ns c s
    → (m : Option ℕ) (o : Option LoopInfo) → held c s ≡ m
    → lookup ns s.own ≡ o
    → Effect ns c s (del_held {E = Error} v ns m (cleared c s)).1
      × ((del_held {E = Error} v ns m (cleared c s)).0 ≡ ok tt)
unfolding del_held
del_held-Effect v ns c s r none o hm ho = (unheld-Effect ns c s r hm, refl)
del_held-Effect v ns c s r (some i) none hm ho = absurd (rw (hm, ho) at r.agrees)
del_held-Effect v ns true s r (some i) (some info) hm ho =
    rw ho (dropped-Effect v ns true s i info r hm ho refl)
del_held-Effect v ns false s r (some i) (some info) hm ho =
    rw ho (dropped-Effect v ns false s i info r hm ho refl)

-- On every branch; a connection that holds a share never meets a missing entry.
pub del-Effect :
    (v : Vpp) (ns : String) (c : Bool) (s : State LoopMap)
    → Ready ns c s
    → Effect ns c s (del {E = Error} v ns c s).1 × ((del {E = Error} v ns c s).0 ≡ ok tt)
unfolding del
del-Effect v ns c s r = del_held-Effect v ns c s r (held c s) (lookup ns s.own) refl refl
