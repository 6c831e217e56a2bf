-- ===== src/Loopback/Effects.antt =====
-- What one run of createLoopback or del does to the counter of its service and to the metadata.
use sdk_vpp.Prelude.{
  ℕ, ◌+◌, ◌%◌, ◌<◌, ◌≡◌, ◌≢◌, refl, String, Bool, not, Option, none, some, arith, List, ◌∷◌,
}
use sdk_vpp.Prelude.Keys.{string_eq}
use sdk_vpp.Prelude.Assoc.{lookup, lookup-insert, lookup-insert_self}
use sdk_vpp.Vpp.{Vpp, Error, Call, create_loopback}
use sdk_vpp.Exec.{State, side}
use sdk_vpp.Loopback.{
  LoopInfo, LoopMap, uint32_mod, create_loopback_for, create_unless_held, create_share, take_share,
  create_loopback_vpp,
}
use text.Mathlib.TextEquality.{eq_iff}

abbrev pub held : Bool → State LoopMap → Option ℕ
held is_client s = (side is_client s).loopback

abbrev pub share : Option ℕ → ℕ
share none = 0
share (some i) = 1

abbrev pub count_of : Option LoopInfo → ℕ
count_of none = 0
count_of (some info) = info.count

-- A stored interface is the one of the service's entry.
abbrev pub Agrees : Option ℕ → Option LoopInfo → Type 0
Agrees none o = Unit {0}
Agrees (some i) none = ⊥
Agrees (some i) (some info) = info.sw_if_index ≡ i

-- An entry is in use.
abbrev pub IsLive : Option LoopInfo → Type 0
IsLive none = Unit {0}
IsLive (some info) = 0 < info.count

abbrev pub SameInterface : Option LoopInfo → Option LoopInfo → Type 0
SameInterface none o = Unit {0}
SameInterface (some a) none = Unit {0}
SameInterface (some a) (some b) = a.sw_if_index ≡ b.sw_if_index

pub record Ready (ns : String) (c : Bool) (s : State LoopMap) : Type 0 where
  pub agrees : Agrees (held c s) (lookup ns s.own)
  pub live : IsLive (lookup ns s.own)
  pub room : count_of (lookup ns s.own) + 1 < uint32_mod

pub record Effect (ns : String) (c : Bool) (s t : State LoopMap) : Type 0 where
  pub others : (j : String) → ns ≢ j → lookup j t.own ≡ lookup j s.own
  pub moved :
      count_of (lookup ns t.own) + share (held c s) ≡ count_of (lookup ns s.own) + share (held c t)
  pub other_side : held (not c) t ≡ held (not c) s
  pub agrees : Agrees (held c t) (lookup ns t.own)
  pub same : SameInterface (lookup ns s.own) (lookup ns t.own)
  pub live : IsLive (lookup ns t.own)

pub SameInterface_refl : (o : Option LoopInfo) → SameInterface o o
SameInterface_refl none = tt
SameInterface_refl (some info) = refl

bumped : LoopInfo → LoopInfo
bumped info = record info { count = (info.count + 1) % uint32_mod }

-- The entry of the service is counted up and its interface stored.
take_share-Effect :
    (ns : String) (c : Bool) (info : LoopInfo) (s : State LoopMap)
    → held c s ≡ none
    → count_of (lookup ns s.own) ≡ info.count
    → SameInterface (lookup ns s.own) (some info)
    → info.count + 1 < uint32_mod
    → Effect ns c s (take_share ns c info s).1
unfolding take_share bumped
take_share-Effect ns c info s free count same room = record {
  others = λ j h. ground (arith, lookup-insert ns j (bumped info) s.own, eq_iff ns j);
  moved = ground (arith, lookup-insert_self ns (bumped info) s.own);
  other_side = ground arith;
  agrees = ground (arith, lookup-insert_self ns (bumped info) s.own);
  same = ground (arith, lookup-insert_self ns (bumped info) s.own);
  live = ground (arith, lookup-insert_self ns (bumped info) s.own);
}

-- Only messages were sent.
pub Effect-calls :
    (ns : String) (c : Bool) (s : State LoopMap) (calls : List Call)
    → Ready ns c s
    → Effect ns c s (record s { calls = calls })
Effect-calls ns c s calls r = record {
  others = λ j h. refl;
  moved = refl;
  other_side = refl;
  agrees = r.agrees;
  same = SameInterface_refl (lookup ns s.own);
  live = r.live;
}

-- Messages sent before an effect do not matter to it.
Effect-after :
    (ns : String) (c : Bool) (s t : State LoopMap) (calls : List Call)
    → Effect ns c (record s { calls = calls }) t
    → Effect ns c s t
Effect-after ns c s t calls e = record {
  others = e.others;
  moved = e.moved;
  other_side = e.other_side;
  agrees = e.agrees;
  same = e.same;
  live = e.live;
}

fresh_share-Effect :
    (v : Vpp) (ns : String) (c : Bool) (s : State LoopMap)
    → Ready ns c s
    → held c s ≡ none
    → lookup ns s.own ≡ none
    → (o : Option Error) → v.fails s.calls create_loopback ≡ o
    → Effect ns c s (create_share v ns c none s).1
unfolding create_share
fresh_share-Effect v ns c s r hm ho none e =
    rw (e, create_share, create_loopback_vpp)
      (Effect-after ns c s _ (create_loopback ∷ s.calls) (
        take_share-Effect ns c (record { sw_if_index = v.index s.calls create_loopback; count = 0 })
          (record s { calls = create_loopback ∷ s.calls }) hm (rw ho) (rw ho tt) (omega arith)))
fresh_share-Effect v ns c s r hm ho (some x) e =
    rw (e, create_share, create_loopback_vpp) (Effect-calls ns c s (create_loopback ∷ s.calls) r)

create-Effect :
    (v : Vpp) (ns : String) (c : Bool) (s : State LoopMap)
    → Ready ns c s
    → (m : Option ℕ) (o : Option LoopInfo) → held c s ≡ m
    → lookup ns s.own ≡ o
    → Effect ns c s (create_unless_held v ns c m s).1
unfolding create_unless_held
create-Effect v ns c s r (some i) o hm ho = Effect-calls ns c s s.calls r
create-Effect v ns c s r none (some info) hm ho =
    rw ho (take_share-Effect ns c info s hm (rw ho) (rw ho refl) (rw ho at r.room))
create-Effect v ns c s r none none hm ho =
    rw ho (fresh_share-Effect v ns c s r hm ho (v.fails s.calls create_loopback) refl)

-- On every branch, errors of VPP included.
pub create_loopback_for-Effect :
    (v : Vpp) (ns : String) (c : Bool) (s : State LoopMap)
    → Ready ns c s
    → Effect ns c s (create_loopback_for v ns c s).1
unfolding create_loopback_for
create_loopback_for-Effect v ns c s r =
    create-Effect v ns c s r (held c s) (lookup ns s.own) refl refl
