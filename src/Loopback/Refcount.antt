-- ===== src/Loopback/Refcount.antt =====
-- Every interleaving of createLoopback and del by any number of connections, on either side.
--
-- `exec` runs the operations one at a time, so a history is a sequence of whole operations; a
-- request is a create that a failing chain follows by a del, and a close is a del. A connection
-- keeps its network service.
use sdk_vpp.Prelude.{
  ◌+◌, ◌<◌, ◌≡◌, refl, String, Bool, true, false, Option, none, arith, List, [], ◌∷◌, ◌++◌,
  length-map, suc, sym, ap, map, length, ◌*◌,
}
use sdk_vpp.Prelude.Keys.{string_eq}
use sdk_vpp.Prelude.Assoc.{lookup}
use sdk_vpp.Vpp.{Vpp, Error}
use sdk_vpp.Exec.{State, ok}
use sdk_vpp.Metadata.{no_metadata}
use sdk_vpp.Loopback.{LoopInfo, LoopMap, uint32_mod, create_loopback_for, del}
use sdk_vpp.Loopback.Effects.{Ready, held, Agrees, create_loopback_for-Effect}
use sdk_vpp.Loopback.Drops.{del-Effect}
use sdk_vpp.Loopback.Holders.{
  Member, System, seen_by, after, holders, MemberAgrees, IsCounted, AllAgree-split, AllAgree_unheld,
  holders_le,
}
use sdk_vpp.Loopback.Counting.{Effect-IsCounted}

pub data Step (v : Vpp) (w : System) : System → Type 0 where
  creates :
      (pre post : List Member) (m : Member) (c : Bool)
      → w.members ≡ pre ++ m ∷ post
      → Step v w (after pre m post (create_loopback_for v m.service c (seen_by w m)).1)
  dels :
      (pre post : List Member) (m : Member) (c : Bool)
      → w.members ≡ pre ++ m ∷ post
      → Step v w (after pre m post (del {E = Error} v m.service c (seen_by w m)).1)

pub data Reach (v : Vpp) (w : System) : System → Type 0 where
  here : Reach v w w
  next : {t u : System} → Reach v w t → Step v t u → Reach v w u

-- Too few connections for the counter to wrap around.
abbrev pub Fits : System → Type 0
Fits w = 2 * length w.members + 1 < uint32_mod

member_agree :
    (pre post : List Member) (m : Member) (w : System)
    → w.members ≡ pre ++ m ∷ post
    → IsCounted w
    → MemberAgrees m.service (lookup m.service w.entries) m
member_agree pre post m w shape inv =
    (AllAgree-split m.service (lookup m.service w.entries) pre (m ∷ post)
      (rw shape at (inv.agree m.service))).1.0

own-Agrees :
    (w : System) (m : Member) (c : Bool) (o : Option LoopInfo)
    → Agrees m.client.loopback o × Agrees m.server.loopback o
    → Agrees (held c (seen_by w m)) o
own-Agrees w m true o a = a.0
own-Agrees w m false o a = a.1

pub ready :
    (pre post : List Member) (m : Member) (w : System) (c : Bool)
    → w.members ≡ pre ++ m ∷ post
    → IsCounted w
    → Fits w
    → Ready m.service c (seen_by w m)
ready pre post m w c shape inv fits = record {
  agrees = own-Agrees w m c _ (member_agree pre post m w shape inv refl);
  live = inv.live m.service;
  room = omega (arith, inv.counted m.service, holders_le m.service w.members);
}

same_length :
    (pre : List Member) (m n : Member) (post : List Member)
    → length (pre ++ n ∷ post) ≡ length (pre ++ m ∷ post)
same_length [] m n post = refl
same_length (x ∷ pre) m n post = ap suc (same_length pre m n post)

length-after :
    (pre post : List Member) (m : Member) (t : State LoopMap) (w : System)
    → w.members ≡ pre ++ m ∷ post
    → length (after pre m post t).members ≡ length w.members
length-after pre post m t w shape = rw shape (same_length pre m _ post)

pub Step-IsCounted :
    (v : Vpp) {w u : System} → IsCounted w → Fits w → Step v w u → IsCounted u × Fits u
Step-IsCounted v {w} inv fits (creates pre post m c shape) = (
  Effect-IsCounted w pre post m c _ shape inv (
      create_loopback_for-Effect v m.service c (seen_by w m) (ready pre post m w c shape inv fits)),
  rw (length-after pre post m _ w shape) fits,
)
Step-IsCounted v {w} inv fits (dels pre post m c shape) = (
  Effect-IsCounted w pre post m c _ shape inv
      (del-Effect v m.service c (seen_by w m) (ready pre post m w c shape inv fits)).0,
  rw (length-after pre post m _ w shape) fits,
)

pub Reach-IsCounted :
    (v : Vpp) {w u : System} → IsCounted w → Fits w → Reach v w u → IsCounted u × Fits u
Reach-IsCounted v inv fits here = (inv, fits)
Reach-IsCounted v inv fits (next r st) =
    let (i, f) = Reach-IsCounted v inv fits r in Step-IsCounted v i f st

-- Connections that hold nothing yet, and NewMap's empty map.
abbrev pub newcomer : String → Member
newcomer service = record { service = service; client = no_metadata; server = no_metadata }

abbrev pub start : List String → System
start services = record { calls = []; entries = []; members = map newcomer services }

holders_start : (j : String) (services : List String) → holders j (map newcomer services) ≡ 0
holders_start j [] = refl
holders_start j (x ∷ xs) = ground (arith, holders_start j xs)

start-IsCounted : (services : List String) → IsCounted (start services)
unfolding lookup
start-IsCounted services = record {
  counted = λ j. sym (holders_start j services);
  live = λ j. tt;
  agree = λ j. AllAgree_unheld j none (map newcomer services) (holders_start j services);
}

-- After any history of creates and dels of connections that start without a loopback, in any order
-- and with any answers of VPP, the counter of every service is the number of connection sides that
-- hold its loopback, every entry has a holder, and every holder has stored the interface of the
-- entry; and whenever a connection then runs del, it returns with no panic. (The connections are
-- fewer than 2^31, so that the 32-bit counter cannot wrap around.)
pub history-IsCounted :
    (v : Vpp) (services : List String) {w : System}
    → 2 * length services + 1 < uint32_mod
    → Reach v (start services) w
    → IsCounted w
      × ((pre post : List Member) (m : Member) (c : Bool)
          → w.members ≡ pre ++ m ∷ post
          → (del {E = Error} v m.service c (seen_by w m)).0 ≡ ok tt)
history-IsCounted v services {w} few r =
    let (inv, fits) =
      Reach-IsCounted v (start-IsCounted services) (rw (length-map services newcomer) few) r in
    (
      inv,
      λ pre post m c shape.
          (del-Effect v m.service c (seen_by w m) (ready pre post m w c shape inv fits)).1,
    )
