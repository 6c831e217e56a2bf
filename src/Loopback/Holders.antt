-- ===== src/Loopback/Holders.antt =====
-- Connections that may hold a share of a loopback, and the count of those that do.
use sdk_vpp.Prelude.{
  ℕ, ◌+◌, ◌≤◌, ◌≡◌, ◌≢◌, String, Bool, true, false, Option, none, some, arith, List, [], ◌∷◌, ◌++◌,
  length, ◌*◌, not, if◌then◌else◌,
}
use sdk_vpp.Prelude.Keys.{string_eq, ◌=?◌}
use sdk_vpp.Prelude.Assoc.{lookup}
use sdk_vpp.Vpp.{Call}
use sdk_vpp.Exec.{State}
use sdk_vpp.Metadata.{Metadata}
use sdk_vpp.Loopback.{LoopInfo, LoopMap}
use sdk_vpp.Loopback.Effects.{held, share, count_of, Agrees, IsLive}
use text.Mathlib.TextEquality.{eq_iff}

-- A connection: its service and the metadata of its two sides.
pub record Member : Type 0 where
  pub service : String
  pub client : Metadata
  pub server : Metadata

pub record System : Type 0 where
  pub calls : List Call
  pub entries : LoopMap
  pub members : List Member

-- What an operation of one connection sees.
abbrev pub seen_by : System → Member → State LoopMap
seen_by w m = record { calls = w.calls; client = m.client; server = m.server; own = w.entries }

abbrev pub after : List Member → Member → List Member → State LoopMap → System
after pre m post t = record {
  calls = t.calls;
  entries = t.own;
  members = pre ++ record m { client = t.client; server = t.server } ∷ post;
}

-- The sides that hold the loopback of a service.
abbrev pub holds : String → Member → ℕ
holds j m = if m.service =? j then share m.client.loopback + share m.server.loopback else 0

abbrev pub holders : String → List Member → ℕ
holders j [] = 0
holders j (m ∷ ms) = holds j m + holders j ms

abbrev pub MemberAgrees : String → Option LoopInfo → Member → Type 0
MemberAgrees j o m = m.service ≡ j → Agrees m.client.loopback o × Agrees m.server.loopback o

abbrev pub AllAgree : String → Option LoopInfo → List Member → Type 0
AllAgree j o [] = Unit {0}
AllAgree j o (m ∷ ms) = MemberAgrees j o m × AllAgree j o ms

-- The counter of a service is the number of its holders, an entry has a holder, and what the holders
-- have stored is the interface of the entry.
pub record IsCounted (w : System) : Type 0 where
  pub counted : (j : String) → count_of (lookup j w.entries) ≡ holders j w.members
  pub live : (j : String) → IsLive (lookup j w.entries)
  pub agree : (j : String) → AllAgree j (lookup j w.entries) w.members

pub holders-append :
    (j : String) (xs ys : List Member) → holders j (xs ++ ys) ≡ holders j xs + holders j ys
holders-append j [] ys = omega arith
holders-append j (x ∷ xs) ys = omega (arith, holders-append j xs ys)

pub AllAgree-append :
    (j : String) (o : Option LoopInfo) (xs ys : List Member)
    → AllAgree j o xs
    → AllAgree j o ys
    → AllAgree j o (xs ++ ys)
AllAgree-append j o [] ys a b = b
AllAgree-append j o (x ∷ xs) ys a b = (a.0, AllAgree-append j o xs ys a.1 b)

pub AllAgree-split :
    (j : String) (o : Option LoopInfo) (xs ys : List Member)
    → AllAgree j o (xs ++ ys)
    → AllAgree j o xs × AllAgree j o ys
AllAgree-split j o [] ys a = (tt, a)
AllAgree-split j o (x ∷ xs) ys a = let r = AllAgree-split j o xs ys a.1 in ((a.0, r.0), r.1)

pub Agrees-unshared : (x : Option ℕ) (o : Option LoopInfo) → share x ≡ 0 → Agrees x o
Agrees-unshared none o h = tt
Agrees-unshared (some i) o h = absurd (omega arith)

pub holds_zero :
    (j : String) (m : Member)
    → m.service ≡ j
    → holds j m ≡ 0
    → (share m.client.loopback ≡ 0) × (share m.server.loopback ≡ 0)
holds_zero j m e h = ground (arith, eq_iff m.service j)

-- Without holders anything agrees.
pub AllAgree_unheld :
    (j : String) (o : Option LoopInfo) (ms : List Member) → holders j ms ≡ 0 → AllAgree j o ms
AllAgree_unheld j o [] h = tt
AllAgree_unheld j o (m ∷ ms) h = (
  λ e. let z = holds_zero j m e (omega arith) in (Agrees-unshared _ o z.0, Agrees-unshared _ o z.1),
  AllAgree_unheld j o ms (omega arith),
)

pub Agrees-same :
    (x : Option ℕ) (a b : LoopInfo)
    → a.sw_if_index ≡ b.sw_if_index
    → Agrees x (some a)
    → Agrees x (some b)
Agrees-same none a b h p = tt
Agrees-same (some i) a b h p = cc

pub AllAgree_same :
    (j : String) (a b : LoopInfo) (ms : List Member)
    → a.sw_if_index ≡ b.sw_if_index
    → AllAgree j (some a) ms
    → AllAgree j (some b) ms
AllAgree_same j a b [] h p = tt
AllAgree_same j a b (m ∷ ms) h p = (
  λ e. (Agrees-same _ a b h (p.0 e).0, Agrees-same _ a b h (p.0 e).1),
  AllAgree_same j a b ms h p.1,
)

pub share_le : (x : Option ℕ) → share x ≤ 1
share_le none = omega arith
share_le (some i) = omega arith

pub holders_le : (j : String) (ms : List Member) → holders j ms ≤ 2 * length ms
holders_le j [] = omega arith
holders_le j (m ∷ ms) =
    ground (arith, holders_le j ms, share_le m.client.loopback, share_le m.server.loopback)

pub holds_sides :
    (w : System) (m : Member) (c : Bool) (j : String)
    → m.service ≡ j
    → holds j m ≡ share (held c (seen_by w m)) + share (held (not c) (seen_by w m))
holds_sides w m c j e = ground (arith, eq_iff m.service j)

pub holds_other : (m : Member) (j : String) → m.service ≢ j → holds j m ≡ 0
holds_other m j h = ground (arith, eq_iff m.service j)

pub other_service : (i j : String) → (i =? j) ≡ false → i ≢ j
other_service i j h e = cc ((eq_iff i j).1 e)

pub side-Agrees :
    (w : System) (m : Member) (c : Bool) (o : Option LoopInfo)
    → Agrees m.client.loopback o × Agrees m.server.loopback o
    → Agrees (held (not c) (seen_by w m)) o
side-Agrees w m true o a = a.1
side-Agrees w m false o a = a.0

pub sides_agree :
    (c : Bool) (t : State LoopMap) (o : Option LoopInfo)
    → Agrees (held c t) o
    → Agrees (held (not c) t) o
    → Agrees t.client.loopback o × Agrees t.server.loopback o
sides_agree true t o a b = (a, b)
sides_agree false t o a b = (b, a)
