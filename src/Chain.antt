-- ===== src/Chain.antt =====
-- Requests, connections and the next element of a chain. Their types are of the `api` module and the
-- rest of the chain is built elsewhere: `Next` is a parameter of every element. A mechanism is held
-- by its type and its parameters; the API's typed views of it are parameters where they are used.
use sdk_vpp.Prelude.{
  ℕ, String, Option, none, some, List, Bool, true, false, ◌≡◌, ap, refl, sym, ◌∙◌, if◌then◌else◌,
}
use mathlib.Core.Path.{ap₂}
use sdk_vpp.Prelude.Assoc.{Map}
use sdk_vpp.Types.{IpNet}
use sdk_vpp.Vpp.{Error}
use sdk_vpp.Exec.{
  M, State, Outcome, ok, err, panic, handle, throw, try, pure, try-eq-ok, pure-eq-ok,
}

pub record Mechanism : Type 0 where
  pub type_name : String
  pub parameters : Map String String

pub record ConnectionContext : Type 0 where
  pub mtu : ℕ
  pub src_ip_nets : List (Option IpNet)
  pub dst_ip_nets : List (Option IpNet)

-- A payload by the constants of the API that the program compares it with; `other` is any other text.
pub data Payload : Type 0 where
  ip ethernet : Payload
  other : String → Payload

abbrev pub is_ip : Payload → Bool
is_ip ip = true
is_ip ethernet = false
is_ip (other s) = false

abbrev pub is_ethernet : Payload → Bool
is_ethernet ip = false
is_ethernet ethernet = true
is_ethernet (other s) = false

pub record Connection : Type 0 where
  pub id : String
  pub network_service : String
  pub payload : Payload
  pub labels : Map String String
  pub mechanism : Option Mechanism
  pub context : Option ConnectionContext

pub record Request : Type 0 where
  pub connection : Option Connection
  pub mechanism_preferences : List Mechanism

-- What Request returns with an error: a connection, mostly nil, and the error.
pub record Refusal : Type 0 where
  pub conn : Option Connection
  pub error : Error

-- next.Server(ctx) and next.Client(ctx)
pub record Next (S : Type 0) : Type 0 where
  pub request : Request → M S Refusal Connection
  pub close : Connection → M S Error (Unit {0})

-- return nil, err
abbrev pub refuse : {S A : Type 0} → Error → M S Refusal A
refuse e = throw (record { conn = none; error = e })

-- request.GetConnection().GetPayload(); without a connection it is the empty text.
abbrev pub payload_of : Option Connection → Payload
payload_of none = other ""
payload_of (some c) = c.payload

-- What Request does when its own work failed: Close with a context of its own, then the error, which
-- tells of an error of Close too.
abbrev pub close_after :
    {S : Type 0} → (Connection → M S Error (Unit {0})) → Connection → Error → M S Refusal Connection
close_after close conn e =
    try (close conn) (λ _. refuse e) (λ close_error. refuse (Error.wrap_closed close_error e))

module _ {S : Type 0} {c : Connection} {t : State S} where
  closed_never_ok :
      (e : Error) (p : Outcome Error (Unit {0}) × State S)
      → handle p (λ _. refuse e) (λ close_error. refuse (Error.wrap_closed close_error e))
        ≡ (ok c, t)
      → ⊥
  closed_never_ok e (ok a, u) h = cc (ap (λ (q : Outcome Refusal Connection × State S). q.0) h)
  closed_never_ok e (err x, u) h = cc (ap (λ (q : Outcome Refusal Connection × State S). q.0) h)
  closed_never_ok e (panic, u) h = cc (ap (λ (q : Outcome Refusal Connection × State S). q.0) h)

  -- A request that closes its connection does not succeed.
  pub close_after-never_ok :
      (close : Connection → M S Error (Unit {0})) (conn : Connection) (e : Error) (u : State S)
      → close_after close conn e u ≡ (ok c, t)
      → ⊥
  close_after-never_ok close conn e u h = closed_never_ok e (close conn u) h

  pub refuse-never_ok : (e : Error) (u : State S) → refuse e u ≡ (ok c, t) → ⊥
  refuse-never_ok e u h = cc (ap (λ (q : Outcome Refusal Connection × State S). q.0) h)

-- Request of an element that does its own work on the connection that the rest of the chain returned,
-- and closes the connection when that work fails.
abbrev pub request_then :
    {S : Type 0}
    → (Connection → M S Error (Unit {0}))
    → (Connection → M S Error (Unit {0}))
    → Next S
    → Request
    → M S Refusal Connection
request_then work close next r =
    try (next.request r) (λ conn. try (work conn) (λ _. pure conn) (close_after close conn))
      (λ refusal. refuse refusal.error)

-- XxxMech.ToMechanism(m), which is nil for no mechanism and one of another type
abbrev pub to_mechanism : (Mechanism → Bool) → Option Mechanism → Option Mechanism
to_mechanism is_mechanism none = none
to_mechanism is_mechanism (some m) = if is_mechanism m then some m else none

abbrev pub mechanism_of : Option Connection → Option Mechanism
mechanism_of none = none
mechanism_of (some c) = c.mechanism

module _ {S : Type 0} (work close : Connection → M S Error (Unit {0})) (next : Next S)
    (r : Request) where
  -- What a successful Request ran
  pub request_then-eq-ok :
      (s t : State S) (c' : Connection)
      → request_then work close next r s ≡ (ok c', t)
      → (c : Connection) × (u : State S) × (next.request r s ≡ (ok c, u))
        × (work c u ≡ (ok tt, t))
        × (c ≡ c')
  request_then-eq-ok s t c' h =
      let run = λ (c : Connection). try (work c) (λ _. pure c) (close_after close c) in
      let (c, u, asked, ran) =
        try-eq-ok run (λ x. refuse x.error) (next.request r) s (λ x w. refuse-never_ok x.error w)
          h in
      let (a, w, worked, done) =
        try-eq-ok (λ _. pure c) (close_after close c) (work c) u
          (λ e x. close_after-never_ok close c e x) ran in
      let (returned, same) = pure-eq-ok {E = Refusal} c c' w t done in
      (c, u, asked, worked ∙ ap (λ (x : State S). pure {S = S} {E = Error} tt x) same, returned)

  -- Request when the rest of the chain granted and the work was done
  pub request_then_ok :
      (s u t : State S) (c : Connection)
      → next.request r s ≡ (ok c, u)
      → work c u ≡ (ok tt, t)
      → request_then work close next r s ≡ (ok c, t)
  request_then_ok s u t c asked worked = simp asked (simp worked refl)

  -- What a successful Request did, when the rest of the chain granted and changed nothing
  pub request_then-passed :
      (s t : State S) (c c' : Connection)
      → next.request r s ≡ (ok c, s)
      → request_then work close next r s ≡ (ok c', t)
      → (c ≡ c') × (work c s ≡ (ok tt, t))
  request_then-passed s t c c' passes h =
      let (d, u, asked, worked, same) = request_then-eq-ok s t c' h in
      let (it, there) = pure-eq-ok {E = Refusal} c d s u (sym passes ∙ asked) in
      (it ∙ same, ap₂ work it there ∙ worked)
