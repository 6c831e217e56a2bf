-- ===== src/Exec.antt =====
-- Go functions that change state, call VPP, and may fail or panic.
--
-- A function with an error result is an action of `M S E`: `S` is the state that its chain element
-- owns, and what was changed before an error stays changed. The calls that VPP received are kept in
-- the state, newest first. The metadata are those of the connection that the context names.
pub mod Quiet
use sdk_vpp.Prelude.{
  Bool, List, ◌∷◌, ℕ, String, Option, none, some, if◌then◌else◌, ◌≡◌, refl, ap, sym, arith,
  Option-cases, inl, inr,
}
use sdk_vpp.Vpp.{Error, Call, Vpp}
use sdk_vpp.Metadata.{Metadata}

-- `panic` is a nil pointer that is followed.
pub data Outcome {ℓ κ} (E : Type ℓ) (A : Type κ) : Type (ℓ ⊔ κ) where
  ok : A → Outcome E A
  err : E → Outcome E A
  panic : Outcome E A

pub record State (S : Type 0) : Type 0 where
  pub calls : List Call
  pub client : Metadata
  pub server : Metadata
  pub own : S

abbrev pub M : Type 0 → Type 0 → Type 0 → Type 0
M S E A = State S → Outcome E A × State S

abbrev pub continue :
    {S E A B : Type 0} → Outcome E A × State S → (A → M S E B) → Outcome E B × State S
continue (ok a, s) f = f a s
continue (err e, s) f = (err e, s)
continue (panic, s) f = (panic, s)

infixl 5 ◌>>=◌ ◌>>◌
abbrev pub ◌>>=◌ : {S E A B : Type 0} → M S E A → (A → M S E B) → M S E B
◌>>=◌ m f s = continue (m s) f

abbrev pub ◌>>◌ : {S E B : Type 0} → M S E (Unit {0}) → M S E B → M S E B
m >> k = m >>= λ _. k

abbrev pub pure : {S E A : Type 0} → A → M S E A
pure a s = (ok a, s)

abbrev pub throw : {S E A : Type 0} → E → M S E A
throw e s = (err e, s)

abbrev pub crash : {S E A : Type 0} → M S E A
crash s = (panic, s)

abbrev pub handle :
    {S E F A B : Type 0}
    → Outcome E A × State S
    → (A → M S F B)
    → (E → M S F B)
    → Outcome F B × State S
handle (ok a, s) f g = f a s
handle (err e, s) f g = g e s
handle (panic, s) f g = (panic, s)

-- `if err := m; err != nil { g } else { f }`; a panic goes on up.
abbrev pub try : {S E F A B : Type 0} → M S E A → (A → M S F B) → (E → M S F B) → M S F B
try m f g s = handle (m s) f g

abbrev pub wrapping : {S A : Type 0} → String → M S Error A → M S Error A
wrapping text m = try m (λ a. pure a) (λ e. throw (Error.wrap text e))

-- `_ = m`: an error is dropped (or only logged)
abbrev pub ignoring : {S E F A : Type 0} → M S E A → M S F (Unit {0})
ignoring m = try m (λ _. pure tt) (λ _. pure tt)

abbrev pub get_own : {S E : Type 0} → M S E S
get_own s = (ok s.own, s)

abbrev pub set_own : {S E : Type 0} → S → M S E (Unit {0})
set_own o s = (ok tt, record s { own = o })

abbrev pub side : {S : Type 0} → Bool → State S → Metadata
side is_client s = if is_client then s.client else s.server

abbrev pub set_side : {S : Type 0} → Bool → Metadata → State S → State S
set_side is_client m s = if is_client then record s { client = m } else record s { server = m }

abbrev pub replied : {S : Type 0} → Option Error → ℕ → State S → Outcome Error ℕ × State S
replied none i s = (ok i, s)
replied (some e) i s = (err e, s)

-- One request to VPP: it is recorded, and answered by an error or by the index in the reply.
abbrev pub send : {S : Type 0} → Vpp → Call → M S Error ℕ
send v c s = replied (v.fails s.calls c) (v.index s.calls c) (record s { calls = c ∷ s.calls })

abbrev pub send_ : {S : Type 0} → Vpp → Call → M S Error (Unit {0})
send_ v c = send v c >>= λ _. pure tt

abbrev pub dumped : {S A : Type 0} → Option Error → A → State S → Outcome Error A × State S
dumped none a s = (ok a, s)
dumped (some e) a s = (err e, s)

-- A message that is answered by a stream, read off the history
abbrev pub dump : {S A : Type 0} → Vpp → (List Call → Call → A) → Call → M S Error A
dump v reply c s = dumped (v.fails s.calls c) (reply s.calls c) (record s { calls = c ∷ s.calls })

module _ {S E A B : Type 0} (f : A → M S E B) where
  continue-eq-ok :
      (p : Outcome E A × State S) {b : B} {t : State S}
      → continue p f ≡ (ok b, t)
      → (a : A) × (u : State S) × (p ≡ (ok a, u)) × (f a u ≡ (ok b, t))
  continue-eq-ok (ok a, u) h = (a, u, refl, h)
  continue-eq-ok (err e, u) h = cc (ap (λ (q : Outcome E B × State S). q.0) h)
  continue-eq-ok (panic, u) h = cc (ap (λ (q : Outcome E B × State S). q.0) h)

  -- A successful `do` block, step by step.
  pub >>=-eq-ok :
      (m : M S E A) (s : State S) {b : B} {t : State S}
      → (m >>= f) s ≡ (ok b, t)
      → (a : A) × (u : State S) × (m s ≡ (ok a, u)) × (f a u ≡ (ok b, t))
  >>=-eq-ok m s h = continue-eq-ok (m s) h

module _ {κ} {S E A B : Type 0} (P : State S → Type κ) (f : A → M S E B) where
  continue-keeps :
      (p : Outcome E A × State S)
      → P p.1
      → ((a : A) (t : State S) → P t → P (f a t).1)
      → P (continue p f).1
  continue-keeps (ok a, u) h keeps = keeps a u h
  continue-keeps (err e, u) h keeps = h
  continue-keeps (panic, u) h keeps = h

  -- What a first action leaves true and every next one keeps
  pub >>=-keeps :
      (m : M S E A) (s : State S)
      → P (m s).1
      → ((a : A) (t : State S) → P t → P (f a t).1)
      → P ((m >>= f) s).1
  >>=-keeps m s h keeps = continue-keeps (m s) h keeps

-- What a message leaves, whatever VPP answers
pub send_-state :
    {S : Type 0} (v : Vpp) (c : Call) (s : State S)
    → (send_ v c s).1 ≡ record s { calls = c ∷ s.calls }
send_-state v c s = ground arith

module _ {S : Type 0} (text : String) (v : Vpp) (c : Call) (s t : State S) where
  -- A message that VPP answered without an error, and its reply
  pub wrapped_send-eq-ok :
      (i : ℕ)
      → wrapping text (send v c) s ≡ (ok i, t)
      → (t ≡ record s { calls = c ∷ s.calls }) × (i ≡ v.index s.calls c)
  wrapped_send-eq-ok i h = ground arith

  pub wrapped_send_-eq-ok :
      wrapping text (send_ v c) s ≡ (ok tt, t) → t ≡ record s { calls = c ∷ s.calls }
  wrapped_send_-eq-ok h = ground arith

module _ {S E A : Type 0} (F : Type 0) where
  ignoring-handled :
      (p : Outcome E A × State S) → (handle {F = F} p (λ _. pure tt) (λ _. pure tt)).1 ≡ p.1
  ignoring-handled (ok a, s) = refl
  ignoring-handled (err e, s) = refl
  ignoring-handled (panic, s) = refl

  pub ignoring-state : (m : M S E A) (s : State S) → (ignoring {F = F} m s).1 ≡ (m s).1
  ignoring-state m s = ignoring-handled (m s)

-- A function that returns, with or without an error
abbrev pub Returns : {E A : Type 0} → Outcome E A → Type 0
Returns (ok a) = Unit {0}
Returns (err e) = Unit {0}
Returns panic = ⊥

module _ {S E A : Type 0} (F : Type 0) where
  handled-ok :
      (p : Outcome E A × State S)
      → Returns p.0
      → handle {F = F} p (λ _. pure tt) (λ _. pure tt) ≡ (ok tt, p.1)
  handled-ok (ok a, s) h = refl
  handled-ok (err e, s) h = refl
  handled-ok (panic, s) h = elim h [ ]

  pub ignoring-ok :
      (m : M S E A) (s : State S) → Returns (m s).0 → ignoring {F = F} m s ≡ (ok tt, (m s).1)
  ignoring-ok m s h = handled-ok (m s) h

pub send_-Returns : {S : Type 0} (v : Vpp) (c : Call) (s : State S) → Returns (send_ v c s).0
send_-Returns v c s = elim (Option-cases (v.fails s.calls c)) [
  | inl none' ↦ rw none' tt
  | inr (e, some') ↦ rw some' tt
]

module _ {S E F A B : Type 0} (f : A → M S F B) (g : E → M S F B) {b : B} {t : State S} where
  handle-eq-ok :
      (p : Outcome E A × State S)
      → ((e : E) (u : State S) → g e u ≡ (ok b, t) → ⊥)
      → handle p f g ≡ (ok b, t)
      → (a : A) × (u : State S) × (p ≡ (ok a, u)) × (f a u ≡ (ok b, t))
  handle-eq-ok (ok a, u) never h = (a, u, refl, h)
  handle-eq-ok (err e, u) never h = absurd (never e u h)
  handle-eq-ok (panic, u) never h = cc (ap (λ (q : Outcome F B × State S). q.0) h)

  -- A `try` whose error branch never succeeds, when it succeeded
  pub try-eq-ok :
      (m : M S E A) (s : State S)
      → ((e : E) (u : State S) → g e u ≡ (ok b, t) → ⊥)
      → try m f g s ≡ (ok b, t)
      → (a : A) × (u : State S) × (m s ≡ (ok a, u)) × (f a u ≡ (ok b, t))
  try-eq-ok m s never h = handle-eq-ok (m s) never h

abbrev ok_or : {E A : Type 0} → A → Outcome E A → A
ok_or d (ok a) = a
ok_or d (err e) = d
ok_or d panic = d

-- What a function that returns without an error returned
pub pure-eq-ok :
    {S E A : Type 0} (a b : A) (s t : State S) → pure {E = E} a s ≡ (ok b, t) → (a ≡ b) × (s ≡ t)
pure-eq-ok {S} {E} {A} a b s t h =
    (ap (λ (q : Outcome E A × State S). ok_or a q.0) h, ap (λ (q : Outcome E A × State S). q.1) h)

module _ {S A : Type 0} (text : String) (v : Vpp) (reply : List Call → Call → A) (c : Call) where
  dumped-eq-ok :
      (o : Option Error) (a b : A) (s t : State S)
      → handle (dumped o a s) (λ a. pure a) (λ e. throw {A = A} (Error.wrap text e)) ≡ (ok b, t)
      → (b ≡ a) × (t ≡ s)
  dumped-eq-ok none a b s t h =
      let (same, there) = pure-eq-ok {E = Error} a b s t h in (sym same, sym there)
  dumped-eq-ok (some e) a b s t h = cc (ap (λ (q : Outcome Error A × State S). q.0) h)

  -- A stream that VPP sent
  pub wrapped_dump-eq-ok :
      (a : A) (s t : State S)
      → wrapping text (dump v reply c) s ≡ (ok a, t)
      → (a ≡ reply s.calls c) × (t ≡ record s { calls = c ∷ s.calls })
  wrapped_dump-eq-ok a s t h =
      dumped-eq-ok (v.fails s.calls c) (reply s.calls c) a (record s { calls = c ∷ s.calls }) t h
