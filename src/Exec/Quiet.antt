-- ===== src/Exec/Quiet.antt =====
-- Actions that only send messages: they leave the element's state and the metadata as they are.
use sdk_vpp.Prelude.{
  ℕ, ◌≡◌, refl, String, Option, none, some, List, ◌∷◌, Bool, true, false, if◌then◌else◌,
}
use sdk_vpp.Vpp.{Vpp, Error, Call}
use sdk_vpp.Exec.{
  State, M, Outcome, ok, err, panic, ◌>>=◌, pure, throw, crash, handle, wrapping, send, replied,
  dump, dumped, send_, >>=-keeps,
}

-- The two states differ at most in the messages sent.
pub record Alike {S : Type 0} (s t : State S) : Type 0 where
  pub own : t.own ≡ s.own
  pub client : t.client ≡ s.client
  pub server : t.server ≡ s.server

abbrev pub Alike_refl : {S : Type 0} (s : State S) → Alike s s
Alike_refl s = record { own = refl; client = refl; server = refl }

-- An action whose final state is alike every state that its first one is alike
pub record Quiet {S E A : Type 0} (m : M S E A) : Type 0 where
  pub keeps : (s t : State S) → Alike s t → Alike s (m t).1

module _ {S E A : Type 0} where
  pub pure-Quiet : (a : A) → Quiet {S = S} {E = E} (pure a)
  pure-Quiet a = record { keeps = λ s t h. h }

  pub throw-Quiet : (e : E) → Quiet {S = S} {A = A} (throw e)
  throw-Quiet e = record { keeps = λ s t h. h }

  pub crash-Quiet : Quiet {S = S} {E = E} {A = A} crash
  crash-Quiet = record { keeps = λ s t h. h }

  pub if-Quiet : (b : Bool) (m n : M S E A) → Quiet m → Quiet n → Quiet (if b then m else n)
  if-Quiet true m n hm hn = hm
  if-Quiet false m n hm hn = hn

module _ {S E A B : Type 0} where
  pub >>=-Quiet :
      (m : M S E A) (f : A → M S E B) → Quiet m → ((a : A) → Quiet (f a)) → Quiet (m >>= f)
  >>=-Quiet m f first next = record {
    keeps = λ s t h. >>=-keeps (Alike s) f m t (first.keeps s t h) (λ a u. (next a).keeps s u);
  }

module _ {S A : Type 0} where
  wrapped-Alike :
      (text : String) (s : State S) (p : Outcome Error A × State S)
      → Alike s p.1
      → Alike s (handle p (λ a. pure a) (λ e. throw {A = A} (Error.wrap text e))).1
  wrapped-Alike text s (ok a, u) h = h
  wrapped-Alike text s (err e, u) h = h
  wrapped-Alike text s (panic, u) h = h

  pub wrapping-Quiet : (text : String) (m : M S Error A) → Quiet m → Quiet (wrapping text m)
  wrapping-Quiet text m quiet = record {
    keeps = λ s t h. wrapped-Alike text s (m t) (quiet.keeps s t h);
  }

  dumped-Alike : (o : Option Error) (a : A) (s t : State S) → Alike s t → Alike s (dumped o a t).1
  dumped-Alike none a s t h = h
  dumped-Alike (some e) a s t h = h

  pub dump-Quiet :
      (v : Vpp) (reply : List Call → Call → A) (c : Call) → Quiet (dump {S = S} v reply c)
  dump-Quiet v reply c = record {
    keeps = λ s t h.
        dumped-Alike (v.fails t.calls c) (reply t.calls c) s (record t { calls = c ∷ t.calls })
          (record { own = h.own; client = h.client; server = h.server });
  }

module _ {S : Type 0} where
  replied-Alike : (o : Option Error) (i : ℕ) (s t : State S) → Alike s t → Alike s (replied o i t).1
  replied-Alike none i s t h = h
  replied-Alike (some e) i s t h = h

  pub send-Quiet : (v : Vpp) (c : Call) → Quiet (send {S = S} v c)
  send-Quiet v c = record {
    keeps = λ s t h.
        replied-Alike (v.fails t.calls c) (v.index t.calls c) s (record t { calls = c ∷ t.calls })
          (record { own = h.own; client = h.client; server = h.server });
  }

  pub send_-Quiet : (v : Vpp) (c : Call) → Quiet (send_ {S = S} v c)
  send_-Quiet v c = >>=-Quiet (send v c) (λ _. pure tt) (send-Quiet v c) (λ a. pure-Quiet tt)

pub ruleset quiet = (
  >>=-Quiet, pure-Quiet, throw-Quiet, crash-Quiet, if-Quiet, wrapping-Quiet, send-Quiet,
  send_-Quiet, dump-Quiet,
)
