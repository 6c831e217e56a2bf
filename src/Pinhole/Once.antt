-- ===== src/Pinhole/Once.antt =====
-- A port is opened once: a refreshed request sends nothing.
use sdk_vpp.Prelude.{
  ◌≡◌, refl, ap, sym, ◌∙◌, Bool, Option, none, some, [], ◌∷◌, arith, if◌then◌else◌,
}
use mathlib.Core.Path.{ap₂}
use sdk_vpp.Prelude.Assoc.{lookup, insert, lookup-insert, lookup-insert_self}
use sdk_vpp.Types.{UnionApi}
use sdk_vpp.Vpp.{Vpp, Error}
use sdk_vpp.Exec.{State, Outcome, ok, side, pure, >>=-eq-ok, try-eq-ok}
use sdk_vpp.Exec.Quiet.{Alike, Alike_refl}
use sdk_vpp.Chain.{Connection, Request, Refusal, Next, close_after-never_ok}
use sdk_vpp.Metadata.{Metadata, IpPort}
use sdk_vpp.Metadata.Pinhole
use sdk_vpp.Pinhole.{create}
use sdk_vpp.Pinhole.Quiet.{create-Quiet}
use sdk_vpp.Pinhole.Element.{
  Library, IpPortMap, ip_port_eq, from_mechanism, open_absent, open_key, open_keys, request, tag_of,
}

-- The map holds the key, if there is one.
abbrev pub IsOpen : Option IpPort → IpPortMap → Type 0
IsOpen none opened = Unit {0}
IsOpen (some key) opened = lookup key opened ≡ some tt

IsOpen-insert :
    (k : IpPort) (o : Option IpPort) (m : IpPortMap) → IsOpen o m → IsOpen o (insert k tt m)
IsOpen-insert k none m h = tt
IsOpen-insert k (some key) m h = ground (arith, lookup-insert k key tt m)

-- What a round of the loop leaves: the key is open, every open key stays open, the metadata stay.
record Opened (key : Option IpPort) (s t : State IpPortMap) : Type 0 where
  open_now : IsOpen key t.own
  kept : (o : Option IpPort) → IsOpen o s.own → IsOpen o t.own
  client : t.client ≡ s.client
  server : t.server ≡ s.server

module _ (v : Vpp) (api : UnionApi) (lib : Library) (next : Next IpPortMap) where
  open_absent-Opened :
      (key : IpPort) (o : Option (Unit {0})) (s t : State IpPortMap)
      → lookup key s.own ≡ o
      → open_absent v api lib next key o s ≡ (ok tt, t)
      → Opened (some key) s t
  unfolding open_absent
  open_absent-Opened key (some u) s t h e =
      let same : s ≡ t = ap (λ (q : Outcome Error (Unit {0}) × State IpPortMap). q.1) e in
      simp (← same) (record { open_now = h; kept = λ o k. k; client = refl; server = refl })
  open_absent-Opened key none s t h e =
      let run = create v api (lib.parse_ip key.ip) key.port (tag_of lib key) in
      let (_, u, created, stored) = >>=-eq-ok _ run s e in
      let left = ap (λ (q : Outcome Error (Unit {0}) × State IpPortMap). q.1) created in
      let quiet =
        (create-Quiet v api (lib.parse_ip key.ip) key.port (tag_of lib key)).keeps s s
          (Alike_refl s) in
      let alike : Alike s u = simp (← left) quiet in
      let final : record u { own = insert key tt u.own } ≡ t =
        ap (λ (q : Outcome Error (Unit {0}) × State IpPortMap). q.1) stored in
      simp (← final) (record {
        open_now = lookup-insert_self key tt u.own;
        kept = λ o k. IsOpen-insert key o u.own (simp (alike.own) k);
        client = alike.client;
        server = alike.server;
      })

  open_key-Opened :
      (key : Option IpPort) (s t : State IpPortMap)
      → open_key v api lib next key s ≡ (ok tt, t)
      → Opened key s t
  unfolding open_key
  open_key-Opened none s t e =
      let same : s ≡ t = ap (λ (q : Outcome Error (Unit {0}) × State IpPortMap). q.1) e in
      simp (← same) (record { open_now = tt; kept = λ o k. k; client = refl; server = refl })
  open_key-Opened (some key) s t e = open_absent-Opened key (lookup key s.own) s t refl e

  open_key_again :
      (key : Option IpPort) (t : State IpPortMap)
      → IsOpen key t.own
      → open_key v api lib next key t ≡ (ok tt, t)
  unfolding open_key open_absent
  open_key_again none t h = refl
  open_key_again (some key) t h = rw (h, open_absent) refl

  -- Both ports of a connection
  module _ (c c' : Connection) (a b : Option IpPort) where
    open_keys-Opened :
        (s t : State IpPortMap)
        → open_keys v api lib next c (a ∷ b ∷ []) s ≡ (ok c', t)
        → (c ≡ c') × IsOpen a t.own × IsOpen b t.own × (t.client ≡ s.client) × (t.server ≡ s.server)
    unfolding open_keys
    open_keys-Opened s t e =
        let (_, u, first, rest) =
          try-eq-ok (λ _. open_keys v api lib next c (b ∷ [])) _ (open_key v api lib next a) s
            (λ x w. close_after-never_ok next.close c x w) e in
        let (_, w, second, done) =
          try-eq-ok (λ _. open_keys v api lib next c []) _ (open_key v api lib next b) u
            (λ x y. close_after-never_ok next.close c x y) rest in
        let one = open_key-Opened a s u first in
        let two = open_key-Opened b u w second in
        let final : w ≡ t = ap (λ (q : Outcome Refusal Connection × State IpPortMap). q.1) done in
        simp (← final) (
          ground arith,
          two.kept a one.open_now,
          two.open_now,
          two.client ∙ one.client,
          two.server ∙ one.server,
        )

    open_keys_again :
        (t : State IpPortMap)
        → IsOpen a t.own
        → IsOpen b t.own
        → open_keys v api lib next c (a ∷ b ∷ []) t ≡ (ok c, t)
    unfolding open_keys
    open_keys_again t ha hb = simp (open_key_again a t ha) (simp (open_key_again b t hb) refl)

  abbrev extra : Bool → State IpPortMap → Option IpPort
  extra is_client u = (side is_client u).extra

  request_granted :
      (is_client : Bool) (r : Request) (c : Connection) (u : State IpPortMap)
      → next.request r u ≡ (ok c, u)
      → request v api lib next is_client r u
        ≡ open_keys v api lib next c
            (from_mechanism lib c.mechanism is_client ∷ extra is_client u ∷ [])
            u
  unfolding request Pinhole.load_extra
  request_granted is_client r c u passes = simp passes refl

  -- When Request succeeded in a state, with the rest of the chain granting the connection and changing
  -- nothing, then Request of the refreshed connection in the state that is left succeeds, sends
  -- nothing to VPP and changes nothing: every port of the connection is opened once.
  pub request_again :
      (is_client : Bool) (r : Request) (c c' : Connection) (s t : State IpPortMap)
      → ((u : State IpPortMap) → next.request r u ≡ (ok c, u))
      → request v api lib next is_client r s ≡ (ok c', t)
      → request v api lib next is_client r t ≡ (ok c', t)
  request_again is_client r c c' s t passes e =
      let key = from_mechanism lib c.mechanism is_client in
      let run = sym (request_granted is_client r c s (passes s)) ∙ e in
      let (same, a, b, client, server) = open_keys-Opened c c' key (extra is_client s) s t run in
      let extra' : extra is_client t ≡ extra is_client s =
        ap₂ (λ (m n : Metadata). (if is_client then m else n).extra) client server in
      request_granted is_client r c t (passes t)
      ∙ ap (λ (o : Option IpPort). open_keys v api lib next c (key ∷ o ∷ []) t) extra'
      ∙ open_keys_again c c' key (extra is_client s) t a b
      ∙ ap (λ (x : Connection). pure {S = IpPortMap} {E = Refusal} x t) same
