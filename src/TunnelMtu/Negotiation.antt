-- ===== src/TunnelMtu/Negotiation.antt =====
-- What the two sides agree on: the smallest MTU that is set.
use sdk_vpp.Prelude.{
  ℕ, ◌<◌, ◌≤◌, ◌≡◌, refl, ap, ◌∙◌, Bool, true, false, Option, none, some, List, [], ◌∷◌, map, ◌==◌,
  if◌then◌else◌, arith, Bool-cases, inl, inr,
}
use Prim.Native.Nat.{min}
use sdk_vpp.Chain.{Connection, Mechanism, Request, Next, refuse}
use sdk_vpp.Types.{Ip, UnionApi}
use sdk_vpp.Vpp.{Vpp}
use sdk_vpp.Exec.{State, try, pure}
use sdk_vpp.TunnelMtu.{
  MtuMechanism, MtuState, init, init_from, agree_request, view, server_request, client_request,
  lower_connection, lower_some, lower, lower_request, agree, follow, context_mtu,
}

-- An MTU that is not set is 0.
abbrev pub clamp : ℕ → ℕ → ℕ
clamp limit n = if n == 0 then limit else min limit n

-- Every mechanism of the kind in a list has an MTU that is set and within the limit.
abbrev pub AllWithin : MtuMechanism → ℕ → List Mechanism → Type 0
AllWithin k limit [] = Unit {0}
AllWithin k limit (m ∷ ms) =
    (k.is_mechanism m ≡ true → (0 < k.mtu m) × (k.mtu m ≤ limit)) × AllWithin k limit ms

module _ (k : MtuMechanism) (limit : ℕ) (fits : limit < 4294967296) where
  lower_lem :
      (m : Mechanism)
      → k.is_mechanism m ≡ true
      → (k.mtu (lower k limit m) ≡ clamp limit (k.mtu m))
        × (k.is_mechanism (lower k limit m) ≡ true)
  unfolding lower
  lower_lem m is = ground (arith, k.mtu-set_mtu limit m, k.is_mechanism-set_mtu limit m)

  lower_other : (m : Mechanism) → k.is_mechanism m ≡ false → lower k limit m ≡ m
  unfolding lower
  lower_other m other = ground arith

  follow_lem :
      (n : ℕ) (c : Connection) → context_mtu (follow n c).context ≡ clamp n (context_mtu c.context)
  unfolding follow
  follow_lem n c = ground arith

  follow_mechanism : (n : ℕ) (c : Connection) → (follow n c).mechanism ≡ c.mechanism
  unfolding follow
  follow_mechanism n c = ground arith

  agree_lem :
      (m : Mechanism) (c : Connection)
      → k.is_mechanism m ≡ true
      → (m' : Mechanism) × ((agree k limit m c).mechanism ≡ some m')
        × (k.is_mechanism m' ≡ true)
        × (k.mtu m' ≡ clamp limit (k.mtu m))
        × (context_mtu (agree k limit m c).context
            ≡ clamp (clamp limit (k.mtu m)) (context_mtu c.context))
  unfolding agree
  agree_lem m c is =
      let n = k.mtu (lower k limit m) in
      let c' = record c { mechanism = some (lower k limit m) } in
      (
        lower k limit m,
        follow_mechanism n c',
        (lower_lem m is).1,
        (lower_lem m is).0,
        rw (← (lower_lem m is).0) (follow_lem n c'),
      )

  lower_within :
      0 < limit
      → (m : Mechanism) → k.is_mechanism (lower k limit m) ≡ true
      → (0 < k.mtu (lower k limit m)) × (k.mtu (lower k limit m) ≤ limit)
  lower_within pos m is = elim (Bool-cases (k.is_mechanism m)) [
    | inl yes' ↦ rw ((lower_lem m yes').0) (ground arith)
    | inr no' ↦ cc (lower_other m no')
  ]

  map_within : 0 < limit → (ms : List Mechanism) → AllWithin k limit (map (lower k limit) ms)
  map_within pos [] = tt
  map_within pos (m ∷ ms) = (λ is. lower_within pos m is, map_within pos ms)

  connection_within :
      0 < limit
      → (o : Option Connection) (c : Connection) (m : Mechanism)
      → lower_connection k limit o ≡ some c
      → c.mechanism ≡ some m
      → AllWithin k limit (m ∷ [])
  connection_within pos none c m e h = cc
  connection_within pos (some o) c m e h =
      below o.mechanism
        (ap (λ (x : Option Connection). elim x [ none ↦ none | some y ↦ y.mechanism ]) e ∙ h)
    where
      below : (x : Option Mechanism) → lower_some k limit x ≡ some m → AllWithin k limit (m ∷ [])
      below none h' = cc
      below (some x) h' =
          let same : lower k limit x ≡ m = ground arith in
          (λ is. rw (← same) (lower_within pos x (simp same is)), tt)

-- The requests that the two chain elements pass on, once the MTU of the tunnel is known
module _ (api : UnionApi) (overhead : Bool → ℕ) (v : Vpp) (tunnel_ip : Ip) (k : MtuMechanism)
    (next : Next MtuState) (limit : ℕ) (fits : limit < 4294967296) (s : State MtuState)
    (known : s.own ≡ record { mtu = limit; inited = true }) where
  -- With a known MTU, the server passes a connection of the mechanism on with the mechanism's MTU at
  -- the smaller of its own and the tunnel's (a 0 is no MTU), still of that kind, and with the context's
  -- MTU at the smaller of that and its own; nothing else happens before the next element runs.
  pub server_request-agrees :
      (r : Request) (c : Connection) (m : Mechanism)
      → r.connection ≡ some c
      → c.mechanism ≡ some m
      → k.is_mechanism m ≡ true
      → (c' : Connection) × (m' : Mechanism) × (server_request api overhead v tunnel_ip k next r s
          ≡ next.request (record r { connection = some c' }) s)
        × (c'.mechanism ≡ some m')
        × (k.is_mechanism m' ≡ true)
        × (k.mtu m' ≡ clamp limit (k.mtu m))
        × (context_mtu c'.context ≡ clamp (clamp limit (k.mtu m)) (context_mtu c.context))
  unfolding server_request init init_from agree_request view
  server_request-agrees r c m hc hm is =
      let (m', at, is', mtu', ctx) = agree_lem k limit fits m c is in
      (
        agree k limit m c,
        m',
        simp known (simp hc (simp hm (simp is (simp known refl)))),
        at,
        is',
        mtu',
        ctx,
      )

  -- With a known MTU that is not 0, the client passes on a request in which every preferred mechanism
  -- of the kind, and that of the connection, has an MTU between 1 and the tunnel's; the outcome is
  -- that of the next element, with nil for the connection on an error.
  pub client_request-lowers :
      (r : Request)
      → 0 < limit
      → (r' : Request) × (client_request api overhead v tunnel_ip k next r s
          ≡ try (next.request r') (λ conn. pure conn) (λ refusal. refuse refusal.error) s)
        × AllWithin k limit r'.mechanism_preferences
        × ((c : Connection) (m : Mechanism)
            → r'.connection ≡ some c
            → c.mechanism ≡ some m
            → AllWithin k limit (m ∷ []))
  unfolding client_request init init_from lower_request
  client_request-lowers r pos = (
    lower_request k limit r,
    simp known refl,
    map_within k limit fits pos r.mechanism_preferences,
    connection_within k limit fits pos r.connection,
  )
