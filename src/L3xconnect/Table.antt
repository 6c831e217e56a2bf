-- ===== src/L3xconnect/Table.antt =====
-- What VPP holds after create and after del, as the table that its messages describe.
use sdk_vpp.Prelude.{
  ℕ, ◌≡◌, ◌≢◌, refl, Bool, true, false, ◌&&◌, not, Option, none, some, List, [], ◌∷◌, if◌then◌else◌,
  arith, ◌==◌,
}
use sdk_vpp.Vpp.{Vpp, Call, L3xcUpdate, l3xc_update, l3xc_del}
use sdk_vpp.Exec.{State, ok}
use sdk_vpp.Chain.{Connection}
use sdk_vpp.L3xconnect.{
  create, create_on, send_updates, l3xc_updates, l3xc_update_of, del, del_on, src_nets, dst_nets,
}

abbrev pub same : Bool → Bool → Bool
same true b = b
same false b = not b

abbrev pub after_call : Call → ℕ → Bool → Option L3xcUpdate → Option L3xcUpdate
after_call c i six held = elim c [
  | l3xc_update u ↦ if (u.sw_if_index == i) && same u.is_ip6 six then some u else held
  | l3xc_del j six' ↦ if (j == i) && same six' six then none else held
  | c' ↦ held
]

-- The cross connect of an interface and an IP version, by the messages sent, newest first
abbrev pub held : List Call → ℕ → Bool → Option L3xcUpdate
held [] i six = none
held (c ∷ calls) i six = after_call c i six (held calls i six)

module _ {S : Type 0} (v : Vpp) (conn : Connection) (client server : ℕ) (s : State S)
    (client_known : s.client.if_index ≡ some client)
    (server_known : s.server.if_index ≡ some server) (differ : client ≢ server)
    (accepts : (h : List Call) (c : Call) → v.fails h c ≡ none) where
  -- The messages of create, newest first
  abbrev updated : List Call
  updated =
      l3xc_update (l3xc_update_of server client (dst_nets conn.context) true)
      ∷ l3xc_update (l3xc_update_of server client (dst_nets conn.context) false)
      ∷ l3xc_update (l3xc_update_of client server (src_nets conn.context) true)
      ∷ l3xc_update (l3xc_update_of client server (src_nets conn.context) false)
      ∷ s.calls

  create_sends : create v conn s ≡ (ok tt, record s { calls = updated })
  unfolding create create_on send_updates l3xc_updates
  create_sends = simp client_known (simp server_known (simp accepts refl))

  del_sends :
      (calls : List Call)
      → del v (record s { calls = calls }) ≡ (
        ok tt,
        record s {
          calls =
              l3xc_del server false
              ∷ l3xc_del server true
              ∷ l3xc_del client false
              ∷ l3xc_del client true
              ∷ calls;
        },
      )
  unfolding del del_on
  del_sends calls = simp client_known (simp server_known (simp accepts refl))

  -- For two different interfaces and a VPP that accepts everything: after create, VPP holds for each of
  -- the two interfaces and each IP version the update of that direction, and what it held before for
  -- any other interface; after del in the state that create left, it holds nothing for the two, and
  -- still what it held before for any other.
  pub create-del_table :
      let t = (create v conn s).1 in
      let u = (del v t).1 in
      ((create v conn s).0 ≡ ok tt)
      × ((six : Bool)
          → held t.calls client six
            ≡ some (l3xc_update_of client server (src_nets conn.context) six))
      × ((six : Bool)
          → held t.calls server six
            ≡ some (l3xc_update_of server client (dst_nets conn.context) six))
      × ((del v t).0 ≡ ok tt)
      × ((six : Bool) → held u.calls client six ≡ none)
      × ((six : Bool) → held u.calls server six ≡ none)
      × ((i : ℕ) (six : Bool)
          → client ≢ i
          → server ≢ i
          → (held t.calls i six ≡ held s.calls i six) × (held u.calls i six ≡ held s.calls i six))
  unfolding l3xc_update_of
  create-del_table = rw create_sends (
      rw (del_sends updated) (
        refl,
        λ six. elim six [ true ↦ ground arith | false ↦ ground arith ],
        λ six. elim six [ true ↦ ground arith | false ↦ ground arith ],
        refl,
        λ six. elim six [ true ↦ ground arith | false ↦ ground arith ],
        λ six. elim six [ true ↦ ground arith | false ↦ ground arith ],
        λ i six ci si. (ground arith, ground arith),
      ))
