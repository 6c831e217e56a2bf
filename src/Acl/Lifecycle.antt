-- ===== src/Acl/Lifecycle.antt =====
-- The lists of a connection from its request to its close.
use sdk_vpp.Prelude.{ℕ, ◌≡◌, refl, String, true, false, none, some, List, [], ◌∷◌}
use Prim.Native.String.{◌++◌ as ◌+++◌}
use sdk_vpp.Prelude.Keys.{string_eq}
use sdk_vpp.Prelude.Assoc.{lookup, insert, erase, lookup-insert_self, lookup-erase_self}
use sdk_vpp.Vpp.{Vpp, Error, Call, AclRule, acl_add_replace, acl_del, acl_interface_set_acl_list}
use sdk_vpp.Exec.{State, ok, err}
use sdk_vpp.Chain.{Connection, Request, Next}
use sdk_vpp.Acl.{
  AclIndices, acl_add, add_acl_to_acl_list, create, create_on, del_from, close, acl_tag, request,
}

-- The tag of the lists of a connection
abbrev pub tag_of : Connection → String
tag_of c = acl_tag +++ "-" +++ c.id

abbrev pub ingress : Connection → List AclRule → Call
ingress c rules = acl_add_replace (acl_add (tag_of c) false rules)

abbrev pub egress : Connection → List AclRule → Call
egress c rules = acl_add_replace (acl_add (tag_of c) true rules)

-- The index that VPP returns for each list
abbrev pub ingress_index : Vpp → List Call → Connection → List AclRule → ℕ
ingress_index v h c rules = v.index h (ingress c rules)

abbrev pub egress_index : Vpp → List Call → Connection → List AclRule → ℕ
egress_index v h c rules = v.index (ingress c rules ∷ h) (egress c rules)

-- The two indices, and the calls that add the lists and set them on interface `i`, newest first
abbrev pub both : Vpp → List Call → Connection → List AclRule → List ℕ
both v h c rules = ingress_index v h c rules ∷ egress_index v h c rules ∷ []

abbrev pub adding : Vpp → List Call → Connection → List AclRule → ℕ → List Call
adding v h c rules i =
    acl_interface_set_acl_list
      (record { sw_if_index = i; count = 2; n_input = 1; acls = both v h c rules })
    ∷ egress c rules
    ∷ ingress c rules
    ∷ h

module _ (v : Vpp) (next : Next AclIndices) (rule : AclRule) (rules : List AclRule) (r : Request)
    (c : Connection) (i : ℕ) (s : State AclIndices)
    (passes : (t : State AclIndices) → next.request r t ≡ (ok c, t))
    (closes : (t : State AclIndices) → next.close c t ≡ (ok tt, t))
    (interface : s.server.if_index ≡ some i) (new_id : lookup c.id s.own ≡ none) where
  module _ (accepts : (h : List Call) (call : Call) → v.fails h call ≡ none) where
    request_adds : request v (rule ∷ rules) next r s ≡ (
      ok c,
      record s {
        calls = adding v s.calls c (rule ∷ rules) i;
        own = insert c.id (both v s.calls c (rule ∷ rules)) s.own;
      },
    )
    unfolding request create create_on add_acl_to_acl_list
    request_adds = simp passes (simp new_id (simp interface (simp accepts refl)))

    -- When VPP accepts everything, and there is at least one rule, Request of a new connection adds the
    -- two lists, sets both on the interface and keeps their indices; a second Request of it sends
    -- nothing and changes nothing; and Close then forgets them but tells VPP to delete the lists 0 and
    -- 1, whatever the indices are.
    pub acl_life :
        let t = (request v (rule ∷ rules) next r s).1 in
        (request v (rule ∷ rules) next r s ≡ (
          ok c,
          record s {
            calls = adding v s.calls c (rule ∷ rules) i;
            own = insert c.id (both v s.calls c (rule ∷ rules)) s.own;
          },
        ))
        × (request v (rule ∷ rules) next r t ≡ (ok c, t))
        × ((close v next c t).0 ≡ ok tt)
        × ((close v next c t).1.calls ≡ acl_del 1 ∷ acl_del 0 ∷ adding v s.calls c (rule ∷ rules) i)
        × (lookup c.id (close v next c t).1.own ≡ none)
    unfolding request close del_from
    acl_life = rw request_adds (
      refl,
      simp passes (simp (lookup-insert_self c.id (both v s.calls c (rule ∷ rules)) s.own) refl),
      simp (lookup-insert_self c.id (both v s.calls c (rule ∷ rules)) s.own)
          (simp accepts (simp closes refl)),
      simp (lookup-insert_self c.id (both v s.calls c (rule ∷ rules)) s.own)
          (simp accepts (simp closes refl)),
      simp (lookup-insert_self c.id (both v s.calls c (rule ∷ rules)) s.own) (
          simp accepts (
            simp closes
              (lookup-erase_self c.id (insert c.id (both v s.calls c (rule ∷ rules)) s.own)))),
    )

  -- When VPP adds the ingress list and refuses the egress one, Request of a new connection returns that
  -- error and keeps no index, the close that it runs deletes nothing, and the ingress list stays.
  pub failed_egress-leaks :
      (e : Error)
      → v.fails s.calls (ingress c (rule ∷ rules)) ≡ none
      → v.fails (ingress c (rule ∷ rules) ∷ s.calls) (egress c (rule ∷ rules)) ≡ some e
      → request v (rule ∷ rules) next r s ≡ (
        err (record { conn = none; error = Error.wrap "vppapi ACLAddReplace returned error" e }),
        record s {
          calls = egress c (rule ∷ rules) ∷ ingress c (rule ∷ rules) ∷ s.calls;
          own = erase c.id s.own;
        },
      )
  unfolding request create create_on add_acl_to_acl_list close del_from
  failed_egress-leaks e first_ok second_err = simp passes (
      simp new_id
        (simp interface (simp first_ok (simp second_err (simp new_id (simp closes refl))))))
