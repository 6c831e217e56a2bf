-- ===== src/Pinhole/Lists.antt =====
-- The access lists of the interface after a port was opened.
use sdk_vpp.Prelude.{
  ℕ, ◌+◌, ◌%◌, ◌≤◌, ◌<◌, ◌≡◌, refl, ap, sym, ◌∙◌, String, Bool, true, false, none, List, [], ◌∷◌,
  ◌++◌, map, suc, ltb, not, ◌&&◌, length, length-append, length-map, ◌==◌, if◌then◌else◌, arith,
}
use sdk_vpp.Prelude.Keys.{string_eq, ◌=?◌}
use sdk_vpp.Types.{Ip}
use sdk_vpp.Vpp.{Vpp, Call, AclDetails, acl_add_replace, acl_interface_set_acl_list}
use sdk_vpp.Exec.{State, ok, ◌>>=◌}
use sdk_vpp.Pinhole.{
  create_acl_add_replace, has_tag, is_needed, indices_of, add_if, add_to_acl_list_if_needed,
  set_if_grown, open_on,
}

-- The lists of an interface, newest message first: how many of them are for the ingress, and all
abbrev pub lists_after : Call → ℕ → ℕ × List ℕ → ℕ × List ℕ
lists_after c i held = elim c [
  | acl_interface_set_acl_list l ↦ if l.sw_if_index == i then (l.n_input, l.acls) else held
  | c' ↦ held
]

abbrev pub held_lists : List Call → ℕ → ℕ × List ℕ → ℕ × List ℕ
held_lists [] i first = first
held_lists (c ∷ calls) i first = lists_after c i (held_lists calls i first)

abbrev pub set_call : ℕ → List ℕ → List ℕ → Call
set_call i ingress egress = acl_interface_set_acl_list (record {
  sw_if_index = i;
  count = length (ingress ++ egress) % 256;
  n_input = length ingress % 256;
  acls = ingress ++ egress;
})

module _ {S : Type 0} (v : Vpp) (i before : ℕ) (ingress egress : List ℕ) (s : State S) where
  set_same :
      length (ingress ++ egress) ≡ before → set_if_grown v i before ingress egress s ≡ (ok tt, s)
  unfolding set_if_grown
  set_same h = ground (arith, h)

  set_grown :
      before < length (ingress ++ egress)
      → length (ingress ++ egress) < 256
      → v.fails s.calls (set_call i ingress egress) ≡ none
      → set_if_grown v i before ingress egress s
        ≡ (ok tt, record s { calls = set_call i ingress egress ∷ s.calls })
  unfolding set_if_grown
  set_grown more small h =
      let differ : (length (ingress ++ egress) % 256 == before % 256) ≡ false = ground arith in
      simp differ (simp h refl)

-- The indices of access lists, and how many of the lists have a tag
abbrev pub numbers : List AclDetails → List ℕ
numbers ds = map (λ d. d.acl_index) ds

unfoldable tagged : String → List AclDetails → ℕ
tagged tag [] = 0
tagged tag (d ∷ ds) = let rest = tagged tag ds in if d.tag =? tag then suc rest else rest

-- There are access lists, and none of them has the tag.
unfoldable pub lacks_tag : String → List AclDetails → Bool
unfolding tagged
lacks_tag tag ds = ltb 0 (length ds) && (tagged tag ds == 0)

has_tag_lem : (tag : String) (ds : List AclDetails) → has_tag tag ds ≡ not (tagged tag ds == 0)
unfolding has_tag tagged
has_tag_lem tag [] = refl
has_tag_lem tag (d ∷ ds) = ground (arith, has_tag_lem tag ds)

is_needed_lem : (tag : String) (ds : List AclDetails) → is_needed tag ds ≡ lacks_tag tag ds
unfolding is_needed lacks_tag
is_needed_lem tag [] = refl
is_needed_lem tag (d ∷ ds) = ground (arith, has_tag_lem tag (d ∷ ds))

-- What one direction becomes: the new list first, if it is needed
abbrev pub opened : Bool → ℕ → List AclDetails → List ℕ
opened needed new ds = if needed then new ∷ numbers ds else numbers ds

length-numbers : (ds : List AclDetails) → length (numbers ds) ≡ length ds
length-numbers ds = length-map ds (λ (d : AclDetails). d.acl_index)

module _ {S : Type 0} (v : Vpp) (ip : Ip) (port : ℕ) (tag : String) (i : ℕ)
    (ingress egress : List AclDetails) (s : State S)
    (accepts : (h : List Call) (c : Call) → v.fails h c ≡ none)
    (few : length ingress + length egress < 254) where
  abbrev add_call : Bool → Call
  add_call egress' = acl_add_replace (create_acl_add_replace ip port tag egress')

  -- The messages after the ingress and after both directions, by what is needed
  abbrev after_ingress : Bool → List Call
  after_ingress a = if a then add_call false ∷ s.calls else s.calls

  abbrev pub new_ingress : Bool → List ℕ
  new_ingress a = opened a (v.index s.calls (add_call false)) ingress

  abbrev pub new_egress : Bool → Bool → List ℕ
  new_egress a b = opened b (v.index (after_ingress a) (add_call true)) egress

  abbrev set_new : Bool → Bool → Call
  set_new a b = set_call i (new_ingress a) (new_egress a b)

  abbrev final_calls : Bool → Bool → List Call
  final_calls false false = s.calls
  final_calls true false = set_new true false ∷ after_ingress true
  final_calls a true = set_new a true ∷ add_call true ∷ after_ingress a

  sizes : length (numbers ingress ++ numbers egress) ≡ length ingress + length egress
  sizes = omega (
    arith,
    length-append (numbers ingress) (numbers egress),
    length-numbers ingress,
    length-numbers egress,
  )

  grown :
      (x y : List ℕ) (calls : List Call)
      → length ingress + length egress < length (x ++ y)
      → length (x ++ y) ≤ length ingress + length egress + 2
      → set_if_grown v i (length ingress + length egress) x y (record s { calls = calls })
        ≡ (ok tt, record s { calls = set_call i x y ∷ calls })
  grown x y calls more two =
      set_grown v i (length ingress + length egress) x y (record s { calls = calls }) more
        (omega arith) (accepts calls (set_call i x y))

  new_size :
      (a b : Bool)
      → length (new_ingress a ++ new_egress a b)
        ≡ (if a then 1 else 0) + (if b then 1 else 0) + (length ingress + length egress)
  new_size a b = ground (
    arith,
    length-append (new_ingress a) (new_egress a b),
    length-numbers ingress,
    length-numbers egress,
  )

  open_run :
      (a b : Bool)
      → (add_if v a ip port tag false (numbers ingress) >>= λ x.
            add_if v b ip port tag true (numbers egress) >>= λ y.
            set_if_grown v i (length ingress + length egress) x y)
          s
        ≡ (ok tt, record s { calls = final_calls a b })
  unfolding add_if
  open_run false false =
      set_same v i (length ingress + length egress) (numbers ingress) (numbers egress) s sizes
  open_run true false = simp accepts (
      grown (new_ingress true) (new_egress true false) (after_ingress true)
        (omega (arith, new_size true false)) (omega (arith, new_size true false)))
  open_run false true = simp accepts (
      grown (new_ingress false) (new_egress false true) (add_call true ∷ after_ingress false)
        (omega (arith, new_size false true)) (omega (arith, new_size false true)))
  open_run true true = simp accepts (
      grown (new_ingress true) (new_egress true true) (add_call true ∷ after_ingress true)
        (omega (arith, new_size true true)) (omega (arith, new_size true true)))

  -- The lists are those of the interface: how many are for the ingress, and all of them.
  abbrev Lists : ℕ × List ℕ → List Call → List ℕ → List ℕ → Type 0
  Lists first calls x y = held_lists calls i first ≡ (length x, x ++ y)

  set_holds :
      (a b : Bool) (first : ℕ × List ℕ) (calls : List Call)
      → Lists first (set_new a b ∷ calls) (new_ingress a) (new_egress a b)
  set_holds a b first calls =
      let size : length (new_ingress a) < 256 =
        omega (arith, new_size a b, length-append (new_ingress a) (new_egress a b), at_most a b) in
      ground arith
    where
      at_most : (a b : Bool) → (if a then 1 else 0) + (if b then 1 else 0) ≤ 2
      at_most a b = ground arith

  final_holds :
      (a b : Bool) (first : ℕ × List ℕ)
      → Lists first s.calls (numbers ingress) (numbers egress)
      → Lists first (final_calls a b) (new_ingress a) (new_egress a b)
  final_holds false false first h = h
  final_holds true false first h = set_holds true false first (after_ingress true)
  final_holds false true first h = set_holds false true first (add_call true ∷ after_ingress false)
  final_holds true true first h = set_holds true true first (add_call true ∷ after_ingress true)

  final_same : (a b : Bool) → a ≡ false → b ≡ false → final_calls a b ≡ s.calls
  final_same false false ha hb = refl
  final_same true b ha hb = cc
  final_same false true ha hb = cc

  -- For an interface with fewer than 254 access lists and a VPP that accepts everything: opening a
  -- port succeeds; in each direction that has lists, none of which has the tag, the new list comes
  -- before them, and the other direction keeps its lists; the interface's lists are then those of the
  -- ingress followed by those of the egress; and when no direction needs a list, nothing is sent.
  pub open_on-opens :
      let a = lacks_tag tag ingress in
      let b = lacks_tag tag egress in
      let t = (open_on v ip port tag i (ingress, egress) s).1 in
      ((open_on v ip port tag i (ingress, egress) s).0 ≡ ok tt)
      × ((first : ℕ × List ℕ)
          → held_lists s.calls i first ≡ (length ingress, numbers ingress ++ numbers egress)
          → held_lists t.calls i first ≡ (length (new_ingress a), new_ingress a ++ new_egress a b))
      × (a ≡ false → b ≡ false → t.calls ≡ s.calls)
  unfolding open_on add_to_acl_list_if_needed indices_of
  open_on-opens =
      let a = lacks_tag tag ingress in
      let b = lacks_tag tag egress in
      rw (is_needed_lem tag ingress) (
        rw (is_needed_lem tag egress) (
          rw (open_run a b) (
            refl,
            λ first h. final_holds a b first (
                h
                ∙ ap (λ (n : ℕ). (n, numbers ingress ++ numbers egress))
                    (sym (length-numbers ingress))),
            final_same a b,
          )))
