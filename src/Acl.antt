-- ===== src/Acl.antt =====
-- pkg/networkservice/acl: the access lists of the server's interface, one for each direction, added to
-- VPP when a connection is first requested.
--
-- The indices of the lists are kept in a map by the connection's ID.
pub mod Mirror
pub mod Lifecycle
pub mod Tests
use Prim.Native.String.{◌++◌ as ◌+++◌}
use sdk_vpp.Prelude.{
  ℕ, ◌%◌, String, Bool, true, false, Option, none, some, List, [], ◌∷◌, ◌++◌, map, length, ◌==◌,
  if◌then◌else◌, zero, suc,
}
use sdk_vpp.Prelude.Keys.{string_eq}
use sdk_vpp.Prelude.Assoc.{Map, lookup, insert, erase}
use sdk_vpp.Vpp.{
  Vpp, Error, AclRule, AclAddReplace, acl_add_replace, acl_del, acl_interface_set_acl_list,
  max_uint32,
}
use sdk_vpp.Exec.{
  M, ◌>>=◌, ◌>>◌, pure, throw, try, wrapping, ignoring, get_own, set_own, send, send_,
}
use sdk_vpp.Chain.{Connection, Request, Refusal, Next, refuse, close_after}
use sdk_vpp.Metadata.Ifindex

-- The lists of each connection, by its ID
abbrev pub AclIndices : Type 0
AclIndices = Map String (List ℕ)

unfoldable pub mirror_rule : AclRule → AclRule
mirror_rule r = record r {
  src_prefix = r.dst_prefix;
  dst_prefix = r.src_prefix;
  srcport_or_icmptype_first = r.dstport_or_icmpcode_first;
  dstport_or_icmpcode_first = r.srcport_or_icmptype_first;
  srcport_or_icmptype_last = r.dstport_or_icmpcode_last;
  dstport_or_icmpcode_last = r.srcport_or_icmptype_last;
}

unfoldable pub acl_add : String → Bool → List AclRule → AclAddReplace
unfolding mirror_rule
acl_add tag egress rules = record {
  acl_index = max_uint32;
  tag = tag;
  count = length rules % 4294967296;
  r = if egress then map mirror_rule rules else rules;
}

unfoldable pub add_acl_to_acl_list :
    Vpp → String → Bool → List AclRule → M AclIndices Error (List ℕ)
unfolding acl_add
add_acl_to_acl_list v tag egress rules = do
  acl_index ←
      wrapping "vppapi ACLAddReplace returned error"
        (send v (acl_add_replace (acl_add tag egress rules)))
  pure (acl_index ∷ [])

-- create, on what ifindex.Load returned
unfoldable pub create_on : Vpp → String → List AclRule → Option ℕ → M AclIndices Error (List ℕ)
unfolding add_acl_to_acl_list
create_on v tag rules none = throw (Error.new "swIfIndex not found")
create_on v tag rules (some sw_if_index) = do
  ingress ← add_acl_to_acl_list v tag false rules
  egress ← add_acl_to_acl_list v tag true rules
  let acls = ingress ++ egress
  wrapping "vppapi ACLInterfaceSetACLList returned error" (
      send_ v (
        acl_interface_set_acl_list (record {
          sw_if_index = sw_if_index;
          count = length acls % 256;
          n_input = length ingress % 256;
          acls = acls;
        })))
  pure acls

unfoldable pub create : Vpp → String → Bool → List AclRule → M AclIndices Error (List ℕ)
unfolding create_on Ifindex.load
create v tag is_client rules = do
  sw_if_index ← Ifindex.load is_client
  create_on v tag rules sw_if_index

-- `for ind := range indices`: the positions `i`, `i + 1`, … of the rest of the slice
unfoldable pub del_from : {E : Type 0} → Vpp → ℕ → List ℕ → M AclIndices E (Unit {0})
del_from v i [] = pure tt
del_from v i (index ∷ indices) = do
  ignoring (send v (acl_del (i % 4294967296)))
  del_from v (suc i) indices

-- A key that is not there is a nil slice.
abbrev pub or_nil : Option (List ℕ) → List ℕ
or_nil none = []
or_nil (some indices) = indices

unfoldable pub close : Vpp → Next AclIndices → Connection → M AclIndices Error (Unit {0})
unfolding del_from
close v next conn = do
  acl_indices ← get_own
  set_own (erase conn.id acl_indices)
  del_from v 0 (or_nil (lookup conn.id acl_indices))
  next.close conn

abbrev pub acl_tag : String
acl_tag = "nsm-acl-from-config"

-- What Request does with the connection that the rest of the chain returned
unfoldable pub add_rules :
    Vpp
    → Next AclIndices
    → List AclRule
    → Connection
    → Option (List ℕ)
    → M AclIndices Refusal Connection
unfolding create close
add_rules v next rules conn (some loaded) = pure conn
add_rules v next [] conn none = pure conn
add_rules v next (rule ∷ rules) conn none =
    try (create v (acl_tag +++ "-" +++ conn.id) false (rule ∷ rules))
      (λ indices. do acl_indices ← get_own; set_own (insert conn.id indices acl_indices); pure conn)
      (close_after (close v next) conn)

unfoldable pub request :
    Vpp → List AclRule → Next AclIndices → Request → M AclIndices Refusal Connection
unfolding add_rules
request v rules next r =
    try (next.request r)
      (λ conn. do acl_indices ← get_own; add_rules v next rules conn (lookup conn.id acl_indices))
      (λ refusal. refuse refusal.error)
