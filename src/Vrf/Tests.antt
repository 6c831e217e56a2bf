-- ===== src/Vrf/Tests.antt =====
-- Instances of the theorems on routing tables, and runs.
use sdk_vpp.Prelude.{◌≡◌, ◌≢◌, refl, true, false, none, some, [], ◌∷◌, arith, String}
use sdk_vpp.Prelude.Assoc.{lookup, insert, erase}
use sdk_vpp.Prelude.Keys.{nat_eq, string_eq}
use sdk_vpp.Vpp.{Error, foreign, ip_table_add_del, ip_table_allocate, max_uint32}
use sdk_vpp.Exec.{State, ok, err}
use sdk_vpp.Chain.{Connection, Request, Next, Payload}
use sdk_vpp.Metadata.{no_metadata}
use sdk_vpp.Samples.{willing, fresh}
use sdk_vpp.Vrf.{
  Maps, VrfInfo, new_map, create, attach, del, request, family, without_interface, new_info,
}
use sdk_vpp.Vrf.Sharing.{attach_again, del_shared, del_last}
use sdk_vpp.Vrf.Leak.{refused_request-leaks}

-- A service of which one connection has interface 1
abbrev begun : State Maps
begun = record {
  calls = [];
  client = no_metadata;
  server = record no_metadata { if_index = some 1; vrf_v4 = some 7; vrf_v6 = some 7 };
  own = record { ipv4 = ("ns", new_info 7) ∷ []; ipv6 = ("ns", new_info 7) ∷ [] };
}

created : State Maps
created = (create willing "ns" false (fresh new_map)).1

created_ok : create willing "ns" false (fresh new_map) ≡ (ok 7, created)
unfolding created create lookup insert
created_ok = refl

attached : State Maps
attached = (attach willing "ns" 1 false begun).1

attached_ok : attach willing "ns" 1 false begun ≡ (ok tt, attached)
unfolding attached attach lookup insert
attached_ok = refl

attach_again_example : attach willing "ns" 1 false attached ≡ (ok tt, attached)
attach_again_example = attach_again willing "ns" 1 false begun attached attached_ok

-- The interfaces 1 and 9 of two connections, and the service's own 5
abbrev three : VrfInfo
three = record { id = 7; attached = (1, tt) ∷ (9, tt) ∷ (5, tt) ∷ [] }

abbrev two : VrfInfo
two = record { id = 7; attached = (1, tt) ∷ (5, tt) ∷ [] }

abbrev holding : VrfInfo → State Maps
holding info = record begun { own = record { ipv4 = ("ns", info) ∷ []; ipv6 = [] } }

three_stored : lookup "ns" (family false (holding three).own) ≡ some three
unfolding lookup
three_stored = refl

nine_there : lookup 9 three.attached ≡ some tt
unfolding lookup
nine_there = refl

five_there : lookup 5 three.attached ≡ some tt
unfolding lookup
five_there = refl

del_shared_example :
    let t = (del {E = Error} willing "ns" false false (holding three)).1 in
    (lookup "ns" (family false t.own) ≡ some (without_interface 1 three))
    × (lookup 9 (without_interface 1 three).attached ≡ some tt)
    × (lookup 5 (without_interface 1 three).attached ≡ some tt)
    × (t.calls ≡ [])
    × ((m : String)
        → "ns" ≢ m
        → lookup m (family false t.own) ≡ lookup m (family false (holding three).own))
    × (family true t.own ≡ [])
del_shared_example =
    del_shared willing "ns" false false 7 1 three (holding three) refl refl three_stored 9 5
      nine_there five_there (omega arith) (omega arith) (omega arith)

two_stored : lookup "ns" (family false (holding two).own) ≡ some two
unfolding lookup
two_stored = refl

one_left : erase 1 two.attached ≡ (5, tt) ∷ []
unfolding erase
one_left = refl

del_last_example :
    let t = (del {E = Error} willing "ns" false false (holding two)).1 in
    (lookup "ns" (family false t.own) ≡ none)
    × (t.calls ≡ ip_table_add_del false 7 false ∷ [])
    × ((m : String)
        → "ns" ≢ m
        → lookup m (family false t.own) ≡ lookup m (family false (holding two).own))
    × (family true t.own ≡ [])
del_last_example =
    del_last willing "ns" false false 7 1 two (holding two) refl refl two_stored 5 one_left

abbrev first : Connection
first = record {
  id = "c";
  network_service = "ns";
  payload = Payload.ip;
  labels = [];
  mechanism = none;
  context = none;
}

abbrev refusing : Next Maps
refusing = record {
  request = λ r s. (err (record { conn = none; error = foreign 1 }), s);
  close = λ c s. (ok tt, s);
}

abbrev asking : Request
asking = record { connection = some first; mechanism_preferences = [] }

empty_lookup : (x : String) → lookup x new_map.ipv4 ≡ none
unfolding lookup
empty_lookup x = refl

refused_request-leaks_example :
    let t = (request willing (λ s. none) refusing false asking (fresh new_map)).1 in
    ((request willing (λ s. none) refusing false asking (fresh new_map)).0
      ≡ err (record { conn = none; error = foreign 1 }))
    × (lookup "ns" t.own.ipv4 ≡ some (new_info 7))
    × (lookup "ns" t.own.ipv6 ≡ some (new_info 7))
    × (t.server.vrf_v4 ≡ none)
    × (t.server.vrf_v6 ≡ none)
    × (t.calls ≡ ip_table_allocate max_uint32 true ∷ ip_table_allocate max_uint32 false ∷ [])
refused_request-leaks_example =
    refused_request-leaks willing (λ s. none) refusing asking first (foreign 1) (fresh new_map) refl
      refl refl (empty_lookup "ns") (empty_lookup "ns") (empty_lookup "") (empty_lookup "")
      (λ e. cc) (λ h c. refl) (λ t. refl)
