-- ===== src/Vl3lb/Lost.antt =====
-- A server that is added again, also after VPP refused it.
use sdk_vpp.Prelude.{
  ◌≡◌, refl, ap, ◌∙◌, String, Bool, true, false, Option, none, some, [], ◌∷◌, arith,
}
use sdk_vpp.Prelude.Keys.{string_eq}
use sdk_vpp.Prelude.Assoc.{Map, lookup, insert, lookup-insert_self}
use sdk_vpp.Types.RoundTrip.{ip_equal_refl}
use sdk_vpp.Vpp.{Vpp}
use sdk_vpp.Exec.{State, ok}
use sdk_vpp.Vl3lb.{
  Handler, Servers, Endpoint, equals, known, store_new, store_and_update, load_or_new, add_servers,
  with_servers,
}
use sdk_vpp.Vl3lb.Cleanup.{update-own}

equals_refl : (s : Endpoint) → equals s s ≡ true
unfolding equals
equals_refl s = ground (arith, ip_equal_refl s.ip)

-- The handler knows a server of the vl3-NSE under this ID that equals `s`.
record Knows (name id : String) (s : Endpoint) (c : Handler) : Type 0 where
  servers : Servers
  stored : lookup name c.servers ≡ some servers
  there : known (lookup id servers) s ≡ true

add_known :
    (v : Vpp) (name id : String) (s : Endpoint) (t : State Handler)
    → Knows name id s t.own
    → add_servers v name ((id, s) ∷ []) t ≡ (ok tt, t)
unfolding add_servers load_or_new store_new store_and_update
add_known v name id s t k = simp (k.stored) (simp (k.there) refl)

load_or_new-stored :
    (o : Option Servers) (name : String) (all : Map String Servers)
    → lookup name all ≡ o
    → lookup name (load_or_new o name all).1 ≡ some (load_or_new o name all).0
unfolding load_or_new
load_or_new-stored none name all h = lookup-insert_self name [] all
load_or_new-stored (some servers) name all h = h

store_and_update-Knows :
    (v : Vpp) (name id : String) (s : Endpoint) (all : Map String Servers) (servers : Servers)
    (t : State Handler) (found : Bool)
    → lookup name all ≡ some servers
    → known (lookup id servers) s ≡ found
    → Knows name id s (store_and_update v name all (store_new ((id, s) ∷ []) servers false) t).1.own
unfolding store_and_update store_new
store_and_update-Knows v name id s all servers t true h k =
    simp k (record { servers = servers; stored = h; there = k })
store_and_update-Knows v name id s all servers t false h k =
    let u : State Handler = record t {
      own = with_servers (insert name (insert id s servers) all) t.own;
    } in
    simp k (
      rw (update-own v u) (record {
        servers = insert id s servers;
        stored = lookup-insert_self name (insert id s servers) all;
        there =
            ap (λ (o : Option Endpoint). known o s) (lookup-insert_self id s servers)
            ∙ equals_refl s;
      }))

-- Whatever VPP answered when a server was added, adding the same server of the same vl3-NSE again
-- succeeds, sends nothing to VPP and changes nothing: also when the first call returned an error, so
-- that VPP never received the server.
pub add_servers_again :
    (v : Vpp) (name id : String) (s : Endpoint) (c : State Handler)
    → let t = (add_servers v name ((id, s) ∷ []) c).1 in
      add_servers v name ((id, s) ∷ []) t ≡ (ok tt, t)
add_servers_again v name id s c = add_known v name id s (add_servers v name ((id, s) ∷ []) c).1 (
    unfold add_servers in
    (let found = load_or_new (lookup name c.own.servers) name c.own.servers in
      store_and_update-Knows v name id s found.1 found.0 c (known (lookup id found.0) s)
        (load_or_new-stored (lookup name c.own.servers) name c.own.servers refl) refl))
