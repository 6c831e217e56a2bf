-- ===== src/Vl3lb/Sync.antt =====
-- The translation that VPP holds is that of the servers the handler knows.
use sdk_vpp.Prelude.{
  ℕ, ◌≡◌, refl, sym, ◌∙◌, String, Bool, true, false, Option, none, some, List, [], ◌∷◌, ap, ◌++◌,
  map, ◌==◌, if◌then◌else◌,
}
use sdk_vpp.Prelude.Keys.{string_eq}
use sdk_vpp.Prelude.Assoc.{Map, lookup, insert, erase_absent}
use sdk_vpp.Types.{Address, to_vpp_address}
use sdk_vpp.Vpp.{
  Vpp, Error, Call, CnatTranslation, CnatEndpointTuple, cnat_translation_update,
  cnat_translation_del,
}
use sdk_vpp.Exec.{State, M, ok, ignoring, >>=-keeps}
use sdk_vpp.Vl3lb.{
  Handler, Servers, Endpoint, path_of, paths_of, all_paths, send_paths, update_vpp_cnat, store_new,
  store_and_update, load_or_new, add_servers, delete_servers, delete_from, delete_all, settle,
  with_servers, get_server_ids_by_vl3_name,
}
use sdk_vpp.Vl3lb.Monitor.{
  ConnectionEvent, Changes, filter_connections, apply_changes, forget, balance_nse,
}

-- The translation that VPP holds for the load balancer, its ID and its paths: an update replaces the
-- paths and has the ID of VPP's reply; a deletion empties the paths if it names that ID.
abbrev pub Translation : Type 0
Translation = ℕ × List CnatEndpointTuple

abbrev pub deleted : ℕ → Translation → Translation
deleted id (n, paths) = (n, if id == n then [] else paths)

abbrev pub after : Vpp → Call → List Call → Translation → Translation
after v c calls old = elim c [
  | cnat_translation_update t ↦ (v.index calls (cnat_translation_update t), t.paths)
  | cnat_translation_del id ↦ deleted id old
  | c' ↦ old
]

-- After messages, newest first; without any there is no translation.
abbrev pub held : Vpp → List Call → Translation
held v [] = (0, [])
held v (c ∷ calls) = after v c calls (held v calls)

-- The path from the load balancer to a server: to the server's address and port, on any interface
abbrev pub path_to : Address → Endpoint → CnatEndpointTuple
path_to src server = record {
  dst_ep = record { addr = to_vpp_address server.ip; sw_if_index = 4294967295; port = server.port };
  src_ep = record { addr = src; sw_if_index = 4294967295; port = 0 };
}

unfoldable pub paths_to : Address → Map String Servers → List CnatEndpointTuple
paths_to src [] = []
paths_to src ((name, servers) ∷ rest) =
    map (λ (p : String × Endpoint). path_to src p.1) servers ++ paths_to src rest

-- The paths to all servers that the handler knows
abbrev pub known_paths : Handler → List CnatEndpointTuple
known_paths c = paths_to c.lb_endpoint.addr c.servers

abbrev pub IsSynced : Vpp → State Handler → Type 0
IsSynced v s = held v s.calls ≡ (0, known_paths s.own)

paths_of_lem :
    (src : Address) (servers : Servers)
    → paths_of src servers ≡ map (λ (p : String × Endpoint). path_to src p.1) servers
unfolding paths_of path_of
paths_of_lem src [] = refl
paths_of_lem src ((id, s) ∷ servers) = rw (paths_of_lem src servers) refl

all_paths_lem : (src : Address) (all : Map String Servers) → all_paths src all ≡ paths_to src all
unfolding all_paths paths_to
all_paths_lem src [] = refl
all_paths_lem src ((name, servers) ∷ rest) =
    rw (paths_of_lem src servers) (rw (all_paths_lem src rest) refl)

deleted_zero : (x : Translation) → x.0 ≡ 0 → deleted 0 x ≡ (0, [])
deleted_zero (n, paths) h = simp h refl

-- VPP accepts everything and gives the translation the ID 0, the only one that the program deletes.
module _ (v : Vpp) (accepts : (h : List Call) (c : Call) → v.fails h c ≡ none)
    (is_first : (h : List Call) (t : CnatTranslation)
      → v.index h (cnat_translation_update t) ≡ 0) where
  send_paths-held :
      (c : Handler) (paths : List CnatEndpointTuple) (s : State Handler)
      → (held v s.calls).0 ≡ 0
      → (held v (send_paths v c paths s).1.calls ≡ (0, paths))
        × ((send_paths v c paths s).1.own ≡ s.own)
        × ((send_paths v c paths s).0 ≡ ok tt)
  unfolding send_paths
  send_paths-held c [] s h = simp accepts (deleted_zero (held v s.calls) h, refl, refl)
  send_paths-held c (p ∷ paths) s h =
      simp accepts (ap (λ (n : ℕ). (n, p ∷ paths)) (is_first s.calls _), refl, refl)

  update-IsSynced :
      (s : State Handler)
      → (held v s.calls).0 ≡ 0
      → IsSynced v (update_vpp_cnat v s).1
        × ((update_vpp_cnat v s).1.own ≡ s.own)
        × ((update_vpp_cnat v s).0 ≡ ok tt)
  unfolding update_vpp_cnat
  update-IsSynced s h = simp (all_paths_lem s.own.lb_endpoint.addr s.own.servers) (
      let (holds, same, done) = send_paths-held s.own (known_paths s.own) s h in
      (simp same holds, same, done))

  load_or_new-paths :
      (src : Address) (o : Option Servers) (name : String) (all : Map String Servers)
      → lookup name all ≡ o
      → paths_to src (load_or_new o name all).1 ≡ paths_to src all
  unfolding load_or_new paths_to insert
  load_or_new-paths src none name all h = rw (erase_absent name all h) refl
  load_or_new-paths src (some servers) name all h = refl

  -- An action that keeps the translation in step with the servers, and returns no error
  abbrev Keeps : M Handler Error (Unit {0}) → Type 0
  Keeps m = (s : State Handler) → IsSynced v s → IsSynced v (m s).1 × ((m s).0 ≡ ok tt)

  store_and_update-Keeps :
      (name : String) (all : Map String Servers) (stored : Servers × Bool) (s : State Handler)
      → paths_to s.own.lb_endpoint.addr all ≡ known_paths s.own
      → IsSynced v s
      → IsSynced v (store_and_update v name all stored s).1
        × ((store_and_update v name all stored s).0 ≡ ok tt)
  unfolding store_and_update
  store_and_update-Keeps name all (servers, false) s same synced =
      (synced ∙ ap (λ (l : List CnatEndpointTuple). (0, l)) (sym same), refl)
  store_and_update-Keeps name all (servers, true) s same synced =
      let t : State Handler = record s { own = with_servers (insert name servers all) s.own } in
      let (holds, kept, done) = update-IsSynced t (ap (λ (x : Translation). x.0) synced) in
      (holds, done)

  add_servers-Keeps :
      (name : String) (add : List (String × Endpoint)) → Keeps (add_servers v name add)
  unfolding add_servers
  add_servers-Keeps name add s synced =
      let found = load_or_new (lookup name s.own.servers) name s.own.servers in
      store_and_update-Keeps name found.1 (store_new add found.0 false) s
        (load_or_new-paths s.own.lb_endpoint.addr (lookup name s.own.servers) name s.own.servers
          refl)
        synced

  delete_from-Keeps :
      (name : String) (del : List String) (o : Option Servers) → Keeps (delete_from v name del o)
  unfolding delete_from
  delete_from-Keeps name del none s synced = (synced, refl)
  delete_from-Keeps name [] (some servers) s synced = (synced, refl)
  delete_from-Keeps name (id ∷ del) (some servers) s synced =
      let t : State Handler = record s {
        own = with_servers (settle name (delete_all (id ∷ del) servers) s.own.servers) s.own;
      } in
      let (holds, kept, done) = update-IsSynced t (ap (λ (x : Translation). x.0) synced) in
      (holds, done)

  delete_servers-Keeps : (name : String) (del : List String) → Keeps (delete_servers v name del)
  unfolding delete_servers
  delete_servers-Keeps name del s synced =
      delete_from-Keeps name del (lookup name s.own.servers) s synced

  ignoring-Keeps : (m : M Handler Error (Unit {0})) → Keeps m → Keeps (ignoring m)
  ignoring-Keeps m keeps s synced = let (held, done) = keeps s synced in rw done (held, refl)

  apply_changes-Synced :
      (name : String) (o : Option Changes) (s : State Handler)
      → IsSynced v s
      → IsSynced v (apply_changes v name o s).1
  unfolding apply_changes
  apply_changes-Synced name none s synced = synced
  apply_changes-Synced name (some changes) s synced =
      >>=-keeps (IsSynced v) (λ _. ignoring (delete_servers v name changes.del))
        (ignoring (add_servers v name changes.add)) s
        (ignoring-Keeps (add_servers v name changes.add) (add_servers-Keeps name changes.add) s
          synced).0
        (λ _ t h.
          (ignoring-Keeps (delete_servers v name changes.del)
            (delete_servers-Keeps name changes.del) t h).0)

  forget-IsSynced :
      (name : String) (s : State Handler) → IsSynced v s → IsSynced v (forget v name s).1
  unfolding forget
  forget-IsSynced name s synced =
      let ids = get_server_ids_by_vl3_name name s.own in
      (ignoring-Keeps (delete_servers v name ids) (delete_servers-Keeps name ids) s synced).0

  -- With a VPP that accepts everything and gives the load balancer's translation the ID 0: when VPP holds
  -- that translation with exactly one path to each server that the handler knows (none when it knows
  -- no server), then so it does again after one monitor's stream of any events was handled, with no
  -- other monitor in between, to its end or up to an event over which the program panics.
  pub balance_nse-IsSynced :
      (name : String) (selector : List (String × String)) (port : ℕ) (events : List ConnectionEvent)
      (s : State Handler)
      → IsSynced v s
      → IsSynced v (balance_nse v name selector port events s).1
  unfolding balance_nse
  balance_nse-IsSynced name selector port [] s synced = forget-IsSynced name s synced
  balance_nse-IsSynced name selector port (event ∷ events) s synced =
      >>=-keeps (IsSynced v) (λ _. balance_nse v name selector port events)
        (apply_changes v name (filter_connections event selector port)) s
        (apply_changes-Synced name (filter_connections event selector port) s synced)
        (λ _ t h. balance_nse-IsSynced name selector port events t h)
