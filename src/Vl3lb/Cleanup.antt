-- ===== src/Vl3lb/Cleanup.antt =====
-- What the end of a monitor's stream leaves of the servers of its vl3-NSE, whatever VPP answers.
use sdk_vpp.Prelude.{
  ℕ, ◌≡◌, ◌≢◌, refl, ap, sym, ◌∙◌, String, Bool, true, false, Option, none, some, List, [], ◌∷◌,
  arith,
}
use sdk_vpp.Prelude.Keys.{string_eq, =?_self, Eq}
use sdk_vpp.Prelude.Assoc.{
  Map, lookup, insert, erase, lookup-erase, lookup-insert, lookup-erase_self,
}
use text.Mathlib.TextEquality.{eq_iff}
use sdk_vpp.Vpp.{Vpp, Error, CnatEndpointTuple}
use sdk_vpp.Exec.{
  State, M, ok, ignoring, ignoring-state, >>=-keeps, >>=-eq-ok, Outcome, send_-state,
}
use sdk_vpp.Vl3lb.{
  Handler, Servers, Endpoint, all_paths, send_paths, update_vpp_cnat, store_new, store_and_update,
  load_or_new, add_servers, delete_servers, delete_from, delete_all, settle, keys, with_servers,
  get_server_ids_by_vl3_name,
}
use sdk_vpp.Vl3lb.Monitor.{
  ConnectionEvent, Changes, filter_connections, apply_changes, forget, balance_nse,
}

module _ {ℓ κ} {K : Type ℓ} {V : Type κ} ⦃e : Eq K⦄ where
  erase_comm : (j k : K) (m : Map K V) → erase j (erase k m) ≡ erase k (erase j m)
  unfolding erase
  erase_comm j k [] = refl
  erase_comm j k ((i, v) ∷ m) = ground (arith, erase_comm j k m)

delete_all-erase :
    (ids : List String) (k : String) (m : Servers)
    → delete_all ids (erase k m) ≡ erase k (delete_all ids m)
unfolding delete_all
delete_all-erase [] k m = refl
delete_all-erase (id ∷ ids) k m = rw (erase_comm id k m) (delete_all-erase ids k (erase id m))

delete_all-keys : (m : Servers) → delete_all (keys (some m)) m ≡ []
unfolding delete_all erase keys
delete_all-keys [] = refl
delete_all-keys ((k, v) ∷ m) =
    let ids = keys (some m) in
    let head_gone : erase k ((k, v) ∷ m) ≡ erase k m = rw (=?_self k) refl in
    ap (delete_all ids) head_gone ∙ delete_all-erase ids k m ∙ ap (erase k) (delete_all-keys m)

send_paths-own :
    (v : Vpp) (c : Handler) (paths : List CnatEndpointTuple) (s : State Handler)
    → (send_paths v c paths s).1.own ≡ s.own
unfolding send_paths
send_paths-own v c [] s = ap (λ (t : State Handler). t.own) (send_-state v _ s)
send_paths-own v c (p ∷ paths) s = ap (λ (t : State Handler). t.own) (send_-state v _ s)

pub update-own : (v : Vpp) (s : State Handler) → (update_vpp_cnat v s).1.own ≡ s.own
unfolding update_vpp_cnat
update-own v s = send_paths-own v s.own (all_paths s.own.lb_endpoint.addr s.own.servers) s

abbrev pub or_no_servers : Option Servers → Servers
or_no_servers none = []
or_no_servers (some servers) = servers

-- The servers of a vl3-NSE
abbrev pub servers_of : String → Handler → Servers
servers_of name c = or_no_servers (lookup name c.servers)

delete_from-clears :
    (v : Vpp) (name : String) (o : Option Servers) (s : State Handler)
    → lookup name s.own.servers ≡ o
    → servers_of name (delete_from v name (keys o) o s).1.own ≡ []
unfolding delete_from settle keys
delete_from-clears v name none s h = ap or_no_servers h
delete_from-clears v name (some []) s h = ap or_no_servers h
delete_from-clears v name (some ((k, x) ∷ m)) s h =
    let all = λ (servers : Servers). settle name servers s.own.servers in
    let left = delete_all (keys (some ((k, x) ∷ m))) ((k, x) ∷ m) in
    ap (servers_of name) (update-own v (record s { own = with_servers (all left) s.own }))
    ∙ ap (λ (servers : Servers). or_no_servers (lookup name (all servers)))
        (delete_all-keys ((k, x) ∷ m))
    ∙ ap or_no_servers (lookup-erase_self name s.own.servers)

-- A handler in which the servers of the other vl3-NSEs are those of another one
abbrev pub SameOthers : String → Handler → Handler → Type 0
SameOthers name c d =
    (other : String) → name ≢ other → lookup other d.servers ≡ lookup other c.servers

settle-others :
    (name : String) (servers : Servers) (all : Map String Servers) (other : String)
    → name ≢ other
    → lookup other (settle name servers all) ≡ lookup other all
unfolding settle
settle-others name servers all other h =
    ground
      (arith, lookup-erase name other all, lookup-insert name other servers all, eq_iff name other)

delete_from-others :
    (v : Vpp) (name : String) (del : List String) (o : Option Servers) (s : State Handler)
    → SameOthers name s.own (delete_from v name del o s).1.own
unfolding delete_from
delete_from-others v name del none s other h = refl
delete_from-others v name [] (some servers) s other h = refl
delete_from-others v name (id ∷ del) (some servers) s other h =
    let left = delete_all (id ∷ del) servers in
    ap (λ (c : Handler). lookup other c.servers)
      (update-own v (record s { own = with_servers (settle name left s.own.servers) s.own }))
    ∙ settle-others name left s.own.servers other h

store_and_update-others :
    (v : Vpp) (name : String) (all : Map String Servers) (stored : Servers × Bool)
    (s : State Handler) (other : String)
    → name ≢ other
    → lookup other all ≡ lookup other s.own.servers
    → lookup other (store_and_update v name all stored s).1.own.servers ≡ lookup other s.own.servers
unfolding store_and_update
store_and_update-others v name all (servers, false) s other h same = same
store_and_update-others v name all (servers, true) s other h same =
    ap (λ (c : Handler). lookup other c.servers)
      (update-own v (record s { own = with_servers (insert name servers all) s.own }))
    ∙ ground (arith, lookup-insert name other servers all, eq_iff name other)

add_servers-others :
    (v : Vpp) (name : String) (add : List (String × Endpoint)) (s : State Handler)
    → SameOthers name s.own (add_servers v name add s).1.own
unfolding add_servers load_or_new
add_servers-others v name add s other h =
    let found = load_or_new (lookup name s.own.servers) name s.own.servers in
    store_and_update-others v name found.1 (store_new add found.0 false) s other h
      (load_or_new-others (lookup name s.own.servers))
  where
    load_or_new-others :
        (o : Option Servers)
        → lookup other (load_or_new o name s.own.servers).1 ≡ lookup other s.own.servers
    load_or_new-others none =
        let nothing : Servers = [] in
        ground (arith, lookup-insert name other nothing s.own.servers, eq_iff name other)
    load_or_new-others (some servers) = refl

ignored-others :
    (name : String) (m : M Handler Error (Unit {0})) (c : Handler) (s : State Handler)
    → SameOthers name c (m s).1.own
    → SameOthers name c (ignoring {F = Error} m s).1.own
ignored-others name m c s same other h =
    ap (λ (t : State Handler). lookup other t.own.servers) (ignoring-state Error m s) ∙ same other h

module _ (v : Vpp) (name : String) where
  apply_changes-others :
      (o : Option Changes) (c : Handler) (s : State Handler)
      → SameOthers name c s.own
      → SameOthers name c (apply_changes v name o s).1.own
  unfolding apply_changes delete_servers
  apply_changes-others none c s same = same
  apply_changes-others (some changes) c s same =
      >>=-keeps (λ (t : State Handler). SameOthers name c t.own)
        (λ _. ignoring (delete_servers v name changes.del))
        (ignoring (add_servers v name changes.add)) s
        (ignored-others name (add_servers v name changes.add) c s
          (λ other h. add_servers-others v name changes.add s other h ∙ same other h))
        (λ _ t left.
          ignored-others name (delete_servers v name changes.del) c t
            (λ other h. delete_servers-others changes.del t other h ∙ left other h))
    where
      delete_servers-others :
          (del : List String) (t : State Handler)
          → SameOthers name t.own (delete_servers v name del t).1.own
      delete_servers-others del t = delete_from-others v name del (lookup name t.own.servers) t

  forget-state :
      (s : State Handler)
      → (servers_of name (forget v name s).1.own ≡ [])
        × SameOthers name s.own (forget v name s).1.own
  unfolding forget delete_servers get_server_ids_by_vl3_name
  forget-state s =
      let found = lookup name s.own.servers in
      let deletes = delete_from v name (keys found) found in
      (
        ap (λ (t : State Handler). servers_of name t.own) (ignoring-state Error deletes s)
            ∙ delete_from-clears v name found s refl,
        ignored-others name deletes s.own s (delete_from-others v name (keys found) found s),
      )

  -- Whatever VPP answers: when a monitor's stream of events was handled to its end, with no other
  -- monitor in between, the handler knows no server of its vl3-NSE, and the servers of every other
  -- vl3-NSE are what they were.
  pub balance_nse-clears :
      (selector : List (String × String)) (port : ℕ) (events : List ConnectionEvent)
      (s t : State Handler)
      → balance_nse v name selector port events s ≡ (ok tt, t)
      → (servers_of name t.own ≡ []) × SameOthers name s.own t.own
  unfolding balance_nse
  balance_nse-clears selector port [] s t e =
      let (gone, same) = forget-state s in
      let left = ap (λ (q : Outcome Error (Unit {0}) × State Handler). q.1.own) e in
      simp (← left) (gone, same)
  balance_nse-clears selector port (event ∷ events) s t e =
      let changes = filter_connections event selector port in
      let (_, u, first, rest) =
        >>=-eq-ok (λ _. balance_nse v name selector port events) (apply_changes v name changes) s
          e in
      let (gone, same) = balance_nse-clears selector port events u t rest in
      let left = ap (λ (q : Outcome Error (Unit {0}) × State Handler). q.1.own) first in
      let before = apply_changes-others changes s.own s (λ other h. refl) in
      (
        gone,
        λ other h.
            same other h ∙ ap (λ (c : Handler). lookup other c.servers) (sym left) ∙ before other h,
      )
