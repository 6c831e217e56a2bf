-- ===== src/Vl3lb/Ends.antt =====
-- The loop over the events of a monitor ends without a panic when the connections have addresses.
use sdk_vpp.Prelude.{
  ℕ, ◌≡◌, refl, ap, ◌∙◌, String, Bool, true, false, Option, none, some, List, [], ◌∷◌, Bool-cases,
  inl, inr,
}
use sdk_vpp.Prelude.Keys.{string_eq}
use sdk_vpp.Prelude.Assoc.{Map, lookup, insert}
use sdk_vpp.Types.{Ip}
use sdk_vpp.Vpp.{Vpp, Error, CnatEndpointTuple}
use sdk_vpp.Exec.{State, ok, Returns, send_-Returns, ignoring-ok, ignoring, continue}
use sdk_vpp.Vl3lb.{
  Handler, Servers, Endpoint, all_paths, send_paths, update_vpp_cnat, store_new, store_and_update,
  load_or_new, add_servers, delete_servers, delete_from, delete_all, settle, with_servers,
  get_server_ids_by_vl3_name,
}
use sdk_vpp.Vl3lb.Monitor.{
  Monitored, ConnectionEvent, Changes, src_ip, selects, add_present, add_id, apply_selector,
  delete_id, filter_from, filter_connections, no_changes, and_then, apply_changes, forget,
  balance_nse,
}

-- Every connection has a first source address.
abbrev pub AllAddressed : List Monitored → Type 0
AllAddressed [] = Unit {0}
AllAddressed (m ∷ ms) = ((ip : Ip) × (src_ip m.connection.context ≡ some ip)) × AllAddressed ms

abbrev pub AllEventsAddressed : List ConnectionEvent → Type 0
AllEventsAddressed [] = Unit {0}
AllEventsAddressed (e ∷ es) = AllAddressed e.connections × AllEventsAddressed es

add_present-some :
    (port : ℕ) (m : Monitored) (changes : Changes) (ip : Ip)
    → src_ip m.connection.context ≡ some ip
    → (changes' : Changes) × (add_present port m changes ≡ some changes')
unfolding add_present add_id
add_present-some port m changes ip h = elim (Bool-cases m.is_down) [
  | inl down ↦ (delete_id m.connection.id changes, rw down refl)
  | inr up ↦ rw up (rw (h, add_id) (_, refl))
]

apply_selector-some :
    (is_delete : Bool) (port : ℕ) (m : Monitored) (selector : List (String × String))
    (changes : Changes) (ip : Ip)
    → src_ip m.connection.context ≡ some ip
    → (changes' : Changes) × (apply_selector is_delete port m selector changes ≡ some changes')
unfolding apply_selector
apply_selector-some is_delete port m [] changes ip h = (changes, refl)
apply_selector-some is_delete port m (pair ∷ selector) changes ip h =
    pick is_delete (selects pair m.connection)
      (apply_selector-some is_delete port m selector changes ip h)
      (apply_selector-some is_delete port m selector (delete_id m.connection.id changes) ip h)
  where
    pick :
        (d b : Bool)
        → (changes' : Changes) × (apply_selector d port m selector changes ≡ some changes')
        → (changes' : Changes) × (apply_selector d port m selector
              (delete_id m.connection.id changes)
            ≡ some changes')
        → (changes' : Changes) × (elim b as (λ _. Option Changes) [
          | false ↦ apply_selector d port m selector changes
          | true ↦ elim d as (λ _. Option Changes) [
            | true ↦ apply_selector d port m selector (delete_id m.connection.id changes)
            | false ↦ add_present port m changes
          ]
        ]
            ≡ some changes')
    pick d false r1 r2 = r1
    pick true true r1 r2 = r2
    pick false true r1 r2 = add_present-some port m changes ip h

filter_from-some :
    (is_delete : Bool) (port : ℕ) (selector : List (String × String)) (ms : List Monitored)
    (changes : Changes)
    → AllAddressed ms
    → (changes' : Changes) × (filter_from is_delete port selector ms changes ≡ some changes')
unfolding filter_from
filter_from-some is_delete port selector [] changes h = (changes, refl)
filter_from-some is_delete port selector (m ∷ ms) changes ((ip, here), later) =
    let (changes', first) = apply_selector-some is_delete port m selector changes ip here in
    let (changes'', rest) = filter_from-some is_delete port selector ms changes' later in
    (changes'', ap (λ o. and_then o (λ c. filter_from is_delete port selector ms c)) first ∙ rest)

module _ (v : Vpp) (name : String) where
  update-Returns : (s : State Handler) → Returns (update_vpp_cnat v s).0
  unfolding update_vpp_cnat send_paths
  update-Returns s = sent (all_paths s.own.lb_endpoint.addr s.own.servers)
    where
      sent : (paths : List CnatEndpointTuple) → Returns (send_paths v s.own paths s).0
      sent [] = send_-Returns v _ s
      sent (p ∷ paths) = send_-Returns v _ s

  store_and_update-Returns :
      (all : Map String Servers) (stored : Servers × Bool) (s : State Handler)
      → Returns (store_and_update v name all stored s).0
  unfolding store_and_update
  store_and_update-Returns all (servers, false) s = tt
  store_and_update-Returns all (servers, true) s =
      update-Returns (record s { own = with_servers (insert name servers all) s.own })

  add_servers-Returns :
      (add : List (String × Endpoint)) (s : State Handler) → Returns (add_servers v name add s).0
  unfolding add_servers
  add_servers-Returns add s =
      let found = load_or_new (lookup name s.own.servers) name s.own.servers in
      store_and_update-Returns found.1 (store_new add found.0 false) s

  delete_from-Returns :
      (del : List String) (o : Option Servers) (s : State Handler)
      → Returns (delete_from v name del o s).0
  unfolding delete_from
  delete_from-Returns del none s = tt
  delete_from-Returns [] (some servers) s = tt
  delete_from-Returns (id ∷ del) (some servers) s = update-Returns (record s {
    own = with_servers (settle name (delete_all (id ∷ del) servers) s.own.servers) s.own;
  })

  ignored_delete :
      (del : List String) (s : State Handler)
      → ignoring {F = Error} (delete_servers v name del) s
        ≡ (ok tt, (delete_servers v name del s).1)
  unfolding delete_servers
  ignored_delete del s =
      ignoring-ok Error (delete_servers v name del) s
        (delete_from-Returns del (lookup name s.own.servers) s)

  apply_changes-ok :
      (changes : Changes) (s : State Handler)
      → (t : State Handler) × (apply_changes v name (some changes) s ≡ (ok tt, t))
  unfolding apply_changes
  apply_changes-ok changes s =
      let t = (add_servers v name changes.add s).1 in
      let added =
        ignoring-ok Error (add_servers v name changes.add) s (add_servers-Returns changes.add s) in
      (
        (delete_servers v name changes.del t).1,
        ap (λ q. continue q (λ _. ignoring (delete_servers v name changes.del))) added
            ∙ ignored_delete changes.del t,
      )

  -- When every connection in a stream of events has a first source address, the stream is handled to
  -- its end without a panic, whatever VPP answers.
  pub balance_nse-ends :
      (selector : List (String × String)) (port : ℕ) (events : List ConnectionEvent)
      (s : State Handler)
      → AllEventsAddressed events
      → (t : State Handler) × (balance_nse v name selector port events s ≡ (ok tt, t))
  unfolding balance_nse forget filter_connections
  balance_nse-ends selector port [] s h =
      let ids = get_server_ids_by_vl3_name name s.own in
      ((delete_servers v name ids s).1, ignored_delete ids s)
  balance_nse-ends selector port (event ∷ events) s (here, later) =
      let (changes, filtered) =
        filter_from-some event.is_delete port selector event.connections no_changes here in
      let (u, applied) = apply_changes-ok changes s in
      let (t, rest) = balance_nse-ends selector port events u later in
      let run = λ (o : Option Changes).
        continue (apply_changes v name o s) (λ _. balance_nse v name selector port events) in
      (
        t,
        ap run filtered
            ∙ ap (λ q. continue q (λ _. balance_nse v name selector port events)) applied
            ∙ rest,
      )
