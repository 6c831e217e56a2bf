-- ===== src/Vl3lb/Tests.antt =====
-- Instances of the theorems on the load balancer, and runs.
use sdk_vpp.Prelude.{◌≡◌, refl, String, false, some, List, [], ◌∷◌}
use sdk_vpp.Prelude.Keys.{string_eq}
use sdk_vpp.Prelude.Assoc.{lookup, insert, erase}
use sdk_vpp.Types.{mask, to_vpp_address}
use sdk_vpp.Vpp.{Vpp, foreign}
use sdk_vpp.Exec.{State, ok, err}
use sdk_vpp.Chain.{Connection, Payload}
use sdk_vpp.Samples.{willing, fresh, conn, ten}
use sdk_vpp.Vl3lb.{
  Handler, Endpoint, new_handler, equals, all_paths, with_servers, send_paths, add_servers,
  delete_servers, get_server_ids_by_vl3_name,
}
use sdk_vpp.Vl3lb.Monitor.{ConnectionEvent, src_ip, balance_nse, filter_connections}
use sdk_vpp.Vl3lb.Sync.{IsSynced, held, known_paths, path_to, paths_to, balance_nse-IsSynced}
use sdk_vpp.Vl3lb.Cleanup.{SameOthers, servers_of, balance_nse-clears}
use sdk_vpp.Vl3lb.Lost.{add_servers_again}
use sdk_vpp.Vl3lb.Ends.{AllEventsAddressed, balance_nse-ends}

abbrev balancer : State Handler
balancer = fresh (new_handler (record { ip = ten; port = 80 }) 6)

abbrev server : Endpoint
server = record { ip = ten; port = 8080 }

abbrev web : Connection
web = record (conn Payload.ip) {
  labels = ("app", "web") ∷ [];
  context = some (record {
    mtu = 0;
    src_ip_nets = some (record { ip = ten; net_mask = mask 32 32 }) ∷ [];
    dst_ip_nets = [];
  });
}

abbrev selector : List (String × String)
selector = ("app", "web") ∷ []

abbrev arrival : ConnectionEvent
arrival = record {
  is_delete = false;
  connections = record { connection = web; is_down = false } ∷ [];
}

-- The server is there while the stream lasts.
added_paths :
    known_paths (add_servers willing "nse" (("c", server) ∷ []) balancer).1.own
    ≡ path_to (to_vpp_address ten) server ∷ []
unfolding new_handler add_servers lookup insert erase equals paths_to
added_paths = refl

-- A VPP that numbers from 0
abbrev numbering : Vpp
numbering = record willing { index = λ h c. 0 }

balancer-IsSynced : IsSynced numbering balancer
unfolding new_handler paths_to
balancer-IsSynced = refl

balance_nse-IsSynced_example :
    IsSynced numbering (balance_nse numbering "nse" selector 8080 (arrival ∷ []) balancer).1
balance_nse-IsSynced_example =
    balance_nse-IsSynced numbering (λ h c. refl) (λ h t. refl) "nse" selector 8080 (arrival ∷ [])
      balancer balancer-IsSynced

-- Two monitors share the handler without a lock. The first stores a server and collects its paths, the
-- second adds another server, and then the first sends what it collected: the second server is lost.
stored : State Handler
stored = record balancer { own = with_servers (insert "nse" (("c", server) ∷ []) []) balancer.own }

raced : State Handler
raced =
    (send_paths numbering stored.own (all_paths stored.own.lb_endpoint.addr stored.own.servers)
      (add_servers numbering "other" (("d", server) ∷ []) stored).1).1

stale_paths :
    ((held numbering raced.calls).1 ≡ path_to (to_vpp_address ten) server ∷ [])
    × (known_paths raced.own
        ≡ path_to (to_vpp_address ten) server ∷ path_to (to_vpp_address ten) server ∷ [])
unfolding raced stored new_handler add_servers lookup insert erase equals all_paths paths_to
stale_paths = (refl, refl)

handled : State Handler
handled = (balance_nse willing "nse" selector 8080 (arrival ∷ []) balancer).1

handled_ok : balance_nse willing "nse" selector 8080 (arrival ∷ []) balancer ≡ (ok tt, handled)
unfolding handled new_handler balance_nse filter_connections add_servers delete_servers
    get_server_ids_by_vl3_name lookup insert erase equals
handled_ok = refl

balance_nse-clears_example :
    (servers_of "nse" handled.own ≡ []) × SameOthers "nse" balancer.own handled.own
balance_nse-clears_example =
    balance_nse-clears willing "nse" selector 8080 (arrival ∷ []) balancer handled handled_ok

abbrev refusing : Vpp
refusing = record willing { fails = λ h c. some (foreign 1) }

refused : (add_servers refusing "nse" (("c", server) ∷ []) balancer).0 ≡ err (foreign 1)
unfolding new_handler add_servers lookup insert erase equals all_paths
refused = refl

add_servers_again_example :
    let t = (add_servers refusing "nse" (("c", server) ∷ []) balancer).1 in
    add_servers refusing "nse" (("c", server) ∷ []) t ≡ (ok tt, t)
add_servers_again_example = add_servers_again refusing "nse" "c" server balancer

all_addressed : AllEventsAddressed (arrival ∷ [])
unfolding src_ip
all_addressed = (((ten, refl), tt), tt)

balance_nse-ends_example :
    (t : State Handler) × (balance_nse refusing "nse" selector 8080 (arrival ∷ []) balancer
      ≡ (ok tt, t))
balance_nse-ends_example =
    balance_nse-ends refusing "nse" selector 8080 (arrival ∷ []) balancer all_addressed
