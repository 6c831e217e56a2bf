-- ===== src/L3xconnect/Tests.antt =====
-- Instances of the theorems on the l3 cross connects, and runs.
use sdk_vpp.Prelude.{ℕ, ◌≡◌, ◌≢◌, refl, Bool, Option, none, some, List, [], ◌∷◌, arith}
use sdk_vpp.Types.{Ip, IpNet, mask}
use sdk_vpp.Exec.{State, ok}
use sdk_vpp.Chain.{Connection, Payload}
use sdk_vpp.Metadata.{no_metadata}
use sdk_vpp.Samples.{willing, conn, ten}
use sdk_vpp.L3xconnect.{create, del, l3xc_update_of}
use sdk_vpp.L3xconnect.Table.{held, create-del_table}

-- 2001:db8::1
abbrev six_ip : Ip
six_ip = 32 ∷ 1 ∷ 13 ∷ 184 ∷ 0 ∷ 0 ∷ 0 ∷ 0 ∷ 0 ∷ 0 ∷ 0 ∷ 0 ∷ 0 ∷ 0 ∷ 0 ∷ 1 ∷ []

abbrev six_net : IpNet
six_net = record { ip = six_ip; net_mask = mask 128 128 }

abbrev four_net : IpNet
four_net = record { ip = ten; net_mask = mask 32 32 }

abbrev hops : List (Option IpNet)
hops = some six_net ∷ some four_net ∷ []

abbrev dual : Connection
dual = record (conn Payload.ip) {
  context = some (record { mtu = 0; src_ip_nets = hops; dst_ip_nets = [] });
}

abbrev ready : State (Unit {0})
ready = record {
  calls = [];
  client = record no_metadata { if_index = some 1 };
  server = record no_metadata { if_index = some 2 };
  own = tt;
}

create-del_table_example :
    let t = (create willing dual ready).1 in
    let u = (del willing t).1 in
    ((create willing dual ready).0 ≡ ok tt)
    × ((six : Bool) → held t.calls 1 six ≡ some (l3xc_update_of 1 2 hops six))
    × ((six : Bool) → held t.calls 2 six ≡ some (l3xc_update_of 2 1 [] six))
    × ((del willing t).0 ≡ ok tt)
    × ((six : Bool) → held u.calls 1 six ≡ none)
    × ((six : Bool) → held u.calls 2 six ≡ none)
    × ((i : ℕ) (six : Bool)
        → 1 ≢ i
        → 2 ≢ i
        → (held t.calls i six ≡ none) × (held u.calls i six ≡ none))
create-del_table_example =
    create-del_table willing dual 1 2 ready refl refl (omega arith) (λ h c. refl)
