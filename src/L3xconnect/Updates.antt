-- ===== src/L3xconnect/Updates.antt =====
-- The path of each cross connect, against an independent description of its next hop.
use sdk_vpp.Prelude.{Bool, ◌||◌, not, Option, none, some, List, [], ◌∷◌, if◌then◌else◌}
use sdk_vpp.Types.{IpNet, is_v6, to_vpp_address, union_zero, AddressUnion}

-- The hops that are no nil pointers and, for IPv6, no IPv4 addresses
abbrev pub usable : Bool → List (Option IpNet) → List IpNet
usable is_ip6 [] = []
usable is_ip6 (none ∷ hops) = usable is_ip6 hops
usable is_ip6 (some nh ∷ hops) =
    let rest = usable is_ip6 hops in if not is_ip6 || is_v6 nh.ip then nh ∷ rest else rest

-- The address of the first, if there is one
abbrev pub next_hop : List IpNet → AddressUnion
next_hop [] = union_zero
next_hop (nh ∷ hops) = (to_vpp_address nh.ip).un
